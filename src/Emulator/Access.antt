-- ===== src/Emulator/Access.antt =====
-- src/mips64/core.c: the accesses of a host to the PC, the registers and the guest memory, and
-- the loading of a program.
use mips64_emulator.Base.{
  ℕ, zero, suc, ◌+◌, Option, none, some, List, Outcome, done, fault, access, ◌>>=◌, get_elem?, set,
  Bool, true, false, ◌&&◌, ◌==◌, not, if◌then◌else◌, bit_and,
}
use mips64_emulator.Types.{
  Status, ok, invalid_argument, address_out_of_range, unaligned_pc, not_implemented, ProgramImage,
}
use mips64_emulator.Emulator.{Emulator, memory_range_is_valid}

unfoldable pub get_pc : Option Emulator → Option ℕ → Status × Option ℕ
get_pc none out_pc = (invalid_argument, out_pc)
get_pc (some emulator) none = (invalid_argument, none)
get_pc (some emulator) (some old) = (ok, some emulator.cpu.pc)

unfoldable pub set_pc : Option Emulator → ℕ → Status × Option Emulator
set_pc none pc = (invalid_argument, none)
set_pc (some emulator) pc =
    if not (bit_and pc 3 == 0)
    then (unaligned_pc, some emulator)
    else (ok, some (record emulator { cpu = record emulator.cpu { pc = pc } }))

-- Neither of the two touches a register or the output.
unfoldable pub get_gpr : Option Emulator → ℕ → Option ℕ → Status × Option ℕ
get_gpr none index out = (invalid_argument, out)
get_gpr (some emulator) index out = (ok, out)

unfoldable pub set_gpr : Option Emulator → ℕ → ℕ → Status × Option Emulator
set_gpr none index value = (invalid_argument, none)
set_gpr (some emulator) index value = (ok, some emulator)

-- `out_data` is the object that the pointer leads to.
unfoldable pub read_memory : Option Emulator → ℕ → Option (List ℕ) → ℕ → Status × Option (List ℕ)
read_memory none guest_address out_data size = (invalid_argument, out_data)
read_memory (some emulator) guest_address none size = (invalid_argument, none)
read_memory (some emulator) guest_address (some old) size = (not_implemented, some old)

-- `memcpy(target + offset, source, n)`, from the byte `i` on; both objects have to be long enough.
unfoldable pub copy : List ℕ → ℕ → List ℕ → ℕ → ℕ → Outcome (List ℕ)
copy target offset source i zero = done target
copy target offset source i (suc n) = do
  b ← access (get_elem? source i)
  old ← access (get_elem? target (offset + i))
  copy (set target (offset + i) b) offset source (i + 1) n

unfoldable pub memcpy : Option (List ℕ) → ℕ → Option (List ℕ) → ℕ → Outcome (Option (List ℕ))
unfolding copy
memcpy none offset source n = fault
memcpy (some target) offset none n = fault
memcpy (some target) offset (some source) n = copy target offset source 0 n >>= λ t. done (some t)

abbrev pub is_null {ℓ} : {A : Type ℓ} → Option A → Bool
is_null none = true
is_null (some a) = false

unfoldable pub write_memory :
    Option Emulator → ℕ → Option (List ℕ) → ℕ → Outcome (Status × Option Emulator)
write_memory none guest_address bytes size = done (invalid_argument, none)
write_memory (some emulator) guest_address bytes size =
    if not (size == 0) && is_null bytes
    then done (invalid_argument, some emulator)
    else if not (memory_range_is_valid (some emulator) guest_address size)
    then done (address_out_of_range, some emulator)
    else if not (size == 0)
    then (memcpy emulator.memory guest_address bytes size >>= λ m.
        done (ok, some (record emulator { memory = m })))
    else done (ok, some emulator)

-- The end of `mips64_load_program`, after the image was written.
abbrev pub enter_program : ProgramImage → Status × Option Emulator → Status × Option Emulator
enter_program image (ok, emulator) =
    if not (image.set_pc_to_entry == 0) then set_pc emulator image.entry_point else (ok, emulator)
enter_program image (status, emulator) = (status, emulator)

unfoldable pub load_program :
    Option Emulator → Option ProgramImage → Outcome (Status × Option Emulator)
load_program none image = done (invalid_argument, none)
load_program (some emulator) none = done (invalid_argument, some emulator)
load_program (some emulator) (some image) =
    if not (image.size == 0) && is_null image.bytes
    then done (invalid_argument, some emulator)
    else (write_memory (some emulator) image.load_address image.bytes image.size >>= λ r.
        done (enter_program image r))
