-- ===== src/Cpu.antt =====
-- The processor state and its accessors: include/mips64/cpu.h and src/mips64/cpu.c.
-- A pointer is an `Option`: `none` is NULL, `some` is the object that it leads to. An output
-- parameter is such a pointer too, and the call returns what stands behind it afterwards.
pub mod Valid
pub mod Api
mod Tests
use mips64_emulator.Base.{
  ℕ, ◌<◌, ◌≡◌, ◌^◌, Option, none, some, List, Outcome, done, fault, access, ◌>>=◌, length, All,
  get_elem?, set, replicate, leb, ◌==◌, if◌then◌else◌, not, bit_and,
}
use mips64_emulator.Types.{Status, ok, invalid_argument, invalid_register, unaligned_pc}

-- `MIPS64_GPR_COUNT`
abbrev pub gpr_count : ℕ
gpr_count = 32

-- `Mips64CPU`
pub record Cpu : Type 0 where
  pub gpr : List ℕ
  pub pc : ℕ
  pub hi : ℕ
  pub lo : ℕ

-- `memset(cpu, 0, sizeof(*cpu))`
abbrev pub zero_cpu : Cpu
zero_cpu = record { gpr = replicate gpr_count 0; pc = 0; hi = 0; lo = 0 }

-- A null pointer reaches a `return` with no value, in a function that has one.
unfoldable pub reset : Option Cpu → ℕ → Outcome (Status × Option Cpu)
reset none reset_pc = fault
reset (some cpu) reset_pc = done (ok, some (record zero_cpu { pc = reset_pc }))

unfoldable pub get_gpr : Option Cpu → ℕ → Option ℕ → Outcome (Status × Option ℕ)
get_gpr none index out_value = done (invalid_argument, out_value)
get_gpr (some cpu) index none = done (invalid_argument, none)
get_gpr (some cpu) index (some old) =
    if leb gpr_count index
    then done (invalid_register, some old)
    else if index == 0
    then done (ok, some 0)
    else (access (get_elem? cpu.gpr index) >>= λ v. done (ok, some v))

-- `cpu->gpr[index] = value`: the element has to be there.
abbrev pub put_gpr : Cpu → ℕ → ℕ → Outcome Cpu
put_gpr cpu index value =
    access (get_elem? cpu.gpr index) >>= λ _. done (record cpu { gpr = set cpu.gpr index value })

-- `if (index != 0) cpu->gpr[index] = value; cpu->gpr[0] = 0;`, here and in the instructions
unfoldable pub write_gpr : Cpu → ℕ → ℕ → Outcome Cpu
write_gpr cpu index value = do
  c ← if not (index == 0) then put_gpr cpu index value else done cpu
  put_gpr c 0 0

unfoldable pub set_gpr : Option Cpu → ℕ → ℕ → Outcome (Status × Option Cpu)
set_gpr none index value = done (invalid_argument, none)
set_gpr (some cpu) index value =
    if leb gpr_count index
    then done (invalid_register, some cpu)
    else (write_gpr cpu index value >>= λ c. done (ok, some c))

unfoldable pub get_pc : Option Cpu → Option ℕ → Outcome (Status × Option ℕ)
get_pc none out_pc = done (invalid_argument, out_pc)
get_pc (some cpu) none = done (invalid_argument, none)
get_pc (some cpu) (some old) = done (ok, some cpu.pc)

unfoldable pub set_pc : Option Cpu → ℕ → Outcome (Status × Option Cpu)
set_pc none pc = done (invalid_argument, none)
set_pc (some cpu) pc =
    if not (bit_and pc 3 == 0)
    then done (unaligned_pc, some cpu)
    else done (ok, some (record cpu { pc = pc }))

-- What a processor state that the emulator keeps looks like: 32 registers of 64 bits, of which
-- register 0 is zero, and 64-bit PC, HI and LO.
pub record IsValid (cpu : Cpu) : Type 0 where
  pub registers : length cpu.gpr ≡ 32
  pub words : All (λ v. v < 2 ^ 64) cpu.gpr
  pub zero_register : get_elem? cpu.gpr 0 ≡ some 0
  pub pc_word : cpu.pc < 2 ^ 64
  pub hi_word : cpu.hi < 2 ^ 64
  pub lo_word : cpu.lo < 2 ^ 64
