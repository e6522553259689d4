-- ===== src/Emulator.antt =====
-- The emulator object of src/mips64/core.c: its state, its creation and its end.
-- A `size_t` and a pointer have 64 bits, so the `SIZE_MAX > UINT64_MAX` branches are not compiled.
pub mod Access
pub mod Fetch
pub mod Reset
pub mod Valid
pub mod Create
pub mod Write
pub mod Load
pub mod Word
pub mod Steps
pub mod AfterReset
pub mod Session
pub mod Lifecycle
pub mod Dump
pub mod DumpLines
mod Tests
use mips64_emulator.Base.{
  ℕ, zero, suc, ◌+◌, ◌-◌, ◌*◌, ◌^◌, Bool, true, false, not, ◌||◌, Option, none, some, List, [], ◌∷◌,
  replicate, ltb, leb, ◌==◌, if◌then◌else◌, bit_and,
}
use mips64_emulator.Types.{
  Status, ok, invalid_argument, unaligned_pc, address_out_of_range, out_of_memory, Endian, big,
  is_little, is_big, Config,
}
use mips64_emulator.Cpu.{Cpu, zero_cpu}

-- `struct Mips64Emulator`; `memory` is the block that the pointer leads to, `none` for NULL.
pub record Emulator : Type 0 where
  pub config : Config
  pub memory : Option (List ℕ)
  pub memory_size : ℕ
  pub cpu : Cpu

unfoldable pub is_valid_endian : Endian → Bool
is_valid_endian endian = is_little endian || is_big endian

unfoldable pub is_instruction_aligned : ℕ → Bool
is_instruction_aligned address = bit_and address 3 == 0

unfoldable pub memory_range_is_valid : Option Emulator → ℕ → ℕ → Bool
memory_range_is_valid none guest_address size = false
memory_range_is_valid (some emulator) guest_address size =
    if ltb emulator.memory_size guest_address
    then false
    else leb size (emulator.memory_size - guest_address)

-- `MIPS64_DEFAULT_MEMORY_SIZE`
abbrev pub default_memory_size : ℕ
default_memory_size = 1024 * 1024

unfoldable pub config_default : Option Config → Option Config
config_default none = none
config_default (some c) = some (record {
  memory_size = default_memory_size;
  reset_pc = 0;
  endian = big;
  clear_memory_on_reset = 1;
})

-- `calloc`: a null pointer, or zeroed memory. Which one is up to the system: the first argument.
abbrev pub calloc : Bool → ℕ → ℕ → Option (List ℕ)
calloc false count size = none
calloc true count size = some (replicate (count * size) 0)

-- The fields after the two allocations; the rest is zero from `calloc`.
abbrev pub fresh : Config → List ℕ → Emulator
fresh config memory = record {
  config = config;
  memory = some memory;
  memory_size = config.memory_size;
  cpu = record zero_cpu { pc = config.reset_pc };
}

-- The allocations, of the object (`has_object`) and then of its memory (`has_memory`).
abbrev pub allocate : Bool → Bool → Config → Status × Option (Option Emulator)
allocate has_object has_memory config =
    if not has_object
    then (out_of_memory, some none)
    else elim (calloc has_memory config.memory_size 1) [
      | none ↦ (out_of_memory, some none)
      | some memory ↦ (ok, some (some (fresh config memory)))
    ]

-- `out_emulator` leads to a pointer to an emulator; the call returns what it leads to afterwards.
unfoldable pub create :
    Bool → Bool → Option Config → Option (Option Emulator) → Status × Option (Option Emulator)
create has_object has_memory none out = (invalid_argument, out)
create has_object has_memory (some config) none = (invalid_argument, none)
create has_object has_memory (some config) (some old) =
    if config.memory_size == 0
    then (invalid_argument, some none)
    else if not (is_valid_endian config.endian)
    then (invalid_argument, some none)
    else if not (is_instruction_aligned config.reset_pc)
    then (unaligned_pc, some none)
    else if ltb config.memory_size config.reset_pc
    then (address_out_of_range, some none)
    else allocate has_object has_memory config

-- What is given back to the system: the guest memory (or NULL) and the object itself.
pub data Freed : Type 0 where
  block : Option (List ℕ) → Freed
  object : Freed

unfoldable pub destroy : Option Emulator → List Freed
destroy none = []
destroy (some emulator) = block emulator.memory ∷ object ∷ []
