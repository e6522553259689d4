-- ===== src/Emulator/Valid.antt =====
-- The state that the operations of src/mips64/core.c keep.
use mips64_emulator.Base.{
  ℕ, ◌+◌, ◌%◌, ◌^◌, ◌<◌, ◌≤◌, ◌≡◌, ◌⊎◌, arith, Option, none, some, List, length, All, get_elem?,
  leb, ◌==◌, if◌then◌else◌,
}
use mips64_emulator.Base.Bits.{bit_and-mask}
use mips64_emulator.Types.{ok, unaligned_pc, little, big}
use mips64_emulator.Cpu
use mips64_emulator.Cpu.{Cpu}
use mips64_emulator.Emulator.{Emulator, is_instruction_aligned, memory_range_is_valid}
use mips64_emulator.Emulator.Access.{set_pc}

-- The pointer leads to a block of `n` bytes.
abbrev pub HasBlock : Option (List ℕ) → ℕ → Type 0
HasBlock none n = ⊥
HasBlock (some bs) n = (length bs ≡ n) × All (λ b. b < 256) bs

pub record IsValid (em : Emulator) : Type 0 where
  pub block : HasBlock em.memory em.memory_size
  pub not_empty : 0 < em.memory_size
  pub size_word : em.memory_size < 2 ^ 64
  pub configured_size : em.config.memory_size ≡ em.memory_size
  pub named_endian : (em.config.endian ≡ little) ⊎ (em.config.endian ≡ big)
  pub reset_aligned : em.config.reset_pc % 4 ≡ 0
  pub reset_inside : em.config.reset_pc ≤ em.memory_size
  pub processor : Cpu.IsValid em.cpu
  pub pc_aligned : em.cpu.pc % 4 ≡ 0

-- The byte of guest memory at an address, if there is one.
abbrev pub byte_at : Emulator → ℕ → Option ℕ
byte_at em j = elim em.memory [ none ↦ none | some bs ↦ get_elem? bs j ]

-- The range test, which subtracts, is the test on the sum.
pub memory_range_is_valid-eq :
    (em : Emulator) (address size : ℕ)
    → memory_range_is_valid (some em) address size ≡ leb (address + size) em.memory_size
unfolding memory_range_is_valid
memory_range_is_valid-eq em address size = ground arith

pub is_instruction_aligned-eq : (address : ℕ) → is_instruction_aligned address ≡ (address % 4 == 0)
unfolding is_instruction_aligned
is_instruction_aligned-eq address = ground (arith, bit_and-mask 2 address)

-- A valid emulator with a PC that is a multiple of 4.
pub with_pc-IsValid :
    (em : Emulator) (pc : ℕ)
    → IsValid em
    → pc < 2 ^ 64
    → pc % 4 ≡ 0
    → IsValid (record em { cpu = record em.cpu { pc = pc } })
with_pc-IsValid em pc v w a = record {
  block = v.block;
  not_empty = v.not_empty;
  size_word = v.size_word;
  configured_size = v.configured_size;
  named_endian = v.named_endian;
  reset_aligned = v.reset_aligned;
  reset_inside = v.reset_inside;
  processor = record {
    registers = v.processor.registers;
    words = v.processor.words;
    zero_register = v.processor.zero_register;
    pc_word = w;
    hi_word = v.processor.hi_word;
    lo_word = v.processor.lo_word;
  };
  pc_aligned = a;
}

pub with_memory-IsValid :
    (em : Emulator) (bs : List ℕ)
    → IsValid em
    → length bs ≡ em.memory_size
    → All (λ b. b < 256) bs
    → IsValid (record em { memory = some bs })
with_memory-IsValid em bs v l h = record {
  block = (l, h);
  not_empty = v.not_empty;
  size_word = v.size_word;
  configured_size = v.configured_size;
  named_endian = v.named_endian;
  reset_aligned = v.reset_aligned;
  reset_inside = v.reset_inside;
  processor = v.processor;
  pc_aligned = v.pc_aligned;
}

-- Setting the PC accepts the multiples of 4 and nothing else.
pub set_pc-eq :
    (em : Emulator) (pc : ℕ)
    → set_pc (some em) pc ≡ (
        if pc % 4 == 0
        then (ok, some (record em { cpu = record em.cpu { pc = pc } }))
        else (unaligned_pc, some em))
unfolding set_pc
set_pc-eq em pc = ground (arith, bit_and-mask 2 pc)
