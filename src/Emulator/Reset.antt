-- ===== src/Emulator/Reset.antt =====
-- `mips64_machine_reset`. It hands `&emulator->memory`, the address of the pointer, to
-- `mips64_cpu_reset` as if it were a `Mips64CPU`. What that call overwrites depends on the layout:
-- here 64-bit pointers and `size_t`, so that from `memory` on the object is 37 words.
use mips64_emulator.Base.{
  ℕ, zero, suc, Option, none, some, List, [], ◌∷◌, ◌++◌, Outcome, done, fault, ◌>>=◌, set, ◌==◌,
  not, if◌then◌else◌,
}
use mips64_emulator.Types.{Status, ok, invalid_argument}
use mips64_emulator.Emulator.{Emulator}

-- A word of the object: a pointer to a block or a number.
pub data Slot : Type 0 where
  pointer : Option (List ℕ) → Slot
  number : ℕ → Slot

unfoldable pub numbers_to_slots : List ℕ → List Slot
numbers_to_slots [] = []
numbers_to_slots (n ∷ ns) = number n ∷ numbers_to_slots ns

-- `memory`, `memory_size`, then `cpu`: 32 registers, `pc`, `hi`, `lo`.
abbrev pub slots : Emulator → List Slot
slots em =
    pointer em.memory
    ∷ number em.memory_size
    ∷ (numbers_to_slots em.cpu.gpr ++ number em.cpu.pc ∷ number em.cpu.hi ∷ number em.cpu.lo ∷ [])

unfoldable pub zero_words : ℕ → List Slot → List Slot
zero_words zero ws = ws
zero_words (suc n) [] = []
zero_words (suc n) (w ∷ ws) = number 0 ∷ zero_words n ws

-- `mips64_cpu_reset` on words: `memset` over the 35 words of a `Mips64CPU`, and `reset_pc` stored at
-- its member `pc`, which is word 32.
unfoldable pub cpu_reset_words : ℕ → List Slot → List Slot
unfolding zero_words
cpu_reset_words reset_pc ws = set (zero_words 35 ws) 32 (number reset_pc)

-- The words read back as members. A null pointer is all zeros; no other number is read as one.
abbrev pub as_pointer : Slot → Outcome (Option (List ℕ))
as_pointer (pointer m) = done m
as_pointer (number n) = if n == 0 then done none else fault

abbrev pub as_number : Slot → Outcome ℕ
as_number (pointer m) = fault
as_number (number n) = done n

unfoldable pub read_gpr : ℕ → List Slot → Outcome (List ℕ × List Slot)
read_gpr zero ws = done ([], ws)
read_gpr (suc n) [] = fault
read_gpr (suc n) (w ∷ ws) = do v ← as_number w; (vs, rest) ← read_gpr n ws; done (v ∷ vs, rest)

abbrev pub read_specials : Emulator → Option (List ℕ) → ℕ → List ℕ → List Slot → Outcome Emulator
read_specials em m size gpr (p ∷ h ∷ l ∷ []) = do
  pc ← as_number p
  hi ← as_number h
  lo ← as_number l
  done (record {
    config = em.config;
    memory = m;
    memory_size = size;
    cpu = record { gpr = gpr; pc = pc; hi = hi; lo = lo };
  })
read_specials em m size gpr _ = fault

unfoldable pub from_slots : Emulator → List Slot → Outcome Emulator
unfolding read_gpr
from_slots em (p ∷ s ∷ ws) = do
  m ← as_pointer p
  size ← as_number s
  (gpr, rest) ← read_gpr 32 ws
  read_specials em m size gpr rest
from_slots em _ = fault

abbrev pub zero_bytes : ℕ → List ℕ → Outcome (List ℕ)
zero_bytes zero bs = done bs
zero_bytes (suc n) [] = fault
zero_bytes (suc n) (b ∷ bs) = zero_bytes n bs >>= λ r. done (0 ∷ r)

-- `memset(memory, 0, size)`
abbrev pub memset_memory : Option (List ℕ) → ℕ → Outcome (Option (List ℕ))
memset_memory m zero = done m
memset_memory none (suc n) = fault
memset_memory (some bs) (suc n) = zero_bytes (suc n) bs >>= λ r. done (some r)

-- The second parameter is overwritten before it is read.
unfoldable pub machine_reset : Option Emulator → Status → Outcome (Status × Option Emulator)
unfolding from_slots
machine_reset none status = done (invalid_argument, none)
machine_reset (some em) status = do
  after ← from_slots em (cpu_reset_words em.config.reset_pc (slots em))
  if not (after.config.clear_memory_on_reset == 0)
      then (memset_memory after.memory after.memory_size >>= λ m.
          done (ok, some (record after { memory = m })))
      else done (ok, some after)
