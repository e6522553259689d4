-- ===== src/Emulator/AfterReset.antt =====
-- `mips64_machine_reset` on a valid emulator, and what is left of it.
use mips64_emulator.Base.{
  ℕ, zero, suc, ◌+◌, ◌≡◌, refl, ap, ◌∙◌, arith, none, some, List, [], ◌∷◌, ◌++◌, done, length, set,
  replicate, ◌==◌, not, Bool-cases, inl, inr,
}
use mips64_emulator.Types.{Status, ok, address_out_of_range}
use mips64_emulator.Emulator.Fetch.{step, fetch_instruction}
use mips64_emulator.Emulator.Access.{write_memory}
use mips64_emulator.Emulator.{
  Emulator, is_instruction_aligned, memory_range_is_valid, block, object, destroy,
}
use mips64_emulator.Emulator.Reset.{
  Slot, number, numbers_to_slots, slots, zero_words, cpu_reset_words, machine_reset,
}
use mips64_emulator.Emulator.Valid.{IsValid}

-- What a reset leaves: no memory, the reset PC in register 30, the PC at 0, HI and LO kept.
abbrev pub wrecked : Emulator → Emulator
wrecked em = record {
  config = em.config;
  memory = none;
  memory_size = 0;
  cpu = record {
    gpr = set (replicate 32 0) 30 em.config.reset_pc;
    pc = 0;
    hi = em.cpu.hi;
    lo = em.cpu.lo;
  };
}

length-numbers_to_slots : (ns : List ℕ) → length (numbers_to_slots ns) ≡ length ns
unfolding numbers_to_slots
length-numbers_to_slots [] = refl
length-numbers_to_slots (n ∷ ns) = ap suc (length-numbers_to_slots ns)

zero_words-append :
    (xs ys : List Slot) (n k : ℕ)
    → n ≡ length xs + k
    → zero_words n (xs ++ ys) ≡ replicate (length xs) (number 0) ++ zero_words k ys
unfolding zero_words
zero_words-append [] ys n k e = let same : n ≡ k = omega arith in rw same
zero_words-append (x ∷ xs) ys zero k e = absurd (omega arith)
zero_words-append (x ∷ xs) ys (suc n) k e =
    ap (λ (ws : List Slot). number 0 ∷ ws) (zero_words-append xs ys n k (omega arith))

-- The words that the misdirected call leaves, for 32 registers.
abbrev wrecked_words : Emulator → List Slot
wrecked_words em =
    number 0
    ∷ number 0
    ∷ set (replicate 32 (number 0) ++ number 0 ∷ number em.cpu.hi ∷ number em.cpu.lo ∷ []) 30
        (number em.config.reset_pc)

cpu_reset_words-slots :
    (em : Emulator)
    → length em.cpu.gpr ≡ 32
    → cpu_reset_words em.config.reset_pc (slots em) ≡ wrecked_words em
unfolding cpu_reset_words
cpu_reset_words-slots em l =
    let tail = number em.cpu.pc ∷ number em.cpu.hi ∷ number em.cpu.lo ∷ [] in
    let n : length (numbers_to_slots em.cpu.gpr) ≡ 32 = length-numbers_to_slots em.cpu.gpr ∙ l in
    rw (zero_words-append (numbers_to_slots em.cpu.gpr) tail 33 1 (omega arith), n) refl

-- A reset of any valid emulator, with any status argument, returns OK and does not reset the
-- machine: the pointer to the guest memory and its size become 0, and the reset PC lands in
-- register 30.
machine_reset-wrecked :
    (em : Emulator) (status : Status)
    → IsValid em
    → machine_reset (some em) status ≡ done (ok, some (wrecked em))
unfolding machine_reset
machine_reset-wrecked em status v =
    rw (cpu_reset_words-slots em v.processor.registers)
      (elim (Bool-cases (not (em.config.clear_memory_on_reset == 0))) [
        | inl clear ↦ rw clear
        | inr keep ↦ rw keep
      ])

-- After a reset of any valid emulator its memory cannot be used: a step leaves the memory, a
-- write of at least one byte is refused, destroying the emulator does not give the guest memory
-- back, and the emulator is not valid.
pub machine_reset-no_memory :
    (em : Emulator) (status : Status) (address size : ℕ) (bytes : List ℕ)
    → IsValid em
    → (out : Emulator) × (machine_reset (some em) status ≡ done (ok, some out))
      × (step (some out) none ≡ done (address_out_of_range, none))
      × (write_memory (some out) address (some bytes) (suc size)
          ≡ done (address_out_of_range, some out))
      × (destroy (some out) ≡ block none ∷ object ∷ [])
      × (¬ IsValid out)
unfolding step fetch_instruction is_instruction_aligned memory_range_is_valid write_memory destroy
machine_reset-no_memory em status address size bytes v =
    (wrecked em, machine_reset-wrecked em status v, refl, ground arith, refl, λ w. w.block)
