-- ===== src/Execute/Cycles.antt =====
-- The parts of the program one after another: a word of the memory of src/mips64/memory.c at the PC,
-- decoded by src/mips64/decode.c and executed by src/mips64/execute.c, as often as that succeeds.
pub mod Ends
pub mod Relation
pub mod Programs
use mathlib.Core.List.{reverse}
use mips64_emulator.Base.{
  ℕ, zero, suc, ◌+◌, ◌*◌, ◌%◌, ◌^◌, ◌<◌, ◌≤◌, ◌≡◌, ◌≢◌, refl, ap, arith, Option, none, some,
  Outcome, done, fault, ◌>>=◌, Bool, Bool-cases, true, inl, inr, ◌/◌, ◌∙◌, if◌then◌else◌, ltb, ◌==◌,
}
use mips64_emulator.Types.{
  Status, ok, invalid_argument, out_of_memory, address_out_of_range, invalid_register, unaligned_pc,
  step_limit_reached, not_implemented, internal_error, integer_overflow, is_little,
}
use mips64_emulator.Cpu.{Cpu, IsValid}
use mips64_emulator.Decode.{Decoded, decode_instruction}
use mips64_emulator.Memory
use mips64_emulator.Memory.{
  Memory, MemoryStatus, null_pointer, out_of_bounds, misaligned, read32, max_size,
}
use mips64_emulator.Memory.Spec.{word, access_status, when_ok, value_of, run_at, HoldsBytes}
use mips64_emulator.Memory.Read.{read-read_result}
use mips64_emulator.Execute.{execute}
use mips64_emulator.Execute.Safe.{word_effect, word_effect-IsValid, execute-word_effect, IsStep}

-- What ended a run: the number of rounds, a refused read, or a refused word.
pub data Ended : Type 0 where
  by_rounds : Ended
  by_memory : MemoryStatus → Ended
  by_word : Status → Ended

abbrev pub Run : Type 0
Run = Ended × Cpu

abbrev after_read : MemoryStatus → Option ℕ → (ℕ → Outcome Run) → Cpu → Outcome Run
after_read Memory.ok (some raw) k cpu = k raw
after_read Memory.ok none k cpu = fault
after_read s v k cpu = done (by_memory s, cpu)

abbrev after_word : Status → Option Cpu → (Cpu → Outcome Run) → Outcome Run
after_word s none k = fault
after_word ok (some cpu) k = k cpu
after_word s (some cpu) k = done (by_word s, cpu)

-- Each round reads into a word that is 0 and decodes into the same struct.
pub run_cycles : ℕ → Memory → Decoded → ℕ → Cpu → Outcome Run
run_cycles opcode_daddiu mem out zero cpu = done (by_rounds, cpu)
run_cycles opcode_daddiu mem out (suc n) cpu =
    let rest = run_cycles opcode_daddiu mem out n in
    read32 (some mem) cpu.pc (some 0) >>= λ (s, v).
    after_read s v
      (λ raw.
        (decode_instruction raw (some out) >>= λ i. execute opcode_daddiu (some cpu) (some i))
        >>= λ (s', c). after_word s' c rest)
      cpu

-- The bytes at an address, as a number in the memory's byte order.
abbrev pub word_at : Memory → ℕ → ℕ
word_at mem address = value_of mem.endian (run_at mem.memory address 4)

abbrev pub after_access : MemoryStatus → Run → Cpu → Run
after_access Memory.ok r cpu = r
after_access s r cpu = (by_memory s, cpu)

abbrev pub after_effect : Status → Cpu → (Cpu → Run) → Run
after_effect ok cpu k = k cpu
after_effect s cpu k = (by_word s, cpu)

-- What the rounds do, without the calls.
pub cycles_effect : ℕ → Memory → ℕ → Cpu → Run
cycles_effect opcode_daddiu mem zero cpu = (by_rounds, cpu)
cycles_effect opcode_daddiu mem (suc n) cpu =
    let rest = cycles_effect opcode_daddiu mem n in
    let effect = word_effect opcode_daddiu (word_at mem cpu.pc) cpu in
    after_access (access_status cpu.pc 4) (after_effect effect.0 effect.1 rest) cpu

decided :
    (s : MemoryStatus) (v : ℕ) (k : ℕ → Outcome Run) (r : Run) (cpu : Cpu)
    → k v ≡ done r
    → after_read s (when_ok s (some v) (some 0)) k cpu ≡ done (after_access s r cpu)
decided Memory.ok v k r cpu e = e
decided null_pointer v k r cpu e = refl
decided out_of_bounds v k r cpu e = refl
decided misaligned v k r cpu e = refl

went_on :
    (s : Status) (cpu : Cpu) (k : Cpu → Outcome Run) (k' : Cpu → Run)
    → k cpu ≡ done (k' cpu)
    → after_word s (some cpu) k ≡ done (after_effect s cpu k')
went_on ok cpu k k' e = e
went_on invalid_argument cpu k k' e = refl
went_on out_of_memory cpu k k' e = refl
went_on address_out_of_range cpu k k' e = refl
went_on invalid_register cpu k k' e = refl
went_on unaligned_pc cpu k k' e = refl
went_on step_limit_reached cpu k k' e = refl
went_on not_implemented cpu k k' e = refl
went_on internal_error cpu k k' e = refl
went_on integer_overflow cpu k k' e = refl

pub word_at-lt : (mem : Memory) (address : ℕ) → HoldsBytes mem → word_at mem address < 2 ^ 32
word_at-lt mem address h =
    let b0 = h address in
    let b1 = h (address + 1) in
    let b2 = h (address + 1 + 1) in
    let b3 = h (address + 1 + 1 + 1) in
    elim (Bool-cases (is_little mem.endian)) [
      | inl e ↦ rw e (omega (arith, b0, b1, b2, b3))
      | inr e ↦ rw e (omega (arith, b0, b1, b2, b3))
    ]

module _ (opcode_daddiu : ℕ) (mem : Memory) (bytes : HoldsBytes mem) where
  -- For every memory that holds bytes, valid processor, DADDIU opcode and number of rounds:
  -- reading the word at the PC with mips64_memory_read32, decoding it and executing it, again
  -- and again while each of them succeeds, meets no fault and does what an abstract machine does
  -- that takes the word from the bytes in the memory's byte order and applies the effect of its
  -- bits.
  pub run_cycles-effect :
      (out : Decoded) (n : ℕ) (cpu : Cpu)
      → IsValid cpu
      → run_cycles opcode_daddiu mem out n cpu ≡ done (cycles_effect opcode_daddiu mem n cpu)
  unfolding run_cycles cycles_effect
  run_cycles-effect out zero cpu v = refl
  run_cycles-effect out (suc n) cpu v =
      let raw = word_at mem cpu.pc in
      let effect = word_effect opcode_daddiu raw cpu in
      let valid = (word_effect-IsValid opcode_daddiu raw cpu v).0 in
      rw (read-read_result word (some mem) cpu.pc (some 0) bytes v.pc_word) (
        decided (access_status cpu.pc 4) raw _ _ cpu (
          rw (execute-word_effect opcode_daddiu raw cpu (word_at-lt mem cpu.pc bytes) v out) (
            went_on effect.0 effect.1 (run_cycles opcode_daddiu mem out n)
              (cycles_effect opcode_daddiu mem n) (run_cycles-effect out n effect.1 valid))))
