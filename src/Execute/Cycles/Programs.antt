-- ===== src/Execute/Cycles/Programs.antt =====
-- Programs in the memory of src/mips64/memory.c whose words src/mips64/execute.c implements.
use mips64_emulator.Base.{
  ℕ, zero, suc, ◌+◌, ◌*◌, ◌%◌, ◌^◌, ◌<◌, ◌≤◌, ◌≡◌, refl, ap, arith, done, Bool, Bool-cases, true,
  inl, inr, ◌/◌, ◌∙◌, if◌then◌else◌, ◌==◌,
}
use mips64_emulator.Types.{ok}
use mips64_emulator.Cpu.{Cpu, IsValid}
use mips64_emulator.Decode.{Decoded}
use mips64_emulator.Memory
use mips64_emulator.Memory.{
  Memory, MemoryStatus, null_pointer, out_of_bounds, misaligned, read32, max_size,
}
use mips64_emulator.Memory.Spec.{access_status, HoldsBytes}
use mips64_emulator.Execute.Safe.{word_effect, word_effect-IsValid}
use mips64_emulator.Execute.Cycles.{
  Ended, by_rounds, run_cycles, cycles_effect, word_at, run_cycles-effect,
}
use mips64_emulator.Execute.Cycles.Ends.{cycles_effect-IsRun}

-- The words that are executed: NOP, DADDU and DADDIU.
abbrev pub is_implemented : ℕ → ℕ → Bool
is_implemented opcode_daddiu raw =
    if raw == 0
    then true
    else if raw / 2 ^ 26 == 0
    then raw % 64 == 0x2D
    else raw / 2 ^ 26 == opcode_daddiu

implemented-ok :
    (opcode_daddiu raw : ℕ) (cpu : Cpu)
    → is_implemented opcode_daddiu raw ≡ true
    → (word_effect opcode_daddiu raw cpu).0 ≡ ok
implemented-ok opcode_daddiu raw cpu h = elim (Bool-cases (raw == 0)) [
  | inl nop ↦ rw nop refl
  | inr other ↦ elim (Bool-cases (raw / 2 ^ 26 == 0)) [
    | inl special ↦ rw (other, special, rw (other, special) at h) refl
    | inr op ↦ rw (other, op, rw (other, op) at h) refl
  ]
]

-- A word that is executed moves the PC on.
implemented-pc :
    (opcode_daddiu raw : ℕ) (cpu : Cpu)
    → IsValid cpu
    → is_implemented opcode_daddiu raw ≡ true
    → (word_effect opcode_daddiu raw cpu).1.pc ≡ (cpu.pc + 4) % 2 ^ 64
implemented-pc opcode_daddiu raw cpu v h =
    let s = implemented-ok opcode_daddiu raw cpu h in
    elim (word_effect-IsValid opcode_daddiu raw cpu v).1 [ inl moved ↦ moved.1 | inr refused ↦ cc ]

-- The next words of a program are implemented, and lie in the memory.
abbrev pub IsProgram : ℕ → Memory → ℕ → ℕ → Type 0
IsProgram opcode_daddiu mem n address =
    (address % 4 ≡ 0)
    × (address + 4 * n ≤ max_size)
    × ((i : ℕ) → i < n → is_implemented opcode_daddiu (word_at mem (address + 4 * i)) ≡ true)

cycles_effect-rounds :
    (opcode_daddiu : ℕ) (mem : Memory) (n : ℕ) (cpu : Cpu)
    → IsValid cpu
    → IsProgram opcode_daddiu mem n cpu.pc
    → (cycles_effect opcode_daddiu mem n cpu).0 ≡ by_rounds
unfolding cycles_effect
cycles_effect-rounds opcode_daddiu mem zero cpu v h = refl
cycles_effect-rounds opcode_daddiu mem (suc n) cpu v (start, inside, words) =
    let here : cpu.pc + 4 * 0 ≡ cpu.pc = omega arith in
    let word = rw here at (words 0 (omega arith)) in
    let raw = word_at mem cpu.pc in
    let next = (word_effect opcode_daddiu raw cpu).1 in
    let moved : next.pc ≡ cpu.pc + 4 =
      implemented-pc opcode_daddiu raw cpu v word ∙ omega (arith, inside) in
    let access : access_status cpu.pc 4 ≡ Memory.ok = ground (arith, start, inside) in
    rw (access, implemented-ok opcode_daddiu raw cpu word)
      (cycles_effect-rounds opcode_daddiu mem n next (word_effect-IsValid opcode_daddiu raw cpu v).0
        (rw moved (
          omega (arith, start),
          omega (arith, inside),
          λ i lt.
              let e : cpu.pc + 4 + 4 * i ≡ cpu.pc + 4 * (i + 1) = omega arith in
              rw e (words (i + 1) (omega arith)),
        )))

-- From a valid processor at an aligned PC, over a memory that holds bytes: if the next n words
-- lie in the memory and each of them is NOP, DADDU or DADDIU, n rounds of reading, decoding and
-- executing are all executed, none of them is refused, and they end with the PC 4 n further and
-- a valid processor.
pub run_cycles-by_rounds :
    (opcode_daddiu : ℕ) (mem : Memory) (out : Decoded) (n : ℕ) (cpu : Cpu)
    → HoldsBytes mem
    → IsValid cpu
    → IsProgram opcode_daddiu mem n cpu.pc
    → (cpu' : Cpu) × (run_cycles opcode_daddiu mem out n cpu ≡ done (by_rounds, cpu'))
      × IsValid cpu'
      × (cpu'.pc ≡ cpu.pc + 4 * n)
run_cycles-by_rounds opcode_daddiu mem out n cpu bytes v h =
    let r = cycles_effect opcode_daddiu mem n cpu in
    let run = cycles_effect-IsRun opcode_daddiu mem n cpu v in
    let ended : r.0 ≡ by_rounds = cycles_effect-rounds opcode_daddiu mem n cpu v h in
    (
      r.1,
      run_cycles-effect opcode_daddiu mem bytes out n cpu v
          ∙ ap (λ (x : Ended). done (x, r.1)) ended,
      run.valid,
      omega (arith, run.pc, run.whole ended, h.1),
    )
