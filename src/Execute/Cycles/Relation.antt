-- ===== src/Execute/Cycles/Relation.antt =====
-- The three instructions that src/mips64/execute.c dispatches, as a relation between processors, by the
-- layout of their words in the manual.
use mips64_emulator.Base.{
  ℕ, zero, suc, ◌+◌, ◌*◌, ◌/◌, ◌%◌, ◌^◌, ◌<◌, ◌≤◌, ◌≡◌, ◌≢◌, ◌↔◌, refl, sym, ap, ◌∙◌, arith, done,
  Bool-cases, true, false, inl, inr, ◌==◌, Outcome,
}
use mips64_emulator.Base.Int.{pos, signed64, ◌+ℤ◌, ℤ_to_u64}
use mips64_emulator.Types.{Status, ok}
use mips64_emulator.Cpu.{Cpu, IsValid}
use mips64_emulator.Decode.{Decoded}
use mips64_emulator.Memory
use mips64_emulator.Memory.{Memory, MemoryStatus, null_pointer, out_of_bounds, misaligned, max_size}
use mips64_emulator.Memory.Spec.{access_status, HoldsBytes}
use mips64_emulator.Execute.Arith.{after}
use mips64_emulator.Execute.Safe.{reg, skipped, word_effect, word_effect-IsValid, IsStep}
use mips64_emulator.Execute.Cycles.{
  by_rounds, Run, run_cycles, cycles_effect, after_access, after_effect, word_at, word_at-lt,
  run_cycles-effect,
}

-- A word of an instruction lies in the memory.
abbrev pub IsInMemory : ℕ → Type 0
IsInMemory address = (address % 4 ≡ 0) × (address + 4 ≤ max_size)

-- Four fields of five bits and the function code.
abbrev pub daddu_word : ℕ → ℕ → ℕ → ℕ → ℕ
daddu_word rs rt rd sa = rs * 2 ^ 21 + rt * 2 ^ 16 + rd * 2 ^ 11 + sa * 2 ^ 6 + 0x2D

abbrev pub daddiu_word : ℕ → ℕ → ℕ → ℕ → ℕ
daddiu_word opcode rs rt immediate = opcode * 2 ^ 26 + rs * 2 ^ 21 + rt * 2 ^ 16 + immediate

-- The processor moves by the word at its PC. Of the immediate only the lowest 12 bits count.
pub data Moves (opcode_daddiu : ℕ) (mem : Memory) : Cpu → Cpu → Type 0 where
  nop :
      (cpu : Cpu)
      → IsInMemory cpu.pc
      → word_at mem cpu.pc ≡ 0
      → Moves opcode_daddiu mem cpu (skipped cpu)
  daddu :
      (cpu : Cpu) (rs rt rd sa : ℕ)
      → IsInMemory cpu.pc
      → (rs < 32) × (rt < 32) × (rd < 32) × (sa < 32)
      → word_at mem cpu.pc ≡ daddu_word rs rt rd sa
      → Moves opcode_daddiu mem cpu (after cpu rd ((reg cpu rs + reg cpu rt) % 2 ^ 64))
  daddiu :
      (cpu : Cpu) (rs rt immediate : ℕ)
      → IsInMemory cpu.pc
      → (opcode_daddiu ≢ 0) × (rs < 32) × (rt < 32) × (immediate < 2 ^ 16)
      → word_at mem cpu.pc ≡ daddiu_word opcode_daddiu rs rt immediate
      → Moves opcode_daddiu mem cpu
          (after cpu rt (ℤ_to_u64 (signed64 (reg cpu rs) +ℤ pos (immediate % 2 ^ 12))))

-- As many moves as rounds.
pub data Reaches (opcode_daddiu : ℕ) (mem : Memory) : ℕ → Cpu → Cpu → Type 0 where
  here : (cpu : Cpu) → Reaches opcode_daddiu mem zero cpu cpu
  further :
      {n : ℕ} {cpu next last : Cpu}
      → Moves opcode_daddiu mem cpu next
      → Reaches opcode_daddiu mem n next last
      → Reaches opcode_daddiu mem (suc n) cpu last

access-ok : (a : ℕ) → IsInMemory a → access_status a 4 ≡ Memory.ok
access-ok a (start, inside) = ground arith

ok-access : (a : ℕ) → access_status a 4 ≡ Memory.ok → IsInMemory a
ok-access a e = ground arith

abbrev Effect : Type 0
Effect = Status × Cpu

daddu-effect :
    (opcode_daddiu rs rt rd sa : ℕ) (cpu : Cpu)
    → (rs < 32) × (rt < 32) × (rd < 32) × (sa < 32)
    → word_effect opcode_daddiu (daddu_word rs rt rd sa) cpu
      ≡ (ok, after cpu rd ((reg cpu rs + reg cpu rt) % 2 ^ 64))
daddu-effect opcode_daddiu rs rt rd sa cpu (hs, ht, hd, ha) =
    let raw = daddu_word rs rt rd sa in
    let a : (raw == 0) ≡ false = ground arith in
    let b : (raw / 2 ^ 26 == 0) ≡ true = ground arith in
    let c : (raw % 64 == 0x2D) ≡ true = ground arith in
    let s : raw / 2 ^ 21 % 32 ≡ rs = omega arith in
    let t : raw / 2 ^ 16 % 32 ≡ rt = omega arith in
    let d : raw / 2 ^ 11 % 32 ≡ rd = omega arith in rw (a, b, c, s, t, d) refl

daddiu-effect :
    (opcode_daddiu rs rt immediate : ℕ) (cpu : Cpu)
    → (opcode_daddiu ≢ 0) × (rs < 32) × (rt < 32) × (immediate < 2 ^ 16)
    → word_effect opcode_daddiu (daddiu_word opcode_daddiu rs rt immediate) cpu
      ≡ (ok, after cpu rt (ℤ_to_u64 (signed64 (reg cpu rs) +ℤ pos (immediate % 2 ^ 12))))
daddiu-effect opcode_daddiu rs rt immediate cpu (ho, hs, ht, hi) =
    let raw = daddiu_word opcode_daddiu rs rt immediate in
    let a : (raw == 0) ≡ false = ground arith in
    let b : (raw / 2 ^ 26 == 0) ≡ false = ground arith in
    let c : (raw / 2 ^ 26 == opcode_daddiu) ≡ true = ground arith in
    let s : raw / 2 ^ 21 % 32 ≡ rs = omega arith in
    let t : raw / 2 ^ 16 % 32 ≡ rt = omega arith in
    let i : raw % 2 ^ 12 ≡ immediate % 2 ^ 12 = omega arith in rw (a, b, c, s, t, i) refl

-- A move is what the word's bits say.
Moves-effect :
    {opcode_daddiu : ℕ} {mem : Memory} {cpu next : Cpu}
    → Moves opcode_daddiu mem cpu next
    → (access_status cpu.pc 4 ≡ Memory.ok)
      × (word_effect opcode_daddiu (word_at mem cpu.pc) cpu ≡ (ok, next))
Moves-effect (nop cpu h e) = (access-ok cpu.pc h, rw e refl)
Moves-effect {opcode_daddiu = o} (daddu cpu rs rt rd sa h f e) =
    (access-ok cpu.pc h, rw e (daddu-effect o rs rt rd sa cpu f))
Moves-effect {opcode_daddiu = o} (daddiu cpu rs rt immediate h f e) =
    (access-ok cpu.pc h, rw e (daddiu-effect o rs rt immediate cpu f))

effect-Moves :
    (opcode_daddiu : ℕ) (mem : Memory) (cpu : Cpu) (raw : ℕ)
    → raw < 2 ^ 32
    → word_at mem cpu.pc ≡ raw
    → IsInMemory cpu.pc
    → (word_effect opcode_daddiu raw cpu).0 ≡ ok
    → Moves opcode_daddiu mem cpu (word_effect opcode_daddiu raw cpu).1
effect-Moves opcode_daddiu mem cpu raw lt same h e = elim (Bool-cases (raw == 0)) [
  | inl a ↦ rw a (nop cpu h (same ∙ ground arith))
  | inr a ↦ elim (Bool-cases (raw / 2 ^ 26 == 0)) [
    | inl b ↦ elim (Bool-cases (raw % 64 == 0x2D)) [
      | inl c ↦
          rw (a, b, c)
            (daddu cpu (raw / 2 ^ 21 % 32) (raw / 2 ^ 16 % 32) (raw / 2 ^ 11 % 32)
              (raw / 2 ^ 6 % 32) h (omega arith, omega arith, omega arith, omega arith)
              (same ∙ ground arith))
      | inr c ↦ let refused = rw (a, b, c) at e in cc
    ]
    | inr b ↦ elim (Bool-cases (raw / 2 ^ 26 == opcode_daddiu)) [
      | inl c ↦
          let opcode : raw / 2 ^ 26 ≡ opcode_daddiu = ground arith in
          let low : raw % 2 ^ 12 ≡ raw % 2 ^ 16 % 2 ^ 12 = omega arith in
          rw (a, b, c, low)
            (daddiu cpu (raw / 2 ^ 21 % 32) (raw / 2 ^ 16 % 32) (raw % 2 ^ 16) h
              (ground arith, omega arith, omega arith, omega arith) (same ∙ omega (arith, opcode)))
      | inr c ↦ let refused = rw (a, b, c) at e in cc
    ]
  ]
]

cycles_effect-Reaches :
    (opcode_daddiu : ℕ) (mem : Memory) (n : ℕ) (cpu last : Cpu)
    → HoldsBytes mem
    → IsValid cpu
    → cycles_effect opcode_daddiu mem n cpu ≡ (by_rounds, last)
    → Reaches opcode_daddiu mem n cpu last
unfolding cycles_effect
cycles_effect-Reaches opcode_daddiu mem zero cpu last bytes v e = rw (← same e) (here cpu)
  where
    same : ◌≡◌ {A = Run} (by_rounds, cpu) (by_rounds, last) → cpu ≡ last
    same e = ap (λ (r : Run). r.1) e
cycles_effect-Reaches opcode_daddiu mem (suc n) cpu last bytes v e =
    let raw = word_at mem cpu.pc in
    let effect = word_effect opcode_daddiu raw cpu in
    let (valid, step) = word_effect-IsValid opcode_daddiu raw cpu v in
    let rest = cycles_effect opcode_daddiu mem n in
    let (accepted, went) =
      by_access (access_status cpu.pc 4) (after_effect effect.0 effect.1 rest) e in
    let (executed, on) = by_step effect.0 effect.1 rest step went in
    further
      (effect-Moves opcode_daddiu mem cpu raw (word_at-lt mem cpu.pc bytes) refl
        (ok-access cpu.pc accepted) executed)
      (cycles_effect-Reaches opcode_daddiu mem n effect.1 last bytes valid on)
  where
    by_access :
        (s : MemoryStatus) (r : Run)
        → after_access s r cpu ≡ (by_rounds, last)
        → (s ≡ Memory.ok) × (r ≡ (by_rounds, last))
    by_access Memory.ok r e = (refl, e)
    by_access null_pointer r e = cc
    by_access out_of_bounds r e = cc
    by_access misaligned r e = cc

    by_step :
        (s : Status) (c : Cpu) (k : Cpu → Run)
        → IsStep cpu s c
        → after_effect s c k ≡ (by_rounds, last)
        → (s ≡ ok) × (k c ≡ (by_rounds, last))
    by_step s c k (inl (e, moved)) h = (e, rw e at h)
    by_step s c k (inr (e, same)) h = let refused = rw e at h in cc

Reaches-cycles_effect :
    {opcode_daddiu : ℕ} {mem : Memory} {n : ℕ} {cpu last : Cpu}
    → Reaches opcode_daddiu mem n cpu last
    → cycles_effect opcode_daddiu mem n cpu ≡ (by_rounds, last)
unfolding cycles_effect
Reaches-cycles_effect (here cpu) = refl
Reaches-cycles_effect (further m r) =
    let (accepted, effect) = Moves-effect m in rw (accepted, effect) (Reaches-cycles_effect r)

-- From a valid processor, over a memory that holds bytes, with any DADDIU opcode: n rounds of
-- reading the word at the PC with mips64_memory_read32, decoding it and executing it are all
-- executed and end in a processor exactly if n moves lead there. A move is a relation by the
-- words that the manual lays out, in the memory and aligned: NOP; DADDU, which writes the sum
-- modulo 2 ^ 64; and DADDIU, if its opcode is not 0, which adds the lowest 12 bits of the
-- immediate.
pub run_cycles-Reaches :
    (opcode_daddiu : ℕ) (mem : Memory) (out : Decoded) (n : ℕ) (cpu last : Cpu)
    → HoldsBytes mem
    → IsValid cpu
    → (run_cycles opcode_daddiu mem out n cpu ≡ done (by_rounds, last))
      ↔ Reaches opcode_daddiu mem n cpu last
run_cycles-Reaches opcode_daddiu mem out n cpu last bytes v =
    let same = run_cycles-effect opcode_daddiu mem bytes out n cpu v in
    (
      λ e.
          cycles_effect-Reaches opcode_daddiu mem n cpu last bytes v
            (done_injective (sym same ∙ e)),
      λ r. same ∙ ap done (Reaches-cycles_effect r),
    )
  where
    done_injective : {a b : Run} → ◌≡◌ {A = Outcome Run} (done a) (done b) → a ≡ b
    done_injective e = cc
