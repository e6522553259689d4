-- ===== src/Execute/Cycles/Ends.antt =====
-- How a run ends that reads, decodes and executes words: src/mips64/memory.c, src/mips64/decode.c and
-- src/mips64/execute.c together.
use mips64_emulator.Base.{
  ℕ, zero, suc, ◌+◌, ◌*◌, ◌%◌, ◌^◌, ◌≤◌, ◌≡◌, ◌≢◌, refl, arith, done, Bool-cases, true, inl, inr,
  ◌∙◌, ltb, ◌==◌,
}
use mips64_emulator.Types.{Status, not_implemented}
use mips64_emulator.Cpu.{Cpu, IsValid}
use mips64_emulator.Decode.{Decoded}
use mips64_emulator.Memory
use mips64_emulator.Memory.{
  Memory, MemoryStatus, null_pointer, out_of_bounds, misaligned, read32, max_size,
}
use mips64_emulator.Memory.Spec.{access_status, HoldsBytes}
use mips64_emulator.Execute.Safe.{word_effect, word_effect-IsValid, IsStep}
use mips64_emulator.Execute.Cycles.{
  Ended, by_rounds, by_memory, by_word, Run, run_cycles, cycles_effect, after_access, after_effect,
  word_at, run_cycles-effect,
}

-- A run of at most `n` rounds: the PC counts the words that were executed, and the end has the
-- reason that it is given.
pub record IsRun (n : ℕ) (cpu : Cpu) (r : Run) : Type 0 where
  pub valid : IsValid r.1
  pub executed : ℕ
  pub few : executed ≤ n
  pub pc : r.1.pc ≡ (cpu.pc + 4 * executed) % 2 ^ 64
  pub whole : r.0 ≡ by_rounds → executed ≡ n
  pub memory_end : (s : MemoryStatus) → r.0 ≡ by_memory s → access_status r.1.pc 4 ≡ s
  pub word_end : (s : Status) → r.0 ≡ by_word s → s ≡ not_implemented
  pub aligned : cpu.pc % 4 ≡ 0 → r.0 ≢ by_memory misaligned

not_misaligned : (a : ℕ) → a % 4 ≡ 0 → access_status a 4 ≢ misaligned
not_misaligned a h q = elim (Bool-cases (ltb max_size (a + 4))) [
  | inl y ↦ let p = rw y at q in cc
  | inr y ↦ let z : (a % 4 == 0) ≡ true = ground arith in let p = rw (y, z) at q in cc
]

not_started :
    (n : ℕ) (cpu : Cpu) (s : MemoryStatus)
    → IsValid cpu
    → access_status cpu.pc 4 ≡ s
    → IsRun n cpu (by_memory s, cpu)
not_started n cpu s v e = record {
  valid = v;
  executed = 0;
  few = omega arith;
  pc = omega (arith, v.pc_word);
  whole = λ q. cc;
  memory_end = λ s' q. e ∙ memory_injective q;
  word_end = λ s' q. cc;
  aligned = λ h q. not_misaligned cpu.pc h (e ∙ memory_injective q);
}
  where
    memory_injective : {a b : MemoryStatus} → ◌≡◌ {A = Ended} (by_memory a) (by_memory b) → a ≡ b
    memory_injective q = cc

continued :
    (n : ℕ) (cpu c : Cpu) (s : Status) (k : Cpu → Run)
    → IsValid cpu
    → IsValid c
    → IsStep cpu s c
    → IsRun n c (k c)
    → IsRun (suc n) cpu (after_effect s c k)
continued n cpu c s k v v' (inl (e, moved)) r = rw e (record {
  valid = r.valid;
  executed = suc r.executed;
  few = omega (arith, r.few);
  pc = omega (arith, r.pc, moved);
  whole = λ q. omega (arith, r.whole q);
  memory_end = r.memory_end;
  word_end = r.word_end;
  aligned = λ h. r.aligned (omega (arith, moved));
})
continued n cpu c s k v v' (inr (e, same)) r =
    rw (e, same)
      (record {
        valid = v;
        executed = 0;
        few = omega arith;
        pc = omega (arith, v.pc_word);
        whole = λ q. cc;
        memory_end = λ s' q. cc;
        word_end = λ s' q. cc;
        aligned = λ h q. cc;
      })

pub cycles_effect-IsRun :
    (opcode_daddiu : ℕ) (mem : Memory) (n : ℕ) (cpu : Cpu)
    → IsValid cpu
    → IsRun n cpu (cycles_effect opcode_daddiu mem n cpu)
unfolding cycles_effect
cycles_effect-IsRun opcode_daddiu mem zero cpu v = record {
  valid = v;
  executed = 0;
  few = omega arith;
  pc = omega (arith, v.pc_word);
  whole = λ q. refl;
  memory_end = λ s q. cc;
  word_end = λ s q. cc;
  aligned = λ h q. cc;
}
cycles_effect-IsRun opcode_daddiu mem (suc n) cpu v =
    let raw = word_at mem cpu.pc in
    let effect = word_effect opcode_daddiu raw cpu in
    let (valid, step) = word_effect-IsValid opcode_daddiu raw cpu v in
    let rest = cycles_effect opcode_daddiu mem n in
    by_access (access_status cpu.pc 4) refl (
      continued n cpu effect.1 effect.0 rest v valid step
        (cycles_effect-IsRun opcode_daddiu mem n effect.1 valid))
  where
    by_access :
        (s : MemoryStatus) {r : Run}
        → access_status cpu.pc 4 ≡ s
        → IsRun (suc n) cpu r
        → IsRun (suc n) cpu (after_access s r cpu)
    by_access Memory.ok e h = h
    by_access null_pointer e h = not_started (suc n) cpu null_pointer v e
    by_access out_of_bounds e h = not_started (suc n) cpu out_of_bounds v e
    by_access misaligned e h = not_started (suc n) cpu misaligned v e

-- From a valid processor, over a memory that holds bytes, a run of at most n rounds of reading,
-- decoding and executing meets no fault and ends with a valid processor whose PC has moved by 4
-- for each of its at most n executed words, modulo 2 ^ 64: all n words if no refusal ended it;
-- otherwise a refused read, with the status of an access of four bytes at the last PC and never
-- as misaligned from an aligned PC, or a word, refused as not implemented.
pub run_cycles-IsRun :
    (opcode_daddiu : ℕ) (mem : Memory) (out : Decoded) (n : ℕ) (cpu : Cpu)
    → HoldsBytes mem
    → IsValid cpu
    → (r : Run) × (run_cycles opcode_daddiu mem out n cpu ≡ done r) × IsRun n cpu r
run_cycles-IsRun opcode_daddiu mem out n cpu bytes v = (
  cycles_effect opcode_daddiu mem n cpu,
  run_cycles-effect opcode_daddiu mem bytes out n cpu v,
  cycles_effect-IsRun opcode_daddiu mem n cpu v,
)
