-- ===== src/Jit/Runs/Branch.antt =====
-- The execution of what `JIT_BRANCH` and `JIT_NBRANCH` of src/mips64/jit_compiler_x64.c lay.
use mips64_emulator.Base.{
  zero, suc, ◌≡◌, refl, ap, ◌∙◌, arith, Bool, Bool-cases, inl, inr, true, false, not, ◌||◌, ◌==◌,
  if◌then◌else◌, done,
}
use mips64_emulator.Base.Int.{ℤ, pos, negsuc, ltb_ℤ, ℤ_to_u32, signed64}
use mips64_emulator.Memory.{update}
use mips64_emulator.Jit.{Parsing, Emitter, ◌⨾◌, skip, ◌==ℤ◌, info, info_jump, truth}
use mips64_emulator.Jit.Forms.{jump_zero, jump_not_zero}
use mips64_emulator.Jit.Instructions.{r0, rax, al, sete, movzx, jmp, cmp64, cmpi8}
use mips64_emulator.Jit.Branch.{minus_one, jit_branch, jit_nbranch, jit_jump}
use mips64_emulator.Jit.Ops.{Op, op_branch, op_nbranch, perform}
use mips64_emulator.Jit.Program.{HasSpace}
use mips64_emulator.Jit.X64.{
  set, zero_extend, equal, test, jump_if, Registers, Machine, Flags, known, unknown, Execution,
  running, jumped, execute_ins,
}
use mips64_emulator.Jit.X64.Run.{then_run, run_code}
use mips64_emulator.Jit.Computes.{Effect, and_then, Computes, Computes-⨾, Computes-skip}
use mips64_emulator.Jit.Computes.Plain.{
  Computes-sete, Computes-movzx, Computes-jmp, Computes-jump_zero, Computes-jump_not_zero,
}
use mips64_emulator.Jit.Arithmetic.{IsRegister, value, on}
use mips64_emulator.Jit.Arithmetic.Compares.{
  compare_effect, compare-Computes, truth_effect, truth_effect-known,
}
use mips64_emulator.Jit.Runs.{code_between, info-runs, info-jump-runs}

-- Of the two functions, the one that jumps where the operands are equal, and the other.
abbrev pub op_of_branch : Bool → ℤ → ℤ → ℤ → Op
op_of_branch true = op_branch
op_of_branch false = op_nbranch

abbrev pub is_equal : ℤ → ℤ → Registers → Bool
is_equal s t r = value r s == value r t

-- Whether the operands are equal, for operands that are not one register.
abbrev pub with_outcome : ℤ → ℤ → Machine → Machine
with_outcome s t m = if s ==ℤ t then m else on (λ r. update r 0 (truth (is_equal s t r))) m

-- The jump goes by the offset from the end of the bytes.
abbrev pub branched : Bool → Bool → ℤ → Machine → Flags → Execution
branched j b o m fl = if (if j then b else not b) then jumped (ℤ_to_u32 o) m else running m fl

-- Operands that differ as numbers of registers: one of them at least is a register.
abbrev either_steps : ℤ → ℤ → Emitter
either_steps s t =
    if s ==ℤ r0 then cmpi8 t (pos 0) else (if t ==ℤ r0 then cmpi8 s (pos 0) else cmp64 s t)

-- The registers, of which the equality alone is told.
record Compared (s t : ℤ) : Type 0 where
  does : Effect
  computes : Computes 4 (either_steps s t) does
  tells :
      (m : Machine) (fl : Flags)
      → (l : Bool) × (does m fl ≡ running m (known (is_equal s t m.registers) l))

either-Compared : (s t : ℤ) → IsRegister s → IsRegister t → (s ==ℤ t) ≡ false → Compared s t
either-Compared (pos s) t hs ht e =
    let k : (pos s ==ℤ r0) ≡ false = ground arith in
    record {
      does = compare_effect s t;
      computes = rw k (compare-Computes s t hs ht);
      tells = λ m fl. (_, refl);
    }
either-Compared (negsuc zero) (pos t) hs ht e = record {
  does = compare_effect t r0;
  computes = compare-Computes t r0 ht tt;
  tells = λ m fl.
      let l = ltb_ℤ (signed64 (m.registers t)) (signed64 0) in
      let e : (m.registers t == 0) ≡ (0 == m.registers t) = ground arith in
      (l, ap (λ (b : Bool). running m (known b l)) e);
}
either-Compared (negsuc zero) (negsuc zero) hs ht e = absurd (ground arith)
either-Compared (negsuc (suc s)) t hs ht e = absurd hs
either-Compared (negsuc zero) (negsuc (suc t)) hs ht e = absurd ht

abbrev jump_on : Bool → ℤ → Emitter
jump_on true = jump_not_zero
jump_on false = jump_zero

abbrev branch_steps : Bool → ℤ → ℤ → ℤ → Emitter
branch_steps j s t o = either_steps s t ⨾ sete al ⨾ movzx rax al ⨾ jump_on j o

jump_effect : Bool → ℤ → Effect
jump_effect j o = and_then (execute_ins (test 0)) (execute_ins (jump_if (not j) (ℤ_to_u32 o)))

jump_on-Computes : (j : Bool) (o : ℤ) → Computes 8 (jump_on j o) (jump_effect j o)
unfolding jump_effect
jump_on-Computes true o = Computes-jump_not_zero o
jump_on-Computes false o = Computes-jump_zero o

branch_effect : Bool → ℤ → Effect → Effect
branch_effect j o g =
    and_then (and_then (and_then g (execute_ins (set equal 0))) (execute_ins (zero_extend 0 0)))
      (jump_effect j o)

abbrev with_truth : Bool → Machine → Machine
with_truth b = on (λ r. update r 0 (truth b))

jump_effect-truth :
    (j b : Bool) (o : ℤ) (m : Machine) (fl : Flags)
    → jump_effect j o (with_truth b m) fl ≡ branched j b o (with_truth b m) (known (not b) false)
unfolding jump_effect execute_ins
jump_effect-truth true true o m fl = refl
jump_effect-truth true false o m fl = refl
jump_effect-truth false true o m fl = refl
jump_effect-truth false false o m fl = refl

branch_effect-meaning :
    (j : Bool) (s t o : ℤ) (c : Compared s t) (m : Machine) (fl : Flags)
    → (s ==ℤ t) ≡ false
    → branch_effect j o c.does m fl
      ≡ branched j
          (is_equal s t m.registers)
          o
          (with_outcome s t m)
          (known (not (is_equal s t m.registers)) false)
unfolding branch_effect truth_effect
branch_effect-meaning j s t o c m fl e =
    let z = is_equal s t m.registers in
    let (l, told) = c.tells m fl in
    rw told (
      ap (λ (x : Execution). then_run x (jump_effect j o)) (truth_effect-known equal z l m)
      ∙ rw e (jump_effect-truth j z o m (known z l)))

branch-Computes :
    (j : Bool) (s t o : ℤ) (c : Compared s t)
    → Computes 18 (branch_steps j s t o) (branch_effect j o c.does)
unfolding branch_effect
branch-Computes j s t o c =
    Computes-⨾ (Computes-⨾ (Computes-⨾ c.computes Computes-sete) Computes-movzx)
      (jump_on-Computes j o)

abbrev pub is_offset : ℤ → Bool
is_offset o = ltb_ℤ (pos 0) o || ltb_ℤ o minus_one

perform-differ :
    (j : Bool) (s t o : ℤ) (p : Parsing)
    → is_offset o ≡ true
    → (s ==ℤ t) ≡ false
    → perform (op_of_branch j s t o) p ≡ (info ⨾ (branch_steps j s t o ⨾ info_jump)) p
unfolding jit_branch jit_nbranch
perform-differ true s t o p h e = rw (e, h) refl
perform-differ false s t o p h e = rw (e, h) refl

perform-same :
    (j : Bool) (s t o : ℤ) (p : Parsing)
    → is_offset o ≡ true
    → (s ==ℤ t) ≡ true
    → perform (op_of_branch j s t o) p ≡ (if j then info ⨾ (jmp o ⨾ info_jump) else info ⨾ skip) p
unfolding jit_branch jit_nbranch jit_jump
perform-same true s t o p h e =
    let k : (not (o ==ℤ r0) || ltb_ℤ o minus_one) ≡ true = ground arith in rw (e, k) refl
perform-same false s t o p h e = rw (e, h) refl

equal_self : (s t : ℤ) (r : Registers) → (s ==ℤ t) ≡ true → is_equal s t r ≡ true
equal_self (pos s) (pos t) r e = let k : t ≡ s = ground arith in rw k (ground arith)
equal_self (negsuc s) (negsuc t) r e = refl
equal_self (pos s) (negsuc t) r e = absurd (ground arith)
equal_self (negsuc s) (pos t) r e = absurd (ground arith)

-- One register twice: a jump, or nothing.
perform-branch_same :
    (j : Bool) (s t o : ℤ) (p : Parsing) (m : Machine)
    → is_offset o ≡ true
    → (s ==ℤ t) ≡ true
    → HasSpace 1 p
    → (q : Parsing) × (fl : Flags) × (perform (op_of_branch j s t o) p ≡ done q)
      × (run_code (code_between p q) m
          ≡ branched j (is_equal s t m.registers) o (with_outcome s t m) fl)
unfolding execute_ins
perform-branch_same true s t o p m ho e space =
    let (q, lays, runs) = info-jump-runs (omega arith) (Computes-jmp o) p space m in
    (q, unknown, perform-same true s t o p ho e ∙ lays, rw (e, equal_self s t m.registers e) runs)
perform-branch_same false s t o p m ho e space =
    let (q, lays, runs) = info-runs (omega arith) Computes-skip p space m in
    (q, unknown, perform-same false s t o p ho e ∙ lays, rw (e, equal_self s t m.registers e) runs)

-- JIT_BRANCH and JIT_NBRANCH of any two registers or JIT_R0, with an offset other than 0 and
-- JIT_R0 and with room, are laid with no fault; an x86-64 processor that executes the bytes
-- jumps by the offset exactly if the operands are equal, or for JIT_NBRANCH if they differ,
-- where JIT_R0 counts as 0, and otherwise comes to their end. The memory stays; RAX takes the
-- truth of the equality unless the operands are one register, and no other register changes.
pub perform-branch :
    (j : Bool) (s t o : ℤ) (p : Parsing) (m : Machine)
    → IsRegister s
    → IsRegister t
    → is_offset o ≡ true
    → HasSpace 1 p
    → (q : Parsing) × (fl : Flags) × (perform (op_of_branch j s t o) p ≡ done q)
      × (run_code (code_between p q) m
          ≡ branched j (is_equal s t m.registers) o (with_outcome s t m) fl)
perform-branch j s t o p m hs ht ho space = elim (Bool-cases (s ==ℤ t)) [
  | inl e ↦ perform-branch_same j s t o p m ho e space
  | inr e ↦
      let c = either-Compared s t hs ht e in
      let (q, lays, runs) = info-jump-runs (omega arith) (branch-Computes j s t o c) p space m in
      (
        q,
        _,
        perform-differ j s t o p ho e ∙ lays,
        runs ∙ branch_effect-meaning j s t o c m unknown e,
      )
]
