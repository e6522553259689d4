-- ===== src/Jit/Arithmetic/Compares.antt =====
-- `JIT_LESS` of src/mips64/jit_compiler_x64.c, and the comparison that it shares with the branches.
use mathlib.Core.Path.{fun_ext}
use mips64_emulator.Base.{
  ℕ, zero, suc, ◌+◌, ◌*◌, ◌/◌, ◌%◌, ◌^◌, ◌<◌, ◌≡◌, refl, ap, ◌∙◌, arith, Bool, Bool-cases, inl, inr,
  true, false, ◌==◌, if◌then◌else◌,
}
use mips64_emulator.Base.Int.{ℤ, pos, negsuc, ltb_ℤ, signed64}
use mips64_emulator.Memory.{update}
use mips64_emulator.Jit.{Parsing, Emitter, ◌⨾◌, ◌==ℤ◌, info, truth}
use mips64_emulator.Jit.Integer.{jit_less}
use mips64_emulator.Jit.Instructions.{r0, rax, al, mov, movi32, setl, movzx, cmp64, cmpi8}
use mips64_emulator.Jit.Ops.{perform, op_less}
use mips64_emulator.Jit.X64
use mips64_emulator.Jit.X64.{
  move, compare, compare_imm, set, less, zero_extend, Registers, Machine, Flags, known, unknown,
  Execution, running, execute_ins, signed_imm, Condition,
}
use mips64_emulator.Jit.X64.Run.{then_run}
use mips64_emulator.Jit.Computes.{Effect, and_then, Computes, Computes-⨾, Computes-le}
use mips64_emulator.Jit.Computes.Leaves.{Computes-rr, Computes-compare_zero}
use mips64_emulator.Jit.Computes.Plain.{Computes-setl, Computes-movzx}
use mips64_emulator.Jit.Arithmetic.{IsMachine, IsRegister, value, on, less_meaning}
use mips64_emulator.Jit.Arithmetic.Means.{
  Means, Means-le, Means-target, Means-if, Means-movi, same_registers,
}
use mips64_emulator.Jit.Arithmetic.Steps.{update-IsMachine}

-- The left operand is a register: it is compared with a register, or with zero for JIT_R0.
abbrev pub compare_steps : ℤ → ℤ → Emitter
compare_steps s t = if t ==ℤ r0 then cmpi8 s (pos 0) else cmp64 s t

abbrev pub compared : ℕ → ℤ → Registers → Flags
compared s t r = known (r s == value r t) (ltb_ℤ (signed64 (r s)) (signed64 (value r t)))

abbrev pub compare_effect : ℕ → ℤ → Effect
compare_effect s t m fl = running m (compared s t m.registers)

pub compare-Computes :
    (s : ℕ) (t : ℤ)
    → s < 16
    → IsRegister t
    → Computes 4 (compare_steps (pos s) t) (compare_effect s t)
unfolding execute_ins
compare-Computes s (pos t) hs ht =
    let e : (pos t ==ℤ r0) ≡ false = ground arith in
    rw e (
      Computes-le (omega arith)
        (Computes-rr s t hs ht 0x39 (compare s t) (refl, refl, refl) refl refl))
compare-Computes s (negsuc zero) hs ht = Computes-compare_zero s 7 hs (omega arith) refl
compare-Computes s (negsuc (suc t)) hs ht = absurd ht

-- SETcc of AL and its extension: RAX is the condition's value.
unfoldable pub truth_effect : Condition → Effect
truth_effect c = and_then (execute_ins (set c 0)) (execute_ins (zero_extend 0 0))

pub truth_effect-known :
    (c : Condition) (z l : Bool) (m : Machine)
    → truth_effect c m (known z l)
      ≡ running (on (λ r. update r 0 (truth (X64.holds c z l))) m) (known z l)
unfolding truth_effect execute_ins
truth_effect-known c z l m =
    let v = truth (X64.holds c z l) in
    let e : (m.registers 0 / 2 ^ 8 * 2 ^ 8 + v) % 2 ^ 8 ≡ v = truth_low (X64.holds c z l) in
    same_registers m (known z l) (rw e (fun_ext λ x. ground arith))
  where
    truth_low : (b : Bool) → (m.registers 0 / 2 ^ 8 * 2 ^ 8 + truth b) % 2 ^ 8 ≡ truth b
    truth_low true = omega arith
    truth_low false = omega arith

abbrev pub less_steps : ℤ → ℤ → ℤ → Emitter
less_steps d s t =
    if s ==ℤ t then movi32 d (pos 0) else (compare_steps s t ⨾ setl al ⨾ movzx rax al ⨾ mov d rax)

pub perform-less :
    (d s : ℕ) (t : ℤ) (p : Parsing)
    → perform (op_less (pos d) (pos s) t) p ≡ (info ⨾ less_steps (pos d) (pos s) t) p
unfolding jit_less
perform-less d s t p =
    let e : (pos d ==ℤ r0) ≡ false = ground arith in
    let e' : (pos s ==ℤ r0) ≡ false = ground arith in rw (e, e') refl

not_less : (a : ℕ) → ltb_ℤ (signed64 a) (signed64 a) ≡ false
not_less a = ground arith

less_effect : ℕ → ℕ → ℤ → Effect
less_effect d s t =
    and_then
      (and_then (and_then (compare_effect s t) (execute_ins (set less 0)))
        (execute_ins (zero_extend 0 0)))
      (execute_ins (move d 0))

less_effect-meaning :
    (d s : ℕ) (t : ℤ) (m : Machine) (fl : Flags)
    → (pos s ==ℤ t) ≡ false
    → less_effect d s t m fl ≡ running (on (less_meaning d s t) m) (compared s t m.registers)
unfolding less_effect execute_ins truth_effect
less_effect-meaning d s t m fl e =
    let z = m.registers s == value m.registers t in
    let l = ltb_ℤ (signed64 (m.registers s)) (signed64 (value m.registers t)) in
    ap (λ (x : Execution). then_run x (execute_ins (move d 0))) (truth_effect-known less z l m)
    ∙ rw e refl

pub less-Means :
    (d s : ℕ) (t : ℤ)
    → d < 16
    → s < 16
    → IsRegister t
    → Means 13 (less_steps (pos d) (pos s) t) (on (less_meaning d s t))
unfolding less_effect
less-Means d s t hd hs ht =
    Means-if (pos s ==ℤ t)
      (λ e. Means-le {k = 7} (omega arith) (Means-target (λ m. rw e refl) (same_operand t e)))
      (λ e. record {
        does = less_effect d s t;
        computes =
            Computes-⨾
              (Computes-⨾ (Computes-⨾ (compare-Computes s t hs ht) Computes-setl) Computes-movzx)
              (Computes-rr d 0 hd (omega arith) 0x89 (move d 0) (refl, refl, refl) refl refl);
        same = λ m fl w. (compared s t m.registers, less_effect-meaning d s t m fl e);
      })
  where
    same_operand :
        (t : ℤ)
        → (pos s ==ℤ t) ≡ true
        → Means 7
            (movi32 (pos d) (pos 0))
            (on (λ r. update r d (truth (ltb_ℤ (signed64 (r s)) (signed64 (value r t))))))
    same_operand (pos t) e =
        let k : t ≡ s = ground arith in
        Means-movi d (pos 0) (λ r. truth (ltb_ℤ (signed64 (r s)) (signed64 (r t)))) hd
          (λ r. rw (k, not_less (r s)) refl)
    same_operand (negsuc t) e = absurd (ground arith)

truth-lt : (b : Bool) → truth b < 2 ^ 64
truth-lt true = omega arith
truth-lt false = omega arith

pub less-IsMachine :
    (d s : ℕ) (t : ℤ) (m : Machine) → IsMachine m → IsMachine (on (less_meaning d s t) m)
less-IsMachine d s t m w =
    let r = m.registers in
    let v = ltb_ℤ (signed64 (r s)) (signed64 (value r t)) in
    elim (Bool-cases (pos s ==ℤ t)) [
      | inl e ↦ rw e (update-IsMachine d (truth v) m (truth-lt v) w)
      | inr e ↦ rw e (
          update-IsMachine d (truth v) (on (λ r. update r 0 (truth v)) m) (truth-lt v)
            (update-IsMachine 0 (truth v) m (truth-lt v) w))
    ]
