-- ===== src/Jit/Arithmetic/Overlap.antt =====
-- The arithmetic functions of src/mips64/jit_compiler_x64.c where the right operand is the register
-- to write and the left one is another.
use mathlib.Core.Path.{fun_ext}
use mips64_emulator.Base.{ℕ, ◌-◌, ◌<◌, ◌≡◌, ◌≢◌, refl, ◌∙◌, arith, false, done}
use mips64_emulator.Base.Int.{pos}
use mips64_emulator.Memory.{update}
use mips64_emulator.Memory.Spec.{run_at}
use mips64_emulator.Jit.{Parsing, ◌==ℤ◌}
use mips64_emulator.Jit.Instructions.{r0}
use mips64_emulator.Jit.Ops.{perform}
use mips64_emulator.Jit.Program.{HasSpace}
use mips64_emulator.Jit.X64.{
  Alu, add, or, and, sub, xor, mul, alu, op, Registers, Machine, Flags, unknown, running,
  execute_ins,
}
use mips64_emulator.Jit.X64.Run.{run_code}
use mips64_emulator.Jit.Computes.{and_then}
use mips64_emulator.Jit.Arithmetic.{IsMachine, on, op_of}
use mips64_emulator.Jit.Arithmetic.Laws.{alu-lt}
use mips64_emulator.Jit.Arithmetic.Means.{Means, same_registers, both_steps}
use mips64_emulator.Jit.Arithmetic.Operations.{Computes-both}
use mips64_emulator.Jit.Arithmetic.Steps.{
  steps, body_of, body_of-Computes, perform-steps, update-IsMachine,
}
use mips64_emulator.Jit.Arithmetic.Program.{info-Built, Built-run_code}

-- No operand is JIT_R0 and the two to combine differ: no shortcut is taken.
module _ (d s : ℕ) (ne : s ≢ d) where
  to_not_none : (pos d ==ℤ r0) ≡ false
  to_not_none = ground arith

  left_not_none : (pos s ==ℤ r0) ≡ false
  left_not_none = ground arith

  left_not_right : (pos s ==ℤ pos d) ≡ false
  left_not_right = ground arith

  steps-both :
      (a : Alu) → steps a (pos d) (pos s) (pos d) ≡ both_steps (body_of a) (pos d) (pos s) (pos d)
  steps-both add = rw (to_not_none, left_not_none) refl
  steps-both or = rw (to_not_none, left_not_none, left_not_right) refl
  steps-both and = rw (to_not_none, left_not_none, left_not_right) refl
  steps-both sub = rw (to_not_none, left_not_none) refl
  steps-both xor = rw (to_not_none, left_not_none, left_not_right) refl
  steps-both mul = rw (to_not_none, left_not_none) refl

-- The first step overwrites the right operand.
overwritten :
    (a : Alu) (r : Registers) (d s : ℕ)
    → update (update r d (r s)) d (alu a (update r d (r s) d) (update r d (r s) d))
      ≡ update r d (alu a (r s) (r s))
overwritten a r d s =
    let e : update r d (r s) d ≡ r s = ground arith in rw e (fun_ext λ x. ground arith)

-- For each of JIT_ADD, JIT_SUB, JIT_MUL, JIT_AND, JIT_OR and JIT_XOR whose right operand is the
-- register to write and whose left operand is another register, with room: a processor whose
-- registers hold 64-bit words and whose memory holds bytes, and that executes the laid bytes
-- combines the left operand with itself, so that the right operand is lost.
pub perform-overlap :
    (a : Alu) (d s : ℕ) (p : Parsing) (m : Machine)
    → d < 16
    → s < 16
    → s ≢ d
    → HasSpace 1 p
    → IsMachine m
    → (q : Parsing) × (fl : Flags) × (perform (op_of a (pos d) (pos s) (pos d)) p ≡ done q)
      × (run_code (run_at q.code p.buffer (q.buffer - p.buffer)) m
          ≡ running (on (λ r. update r d (alu a (r s) (r s))) m) fl)
unfolding execute_ins
perform-overlap a d s p m hd hs ne space w =
    let (q, e, b) = info-Built (omega arith) means keeps p space in
    let (fl, run) = Built-run_code b m w in
    (q, fl, perform-steps a (pos d) (pos s) (pos d) p ∙ e, run)
  where
    means : Means 7 (steps a (pos d) (pos s) (pos d)) (on (λ r. update r d (alu a (r s) (r s))))
    means = rw (steps-both d s ne a) (record {
      does = and_then (λ m fl. running (on (λ r. update r d (r s)) m) fl) (execute_ins (op a d d));
      computes = Computes-both a (body_of a) (body_of-Computes a) d hd s d hs hd;
      same = λ m fl w. (unknown, same_registers m unknown (overwritten a m.registers d s));
    })

    keeps : (m : Machine) → IsMachine m → IsMachine (on (λ r. update r d (alu a (r s) (r s))) m)
    keeps m w =
        let v = m.registers s in
        update-IsMachine d (alu a v v) m (alu-lt a v v (w.words s) (w.words s)) w
