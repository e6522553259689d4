-- ===== src/Jit/Arithmetic/Operations.antt =====
-- The operations on three operands of src/mips64/jit_compiler_x64.c, by the shortcuts that their
-- functions take.
use mathlib.Core.Path.{fun_ext}
use mips64_emulator.Base.{ℕ, zero, suc, ◌<◌, ◌≡◌, ◌≢◌, refl, arith, true, false}
use mips64_emulator.Base.Int.{ℤ, pos, negsuc}
use mips64_emulator.Memory.{update}
use mips64_emulator.Jit.{Emitter, ◌==ℤ◌}
use mips64_emulator.Jit.Instructions.{r0}
use mips64_emulator.Jit.X64.{Alu, mul, alu, op, Registers, Machine, unknown, running, execute_ins}
use mips64_emulator.Jit.Computes.{and_then, Computes, Computes-⨾}
use mips64_emulator.Jit.Arithmetic.{IsRegister, value, is_clear, is_served, on}
use mips64_emulator.Jit.Arithmetic.Laws.{alu-none, alu-none_right, alu-none_both, HasSameLaw}
use mips64_emulator.Jit.Arithmetic.Means.{
  Means, Means-if, both_steps, sum_steps, bits_steps, mul_steps, same_registers, Computes-copy,
  Means-copy, Means-movi,
}

mul_zero : (x : ℕ) → alu mul x 0 ≡ 0
unfolding alu
mul_zero x = ground arith

zero_mul : (x : ℕ) → alu mul 0 x ≡ 0
unfolding alu
zero_mul x = ground arith

-- The second step reads the left operand where the first has put it.
after_copy :
    (a : Alu) (r : Registers) (d s t : ℕ)
    → is_clear (pos d) (pos s) (pos t) ≡ true
    → update (update r d (r s)) d (alu a (update r d (r s) d) (update r d (r s) t))
      ≡ update r d (alu a (r s) (r t))
after_copy a r d s t h =
    let e : update r d (r s) d ≡ r s = ground arith in
    let e' : update r d (r s) t ≡ r t = ground arith in rw (e, e') (fun_ext λ x. ground arith)

module _ (a : Alu) (body : ℤ → ℤ → Emitter)
    (leaf : (d t : ℕ)
      → d < 16
      → t < 16
      → Computes 4 (body (pos d) (pos t)) (execute_ins (op a d t)))
    (d : ℕ) (hd : d < 16) where
  abbrev target : ℤ → ℤ → Machine → Machine
  target s t = on (λ r. update r d (alu a (value r s) (value r t)))

  pub Computes-both :
      (s t : ℕ)
      → s < 16
      → t < 16
      → Computes 7
          (both_steps body (pos d) (pos s) (pos t))
          (and_then (λ m fl. running (on (λ r. update r d (r s)) m) fl) (execute_ins (op a d t)))
  Computes-both s t hs ht = Computes-⨾ (Computes-copy d s hd hs) (leaf d t hd ht)

  Means-both :
      (s t : ℕ)
      → s < 16
      → t < 16
      → is_clear (pos d) (pos s) (pos t) ≡ true
      → Means 7 (both_steps body (pos d) (pos s) (pos t)) (target (pos s) (pos t))
  unfolding execute_ins
  Means-both s t hs ht h = record {
    does = and_then (λ m fl. running (on (λ r. update r d (r s)) m) fl) (execute_ins (op a d t));
    computes = Computes-both s t hs ht;
    same = λ m fl w. (unknown, same_registers m unknown (after_copy a m.registers d s t h));
  }

  d_not_none : (pos d ==ℤ r0) ≡ false
  d_not_none = ground arith

  pub Means-sum :
      (s t : ℤ)
      → IsRegister s
      → IsRegister t
      → is_clear (pos d) s t ≡ true
      → is_served a s t ≡ true
      → a ≢ mul
      → Means 7 (sum_steps body (pos d) s t) (target s t)
  Means-sum (pos s) (pos t) hs ht clear served ne =
      let e : (pos s ==ℤ r0) ≡ false = ground arith in
      let e' : (pos t ==ℤ r0) ≡ false = ground arith in
      rw (d_not_none, e, e') (Means-both s t hs ht clear)
  Means-sum (pos s) (negsuc zero) hs ht clear served ne =
      let e : (pos s ==ℤ r0) ≡ false = ground arith in
      rw (d_not_none, e)
        (Means-copy d s hd hs (λ r. alu a (r s) 0)
          (λ r w. alu-none_right a (pos s) r0 (r s) served refl refl (w s) ne))
  Means-sum (negsuc zero) (pos t) hs ht clear served ne =
      let e : (pos t ==ℤ r0) ≡ false = ground arith in
      rw (d_not_none, e)
        (Means-copy d t hd ht (λ r. alu a 0 (r t))
          (λ r w. alu-none a r0 (pos t) (r t) served refl refl (w t) ne))
  Means-sum (negsuc zero) (negsuc zero) hs ht clear served ne =
      rw d_not_none (Means-movi d (pos 0) (λ r. alu a 0 0) hd (λ r. alu-none_both a))
  Means-sum (negsuc (suc s)) t hs ht clear served ne = absurd hs
  Means-sum (pos s) (negsuc (suc t)) hs ht clear served ne = absurd ht
  Means-sum (negsuc zero) (negsuc (suc t)) hs ht clear served ne = absurd ht

  pub Means-bits :
      (s t : ℤ)
      → IsRegister s
      → IsRegister t
      → is_clear (pos d) s t ≡ true
      → is_served a s t ≡ true
      → HasSameLaw a
      → Means 7 (bits_steps body (pos d) s t) (target s t)
  Means-bits (pos s) (pos t) hs ht clear served law =
      let e : (pos s ==ℤ r0) ≡ false = ground arith in
      let e' : (pos t ==ℤ r0) ≡ false = ground arith in
      rw (d_not_none, e, e')
        (Means-if (pos s ==ℤ pos t)
          (λ q.
            Means-copy d s hd hs (λ r. alu a (r s) (r t))
              (λ r w. let k : t ≡ s = ground arith in rw k (law.same s t (r s) served q)))
          (λ q. Means-both s t hs ht clear))
  Means-bits (pos s) (negsuc zero) hs ht clear served law =
      let e : (pos s ==ℤ r0) ≡ false = ground arith in
      rw (d_not_none, e)
        (Means-copy d s hd hs (λ r. alu a (r s) 0)
          (λ r w. alu-none_right a (pos s) r0 (r s) served refl refl (w s) law.not_mul))
  Means-bits (negsuc zero) (pos t) hs ht clear served law =
      let e : (r0 ==ℤ pos t) ≡ false = ground arith in
      rw (d_not_none, e)
        (Means-copy d t hd ht (λ r. alu a 0 (r t))
          (λ r w. alu-none a r0 (pos t) (r t) served refl refl (w t) law.not_mul))
  Means-bits (negsuc zero) (negsuc zero) hs ht clear served law =
      rw d_not_none (Means-movi d (pos 0) (λ r. alu a 0 0) hd (λ r. alu-none_both a))
  Means-bits (negsuc (suc s)) t hs ht clear served law = absurd hs
  Means-bits (pos s) (negsuc (suc t)) hs ht clear served law = absurd ht
  Means-bits (negsuc zero) (negsuc (suc t)) hs ht clear served law = absurd ht

  pub Means-mul :
      (s t : ℤ)
      → IsRegister s
      → IsRegister t
      → is_clear (pos d) s t ≡ true
      → a ≡ mul
      → Means 7 (mul_steps body (pos d) s t) (target s t)
  Means-mul (pos s) (pos t) hs ht clear q =
      let e : (pos s ==ℤ r0) ≡ false = ground arith in
      let e' : (pos t ==ℤ r0) ≡ false = ground arith in
      rw (d_not_none, e, e') (Means-both s t hs ht clear)
  Means-mul (pos s) (negsuc zero) hs ht clear q =
      let e : (pos s ==ℤ r0) ≡ false = ground arith in
      rw (d_not_none, e) (Means-movi d (pos 0) (λ r. alu a (r s) 0) hd (λ r. rw q (mul_zero (r s))))
  Means-mul (negsuc zero) t hs ht clear q =
      rw d_not_none
        (Means-movi d (pos 0) (λ r. alu a 0 (value r t)) hd (λ r. rw q (zero_mul (value r t))))
  Means-mul (negsuc (suc s)) t hs ht clear q = absurd hs
  Means-mul (pos s) (negsuc (suc t)) hs ht clear q = absurd ht
