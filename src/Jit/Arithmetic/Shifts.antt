-- ===== src/Jit/Arithmetic/Shifts.antt =====
-- `JIT_SHIFTL` and `JIT_SHIFTR` of src/mips64/jit_compiler_x64.c by a register.
use mathlib.Core.Path.{fun_ext}
use native.Mathlib.Nat.{div-le_self}
use mips64_emulator.Base.{ℕ, ◌+◌, ◌%◌, ◌^◌, ◌<◌, ◌≡◌, refl, ap, ap₂, ◌∙◌, arith, false}
use mips64_emulator.Base.Int.{ℤ, pos}
use mips64_emulator.Memory.{update}
use mips64_emulator.Memory.Spec.{le_value, le_bytes}
use mips64_emulator.Jit.{Parsing, Emitter, ◌⨾◌, ◌==ℤ◌, info}
use mips64_emulator.Jit.Integer.{jit_shiftl, jit_shiftr}
use mips64_emulator.Jit.Instructions.{r0, rcx, mov, sal, sar}
use mips64_emulator.Jit.Forms.{push, pop}
use mips64_emulator.Jit.Ops.{perform}
use mips64_emulator.Jit.X64
use mips64_emulator.Jit.X64.{
  Shift, left, right, shifted_word, shift, move, Registers, Machine, Flags, unknown, Execution,
  running, execute_ins, pushed, popped, store_bytes, load_bytes, below_stack, stack_pointer,
}
use mips64_emulator.Jit.Computes.{Effect, and_then, Computes, Computes-⨾}
use mips64_emulator.Jit.Computes.Leaves.{Computes-rr, Computes-group}
use mips64_emulator.Jit.Computes.Plain.{Computes-push-rcx, Computes-pop-rcx}
use mips64_emulator.Jit.Arithmetic.{IsMachine, IsShift, on, op_of_shift, shift_meaning}
use mips64_emulator.Jit.Arithmetic.Means.{Means, copy_left, Computes-copy}
use mips64_emulator.Jit.Arithmetic.Stack.{word_back, store_bytes-lt}

abbrev body_of_shift : Shift → ℤ → Emitter
body_of_shift left = sal
body_of_shift right = sar

body_of_shift-Computes :
    (k : Shift) (d : ℕ) → d < 16 → Computes 3 (body_of_shift k (pos d)) (execute_ins (shift k d))
body_of_shift-Computes left d h =
    Computes-group d 4 h (omega arith) 0xD3 (shift left d) (omega arith) (refl, refl, refl) refl
      refl
body_of_shift-Computes right d h =
    Computes-group d 7 h (omega arith) 0xD3 (shift right d) (omega arith) (refl, refl, refl) refl
      refl

-- Both operands are registers: the shift is by the register that is moved into RCX for it.
abbrev pub shift_steps : Shift → ℤ → ℤ → ℤ → Emitter
shift_steps k d s t = copy_left d s ⨾ push rcx ⨾ mov rcx t ⨾ body_of_shift k d ⨾ pop rcx

pub perform-shift :
    (k : Shift) (d s t : ℕ) (p : Parsing)
    → perform (op_of_shift k (pos d) (pos s) (pos t)) p
      ≡ (info ⨾ shift_steps k (pos d) (pos s) (pos t)) p
unfolding jit_shiftl jit_shiftr
perform-shift left d s t p =
    let e : (pos d ==ℤ r0) ≡ false = ground arith in
    let e' : (pos s ==ℤ r0) ≡ false = ground arith in
    let e'' : (pos t ==ℤ r0) ≡ false = ground arith in rw (e, e', e'') refl
perform-shift right d s t p =
    let e : (pos d ==ℤ r0) ≡ false = ground arith in
    let e' : (pos s ==ℤ r0) ≡ false = ground arith in
    let e'' : (pos t ==ℤ r0) ≡ false = ground arith in rw (e, e', e'') refl

pub shifted_word-lt : (k : Shift) (a c : ℕ) → a < 2 ^ 64 → shifted_word k a c < 2 ^ 64
shifted_word-lt left a c h = omega arith
shifted_word-lt right a c h = ground (arith, div-le_self a (2 ^ c))

-- Behind the push, the move into RCX, the shift and the pop, in turn.
abbrev with_count : Registers → ℕ → ℕ → Registers
with_count r t b = update (update r stack_pointer b) 1 (update r stack_pointer b t)

abbrev with_shift : Shift → Registers → ℕ → ℕ → ℕ → Registers
with_shift k r d t b = let c = with_count r t b in update c d (shifted_word k (c d) (c 1 % 64))

abbrev with_back : Registers → ℕ → Registers
with_back r v = update (update r stack_pointer ((r stack_pointer + 8) % 2 ^ 64)) 1 v

-- RCX and the stack pointer are as before.
after_pop :
    (k : Shift) (d s t b : ℕ) (r : Registers)
    → IsShift d s t
    → (b + 8) % 2 ^ 64 ≡ r stack_pointer
    → with_back (with_shift k (update r d (r s)) d t b) (r 1)
      ≡ update r d (shifted_word k (r s) (r t % 64))
after_pop k d s t b r h back =
    let c = with_count (update r d (r s)) t b in
    let n1 = h.to_not_count in
    let n4 = h.to_not_stack in
    let m4 = h.right_not_stack in
    let clear = h.clear in
    let e1 : c d ≡ r s = ground arith in
    let e2 : c 1 ≡ r t = ground arith in
    let e3 : with_shift k (update r d (r s)) d t b stack_pointer ≡ b = ground arith in
    rw (e3, e1, e2) (fun_ext λ x. ground arith)

shift_effect : Shift → ℕ → ℕ → ℕ → Effect
shift_effect k d s t =
    and_then
      (and_then
        (and_then
          (and_then (λ m fl. running (on (λ r. update r d (r s)) m) fl) (execute_ins (X64.push 1)))
          (execute_ins (move 1 t)))
        (execute_ins (shift k d)))
      (execute_ins (X64.pop 1))

abbrev machine_of : Registers → (ℕ → ℕ) → Machine
machine_of r f = record { registers = r; memory = f }

shift_effect-meaning :
    (k : Shift) (d s t : ℕ) (m : Machine) (fl : Flags)
    → IsShift d s t
    → IsMachine m
    → shift_effect k d s t m fl ≡ running (shift_meaning k d s t m) unknown
unfolding execute_ins shift_effect pushed popped
shift_effect-meaning k d s t m fl h w =
    let r = m.registers in
    let copied = update r d (r s) in
    let n1 = h.to_not_count in
    let n4 = h.to_not_stack in
    let e : copied 1 ≡ r 1 = ground arith in
    let below : below_stack copied ≡ below_stack r = ground arith in
    let b = below_stack copied in
    let stacked = store_bytes m.memory b (le_bytes 8 (copied 1)) in
    let after = with_shift k copied d t b in
    let top : after stack_pointer ≡ b = ground arith in
    let back : (b + 8) % 2 ^ 64 ≡ r stack_pointer = omega (arith, below, w.words stack_pointer) in
    let count : le_value (load_bytes stacked (after stack_pointer) 8) ≡ r 1 =
      rw top (word_back m.memory b (copied 1) (omega (arith, e, w.words 1))) ∙ e in
    ap₂ (λ (x : Registers) (f : ℕ → ℕ). running (machine_of x f) unknown)
      (ap (with_back after) count ∙ after_pop k d s t b r h back) (rw (below, e) refl)

pub shift-Means :
    (k : Shift) (d s t : ℕ)
    → IsShift d s t
    → Means 11 (shift_steps k (pos d) (pos s) (pos t)) (shift_meaning k d s t)
unfolding shift_effect
shift-Means k d s t h = record {
  does = shift_effect k d s t;
  computes =
      Computes-⨾
        (Computes-⨾
          (Computes-⨾ (Computes-⨾ (Computes-copy d s h.to h.left) Computes-push-rcx)
            (Computes-rr 1 t (omega arith) h.right 0x89 (move 1 t) (refl, refl, refl) refl refl))
          (body_of_shift-Computes k d h.to))
        Computes-pop-rcx;
  same = λ m fl w. (unknown, shift_effect-meaning k d s t m fl h w);
}

pub shift-IsMachine :
    (k : Shift) (d s t : ℕ) (m : Machine) → IsMachine m → IsMachine (shift_meaning k d s t m)
shift-IsMachine k d s t m w =
    let r = m.registers in
    record {
      words = λ n. ground (arith, w.words n, shifted_word-lt k (r s) (r t % 64) (w.words s));
      bytes = store_bytes-lt m.memory (below_stack r) 8 (r 1) w.bytes;
    }
