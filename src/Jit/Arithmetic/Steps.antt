-- ===== src/Jit/Arithmetic/Steps.antt =====
-- The arithmetic functions of src/mips64/jit_compiler_x64.c one by one: their steps behind the note
-- of their start, and what a processor does that executes them.
use mips64_emulator.Base.{sym, false, ◌-◌, ◌%◌, ℕ, zero, suc, ◌^◌, ◌<◌, ◌≡◌, refl, arith, true}
use mips64_emulator.Base.Int.{ℤ, pos, negsuc, ℤ_to_u32, ℤ_to_u64}
use mips64_emulator.Memory.{update}
use mips64_emulator.Jit.{◌==ℤ◌, Parsing, Emitter, ◌⨾◌, info}
use mips64_emulator.Jit.Integer.{jit_addi, jit_add, jit_sub, jit_mul, jit_and, jit_or, jit_xor}
use mips64_emulator.Jit.Instructions
use mips64_emulator.Jit.Instructions.{movi32, r0}
use mips64_emulator.Jit.Ops.{perform, op_addi}
use mips64_emulator.Jit.X64.{
  signed_imm, Alu, add, or, and, sub, xor, mul, alu, op, Registers, Machine, running, execute_ins,
}
use mips64_emulator.Jit.Computes.{Computes, Computes-skip, Computes-le}
use mips64_emulator.Jit.Computes.Leaves.{Computes-rr, Computes-imul}
use mips64_emulator.Jit.Arithmetic.{
  IsRegister, value, set_register, is_clear, is_served, IsWords, IsMachine, on, IsInt, op_of,
  IsArith,
}
use mips64_emulator.Jit.Arithmetic.Laws.{alu-lt, or-HasSameLaw, and-HasSameLaw, xor-HasSameLaw}
use mips64_emulator.Jit.Arithmetic.Means.{Means, sum_steps, bits_steps, mul_steps, Means-movi}
use mips64_emulator.Jit.Arithmetic.Operations.{Means-sum, Means-bits, Means-mul}

-- The instruction that combines two registers, and what a processor does with it.
abbrev pub body_of : Alu → ℤ → ℤ → Emitter
body_of add = Instructions.add
body_of or = Instructions.or
body_of and = Instructions.and
body_of sub = Instructions.sub
body_of xor = Instructions.xor
body_of mul = Instructions.imul

pub body_of-Computes :
    (a : Alu) (d t : ℕ)
    → d < 16
    → t < 16
    → Computes 4 (body_of a (pos d) (pos t)) (execute_ins (op a d t))
body_of-Computes add d t h h' =
    Computes-le (omega arith) (Computes-rr d t h h' 0x01 (op add d t) (refl, refl, refl) refl refl)
body_of-Computes or d t h h' =
    Computes-le (omega arith) (Computes-rr d t h h' 0x09 (op or d t) (refl, refl, refl) refl refl)
body_of-Computes and d t h h' =
    Computes-le (omega arith) (Computes-rr d t h h' 0x21 (op and d t) (refl, refl, refl) refl refl)
body_of-Computes sub d t h h' =
    Computes-le (omega arith) (Computes-rr d t h h' 0x29 (op sub d t) (refl, refl, refl) refl refl)
body_of-Computes xor d t h h' =
    Computes-le (omega arith) (Computes-rr d t h h' 0x31 (op xor d t) (refl, refl, refl) refl refl)
body_of-Computes mul d t h h' = Computes-imul t d h' h

-- What each function does behind the note of its start.
abbrev pub steps : Alu → ℤ → ℤ → ℤ → Emitter
steps add = sum_steps (body_of add)
steps or = bits_steps (body_of or)
steps and = bits_steps (body_of and)
steps sub = sum_steps (body_of sub)
steps xor = bits_steps (body_of xor)
steps mul = mul_steps (body_of mul)

pub perform-steps :
    (a : Alu) (d s t : ℤ) (p : Parsing) → perform (op_of a d s t) p ≡ (info ⨾ steps a d s t) p
unfolding jit_add jit_sub jit_mul jit_and jit_or jit_xor
perform-steps add d s t p = refl
perform-steps or d s t p = refl
perform-steps and d s t p = refl
perform-steps sub d s t p = refl
perform-steps xor d s t p = refl
perform-steps mul d s t p = refl

Computes-none : (a : Alu) (s t : ℤ) → Computes 0 (steps a r0 s t) running
Computes-none add s t = Computes-skip
Computes-none or s t = Computes-skip
Computes-none and s t = Computes-skip
Computes-none sub s t = Computes-skip
Computes-none xor s t = Computes-skip
Computes-none mul s t = Computes-skip

abbrev pub result : Alu → ℤ → ℤ → ℤ → Machine → Machine
result a d s t = on (λ r. set_register d (alu a (value r s) (value r t)) r)

module _ (d : ℕ) (s t : ℤ) (hd : d < 16) (hs : IsRegister s) (ht : IsRegister t) where
  steps-Means :
      (a : Alu)
      → is_clear (pos d) s t ≡ true
      → is_served a s t ≡ true
      → Means 7 (steps a (pos d) s t) (result a (pos d) s t)
  steps-Means add c v =
      Means-sum add (body_of add) (body_of-Computes add) d hd s t hs ht c v λ e. cc
  steps-Means or c v =
      Means-bits or (body_of or) (body_of-Computes or) d hd s t hs ht c v or-HasSameLaw
  steps-Means and c v =
      Means-bits and (body_of and) (body_of-Computes and) d hd s t hs ht c v and-HasSameLaw
  steps-Means sub c v =
      Means-sum sub (body_of sub) (body_of-Computes sub) d hd s t hs ht c v λ e. cc
  steps-Means xor c v =
      Means-bits xor (body_of xor) (body_of-Computes xor) d hd s t hs ht c v xor-HasSameLaw
  steps-Means mul c v = Means-mul mul (body_of mul) (body_of-Computes mul) d hd s t hs ht c refl

-- The same of all operands that the functions serve rightly.
pub Arith-Means :
    (a : Alu) (d s t : ℤ)
    → IsArith (record { operation = a; to = d; left = s; right = t })
    → Means 7 (steps a d s t) (result a d s t)
Arith-Means a (pos d) s t h =
    steps-Means d s t h.to h.left h.right a (ground (arith, h.sound)) (ground (arith, h.sound))
Arith-Means a (negsuc zero) s t h = record {
  does = running;
  computes = Computes-le (omega arith) (Computes-none a s t);
  same = λ m fl w. (fl, refl);
}
Arith-Means a (negsuc (suc d)) s t h = absurd h.to

pub value-lt : (x : ℤ) (r : Registers) → IsWords r → value r x < 2 ^ 64
value-lt (pos x) r w = w x
value-lt (negsuc x) r w = omega arith

-- A register that gets a word.
pub update-IsMachine :
    (d v : ℕ) (m : Machine) → v < 2 ^ 64 → IsMachine m → IsMachine (on (λ r. update r d v) m)
update-IsMachine d v m h w = record { words = λ n. ground (arith, w.words n); bytes = w.bytes }

pub result-IsMachine :
    (a : Alu) (d s t : ℤ) (m : Machine) → IsMachine m → IsMachine (result a d s t m)
result-IsMachine a (negsuc d) s t m w = w
result-IsMachine a (pos d) s t m w =
    let r = m.registers in
    update-IsMachine d (alu a (value r s) (value r t)) m
      (alu-lt a (value r s) (value r t) (value-lt s r w.words) (value-lt t r w.words)) w

-- JIT_ADDI of a number to JIT_R0.
pub signed_imm-u64 : (i : ℤ) → IsInt i → signed_imm (ℤ_to_u32 i) ≡ ℤ_to_u64 i
signed_imm-u64 (pos n) h = ground arith
signed_imm-u64 (negsuc n) h = ground arith

pub perform-constant :
    (d : ℕ) (i : ℤ) (p : Parsing) → perform (op_addi (pos d) r0 i) p ≡ (info ⨾ movi32 (pos d) i) p
unfolding jit_addi
perform-constant d i p = let e : (pos d ==ℤ r0) ≡ false = ground arith in rw e refl

pub constant-Means :
    (d : ℕ) (i : ℤ)
    → d < 16
    → IsInt i
    → Means 7 (movi32 (pos d) i) (on (λ r. update r d (ℤ_to_u64 i)))
constant-Means d i hd h = Means-movi d i (λ r. ℤ_to_u64 i) hd (λ r. sym (signed_imm-u64 i h))

pub constant-IsMachine :
    (d : ℕ) (i : ℤ) (m : Machine) → IsMachine m → IsMachine (on (λ r. update r d (ℤ_to_u64 i)) m)
constant-IsMachine d (pos n) m w = update-IsMachine d (n % 2 ^ 64) m (omega arith) w
constant-IsMachine d (negsuc n) m w = update-IsMachine d (2 ^ 64 - 1 - n % 2 ^ 64) m (omega arith) w
