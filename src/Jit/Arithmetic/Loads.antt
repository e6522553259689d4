-- ===== src/Jit/Arithmetic/Loads.antt =====
-- `JIT_LOAD32` and `JIT_LOAD64` of src/mips64/jit_compiler_x64.c.
use mips64_emulator.Base.{
  ℕ, ◌+◌, ◌*◌, ◌%◌, ◌^◌, ◌<◌, ◌≡◌, ◌≢◌, refl, arith, Bool-cases, inl, inr, true, false, ◌==◌,
  if◌then◌else◌,
}
use mips64_emulator.Base.Int.{ℤ, pos, ℤ_to_u32, ℤ_to_u64}
use mips64_emulator.Memory.{update}
use mips64_emulator.Memory.Spec.{le_value}
use mips64_emulator.Jit.{Parsing, Emitter, ◌⨾◌, ◌==ℤ◌, info}
use mips64_emulator.Jit.Integer.{jit_load32, jit_load64}
use mips64_emulator.Jit.Instructions.{r0, rax, sp, mov, load32, load64}
use mips64_emulator.Jit.Ops.{perform}
use mips64_emulator.Jit.X64.{
  move, load, Size, four, eight, bytes_in, load_bytes, stack_pointer, Machine, execute_ins,
  signed_imm,
}
use mips64_emulator.Jit.Computes.{and_then, Computes, Computes-⨾, Computes-le}
use mips64_emulator.Jit.Computes.Accesses.{Computes-load}
use mips64_emulator.Jit.Computes.Leaves.{Computes-rr}
use mips64_emulator.Jit.Arithmetic.{IsMachine, IsFetch, on, op_of_fetch, fetch_meaning}
use mips64_emulator.Jit.Arithmetic.Means.{Means, Means-if}
use mips64_emulator.Jit.Arithmetic.Steps.{update-IsMachine, signed_imm-u64}
use mips64_emulator.Jit.Arithmetic.Stack.{load_bytes-lt}

abbrev body_of_fetch : Size → ℤ → ℤ → ℤ → Emitter
body_of_fetch four = load32
body_of_fetch eight = load64

-- The register that is written and the one with the address are no JIT_R0.
abbrev pub fetch_steps : Size → ℤ → ℤ → ℤ → Emitter
fetch_steps w d s o =
    if s ==ℤ sp then (mov rax s ⨾ body_of_fetch w d rax o) else body_of_fetch w d s o

pub perform-fetch :
    (w : Size) (d s : ℕ) (o : ℤ) (p : Parsing)
    → perform (op_of_fetch w (pos d) (pos s) o) p ≡ (info ⨾ fetch_steps w (pos d) (pos s) o) p
unfolding jit_load32 jit_load64
perform-fetch four d s o p =
    let e : (pos d ==ℤ r0) ≡ false = ground arith in
    let e' : (pos s ==ℤ r0) ≡ false = ground arith in rw (e, e') refl
perform-fetch eight d s o p =
    let e : (pos d ==ℤ r0) ≡ false = ground arith in
    let e' : (pos s ==ℤ r0) ≡ false = ground arith in rw (e, e') refl

body_of_fetch-Computes :
    (w : Size) (d s : ℕ) (o : ℤ)
    → d < 16
    → s < 16
    → (s % 8 == 4) ≡ false
    → Computes 7 (body_of_fetch w (pos d) (pos s) o) (execute_ins (load w d s (ℤ_to_u32 o)))
body_of_fetch-Computes four d s o hd hs plain = Computes-load s d hs hd false o plain
body_of_fetch-Computes eight d s o hd hs plain = Computes-load s d hs hd true o plain

pub fetch-Means :
    (w : Size) (d s : ℕ) (o : ℤ)
    → IsFetch d s o
    → Means 10 (fetch_steps w (pos d) (pos s) o) (fetch_meaning w d s o)
unfolding execute_ins
fetch-Means w d s o h =
    let offset : signed_imm (ℤ_to_u32 o) ≡ ℤ_to_u64 o = signed_imm-u64 o h.offset in
    Means-if (pos s ==ℤ sp)
      (λ e.
        let q : (s == stack_pointer) ≡ true = ground arith in
        record {
          does = and_then (execute_ins (move 0 s)) (execute_ins (load w d 0 (ℤ_to_u32 o)));
          computes =
              Computes-⨾
                (Computes-rr 0 s (omega arith) h.from 0x89 (move 0 s) (refl, refl, refl) refl refl)
                (body_of_fetch-Computes w d 0 o h.to (omega arith) refl);
          same = λ m fl i. (fl, rw (q, offset) refl);
        })
      (λ e.
        let q : (s == stack_pointer) ≡ false = ground arith in
        let plain : (s % 8 == 4) ≡ false = plain_of s h.from h.plain q in
        record {
          does = execute_ins (load w d s (ℤ_to_u32 o));
          computes = Computes-le (omega arith) (body_of_fetch-Computes w d s o h.to h.from plain);
          same = λ m fl i. (fl, rw (q, offset) refl);
        })
  where
    plain_of : (s : ℕ) → s < 16 → s ≢ 12 → (s == 4) ≡ false → (s % 8 == 4) ≡ false
    plain_of s lt ne e = ground arith

bytes_in-pow : (w : Size) (v : ℕ) → v < 2 ^ (bytes_in w * 8) → v < 2 ^ 64
bytes_in-pow four v h = omega arith
bytes_in-pow eight v h = h

pub fetch-IsMachine :
    (w : Size) (d s : ℕ) (o : ℤ) (m : Machine) → IsMachine m → IsMachine (fetch_meaning w d s o m)
fetch-IsMachine w d s o m i =
    let a = m.registers s + ℤ_to_u64 o in
    let v = le_value (load_bytes m.memory a (bytes_in w)) in
    let lt = bytes_in-pow w v (load_bytes-lt m.memory a (bytes_in w) i.bytes) in
    elim (Bool-cases (s == stack_pointer)) [
      | inl e ↦ rw e (
          update-IsMachine d v (on (λ r. update r 0 (r s)) m) lt
            (update-IsMachine 0 (m.registers s) m (i.words s) i))
      | inr e ↦ rw e (update-IsMachine d v m lt i)
    ]
