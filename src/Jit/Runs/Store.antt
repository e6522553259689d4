-- ===== src/Jit/Runs/Store.antt =====
-- The execution of what `JIT_STORE32` and `JIT_STORE64` of src/mips64/jit_compiler_x64.c lay.
use mips64_emulator.Base.{
  ℕ, ◌+◌, ◌%◌, ◌^◌, ◌<◌, ◌≡◌, refl, ◌∙◌, arith, true, false, ◌==◌, if◌then◌else◌, done,
}
use mips64_emulator.Base.Int.{ℤ, pos, ℤ_to_u32}
use mips64_emulator.Memory.{update}
use mips64_emulator.Memory.Spec.{le_bytes}
use mips64_emulator.Jit.{Parsing, Emitter, ◌⨾◌, ◌==ℤ◌, info}
use mips64_emulator.Jit.Instructions.{r0, sp, rax, mov, store32, store64}
use mips64_emulator.Jit.Integer.{jit_store32, jit_store64}
use mips64_emulator.Jit.Ops.{Op, op_store32, op_store64, perform}
use mips64_emulator.Jit.Program.{HasSpace}
use mips64_emulator.Jit.X64.{
  move, store, Size, four, eight, bytes_in, store_bytes, stack_pointer, Machine, unknown, running,
  execute_ins, signed_imm,
}
use mips64_emulator.Jit.X64.Run.{run_code}
use mips64_emulator.Jit.Computes.{Computes, Computes-⨾, Computes-if, Computes-le, Computes-same}
use mips64_emulator.Jit.Computes.Accesses.{Computes-store}
use mips64_emulator.Jit.Computes.Leaves.{Computes-rr}
use mips64_emulator.Jit.Runs.{code_between, info-runs}

abbrev pub op_of_store : Size → ℤ → ℤ → ℤ → Op
op_of_store four = op_store32
op_of_store eight = op_store64

abbrev body_of_store : Size → ℤ → ℤ → ℤ → Emitter
body_of_store four = store32
body_of_store eight = store64

-- The offset names the register that is stored, and the number of the register is the offset.
abbrev pub exchanged : Size → ℕ → ℕ → ℕ → Machine → Machine
exchanged w d o s m =
    let by_stack = s == stack_pointer in
    let r = if by_stack then update m.registers 0 (m.registers s) else m.registers in
    record {
      registers = r;
      memory =
          store_bytes m.memory (r d + (if by_stack then 0 else s)) (le_bytes (bytes_in w) (r o));
    }

store_steps : Size → ℤ → ℤ → ℤ → Emitter
store_steps w d o s =
    if s ==ℤ sp then (mov rax s ⨾ body_of_store w d rax o) else body_of_store w d s o

perform-store_steps :
    (w : Size) (d o s : ℕ) (p : Parsing)
    → perform (op_of_store w (pos d) (pos o) (pos s)) p
      ≡ (info ⨾ store_steps w (pos d) (pos o) (pos s)) p
unfolding jit_store32 jit_store64 store_steps
perform-store_steps four d o s p =
    let e : (pos d ==ℤ r0) ≡ false = ground arith in
    let e' : (pos s ==ℤ r0) ≡ false = ground arith in rw (e, e') refl
perform-store_steps eight d o s p =
    let e : (pos d ==ℤ r0) ≡ false = ground arith in
    let e' : (pos s ==ℤ r0) ≡ false = ground arith in rw (e, e') refl

module _ (w : Size) (d o s : ℕ) (hd : d < 16) (ho : o < 16) (hs : s < 16)
    (plain : (d % 8 == 4) ≡ false) where
  body_of_store-Computes :
      (a : ℕ)
      → Computes 7
          (body_of_store w (pos d) (pos a) (pos o))
          (execute_ins (store w o d (ℤ_to_u32 (pos a))))
  body_of_store-Computes a = by_size w
    where
      by_size :
          (w : Size)
          → Computes 7
              (body_of_store w (pos d) (pos a) (pos o))
              (execute_ins (store w o d (ℤ_to_u32 (pos a))))
      by_size four = Computes-store d o hd ho false (pos a) plain
      by_size eight = Computes-store d o hd ho true (pos a) plain

  store_steps-Computes :
      Computes 10 (store_steps w (pos d) (pos o) (pos s)) (λ m fl. running (exchanged w d o s m) fl)
  unfolding store_steps execute_ins
  store_steps-Computes =
      Computes-if (pos s ==ℤ sp)
        (λ e.
          let q : (s == stack_pointer) ≡ true = ground arith in
          let z : (m : Machine) → m.registers d + 0 ≡ m.registers d = λ m. omega arith in
          Computes-same (λ m fl. rw q refl)
            (Computes-⨾
              (Computes-rr 0 s (omega arith) hs 0x89 (move 0 s) (refl, refl, refl) refl refl)
              (body_of_store-Computes 0)))
        (λ e.
          let q : (s == stack_pointer) ≡ false = ground arith in
          let v : signed_imm (s % 2 ^ 32) ≡ s = ground arith in
          Computes-same (λ m fl. rw (q, v) refl)
            (Computes-le (omega arith) (body_of_store-Computes s)))

-- JIT_STORE32 and JIT_STORE64 with room, an offset below 16 and an address in a register other
-- than RSP and R12: the laid bytes store the register whose number is the offset, at the number
-- of the source register behind the address; for RSP as the source they copy this to RAX and
-- store at the address itself. Nothing else changes.
pub perform-store :
    (w : Size) (d o s : ℕ) (p : Parsing) (m : Machine)
    → d < 16
    → o < 16
    → s < 16
    → (d % 8 == 4) ≡ false
    → HasSpace 1 p
    → (q : Parsing) × (perform (op_of_store w (pos d) (pos o) (pos s)) p ≡ done q)
      × (run_code (code_between p q) m ≡ running (exchanged w d o s m) unknown)
perform-store w d o s p m hd ho hs plain space =
    let (q, lays, runs) =
      info-runs (omega arith) (store_steps-Computes w d o s hd ho hs plain) p space m in
    (q, perform-store_steps w d o s p ∙ lays, runs)
