-- ===== src/Jit/Runs/Division.antt =====
-- The execution of what `JIT_DIV` of src/mips64/jit_compiler_x64.c lays.
use mathlib.Core.Path.{fun_ext}
use native.Mathlib.Nat.{div-le_self, le-div_iff_mul-le}
use mips64_emulator.Base.{
  ℕ, ◌+◌, ◌-◌, ◌*◌, ◌/◌, ◌%◌, ◌^◌, ◌<◌, ◌≤◌, ◌≡◌, ◌≢◌, refl, ap, ap₂, ◌∙◌, arith, Bool, Bool-cases,
  inl, inr, true, false, ◌&&◌, ltb, ◌==◌, if◌then◌else◌, done,
}
use mips64_emulator.Base.Int.{ℤ, pos}
use mips64_emulator.Memory.{update}
use mips64_emulator.Memory.Spec.{le_bytes, le_value}
use mips64_emulator.Jit.{Parsing, Emitter, ◌⨾◌, ◌==ℤ◌, info}
use mips64_emulator.Jit.Forms.{push, pop, cdq}
use mips64_emulator.Jit.Instructions.{r0, rax, rdx, mov, idiv64}
use mips64_emulator.Jit.Integer.{jit_div}
use mips64_emulator.Jit.Ops.{op_div, perform}
use mips64_emulator.Jit.Program.{HasSpace}
use mips64_emulator.Jit.X64
use mips64_emulator.Jit.X64.{
  move, extend_sign, divide, divides, divided, store_bytes, load_bytes, below_stack, stack_pointer,
  pushed, popped, set_registers, Registers, Machine, Flags, unknown, Execution, running, stuck,
  execute_ins,
}
use mips64_emulator.Jit.X64.Run.{run_code}
use mips64_emulator.Jit.Computes.{Computes, Computes-⨾, and_then, Effect}
use mips64_emulator.Jit.Computes.Leaves.{Computes-rr, Computes-group}
use mips64_emulator.Jit.Computes.Plain.{Computes-push-rdx, Computes-pop-rdx, Computes-cdq}
use mips64_emulator.Jit.Arithmetic.{IsMachine}
use mips64_emulator.Jit.Arithmetic.Stack.{word_back}
use mips64_emulator.Jit.Runs.{code_between, info-runs}

-- The registers of a division that is described: RAX, RDX and RSP have their own part in it.
pub record IsDivision (d s t : ℕ) (r : Registers) : Type 0 where
  pub to : d < 16
  pub left : s < 16
  pub right : t < 16
  pub to_not_stack : d ≢ stack_pointer
  pub to_not_rest : d ≢ 2
  pub left_not_stack : s ≢ stack_pointer
  pub right_not_stack : t ≢ stack_pointer
  pub right_not_quotient : t ≢ 0
  pub right_not_rest : t ≢ 2
  pub dividend : r s < 2 ^ 63
  pub divisor : r t < 2 ^ 32
  pub not_zero : 0 < r t

-- RDX is left in the memory below the stack pointer.
abbrev pub quotient : ℕ → ℕ → ℕ → Machine → Machine
quotient d s t m =
    let r = m.registers in
    record {
      registers = update (update r 0 (r s / r t)) d (r s / r t);
      memory = store_bytes m.memory (below_stack r) (le_bytes 8 (r 2));
    }

abbrev div_steps : ℤ → ℤ → ℤ → Emitter
div_steps d s t = push rdx ⨾ mov rax s ⨾ cdq ⨾ idiv64 t ⨾ mov d rax ⨾ pop rdx

perform-div_steps :
    (d s t : ℕ) (p : Parsing)
    → perform (op_div (pos d) (pos s) (pos t)) p ≡ (info ⨾ div_steps (pos d) (pos s) (pos t)) p
unfolding jit_div
perform-div_steps d s t p =
    let e : (pos d ==ℤ r0) ≡ false = ground arith in
    let e' : (pos s ==ℤ r0) ≡ false = ground arith in
    let e'' : (pos t ==ℤ r0) ≡ false = ground arith in rw (e, e', e'') refl

-- The dividend's upper half is the sign of its lower 32 bits, in 32 bits.
abbrev is_short : ℕ → Bool
is_short a = ltb (a % 2 ^ 32) (2 ^ 31)

abbrev upper : ℕ → ℕ
upper a = if is_short a then 0 else 2 ^ 32 - 1

-- In front of the division.
abbrev with_dividend : Registers → ℕ → ℕ → Registers
with_dividend r b a = update (update (update r stack_pointer b) 0 a) 2 (upper a)

-- Behind it, and behind the move.
abbrev with_quotient : Registers → ℕ → ℕ → Registers
with_quotient r d t = let c = divided (r t) r in update c d (c 0)

abbrev with_back : Registers → ℕ → Registers
with_back r v = update (update r stack_pointer ((r stack_pointer + 8) % 2 ^ 64)) 2 v

-- RDX and the stack pointer are as before.
popped-eq :
    (r : Registers) (b a rest q d : ℕ)
    → d ≢ 2
    → d ≢ stack_pointer
    → (b + 8) % 2 ^ 64 ≡ r stack_pointer
    → with_back (update (update (update (with_dividend r b a) 2 rest) 0 q) d q) (r 2)
      ≡ update (update r 0 q) d q
popped-eq r b a rest q d n2 n4 back =
    let n : ((stack_pointer == d) ≡ false) = ground arith in
    rw (n, back) (fun_ext λ x. ground arith)

pushing : ℕ → Effect
pushing s =
    and_then (and_then (execute_ins (X64.push 2)) (execute_ins (move 0 s)))
      (execute_ins extend_sign)

div_effect : ℕ → ℕ → ℕ → Effect
div_effect d s t =
    and_then (and_then (and_then (pushing s) (execute_ins (divide t))) (execute_ins (move d 0)))
      (execute_ins (X64.pop 2))

div_steps-Computes :
    (d s t : ℕ)
    → d < 16
    → s < 16
    → t < 16
    → Computes 12 (div_steps (pos d) (pos s) (pos t)) (div_effect d s t)
unfolding div_effect pushing
div_steps-Computes d s t hd hs ht =
    Computes-⨾
      (Computes-⨾
        (Computes-⨾
          (Computes-⨾
            (Computes-⨾ Computes-push-rdx
              (Computes-rr 0 s (omega arith) hs 0x89 (move 0 s) (refl, refl, refl) refl refl))
            Computes-cdq)
          (Computes-group t 7 ht (omega arith) 0xF7 (divide t) (omega arith) (refl, refl, refl) refl
            refl))
        (Computes-rr d 0 hd (omega arith) 0x89 (move d 0) (refl, refl, refl) refl refl))
      Computes-pop-rdx

-- A divisor of 32 bits gives a dividend of the upper half 2^32 - 1 too large a quotient.
divides-upper : (a b : ℕ) → 0 < b → b < 2 ^ 32 → 2 ^ 63 ≤ ((2 ^ 32 - 1) * 2 ^ 64 + a) / b
divides-upper a b gt lt = (le-div_iff_mul-le gt).1 (omega arith)

abbrev in_range : ℕ → ℕ → ℕ → Bool
in_range b u a = ltb 0 b && ltb b (2 ^ 63) && ltb u (2 ^ 63) && ltb ((u * 2 ^ 64 + a) / b) (2 ^ 63)

in_range-short : (a b : ℕ) → 0 < b → b < 2 ^ 32 → a < 2 ^ 63 → in_range b 0 a ≡ true
in_range-short a b gt lt h = ground (arith, div-le_self a b)

in_range-long : (a b : ℕ) → 0 < b → b < 2 ^ 32 → in_range b (2 ^ 32 - 1) a ≡ false
in_range-long a b gt lt = ground (arith, divides-upper a b gt lt)

abbrev machine_of : Registers → (ℕ → ℕ) → Machine
machine_of r f = record { registers = r; memory = f }

module _ (d s t : ℕ) (m : Machine) (h : IsDivision d s t m.registers) (w : IsMachine m) where
  abbrev regs : Registers
  regs = m.registers

  abbrev below : ℕ
  below = below_stack regs

  abbrev ready : Registers
  ready = with_dividend regs below (regs s)

  abbrev stacked : ℕ → ℕ
  stacked = store_bytes m.memory below (le_bytes 8 (regs 2))

  abbrev prepared : Machine
  prepared = record { registers = ready; memory = stacked }

  pushing-eq : (fl : Flags) → pushing s m fl ≡ running prepared fl
  unfolding pushing execute_ins pushed
  pushing-eq fl =
      let n = h.left_not_stack in
      let e : update regs stack_pointer below s ≡ regs s = ground arith in rw e refl

  ready_divisor : ready t ≡ regs t
  ready_divisor =
      let n0 = h.right_not_quotient in
      let n2 = h.right_not_rest in let n4 = h.right_not_stack in ground arith

  short_divides : is_short (regs s) ≡ true → divides (ready t) ready ≡ true
  short_divides e =
      let u : upper (regs s) ≡ 0 = rw e refl in
      ap₂ (λ (b v : ℕ). in_range b v (regs s)) ready_divisor u
      ∙ in_range-short (regs s) (regs t) h.not_zero h.divisor h.dividend

  long_divides : is_short (regs s) ≡ false → divides (ready t) ready ≡ false
  long_divides e =
      let u : upper (regs s) ≡ 2 ^ 32 - 1 = rw e refl in
      ap₂ (λ (b v : ℕ). in_range b v (regs s)) ready_divisor u
      ∙ in_range-long (regs s) (regs t) h.not_zero h.divisor

  after : Registers
  after = with_quotient ready d t

  after_stack : after stack_pointer ≡ below
  unfolding after
  after_stack = let n = h.to_not_stack in ground arith

  after_quotient : is_short (regs s) ≡ true → ready 2 * 2 ^ 64 + ready 0 ≡ regs s
  after_quotient e = rw e (omega arith)

  after_pop :
      is_short (regs s) ≡ true
      → with_back after (regs 2) ≡ update (update regs 0 (regs s / regs t)) d (regs s / regs t)
  unfolding after
  after_pop e =
      let q : (ready 2 * 2 ^ 64 + ready 0) / ready t ≡ regs s / regs t =
        ap₂ ◌/◌ (after_quotient e) ready_divisor in
      let rest = (ready 2 * 2 ^ 64 + ready 0) % ready t in
      ap (λ (v : ℕ). with_back (update (update (update ready 2 rest) 0 v) d v) (regs 2)) q
      ∙ popped-eq regs below (regs s) rest (regs s / regs t) d h.to_not_rest h.to_not_stack
          (omega (arith, w.words stack_pointer))

  saved_rest : le_value (load_bytes stacked (after stack_pointer) 8) ≡ regs 2
  saved_rest = rw after_stack (word_back m.memory below (regs 2) (w.words 2))

  div_effect-short :
      (fl : Flags)
      → is_short (regs s) ≡ true
      → div_effect d s t m fl ≡ running (quotient d s t m) unknown
  unfolding div_effect execute_ins popped after
  div_effect-short fl e =
      rw (pushing-eq fl, short_divides e)
        (ap (λ (x : Registers). running (machine_of x stacked) unknown)
          (ap (with_back after) saved_rest ∙ after_pop e))

  div_effect-long : (fl : Flags) → is_short (regs s) ≡ false → div_effect d s t m fl ≡ stuck
  unfolding div_effect execute_ins popped
  div_effect-long fl e = rw (pushing-eq fl, long_divides e) refl

-- JIT_DIV with room, from a dividend below 2 ^ 63 in a register other than RSP and a divisor
-- above 0 and below 2 ^ 32 in one other than RAX, RDX and RSP, into a register other than RDX
-- and RSP, on a machine of 64-bit words and bytes: the laid bytes put the quotient into RAX and
-- the register to write, keep every other register and leave RDX below the stack pointer, if the
-- dividend modulo 2 ^ 32 is below 2 ^ 31; otherwise the processor traps.
pub perform-div :
    (d s t : ℕ) (p : Parsing) (m : Machine)
    → IsDivision d s t m.registers
    → HasSpace 1 p
    → IsMachine m
    → (q : Parsing) × (perform (op_div (pos d) (pos s) (pos t)) p ≡ done q)
      × (run_code (code_between p q) m ≡ (
          if ltb (m.registers s % 2 ^ 32) (2 ^ 31)
          then running (quotient d s t m) unknown
          else stuck))
perform-div d s t p m h space w =
    let (q, lays, runs) =
      info-runs (omega arith) (div_steps-Computes d s t h.to h.left h.right) p space m in
    (
      q,
      perform-div_steps d s t p ∙ lays,
      runs ∙ elim (Bool-cases (is_short (m.registers s))) [
        | inl e ↦ rw e (div_effect-short d s t m h w unknown e)
        | inr e ↦ rw e (div_effect-long d s t m h w unknown e)
      ],
    )
