-- ===== src/Jit/Registers/Calls.antt =====
-- The functions of src/mips64/jit_compiler_x64.c on the registers JIT_R1 to JIT_R7.
use mathlib.Core.List.{map}
use mips64_emulator.Base.{
  ℕ, suc, ◌+◌, ◌-◌, ◌%◌, ◌^◌, ◌<◌, ◌≡◌, ◌≢◌, refl, ap, ◌∙◌, arith, Bool-cases, inl, inr, true, ◌==◌,
  List, [], ◌∷◌, length, All, done, if◌then◌else◌,
}
use mips64_emulator.Base.Int.{ℤ, pos, ltb_ℤ, signed64}
use mips64_emulator.Memory.{update}
use mips64_emulator.Memory.Spec.{run_at, le_bytes}
use mips64_emulator.Jit.{Parsing, ◌==ℤ◌, truth}
use mips64_emulator.Jit.Ops.{perform_all}
use mips64_emulator.Jit.Program.{HasSpace}
use mips64_emulator.Jit.X64.{
  Alu, add, or, and, sub, xor, mul, Shift, Size, Machine, Flags, running, below_stack,
  stack_pointer,
}
use mips64_emulator.Jit.X64.Run.{run_code}
use mips64_emulator.Jit.Arithmetic.{
  Step, compute, constant, shift_by, is_less, fetch, IsStep, IsMachine, IsInt, op_of_step, meaning,
  meaning_all, is_served,
}
use mips64_emulator.Jit.Arithmetic.Stack.{store_bytes-apart}
use mips64_emulator.Jit.Arithmetic.Program.{perform_all-computes}
use mips64_emulator.Jit.Registers.{
  Platform, JitRegister, jit_r4, is_general, number, number-injective, general-IsFree,
}

-- A call with its registers by name: the one to write comes first.
pub data Call : Type 0 where
  arithmetic : Alu → JitRegister → JitRegister → JitRegister → Call
  number_into : JitRegister → ℤ → Call
  shift_into : Shift → JitRegister → JitRegister → JitRegister → Call
  less_into : JitRegister → JitRegister → JitRegister → Call
  load_into : Size → JitRegister → JitRegister → ℤ → Call

abbrev pub step_of : Platform → Call → Step
step_of w (arithmetic a d s t) = compute (record {
  operation = a;
  to = pos (number w d);
  left = pos (number w s);
  right = pos (number w t);
})
step_of w (number_into d i) = constant (number w d) i
step_of w (shift_into k d s t) = shift_by k (number w d) (number w s) (number w t)
step_of w (less_into d s t) = is_less (number w d) (number w s) (pos (number w t))
step_of w (load_into z d s o) = fetch z (number w d) (number w s) o

abbrev pub target : Call → JitRegister
target (arithmetic a d s t) = d
target (number_into d i) = d
target (shift_into k d s t) = d
target (less_into d s t) = d
target (load_into z d s o) = d

abbrev pub IsGeneral : JitRegister → Type 0
IsGeneral a = is_general a ≡ true

-- The right operand is not the register to write, the operands of an operation are two registers,
-- and JIT_R4 is no address.
abbrev pub IsCall : Call → Type 0
IsCall (arithmetic a d s t) = IsGeneral d × IsGeneral s × IsGeneral t × (t ≢ d) × (s ≢ t)
IsCall (number_into d i) = IsGeneral d × IsInt i
IsCall (shift_into k d s t) = IsGeneral d × IsGeneral s × IsGeneral t × (t ≢ d)
IsCall (less_into d s t) = IsGeneral d × IsGeneral s × IsGeneral t
IsCall (load_into z d s o) = IsGeneral d × IsGeneral s × (s ≢ jit_r4) × IsInt o

number-ne : (w : Platform) {a b : JitRegister} → a ≢ b → number w a ≢ number w b
number-ne w {a} {b} n e = n (number-injective w a b e)

served : (a : Alu) (d s t : ℕ) → s ≢ t → is_served a (pos s) (pos t) ≡ true
served add d s t n = refl
served or d s t n = refl
served and d s t n = refl
served sub d s t n = refl
served xor d s t n = ground arith
served mul d s t n = refl

step_of-IsStep : (w : Platform) (c : Call) → IsCall c → IsStep (step_of w c)
step_of-IsStep w (arithmetic a d s t) (hd, hs, ht, n, m) =
    let e = number-ne w n in
    let e' = served a (number w d) (number w s) (number w t) (number-ne w m) in
    record {
      to = (general-IsFree w d hd).register;
      left = (general-IsFree w s hs).register;
      right = (general-IsFree w t ht).register;
      sound = ground (arith, e');
    }
step_of-IsStep w (number_into d i) (hd, hi) = ((general-IsFree w d hd).register, hi)
step_of-IsStep w (shift_into k d s t) (hd, hs, ht, n) =
    let e = number-ne w n in
    let f = general-IsFree w d hd in
    record {
      to = f.register;
      left = (general-IsFree w s hs).register;
      right = (general-IsFree w t ht).register;
      to_not_count = f.not_count;
      to_not_stack = f.not_stack;
      right_not_stack = (general-IsFree w t ht).not_stack;
      clear = ground arith;
    }
step_of-IsStep w (less_into d s t) (hd, hs, ht) = (
  (general-IsFree w d hd).register,
  (general-IsFree w s hs).register,
  (general-IsFree w t ht).register,
)
step_of-IsStep w (load_into z d s o) (hd, hs, n, hi) = record {
  to = (general-IsFree w d hd).register;
  from = (general-IsFree w s hs).register;
  plain = number-ne w {b = jit_r4} n;
  offset = hi;
}

-- The addresses other than those of the eight bytes below the stack pointer.
abbrev pub IsElsewhere : Machine → ℕ → Type 0
IsElsewhere m y = (i : ℕ) → i < 8 → (below_stack m.registers + i) % 2 ^ 64 ≢ y

-- No call writes the register.
abbrev pub IsUntouched : Platform → ℕ → List Call → Type 0
IsUntouched w x cs = (x ≢ 0) × All (λ c. x ≢ number w (target c)) cs

-- What a sequence of calls leaves alone.
pub record Keeps (w : Platform) (cs : List Call) (m m' : Machine) : Type 0 where
  pub stack : m'.registers stack_pointer ≡ m.registers stack_pointer
  pub registers : (x : ℕ) → IsUntouched w x cs → m'.registers x ≡ m.registers x
  pub memory : (y : ℕ) → IsElsewhere m y → m'.memory y ≡ m.memory y

update-apart : (f : ℕ → ℕ) (a v x : ℕ) → x ≢ a → update f a v x ≡ f x
update-apart f a v x n = ground arith

meaning-register :
    (w : Platform) (c : Call) (m : Machine) (x : ℕ)
    → x ≢ 0
    → x ≢ number w (target c)
    → (meaning (step_of w c) m).registers x ≡ m.registers x
unfolding meaning
meaning-register w (arithmetic a d s t) m x z n = update-apart m.registers (number w d) _ x n
meaning-register w (number_into d i) m x z n = update-apart m.registers (number w d) _ x n
meaning-register w (shift_into k d s t) m x z n = update-apart m.registers (number w d) _ x n
meaning-register w (less_into d s t) m x z n =
    let r = m.registers in
    let v = truth (ltb_ℤ (signed64 (r (number w s))) (signed64 (r (number w t)))) in
    let base = if pos (number w s) ==ℤ pos (number w t) then r else update r 0 v in
    update-apart base (number w d) v x n
    ∙ (elim (Bool-cases (pos (number w s) ==ℤ pos (number w t))) [
      | inl e ↦ rw e refl
      | inr e ↦ rw e (update-apart r 0 v x z)
    ])
meaning-register w (load_into y d s o) m x z n =
    let r = m.registers in
    let base = if number w s == stack_pointer then update r 0 (r (number w s)) else r in
    update-apart base (number w d) _ x n ∙ (elim (Bool-cases (number w s == stack_pointer)) [
      | inl e ↦ rw e (update-apart r 0 (r (number w s)) x z)
      | inr e ↦ rw e refl
    ])

meaning-memory :
    (w : Platform) (c : Call) (m : Machine) (y : ℕ)
    → IsElsewhere m y
    → (meaning (step_of w c) m).memory y ≡ m.memory y
unfolding meaning
meaning-memory w (arithmetic a d s t) m y h = refl
meaning-memory w (number_into d i) m y h = refl
meaning-memory w (shift_into k d s t) m y h =
    store_bytes-apart m.memory (below_stack m.registers) y (le_bytes 8 (m.registers 1)) h
meaning-memory w (less_into d s t) m y h = refl
meaning-memory w (load_into z d s o) m y h = refl

target-IsGeneral : (c : Call) → IsCall c → IsGeneral (target c)
target-IsGeneral (arithmetic a d s t) h = h.0
target-IsGeneral (number_into d i) h = h.0
target-IsGeneral (shift_into k d s t) h = h.0
target-IsGeneral (less_into d s t) h = h.0
target-IsGeneral (load_into z d s o) h = h.0

meaning-stack :
    (w : Platform) (c : Call) (m : Machine)
    → IsCall c
    → (meaning (step_of w c) m).registers stack_pointer ≡ m.registers stack_pointer
meaning-stack w c m h =
    let n = (general-IsFree w (target c) (target-IsGeneral c h)).not_stack in
    meaning-register w c m stack_pointer (omega arith) (omega (arith, n))

abbrev pub steps_of : Platform → List Call → List Step
steps_of w cs = map (step_of w) cs

meaning_all-Keeps :
    (w : Platform) (cs : List Call) (m : Machine)
    → All IsCall cs
    → Keeps w cs m (meaning_all (steps_of w cs) m)
unfolding meaning_all
meaning_all-Keeps w [] m h = record { stack = refl; registers = λ x u. refl; memory = λ y e. refl }
meaning_all-Keeps w (c ∷ cs) m h =
    let m' = meaning (step_of w c) m in
    let k = meaning_all-Keeps w cs m' h.1 in
    let s = meaning-stack w c m h.0 in
    record {
      stack = k.stack ∙ s;
      registers = λ x u. k.registers x (u.0, u.1.1) ∙ meaning-register w c m x u.0 u.1.0;
      memory = λ y e. k.memory y (λ i lt. rw s (e i lt)) ∙ meaning-memory w c m y e;
    }

steps_of-IsStep : (w : Platform) (cs : List Call) → All IsCall cs → All IsStep (steps_of w cs)
steps_of-IsStep w [] h = tt
steps_of-IsStep w (c ∷ cs) h = (step_of-IsStep w c h.0, steps_of-IsStep w cs h.1)

length-steps_of : (w : Platform) (cs : List Call) → length (steps_of w cs) ≡ length cs
length-steps_of w [] = refl
length-steps_of w (c ∷ cs) = ap suc (length-steps_of w cs)

-- On either platform, every sequence of additions, subtractions, multiplications, ANDs, ORs,
-- XORs, shifts, comparisons, 32-bit numbers and loads on the registers JIT_R1 to JIT_R7, where
-- the right operand is not the register to write, the operands of an arithmetic operation are
-- two registers and JIT_R4 is no address (a comparison may have any), with room, is laid with no
-- fault and computes what the calls mean, on a machine of 64-bit words and bytes. It keeps the
-- stack pointer, every register but RAX that no call writes, and all memory but the eight bytes
-- below the stack pointer.
pub perform_all-Keeps :
    (w : Platform) (cs : List Call) (p : Parsing) (m : Machine)
    → All IsCall cs
    → HasSpace (length cs) p
    → IsMachine m
    → (q : Parsing) × (fl : Flags) × (perform_all (map op_of_step (steps_of w cs)) p ≡ done q)
      × (run_code (run_at q.code p.buffer (q.buffer - p.buffer)) m
          ≡ running (meaning_all (steps_of w cs) m) fl)
      × Keeps w cs m (meaning_all (steps_of w cs) m)
perform_all-Keeps w cs p m h space v =
    let fit : HasSpace (length (steps_of w cs)) p = rw (length-steps_of w cs) space in
    let (q, fl, lays, runs) =
      perform_all-computes (steps_of w cs) p m (steps_of-IsStep w cs h) fit v in
    (q, fl, lays, runs, meaning_all-Keeps w cs m h)
