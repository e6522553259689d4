-- ===== src/Jit/Arithmetic/Means.antt =====
-- The arithmetic functions of src/mips64/jit_compiler_x64.c, behind the note of their start: what
-- a processor does when it executes their bytes.
use mathlib.Core.Path.{fun_ext}
use mips64_emulator.Base.{
  ℕ, ◌<◌, ◌≤◌, ◌≡◌, refl, sym, ap, ◌∙◌, arith, Bool, true, false, not, ◌&&◌, ◌||◌, if◌then◌else◌,
}
use mips64_emulator.Base.Int.{ℤ, pos, ℤ_to_u32}
use mips64_emulator.Memory.{update}
use mips64_emulator.Jit.{Emitter, ◌⨾◌, skip, ◌==ℤ◌}
use mips64_emulator.Jit.Instructions.{r0, mov, movi32}
use mips64_emulator.Jit.X64.{
  move, move_imm, Registers, Machine, set_registers, Flags, Execution, running, execute_ins,
  signed_imm,
}
use mips64_emulator.Jit.Computes.{
  Effect, Computes, Computes-skip, Computes-le, Computes-same, Computes-if,
}
use mips64_emulator.Jit.Computes.Leaves.{Computes-rr, Computes-movi}
use mips64_emulator.Jit.Arithmetic.{IsWords, IsMachine, on}

-- The emitter's bytes change the machine by `g`, as long as it holds words and bytes. What is then
-- known of the flags is left open.
pub record Means (k : ℕ) (f : Emitter) (g : Machine → Machine) : Type 0 where
  pub does : Effect
  pub computes : Computes k f does
  pub same :
      (m : Machine) (fl : Flags) → IsMachine m → (fl' : Flags) × (does m fl ≡ running (g m) fl')

pub Means-le : {k l : ℕ} {f : Emitter} {g : Machine → Machine} → k ≤ l → Means k f g → Means l f g
Means-le h c = record { does = c.does; computes = Computes-le h c.computes; same = c.same }

pub Means-target :
    {k : ℕ} {f : Emitter} {g g' : Machine → Machine}
    → ((m : Machine) → g m ≡ g' m)
    → Means k f g
    → Means k f g'
Means-target h c = record {
  does = c.does;
  computes = c.computes;
  same = λ m fl w.
      let (fl', e) = c.same m fl w in (fl', e ∙ ap (λ (x : Machine). running x fl') (h m));
}

pub Means-if :
    {k : ℕ} {f f' : Emitter} {g : Machine → Machine}
    → (b : Bool) → (b ≡ true → Means k f g)
    → (b ≡ false → Means k f' g)
    → Means k (if b then f else f') g
Means-if true c d = c refl
Means-if false c d = d refl

-- `if (s != d) MOV(d, s)`
abbrev pub copy_left : ℤ → ℤ → Emitter
copy_left d s = if not (s ==ℤ d) then mov d s else skip

abbrev pub both_steps : (ℤ → ℤ → Emitter) → ℤ → ℤ → ℤ → Emitter
both_steps body d s t = copy_left d s ⨾ body d t

-- `JIT_ADD` and `JIT_SUB`
abbrev pub sum_steps : (ℤ → ℤ → Emitter) → ℤ → ℤ → ℤ → Emitter
sum_steps body d s t =
    if not (d ==ℤ r0)
    then (if s ==ℤ r0 && t ==ℤ r0
        then movi32 d (pos 0)
        else (if s ==ℤ r0
            then copy_left d t
            else (if t ==ℤ r0 then copy_left d s else both_steps body d s t)))
    else skip

-- `JIT_AND`, `JIT_OR` and `JIT_XOR`
abbrev pub bits_steps : (ℤ → ℤ → Emitter) → ℤ → ℤ → ℤ → Emitter
bits_steps body d s t =
    if not (d ==ℤ r0)
    then (if s ==ℤ t
        then (if s ==ℤ r0 then movi32 d (pos 0) else copy_left d s)
        else (if s ==ℤ r0
            then copy_left d t
            else (if t ==ℤ r0 then copy_left d s else both_steps body d s t)))
    else skip

-- `JIT_MUL`
abbrev pub mul_steps : (ℤ → ℤ → Emitter) → ℤ → ℤ → ℤ → Emitter
mul_steps body d s t =
    if not (d ==ℤ r0)
    then (if s ==ℤ r0 || t ==ℤ r0 then movi32 d (pos 0) else both_steps body d s t)
    else skip

pub same_registers :
    (m : Machine) (fl : Flags) {r r' : Registers}
    → r ≡ r'
    → ◌≡◌ {A = Execution} (running (set_registers r m) fl) (running (set_registers r' m) fl)
same_registers m fl e = ap (λ (r : Registers). running (set_registers r m) fl) e

module _ (d s : ℕ) (hd : d < 16) (hs : s < 16) where
  update_same : (r : Registers) → (pos s ==ℤ pos d) ≡ true → r ≡ update r d (r s)
  update_same r e = fun_ext λ x. ground arith

  pub Computes-copy :
      Computes 3 (copy_left (pos d) (pos s)) (λ m fl. running (on (λ r. update r d (r s)) m) fl)
  unfolding execute_ins
  Computes-copy =
      Computes-if (not (pos s ==ℤ pos d))
        (λ e. Computes-rr d s hd hs 0x89 (move d s) (refl, refl, refl) refl refl)
        (λ e.
          Computes-same (λ m fl. same_registers m fl (update_same m.registers (ground arith)))
            (Computes-le (omega arith) Computes-skip))

  pub Means-copy :
      (g : Registers → ℕ)
      → ((r : Registers) → IsWords r → g r ≡ r s)
      → Means 7 (copy_left (pos d) (pos s)) (on (λ r. update r d (g r)))
  Means-copy g h = record {
    does = λ m fl. running (on (λ r. update r d (r s)) m) fl;
    computes = Computes-le (omega arith) Computes-copy;
    same = λ m fl w.
        (fl, same_registers m fl (ap (update m.registers d) (sym (h m.registers w.words))));
  }

pub Means-movi :
    (d : ℕ) (im : ℤ) (g : Registers → ℕ)
    → d < 16
    → ((r : Registers) → g r ≡ signed_imm (ℤ_to_u32 im))
    → Means 7 (movi32 (pos d) im) (on (λ r. update r d (g r)))
unfolding execute_ins
Means-movi d im g hd h = record {
  does = execute_ins (move_imm d (ℤ_to_u32 im));
  computes = Computes-movi d 0 hd (omega arith) im refl;
  same = λ m fl w. (fl, same_registers m fl (ap (update m.registers d) (sym (h m.registers))));
}
