-- ===== src/Jit/Arithmetic/Program.antt =====
-- Sequences of the arithmetic functions of src/mips64/jit_compiler_x64.c, and their execution.
use mathlib.Core.List.{append_assoc, append-nil, map}
use mips64_emulator.Base.{
  ℕ, suc, ◌+◌, ◌-◌, ◌*◌, ◌≤◌, ◌≡◌, refl, sym, ap, ◌∙◌, arith, true, done, List, [], ◌∷◌, ◌++◌,
  length, length-append, All, ltb,
}
use mips64_emulator.Memory.Spec.{overlay, run_at}
use mips64_emulator.Memory.RoundTrip.{run_at-overlay, overlay-overlay}
use mips64_emulator.Jit.{Parsing, Emitter, ◌⨾◌, info}
use mips64_emulator.Jit.Arithmetic.Means.{Means}
use mips64_emulator.Jit.Fits.{noted}
use mips64_emulator.Jit.Laid.{laid}
use mathlib.Core.Path.{subst}
use mips64_emulator.Jit.Ops.{perform, perform_all}
use mips64_emulator.Jit.Program.{HasSpace}
use mips64_emulator.Jit.X64.{Machine, Flags, unknown, Execution, running}
use mips64_emulator.Jit.X64.Run.{then_run, run_ins, run_code}
use mips64_emulator.Jit.Arithmetic.{
  IsMachine, Step, compute, constant, shift_by, is_less, fetch, IsStep, op_of_step, meaning,
  meaning_all,
}
use mips64_emulator.Jit.Arithmetic.Shifts.{shift-Means, shift-IsMachine, perform-shift}
use mips64_emulator.Jit.Arithmetic.Compares.{less-Means, less-IsMachine, perform-less}
use mips64_emulator.Jit.Arithmetic.Loads.{fetch-Means, fetch-IsMachine, perform-fetch}
use mips64_emulator.Jit.Arithmetic.Steps.{
  perform-constant, constant-Means, constant-IsMachine, perform-steps, Arith-Means,
  result-IsMachine,
}

-- From one state to a later one: the bytes laid between the two pointers, and what a processor
-- does that executes them.
pub record Built (m : ℕ) (p q : Parsing) (g : Machine → Machine) : Type 0 where
  pub bytes : List ℕ
  pub count : ℕ
  pub code : q.code ≡ overlay p.code p.buffer bytes
  pub buffer : q.buffer ≡ p.buffer + length bytes
  pub few : length bytes ≤ 18 * m
  pub enough : count ≤ length bytes
  pub code_size : q.code_size ≡ p.code_size
  pub info1_size : q.info1_size ≡ p.info1_size
  pub info1_index : q.info1_index ≡ p.info1_index + m
  pub info2_size : q.info2_size ≡ p.info2_size
  pub info2_index : q.info2_index ≡ p.info2_index
  pub keeps : (m : Machine) → IsMachine m → IsMachine (g m)
  pub runs :
      (n : ℕ) (rest : List ℕ) (m : Machine) (fl : Flags)
      → IsMachine m
      → (fl' : Flags) × (run_ins (count + n) (bytes ++ rest) m fl ≡ run_ins n rest (g m) fl')

Built-none : (p : Parsing) → Built 0 p p (λ m. m)
Built-none p = record {
  bytes = [];
  count = 0;
  code = refl;
  buffer = omega arith;
  few = omega arith;
  enough = omega arith;
  code_size = refl;
  info1_size = refl;
  info1_index = omega arith;
  info2_size = refl;
  info2_index = refl;
  keeps = λ m w. w;
  runs = λ n rest m fl w. let e : 0 + n ≡ n = omega arith in (fl, rw e refl);
}

Built-trans :
    {m n : ℕ} {p q r : Parsing} {g h : Machine → Machine}
    → Built m p q g
    → Built n q r h
    → Built (m + n) p r (λ x. h (g x))
Built-trans {m} {n} {p} {q} {r} {g} {h} b c = record {
  bytes = b.bytes ++ c.bytes;
  count = b.count + c.count;
  code = c.code ∙ rw (b.code, b.buffer) (overlay-overlay p.code p.buffer b.bytes c.bytes);
  buffer = omega (arith, b.buffer, c.buffer, length-append b.bytes c.bytes);
  few = omega (arith, b.few, c.few, length-append b.bytes c.bytes);
  enough = omega (arith, b.enough, c.enough, length-append b.bytes c.bytes);
  code_size = c.code_size ∙ b.code_size;
  info1_size = c.info1_size ∙ b.info1_size;
  info1_index = omega (arith, b.info1_index, c.info1_index);
  info2_size = c.info2_size ∙ b.info2_size;
  info2_index = c.info2_index ∙ b.info2_index;
  keeps = λ x w. c.keeps (g x) (b.keeps x w);
  runs = λ k rest x fl w.
      let e : b.count + c.count + k ≡ b.count + (c.count + k) = omega arith in
      let (fl', one) = b.runs (c.count + k) (c.bytes ++ rest) x fl w in
      let (fl'', two) = c.runs k rest (g x) fl' (b.keeps x w) in
      (fl'', rw (append_assoc, e) (one ∙ two));
}

-- One call: the start is noted, then the bytes are laid.
pub info-Built :
    {k : ℕ} {f : Emitter} {g : Machine → Machine}
    → k ≤ 18
    → Means k f g
    → ((m : Machine) → IsMachine m → IsMachine (g m))
    → (p : Parsing) → HasSpace 1 p
    → (q : Parsing) × ((info ⨾ f) p ≡ done q) × Built 1 p q g
unfolding info
info-Built le c keeps p space =
    let e : ltb p.info1_index p.info1_size ≡ true = ground (arith, space.starts) in
    (
      laid (noted p) c.computes.bytes,
      rw e (c.computes.emits (noted p) (omega (arith, space.bytes, c.computes.few))),
      record {
        bytes = c.computes.bytes;
        count = c.computes.count;
        code = refl;
        buffer = refl;
        few = omega (arith, c.computes.few);
        enough = c.computes.enough;
        code_size = refl;
        info1_size = refl;
        info1_index = refl;
        info2_size = refl;
        info2_index = refl;
        keeps = keeps;
        runs = λ n rest m fl w.
            let (fl', e) = c.same m fl w in
            (
              fl',
              c.computes.runs n rest m fl ∙ ap (λ (x : Execution). then_run x (run_ins n rest)) e,
            );
      },
    )

perform-Built :
    (x : Step) (p : Parsing)
    → IsStep x
    → HasSpace 1 p
    → (q : Parsing) × (perform (op_of_step x) p ≡ done q) × Built 1 p q (meaning x)
unfolding meaning
perform-Built (compute x) p h space =
    let (q, e, b) =
      info-Built (omega arith) (Arith-Means x.operation x.to x.left x.right h)
        (result-IsMachine x.operation x.to x.left x.right) p space in
    (q, perform-steps x.operation x.to x.left x.right p ∙ e, b)
perform-Built (constant d i) p h space =
    let (q, e, b) =
      info-Built (omega arith) (constant-Means d i h.0 h.1) (constant-IsMachine d i) p space in
    (q, perform-constant d i p ∙ e, b)
perform-Built (shift_by k d s t) p h space =
    let (q, e, b) =
      info-Built (omega arith) (shift-Means k d s t h) (shift-IsMachine k d s t) p space in
    (q, perform-shift k d s t p ∙ e, b)
perform-Built (is_less d s t) p h space =
    let (q, e, b) =
      info-Built (omega arith) (less-Means d s t h.0 h.1 h.2) (less-IsMachine d s t) p space in
    (q, perform-less d s t p ∙ e, b)
perform-Built (fetch w d s o) p h space =
    let (q, e, b) =
      info-Built (omega arith) (fetch-Means w d s o h) (fetch-IsMachine w d s o) p space in
    (q, perform-fetch w d s o p ∙ e, b)

perform_all-Built :
    (xs : List Step) (p : Parsing)
    → All IsStep xs
    → HasSpace (length xs) p
    → (q : Parsing) × (perform_all (map op_of_step xs) p ≡ done q)
      × Built (length xs) p q (meaning_all xs)
unfolding meaning_all perform_all
perform_all-Built [] p h space = (p, refl, Built-none p)
perform_all-Built (x ∷ xs) p h space =
    let (q, e, b) = perform-Built x p h.0 (record {
      bytes = omega (arith, space.bytes);
      starts = omega (arith, space.starts);
      jumps = omega (arith, space.jumps);
    }) in
    let (r, e', c) = perform_all-Built xs q h.1 (record {
      bytes = omega (arith, space.bytes, b.buffer, b.few, b.code_size);
      starts = omega (arith, space.starts, b.info1_index, b.info1_size);
      jumps = omega (arith, space.jumps, b.info2_index, b.info2_size);
    }) in
    let k : 1 + length xs ≡ suc (length xs) = omega arith in
    (r, rw e e', subst (λ m. Built m p r (meaning_all (x ∷ xs))) k (Built-trans b c))

run_ins-nil : (n : ℕ) (m : Machine) (fl : Flags) → run_ins n [] m fl ≡ running m fl
unfolding run_ins
run_ins-nil n m fl = refl

-- The bytes between the two pointers, executed.
pub Built-run_code :
    {k : ℕ} {p q : Parsing} {g : Machine → Machine}
    → Built k p q g
    → (m : Machine) → IsMachine m
    → (fl : Flags) × (run_code (run_at q.code p.buffer (q.buffer - p.buffer)) m ≡ running (g m) fl)
Built-run_code {k} {p} {q} {g} b m w =
    let n : q.buffer - p.buffer ≡ length b.bytes = omega (arith, b.buffer) in
    let more = length b.bytes - b.count in
    let l : length b.bytes ≡ b.count + more = omega (arith, b.enough) in
    let (fl, e) = b.runs more [] m unknown w in
    (
      fl,
      rw (n, b.code, run_at-overlay p.code p.buffer b.bytes)
          (ap (λ (k : ℕ). run_ins k b.bytes m unknown) l
            ∙ ap (λ (bs : List ℕ). run_ins (b.count + more) bs m unknown) (sym (append-nil b.bytes))
            ∙ e
            ∙ run_ins-nil more (g m) fl),
    )

-- Any sequence of calls that compute, with room in the buffer and the tables, is laid with no
-- fault; and an x86-64 processor that executes the bytes between the two buffer pointers, with
-- registers of 64-bit words and memory of bytes at the start, ends with the registers and the
-- memory that the calls' meanings, one after another, give. The calls are: JIT_ADDI of a 32-bit
-- number to JIT_R0; JIT_ADD, JIT_SUB, JIT_MUL, JIT_AND, JIT_OR and JIT_XOR of registers or
-- JIT_R0, modulo 2 ^ 64, where the shortcuts serve the operands rightly; JIT_SHIFTL and
-- JIT_SHIFTR of a register by a register, modulo 64, into a register other than RCX and RSP,
-- where RCX is left below the stack pointer; JIT_LESS of a register and a register or JIT_R0,
-- signed, which leaves its outcome in RAX too unless the operands are one register; JIT_LOAD32,
-- extended by zeros, and JIT_LOAD64, not from R12. Not among them are a right operand that is
-- the register to write while the left one is another register (but for JIT_LESS), a shift by
-- RSP, a subtraction of a register from JIT_R0, an AND of a register and JIT_R0, and an XOR of a
-- register and itself.
pub perform_all-computes :
    (xs : List Step) (p : Parsing) (m : Machine)
    → All IsStep xs
    → HasSpace (length xs) p
    → IsMachine m
    → (q : Parsing) × (fl : Flags) × (perform_all (map op_of_step xs) p ≡ done q)
      × (run_code (run_at q.code p.buffer (q.buffer - p.buffer)) m ≡ running (meaning_all xs m) fl)
perform_all-computes xs p m h space w =
    let (q, e, b) = perform_all-Built xs p h space in
    let (fl, run) = Built-run_code b m w in (q, fl, e, run)
