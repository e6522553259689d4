-- ===== src/Jit/Computes.antt =====
-- The bytes that an emitter of src/mips64/jit_compiler_x64.c lays, as a processor executes them.
pub mod Accesses
pub mod Leaves
pub mod Plain
use mips64_emulator.Base.{
  ℕ, suc, ◌+◌, ◌*◌, ◌/◌, ◌%◌, ◌^◌, ◌≤◌, ◌<◌, ◌≡◌, refl, sym, ap, ap₂, ◌∙◌, arith, Bool, true, false,
  Option, none, some, List, [], ◌∷◌, ◌++◌, length, length-append, done, ◌==◌, if◌then◌else◌, bit_or,
  u8, ◌<<◌,
}
use mips64_emulator.Base.Bits.{bit_and-mask, bit_or-shifted}
use mips64_emulator.Base.Int.{pos, ltb_ℤ, ℤ, negsuc, ℤ_to_u32}
use mathlib.Core.List.{append_assoc}
use mips64_emulator.Jit.{Parsing, Emitter, ◌⨾◌, skip, truth, high_bit, low_bits}
use mips64_emulator.Jit.Laid.{
  u32_bytes, laid, HasRoom, rex_byte, modrm_byte, rr-laid, rr_0f-laid, ri32-laid,
}
use mips64_emulator.Jit.Instructions.{movi32}
use mips64_emulator.Jit.Forms.{rr, rr_0f}
use mips64_emulator.Memory.RoundTrip.{overlay-overlay}
use mathlib.Core.Path.{fun_ext}
use mips64_emulator.Jit.X64.{Ins, Machine, Flags, Execution, running, jumped, stuck, execute_ins}
use mips64_emulator.Jit.X64.Read.{Reading, read_ins}
use mips64_emulator.Jit.X64.Run.{then_run, run_ins}

abbrev pub Effect : Type 0
Effect = Machine → Flags → Execution

abbrev pub and_then : Effect → Effect → Effect
and_then g g' m f = then_run (g m f) g'

-- The emitter lays at most `k` bytes, and a processor that executes them does `g`.
pub record Computes (k : ℕ) (f : Emitter) (g : Effect) : Type 0 where
  pub bytes : List ℕ
  pub count : ℕ
  pub emits : (p : Parsing) → HasRoom (length bytes) p → f p ≡ done (laid p bytes)
  pub enough : count ≤ length bytes
  pub few : length bytes ≤ k
  pub runs :
      (n : ℕ) (rest : List ℕ) (m : Machine) (fl : Flags)
      → run_ins (count + n) (bytes ++ rest) m fl ≡ then_run (g m fl) (run_ins n rest)

then_run-then_run :
    (e : Execution) (g g' : Effect) → then_run (then_run e g) g' ≡ then_run e (and_then g g')
then_run-then_run (running m f) g g' = refl
then_run-then_run (jumped v m) g g' = refl
then_run-then_run stuck g g' = refl

laid-laid : (p : Parsing) (xs ys : List ℕ) → laid (laid p xs) ys ≡ laid p (xs ++ ys)
laid-laid p xs ys =
    ap₂ (λ (c : ℕ → ℕ) (b : ℕ). with_code c b) (overlay-overlay p.code p.buffer xs ys)
      (omega (arith, length-append xs ys))
  where
    with_code : (ℕ → ℕ) → ℕ → Parsing
    with_code c b = record p { code = c; buffer = b }

pub Computes-skip : Computes 0 skip running
Computes-skip = record {
  bytes = [];
  count = 0;
  emits = λ p h. let e : p.buffer + 0 ≡ p.buffer = omega arith in rw e;
  enough = omega arith;
  few = omega arith;
  runs = λ n rest m fl. let e : 0 + n ≡ n = omega arith in rw e;
}

pub Computes-⨾ :
    {k l : ℕ} {f f' : Emitter} {g g' : Effect}
    → Computes k f g
    → Computes l f' g'
    → Computes (k + l) (f ⨾ f') (and_then g g')
Computes-⨾ {k} {l} {f} {f'} {g} {g'} c d = record {
  bytes = c.bytes ++ d.bytes;
  count = c.count + d.count;
  emits = λ p h. rw (c.emits p (omega (arith, length-append c.bytes d.bytes))) (
      d.emits (laid p c.bytes) (omega (arith, length-append c.bytes d.bytes))
      ∙ ap done (laid-laid p c.bytes d.bytes));
  enough = omega (arith, c.enough, d.enough, length-append c.bytes d.bytes);
  few = omega (arith, c.few, d.few, length-append c.bytes d.bytes);
  runs = λ n rest m fl.
      let e : c.count + d.count + n ≡ c.count + (d.count + n) = omega arith in
      rw (append_assoc, e)
        (c.runs (d.count + n) (d.bytes ++ rest) m fl
          ∙ ap (then_run (g m fl)) (fun_ext λ m'. fun_ext λ fl'. d.runs n rest m' fl')
          ∙ sym (then_run-then_run (g m fl) g' (run_ins n rest)));
}

-- One instruction.
one :
    (b : ℕ) (bs rest : List ℕ) (i : Ins) (n : ℕ) (m : Machine) (fl : Flags)
    → read_ins (b ∷ bs) ≡ some (i, rest)
    → run_ins (1 + n) (b ∷ bs) m fl ≡ then_run (execute_ins i m fl) (run_ins n rest)
unfolding run_ins
one b bs rest i n m fl e = let k : 1 + n ≡ suc n = omega arith in rw k (ap run_reading e)
  where
    run_reading : Reading → Execution
    run_reading none = stuck
    run_reading (some j) = then_run (execute_ins j.0 m fl) (run_ins n j.1)

pub Computes-one :
    {f : Emitter} (b : ℕ) (bs : List ℕ) (i : Ins)
    → ((p : Parsing) → HasRoom (suc (length bs)) p → f p ≡ done (laid p (b ∷ bs)))
    → ((rest : List ℕ) → read_ins (b ∷ bs ++ rest) ≡ some (i, rest))
    → Computes (suc (length bs)) f (execute_ins i)
Computes-one b bs i lays reads = record {
  bytes = b ∷ bs;
  count = 1;
  emits = lays;
  enough = omega arith;
  few = omega arith;
  runs = λ n rest m fl. one b (bs ++ rest) rest i n m fl (reads rest);
}

-- Two instructions that one macro lays.
pub Computes-two :
    {f : Emitter} (b : ℕ) (bs : List ℕ) (c : ℕ) (cs : List ℕ) (i j : Ins)
    → ((p : Parsing)
        → HasRoom (suc (length bs) + suc (length cs)) p
        → f p ≡ done (laid p (b ∷ bs ++ c ∷ cs)))
    → ((rest : List ℕ) → read_ins (b ∷ bs ++ rest) ≡ some (i, rest))
    → ((rest : List ℕ) → read_ins (c ∷ cs ++ rest) ≡ some (j, rest))
    → Computes (suc (length bs) + suc (length cs)) f (and_then (execute_ins i) (execute_ins j))
Computes-two b bs c cs i j lays reads reads' =
    let l = length-append (b ∷ bs) (c ∷ cs) in
    record {
      bytes = b ∷ bs ++ c ∷ cs;
      count = 2;
      emits = λ p room. lays p (omega (arith, l));
      enough = omega (arith, l);
      few = omega (arith, l);
      runs = λ n rest m fl.
          let e : 2 + n ≡ 1 + (1 + n) = omega arith in
          rw (e, append_assoc)
            (one b (bs ++ (c ∷ cs ++ rest)) (c ∷ cs ++ rest) i (1 + n) m fl (reads (c ∷ cs ++ rest))
              ∙ ap (then_run (execute_ins i m fl))
                  (fun_ext λ m'. fun_ext λ fl'. one c (cs ++ rest) rest j n m' fl' (reads' rest))
              ∙ sym (then_run-then_run (execute_ins i m fl) (execute_ins j) (run_ins n rest)));
    }

pub Computes-le : {k l : ℕ} {f : Emitter} {g : Effect} → k ≤ l → Computes k f g → Computes l f g
Computes-le h c = record {
  bytes = c.bytes;
  count = c.count;
  emits = c.emits;
  enough = c.enough;
  few = omega (arith, c.few);
  runs = c.runs;
}

pub Computes-same :
    {k : ℕ} {f : Emitter} {g g' : Effect}
    → ((m : Machine) (fl : Flags) → g m fl ≡ g' m fl)
    → Computes k f g
    → Computes k f g'
Computes-same h c = record {
  bytes = c.bytes;
  count = c.count;
  emits = c.emits;
  enough = c.enough;
  few = c.few;
  runs = λ n rest m fl.
      c.runs n rest m fl ∙ ap (λ (e : Execution). then_run e (run_ins n rest)) (h m fl);
}

pub Computes-if :
    {k : ℕ} {f f' : Emitter} {g : Effect}
    → (b : Bool) → (b ≡ true → Computes k f g)
    → (b ≡ false → Computes k f' g)
    → Computes k (if b then f else f') g
Computes-if true c d = c refl
Computes-if false c d = d refl
