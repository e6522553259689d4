-- ===== src/Jit/Fits.antt =====
-- Emitters of src/mips64/jit_compiler_x64.c: what they need of the tables, and what they leave alone.
pub mod Macros
pub mod Integer
pub mod Branch
pub mod Float
pub mod Float4
pub mod Ops
use Prim.Native.Nat.{max}
use mips64_emulator.Base.{
  ℕ, suc, ◌+◌, ◌≤◌, ◌<◌, ◌≡◌, refl, ◌∙◌, arith, Bool, true, false, some, List, [], ◌∷◌, ◌++◌,
  length, length-append, done, ltb, ◌==◌, if◌then◌else◌, u16,
}
use mips64_emulator.Memory.{update}
use mips64_emulator.Memory.Spec.{overlay}
use mips64_emulator.Memory.RoundTrip.{overlay-overlay}
use mips64_emulator.Jit.{Parsing, Emitter, ◌⨾◌, skip, info, info_jump}
use mips64_emulator.Jit.Laid.{laid, HasRoom}

-- From one state to a later one: at most `n` bytes are laid at the pointer, and at most `j` entries
-- are written behind those of the table of jumps. All else is as it was.
pub record Extends (n j : ℕ) (p q : Parsing) : Type 0 where
  pub bytes : List ℕ
  pub code : q.code ≡ overlay p.code p.buffer bytes
  pub buffer : q.buffer ≡ p.buffer + length bytes
  pub few : length bytes ≤ n
  pub code_size : q.code_size ≡ p.code_size
  pub info1 : q.info1 ≡ p.info1
  pub info1_size : q.info1_size ≡ p.info1_size
  pub info1_index : q.info1_index ≡ p.info1_index
  pub i1 : q.i1 ≡ p.i1
  pub info2_size : q.info2_size ≡ p.info2_size
  pub jumps_from : p.info2_index ≤ q.info2_index
  pub jumps_to : q.info2_index ≤ p.info2_index + j

abbrev pub Room : ℕ → ℕ → Parsing → Type 0
Room n j p = HasRoom n p × (p.info2_index + j ≤ p.info2_size)

-- With room the emitter meets no fault.
pub record Fits (n j : ℕ) (f : Emitter) : Type 0 where
  pub run : (p : Parsing) → Room n j p → (q : Parsing) × (f p ≡ done q) × Extends n j p q

Extends-refl : (p : Parsing) → Extends 0 0 p p
Extends-refl p = record {
  bytes = [];
  code = refl;
  buffer = omega arith;
  few = omega arith;
  code_size = refl;
  info1 = refl;
  info1_size = refl;
  info1_index = refl;
  i1 = refl;
  info2_size = refl;
  jumps_from = omega arith;
  jumps_to = omega arith;
}

pub Extends-le : {n j m k : ℕ} {p q : Parsing} → n ≤ m → j ≤ k → Extends n j p q → Extends m k p q
Extends-le h h' e = record {
  bytes = e.bytes;
  code = e.code;
  buffer = e.buffer;
  few = omega (arith, e.few);
  code_size = e.code_size;
  info1 = e.info1;
  info1_size = e.info1_size;
  info1_index = e.info1_index;
  i1 = e.i1;
  info2_size = e.info2_size;
  jumps_from = e.jumps_from;
  jumps_to = omega (arith, e.jumps_to);
}

pub Extends-trans :
    {n j m k : ℕ} {p q r : Parsing}
    → Extends n j p q
    → Extends m k q r
    → Extends (n + m) (j + k) p r
Extends-trans {n} {j} {m} {k} {p} {q} {r} d e = record {
  bytes = d.bytes ++ e.bytes;
  code = e.code ∙ rw (d.code, d.buffer) (overlay-overlay p.code p.buffer d.bytes e.bytes);
  buffer = omega (arith, d.buffer, e.buffer, length-append d.bytes e.bytes);
  few = omega (arith, d.few, e.few, length-append d.bytes e.bytes);
  code_size = e.code_size ∙ d.code_size;
  info1 = e.info1 ∙ d.info1;
  info1_size = e.info1_size ∙ d.info1_size;
  info1_index = e.info1_index ∙ d.info1_index;
  i1 = e.i1 ∙ d.i1;
  info2_size = e.info2_size ∙ d.info2_size;
  jumps_from = omega (arith, d.jumps_from, e.jumps_from);
  jumps_to = omega (arith, d.jumps_to, e.jumps_to);
}

pub Fits-skip : Fits 0 0 skip
Fits-skip = record { run = λ p h. (p, refl, Extends-refl p) }

pub Fits-laid :
    (f : Emitter) (bs : List ℕ)
    → ((p : Parsing) → HasRoom (length bs) p → f p ≡ done (laid p bs))
    → Fits (length bs) 0 f
Fits-laid f bs h = record {
  run = λ p room. (
    laid p bs,
    h p room.0,
    record {
      bytes = bs;
      code = refl;
      buffer = refl;
      few = omega arith;
      code_size = refl;
      info1 = refl;
      info1_size = refl;
      info1_index = refl;
      i1 = refl;
      info2_size = refl;
      jumps_from = omega arith;
      jumps_to = omega arith;
    },
  );
}

pub Fits-⨾ : {n j m k : ℕ} {f g : Emitter} → Fits n j f → Fits m k g → Fits (n + m) (j + k) (f ⨾ g)
Fits-⨾ fits next = record {
  run = λ p room.
      let (q, e, x) = fits.run p (omega arith, omega arith) in
      let (r, e', y) = next.run q (
        omega (arith, x.buffer, x.few, x.code_size, room.0),
        omega (arith, x.jumps_to, x.info2_size, room.1),
      ) in
      (r, rw e e', Extends-trans x y);
}

pub Fits-if :
    (b : Bool) {n j m k : ℕ} {f g : Emitter}
    → Fits n j f
    → Fits m k g
    → Fits (max n m) (max j k) (if b then f else g)
Fits-if true fits other = record {
  run = λ p room.
      let (q, e, x) = fits.run p (omega (arith, room.0), omega (arith, room.1)) in
      (q, e, Extends-le (omega arith) (omega arith) x);
}
Fits-if false fits other = record {
  run = λ p room.
      let (q, e, x) = other.run p (omega (arith, room.0), omega (arith, room.1)) in
      (q, e, Extends-le (omega arith) (omega arith) x);
}

pub Fits-info_jump : Fits 0 1 info_jump
unfolding info_jump
Fits-info_jump = record {
  run = λ p room.
      let e : ltb p.info2_index p.info2_size ≡ true = ground arith in
      (
        record p {
          info2 = λ k. if k == p.info2_index then u16 p.i1 else p.info2 k;
          info2_index = p.info2_index + 1;
        },
        rw e,
        record {
          bytes = [];
          code = refl;
          buffer = omega arith;
          few = omega arith;
          code_size = refl;
          info1 = refl;
          info1_size = refl;
          info1_index = refl;
          i1 = refl;
          info2_size = refl;
          jumps_from = omega arith;
          jumps_to = omega arith;
        },
      );
}

-- The state after `JIT__INFO`.
abbrev pub noted : Parsing → Parsing
noted p = record p {
  info1 = λ k. if k == p.info1_index then some p.buffer else p.info1 k;
  info1_index = p.info1_index + 1;
  i1 = p.i1 + 2;
}

-- An emitter that notes its start first, and only once.
pub record Notes (n j : ℕ) (f : Emitter) : Type 0 where
  pub run :
      (p : Parsing)
      → Room n j p
      → p.info1_index < p.info1_size
      → (q : Parsing) × (f p ≡ done q) × Extends n j (noted p) q

pub Notes-info : Notes 0 0 info
unfolding info
Notes-info = record {
  run = λ p room h.
      let e : ltb p.info1_index p.info1_size ≡ true = ground arith in
      (noted p, rw e, Extends-refl (noted p));
}

pub Notes-⨾ :
    {n j m k : ℕ} {f g : Emitter} → Notes n j f → Fits m k g → Notes (n + m) (j + k) (f ⨾ g)
Notes-⨾ notes next = record {
  run = λ p room h.
      let (q, e, x) = notes.run p (omega arith, omega arith) h in
      let (r, e', y) = next.run q (
        omega (arith, x.buffer, x.few, x.code_size, room.0),
        omega (arith, x.jumps_to, x.info2_size, room.1),
      ) in
      (r, rw e e', Extends-trans x y);
}

pub Notes-if :
    (b : Bool) {n j m k : ℕ} {f g : Emitter}
    → Notes n j f
    → Notes m k g
    → Notes (max n m) (max j k) (if b then f else g)
Notes-if true notes other = record {
  run = λ p room h.
      let (q, e, x) = notes.run p (omega (arith, room.0), omega (arith, room.1)) h in
      (q, e, Extends-le (omega arith) (omega arith) x);
}
Notes-if false notes other = record {
  run = λ p room h.
      let (q, e, x) = other.run p (omega (arith, room.0), omega (arith, room.1)) h in
      (q, e, Extends-le (omega arith) (omega arith) x);
}

pub Notes-le : {n j m k : ℕ} {f : Emitter} → n ≤ m → j ≤ k → Notes n j f → Notes m k f
Notes-le h h' notes = record {
  run = λ p room i.
      let (q, e, x) = notes.run p (omega (arith, room.0), omega (arith, room.1)) i in
      (q, e, Extends-le h h' x);
}
