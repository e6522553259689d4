-- ===== src/Jit/Program.antt =====
-- What a sequence of calls of src/mips64/jit_compiler_x64.c leaves in the buffer and the tables.
use mips64_emulator.Base.{
  ℕ, suc, ◌+◌, ◌*◌, ◌≤◌, ◌<◌, ◌≡◌, ◌⊎◌, inl, inr, refl, ◌∙◌, arith, true, some, List, [], ◌∷◌, ◌++◌,
  length, All, done,
}
use mathlib.Core.Path.{subst}
use mips64_emulator.Memory.RoundTrip.{overlay_before, overlay_after}
use mips64_emulator.Jit.{Parsing}
use mips64_emulator.Jit.Fits.{Extends, noted}
use mips64_emulator.Jit.Ops.{Op, perform, perform_all, is_noted}
use mips64_emulator.Jit.Fits.Ops.{perform-Notes}

-- `n` instructions were added: at most 18 bytes each, all of them between the two pointers, with
-- one entry each in the table of starts, behind the entries that were there.
pub record Adds (n : ℕ) (p q : Parsing) : Type 0 where
  pub index : q.info1_index ≡ p.info1_index + n
  pub buffer_from : p.buffer ≤ q.buffer
  pub buffer_to : q.buffer ≤ p.buffer + 18 * n
  pub jumps_from : p.info2_index ≤ q.info2_index
  pub jumps_to : q.info2_index ≤ p.info2_index + n
  pub code_size : q.code_size ≡ p.code_size
  pub info1_size : q.info1_size ≡ p.info1_size
  pub info2_size : q.info2_size ≡ p.info2_size
  pub outside : (x : ℕ) → (x < p.buffer) ⊎ (q.buffer ≤ x) → q.code x ≡ p.code x
  pub earlier : (k : ℕ) → k < p.info1_index → q.info1 k ≡ p.info1 k

-- Room in the three tables for `n` instructions.
pub record HasSpace (n : ℕ) (p : Parsing) : Type 0 where
  pub bytes : p.buffer + 18 * n ≤ p.code_size
  pub starts : p.info1_index + n ≤ p.info1_size
  pub jumps : p.info2_index + n ≤ p.info2_size

Extends-Adds : {p q : Parsing} → Extends 18 1 (noted p) q → Adds 1 p q
Extends-Adds {p} {q} x = record {
  index = x.info1_index;
  buffer_from = omega (arith, x.buffer);
  buffer_to = omega (arith, x.buffer, x.few);
  jumps_from = x.jumps_from;
  jumps_to = x.jumps_to;
  code_size = x.code_size;
  info1_size = x.info1_size;
  info2_size = x.info2_size;
  outside = λ y h. rw x.code (elim h [
    | inl before ↦ overlay_before p.code p.buffer y x.bytes before
    | inr behind ↦ overlay_after p.code p.buffer y x.bytes (omega (arith, x.buffer))
  ]);
  earlier = λ k h. rw x.info1 (ground arith);
}

Adds-trans : {n m : ℕ} {p q r : Parsing} → Adds n p q → Adds m q r → Adds (n + m) p r
Adds-trans {n} {m} {p} {q} {r} a b = record {
  index = omega (arith, a.index, b.index);
  buffer_from = omega (arith, a.buffer_from, b.buffer_from);
  buffer_to = omega (arith, a.buffer_to, b.buffer_to);
  jumps_from = omega (arith, a.jumps_from, b.jumps_from);
  jumps_to = omega (arith, a.jumps_to, b.jumps_to);
  code_size = b.code_size ∙ a.code_size;
  info1_size = b.info1_size ∙ a.info1_size;
  info2_size = b.info2_size ∙ a.info2_size;
  outside = λ y h. elim h [
    | inl before ↦ b.outside y (inl (omega (arith, a.buffer_from))) ∙ a.outside y (inl before)
    | inr behind ↦ b.outside y (inr behind) ∙ a.outside y (inr (omega (arith, b.buffer_from)))
  ];
  earlier = λ k h. b.earlier k (omega (arith, a.index)) ∙ a.earlier k h;
}

Adds-none : (p : Parsing) → Adds 0 p p
Adds-none p = record {
  index = omega arith;
  buffer_from = omega arith;
  buffer_to = omega arith;
  jumps_from = omega arith;
  jumps_to = omega arith;
  code_size = refl;
  info1_size = refl;
  info2_size = refl;
  outside = λ y h. refl;
  earlier = λ k h. refl;
}

add_first : (n : ℕ) {p q : Parsing} → Adds (1 + n) p q → Adds (suc n) p q
add_first n {p} {q} a = let e : 1 + n ≡ suc n = omega arith in subst (λ m. Adds m p q) e a

-- One instruction, with the space for those that follow it.
one_of :
    (n : ℕ) (op : Op) (p : Parsing)
    → is_noted op ≡ true
    → HasSpace (suc n) p
    → (q : Parsing) × (perform op p ≡ done q) × Extends 18 1 (noted p) q × HasSpace n q
one_of n op p h space =
    let (q, e, x) =
      (perform-Notes op h).run p (omega (arith, space.bytes), omega (arith, space.jumps))
        (omega (arith, space.starts)) in
    let a = Extends-Adds x in
    (
      q,
      e,
      x,
      record {
        bytes = omega (arith, space.bytes, a.buffer_to, a.code_size);
        starts = omega (arith, space.starts, a.index, a.info1_size);
        jumps = omega (arith, space.jumps, a.jumps_to, a.info2_size);
      },
    )

-- Any sequence of n calls of the code generator other than JIT_LOADF, with any integers as
-- operands and 18 n bytes, n starts and n jumps of room, meets no fault. It lays at most 18 n
-- bytes, all of them between the two buffer pointers, adds n starts and at most n jumps, and
-- leaves the earlier starts and the bytes outside alone.
pub perform_all-Adds :
    (ops : List Op) (p : Parsing)
    → All (λ op. is_noted op ≡ true) ops
    → HasSpace (length ops) p
    → (q : Parsing) × (perform_all ops p ≡ done q) × Adds (length ops) p q
unfolding perform_all
perform_all-Adds [] p h space = (p, refl, Adds-none p)
perform_all-Adds (op ∷ ops) p h space =
    let (q, e, x, space') = one_of (length ops) op p h.0 space in
    let (r, e', b) = perform_all-Adds ops q h.1 space' in
    (r, rw e e', add_first (length ops) (Adds-trans (Extends-Adds x) b))

-- For any sequence of calls of the code generator other than JIT_LOADF, with any integers as
-- operands and room in the buffer and the tables: the entry of a call in the table of starts is,
-- after all calls, the buffer pointer that the calls before it leave.
pub perform_all-start :
    (front : List Op) (op : Op) (back : List Op) (p : Parsing)
    → All (λ o. is_noted o ≡ true) (front ++ op ∷ back)
    → HasSpace (length (front ++ op ∷ back)) p
    → (m q : Parsing) × (perform_all front p ≡ done m)
      × (perform_all (front ++ op ∷ back) p ≡ done q)
      × (q.info1 (p.info1_index + length front) ≡ some m.buffer)
unfolding perform_all
perform_all-start [] op back p h space =
    let (q, e, x, space') = one_of (length back) op p h.0 space in
    let (r, e', b) = perform_all-Adds back q h.1 space' in
    let here : p.info1_index + 0 ≡ p.info1_index = omega arith in
    (
      p,
      r,
      refl,
      rw e e',
      rw here (b.earlier p.info1_index (omega (arith, x.info1_index)) ∙ rw x.info1 (ground arith)),
    )
perform_all-start (o ∷ front) op back p h space =
    let (q, e, x, space') = one_of (length (front ++ op ∷ back)) o p h.0 space in
    let (m, r, e', e'', start) = perform_all-start front op back q h.1 space' in
    let next : p.info1_index + suc (length front) ≡ q.info1_index + length front =
      omega (arith, x.info1_index) in
    (m, r, rw e e', rw e e'', rw next start)
