-- ===== src/Jit/Runs.antt =====
-- One call of a function of src/mips64/jit_compiler_x64.c, and the execution of what it lays.
pub mod Branch
pub mod Division
pub mod Store
use mathlib.Core.List.{append-nil}
use mips64_emulator.Base.{
  ℕ, ◌+◌, ◌-◌, ◌*◌, ◌≤◌, ◌≡◌, refl, sym, ap, ◌∙◌, arith, true, done, List, [], ◌∷◌, ◌++◌, length,
  ltb, ◌==◌, if◌then◌else◌, u16,
}
use mips64_emulator.Memory.Spec.{overlay, run_at}
use mips64_emulator.Memory.RoundTrip.{run_at-overlay}
use mips64_emulator.Jit.{Parsing, Emitter, ◌⨾◌, info, info_jump}
use mips64_emulator.Jit.Laid.{laid}
use mips64_emulator.Jit.Fits.{noted}
use mips64_emulator.Jit.Program.{HasSpace}
use mips64_emulator.Jit.X64.{Machine, unknown, Execution, running, jumped, stuck}
use mips64_emulator.Jit.X64.Run.{then_run, run_ins, run_code}
use mips64_emulator.Jit.Computes.{Computes, Effect}

nothing_left : (e : Execution) (n : ℕ) → then_run e (run_ins n []) ≡ e
unfolding run_ins
nothing_left (running m f) n = refl
nothing_left (jumped v m) n = refl
nothing_left stuck n = refl

-- The bytes between the two pointers.
abbrev pub code_between : Parsing → Parsing → List ℕ
code_between p q = run_at q.code p.buffer (q.buffer - p.buffer)

laid-run_code :
    {k : ℕ} {f : Emitter} {g : Effect} (p q : Parsing)
    → (c : Computes k f g) → q.code ≡ overlay p.code p.buffer c.bytes
    → q.buffer ≡ p.buffer + length c.bytes
    → (m : Machine) → run_code (code_between p q) m ≡ g m unknown
laid-run_code {g = g} p q c code buffer m =
    let n : q.buffer - p.buffer ≡ length c.bytes = omega (arith, buffer) in
    let more = length c.bytes - c.count in
    let l : length c.bytes ≡ c.count + more = omega (arith, c.enough) in
    rw (n, code, run_at-overlay p.code p.buffer c.bytes)
      (ap (λ (k : ℕ). run_ins k c.bytes m unknown) l
        ∙ ap (λ (bs : List ℕ). run_ins (c.count + more) bs m unknown) (sym (append-nil c.bytes))
        ∙ c.runs more [] m unknown
        ∙ nothing_left (g m unknown) more)

-- The start is noted, and the bytes are laid.
pub info-runs :
    {k : ℕ} {f : Emitter} {g : Effect}
    → k ≤ 18
    → Computes k f g
    → (p : Parsing) → HasSpace 1 p
    → (m : Machine)
    → (q : Parsing) × ((info ⨾ f) p ≡ done q) × (run_code (code_between p q) m ≡ g m unknown)
unfolding info
info-runs le c p space m =
    let e : ltb p.info1_index p.info1_size ≡ true = ground (arith, space.starts) in
    let q = laid (noted p) c.bytes in
    (
      q,
      rw e (c.emits (noted p) (omega (arith, space.bytes, c.few))),
      laid-run_code p q c refl refl m,
    )

-- The same, with an entry in the table of jumps behind.
pub info-jump-runs :
    {k : ℕ} {f : Emitter} {g : Effect}
    → k ≤ 18
    → Computes k f g
    → (p : Parsing) → HasSpace 1 p
    → (m : Machine)
    → (q : Parsing) × ((info ⨾ (f ⨾ info_jump)) p ≡ done q)
      × (run_code (code_between p q) m ≡ g m unknown)
unfolding info info_jump
info-jump-runs {f = f} le c p space m =
    let e : ltb p.info1_index p.info1_size ≡ true = ground (arith, space.starts) in
    let e' : ltb p.info2_index p.info2_size ≡ true = ground (arith, space.jumps) in
    let q = record (laid (noted p) c.bytes) {
      info2 = λ k. if k == p.info2_index then u16 (p.i1 + 2) else p.info2 k;
      info2_index = p.info2_index + 1;
    } in
    let l : f (noted p) ≡ done (laid (noted p) c.bytes) =
      c.emits (noted p) (omega (arith, space.bytes, c.few)) in
    (q, rw (e, l, e') refl, laid-run_code p q c refl refl m)
