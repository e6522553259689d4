-- ===== src/Jit/Entries.antt =====
-- Entries of the tables of include/mips64/jit_compiler_x64.h: those of jumps, and the start of a
-- float load.
use mips64_emulator.Base.{
  ℕ, ◌+◌, ◌<◌, ◌≡◌, refl, ap, ◌∙◌, arith, true, false, not, ◌&&◌, some, done, ◌∷◌, ltb, ◌==◌,
  if◌then◌else◌, u16,
}
use mips64_emulator.Base.Int.{ℤ, pos, negsuc, ℤ_to_u32}
use mips64_emulator.Memory.{update}
use mips64_emulator.Memory.Spec.{run_at, le_value}
use mips64_emulator.Memory.RoundTrip.{run_at-overlay}
use mips64_emulator.Jit.{Parsing, Emitter, ◌⨾◌, skip, ◌==ℤ◌, info, info_through, info_jump}
use mips64_emulator.Jit.Forms.{op_i32}
use mips64_emulator.Jit.Instructions.{r0, sp, rax, mov, loadss}
use mips64_emulator.Jit.Laid.{laid, u32_bytes, op_i32-laid}
use mips64_emulator.Jit.Fits.{noted, Fits, Fits-skip, Fits-⨾, Fits-if}
use mips64_emulator.Jit.Fits.Macros.{Fits-rm_float, Fits-rr}
use mips64_emulator.Jit.Branch.{jit_jump}
use mips64_emulator.Jit.Float.{jit_loadf}
use mips64_emulator.Jit.Program.{HasSpace}

-- A 32-bit operand reads back from its bytes.
u32_bytes-value : (o : ℤ) → le_value (u32_bytes (ℤ_to_u32 o)) ≡ ℤ_to_u32 o
u32_bytes-value (pos n) = omega arith
u32_bytes-value (negsuc n) = omega arith

-- The operand behind an opcode of one byte, and the entry of the jump.
abbrev jump_state : ℕ → ℤ → Parsing → Parsing
jump_state opcode o p =
    let q = laid (noted p) (opcode ∷ u32_bytes (ℤ_to_u32 o)) in
    record q {
      info2 = λ k. if k == p.info2_index then u16 (p.i1 + 2) else p.info2 k;
      info2_index = p.info2_index + 1;
    }

jump_steps :
    (opcode : ℕ) (o : ℤ) (p : Parsing)
    → HasSpace 1 p
    → (info ⨾ (op_i32 opcode o ⨾ info_jump)) p ≡ done (jump_state opcode o p)
unfolding info info_jump
jump_steps opcode o p space =
    let e : ltb p.info1_index p.info1_size ≡ true = ground (arith, space.starts) in
    let e' : ltb p.info2_index p.info2_size ≡ true = ground (arith, space.jumps) in
    rw (e, op_i32-laid (noted p) opcode o (omega (arith, space.bytes)), e') refl

-- JIT_JUMP with any offset but JIT_R0, with room, lays the opcode of a near jump and the offset
-- as 32 bits in two's complement, moves the buffer pointer on by 5, notes the start, and stores
-- the low 16 bits of the counting pointer in the table of jumps.
jit_jump-entry :
    (o : ℤ) (p : Parsing)
    → HasSpace 1 p
    → (o ==ℤ r0) ≡ false
    → (q : Parsing) × (jit_jump o p ≡ done q)
      × (q.code p.buffer ≡ 0xE9)
      × (le_value (run_at q.code (p.buffer + 1) 4) ≡ ℤ_to_u32 o)
      × (q.buffer ≡ p.buffer + 5)
      × (q.info1 p.info1_index ≡ some p.buffer)
      × (q.info2 p.info2_index ≡ u16 (p.i1 + 2))
unfolding jit_jump
jit_jump-entry o p space ne = (
  jump_state 0xE9 o p,
  rw ne (jump_steps 0xE9 o p space),
  ground arith,
  ap le_value (run_at-overlay (update p.code p.buffer 0xE9) (p.buffer + 1) (u32_bytes (ℤ_to_u32 o)))
      ∙ u32_bytes-value o,
  refl,
  ground arith,
  ground arith,
)

abbrev loadf_steps : ℤ → ℤ → ℤ → Emitter
loadf_steps d s o =
    if not (d ==ℤ r0) && not (s ==ℤ r0)
    then (if s ==ℤ sp then (mov rax s ⨾ loadss d rax o) else loadss d s o)
    else skip

Fits-loadf : (d s o : ℤ) → Fits 12 0 (loadf_steps d s o)
Fits-loadf d s o =
    Fits-if _ (Fits-if _ (Fits-⨾ (Fits-rr _ _ _ _) (Fits-rm_float _ _ _ _)) (Fits-rm_float _ _ _ _))
      Fits-skip

-- JIT_LOADF with any operands, with room, where the next entry of the table of starts holds a
-- pointer into the buffer: it meets no fault, moves on in the table, but leaves the table as it
-- was, so that its start is not noted.
jit_loadf-entry :
    (d s o : ℤ) (p : Parsing) (target : ℕ)
    → HasSpace 1 p
    → p.info1 p.info1_index ≡ some target
    → target < p.code_size
    → (q : Parsing) × (jit_loadf d s o p ≡ done q)
      × (q.info1 ≡ p.info1)
      × (q.info1_index ≡ p.info1_index + 1)
unfolding jit_loadf info_through
jit_loadf-entry d s o p target space set inside =
    let m : Parsing = record p {
      code = update p.code target (p.code p.buffer);
      info1_index = p.info1_index + 1;
      i1 = p.i1 + 2;
    } in
    let (q, e, x) =
      (Fits-loadf d s o).run m (omega (arith, space.bytes), omega (arith, space.jumps)) in
    let e0 : ltb p.info1_index p.info1_size ≡ true = ground (arith, space.starts) in
    let e1 : ltb p.buffer p.code_size ≡ true = ground (arith, space.bytes) in
    let e2 : ltb target p.code_size ≡ true = ground arith in
    (q, rw (e0, set, e1, e2) e, x.info1, x.info1_index)
