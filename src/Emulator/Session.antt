-- ===== src/Emulator/Session.antt =====
-- Sequences of calls of the API in src/mips64/core.c on one emulator.
use mips64_emulator.Base.{
  ℕ, ◌%◌, ◌^◌, ◌<◌, ◌≡◌, refl, arith, Option, some, List, [], ◌∷◌, All, Outcome, done, ◌>>=◌,
  Bool-cases, inl, inr, ◌==◌,
}
use mips64_emulator.Types.{ProgramImage, StepInfo, RunInfo}
use mips64_emulator.Emulator.{Emulator}
use mips64_emulator.Emulator.Access.{set_pc, set_gpr, write_memory, load_program}
use mips64_emulator.Emulator.Fetch.{step, run_program}
use mips64_emulator.Emulator.Valid.{IsValid, set_pc-eq, with_pc-IsValid}
use mips64_emulator.Emulator.Write.{HoldsObject, write_memory-IsWritten}
use mips64_emulator.Emulator.Load.{load_program-IsLoaded}
use mips64_emulator.Emulator.Steps.{step-step_status, run_program-run_status}

-- Every call that changes the emulator or runs it, but `mips64_machine_reset`.
pub data Call : Type 0 where
  set_pc_to : ℕ → Call
  set_register : ℕ → ℕ → Call
  write_at : ℕ → Option (List ℕ) → ℕ → Call
  load_image : ProgramImage → Call
  step_once : Option StepInfo → Call
  run_for : ℕ → Option RunInfo → Call

abbrev pub perform : Call → Option Emulator → Outcome (Option Emulator)
perform (set_pc_to pc) em = done (set_pc em pc).1
perform (set_register index value) em = done (set_gpr em index value).1
perform (write_at address bytes size) em = write_memory em address bytes size >>= λ r. done r.1
perform (load_image image) em = load_program em (some image) >>= λ r. done r.1
perform (step_once info) em = step em info >>= λ r. done em
perform (run_for n info) em = run_program em n info >>= λ r. done em

-- A PC is a 64-bit word, and a data pointer leads to as many bytes as the caller says.
abbrev pub FitsTypes : Call → Type 0
FitsTypes (set_pc_to pc) = pc < 2 ^ 64
FitsTypes (write_at address bytes size) = HoldsObject bytes size
FitsTypes (load_image image) = HoldsObject image.bytes image.size × (image.entry_point < 2 ^ 64)
FitsTypes _ = Unit

-- The calls one after another, whatever status each returns.
pub session : List Call → Option Emulator → Outcome (Option Emulator)
session [] em = done em
session (call ∷ calls) em = perform call em >>= λ em'. session calls em'

perform-IsValid :
    (call : Call) (em : Emulator)
    → FitsTypes call
    → IsValid em
    → (em' : Emulator) × (perform call (some em) ≡ done (some em')) × IsValid em'
unfolding set_gpr
perform-IsValid (set_pc_to pc) em w v = rw (set_pc-eq em pc) (elim (Bool-cases (pc % 4 == 0)) [
  | inl aligned ↦ (
    record em { cpu = record em.cpu { pc = pc } },
    rw aligned,
    with_pc-IsValid em pc v w (ground arith),
  )
  | inr off ↦ (em, rw off, v)
])
perform-IsValid (set_register index value) em w v = (em, refl, v)
perform-IsValid (write_at address bytes size) em w v =
    let r = write_memory-IsWritten em address bytes size v w in (r.out, rw r.returns, r.valid)
perform-IsValid (load_image image) em w v =
    let r = load_program-IsLoaded em image v w.0 w.1 in (r.out, rw r.returns, r.valid)
perform-IsValid (step_once info) em w v = (em, rw (step-step_status em info v), v)
perform-IsValid (run_for n info) em w v = (em, rw (run_program-run_status em n info v), v)

-- From a valid emulator every sequence of API calls that set the PC or a register, write memory,
-- load a program, step or run, with 64-bit PCs and data pointers that are null or lead to the
-- given number of bytes, and with accepted and refused calls in any order, runs with no fault
-- and ends in a valid emulator. A machine reset is not among the calls.
pub session-IsValid :
    (calls : List Call) (em : Emulator)
    → All FitsTypes calls
    → IsValid em
    → (em' : Emulator) × (session calls (some em) ≡ done (some em')) × IsValid em'
unfolding session
session-IsValid [] em w v = (em, refl, v)
session-IsValid (call ∷ calls) em w v =
    let (em', e, v') = perform-IsValid call em w.0 v in
    let (em'', e', v'') = session-IsValid calls em' w.1 v' in (em'', rw e e', v'')
