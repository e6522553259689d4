-- ===== src/Jit/X64/Run.antt =====
-- The execution of bytes by the processor of X64.
use mips64_emulator.Base.{ℕ, zero, suc, none, some, List, [], ◌∷◌, length}
use mips64_emulator.Jit.X64.{
  Machine, Flags, unknown, Execution, running, jumped, stuck, execute_ins,
}
use mips64_emulator.Jit.X64.Read.{read_ins}

abbrev pub then_run : Execution → (Machine → Flags → Execution) → Execution
then_run (running m f) k = k m f
then_run (jumped v m) k = jumped v m
then_run stuck k = stuck

-- The bytes are executed to their end or to a jump that is taken; `stuck` for bytes that are none of
-- the instructions, or more of these than `n`.
unfoldable pub run_ins : ℕ → List ℕ → Machine → Flags → Execution
run_ins n [] m f = running m f
run_ins zero (b ∷ bs) m f = stuck
run_ins (suc n) (b ∷ bs) m f = elim (read_ins (b ∷ bs)) [
  | none ↦ stuck
  | some i ↦ then_run (execute_ins i.0 m f) (run_ins n i.1)
]

-- An instruction has a byte at least, so that as many rounds as bytes are enough.
abbrev pub run_code : List ℕ → Machine → Execution
run_code bs m = run_ins (length bs) bs m unknown
