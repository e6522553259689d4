-- ===== src/Jit/Tests.antt =====
-- The x64 code generator at concrete inputs.
use mathlib.Core.List.{map}
use mips64_emulator.Base.{
  true, false, ℕ, ◌+◌, ◌-◌, ◌<◌, ◌≡◌, refl, arith, none, some, Outcome, done, fault, ◌>>=◌, List,
  [], ◌∷◌, ◌++◌, All, ltb, if◌then◌else◌,
}
use mips64_emulator.Base.Int.{pos, negsuc}
use mips64_emulator.Memory.{update}
use mips64_emulator.Memory.Spec.{run_at}
use mips64_emulator.Jit.{Parsing, put, encode_rex, encode_modrm, encode, info, info_through}
use mips64_emulator.Jit.Forms.{rr}
use mips64_emulator.Jit.Instructions.{r0}
use mips64_emulator.Jit.Integer.{jit_add, jit_addi, jit_sub}
use mips64_emulator.Jit.Float.{jit_loadf}
use mips64_emulator.Jit.Ops.{
  Op, op_add, op_load32, op_branch, op_mulf, op_return, op_div, perform, perform_all,
}
use mips64_emulator.Jit.Program.{Adds, HasSpace, perform_all-Adds, perform_all-start}
use mips64_emulator.Jit.X64.{sub, mul, alu, Machine, Flags, running, left, four, eight, unknown}
use mips64_emulator.Jit.X64.Run.{run_code}
use mips64_emulator.Jit.Registers.{unix, jit_r1, jit_r2, jit_r3, jit_r7}
use mips64_emulator.Jit.Registers.Calls.{
  Call, number_into, arithmetic, shift_into, load_into, IsCall, steps_of, Keeps, perform_all-Keeps,
}
use mips64_emulator.Jit.Runs.{code_between}
use mips64_emulator.Jit.Runs.Branch.{op_of_branch, branched, perform-branch}
use mips64_emulator.Jit.Runs.Division.{quotient, perform-div}
use mips64_emulator.Jit.Runs.Store.{op_of_store, exchanged, perform-store}
use mips64_emulator.Jit.Arithmetic.{
  Step, compute, constant, shift_by, is_less, fetch, IsStep, IsMachine, on, op_of, op_of_step,
  meaning, meaning_all,
}
use mips64_emulator.Jit.Arithmetic.Program.{perform_all-computes}
use mips64_emulator.Jit.Arithmetic.Overlap.{perform-overlap}

abbrev empty : Parsing
empty = record {
  code = λ k. 0;
  code_size = 200;
  buffer = 0;
  info1 = λ k. none;
  info1_size = 9;
  info1_index = 0;
  info2 = λ k. 0;
  info2_size = 9;
  info2_index = 0;
  i1 = 0;
}

empty_space : (n : ℕ) → n < 10 → HasSpace n empty
empty_space n h = record { bytes = omega arith; starts = omega arith; jumps = omega arith }

bytes_of_run : ℕ → Outcome Parsing → Outcome (List ℕ)
bytes_of_run n r = r >>= λ q. done (run_at q.code 0 n)

-- MOV R8, R9 and ADD R8, R10
added_bytes :
    bytes_of_run 6 (jit_add (pos 8) (pos 9) (pos 10) empty)
    ≡ done (0x4D ∷ 0x89 ∷ 0xC8 ∷ 0x4D ∷ 0x01 ∷ 0xD0 ∷ [])
unfolding bytes_of_run jit_add info rr encode encode_rex encode_modrm put
added_bytes = refl

-- Two registers and an immediate: no instruction.
addi_lays_nothing : jit_addi (pos 8) (pos 9) (pos 5) empty ≡ info empty
unfolding jit_addi info
addi_lays_nothing = refl

-- 0 - R9 is the value of R9.
sub_from_zero : bytes_of_run 3 (jit_sub (pos 8) r0 (pos 9) empty) ≡ done (0x4D ∷ 0x89 ∷ 0xC8 ∷ [])
unfolding bytes_of_run jit_sub info rr encode encode_rex encode_modrm put
sub_from_zero = refl

float_load_faults : jit_loadf (pos 1) (pos 2) (pos 0) empty ≡ fault
unfolding jit_loadf info_through
float_load_faults = refl

abbrev program : List Op
program =
    op_load32 (pos 8) (pos 9) (pos 16)
    ∷ op_branch (pos 8) (pos 9) (pos 3)
    ∷ op_mulf (pos 1) (pos 2) (pos 3)
    ∷ op_return
    ∷ []

perform_all-Adds_example : (q : Parsing) × (perform_all program empty ≡ done q) × Adds 4 empty q
perform_all-Adds_example =
    perform_all-Adds program empty (refl, (refl, (refl, (refl, tt)))) (empty_space 4 (omega arith))

perform_all-start_example :
    (m q : Parsing) × (perform_all (op_add (pos 8) (pos 9) (pos 10) ∷ []) empty ≡ done m)
    × (perform_all (op_add (pos 8) (pos 9) (pos 10) ∷ [] ++ program) empty ≡ done q)
    × (q.info1 1 ≡ some m.buffer)
perform_all-start_example =
    perform_all-start (op_add (pos 8) (pos 9) (pos 10) ∷ []) (op_load32 (pos 8) (pos 9) (pos 16))
      (op_branch (pos 8) (pos 9) (pos 3) ∷ op_mulf (pos 1) (pos 2) (pos 3) ∷ op_return ∷ []) empty
      (refl, (refl, (refl, (refl, (refl, tt))))) (empty_space 5 (omega arith))

-- Register n holds n + 100, and the memory holds 7 in every byte.
abbrev numbered : Machine
numbered = record { registers = λ n. if ltb n 16 then n + 100 else 0; memory = λ a. 7 }

numbered-IsMachine : IsMachine numbered
numbered-IsMachine = record { words = λ n. ground arith; bytes = λ a. omega arith }

-- R10 = -5; R8 = R9 - R10; R9 = R8 * R11; R12 = 3; R9 <<= R12; R13 = R10 < R8; R14 = 4 bytes at R8 - 4
abbrev formula : List Step
formula =
    constant 10 (negsuc 4)
    ∷ compute (record { operation = sub; to = pos 8; left = pos 9; right = pos 10 })
    ∷ compute (record { operation = mul; to = pos 9; left = pos 8; right = pos 11 })
    ∷ constant 12 (pos 3)
    ∷ shift_by left 9 9 12
    ∷ is_less 13 10 (pos 8)
    ∷ fetch four 14 8 (negsuc 3)
    ∷ []

formula-IsStep : All IsStep formula
formula-IsStep = (
  (omega arith, omega arith),
  (
    record { to = omega arith; left = omega arith; right = omega arith; sound = refl },
    (
      record { to = omega arith; left = omega arith; right = omega arith; sound = refl },
      (
        (omega arith, omega arith),
        (
          record {
            to = omega arith;
            left = omega arith;
            right = omega arith;
            to_not_count = omega arith;
            to_not_stack = omega arith;
            right_not_stack = omega arith;
            clear = refl;
          },
          (
            (omega arith, omega arith, omega arith),
            (
              record {
                to = omega arith;
                from = omega arith;
                plain = omega arith;
                offset = omega arith;
              },
              tt,
            ),
          ),
        ),
      ),
    ),
  ),
)

-- (109 + 5) * 111 * 8, -5 < 114, and 0x07070707
formula_computes :
    ((meaning_all formula numbered).registers 9 ≡ 101232)
    × ((meaning_all formula numbered).registers 13 ≡ 1)
    × ((meaning_all formula numbered).registers 14 ≡ 0x07070707)
unfolding meaning_all meaning alu
formula_computes = (refl, refl, refl)

perform_all-computes_example :
    (q : Parsing) × (fl : Flags) × (perform_all (map op_of_step formula) empty ≡ done q)
    × (run_code (run_at q.code 0 (q.buffer - 0)) numbered
        ≡ running (meaning_all formula numbered) fl)
perform_all-computes_example =
    perform_all-computes formula empty numbered formula-IsStep (empty_space 7 (omega arith))
      numbered-IsMachine

perform-overlap_example :
    (q : Parsing) × (fl : Flags) × (perform (op_of sub (pos 8) (pos 9) (pos 8)) empty ≡ done q)
    × (run_code (run_at q.code 0 (q.buffer - 0)) numbered
        ≡ running (on (λ r. update r 8 (alu sub (r 9) (r 9))) numbered) fl)
perform-overlap_example =
    perform-overlap sub 8 9 empty numbered (omega arith) (omega arith) (omega arith)
      (empty_space 1 (omega arith)) numbered-IsMachine

-- R9 holds 1000 and R10 holds 7.
abbrev divisible : Machine
divisible = on (λ r. update (update r 9 1000) 10 7) numbered

divisible-IsMachine : IsMachine divisible
divisible-IsMachine = record { words = λ n. ground arith; bytes = λ a. omega arith }

-- JIT_BRANCH of R9 and R10, which hold 109 and 110: the bytes are executed to their end.
perform-branch_example :
    (q : Parsing) × (fl : Flags) × (perform (op_of_branch true (pos 9) (pos 10) (pos 64)) empty
      ≡ done q)
    × (run_code (code_between empty q) numbered
        ≡ branched true false (pos 64) (on (λ r. update r 0 0) numbered) fl)
perform-branch_example =
    perform-branch true (pos 9) (pos 10) (pos 64) empty numbered (omega arith) (omega arith) refl
      (empty_space 1 (omega arith))

-- 1000 / 7 into R8
perform-div_example :
    (q : Parsing) × (perform (op_div (pos 8) (pos 9) (pos 10)) empty ≡ done q)
    × (run_code (code_between empty q) divisible ≡ running (quotient 8 9 10 divisible) unknown)
perform-div_example =
    perform-div 8 9 10 empty divisible
      (record {
        to = omega arith;
        left = omega arith;
        right = omega arith;
        to_not_stack = omega arith;
        to_not_rest = omega arith;
        left_not_stack = omega arith;
        right_not_stack = omega arith;
        right_not_quotient = omega arith;
        right_not_rest = omega arith;
        dividend = omega arith;
        divisor = omega arith;
        not_zero = omega arith;
      })
      (empty_space 1 (omega arith)) divisible-IsMachine

-- The word in R9 at an offset of 2 from R8: RDX is stored, 9 bytes from R8.
perform-store_example :
    (q : Parsing) × (perform (op_of_store eight (pos 8) (pos 2) (pos 9)) empty ≡ done q)
    × (run_code (code_between empty q) numbered ≡ running (exchanged eight 8 2 9 numbered) unknown)
perform-store_example =
    perform-store eight 8 2 9 empty numbered (omega arith) (omega arith) (omega arith) refl
      (empty_space 1 (omega arith))

-- R1 = 5; R2 = R1 - R3; R3 <<= R1; R7 = 8 bytes at R1 + 16
abbrev calls : List Call
calls =
    number_into jit_r1 (pos 5)
    ∷ arithmetic sub jit_r2 jit_r1 jit_r3
    ∷ shift_into left jit_r3 jit_r3 jit_r1
    ∷ load_into eight jit_r7 jit_r1 (pos 16)
    ∷ []

calls-IsCall : All IsCall calls
calls-IsCall = (
  (refl, omega arith),
  (
    (refl, refl, refl, λ e. cc, λ e. cc),
    ((refl, refl, refl, λ e. cc), ((refl, refl, λ e. cc, omega arith), tt)),
  ),
)

perform_all-Keeps_example :
    (q : Parsing) × (fl : Flags) × (perform_all (map op_of_step (steps_of unix calls)) empty
      ≡ done q)
    × (run_code (run_at q.code 0 (q.buffer - 0)) numbered
        ≡ running (meaning_all (steps_of unix calls) numbered) fl)
    × Keeps unix calls numbered (meaning_all (steps_of unix calls) numbered)
perform_all-Keeps_example =
    perform_all-Keeps unix calls empty numbered calls-IsCall (empty_space 4 (omega arith))
      numbered-IsMachine
