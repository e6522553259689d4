-- ===== src/Emulator/Tests.antt =====
-- The emulator object at concrete inputs.
use mips64_emulator.Base.{
  length, if◌then◌else◌, ◌==◌, ℕ, Option, ◌≡◌, ◌⊎◌, refl, arith, true, some, none, done, List, [],
  ◌∷◌, inr,
}
use mips64_emulator.Types.{
  ok, unaligned_pc, not_implemented, address_out_of_range, internal_error, integer_overflow,
  stop_not_implemented, reason_not_implemented, big, Config, ProgramImage, StepInfo, RunInfo,
}
use mips64_emulator.Emulator.{
  Emulator, create, destroy, block, object, is_instruction_aligned, memory_range_is_valid,
}
use mips64_emulator.Emulator.Access.{write_memory, load_program, memcpy}
use mips64_emulator.Emulator.Fetch.{fetch_instruction, read_u32_from_bytes, step, run_program}
use mips64_emulator.Emulator.Reset.{machine_reset, cpu_reset_words, numbers_to_slots}
use mips64_emulator.Emulator.Valid.{byte_at, IsValid}
use mips64_emulator.Emulator.Create.{Accepts, Refuses, created, created-IsValid, create-IsValid}
use mips64_emulator.Emulator.Write.{IsWritten, write_memory-IsWritten}
use mips64_emulator.Emulator.Load.{IsLoaded, load_program-IsLoaded}
use mips64_emulator.Emulator.Word.{fetched, fetch_status, fetch_instruction-fetched}
use mips64_emulator.Emulator.Dump.{status_string, debug_dump}
use mips64_emulator.Emulator.DumpLines.{written_lines, debug_dump-dump_lines}
use mips64_emulator.Emulator.Session.{
  Call, set_pc_to, write_at, step_once, run_for, session, session-IsValid,
}
use mips64_emulator.Emulator.Lifecycle.{loaded_byte, create-load_program-destroy}
use mips64_emulator.Emulator.Steps.{
  run_status, run_record, step-step_status, run_program-run_status,
}
use mips64_emulator.Emulator.AfterReset.{wrecked, machine_reset-no_memory}

-- Sixteen bytes of guest memory, big endian.
abbrev small : Config
small = record { memory_size = 16; reset_pc = 4; endian = big; clear_memory_on_reset = 1 }

abbrev machine : Emulator
machine = created small

machine-IsValid : IsValid machine
machine-IsValid =
    created-IsValid small (omega arith, omega arith)
      (omega arith, inr refl, refl, omega arith, refl, refl)

-- daddu $3, $1, $2 at address 4
abbrev code : List ℕ
code = 0x00 ∷ 0x22 ∷ 0x18 ∷ 0x2D ∷ []

abbrev holding : Emulator
holding = record machine {
  memory = some (0 ∷ 0 ∷ 0 ∷ 0 ∷ 0x00 ∷ 0x22 ∷ 0x18 ∷ 0x2D ∷ 0 ∷ 0 ∷ 0 ∷ 0 ∷ 0 ∷ 0 ∷ 0 ∷ 0 ∷ []);
}

written_code : write_memory (some machine) 4 (some code) 4 ≡ done (ok, some holding)
unfolding write_memory memory_range_is_valid memcpy
written_code = refl

-- The word at 4 is 0x0022182D, and what is fetched is 1.
fetched_one : fetch_instruction (some holding) 4 (some 0) ≡ done (ok, some 1)
unfolding fetch_instruction read_u32_from_bytes is_instruction_aligned memory_range_is_valid
fetched_one = refl

reset_of_small : machine_reset (some holding) ok ≡ done (ok, some (wrecked holding))
unfolding machine_reset cpu_reset_words numbers_to_slots
reset_of_small = refl

create-IsValid_example :
    (Accepts true true small
      × (create true true (some small) (some none) ≡ (ok, some (some machine)))
      × IsValid machine)
    ⊎ ((¬ Accepts true true small) × Refuses (create true true (some small) (some none)))
create-IsValid_example = create-IsValid true true small none (omega arith, omega arith)

write_memory-IsWritten_example :
    IsWritten machine 4 (some code) 4 (write_memory (some machine) 4 (some code) 4)
write_memory-IsWritten_example =
    write_memory-IsWritten machine 4 (some code) 4 machine-IsValid (omega arith)

-- The image is written, and its entry point refused.
abbrev image : ProgramImage
image = record {
  bytes = some code;
  size = 4;
  load_address = 4;
  entry_point = 6;
  set_pc_to_entry = 1;
}

load_program-IsLoaded_example : IsLoaded machine image (load_program (some machine) (some image))
load_program-IsLoaded_example =
    load_program-IsLoaded machine image machine-IsValid (omega arith) (omega arith)

holding-IsValid : IsValid holding
holding-IsValid = record {
  block = omega arith;
  not_empty = omega arith;
  size_word = omega arith;
  configured_size = refl;
  named_endian = inr refl;
  reset_aligned = refl;
  reset_inside = omega arith;
  processor = machine-IsValid.processor;
  pc_aligned = refl;
}

fetch_instruction-fetched_example :
    fetch_instruction (some holding) 4 (some 0)
    ≡ done (fetch_status holding 4, some (fetched holding 4 0))
fetch_instruction-fetched_example = fetch_instruction-fetched holding 4 0 holding-IsValid

abbrev no_info : StepInfo
no_info = record {
  pc_before = 9;
  pc_after = 9;
  instruction = 9;
  stop_reason = stop_not_implemented;
}

step-step_status_example :
    step (some holding) (some no_info)
    ≡ done (
      not_implemented,
      some (record {
        pc_before = 4;
        pc_after = 4;
        instruction = 1;
        stop_reason = stop_not_implemented;
      }),
    )
step-step_status_example = step-step_status holding (some no_info) holding-IsValid

abbrev no_run : RunInfo
no_run = record {
  steps_executed = 9;
  step_final = 9;
  final_pc = 9;
  stop_reason = stop_not_implemented;
  last_status = ok;
}

run_program-run_status_example :
    run_program (some holding) 100 (some no_run)
    ≡ done (
      not_implemented,
      some (record {
        steps_executed = 0;
        step_final = 0;
        final_pc = 4;
        stop_reason = reason_not_implemented;
        last_status = not_implemented;
      }),
    )
run_program-run_status_example = run_program-run_status holding 100 (some no_run) holding-IsValid

machine_reset-no_memory_example :
    (out : Emulator) × (machine_reset (some holding) ok ≡ done (ok, some out))
    × (step (some out) none ≡ done (address_out_of_range, none))
    × (write_memory (some out) 4 (some code) 4 ≡ done (address_out_of_range, some out))
    × (destroy (some out) ≡ block none ∷ object ∷ [])
    × (¬ IsValid out)
machine_reset-no_memory_example = machine_reset-no_memory holding ok 4 3 code holding-IsValid

-- A write past the end is refused, and the step and the run fail; all leave a valid emulator.
abbrev calls : List Call
calls =
    write_at 4 (some code) 4
    ∷ write_at 14 (some code) 4
    ∷ set_pc_to 6
    ∷ step_once none
    ∷ run_for 9 none
    ∷ []

session-IsValid_example :
    (em : Emulator) × (session calls (some machine) ≡ done (some em)) × IsValid em
session-IsValid_example = session-IsValid calls machine (omega arith) machine-IsValid

-- The status that `status_string` has no case for.
overflow_text : status_string integer_overflow ≡ "invalid or incorrect status"
unfolding status_string
overflow_text = refl

-- A formatter that fails at register 2.
abbrev failing : ℕ → ℕ → Option (List ℕ)
failing i value = if i == 2 then none else some (i ∷ value ∷ [])

debug_dump-dump_lines_example :
    debug_dump (λ name version pc. some (pc ∷ [])) failing (some machine) true
    ≡ done (internal_error, (4 ∷ []) ∷ (0 ∷ 0 ∷ []) ∷ (1 ∷ 0 ∷ []) ∷ [])
unfolding written_lines
debug_dump-dump_lines_example =
    debug_dump-dump_lines (λ name version pc. some (pc ∷ [])) failing machine machine-IsValid

create-load_program-destroy_example :
    (em : Emulator) × (bs : List ℕ) × (create true true (some small) (some none)
      ≡ (ok, some (some machine)))
    × (load_program (some machine) (some image) ≡ done (unaligned_pc, some em))
    × ((j : ℕ) → byte_at em j ≡ loaded_byte small image j)
    × (em.cpu.pc ≡ 4)
    × (run_program (some em) 3 (some no_run) ≡ done (run_status em 3, some (run_record em 3)))
    × (destroy (some em) ≡ block (some bs) ∷ object ∷ [])
    × (length bs ≡ em.memory_size)
create-load_program-destroy_example =
    create-load_program-destroy small image 3 (some no_run) (omega arith, omega arith)
      (omega arith, inr refl, refl, omega arith, refl, refl) (omega arith) (omega arith)
