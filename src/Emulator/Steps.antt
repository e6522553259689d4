-- ===== src/Emulator/Steps.antt =====
-- `mips64_step` and `mips64_run_program` on a valid emulator.
use mips64_emulator.Base.{
  ℕ, zero, suc, ◌+◌, ◌%◌, ◌≡◌, refl, arith, true, false, Option, none, some, done, ltb, ◌==◌,
  if◌then◌else◌, Bool-cases, inl, inr,
}
use mips64_emulator.Types.{
  Status, address_out_of_range, not_implemented, step_limit_reached, StopReason,
  stop_not_implemented, reason_error, reason_not_implemented, reason_step_limit, StepInfo, RunInfo,
}
use mips64_emulator.Emulator.{Emulator}
use mips64_emulator.Emulator.Fetch.{
  step, step_info, run_loop, run_info, run_program, stop_reason_from_status,
}
use mips64_emulator.Emulator.Valid.{IsValid}
use mips64_emulator.Emulator.Word.{fetch_instruction-fetched, truth, instruction_at}

-- A caller's record is overwritten as a whole, and a null pointer left alone.
abbrev pub overwrite {ℓ} : {A : Type ℓ} → Option A → A → Option A
overwrite none new = none
overwrite (some old) new = some new

-- A valid PC is aligned, so that a step can only leave the memory or find the instruction not
-- implemented.
abbrev pub step_status : Emulator → Status
step_status em =
    if ltb em.memory_size (em.cpu.pc + 4) then address_out_of_range else not_implemented

abbrev pub step_reason : Emulator → StopReason
step_reason em = if ltb em.memory_size (em.cpu.pc + 4) then reason_error else stop_not_implemented

abbrev pub step_word : Emulator → ℕ
step_word em = if ltb em.memory_size (em.cpu.pc + 4) then 0 else truth (instruction_at em em.cpu.pc)

-- The record of a step: the PC before and after, the word and the reason.
abbrev pub step_record : Emulator → StepInfo
step_record em = record {
  pc_before = em.cpu.pc;
  pc_after = em.cpu.pc;
  instruction = step_word em;
  stop_reason = step_reason em;
}

step_info-overwrite :
    (info : Option StepInfo) (em : Emulator) (word : ℕ) (reason : StopReason)
    → step_info info em word reason
      ≡ overwrite info (record {
        pc_before = em.cpu.pc;
        pc_after = em.cpu.pc;
        instruction = word;
        stop_reason = reason;
      })
step_info-overwrite none em word reason = refl
step_info-overwrite (some old) em word reason = refl

-- A step of a valid emulator meets no fault and never succeeds: past the end of the memory it
-- ends with address_out_of_range and the reason reason_error, otherwise with not_implemented and
-- the reason stop_not_implemented. The caller's record, if there is one, holds this reason, the
-- PC as both pc_before and pc_after, and as the instruction 0 past the end and for the word 0,
-- and 1 for every other word.
pub step-step_status :
    (em : Emulator) (info : Option StepInfo)
    → IsValid em
    → step (some em) info ≡ done (step_status em, overwrite info (step_record em))
unfolding step stop_reason_from_status
step-step_status em info v =
    let aligned : (em.cpu.pc % 4 == 0) ≡ true = ground arith in
    rw (fetch_instruction-fetched em em.cpu.pc 0 v, aligned)
      (elim (Bool-cases (ltb em.memory_size (em.cpu.pc + 4))) [
        | inl past ↦ rw (past, step_info-overwrite info em 0 reason_error)
        | inr inside ↦ rw (inside, step_info-overwrite info em _ stop_not_implemented)
      ])

-- The status that a run of `n` steps ends with, and why.
abbrev pub run_status : Emulator → ℕ → Status
run_status em n = if n == 0 then step_limit_reached else step_status em

abbrev pub run_reason : Emulator → ℕ → StopReason
run_reason em n =
    if n == 0
    then reason_step_limit
    else if ltb em.memory_size (em.cpu.pc + 4)
    then reason_error
    else reason_not_implemented

-- The record of a run: no step is counted, and the PC is the one before.
abbrev pub run_record : Emulator → ℕ → RunInfo
run_record em n = record {
  steps_executed = 0;
  step_final = 0;
  final_pc = em.cpu.pc;
  stop_reason = run_reason em n;
  last_status = run_status em n;
}

run_info-overwrite :
    (info : Option RunInfo) (em : Emulator) (reason : StopReason) (status : Status)
    → run_info info em 0 reason status
      ≡ overwrite info (record {
        steps_executed = 0;
        step_final = 0;
        final_pc = em.cpu.pc;
        stop_reason = reason;
        last_status = status;
      })
run_info-overwrite none em reason status = refl
run_info-overwrite (some old) em reason status = refl

-- A run of a valid emulator with any step limit ends with no fault: at once by the limit if that
-- is 0, otherwise in its first step, with the address or the instruction as the reason. The
-- caller's record, if there is one, holds this reason and the status that is returned, 0 as
-- steps_executed and step_final, and the PC before the run as final_pc.
pub run_program-run_status :
    (em : Emulator) (max_steps : ℕ) (info : Option RunInfo)
    → IsValid em
    → run_program (some em) max_steps info
      ≡ done (run_status em max_steps, overwrite info (run_record em max_steps))
unfolding run_program run_loop stop_reason_from_status
run_program-run_status em zero info v =
    rw (run_info-overwrite info em reason_step_limit step_limit_reached) refl
run_program-run_status em (suc n) info v =
    let some_steps : (suc n == 0) ≡ false = ground arith in
    rw (some_steps, step-step_status em none v)
      (elim (Bool-cases (ltb em.memory_size (em.cpu.pc + 4))) [
        | inl past ↦ rw (past, run_info-overwrite info em reason_error address_out_of_range)
        | inr inside ↦
            rw (inside, run_info-overwrite info em reason_not_implemented not_implemented)
      ])
