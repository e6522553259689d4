-- ===== src/Emulator/Fetch.antt =====
-- src/mips64/core.c: fetching, stepping and running.
-- None of the three assigns to the emulator, so they return a status and the caller's record only.
use mips64_emulator.Base.{
  ℕ, zero, suc, ◌+◌, Bool, true, false, Option, none, some, List, Outcome, done, fault, access,
  ◌>>=◌, get_elem?, ◌==◌, not, if◌then◌else◌, u32, ◌<<◌,
}
use mips64_emulator.Types.{
  Status, ok, invalid_argument, unaligned_pc, address_out_of_range, not_implemented,
  step_limit_reached, Endian, is_big, StopReason, reason_none, stop_not_implemented,
  reason_not_implemented, reason_step_limit, reason_error, StepInfo, RunInfo,
}
use mips64_emulator.Emulator.{Emulator, is_instruction_aligned, memory_range_is_valid}

-- `MIPS64_INSTRUCTION_SIZE`
abbrev pub instruction_size : ℕ
instruction_size = 4

-- `a || b` of C: 1 or 0, and `b` is computed only if `a` is 0.
infixl 30 ◌or_else◌
abbrev pub ◌or_else◌ : Outcome ℕ → Outcome ℕ → Outcome ℕ
a or_else b = a >>= λ x. if x == 0 then (b >>= λ y. done (if y == 0 then 0 else 1)) else done 1

-- `bytes[k]`, shifted as a `uint32_t`
abbrev pub shifted : List ℕ → ℕ → ℕ → Outcome ℕ
shifted bytes k s = access (get_elem? bytes k) >>= λ b. done (u32 (b << s))

-- The four bytes at `start` of `bytes` are joined by `||`, as the source writes it.
unfoldable pub read_u32_from_bytes : List ℕ → ℕ → Endian → Outcome ℕ
read_u32_from_bytes bytes start endian =
    if is_big endian
    then shifted bytes start 24
      or_else shifted bytes (start + 1) 16
      or_else shifted bytes (start + 2) 8
      or_else shifted bytes (start + 3) 0
    else shifted bytes start 0
      or_else shifted bytes (start + 1) 8
      or_else shifted bytes (start + 2) 16
      or_else shifted bytes (start + 3) 24

-- The bytes behind the pointer `memory`.
abbrev pub follow : Option (List ℕ) → Outcome (List ℕ)
follow none = fault
follow (some bytes) = done bytes

unfoldable pub fetch_instruction : Option Emulator → ℕ → Option ℕ → Outcome (Status × Option ℕ)
fetch_instruction none pc out = done (invalid_argument, out)
fetch_instruction (some emulator) pc none = done (invalid_argument, none)
fetch_instruction (some emulator) pc (some old) =
    if not (is_instruction_aligned pc)
    then done (unaligned_pc, some old)
    else if not (memory_range_is_valid (some emulator) pc instruction_size)
    then done (address_out_of_range, some old)
    else (follow emulator.memory >>= λ bytes.
        read_u32_from_bytes bytes pc emulator.config.endian >>= λ word. done (ok, some word))

unfoldable pub stop_reason_from_status : Status → StopReason
stop_reason_from_status ok = reason_none
stop_reason_from_status not_implemented = reason_not_implemented
stop_reason_from_status step_limit_reached = reason_step_limit
stop_reason_from_status _ = reason_error

abbrev pub is_ok : Status → Bool
is_ok ok = true
is_ok _ = false

-- What the record of a step holds; `none` is a null `out_info`, which is left alone.
abbrev pub step_info : Option StepInfo → Emulator → ℕ → StopReason → Option StepInfo
step_info none emulator word reason = none
step_info (some old) emulator word reason = some (record {
  pc_before = emulator.cpu.pc;
  pc_after = emulator.cpu.pc;
  instruction = word;
  stop_reason = reason;
})

-- The local variable `instruction` is passed by its address, so that the pointer is never null.
abbrev pub local_value : Option ℕ → Outcome ℕ
local_value none = fault
local_value (some word) = done word

unfoldable pub step : Option Emulator → Option StepInfo → Outcome (Status × Option StepInfo)
step none info = done (invalid_argument, info)
step (some emulator) info = do
  (status, out) ← fetch_instruction (some emulator) emulator.cpu.pc (some 0)
  word ← local_value out
  if not (is_ok status)
      then done (status, step_info info emulator word (stop_reason_from_status status))
      else done (not_implemented, step_info info emulator word stop_not_implemented)

-- What the record of a run holds; `step_final` stays 0.
abbrev pub run_info : Option RunInfo → Emulator → ℕ → StopReason → Status → Option RunInfo
run_info none emulator steps reason status = none
run_info (some old) emulator steps reason status = some (record {
  steps_executed = steps;
  step_final = 0;
  final_pc = emulator.cpu.pc;
  stop_reason = reason;
  last_status = status;
})

-- `for (i = 0; i < max_steps; ++i)`: the status that ends the loop early, if one does.
unfoldable pub run_loop : Emulator → ℕ → Outcome (Option Status)
run_loop emulator zero = done none
run_loop emulator (suc left) = do
  (status, unused) ← step (some emulator) none
  elim (is_ok status) [ false ↦ done (some status) | true ↦ run_loop emulator left ]

-- `step_index` is 0 from its declaration on: nothing counts it up.
unfoldable pub run_program :
    Option Emulator → ℕ → Option RunInfo → Outcome (Status × Option RunInfo)
run_program none max_steps info = done (invalid_argument, info)
run_program (some emulator) max_steps info = do
  ended ← run_loop emulator max_steps
  elim ended [
    | some status ↦ done (status, run_info info emulator 0 (stop_reason_from_status status) status)
    | none ↦
        done (
          step_limit_reached,
          run_info info emulator max_steps reason_step_limit step_limit_reached,
        )
  ]
