-- ===== src/Types.antt =====
-- The types that the parts share: include/mips64/core.h.
use mips64_emulator.Base.{ℕ, Bool, true, false, Option, List}

-- `Mips64Status`
pub data Status : Type 0 where
  ok : Status
  invalid_argument : Status
  out_of_memory : Status
  address_out_of_range : Status
  invalid_register : Status
  unaligned_pc : Status
  step_limit_reached : Status
  not_implemented : Status
  internal_error : Status
  integer_overflow : Status

-- `Mips64Endian`. An object of the type can hold any other value of its integer type too.
pub data Endian : Type 0 where
  little : Endian
  big : Endian
  unnamed : ℕ → Endian

-- `endian == MIPS64_ENDIAN_LITTLE` and `endian == MIPS64_ENDIAN_BIG`
abbrev pub is_little : Endian → Bool
is_little little = true
is_little big = false
is_little (unnamed n) = false

abbrev pub is_big : Endian → Bool
is_big little = false
is_big big = true
is_big (unnamed n) = false

-- `Mips64StopReason`; it has two constants for what is not implemented.
pub data StopReason : Type 0 where
  reason_none : StopReason
  stop_not_implemented : StopReason
  reason_not_implemented : StopReason
  reason_step_limit : StopReason
  reason_overflow : StopReason
  reason_error : StopReason

-- `Mips64Config`; of `clear_memory_on_reset` the code asks whether it is 0.
pub record Config : Type 0 where
  pub memory_size : ℕ
  pub reset_pc : ℕ
  pub endian : Endian
  pub clear_memory_on_reset : ℕ

-- `Mips64ProgramImage`; `data` is the object that the pointer leads to, if it is not null.
pub record ProgramImage : Type 0 where
  pub bytes : Option (List ℕ)
  pub size : ℕ
  pub load_address : ℕ
  pub entry_point : ℕ
  pub set_pc_to_entry : ℕ

-- `Mips64StepInfo`
pub record StepInfo : Type 0 where
  pub pc_before : ℕ
  pub pc_after : ℕ
  pub instruction : ℕ
  pub stop_reason : StopReason

-- `Mips64RunInfo`
pub record RunInfo : Type 0 where
  pub steps_executed : ℕ
  pub step_final : ℕ
  pub final_pc : ℕ
  pub stop_reason : StopReason
  pub last_status : Status
