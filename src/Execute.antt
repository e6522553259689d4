-- ===== src/Execute.antt =====
-- The interpreter: src/mips64/execute.c.
-- `cpu` and `instruction` are pointers; an index outside `gpr` and a null pointer that is followed
-- are a `fault`. `MIPS64_OPCODE_DADDIU` is declared nowhere in the repository, so the opcode is a
-- parameter of what names it.
pub mod Arith
pub mod Safe
pub mod Cycles
mod Tests
use mips64_emulator.Base.{
  ℕ, ◌+◌, ◌-◌, ◌^◌, ◌%◌, Option, none, some, Outcome, done, fault, access, ◌>>=◌, get_elem?, ◌==◌,
  ◌||◌, if◌then◌else◌, u16, u32, u64,
}
use mips64_emulator.Base.Int.{ℤ, pos, negsuc, ◌+ℤ◌, ltb_ℤ, signed16, signed32, ℤ_to_i32, ℤ_to_u64}
use mips64_emulator.Types.{Status, ok, invalid_argument, not_implemented, integer_overflow}
use mips64_emulator.Cpu.{Cpu, write_gpr}
use mips64_emulator.Decode.{Decoded, opcode_special, funct_daddu}

abbrev pub Result : Type 0
Result = Outcome (Status × Option Cpu)

-- `(uint64_t)(int64_t)(int16_t)value`
unfoldable pub sign_extension : ℕ → ℕ
sign_extension value = ℤ_to_u64 (signed16 value)

-- `cpu->pc += 4; return MIPS64_STATUS_OK;`
abbrev pub advance : Cpu → Result
advance cpu = done (ok, some (record cpu { pc = u64 (cpu.pc + 4) }))

unfoldable pub execute_nop : Option Cpu → Option Decoded → Result
execute_nop none i = done (invalid_argument, none)
execute_nop (some cpu) none = done (invalid_argument, some cpu)
execute_nop (some cpu) (some i) = advance cpu

unfoldable pub execute_daddiu : Option Cpu → Option Decoded → Result
execute_daddiu none i = done (invalid_argument, none)
execute_daddiu (some cpu) none = done (invalid_argument, some cpu)
execute_daddiu (some cpu) (some i) = do
  source ← access (get_elem? cpu.gpr i.rs)
  let immediate = sign_extension i.immediate
  let result = u64 (source + immediate)
  c ← write_gpr cpu i.rt result
  advance c

unfoldable pub execute_addu : Option Cpu → Option Decoded → Result
execute_addu none i = done (invalid_argument, none)
execute_addu (some cpu) none = done (invalid_argument, some cpu)
execute_addu (some cpu) (some i) = do
  a ← access (get_elem? cpu.gpr i.rs)
  b ← access (get_elem? cpu.gpr i.rt)
  let temp = signed32 (u32 a) +ℤ signed32 (u32 b)
  c ← write_gpr cpu i.rd (ℤ_to_u64 (ℤ_to_i32 temp))
  advance c

-- `INT32_MAX` and `INT32_MIN`
abbrev pub int32_max : ℤ
int32_max = pos (2 ^ 31 - 1)

abbrev pub int32_min : ℤ
int32_min = negsuc (2 ^ 31 - 1)

unfoldable pub execute_add : Option Cpu → Option Decoded → Result
execute_add none i = done (invalid_argument, none)
execute_add (some cpu) none = done (invalid_argument, some cpu)
execute_add (some cpu) (some i) = do
  a ← access (get_elem? cpu.gpr i.rs)
  b ← access (get_elem? cpu.gpr i.rt)
  let temp = signed32 (u32 a) +ℤ signed32 (u32 b)
  let written = write_gpr cpu i.rd (ℤ_to_u64 (ℤ_to_i32 temp)) >>= advance
  if ltb_ℤ int32_max temp || ltb_ℤ temp int32_min
      then done (integer_overflow, some cpu)
      else written

-- No null test here: `instruction` and `cpu` are followed at once.
unfoldable pub execute_daddu : Option Cpu → Option Decoded → Result
execute_daddu none i = fault
execute_daddu (some cpu) none = fault
execute_daddu (some cpu) (some i) = do
  a ← access (get_elem? cpu.gpr i.rs)
  b ← access (get_elem? cpu.gpr i.rt)
  let result = u64 (a + b)
  c ← write_gpr cpu i.rd result
  advance c

-- The diagnostic that is printed on the default branch is left out.
unfoldable pub execute_special : Option Cpu → Option Decoded → Result
execute_special none i = done (invalid_argument, none)
execute_special (some cpu) none = fault
execute_special (some cpu) (some i) =
    if i.function == funct_daddu
    then execute_daddu (some cpu) (some i)
    else done (not_implemented, some cpu)

module _ (opcode_daddiu : ℕ) where
  unfoldable pub execute : Option Cpu → Option Decoded → Result
  execute none i = done (invalid_argument, none)
  execute (some cpu) none = done (invalid_argument, some cpu)
  execute (some cpu) (some i) =
      if i.raw == 0
      then execute_nop (some cpu) (some i)
      else if i.opcode == opcode_special
      then execute_special (some cpu) (some i)
      else if i.opcode == opcode_daddiu
      then execute_daddiu (some cpu) (some i)
      else done (not_implemented, some cpu)
