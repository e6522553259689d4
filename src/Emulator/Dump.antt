-- ===== src/Emulator/Dump.antt =====
-- The names, the texts of the statuses and `mips64_debug_dump` of src/mips64/core.c.
-- `snprintf` formats into a buffer of 128 bytes; it is a parameter, as two functions, for the
-- header and for a register. Each gives the whole text that the format asks for, or `none` where
-- `snprintf` returns a negative number.
use Prim.Native.String.{String}
use mips64_emulator.Base.{
  ℕ, zero, suc, ◌+◌, Bool, true, false, Option, none, some, List, [], ◌∷◌, length, get_elem?,
  Outcome, done, access, ◌>>=◌, ltb, ◌==◌, if◌then◌else◌,
}
use mips64_emulator.Types.{
  Status, ok, internal_error, invalid_argument, invalid_register, out_of_memory,
  address_out_of_range, unaligned_pc, step_limit_reached, not_implemented,
}
use mips64_emulator.Emulator.{Emulator}

abbrev pub core_name : String
core_name = "MIPS64 Emulator"

abbrev pub core_version_string : String
core_version_string = "0.1.0"

abbrev pub core_version_major : ℕ
core_version_major = 0

abbrev pub core_version_minor : ℕ
core_version_minor = 1

abbrev pub core_version_patch : ℕ
core_version_patch = 0

unfoldable pub status_string : Status → String
status_string ok = "ok"
status_string internal_error = "internal error"
status_string invalid_argument = "invalid argument"
status_string invalid_register = "invalid register"
status_string out_of_memory = "out of memory"
status_string address_out_of_range = "address out of range"
status_string unaligned_pc = "unaligned program counter"
status_string step_limit_reached = "step limit reached"
status_string not_implemented = "not implemented"
status_string _ = "invalid or incorrect status"

-- `written < 0 || written >= sizeof(line)`, and otherwise the line
abbrev pub fitting : Option (List ℕ) → Option (List ℕ)
fitting none = none
fitting (some text) = if ltb (length text) 128 then some text else none

-- The status and the texts that were handed to `write_fn`, in their order.
abbrev pub Dump : Type 0
Dump = Outcome (Status × List (List ℕ))

-- One formatted line, and what is done after it was written.
abbrev pub write_line : Option (List ℕ) → Dump → Dump
write_line none rest = done (internal_error, [])
write_line (some text) rest = rest >>= λ (s, texts). done (s, text ∷ texts)

module _ (format_header : String → String → ℕ → Option (List ℕ))
    (format_register : ℕ → ℕ → Option (List ℕ)) where
  -- `for (i = 0; i < 32; ++i)`, from `i` on
  unfoldable pub dump_registers : ℕ → ℕ → List ℕ → Dump
  dump_registers zero i gpr = done (ok, [])
  dump_registers (suc left) i gpr = do
    value ← if i == 0 then done 0 else access (get_elem? gpr i)
    write_line (fitting (format_register i value)) (dump_registers left (i + 1) gpr)

  -- The second argument says whether there is a `write_fn`.
  unfoldable pub debug_dump : Option Emulator → Bool → Dump
  debug_dump none has_writer = done (invalid_argument, [])
  debug_dump (some emulator) false = done (invalid_argument, [])
  debug_dump (some emulator) true =
      write_line (fitting (format_header core_name core_version_string emulator.cpu.pc))
        (dump_registers 32 0 emulator.cpu.gpr)
