-- ===== src/Decode/Tests.antt =====
-- The decoder at concrete words.
use mips64_emulator.Base.{ℕ, ◌≡◌, ◌<◌, ◌↔◌, ◌+◌, ◌*◌, ◌^◌, refl, arith, some, none, done, fault}
use mips64_emulator.Decode.{Decoded, decode_instruction, opcode_special, funct_daddu}
use mips64_emulator.Decode.Functions.{
  fn_tge, fn_dsub, fn_daddu, function_value, function_of, decode_instruction-function_of,
}
use mips64_emulator.Decode.Opcodes.{op_special, opcode_value}
use mips64_emulator.Decode.Fields.{
  r_format, i_format, j_format, r_format-decode_instruction, decode_instruction-i_format,
  decode_instruction-j_format,
}

abbrev blank : Decoded
blank = record {
  raw = 0;
  opcode = 0;
  rs = 0;
  rt = 0;
  rd = 0;
  shift_amount = 0;
  function = 0;
  immediate = 0;
  offset = 0xBEEF;
  target = 0;
}

-- daddu $3, $1, $2
decoded_daddu :
    decode_instruction 0x0022182D (some blank)
    ≡ done (record {
      raw = 0x0022182D;
      opcode = 0;
      rs = 1;
      rt = 2;
      rd = 3;
      shift_amount = 0;
      function = 0x2D;
      immediate = 0x82D;
      offset = 0xBEEF;
      target = 0x0022182D;
    })
unfolding decode_instruction
decoded_daddu = refl

no_output : decode_instruction 5 none ≡ fault
unfolding decode_instruction
no_output = refl

r_format-decode_instruction_example :
    (i : Decoded) × (decode_instruction 0x0022182D (some blank) ≡ done i)
    × (r_format i.opcode i.rs i.rt i.rd i.shift_amount i.function ≡ 0x0022182D)
    × (i.opcode < 64)
    × (i.rs < 32)
    × (i.rt < 32)
    × (i.rd < 32)
    × (i.shift_amount < 32)
    × (i.function < 64)
r_format-decode_instruction_example = r_format-decode_instruction 0x0022182D blank (omega arith)

decode_instruction-i_format_example :
    (i : Decoded) × (decode_instruction (i_format 0x19 1 2 0xFFFF) (some blank) ≡ done i)
    × (i.opcode ≡ 0x19)
    × (i.rs ≡ 1)
    × (i.rt ≡ 2)
    × ((i.immediate ≡ 0xFFFF) ↔ (0xFFFF < 2 ^ 12))
decode_instruction-i_format_example =
    decode_instruction-i_format 0x19 1 2 0xFFFF blank (omega arith) (omega arith) (omega arith)
      (omega arith)

decode_instruction-j_format_example :
    (i : Decoded) × (decode_instruction (j_format 2 0x123456) (some blank) ≡ done i)
    × (i.opcode ≡ 2)
    × (i.target ≡ 2 * 2 ^ 26 + 0x123456)
    × ((i.target ≡ 0x123456) ↔ (◌≡◌ {A = ℕ} 2 0))
decode_instruction-j_format_example =
    decode_instruction-j_format 2 0x123456 blank (omega arith) (omega arith)

-- The two constants that the interpreter dispatches on.
dispatched : (opcode_value op_special ≡ opcode_special) × (function_value fn_daddu ≡ funct_daddu)
unfolding opcode_value function_value
dispatched = (refl, refl)

-- lw $2, 4($1)
-- A trap is taken for a subtraction.
decode_instruction-function_of_example :
    (i : Decoded) × (decode_instruction (0x880 * 2 ^ 6 + function_value fn_tge) (some blank)
      ≡ done i)
    × (i.opcode ≡ 0)
    × (function_of i.function ≡ some fn_dsub)
decode_instruction-function_of_example =
    decode_instruction-function_of fn_tge 0x880 blank (omega arith)
