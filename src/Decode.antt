-- ===== src/Decode.antt =====
-- Instruction words and their fields: include/mips64/decode.h and src/mips64/decode.c.
pub mod Fields
pub mod Opcodes
pub mod Functions
mod Tests
use mips64_emulator.Base.{ℕ, Option, none, some, Outcome, done, fault, bit_and, u8, u16, u32, ◌>>◌}

-- `Mips64Decoded`
pub record Decoded : Type 0 where
  pub raw : ℕ
  pub opcode : ℕ
  pub rs : ℕ
  pub rt : ℕ
  pub rd : ℕ
  pub shift_amount : ℕ
  pub function : ℕ
  pub immediate : ℕ
  pub offset : ℕ
  pub target : ℕ

-- `MIPS64_OPCODE_SPECIAL` and `MIPS64_FUNCT_DADDU`, the codes that the interpreter names.
abbrev pub opcode_special : ℕ
opcode_special = 0x00

abbrev pub funct_daddu : ℕ
funct_daddu = 0x2D

-- The masks are the source's: the literal of `target` has 34 bits. `offset` is not assigned.
unfoldable pub decode_instruction : ℕ → Option Decoded → Outcome Decoded
decode_instruction raw none = fault
decode_instruction raw (some out) = done (record out {
  raw = raw;
  opcode = u8 (bit_and (u8 (raw >> 26)) 0x3F);
  rs = u8 (bit_and (u8 (raw >> 21)) 0x1F);
  rt = u8 (bit_and (u8 (raw >> 16)) 0x1F);
  rd = u8 (bit_and (u8 (raw >> 11)) 0x1F);
  shift_amount = u8 (bit_and (u8 (raw >> 6)) 0x1F);
  function = u8 (bit_and raw 0x3F);
  immediate = u16 (bit_and raw 0xFFF);
  target = u32 (bit_and raw 0x03FFFFFFFF);
})
