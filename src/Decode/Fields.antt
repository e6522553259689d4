-- ===== src/Decode/Fields.antt =====
-- src/mips64/decode.c: the decoded fields against the instruction formats of MIPS64.
use mips64_emulator.Base.{◌+◌, ◌*◌, ◌↔◌, refl, ℕ, ◌/◌, ◌%◌, ◌^◌, ◌<◌, ◌≡◌, arith, some, done}
use mips64_emulator.Base.Bits.{bit_and-mask}
use mips64_emulator.Decode.{Decoded, decode_instruction}

-- The fields of a word by quotients and remainders; the immediate has 12 bits here, and the
-- target the whole word.
abbrev pub fields_of : ℕ → ℕ → Decoded
fields_of raw offset = record {
  raw = raw;
  opcode = raw / 2 ^ 26;
  rs = raw / 2 ^ 21 % 2 ^ 5;
  rt = raw / 2 ^ 16 % 2 ^ 5;
  rd = raw / 2 ^ 11 % 2 ^ 5;
  shift_amount = raw / 2 ^ 6 % 2 ^ 5;
  function = raw % 2 ^ 6;
  immediate = raw % 2 ^ 12;
  offset = offset;
  target = raw;
}

-- The shifts, casts and masks of the decoder give these fields on every 32-bit word.
pub decode_instruction-fields_of :
    (raw : ℕ) (out : Decoded)
    → raw < 2 ^ 32
    → decode_instruction raw (some out) ≡ done (fields_of raw out.offset)
unfolding decode_instruction
decode_instruction-fields_of raw out h = ground (
  arith,
  bit_and-mask 6 (raw / 2 ^ 26 % 2 ^ 8),
  bit_and-mask 5 (raw / 2 ^ 21 % 2 ^ 8),
  bit_and-mask 5 (raw / 2 ^ 16 % 2 ^ 8),
  bit_and-mask 5 (raw / 2 ^ 11 % 2 ^ 8),
  bit_and-mask 5 (raw / 2 ^ 6 % 2 ^ 8),
  bit_and-mask 6 raw,
  bit_and-mask 12 raw,
  bit_and-mask 34 raw,
)

-- The instruction formats of MIPS64, as words.
abbrev pub r_format : ℕ → ℕ → ℕ → ℕ → ℕ → ℕ → ℕ
r_format opcode rs rt rd shift_amount function =
    opcode * 2 ^ 26 + rs * 2 ^ 21 + rt * 2 ^ 16 + rd * 2 ^ 11 + shift_amount * 2 ^ 6 + function

abbrev pub i_format : ℕ → ℕ → ℕ → ℕ → ℕ
i_format opcode rs rt immediate = opcode * 2 ^ 26 + rs * 2 ^ 21 + rt * 2 ^ 16 + immediate

abbrev pub j_format : ℕ → ℕ → ℕ
j_format opcode target = opcode * 2 ^ 26 + target

-- Decoding any 32-bit word gives R-format fields that fit their widths, and packing the fields
-- gives the word back.
pub r_format-decode_instruction :
    (raw : ℕ) (out : Decoded)
    → raw < 2 ^ 32
    → (i : Decoded) × (decode_instruction raw (some out) ≡ done i)
      × (r_format i.opcode i.rs i.rt i.rd i.shift_amount i.function ≡ raw)
      × (i.opcode < 64)
      × (i.rs < 32)
      × (i.rt < 32)
      × (i.rd < 32)
      × (i.shift_amount < 32)
      × (i.function < 64)
r_format-decode_instruction raw out h = (
  fields_of raw out.offset,
  decode_instruction-fields_of raw out h,
  omega arith,
  omega arith,
  omega arith,
  omega arith,
  omega arith,
  omega arith,
  omega arith,
)

-- For fields that fit their widths, decoding the I-format word gives the opcode and the
-- registers back; the 16-bit immediate comes back exactly if it is below 2 ^ 12.
pub decode_instruction-i_format :
    (opcode rs rt immediate : ℕ) (out : Decoded)
    → opcode < 64
    → rs < 32
    → rt < 32
    → immediate < 2 ^ 16
    → (i : Decoded) × (decode_instruction (i_format opcode rs rt immediate) (some out) ≡ done i)
      × (i.opcode ≡ opcode)
      × (i.rs ≡ rs)
      × (i.rt ≡ rt)
      × ((i.immediate ≡ immediate) ↔ (immediate < 2 ^ 12))
decode_instruction-i_format opcode rs rt immediate out ho hs ht hi = (
  fields_of (i_format opcode rs rt immediate) out.offset,
  decode_instruction-fields_of (i_format opcode rs rt immediate) out (omega arith),
  omega arith,
  omega arith,
  omega arith,
  (λ e. omega arith, λ h. omega arith),
)

-- For an opcode of 6 and a target of 26 bits, decoding the J-format word gives the opcode back,
-- but the target only if the opcode is 0, which no jump has: the decoded target is the whole
-- word.
pub decode_instruction-j_format :
    (opcode target : ℕ) (out : Decoded)
    → opcode < 64
    → target < 2 ^ 26
    → (i : Decoded) × (decode_instruction (j_format opcode target) (some out) ≡ done i)
      × (i.opcode ≡ opcode)
      × (i.target ≡ opcode * 2 ^ 26 + target)
      × ((i.target ≡ target) ↔ (opcode ≡ 0))
decode_instruction-j_format opcode target out ho ht = (
  fields_of (j_format opcode target) out.offset,
  decode_instruction-fields_of (j_format opcode target) out (omega arith),
  omega arith,
  refl,
  (λ e. omega arith, λ h. omega arith),
)
