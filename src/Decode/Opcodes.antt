-- ===== src/Decode/Opcodes.antt =====
-- The opcodes of include/mips64/decode.h, and the words that carry them.
use mips64_emulator.Base.{
  ℕ, ◌+◌, ◌*◌, ◌^◌, ◌<◌, ◌≡◌, refl, arith, Option, none, some, List, [], ◌∷◌, done, ◌==◌,
  if◌then◌else◌,
}
use mips64_emulator.Decode.{Decoded, decode_instruction}
use mips64_emulator.Decode.Fields.{fields_of, decode_instruction-fields_of}

-- `Mips64Opcode`: the constants, without their common prefix
pub data Opcode : Type 0 where
  op_special op_j op_jal op_beq op_bne op_blez op_bgtz op_addi op_addiu op_slti op_sltiu op_andi
        op_ori op_xori op_lui op_cop0 op_cop1 op_cop2 op_cop1x op_beql op_bnel op_blezl op_bgtzl
        op_ldl op_ldr op_jalx op_lb op_lh op_lwl op_lw op_lbu op_lhu op_lwr op_lwu op_sb op_sh
        op_swl op_sw op_sdl op_sdr op_swr op_cache op_ll op_lwc1 op_lwc2 op_pref op_lld op_ldc1
        op_ldc2 op_ld op_sc op_swc1 op_swc2 op_scd op_sdc1 op_sdc2 op_sd :
      Opcode

unfoldable pub opcode_value : Opcode → ℕ
opcode_value op_special = 0x00
opcode_value op_j = 0x02
opcode_value op_jal = 0x03
opcode_value op_beq = 0x04
opcode_value op_bne = 0x05
opcode_value op_blez = 0x06
opcode_value op_bgtz = 0x07
opcode_value op_addi = 0x08
opcode_value op_addiu = 0x09
opcode_value op_slti = 0x0A
opcode_value op_sltiu = 0x0B
opcode_value op_andi = 0x0C
opcode_value op_ori = 0x0D
opcode_value op_xori = 0x0E
opcode_value op_lui = 0x0F
opcode_value op_cop0 = 0x10
opcode_value op_cop1 = 0x11
opcode_value op_cop2 = 0x12
opcode_value op_cop1x = 0x13
opcode_value op_beql = 0x14
opcode_value op_bnel = 0x15
opcode_value op_blezl = 0x16
opcode_value op_bgtzl = 0x17
opcode_value op_ldl = 0x1A
opcode_value op_ldr = 0x1B
opcode_value op_jalx = 0x1D
opcode_value op_lb = 0x20
opcode_value op_lh = 0x21
opcode_value op_lwl = 0x22
opcode_value op_lw = 0x23
opcode_value op_lbu = 0x24
opcode_value op_lhu = 0x25
opcode_value op_lwr = 0x26
opcode_value op_lwu = 0x27
opcode_value op_sb = 0x28
opcode_value op_sh = 0x29
opcode_value op_swl = 0x2A
opcode_value op_sw = 0x2B
opcode_value op_sdl = 0x2C
opcode_value op_sdr = 0x2D
opcode_value op_swr = 0x2E
opcode_value op_cache = 0x2F
opcode_value op_ll = 0x30
opcode_value op_lwc1 = 0x31
opcode_value op_lwc2 = 0x32
opcode_value op_pref = 0x33
opcode_value op_lld = 0x34
opcode_value op_ldc1 = 0x35
opcode_value op_ldc2 = 0x36
opcode_value op_ld = 0x37
opcode_value op_sc = 0x38
opcode_value op_swc1 = 0x39
opcode_value op_swc2 = 0x3A
opcode_value op_scd = 0x3C
opcode_value op_sdc1 = 0x3D
opcode_value op_sdc2 = 0x3E
opcode_value op_sd = 0x3F

-- All of them, in the order of the source.
abbrev pub opcodes : List Opcode
opcodes =
    op_special ∷ op_j ∷ op_jal ∷ op_beq ∷ op_bne ∷ op_blez ∷ op_bgtz ∷ op_addi ∷ op_addiu ∷ op_slti
    ∷ op_sltiu ∷ op_andi ∷ op_ori ∷ op_xori ∷ op_lui ∷ op_cop0 ∷ op_cop1 ∷ op_cop2 ∷ op_cop1x
    ∷ op_beql ∷ op_bnel ∷ op_blezl ∷ op_bgtzl ∷ op_ldl ∷ op_ldr ∷ op_jalx ∷ op_lb ∷ op_lh ∷ op_lwl
    ∷ op_lw ∷ op_lbu ∷ op_lhu ∷ op_lwr ∷ op_lwu ∷ op_sb ∷ op_sh ∷ op_swl ∷ op_sw ∷ op_sdl ∷ op_sdr
    ∷ op_swr ∷ op_cache ∷ op_ll ∷ op_lwc1 ∷ op_lwc2 ∷ op_pref ∷ op_lld ∷ op_ldc1 ∷ op_ldc2 ∷ op_ld
    ∷ op_sc ∷ op_swc1 ∷ op_swc2 ∷ op_scd ∷ op_sdc1 ∷ op_sdc2 ∷ op_sd ∷ []

-- The first opcode of the enum with this value.
abbrev first_opcode : ℕ → List Opcode → Option Opcode
unfolding opcode_value
first_opcode n [] = none
first_opcode n (op ∷ rest) = if opcode_value op == n then some op else first_opcode n rest

unfoldable pub opcode_of : ℕ → Option Opcode
unfolding opcode_value
opcode_of n = first_opcode n opcodes

opcode_of-opcode_value : (op : Opcode) → opcode_of (opcode_value op) ≡ some op
unfolding opcode_of opcode_value
opcode_of-opcode_value op_special = refl
opcode_of-opcode_value op_j = refl
opcode_of-opcode_value op_jal = refl
opcode_of-opcode_value op_beq = refl
opcode_of-opcode_value op_bne = refl
opcode_of-opcode_value op_blez = refl
opcode_of-opcode_value op_bgtz = refl
opcode_of-opcode_value op_addi = refl
opcode_of-opcode_value op_addiu = refl
opcode_of-opcode_value op_slti = refl
opcode_of-opcode_value op_sltiu = refl
opcode_of-opcode_value op_andi = refl
opcode_of-opcode_value op_ori = refl
opcode_of-opcode_value op_xori = refl
opcode_of-opcode_value op_lui = refl
opcode_of-opcode_value op_cop0 = refl
opcode_of-opcode_value op_cop1 = refl
opcode_of-opcode_value op_cop2 = refl
opcode_of-opcode_value op_cop1x = refl
opcode_of-opcode_value op_beql = refl
opcode_of-opcode_value op_bnel = refl
opcode_of-opcode_value op_blezl = refl
opcode_of-opcode_value op_bgtzl = refl
opcode_of-opcode_value op_ldl = refl
opcode_of-opcode_value op_ldr = refl
opcode_of-opcode_value op_jalx = refl
opcode_of-opcode_value op_lb = refl
opcode_of-opcode_value op_lh = refl
opcode_of-opcode_value op_lwl = refl
opcode_of-opcode_value op_lw = refl
opcode_of-opcode_value op_lbu = refl
opcode_of-opcode_value op_lhu = refl
opcode_of-opcode_value op_lwr = refl
opcode_of-opcode_value op_lwu = refl
opcode_of-opcode_value op_sb = refl
opcode_of-opcode_value op_sh = refl
opcode_of-opcode_value op_swl = refl
opcode_of-opcode_value op_sw = refl
opcode_of-opcode_value op_sdl = refl
opcode_of-opcode_value op_sdr = refl
opcode_of-opcode_value op_swr = refl
opcode_of-opcode_value op_cache = refl
opcode_of-opcode_value op_ll = refl
opcode_of-opcode_value op_lwc1 = refl
opcode_of-opcode_value op_lwc2 = refl
opcode_of-opcode_value op_pref = refl
opcode_of-opcode_value op_lld = refl
opcode_of-opcode_value op_ldc1 = refl
opcode_of-opcode_value op_ldc2 = refl
opcode_of-opcode_value op_ld = refl
opcode_of-opcode_value op_sc = refl
opcode_of-opcode_value op_swc1 = refl
opcode_of-opcode_value op_swc2 = refl
opcode_of-opcode_value op_scd = refl
opcode_of-opcode_value op_sdc1 = refl
opcode_of-opcode_value op_sdc2 = refl
opcode_of-opcode_value op_sd = refl

opcode_value-lt : (op : Opcode) → opcode_value op < 64
unfolding opcode_value
opcode_value-lt op_special = omega arith
opcode_value-lt op_j = omega arith
opcode_value-lt op_jal = omega arith
opcode_value-lt op_beq = omega arith
opcode_value-lt op_bne = omega arith
opcode_value-lt op_blez = omega arith
opcode_value-lt op_bgtz = omega arith
opcode_value-lt op_addi = omega arith
opcode_value-lt op_addiu = omega arith
opcode_value-lt op_slti = omega arith
opcode_value-lt op_sltiu = omega arith
opcode_value-lt op_andi = omega arith
opcode_value-lt op_ori = omega arith
opcode_value-lt op_xori = omega arith
opcode_value-lt op_lui = omega arith
opcode_value-lt op_cop0 = omega arith
opcode_value-lt op_cop1 = omega arith
opcode_value-lt op_cop2 = omega arith
opcode_value-lt op_cop1x = omega arith
opcode_value-lt op_beql = omega arith
opcode_value-lt op_bnel = omega arith
opcode_value-lt op_blezl = omega arith
opcode_value-lt op_bgtzl = omega arith
opcode_value-lt op_ldl = omega arith
opcode_value-lt op_ldr = omega arith
opcode_value-lt op_jalx = omega arith
opcode_value-lt op_lb = omega arith
opcode_value-lt op_lh = omega arith
opcode_value-lt op_lwl = omega arith
opcode_value-lt op_lw = omega arith
opcode_value-lt op_lbu = omega arith
opcode_value-lt op_lhu = omega arith
opcode_value-lt op_lwr = omega arith
opcode_value-lt op_lwu = omega arith
opcode_value-lt op_sb = omega arith
opcode_value-lt op_sh = omega arith
opcode_value-lt op_swl = omega arith
opcode_value-lt op_sw = omega arith
opcode_value-lt op_sdl = omega arith
opcode_value-lt op_sdr = omega arith
opcode_value-lt op_swr = omega arith
opcode_value-lt op_cache = omega arith
opcode_value-lt op_ll = omega arith
opcode_value-lt op_lwc1 = omega arith
opcode_value-lt op_lwc2 = omega arith
opcode_value-lt op_pref = omega arith
opcode_value-lt op_lld = omega arith
opcode_value-lt op_ldc1 = omega arith
opcode_value-lt op_ldc2 = omega arith
opcode_value-lt op_ld = omega arith
opcode_value-lt op_sc = omega arith
opcode_value-lt op_swc1 = omega arith
opcode_value-lt op_swc2 = omega arith
opcode_value-lt op_scd = omega arith
opcode_value-lt op_sdc1 = omega arith
opcode_value-lt op_sdc2 = omega arith
opcode_value-lt op_sd = omega arith

-- For every opcode constant of the header and any 26 lower bits, the word with that opcode is
-- decoded to an opcode field that belongs to this constant and to no other.
decode_instruction-opcode_of :
    (op : Opcode) (low : ℕ) (out : Decoded)
    → low < 2 ^ 26
    → (i : Decoded) × (decode_instruction (opcode_value op * 2 ^ 26 + low) (some out) ≡ done i)
      × (opcode_of i.opcode ≡ some op)
decode_instruction-opcode_of op low out h =
    let value = opcode_value op in
    let lt : value < 64 = opcode_value-lt op in
    let same : (fields_of (value * 2 ^ 26 + low) out.offset).opcode ≡ value = omega arith in
    (
      fields_of (value * 2 ^ 26 + low) out.offset,
      decode_instruction-fields_of (value * 2 ^ 26 + low) out (omega arith),
      rw same (opcode_of-opcode_value op),
    )
