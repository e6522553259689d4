-- ===== src/Decode/Functions.antt =====
-- The functions of SPECIAL words in include/mips64/decode.h.
use mips64_emulator.Base.{
  ℕ, ◌+◌, ◌*◌, ◌^◌, ◌<◌, ◌≡◌, refl, arith, Option, none, some, List, [], ◌∷◌, done, ◌==◌,
  if◌then◌else◌,
}
use mips64_emulator.Decode.{Decoded, decode_instruction}
use mips64_emulator.Decode.Fields.{fields_of, decode_instruction-fields_of}

-- `Mips64Function`: the constants, without their common prefix
pub data Function : Type 0 where
  fn_sll fn_movci fn_srl fn_sra fn_sllv fn_srlv fn_srav fn_jr fn_jalr fn_movz fn_movn fn_syscall
        fn_break fn_sync fn_mfhi fn_mthi fn_mflo fn_mtlo fn_dsllv fn_dsrlv fn_dsrav fn_mult fn_multu
        fn_div fn_divu fn_dmult fn_dmultu fn_ddiv fn_ddivu fn_add fn_addu fn_sub fn_subu fn_and
        fn_or fn_xor fn_nor fn_slt fn_sltu fn_dadd fn_daddu fn_dsub fn_tge fn_tgeu fn_dsubu fn_tlt
        fn_tltu fn_teq fn_tne fn_dsll fn_dsrl fn_dsra fn_dsll32 fn_dsrl32 fn_dsra32 :
      Function

unfoldable pub function_value : Function → ℕ
function_value fn_sll = 0x00
function_value fn_movci = 0x01
function_value fn_srl = 0x02
function_value fn_sra = 0x03
function_value fn_sllv = 0x04
function_value fn_srlv = 0x06
function_value fn_srav = 0x07
function_value fn_jr = 0x08
function_value fn_jalr = 0x09
function_value fn_movz = 0x0A
function_value fn_movn = 0x0B
function_value fn_syscall = 0x0C
function_value fn_break = 0x0D
function_value fn_sync = 0x0F
function_value fn_mfhi = 0x10
function_value fn_mthi = 0x11
function_value fn_mflo = 0x12
function_value fn_mtlo = 0x13
function_value fn_dsllv = 0x14
function_value fn_dsrlv = 0x16
function_value fn_dsrav = 0x17
function_value fn_mult = 0x18
function_value fn_multu = 0x19
function_value fn_div = 0x1A
function_value fn_divu = 0x1B
function_value fn_dmult = 0x1C
function_value fn_dmultu = 0x1D
function_value fn_ddiv = 0x1E
function_value fn_ddivu = 0x1F
function_value fn_add = 0x20
function_value fn_addu = 0x21
function_value fn_sub = 0x22
function_value fn_subu = 0x23
function_value fn_and = 0x24
function_value fn_or = 0x25
function_value fn_xor = 0x26
function_value fn_nor = 0x27
function_value fn_slt = 0x2A
function_value fn_sltu = 0x2B
function_value fn_dadd = 0x2C
function_value fn_daddu = 0x2D
function_value fn_dsub = 0x30
function_value fn_tge = 0x30
function_value fn_tgeu = 0x31
function_value fn_dsubu = 0x31
function_value fn_tlt = 0x32
function_value fn_tltu = 0x33
function_value fn_teq = 0x34
function_value fn_tne = 0x36
function_value fn_dsll = 0x38
function_value fn_dsrl = 0x3A
function_value fn_dsra = 0x3B
function_value fn_dsll32 = 0x3C
function_value fn_dsrl32 = 0x3E
function_value fn_dsra32 = 0x3F

-- All of them, in the order of the source.
abbrev pub functions : List Function
functions =
    fn_sll ∷ fn_movci ∷ fn_srl ∷ fn_sra ∷ fn_sllv ∷ fn_srlv ∷ fn_srav ∷ fn_jr ∷ fn_jalr ∷ fn_movz
    ∷ fn_movn ∷ fn_syscall ∷ fn_break ∷ fn_sync ∷ fn_mfhi ∷ fn_mthi ∷ fn_mflo ∷ fn_mtlo ∷ fn_dsllv
    ∷ fn_dsrlv ∷ fn_dsrav ∷ fn_mult ∷ fn_multu ∷ fn_div ∷ fn_divu ∷ fn_dmult ∷ fn_dmultu ∷ fn_ddiv
    ∷ fn_ddivu ∷ fn_add ∷ fn_addu ∷ fn_sub ∷ fn_subu ∷ fn_and ∷ fn_or ∷ fn_xor ∷ fn_nor ∷ fn_slt
    ∷ fn_sltu ∷ fn_dadd ∷ fn_daddu ∷ fn_dsub ∷ fn_tge ∷ fn_tgeu ∷ fn_dsubu ∷ fn_tlt ∷ fn_tltu
    ∷ fn_teq ∷ fn_tne ∷ fn_dsll ∷ fn_dsrl ∷ fn_dsra ∷ fn_dsll32 ∷ fn_dsrl32 ∷ fn_dsra32 ∷ []

-- The first function of the enum with this value.
abbrev first_function : ℕ → List Function → Option Function
unfolding function_value
first_function n [] = none
first_function n (f ∷ rest) = if function_value f == n then some f else first_function n rest

unfoldable pub function_of : ℕ → Option Function
unfolding function_value
function_of n = first_function n functions

-- Two constants have the value of an earlier one.
abbrev pub earlier : Function → Function
earlier fn_tge = fn_dsub
earlier fn_dsubu = fn_tgeu
earlier f = f

function_of-function_value : (f : Function) → function_of (function_value f) ≡ some (earlier f)
unfolding function_of function_value
function_of-function_value fn_sll = refl
function_of-function_value fn_movci = refl
function_of-function_value fn_srl = refl
function_of-function_value fn_sra = refl
function_of-function_value fn_sllv = refl
function_of-function_value fn_srlv = refl
function_of-function_value fn_srav = refl
function_of-function_value fn_jr = refl
function_of-function_value fn_jalr = refl
function_of-function_value fn_movz = refl
function_of-function_value fn_movn = refl
function_of-function_value fn_syscall = refl
function_of-function_value fn_break = refl
function_of-function_value fn_sync = refl
function_of-function_value fn_mfhi = refl
function_of-function_value fn_mthi = refl
function_of-function_value fn_mflo = refl
function_of-function_value fn_mtlo = refl
function_of-function_value fn_dsllv = refl
function_of-function_value fn_dsrlv = refl
function_of-function_value fn_dsrav = refl
function_of-function_value fn_mult = refl
function_of-function_value fn_multu = refl
function_of-function_value fn_div = refl
function_of-function_value fn_divu = refl
function_of-function_value fn_dmult = refl
function_of-function_value fn_dmultu = refl
function_of-function_value fn_ddiv = refl
function_of-function_value fn_ddivu = refl
function_of-function_value fn_add = refl
function_of-function_value fn_addu = refl
function_of-function_value fn_sub = refl
function_of-function_value fn_subu = refl
function_of-function_value fn_and = refl
function_of-function_value fn_or = refl
function_of-function_value fn_xor = refl
function_of-function_value fn_nor = refl
function_of-function_value fn_slt = refl
function_of-function_value fn_sltu = refl
function_of-function_value fn_dadd = refl
function_of-function_value fn_daddu = refl
function_of-function_value fn_dsub = refl
function_of-function_value fn_tge = refl
function_of-function_value fn_tgeu = refl
function_of-function_value fn_dsubu = refl
function_of-function_value fn_tlt = refl
function_of-function_value fn_tltu = refl
function_of-function_value fn_teq = refl
function_of-function_value fn_tne = refl
function_of-function_value fn_dsll = refl
function_of-function_value fn_dsrl = refl
function_of-function_value fn_dsra = refl
function_of-function_value fn_dsll32 = refl
function_of-function_value fn_dsrl32 = refl
function_of-function_value fn_dsra32 = refl

function_value-lt : (f : Function) → function_value f < 64
unfolding function_value
function_value-lt fn_sll = omega arith
function_value-lt fn_movci = omega arith
function_value-lt fn_srl = omega arith
function_value-lt fn_sra = omega arith
function_value-lt fn_sllv = omega arith
function_value-lt fn_srlv = omega arith
function_value-lt fn_srav = omega arith
function_value-lt fn_jr = omega arith
function_value-lt fn_jalr = omega arith
function_value-lt fn_movz = omega arith
function_value-lt fn_movn = omega arith
function_value-lt fn_syscall = omega arith
function_value-lt fn_break = omega arith
function_value-lt fn_sync = omega arith
function_value-lt fn_mfhi = omega arith
function_value-lt fn_mthi = omega arith
function_value-lt fn_mflo = omega arith
function_value-lt fn_mtlo = omega arith
function_value-lt fn_dsllv = omega arith
function_value-lt fn_dsrlv = omega arith
function_value-lt fn_dsrav = omega arith
function_value-lt fn_mult = omega arith
function_value-lt fn_multu = omega arith
function_value-lt fn_div = omega arith
function_value-lt fn_divu = omega arith
function_value-lt fn_dmult = omega arith
function_value-lt fn_dmultu = omega arith
function_value-lt fn_ddiv = omega arith
function_value-lt fn_ddivu = omega arith
function_value-lt fn_add = omega arith
function_value-lt fn_addu = omega arith
function_value-lt fn_sub = omega arith
function_value-lt fn_subu = omega arith
function_value-lt fn_and = omega arith
function_value-lt fn_or = omega arith
function_value-lt fn_xor = omega arith
function_value-lt fn_nor = omega arith
function_value-lt fn_slt = omega arith
function_value-lt fn_sltu = omega arith
function_value-lt fn_dadd = omega arith
function_value-lt fn_daddu = omega arith
function_value-lt fn_dsub = omega arith
function_value-lt fn_tge = omega arith
function_value-lt fn_tgeu = omega arith
function_value-lt fn_dsubu = omega arith
function_value-lt fn_tlt = omega arith
function_value-lt fn_tltu = omega arith
function_value-lt fn_teq = omega arith
function_value-lt fn_tne = omega arith
function_value-lt fn_dsll = omega arith
function_value-lt fn_dsrl = omega arith
function_value-lt fn_dsra = omega arith
function_value-lt fn_dsll32 = omega arith
function_value-lt fn_dsrl32 = omega arith
function_value-lt fn_dsra32 = omega arith

-- For every function constant of the header and any 20 bits above it, the SPECIAL word with that
-- function is decoded to opcode 0 and to a function field that belongs first to this constant,
-- except for TGE and DSUBU, whose fields belong to the earlier DSUB and TGEU.
pub decode_instruction-function_of :
    (f : Function) (middle : ℕ) (out : Decoded)
    → middle < 2 ^ 20
    → (i : Decoded) × (decode_instruction (middle * 2 ^ 6 + function_value f) (some out) ≡ done i)
      × (i.opcode ≡ 0)
      × (function_of i.function ≡ some (earlier f))
decode_instruction-function_of f middle out h =
    let value = function_value f in
    let lt : value < 64 = function_value-lt f in
    let same : (fields_of (middle * 2 ^ 6 + value) out.offset).function ≡ value = omega arith in
    (
      fields_of (middle * 2 ^ 6 + value) out.offset,
      decode_instruction-fields_of (middle * 2 ^ 6 + value) out (omega arith),
      omega arith,
      rw same (function_of-function_value f),
    )
