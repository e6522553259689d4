-- ===== src/Jit/X64/Read.antt =====
-- The instructions of X64, read from bytes: the first one, and the bytes behind it.
use mips64_emulator.Base.{
  ℕ, ◌+◌, ◌*◌, ◌/◌, ◌%◌, ◌^◌, Bool, true, false, not, ◌&&◌, Option, none, some, List, [], ◌∷◌, ltb,
  ◌==◌, if◌then◌else◌,
}
use mips64_emulator.Jit.X64.{
  Ins, move, move_imm, op, compare, compare_imm, set, zero_extend, push, pop, shift, load, store,
  test, jump, jump_if, extend_sign, divide, add, or, and, sub, xor, mul, left, right, Size, four,
  eight, less, equal,
}

abbrev pub Reading : Type 0
Reading = Option (Ins × List ℕ)

-- The two register numbers: three bits of the ModRM byte, the fourth from the REX prefix.
abbrev pub rm_field : ℕ → ℕ → ℕ
rm_field rex modrm = rex % 2 * 8 + modrm % 8

abbrev pub reg_field : ℕ → ℕ → ℕ
reg_field rex modrm = rex / 4 % 2 * 8 + modrm / 8 % 8

abbrev pub with_rest : List ℕ → Option Ins → Reading
with_rest rest none = none
with_rest rest (some i) = some (i, rest)

-- A number of 32 bits, least significant byte first.
abbrev pub word : ℕ → ℕ → ℕ → ℕ → ℕ
word b0 b1 b2 b3 = b0 + b1 * 2 ^ 8 + b2 * 2 ^ 16 + b3 * 2 ^ 24

abbrev pub with_word : (ℕ → Ins) → List ℕ → Reading
with_word f (b0 ∷ b1 ∷ b2 ∷ b3 ∷ rest) = some (f (word b0 b1 b2 b3), rest)
with_word f _ = none

abbrev pub with_byte : (ℕ → Ins) → List ℕ → Reading
with_byte f (b ∷ rest) = some (f b, rest)
with_byte f _ = none

-- The opcodes with two registers, which take the register to write from the ModRM byte's last bits.
abbrev pub store_op : ℕ → ℕ → ℕ → Option Ins
store_op opcode d s =
    if opcode == 0x89
    then some (move d s)
    else if opcode == 0x01
    then some (op add d s)
    else if opcode == 0x09
    then some (op or d s)
    else if opcode == 0x21
    then some (op and d s)
    else if opcode == 0x29
    then some (op sub d s)
    else if opcode == 0x31
    then some (op xor d s)
    else if opcode == 0x39
    then some (compare d s)
    else none

-- The opcodes with one register, whose operation is the other field of the ModRM byte.
abbrev pub group_op : ℕ → ℕ → ℕ → Option Ins
group_op opcode d k =
    if opcode == 0xD3 && k == 4
    then some (shift left d)
    else if opcode == 0xD3 && k == 7
    then some (shift right d)
    else if opcode == 0xF7 && k == 7
    then some (divide d)
    else none

-- An address: a register and 32 bits. Where three bits of its number are 4, a further byte
-- follows, which is not described.
unfoldable pub read_address : Size → ℕ → ℕ → ℕ → List ℕ → Reading
read_address w rex opcode modrm rest =
    if modrm / 64 == 2 && not (modrm % 8 == 4)
    then (if opcode == 0x8B
        then with_word (load w (reg_field rex modrm) (rm_field rex modrm)) rest
        else if opcode == 0x89
        then with_word (store w (reg_field rex modrm) (rm_field rex modrm)) rest
        else none)
    else none

abbrev pub is_group : ℕ → Bool
is_group opcode = if opcode == 0xD3 then true else opcode == 0xF7

-- IMUL: `reg *= rm`
abbrev pub read_imul : ℕ → ℕ → List ℕ → Reading
read_imul rex second [] = none
read_imul rex second (modrm ∷ rest) =
    if second == 0xAF && modrm / 64 == 3
    then some (op mul (reg_field rex modrm) (rm_field rex modrm), rest)
    else none

-- MOV of a 32-bit immediate
abbrev pub read_imm : ℕ → ℕ → List ℕ → Reading
read_imm rex modrm rest =
    if modrm / 8 % 8 == 0 && modrm / 64 == 3
    then with_word (move_imm (rm_field rex modrm)) rest
    else none

-- CMP with an 8-bit immediate
abbrev pub read_compare : ℕ → ℕ → List ℕ → Reading
read_compare rex modrm rest =
    if modrm / 8 % 8 == 7 && modrm / 64 == 3
    then with_byte (compare_imm (rm_field rex modrm)) rest
    else none

-- Behind a REX prefix that asks for 64 bits.
unfoldable pub read_wide : ℕ → List ℕ → Reading
unfolding read_address
read_wide rex (opcode ∷ third ∷ rest) =
    if opcode == 0x0F
    then read_imul rex third rest
    else if opcode == 0xC7
    then read_imm rex third rest
    else if opcode == 0x83
    then read_compare rex third rest
    else if third / 64 == 3
    then (if is_group opcode
        then with_rest rest (group_op opcode (rm_field rex third) (third / 8 % 8))
        else with_rest rest (store_op opcode (rm_field rex third) (reg_field rex third)))
    else read_address eight rex opcode third rest
read_wide rex _ = none

-- Behind a REX prefix that does not.
unfoldable pub read_narrow : ℕ → List ℕ → Reading
unfolding read_address
read_narrow rex (opcode ∷ third ∷ rest) = read_address four rex opcode third rest
read_narrow rex _ = none

abbrev pub with_byte_register : (ℕ → Ins) → List ℕ → Reading
with_byte_register f (modrm ∷ rest) =
    if modrm / 64 == 3 && ltb (modrm % 8) 4 then some (f modrm, rest) else none
with_byte_register f _ = none

-- TEST of a register with itself
abbrev pub read_test : List ℕ → Reading
read_test (modrm ∷ rest) =
    if modrm / 64 == 3 && modrm % 8 == modrm / 8 % 8 then some (test (modrm % 8), rest) else none
read_test _ = none

-- Behind the byte 0x0F. Without a prefix only the first four registers have a lowest byte.
unfoldable pub read_escaped : List ℕ → Reading
read_escaped (opcode ∷ rest) =
    if opcode == 0x84
    then with_word (jump_if true) rest
    else if opcode == 0x85
    then with_word (jump_if false) rest
    else if opcode == 0x94
    then with_byte_register (λ modrm. set equal (modrm % 8)) rest
    else if opcode == 0x9C
    then with_byte_register (λ modrm. set less (modrm % 8)) rest
    else if opcode == 0xB6
    then with_byte_register (λ modrm. zero_extend (modrm / 8 % 8) (modrm % 8)) rest
    else none
read_escaped _ = none

-- No prefix.
unfoldable pub read_plain : ℕ → List ℕ → Reading
unfolding read_escaped
read_plain opcode rest =
    if opcode == 0x0F
    then read_escaped rest
    else if opcode == 0xE9
    then with_word jump rest
    else if opcode == 0x99
    then some (extend_sign, rest)
    else if opcode / 8 == 10
    then some (push (opcode % 8), rest)
    else if opcode / 8 == 11
    then some (pop (opcode % 8), rest)
    else if opcode == 0x85
    then read_test rest
    else none

-- A REX prefix has the upper four bits 4; its bit X stays 0.
unfoldable pub read_ins : List ℕ → Reading
unfolding read_wide read_narrow read_plain
read_ins [] = none
read_ins (first ∷ rest) =
    if first / 16 == 4
    then (if not (first / 2 % 2 == 0)
        then none
        else if first / 8 == 9
        then read_wide first rest
        else read_narrow first rest)
    else read_plain first rest
