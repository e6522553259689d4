-- ===== src/Jit.antt =====
-- The x64 code generator: include/mips64/jit_compiler_x64.h and src/mips64/jit_compiler_x64.c.
-- Here its state, the stores into the code buffer, and the bytes that name registers. A function
-- or macro that moves the buffer pointer is an `Emitter`. An `int` is an integer.
pub mod Forms
pub mod Instructions
pub mod Integer
pub mod Branch
pub mod Float
pub mod Float4
pub mod Laid
pub mod Fits
pub mod Ops
pub mod Program
pub mod Entries
pub mod X64
pub mod Computes
pub mod Arithmetic
pub mod Registers
pub mod Runs
mod Tests
use mips64_emulator.Base.{
  ℕ, ◌+◌, ◌*◌, ◌/◌, ◌%◌, ◌^◌, Bool, true, false, ◌&&◌, Option, none, some, Outcome, done, fault,
  access, ◌>>=◌, ltb, ◌==◌, if◌then◌else◌, bit_and, bit_or, u8, u16, ◌<<◌,
}
use mips64_emulator.Base.Int.{ℤ, pos, negsuc, pos_part, neg_part, ltb_ℤ, ℤ_to_u32}
use mips64_emulator.Memory.{update}

-- `struct JITParsing`. Each pointer into a table is the table, its size, and the index that the
-- pointer has. The code buffer holds bytes; `info1` holds pointers into it, which may be unset.
-- `i1` is a pointer that is counted on and stored as a number.
pub record Parsing : Type 0 where
  pub code : ℕ → ℕ
  pub code_size : ℕ
  pub buffer : ℕ
  pub info1 : ℕ → Option ℕ
  pub info1_size : ℕ
  pub info1_index : ℕ
  pub info2 : ℕ → ℕ
  pub info2_size : ℕ
  pub info2_index : ℕ
  pub i1 : ℕ

abbrev pub Emitter : Type 0
Emitter = Parsing → Outcome Parsing

-- One statement after another.
infixl 3 ◌⨾◌
abbrev pub ◌⨾◌ : Emitter → Emitter → Emitter
◌⨾◌ f g p = f p >>= g

abbrev pub skip : Emitter
skip p = done p

infix 50 ◌==ℤ◌
abbrev pub ◌==ℤ◌ : ℤ → ℤ → Bool
a ==ℤ b = pos_part a == pos_part b && neg_part a == neg_part b

-- `buffer[k] = value`
unfoldable pub put : ℕ → ℕ → Emitter
put k value p =
    if ltb (p.buffer + k) p.code_size
    then done (record p { code = update p.code (p.buffer + k) value })
    else fault

-- `*(uint32_t*)(buffer + k) = value`, least significant byte first
unfoldable pub put_u32 : ℕ → ℕ → Emitter
put_u32 k value =
    put k (value % 256)
    ⨾ put (k + 1) (value / 2 ^ 8 % 256)
    ⨾ put (k + 2) (value / 2 ^ 16 % 256)
    ⨾ put (k + 3) (value / 2 ^ 24 % 256)

-- `buffer += n`
abbrev pub advance : ℕ → Emitter
advance n p = done (record p { buffer = p.buffer + n })

-- The value of a comparison.
abbrev pub truth : Bool → ℕ
truth true = 1
truth false = 0

-- `r > 0x7` and `r & 0x7`
abbrev pub high_bit : ℤ → ℕ
high_bit r = truth (ltb_ℤ (pos 7) r)

abbrev pub low_bits : ℤ → ℕ
low_bits r = bit_and (ℤ_to_u32 r) 7

unfoldable pub encode_rex : ℕ → ℤ → ℤ → ℕ → Emitter
encode_rex k dest src op64 =
    put k (u8 (bit_or (bit_or (bit_or (high_bit dest) (high_bit src << 2)) (op64 << 3)) 0x40))

unfoldable pub encode_modrm : ℕ → ℤ → ℤ → ℕ → Emitter
encode_modrm k dest src mode =
    put k (u8 (bit_or (bit_or (low_bits dest) (low_bits src << 3)) (mode << 6)))

-- `x8664_encode(buffer + k, ...)`
unfoldable pub encode : ℕ → ℤ → ℤ → ℕ → ℕ → ℕ → Emitter
encode k dest src i mode op64 = encode_rex k dest src op64 ⨾ encode_modrm (k + i) dest src mode

-- `JIT__INFO(p)`: the start of an instruction is written into the table.
unfoldable pub info : Emitter
info p =
    if ltb p.info1_index p.info1_size
    then done (record p {
      info1 = λ k. if k == p.info1_index then some p.buffer else p.info1 k;
      info1_index = p.info1_index + 1;
      i1 = p.i1 + 2;
    })
    else fault

-- `JIT__INFO(*p)`: the macro's text makes of it a store of the code byte at `buffer` through the
-- pointer that stands in the table already.
unfoldable pub info_through : Emitter
info_through p =
    if ltb p.info1_index p.info1_size
    then (access (p.info1 p.info1_index) >>= λ target.
        if ltb p.buffer p.code_size && ltb target p.code_size
        then done (record p {
          code = update p.code target (p.code p.buffer);
          info1_index = p.info1_index + 1;
          i1 = p.i1 + 2;
        })
        else fault)
    else fault

-- `JIT__INFO2(p)`: an element of the table has 16 bits.
unfoldable pub info_jump : Emitter
info_jump p =
    if ltb p.info2_index p.info2_size
    then done (record p {
      info2 = λ k. if k == p.info2_index then u16 p.i1 else p.info2 k;
      info2_index = p.info2_index + 1;
    })
    else fault
