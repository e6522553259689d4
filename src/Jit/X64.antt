-- ===== src/Jit/X64.antt =====
-- What a processor does that executes the bytes which src/mips64/jit_compiler_x64.c lays: the
-- registers, the memory and two of the conditions, as the x86-64 manual has them. Here the
-- instructions; X64.Read reads them from bytes, X64.Run executes bytes.
pub mod Read
pub mod Run
use Prim.Native.Nat.{bit_xor}
use mips64_emulator.Base.{
  ℕ, zero, suc, ◌+◌, ◌-◌, ◌*◌, ◌/◌, ◌%◌, ◌^◌, Bool, true, false, not, ◌&&◌, List, [], ◌∷◌, ltb, leb,
  ◌==◌, if◌then◌else◌, bit_and, bit_or,
}
use mips64_emulator.Base.Int.{ltb_ℤ, signed64}
use mips64_emulator.Memory.{update}
use mips64_emulator.Memory.Spec.{le_value, le_bytes}
use mips64_emulator.Jit.{truth}

-- An operation on two 64-bit words.
pub data Alu : Type 0 where
  add or and sub xor mul : Alu

unfoldable pub alu : Alu → ℕ → ℕ → ℕ
alu add a b = (a + b) % 2 ^ 64
alu or a b = bit_or a b
alu and a b = bit_and a b
alu sub a b = (a + 2 ^ 64 - b) % 2 ^ 64
alu xor a b = bit_xor a b
alu mul a b = a * b % 2 ^ 64

-- Shifts by less than 64 bits; the one to the right keeps the sign.
pub data Shift : Type 0 where
  left right : Shift

abbrev pub shifted_word : Shift → ℕ → ℕ → ℕ
shifted_word left a c = a * 2 ^ c % 2 ^ 64
shifted_word right a c = if ltb a (2 ^ 63) then a / 2 ^ c else 2 ^ 64 - 1 - (2 ^ 64 - 1 - a) / 2 ^ c

-- An access of 4 or of 8 bytes.
pub data Size : Type 0 where
  four eight : Size

abbrev pub bytes_in : Size → ℕ
bytes_in four = 4
bytes_in eight = 8

-- The conditions of SETL and SETE.
pub data Condition : Type 0 where
  less equal : Condition

-- `op a d s` writes `d`; `compare d s` and `compare_imm d imm8`; `set c d` writes the lowest byte and
-- `zero_extend d s` reads it; `shift k d` is by CL; a `load` and a `store` name the register, the
-- register with the address, and what is added to it; `test d` is of 32 bits. The jumps on the
-- zero flag are taken where it has the value they name.
pub data Ins : Type 0 where
  move : ℕ → ℕ → Ins
  move_imm : ℕ → ℕ → Ins
  op : Alu → ℕ → ℕ → Ins
  compare : ℕ → ℕ → Ins
  compare_imm : ℕ → ℕ → Ins
  set : Condition → ℕ → Ins
  zero_extend : ℕ → ℕ → Ins
  push pop : ℕ → Ins
  shift : Shift → ℕ → Ins
  load store : Size → ℕ → ℕ → ℕ → Ins
  test : ℕ → Ins
  jump : ℕ → Ins
  jump_if : Bool → ℕ → Ins
  extend_sign : Ins
  divide : ℕ → Ins

abbrev pub Registers : Type 0
Registers = ℕ → ℕ

pub record Machine : Type 0 where
  pub registers : Registers
  pub memory : ℕ → ℕ

abbrev pub set_registers : Registers → Machine → Machine
set_registers r m = record m { registers = r }

-- The zero flag, and whether the sign flag differs from the overflow flag; `unknown` behind an
-- instruction of which this description does not say it.
pub data Flags : Type 0 where
  unknown : Flags
  known : Bool → Bool → Flags

-- An execution goes on, or has taken a jump, or met what is not described here, such as a division
-- that traps.
pub data Execution : Type 0 where
  running : Machine → Flags → Execution
  jumped : ℕ → Machine → Execution
  stuck : Execution

abbrev pub signed_imm : ℕ → ℕ
signed_imm v = if ltb v (2 ^ 31) then v else v + 2 ^ 64 - 2 ^ 32

abbrev pub signed_imm8 : ℕ → ℕ
signed_imm8 v = if ltb v (2 ^ 7) then v else v + 2 ^ 64 - 2 ^ 8

-- An address has 64 bits.
abbrev pub store_bytes : (ℕ → ℕ) → ℕ → List ℕ → ℕ → ℕ
store_bytes f a [] = f
store_bytes f a (b ∷ bs) = store_bytes (update f (a % 2 ^ 64) b) (a + 1) bs

abbrev pub load_bytes : (ℕ → ℕ) → ℕ → ℕ → List ℕ
load_bytes f a zero = []
load_bytes f a (suc n) = f (a % 2 ^ 64) ∷ load_bytes f (a + 1) n

abbrev pub stack_pointer : ℕ
stack_pointer = 4

abbrev pub below_stack : Registers → ℕ
below_stack r = (r stack_pointer + 2 ^ 64 - 8) % 2 ^ 64

unfoldable pub pushed : ℕ → Machine → Machine
pushed s m = record {
  registers = update m.registers stack_pointer (below_stack m.registers);
  memory = store_bytes m.memory (below_stack m.registers) (le_bytes 8 (m.registers s));
}

unfoldable pub popped : ℕ → Machine → Machine
popped d m =
    let r = m.registers in
    let above = update r stack_pointer ((r stack_pointer + 8) % 2 ^ 64) in
    set_registers (update above d (le_value (load_bytes m.memory (r stack_pointer) 8))) m

abbrev pub holds : Condition → Bool → Bool → Bool
holds less zero_flag differs = differs
holds equal zero_flag differs = zero_flag

-- Registers 0 and 2 hold the dividend, and then the quotient and the remainder.
abbrev pub divided : ℕ → Registers → Registers
divided b r = let a = r 2 * 2 ^ 64 + r 0 in update (update r 2 (a % b)) 0 (a / b)

-- Described are divisions of a number that is not negative by a positive one.
abbrev pub divides : ℕ → Registers → Bool
divides b r =
    ltb 0 b && ltb b (2 ^ 63) && ltb (r 2) (2 ^ 63) && ltb ((r 2 * 2 ^ 64 + r 0) / b) (2 ^ 63)

unfoldable pub execute_ins : Ins → Machine → Flags → Execution
unfolding alu pushed popped
execute_ins (move d s) m f = running (set_registers (update m.registers d (m.registers s)) m) f
execute_ins (move_imm d v) m f = running (set_registers (update m.registers d (signed_imm v)) m) f
execute_ins (op a d s) m f =
    running (set_registers (update m.registers d (alu a (m.registers d) (m.registers s))) m) unknown
execute_ins (compare d s) m f = running m (
    known (m.registers d == m.registers s)
      (ltb_ℤ (signed64 (m.registers d)) (signed64 (m.registers s))))
execute_ins (compare_imm d v) m f = running m (
    known (m.registers d == signed_imm8 v)
      (ltb_ℤ (signed64 (m.registers d)) (signed64 (signed_imm8 v))))
execute_ins (set c d) m unknown = stuck
execute_ins (set c d) m (known z l) =
    running
      (set_registers (update m.registers d (m.registers d / 2 ^ 8 * 2 ^ 8 + truth (holds c z l))) m)
      (known z l)
execute_ins (zero_extend d s) m f =
    running (set_registers (update m.registers d (m.registers s % 2 ^ 8)) m) f
execute_ins (push s) m f = running (pushed s m) f
execute_ins (pop d) m f = running (popped d m) f
execute_ins (shift k d) m f =
    running
      (set_registers (update m.registers d (shifted_word k (m.registers d) (m.registers 1 % 64))) m)
      unknown
execute_ins (load w d a v) m f =
    running
      (set_registers
        (update m.registers d
          (le_value (load_bytes m.memory (m.registers a + signed_imm v) (bytes_in w))))
        m)
      f
execute_ins (store w s a v) m f =
    running
      (record m {
        memory =
            store_bytes m.memory (m.registers a + signed_imm v)
              (le_bytes (bytes_in w) (m.registers s));
      })
      f
execute_ins (test d) m f =
    let v = m.registers d % 2 ^ 32 in running m (known (v == 0) (leb (2 ^ 31) v))
execute_ins (jump v) m f = jumped v m
execute_ins (jump_if b v) m unknown = stuck
execute_ins (jump_if true v) m (known true l) = jumped v m
execute_ins (jump_if true v) m (known false l) = running m (known false l)
execute_ins (jump_if false v) m (known true l) = running m (known true l)
execute_ins (jump_if false v) m (known false l) = jumped v m
execute_ins extend_sign m f =
    running
      (set_registers
        (update m.registers 2 (if ltb (m.registers 0 % 2 ^ 32) (2 ^ 31) then 0 else 2 ^ 32 - 1)) m)
      f
execute_ins (divide s) m f =
    if divides (m.registers s) m.registers
    then running (set_registers (divided (m.registers s) m.registers) m) unknown
    else stuck
