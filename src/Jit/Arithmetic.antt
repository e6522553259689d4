-- ===== src/Jit/Arithmetic.antt =====
-- What the arithmetic of src/mips64/jit_compiler_x64.c is to do: three operands, where the number
-- of JIT_R0 stands for zero, and as an operand to write for none.
pub mod Laws
pub mod Means
pub mod Operations
pub mod Steps
pub mod Program
pub mod Overlap
pub mod Stack
pub mod Shifts
pub mod Compares
pub mod Loads
use mips64_emulator.Base.{
  ℕ, zero, suc, ◌+◌, ◌*◌, ◌/◌, ◌%◌, ◌^◌, ◌<◌, ◌≡◌, ◌≢◌, Bool, true, false, not, ◌&&◌, ◌||◌, ◌==◌,
  if◌then◌else◌, List, [], ◌∷◌,
}
use mips64_emulator.Base.Int.{ℤ, pos, negsuc, ℤ_to_u64, ltb_ℤ, signed64}
use mips64_emulator.Memory.{update}
use mips64_emulator.Memory.Spec.{le_value, le_bytes}
use mips64_emulator.Jit.{◌==ℤ◌, truth}
use mips64_emulator.Jit.Instructions.{r0}
use mips64_emulator.Jit.Ops.{
  Op, op_add, op_addi, op_sub, op_mul, op_and, op_or, op_xor, op_shiftl, op_shiftr, op_less,
  op_load32, op_load64,
}
use mips64_emulator.Jit.X64.{
  Alu, add, or, and, sub, xor, mul, alu, Registers, Machine, set_registers, Shift, left, right,
  shifted_word, Size, four, eight, bytes_in, store_bytes, load_bytes, below_stack, stack_pointer,
}

-- What an `int` of 32 bits holds.
abbrev pub IsInt : ℤ → Type 0
IsInt (pos n) = n < 2 ^ 31
IsInt (negsuc n) = n < 2 ^ 31

-- The numbers that name an operand: JIT_R0 is -1.
abbrev pub IsRegister : ℤ → Type 0
IsRegister (pos n) = n < 16
IsRegister (negsuc zero) = Unit
IsRegister (negsuc (suc n)) = ⊥

abbrev pub is_none : ℤ → Bool
is_none (pos n) = false
is_none (negsuc n) = true

abbrev pub value : Registers → ℤ → ℕ
value r (pos n) = r n
value r (negsuc n) = 0

abbrev pub set_register : ℤ → ℕ → Registers → Registers
set_register (pos n) v r = update r n v
set_register (negsuc n) v r = r

-- An operation on three operands, and the instruction for it.
pub record Arith : Type 0 where
  pub operation : Alu
  pub to : ℤ
  pub left : ℤ
  pub right : ℤ

abbrev pub op_of : Alu → ℤ → ℤ → ℤ → Op
op_of add = op_add
op_of or = op_or
op_of and = op_and
op_of sub = op_sub
op_of xor = op_xor
op_of mul = op_mul

abbrev pub op_of_arith : Arith → Op
op_of_arith x = op_of x.operation x.to x.left x.right

-- A step of a computation: an operation; a number that is put into a register; a shift of one
-- register by another; a comparison of a register, whose outcome is put into another; a load into
-- a register, from a register and an offset.
pub data Step : Type 0 where
  compute : Arith → Step
  constant : ℕ → ℤ → Step
  shift_by : Shift → ℕ → ℕ → ℕ → Step
  is_less : ℕ → ℕ → ℤ → Step
  fetch : Size → ℕ → ℕ → ℤ → Step

abbrev pub op_of_shift : Shift → ℤ → ℤ → ℤ → Op
op_of_shift left = op_shiftl
op_of_shift right = op_shiftr

abbrev pub op_of_fetch : Size → ℤ → ℤ → ℤ → Op
op_of_fetch four = op_load32
op_of_fetch eight = op_load64

abbrev pub op_of_step : Step → Op
op_of_step (compute x) = op_of_arith x
op_of_step (constant d i) = op_addi (pos d) r0 i
op_of_step (shift_by k d s t) = op_of_shift k (pos d) (pos s) (pos t)
op_of_step (is_less d s t) = op_less (pos d) (pos s) t
op_of_step (fetch w d s o) = op_of_fetch w (pos d) (pos s) o

-- A change of the registers alone.
abbrev pub on : (Registers → Registers) → Machine → Machine
on h m = set_registers (h m.registers) m

-- A shift leaves RCX in the memory below the stack pointer.
abbrev pub shift_meaning : Shift → ℕ → ℕ → ℕ → Machine → Machine
shift_meaning k d s t m =
    let r = m.registers in
    record {
      registers = update r d (shifted_word k (r s) (r t % 64));
      memory = store_bytes m.memory (below_stack r) (le_bytes 8 (r 1));
    }

-- A comparison of two operands leaves its outcome in RAX too.
abbrev pub less_meaning : ℕ → ℕ → ℤ → Registers → Registers
less_meaning d s t r =
    let outcome = truth (ltb_ℤ (signed64 (r s)) (signed64 (value r t))) in
    update (if pos s ==ℤ t then r else update r 0 outcome) d outcome

-- A load by the stack pointer leaves this in RAX. Four bytes are extended by zeros.
abbrev pub fetch_meaning : Size → ℕ → ℕ → ℤ → Machine → Machine
fetch_meaning w d s o m =
    on
      (λ r.
        update (if s == stack_pointer then update r 0 (r s) else r) d
          (le_value (load_bytes m.memory (r s + ℤ_to_u64 o) (bytes_in w))))
      m

unfoldable pub meaning : Step → Machine → Machine
meaning (compute x) =
    on (λ r. set_register x.to (alu x.operation (value r x.left) (value r x.right)) r)
meaning (constant d i) = on (λ r. update r d (ℤ_to_u64 i))
meaning (shift_by k d s t) = shift_meaning k d s t
meaning (is_less d s t) = on (less_meaning d s t)
meaning (fetch w d s o) = fetch_meaning w d s o

unfoldable pub meaning_all : List Step → Machine → Machine
meaning_all [] m = m
meaning_all (x ∷ xs) m = meaning_all xs (meaning x m)

-- The left operand is moved into the register to write before the right one is read.
abbrev pub is_clear : ℤ → ℤ → ℤ → Bool
is_clear d s t = not (t ==ℤ d) || s ==ℤ d || is_none s

-- The operands that the functions' shortcuts serve rightly.
abbrev pub is_served : Alu → ℤ → ℤ → Bool
is_served add s t = true
is_served or s t = true
is_served and s t = not (is_none s) && not (is_none t) || is_none s && is_none t
is_served sub s t = not (is_none s) || is_none t
is_served xor s t = not (s ==ℤ t) || is_none s
is_served mul s t = true

abbrev pub is_sound : Arith → Bool
is_sound x = is_none x.to || is_clear x.to x.left x.right && is_served x.operation x.left x.right

pub record IsArith (x : Arith) : Type 0 where
  pub to : IsRegister x.to
  pub left : IsRegister x.left
  pub right : IsRegister x.right
  pub sound : is_sound x ≡ true

-- A shift counts in RCX, which is put on the stack for that time.
pub record IsShift (d s t : ℕ) : Type 0 where
  pub to : d < 16
  pub left : s < 16
  pub right : t < 16
  pub to_not_count : d ≢ 1
  pub to_not_stack : d ≢ stack_pointer
  pub right_not_stack : t ≢ stack_pointer
  pub clear : is_clear (pos d) (pos s) (pos t) ≡ true

-- R12 as an address would ask for a further byte.
pub record IsFetch (d s : ℕ) (o : ℤ) : Type 0 where
  pub to : d < 16
  pub from : s < 16
  pub plain : s ≢ 12
  pub offset : IsInt o

abbrev pub IsStep : Step → Type 0
IsStep (compute x) = IsArith x
IsStep (constant d i) = (d < 16) × IsInt i
IsStep (shift_by k d s t) = IsShift d s t
IsStep (is_less d s t) = (d < 16) × (s < 16) × IsRegister t
IsStep (fetch w d s o) = IsFetch d s o

abbrev pub IsWords : Registers → Type 0
IsWords r = (n : ℕ) → r n < 2 ^ 64

-- The registers hold 64-bit words, and the memory holds bytes.
pub record IsMachine (m : Machine) : Type 0 where
  pub words : IsWords m.registers
  pub bytes : (a : ℕ) → m.memory a < 2 ^ 8
