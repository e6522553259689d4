-- ===== src/Execute/Arith.antt =====
-- src/mips64/execute.c: the sums that the instructions write, as numbers and as signed integers.
use mips64_emulator.Base.{
  ℕ, ◌+◌, ◌-◌, ◌/◌, ◌%◌, ◌^◌, ◌<◌, ◌≡◌, refl, arith, Bool, not, some, done, get_elem?, ltb, ◌==◌,
  ◌||◌, if◌then◌else◌, u32, u64,
}
use mips64_emulator.Base.Int.{◌+ℤ◌, ltb_ℤ, signed16, signed32, signed64, ℤ_to_u64, ℤ_to_i32}
use mips64_emulator.Types.{ok, integer_overflow}
use mips64_emulator.Cpu.{Cpu, IsValid}
use mips64_emulator.Cpu.Valid.{with_gpr, write_gpr-with_gpr}
use mips64_emulator.Decode.{Decoded}
use mips64_emulator.Execute.{
  sign_extension, execute_daddiu, execute_addu, execute_add, execute_daddu, int32_min, int32_max,
}

-- A 32-bit result as MIPS64 keeps it in a register: bit 31 repeated above.
abbrev pub extended32 : ℕ → ℕ
extended32 w = if ltb w (2 ^ 31) then w else w + 2 ^ 64 - 2 ^ 32

-- The state after an instruction that writes `value` to register `index`.
abbrev pub after : Cpu → ℕ → ℕ → Cpu
after cpu index value = record (with_gpr cpu index value) { pc = u64 (cpu.pc + 4) }

-- A 16-bit immediate keeps its signed value when it is sign extended, and the result fits 64
-- bits.
sign_extension-signed64 :
    (value : ℕ)
    → value < 2 ^ 16
    → (signed64 (sign_extension value) ≡ signed16 value) × (sign_extension value < 2 ^ 64)
unfolding sign_extension
sign_extension-signed64 value h = ground arith

wrapped_sum :
    (a b : ℕ)
    → ℤ_to_u64 (ℤ_to_i32 (signed32 (u32 a) +ℤ signed32 (u32 b))) ≡ extended32 ((a + b) % 2 ^ 32)
unfolding ◌+ℤ◌
wrapped_sum a b = ground arith

signed_sum :
    (a imm : ℕ)
    → a < 2 ^ 64
    → imm < 2 ^ 16
    → u64 (a + sign_extension imm) ≡ ℤ_to_u64 (signed64 a +ℤ signed16 imm)
unfolding sign_extension ◌+ℤ◌
signed_sum a imm h k = ground arith

-- The manual's test: the low words, each with its bit 31 repeated once, are added to 33 bits; the
-- sum overflows if its bits 32 and 31 differ.
abbrev pub widened33 : ℕ → ℕ
widened33 a = if ltb (u32 a) (2 ^ 31) then u32 a else u32 a + 2 ^ 32

abbrev pub overflows33 : ℕ → ℕ → Bool
overflows33 a b =
    let sum = (widened33 a + widened33 b) % 2 ^ 33 in not (sum / 2 ^ 32 == sum / 2 ^ 31 % 2)

overflow_test :
    (a b : ℕ)
    → (let temp = signed32 (u32 a) +ℤ signed32 (u32 b) in
        ltb_ℤ int32_max temp || ltb_ℤ temp int32_min)
      ≡ overflows33 a b
unfolding ◌+ℤ◌
overflow_test a b = ground arith

module _ (cpu : Cpu) (i : Decoded) (v : IsValid cpu) (a b : ℕ)
    (has_a : get_elem? cpu.gpr i.rs ≡ some a) (has_b : get_elem? cpu.gpr i.rt ≡ some b) where
  -- DADDU on a valid processor, with source registers that exist and a target below 32, writes
  -- the sum of the two registers modulo 2 ^ 64 and moves the PC on by 4.
  pub execute_daddu-after :
      i.rd < 32
      → execute_daddu (some cpu) (some i) ≡ done (ok, some (after cpu i.rd ((a + b) % 2 ^ 64)))
  unfolding execute_daddu
  execute_daddu-after h =
      rw (has_a, has_b, write_gpr-with_gpr cpu i.rd ((a + b) % 2 ^ 64) v.registers h)

  -- ADDU on a valid processor, with source registers that exist and a target below 32, writes
  -- the sum of the low words modulo 2 ^ 32, sign extended, whatever the high words, and moves
  -- the PC on by 4.
  execute_addu-after :
      i.rd < 32
      → execute_addu (some cpu) (some i)
        ≡ done (ok, some (after cpu i.rd (extended32 ((a + b) % 2 ^ 32))))
  unfolding execute_addu
  execute_addu-after h =
      rw (has_a, has_b, wrapped_sum a b, write_gpr-with_gpr cpu i.rd _ v.registers h)

  -- DADDIU on a valid processor, with a source register that holds a 64-bit word, a target below
  -- 32 and a 16-bit immediate, adds the signed immediate to the signed register modulo 2 ^ 64
  -- and moves the PC on by 4.
  pub execute_daddiu-after :
      a < 2 ^ 64
      → i.immediate < 2 ^ 16
      → i.rt < 32
      → execute_daddiu (some cpu) (some i)
        ≡ done (ok, some (after cpu i.rt (ℤ_to_u64 (signed64 a +ℤ signed16 i.immediate))))
  unfolding execute_daddiu
  execute_daddiu-after word imm h =
      rw (has_a, signed_sum a i.immediate word imm, write_gpr-with_gpr cpu i.rt _ v.registers h)

  -- ADD on a valid processor, with source registers that exist and a target below 32: an
  -- overflow of the 33-bit sum of the sign-extended low words is reported and changes nothing;
  -- otherwise the target gets the sum of the low words modulo 2 ^ 32, sign extended, and the PC
  -- moves on by 4.
  pub execute_add-after :
      i.rd < 32
      → execute_add (some cpu) (some i) ≡ (
          if overflows33 a b
          then done (integer_overflow, some cpu)
          else done (ok, some (after cpu i.rd (extended32 ((a + b) % 2 ^ 32)))))
  unfolding execute_add
  execute_add-after h =
      rw
        (
          has_a,
          has_b,
          wrapped_sum a b,
          overflow_test a b,
          write_gpr-with_gpr cpu i.rd (extended32 ((a + b) % 2 ^ 32)) v.registers h,
        )
        refl
