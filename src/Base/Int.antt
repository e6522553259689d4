-- ===== src/Base/Int.antt =====
-- Signed integers over the native numbers, and the casts between `intN_t` and `uintN_t`.
use mathlib.Core.Bool.{Bool}
use Prim.Native.Nat.{ℕ, suc, ◌+◌, ◌-◌, ◌%◌, ◌^◌}
use mips64_emulator.Base.Tests.{ltb, leb, if◌then◌else◌}

-- `negsuc n` is -(n + 1).
pub data ℤ : Type 0 where
  pos : ℕ → ℤ
  negsuc : ℕ → ℤ

abbrev pub pos_part : ℤ → ℕ
pos_part (pos n) = n
pos_part (negsuc n) = 0

abbrev pub neg_part : ℤ → ℕ
neg_part (pos n) = 0
neg_part (negsuc n) = suc n

-- a - b, as an integer.
abbrev pub sub_ℕ : ℕ → ℕ → ℤ
sub_ℕ a b = if leb b a then pos (a - b) else negsuc (b - a - 1)

infixl 65 ◌+ℤ◌
unfoldable pub ◌+ℤ◌ : ℤ → ℤ → ℤ
a +ℤ b = sub_ℕ (pos_part a + pos_part b) (neg_part a + neg_part b)

abbrev pub ltb_ℤ : ℤ → ℤ → Bool
ltb_ℤ a b = ltb (pos_part a + neg_part b) (pos_part b + neg_part a)

-- The integer that a bit pattern stands for, in two's complement.
abbrev pub signed16 : ℕ → ℤ
signed16 w = if ltb w (2 ^ 15) then pos w else negsuc (2 ^ 16 - w - 1)

abbrev pub signed32 : ℕ → ℤ
signed32 w = if ltb w (2 ^ 31) then pos w else negsuc (2 ^ 32 - w - 1)

abbrev pub signed64 : ℕ → ℤ
signed64 w = if ltb w (2 ^ 63) then pos w else negsuc (2 ^ 64 - w - 1)

-- `(uint32_t)` and `(uint64_t)` of a signed value: the remainder by the modulus.
abbrev pub ℤ_to_u32 : ℤ → ℕ
ℤ_to_u32 (pos n) = n % 2 ^ 32
ℤ_to_u32 (negsuc n) = 2 ^ 32 - 1 - n % 2 ^ 32

abbrev pub ℤ_to_u64 : ℤ → ℕ
ℤ_to_u64 (pos n) = n % 2 ^ 64
ℤ_to_u64 (negsuc n) = 2 ^ 64 - 1 - n % 2 ^ 64

-- `(int32_t)` of a wider signed value.
abbrev pub ℤ_to_i32 : ℤ → ℤ
ℤ_to_i32 a = signed32 (ℤ_to_u32 a)
