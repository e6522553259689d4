-- ===== src/Jit/Arithmetic/Laws.antt =====
-- Laws of the operations on words that the code generator counts on: neutral and equal operands.
use Prim.Native.Nat.{bit_xor, bit_xor-bitwise, bit_or-bitwise}
use mips64_emulator.Base.{
  ℕ, zero, suc, ◌/◌, ◌^◌, ◌<◌, ◌≤◌, ◌≡◌, ◌≢◌, refl, arith, bit_or, bit_and, true, false,
}
use native.Mathlib.Nat.{pow-suc}
use mips64_emulator.Base.Xor.{bit_xor-zero, bit_xor-lt}
use mips64_emulator.Base.Int.{ℤ, pos}
use mips64_emulator.Jit.{◌==ℤ◌}
use mips64_emulator.Jit.X64.{Alu, add, or, and, sub, xor, mul, alu}
use mips64_emulator.Jit.Arithmetic.{is_none, is_served}
use mips64_emulator.Base.Bits.{bit_or-zero, bit_or-digit, bit_and-digit}

pub bit_or-zero_left : (a : ℕ) → bit_or 0 a ≡ a
bit_or-zero_left a = omega (arith, bit_or-bitwise 0 a)

pub bit_xor-zero_left : (a : ℕ) → bit_xor 0 a ≡ a
bit_xor-zero_left a = omega (arith, bit_xor-bitwise 0 a)

bit_or-same_below : (k a : ℕ) → a ≤ k → bit_or a a ≡ a
bit_or-same_below k zero h = refl
bit_or-same_below zero (suc a) h = absurd (omega arith)
bit_or-same_below (suc k) (suc a) h =
    omega (arith, bit_or-digit (suc a) (suc a), bit_or-same_below k (suc a / 2) (omega arith))

pub bit_or-same : (a : ℕ) → bit_or a a ≡ a
bit_or-same a = bit_or-same_below a a (omega arith)

bit_and-same_below : (k a : ℕ) → a ≤ k → bit_and a a ≡ a
bit_and-same_below k zero h = refl
bit_and-same_below zero (suc a) h = absurd (omega arith)
bit_and-same_below (suc k) (suc a) h =
    omega (arith, bit_and-digit (suc a) (suc a), bit_and-same_below k (suc a / 2) (omega arith))

pub bit_and-same : (a : ℕ) → bit_and a a ≡ a
bit_and-same a = bit_and-same_below a a (omega arith)

-- The operations stay below a power of two.
below_half : (k a : ℕ) → a < 2 ^ suc k → a / 2 < 2 ^ k
below_half k a h = omega (arith, pow-suc 2 k)

bit_or-lt : (k a b : ℕ) → a < 2 ^ k → b < 2 ^ k → bit_or a b < 2 ^ k
bit_or-lt zero a b h h' =
    let e : a ≡ 0 = omega arith in
    let e' : b ≡ 0 = omega arith in rw (e, e') (omega (arith, bit_or-zero_left 0))
bit_or-lt (suc k) a b h h' = omega (
  arith,
  bit_or-digit a b,
  pow-suc 2 k,
  bit_or-lt k (a / 2) (b / 2) (below_half k a h) (below_half k b h'),
)

bit_and-lt : (k a b : ℕ) → a < 2 ^ k → b < 2 ^ k → bit_and a b < 2 ^ k
bit_and-lt zero a b h h' =
    let e : a ≡ 0 = omega arith in
    let e' : b ≡ 0 = omega arith in rw (e, e') (omega (arith, bit_and-same 0))
bit_and-lt (suc k) a b h h' = omega (
  arith,
  bit_and-digit a b,
  pow-suc 2 k,
  bit_and-lt k (a / 2) (b / 2) (below_half k a h) (below_half k b h'),
)

pub alu-lt : (a : Alu) (x y : ℕ) → x < 2 ^ 64 → y < 2 ^ 64 → alu a x y < 2 ^ 64
unfolding alu
alu-lt add x y h h' = omega arith
alu-lt or x y h h' = bit_or-lt 64 x y h h'
alu-lt and x y h h' = bit_and-lt 64 x y h h'
alu-lt sub x y h h' = omega arith
alu-lt xor x y h h' = bit_xor-lt 64 x y h h'
alu-lt mul x y h h' = ground arith

-- The shortcuts of the functions, for operands that they serve.
pub alu-none :
    (a : Alu) (s t : ℤ) (x : ℕ)
    → is_served a s t ≡ true
    → is_none s ≡ true
    → is_none t ≡ false
    → x < 2 ^ 64
    → a ≢ mul
    → alu a 0 x ≡ x
unfolding alu
alu-none add s t x h n m l ne = omega arith
alu-none or s t x h n m l ne = bit_or-zero_left x
alu-none and s t x h n m l ne = ground arith
alu-none sub s t x h n m l ne = ground arith
alu-none xor s t x h n m l ne = bit_xor-zero_left x
alu-none mul s t x h n m l ne = absurd (ne refl)

pub alu-none_right :
    (a : Alu) (s t : ℤ) (x : ℕ)
    → is_served a s t ≡ true
    → is_none s ≡ false
    → is_none t ≡ true
    → x < 2 ^ 64
    → a ≢ mul
    → alu a x 0 ≡ x
unfolding alu
alu-none_right add s t x h n m l ne = omega arith
alu-none_right or s t x h n m l ne = bit_or-zero x
alu-none_right and s t x h n m l ne = ground arith
alu-none_right sub s t x h n m l ne = omega arith
alu-none_right xor s t x h n m l ne = bit_xor-zero x
alu-none_right mul s t x h n m l ne = absurd (ne refl)

pub alu-none_both : (a : Alu) → alu a 0 0 ≡ 0
unfolding alu
alu-none_both add = refl
alu-none_both or = bit_or-zero 0
alu-none_both and = bit_and-same 0
alu-none_both sub = refl
alu-none_both xor = bit_xor-zero 0
alu-none_both mul = refl

-- An operation, not the product, that gives an operand back for two equal ones.
pub record HasSameLaw (a : Alu) : Type 0 where
  pub not_mul : a ≢ mul
  pub same :
      (s t x : ℕ) → is_served a (pos s) (pos t) ≡ true → (pos s ==ℤ pos t) ≡ true → alu a x x ≡ x

pub or-HasSameLaw : HasSameLaw or
unfolding alu
or-HasSameLaw = record { not_mul = λ e. cc; same = λ s t x served e. bit_or-same x }

pub and-HasSameLaw : HasSameLaw and
unfolding alu
and-HasSameLaw = record { not_mul = λ e. cc; same = λ s t x served e. bit_and-same x }

pub xor-HasSameLaw : HasSameLaw xor
xor-HasSameLaw = record { not_mul = λ e. cc; same = λ s t x served e. ground arith }
