-- ===== src/Base/Xor.antt =====
-- `^` and `&` of C at numbers that are split at a bit.
use Prim.Native.Nat.{
  ℕ, zero, suc, ◌+◌, ◌-◌, ◌*◌, ◌/◌, ◌%◌, ◌^◌, ◌≤◌, ◌<◌, differ, bit_and, bit_xor, bit_xor-bitwise,
}
use mathlib.Core.Path.{◌≡◌, refl}
use native.Mathlib.Nat.{pow-suc}
use native.Mathlib.Omega.{arith}
use mips64_emulator.Base.Bits.{digits_enough, bit_and-digit, bit_and-zero, double_shift}

pub bit_xor-digit : (a b : ℕ) → bit_xor a b ≡ 2 * bit_xor (a / 2) (b / 2) + differ (a % 2) (b % 2)
bit_xor-digit zero b =
    let e : differ 0 (b % 2) ≡ b % 2 = refl in
    omega (arith, e, bit_xor-bitwise 0 b, bit_xor-bitwise 0 (b / 2))
bit_xor-digit (suc a) b = omega (
  arith,
  bit_xor-bitwise (suc a) b,
  bit_xor-bitwise (suc a / 2) (b / 2),
  digits_enough (λ y. y) differ a (suc a / 2) (suc a / 2) (b / 2) (omega arith) (omega arith),
)

differ-zero : (a : ℕ) → differ a 0 ≡ a
differ-zero zero = refl
differ-zero (suc a) = refl

differ-lt_two : (a b : ℕ) → a < 2 → b < 2 → differ a b < 2
differ-lt_two zero b p q = q
differ-lt_two (suc zero) zero p q = omega arith
differ-lt_two (suc zero) (suc b) p q = omega arith
differ-lt_two (suc (suc a)) b p q = absurd (omega arith)

bit_xor-zero_below : (k a : ℕ) → a ≤ k → bit_xor a 0 ≡ a
bit_xor-zero_below k zero h = refl
bit_xor-zero_below zero (suc a) h = absurd (omega arith)
bit_xor-zero_below (suc k) (suc a) h = omega (
  arith,
  bit_xor-digit (suc a) 0,
  differ-zero (suc a % 2),
  bit_xor-zero_below k (suc a / 2) (omega arith),
)

pub bit_xor-zero : (a : ℕ) → bit_xor a 0 ≡ a
bit_xor-zero a = bit_xor-zero_below a a (omega arith)

-- Numbers below a power of two stay below it.
pub bit_xor-lt : (k a b : ℕ) → a < 2 ^ k → b < 2 ^ k → bit_xor a b < 2 ^ k
bit_xor-lt zero a b p q =
    let ea : a ≡ 0 = omega arith in
    let eb : b ≡ 0 = omega arith in rw (ea, eb) (omega (arith, bit_xor-zero 0))
bit_xor-lt (suc k) a b p q = omega (
  arith,
  bit_xor-digit a b,
  differ-lt_two (a % 2) (b % 2) (omega arith) (omega arith),
  pow-suc 2 k,
  bit_xor-lt k (a / 2) (b / 2) (omega (arith, pow-suc 2 k)) (omega (arith, pow-suc 2 k)),
)

-- The fields above and below bit `k` do not mix.
pub bit_xor-split :
    (k q r p s : ℕ)
    → r < 2 ^ k
    → s < 2 ^ k
    → bit_xor (q * 2 ^ k + r) (p * 2 ^ k + s) ≡ bit_xor q p * 2 ^ k + bit_xor r s
bit_xor-split zero q r p s hr hs =
    let er : r ≡ 0 = omega arith in
    let es : s ≡ 0 = omega arith in
    let eq : q * 2 ^ 0 + 0 ≡ q = omega arith in
    let ep : p * 2 ^ 0 + 0 ≡ p = omega arith in rw (er, es, eq, ep) (omega (arith, bit_xor-zero 0))
bit_xor-split (suc k) q r p s hr hs =
    let er : (q * 2 ^ suc k + r) / 2 ≡ q * 2 ^ k + r / 2 = omega (arith, double_shift q k) in
    let es : (p * 2 ^ suc k + s) / 2 ≡ p * 2 ^ k + s / 2 = omega (arith, double_shift p k) in
    let mr : (q * 2 ^ suc k + r) % 2 ≡ r % 2 = omega (arith, double_shift q k) in
    let ms : (p * 2 ^ suc k + s) % 2 ≡ s % 2 = omega (arith, double_shift p k) in
    let below : (x : ℕ) → x < 2 ^ suc k → x / 2 < 2 ^ k = λ x h. omega (arith, pow-suc 2 k) in
    omega (
      arith,
      rw (er, es, mr, ms) at (bit_xor-digit (q * 2 ^ suc k + r) (p * 2 ^ suc k + s)),
      bit_xor-digit r s,
      double_shift (bit_xor q p) k,
      bit_xor-split k q (r / 2) p (s / 2) (below r hr) (below s hs),
    )

pub bit_and-split :
    (k q r p s : ℕ)
    → r < 2 ^ k
    → s < 2 ^ k
    → bit_and (q * 2 ^ k + r) (p * 2 ^ k + s) ≡ bit_and q p * 2 ^ k + bit_and r s
bit_and-split zero q r p s hr hs =
    let er : r ≡ 0 = omega arith in
    let es : s ≡ 0 = omega arith in
    let eq : q * 2 ^ 0 + 0 ≡ q = omega arith in
    let ep : p * 2 ^ 0 + 0 ≡ p = omega arith in rw (er, es, eq, ep) (omega (arith, bit_and-zero 0))
bit_and-split (suc k) q r p s hr hs =
    let er : (q * 2 ^ suc k + r) / 2 ≡ q * 2 ^ k + r / 2 = omega (arith, double_shift q k) in
    let es : (p * 2 ^ suc k + s) / 2 ≡ p * 2 ^ k + s / 2 = omega (arith, double_shift p k) in
    let mr : (q * 2 ^ suc k + r) % 2 ≡ r % 2 = omega (arith, double_shift q k) in
    let ms : (p * 2 ^ suc k + s) % 2 ≡ s % 2 = omega (arith, double_shift p k) in
    let below : (x : ℕ) → x < 2 ^ suc k → x / 2 < 2 ^ k = λ x h. omega (arith, pow-suc 2 k) in
    omega (
      arith,
      rw (er, es, mr, ms) at (bit_and-digit (q * 2 ^ suc k + r) (p * 2 ^ suc k + s)),
      bit_and-digit r s,
      double_shift (bit_and q p) k,
      bit_and-split k q (r / 2) p (s / 2) (below r hr) (below s hs),
    )

-- A number and its complement have no bit in common.
pub bit_and-complement : (k a : ℕ) → a < 2 ^ k → bit_and a (2 ^ k - 1 - a) ≡ 0
bit_and-complement zero a h = let e : a ≡ 0 = omega arith in rw e (omega (arith, bit_and-zero 0))
bit_and-complement (suc k) a h =
    let e : (2 ^ suc k - 1 - a) / 2 ≡ 2 ^ k - 1 - a / 2 = omega (arith, pow-suc 2 k) in
    omega (
      arith,
      rw e at (bit_and-digit a (2 ^ suc k - 1 - a)),
      pow-suc 2 k,
      bit_and-complement k (a / 2) (omega (arith, pow-suc 2 k)),
    )
