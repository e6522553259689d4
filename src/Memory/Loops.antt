-- ===== src/Memory/Loops.antt =====
-- The eight-byte loops of `mips64_memory_read64` and `mips64_memory_write64`.
use mathlib.Core.List.{reverse, reverse_aux-eq}
use native.Mathlib.Nat.{pow-le-pow_right, one-le-pow}
use native.Mathlib.Numerals.{towards_suc}
use mips64_emulator.Base.{
  ap, ℕ, zero, suc, ◌+◌, ◌-◌, ◌*◌, ◌^◌, ◌≤◌, ◌<◌, ◌≡◌, refl, arith, List, [], ◌∷◌, ◌++◌, length,
  done, u64, ◌<<◌, length-append,
}
use mips64_emulator.Base.Bits.{bit_or-shifted, shifted-bit_or}
use mips64_emulator.Memory.{Memory, update, max_size, gather, scatter}
use mips64_emulator.Memory.Spec.{le_value, run_at, overlay, HoldsBytes}
use mips64_emulator.Memory.Checks.{load-lt, store-lt}

-- 2 ^ (8 * (n + 1)) is 256 * 2 ^ (8 * n).
pub byte_pow : (n : ℕ) → 2 ^ (suc n * 8) ≡ 256 * 2 ^ (n * 8)
byte_pow n = let e : suc n * 8 ≡ n * 8 + 8 = omega arith in rw e (simp towards_suc (omega arith))

pub byte_pow_add : (n : ℕ) → 2 ^ ((n + 1) * 8) ≡ 256 * 2 ^ (n * 8)
byte_pow_add n = let e : n + 1 ≡ suc n = omega arith in rw e (byte_pow n)

pub byte_pow-le : (n : ℕ) → n ≤ 8 → 2 ^ (n * 8) ≤ 2 ^ 64
byte_pow-le n h = pow-le-pow_right (omega arith) {j = 64} (omega arith)

pub length-reverse {ℓ} : {A : Type ℓ} (xs : List A) → length (reverse xs) ≡ length xs
length-reverse [] = refl
length-reverse (x ∷ xs) =
    rw (reverse_aux-eq xs (x ∷ []), length-append) (omega (arith, length-reverse xs))

pub le_value-append :
    (xs ys : List ℕ) → le_value (xs ++ ys) ≡ le_value xs + 2 ^ (length xs * 8) * le_value ys
le_value-append [] ys = omega arith
le_value-append (x ∷ xs) ys =
    omega (arith, le_value-append xs ys, ap (λ (t : ℕ). t * le_value ys) (byte_pow (length xs)))

-- A byte shifted into place does not leave 64 bits.
shifted_byte : (b n : ℕ) → b < 256 → b * 2 ^ (n * 8) + 2 ^ (n * 8) ≤ 2 ^ (suc n * 8)
shifted_byte b n h = grind (arith, byte_pow n)

unwrapped_byte : (b n : ℕ) → b < 256 → n < 8 → u64 (b << (n * 8)) ≡ b * 2 ^ (n * 8)
unwrapped_byte b n h k =
    omega (arith, shifted_byte b n h, byte_pow-le (suc n) k, one-le-pow (n * 8) 2)

pub length-run_at : (f : ℕ → ℕ) (a n : ℕ) → length (run_at f a n) ≡ n
length-run_at f a zero = refl
length-run_at f a (suc n) = ap suc (length-run_at f (a + 1) n)

-- The first byte of a reversed run is its most significant one.
pub le_value-reverse_run :
    (f : ℕ → ℕ) (a n : ℕ)
    → le_value (reverse (run_at f a (suc n)))
      ≡ le_value (reverse (run_at f (a + 1) n)) + f a * 2 ^ (n * 8)
le_value-reverse_run f a n =
    rw
      (
        reverse_aux-eq (run_at f (a + 1) n) (f a ∷ []),
        le_value-append (reverse (run_at f (a + 1) n)) (f a ∷ []),
        length-reverse (run_at f (a + 1) n),
        length-run_at f (a + 1) n,
      )
      (omega arith)

module _ (mem : Memory) (address : ℕ) (bytes : HoldsBytes mem) where
  pub gather-little :
      (left i value : ℕ)
      → i + left ≤ 8
      → address + i + left ≤ max_size
      → value < 2 ^ (i * 8)
      → gather (λ i. i * 8) mem address left i value
        ≡ done (value + 2 ^ (i * 8) * le_value (run_at mem.memory (address + i) left))
  unfolding gather
  gather-little zero i value hi h lt = ap done (omega arith)
  gather-little (suc left) i value hi h lt =
      let b = mem.memory (address + i) in
      let e : address + (i + 1) ≡ address + i + 1 = omega arith in
      let fits : value + b * 2 ^ (i * 8) < 2 ^ ((i + 1) * 8) =
        omega (arith, shifted_byte b i (bytes (address + i)), byte_pow i, byte_pow_add i) in
      let rest =
        gather-little left (i + 1) (value + b * 2 ^ (i * 8)) (omega arith) (omega arith) fits in
      rw
        (
          load-lt mem address i (omega arith),
          unwrapped_byte b i (bytes (address + i)) (omega arith),
          bit_or-shifted (i * 8) b value lt,
          rest,
          e,
        )
        (ap done (
          omega (
            arith,
            ap (λ (t : ℕ). t * le_value (run_at mem.memory (address + i + 1) left))
                (byte_pow_add i),
          )))

  pub gather-big :
      (left i high : ℕ)
      → i + left ≡ 8
      → address + i + left ≤ max_size
      → gather (λ i. (7 - i) * 8) mem address left i (high * 2 ^ (left * 8))
        ≡ done (high * 2 ^ (left * 8) + le_value (reverse (run_at mem.memory (address + i) left)))
  unfolding gather
  gather-big zero i high hi h = ap done (omega arith)
  gather-big (suc left) i high hi h =
      let b = mem.memory (address + i) in
      let e : address + (i + 1) ≡ address + i + 1 = omega arith in
      let place : 7 - i ≡ left = omega arith in
      let split : high * 2 ^ (suc left * 8) ≡ high * 256 * 2 ^ (left * 8) =
        omega (arith, ap (λ (t : ℕ). high * t) (byte_pow left)) in
      let joined : high * 2 ^ (suc left * 8) + b * 2 ^ (left * 8)
          ≡ (high * 256 + b) * 2 ^ (left * 8) =
        omega (arith, split) in
      rw
        (
          load-lt mem address i (omega arith),
          place,
          unwrapped_byte b left (bytes (address + i)) (omega arith),
          shifted-bit_or (suc left * 8) high (b * 2 ^ (left * 8))
              (omega (arith, shifted_byte b left (bytes (address + i)), one-le-pow (left * 8) 2)),
          joined,
          gather-big left (i + 1) (high * 256 + b) (omega arith) (omega arith),
          e,
        )
        (ap done (omega (arith, split, le_value-reverse_run mem.memory (address + i) left)))

-- The store loop lays `left` bytes over the memory, whatever they are.
abbrev pub tabulate : (ℕ → ℕ) → ℕ → ℕ → List ℕ
tabulate f i zero = []
tabulate f i (suc n) = f i ∷ tabulate f (i + 1) n

pub scatter-overlay :
    (byte : ℕ → ℕ) (left i : ℕ) (mem : Memory) (address : ℕ)
    → address + i + left ≤ max_size
    → scatter byte mem address left i
      ≡ done (record mem { memory = overlay mem.memory (address + i) (tabulate byte i left) })
unfolding scatter
scatter-overlay byte zero i mem address h = refl
scatter-overlay byte (suc left) i mem address h =
    let e : address + (i + 1) ≡ address + i + 1 = omega arith in
    let m = record mem { memory = update mem.memory (address + i) (byte i) } in
    rw (store-lt mem address i (byte i) (omega arith))
      (rw e at (scatter-overlay byte left (i + 1) m address (omega arith)))
