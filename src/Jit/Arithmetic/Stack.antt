-- ===== src/Jit/Arithmetic/Stack.antt =====
-- Memory of the processor of Jit.X64: what was stored is loaded.
use mips64_emulator.Base.{
  ℕ, zero, suc, ◌+◌, ◌*◌, ◌/◌, ◌%◌, ◌^◌, ◌<◌, ◌≡◌, ◌≢◌, refl, ap, ap₂, ◌∙◌, arith, List, [], ◌∷◌,
  length,
}
use mips64_emulator.Memory.{update}
use mips64_emulator.Memory.Spec.{le_value, le_bytes}
use mips64_emulator.Memory.RoundTrip.{le_value-le_bytes}
use mips64_emulator.Memory.Loops.{byte_pow}
use mips64_emulator.Jit.X64.{store_bytes, load_bytes}

pub store_bytes-apart :
    (f : ℕ → ℕ) (a x : ℕ) (bs : List ℕ)
    → ((i : ℕ) → i < length bs → (a + i) % 2 ^ 64 ≢ x)
    → store_bytes f a bs x ≡ f x
store_bytes-apart f a x [] h = refl
store_bytes-apart f a x (b ∷ bs) h =
    let e : a % 2 ^ 64 ≢ x = λ q. h 0 (omega arith) (omega arith) in
    store_bytes-apart (update f (a % 2 ^ 64) b) (a + 1) x bs
      (λ i lt q. h (i + 1) (omega arith) (omega arith))
    ∙ ground arith

load_bytes-store_bytes :
    (f : ℕ → ℕ) (a : ℕ) (bs : List ℕ)
    → length bs < 2 ^ 64
    → load_bytes (store_bytes f a bs) a (length bs) ≡ bs
load_bytes-store_bytes f a [] h = refl
load_bytes-store_bytes f a (b ∷ bs) h =
    ap₂ ◌∷◌
      (store_bytes-apart (update f (a % 2 ^ 64) b) (a + 1) (a % 2 ^ 64) bs (λ i lt q. omega arith)
        ∙ ground arith)
      (load_bytes-store_bytes (update f (a % 2 ^ 64) b) (a + 1) bs (omega arith))

-- A word of 64 bits that was put at an address.
pub word_back :
    (f : ℕ → ℕ) (a v : ℕ)
    → v < 2 ^ 64
    → le_value (load_bytes (store_bytes f a (le_bytes 8 v)) a 8) ≡ v
word_back f a v h =
    ap le_value (load_bytes-store_bytes f a (le_bytes 8 v) (omega arith)) ∙ le_value-le_bytes 8 v h

-- Stored bytes are bytes, and what is loaded fits.
pub store_bytes-lt :
    (f : ℕ → ℕ) (a n v : ℕ)
    → ((x : ℕ) → f x < 2 ^ 8)
    → (x : ℕ) → store_bytes f a (le_bytes n v) x < 2 ^ 8
store_bytes-lt f a zero v h = h
store_bytes-lt f a (suc n) v h =
    store_bytes-lt (update f (a % 2 ^ 64) (v % 256)) (a + 1) n (v / 256) (λ x. ground (arith, h x))

pub load_bytes-lt :
    (f : ℕ → ℕ) (a n : ℕ) → ((x : ℕ) → f x < 2 ^ 8) → le_value (load_bytes f a n) < 2 ^ (n * 8)
load_bytes-lt f a zero h = omega arith
load_bytes-lt f a (suc n) h = omega (arith, byte_pow n, h (a % 2 ^ 64), load_bytes-lt f (a + 1) n h)
