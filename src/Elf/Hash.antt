-- ===== src/Elf/Hash.antt =====
-- The symbol hash of src/mips64/elf_loader.c.
use mips64_emulator.Base.{
  ℕ, ◌+◌, ◌-◌, ◌*◌, ◌/◌, ◌%◌, ◌^◌, ◌<◌, ◌≡◌, ◌≢◌, refl, arith, Bool-cases, inl, inr, some, List, [],
  ◌∷◌, ◌++◌, All, done, ◌==◌, bit_and, not, false, if◌then◌else◌, ◌>>◌,
}
use Prim.Native.Nat.{bit_xor}
use mips64_emulator.Base.Bits.{bit_and-mask, bit_and-zero}
use mips64_emulator.Base.Xor.{
  bit_xor-zero, bit_xor-lt, bit_xor-split, bit_and-split, bit_and-complement,
}
use mips64_emulator.Types.{ok}
use mips64_emulator.Elf.{hash_step, hash_loop, hash_table}

-- One round without a branch: 32 bits of `16 * hash + c`, of which the top four are folded onto
-- bits 4 to 7 and dropped.
abbrev pub fold_in : ℕ → ℕ → ℕ
fold_in hash c = let t = (hash * 2 ^ 4 + c) % 2 ^ 32 in bit_xor (t % 2 ^ 28) (t / 2 ^ 28 * 2 ^ 4)

abbrev pub elf_hash : ℕ → List ℕ → ℕ
elf_hash hash [] = hash
elf_hash hash (c ∷ name) = elf_hash (fold_in hash c) name

-- The mask of the top four bits.
top_bits : (h : ℕ) → h < 2 ^ 32 → bit_and h 0xF0000000 ≡ h / 2 ^ 28 * 2 ^ 28
top_bits h w =
    let e : h / 2 ^ 28 * 2 ^ 28 + h % 2 ^ 28 ≡ h = omega arith in
    omega (
      arith,
      rw e at (bit_and-split 28 (h / 2 ^ 28) (h % 2 ^ 28) 15 0 (omega arith) (omega arith)),
      bit_and-mask 4 (h / 2 ^ 28),
      bit_and-zero (h % 2 ^ 28),
    )

-- Cutting the top bits of a word whose lower 28 bits were changed.
cut_top :
    (q r s : ℕ)
    → q < 2 ^ 4
    → r < 2 ^ 28
    → s < 2 ^ 28
    → bit_and (bit_xor (q * 2 ^ 28 + r) s) (2 ^ 32 - 1 - q * 2 ^ 28) ≡ bit_xor r s
cut_top q r s hq hr hs =
    let x = bit_xor r s in
    let lt : x < 2 ^ 28 = bit_xor-lt 28 r s hr hs in
    let plain : 0 * 2 ^ 28 + s ≡ s = omega arith in
    let split : bit_xor (q * 2 ^ 28 + r) s ≡ q * 2 ^ 28 + x =
      omega (arith, rw plain at (bit_xor-split 28 q r 0 s hr hs), bit_xor-zero q) in
    let mask : 2 ^ 32 - 1 - q * 2 ^ 28 ≡ (2 ^ 4 - 1 - q) * 2 ^ 28 + (2 ^ 28 - 1) = omega arith in
    rw (split, mask)
      (omega (
        arith,
        bit_and-split 28 q x (2 ^ 4 - 1 - q) (2 ^ 28 - 1) lt (omega arith),
        bit_and-complement 4 q hq,
        bit_and-mask 28 x,
      ))

folded :
    (h : ℕ)
    → h < 2 ^ 32
    → (let g = bit_and h 0xF0000000 in
        if not (g == 0) then bit_and (bit_xor h (g >> 24)) (2 ^ 32 - 1 - g) else h)
      ≡ bit_xor (h % 2 ^ 28) (h / 2 ^ 28 * 2 ^ 4)
folded h w = rw (top_bits h w) (elim (Bool-cases (h / 2 ^ 28 * 2 ^ 28 == 0)) [
  | inl clear ↦
      let q : h / 2 ^ 28 ≡ 0 = ground arith in
      let r : h % 2 ^ 28 ≡ h = omega arith in rw (clear, q, r) (omega (arith, bit_xor-zero h))
  | inr top ↦
      let shift : h / 2 ^ 28 * 2 ^ 28 / 2 ^ 24 ≡ h / 2 ^ 28 * 2 ^ 4 = omega arith in
      let parts : h / 2 ^ 28 * 2 ^ 28 + h % 2 ^ 28 ≡ h = omega arith in
      rw (top, shift)
        (rw parts at (
          cut_top (h / 2 ^ 28) (h % 2 ^ 28) (h / 2 ^ 28 * 2 ^ 4) (omega arith) (omega arith)
            (omega arith)))
])

hash_step-fold_in : (hash c : ℕ) → hash_step hash c ≡ fold_in hash c
unfolding hash_step
hash_step-fold_in hash c =
    let e : (hash * 2 ^ 4 % 2 ^ 32 + c) % 2 ^ 32 ≡ (hash * 2 ^ 4 + c) % 2 ^ 32 = omega arith in
    rw e (folded ((hash * 2 ^ 4 + c) % 2 ^ 32) (omega arith))

fold_in-lt : (hash c : ℕ) → fold_in hash c < 2 ^ 28
fold_in-lt hash c = bit_xor-lt 28 _ _ (omega arith) (omega arith)

elf_hash-lt : (hash : ℕ) (name : List ℕ) → hash < 2 ^ 28 → elf_hash hash name < 2 ^ 28
elf_hash-lt hash [] h = h
elf_hash-lt hash (c ∷ name) h = elf_hash-lt (fold_in hash c) name (fold_in-lt hash c)

hash_loop-elf_hash :
    (hash : ℕ) (name rest : List ℕ)
    → All (λ c. c ≢ 0) name
    → hash_loop hash (name ++ 0 ∷ rest) ≡ done (elf_hash hash name)
unfolding hash_loop
hash_loop-elf_hash hash [] rest h = refl
hash_loop-elf_hash hash (c ∷ name) rest h =
    let more : (c == 0) ≡ false = ground (arith, h.0) in
    rw (more, hash_step-fold_in hash c) (hash_loop-elf_hash (fold_in hash c) name rest h.1)

-- For a name with no 0 in it, followed by a 0 and anything else, the hash is the one of the
-- System V ABI without branches: each round adds a character to 16 times the hash, folds the top
-- four of 32 bits onto bits 4 to 7 and drops them. The result is below 2 ^ 28.
pub hash_table-elf_hash :
    (old : ℕ) (name rest : List ℕ)
    → All (λ c. c ≢ 0) name
    → (hash_table (some old) (some (name ++ 0 ∷ rest)) ≡ done (ok, some (elf_hash 0 name)))
      × (elf_hash 0 name < 2 ^ 28)
unfolding hash_table
hash_table-elf_hash old name rest h =
    (rw (hash_loop-elf_hash 0 name rest h), elf_hash-lt 0 name (omega arith))
