-- ===== src/Elf/Read.antt =====
-- The field readers of src/mips64/elf_loader.c deliver the numbers that the bytes stand for.
use mathlib.Core.List.{reverse}
use mips64_emulator.Base.{
  ℕ, zero, suc, ◌+◌, ◌*◌, ◌^◌, ◌<◌, ◌≤◌, ◌≡◌, refl, ap, arith, Bool-cases, inl, inr, List, length,
  All, All-get_elem?, Outcome, done, get_or, get_elem?-get_or, if◌then◌else◌, bit_or, u64, ◌<<◌,
}
use mips64_emulator.Base.Bits.{shifted-bit_or}
use mips64_emulator.Memory.Spec.{le_value, run_at}
use mips64_emulator.Memory.Join.{little16, big16, little32, big32}
use mips64_emulator.Memory.Loops.{byte_pow, byte_pow_add, byte_pow-le, le_value-reverse_run}
use mips64_emulator.Elf.Format.{ElfData, Field, half, word, xword, field_size}
use mips64_emulator.Elf.{is_lsb, at, elf_read_u16, elf_read_u32, elf_read_u64, read_down, read_up}

abbrev pub elf_read : Field → List ℕ → ℕ → ElfData → Outcome ℕ
elf_read half = elf_read_u16
elf_read word = elf_read_u32
elf_read xword = elf_read_u64

-- The `n` bytes at an offset, as a number in the byte order of the file.
abbrev pub field_at : List ℕ → ℕ → ℕ → ElfData → ℕ
field_at bytes offset n e =
    let run = run_at (λ k. get_or bytes k 0) offset n in
    if is_lsb e then le_value run else le_value (reverse run)

-- The last byte of a run is its most significant one.
le_value-run_last :
    (f : ℕ → ℕ) (a n : ℕ)
    → le_value (run_at f a (suc n)) ≡ le_value (run_at f a n) + f (a + n) * 2 ^ (n * 8)
le_value-run_last f a zero = let e : a + 0 ≡ a = omega arith in rw e (omega arith)
le_value-run_last f a (suc n) =
    let e : a + 1 + n ≡ a + suc n = omega arith in
    omega (
      arith,
      rw e at (le_value-run_last f (a + 1) n),
      ap (λ (t : ℕ). f (a + suc n) * t) (byte_pow n),
    )

-- One more byte below a value of at most seven.
pushed :
    (value b k : ℕ)
    → value < 2 ^ (k * 8)
    → k < 8
    → b < 256
    → bit_or (u64 (value << 8)) b ≡ value * 256 + b
pushed value b k lt below h =
    let e : u64 (value << 8) ≡ value * 2 ^ 8 =
      omega (arith, byte_pow k, byte_pow-le (suc k) below) in
    rw (e, shifted-bit_or 8 value b h) refl

module _ (bytes : List ℕ) (offset : ℕ) (h : All (λ b. b < 256) bytes) where
  abbrev byte : ℕ → ℕ
  byte k = get_or bytes (offset + k) 0

  at-lt : (k : ℕ) → offset + k < length bytes → at bytes (offset + k) ≡ done (byte k)
  at-lt k p = rw (get_elem?-get_or bytes (offset + k) 0 p)

  byte-lt : (k : ℕ) → offset + k < length bytes → byte k < 256
  byte-lt k p =
      All-get_elem? (λ b. b < 256) bytes (offset + k) h (get_elem?-get_or bytes (offset + k) 0 p)

  -- With `k` bytes read the value is below 2 ^ (8 * k).
  read_down-eq :
      (left k value : ℕ)
      → k + left ≡ 8
      → value < 2 ^ (k * 8)
      → offset + left ≤ length bytes
      → read_down bytes offset left value
        ≡ done (value * 2 ^ (left * 8) + le_value (run_at (λ i. get_or bytes i 0) offset left))
  unfolding read_down
  read_down-eq zero k value e lt p = ap done (omega arith)
  read_down-eq (suc left) k value e lt p =
      let b = byte left in
      let b_lt : b < 256 = byte-lt left (omega arith) in
      let fits : value * 256 + b < 2 ^ ((k + 1) * 8) = omega (arith, byte_pow_add k) in
      rw
        (
          at-lt left (omega arith),
          pushed value b k lt (omega arith) b_lt,
          read_down-eq left (k + 1) (value * 256 + b) (omega arith) fits (omega arith),
        )
        (ap done (
          omega (
            arith,
            le_value-run_last (λ i. get_or bytes i 0) offset left,
            ap (λ (t : ℕ). value * t) (byte_pow left),
          )))

  read_up-eq :
      (left k value : ℕ)
      → k + left ≡ 8
      → value < 2 ^ (k * 8)
      → offset + 8 ≤ length bytes
      → read_up bytes offset left k value
        ≡ done (
            value * 2 ^ (left * 8)
            + le_value (reverse (run_at (λ i. get_or bytes i 0) (offset + k) left)))
  unfolding read_up
  read_up-eq zero k value e lt p = ap done (omega arith)
  read_up-eq (suc left) k value e lt p =
      let b = byte k in
      let b_lt : b < 256 = byte-lt k (omega arith) in
      let fits : value * 256 + b < 2 ^ ((k + 1) * 8) = omega (arith, byte_pow_add k) in
      let next : offset + (k + 1) ≡ offset + k + 1 = omega arith in
      rw
        (
          at-lt k (omega arith),
          pushed value b k lt (omega arith) b_lt,
          read_up-eq left (k + 1) (value * 256 + b) (omega arith) fits p,
          next,
        )
        (ap done (
          omega (
            arith,
            le_value-reverse_run (λ i. get_or bytes i 0) (offset + k) left,
            ap (λ (t : ℕ). value * t) (byte_pow left),
          )))

-- A field of 2, 4 or 8 bytes that lies inside a buffer of bytes is read with no fault, as the
-- number that its bytes stand for in the byte order of the file.
pub elf_read-field_at :
    (t : Field) (bytes : List ℕ) (offset : ℕ) (e : ElfData)
    → All (λ b. b < 256) bytes
    → offset + field_size t ≤ length bytes
    → elf_read t bytes offset e ≡ done (field_at bytes offset (field_size t) e)
unfolding elf_read_u16 elf_read_u32 elf_read_u64
elf_read-field_at half bytes offset e h p =
    let here : offset + 0 ≡ offset = omega arith in
    rw (rw here at (at-lt bytes offset h 0 (omega arith)), at-lt bytes offset h 1 (omega arith))
      (elim (Bool-cases (is_lsb e)) [
        | inl lsb ↦ rw lsb (
            ap done (
              omega (
                arith,
                little16 (get_or bytes offset 0) (get_or bytes (offset + 1) 0)
                    (rw here at (byte-lt bytes offset h 0 (omega arith)))
                    (byte-lt bytes offset h 1 (omega arith)),
                byte-lt bytes offset h 1 (omega arith),
                rw here at (byte-lt bytes offset h 0 (omega arith)),
              )))
        | inr msb ↦ rw msb (
            ap done (
              omega (
                arith,
                big16 (get_or bytes offset 0) (get_or bytes (offset + 1) 0)
                    (rw here at (byte-lt bytes offset h 0 (omega arith)))
                    (byte-lt bytes offset h 1 (omega arith)),
                byte-lt bytes offset h 1 (omega arith),
                rw here at (byte-lt bytes offset h 0 (omega arith)),
              )))
      ])
elf_read-field_at word bytes offset e h p =
    let here : offset + 0 ≡ offset = omega arith in
    let two : offset + 1 + 1 ≡ offset + 2 = omega arith in
    let three : offset + 2 + 1 ≡ offset + 3 = omega arith in
    let b = λ (k : ℕ). get_or bytes (offset + k) 0 in
    let b0 = rw here at (byte-lt bytes offset h 0 (omega arith)) in
    let b1 = byte-lt bytes offset h 1 (omega arith) in
    let b2 = byte-lt bytes offset h 2 (omega arith) in
    let b3 = byte-lt bytes offset h 3 (omega arith) in
    rw
      (
        rw here at (at-lt bytes offset h 0 (omega arith)),
        at-lt bytes offset h 1 (omega arith),
        at-lt bytes offset h 2 (omega arith),
        at-lt bytes offset h 3 (omega arith),
        two,
        three,
      )
      (elim (Bool-cases (is_lsb e)) [
        | inl lsb ↦ rw lsb (
            ap done (omega (arith, little32 (get_or bytes offset 0) (b 1) (b 2) (b 3) b0 b1 b2 b3)))
        | inr msb ↦
            rw msb
              (ap done (omega (arith, big32 (get_or bytes offset 0) (b 1) (b 2) (b 3) b0 b1 b2 b3)))
      ])
elf_read-field_at xword bytes offset e h p =
    let here : offset + 0 ≡ offset = omega arith in
    elim (Bool-cases (is_lsb e)) [
      | inl lsb ↦
          rw (lsb, read_down-eq bytes offset h 8 0 0 refl (omega arith) p) (ap done (omega arith))
      | inr msb ↦
          rw (msb, read_up-eq bytes offset h 8 0 0 refl (omega arith) p, here)
            (ap done (omega arith))
    ]
