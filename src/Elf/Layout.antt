-- ===== src/Elf/Layout.antt =====
-- How a compiler lays the structs of include/mips64/elf_loader.h, and what the field readers of
-- src/mips64/elf_loader.c make of one.
pub mod Loader
use mathlib.Core.List.{reverse, append_assoc}
use mips64_emulator.Base.{
  All-append, some_injective, ℕ, zero, suc, ◌+◌, ◌-◌, ◌*◌, ◌%◌, ◌^◌, ◌<◌, ◌≤◌, ◌≡◌, refl, sym, ap,
  ap₂, ◌∙◌, arith, Bool, Bool-cases, inl, inr, true, false, Option, none, some, List, [], ◌∷◌, ◌++◌,
  length, length-append, replicate, length-replicate, All, All-replicate, get_elem?, get_or,
  if◌then◌else◌, done, All-get_elem?,
}
use mips64_emulator.Types.{little, big}
use mips64_emulator.Memory.Spec.{le_bytes, le_value, run_at, value_of, bytes_of}
use mips64_emulator.Memory.RoundTrip.{value_of-bytes_of, length-bytes_of, AreBytes-bytes_of}
use mips64_emulator.Elf.{is_lsb}
use mips64_emulator.Elf.Format.{ElfData, Field, field_size, Member, chars, field}
use mips64_emulator.Elf.Read.{field_at, elf_read, elf_read-field_at}

-- A member starts at a multiple of its alignment: the width of a number, and 1 for an array of
-- characters.
abbrev pub alignment : Member → ℕ
alignment (chars n bs) = 1
alignment (field t v) = field_size t

abbrev pub size_of : Member → ℕ
size_of (chars n bs) = n
size_of (field t v) = field_size t

-- A number in the byte order of the file.
abbrev pub number : ElfData → ℕ → ℕ → List ℕ
number e n v = if is_lsb e then le_bytes n v else reverse (le_bytes n v)

abbrev pub content : ElfData → Member → List ℕ
content e (chars n bs) = bs
content e (field t v) = number e (field_size t) v

-- The bytes between the offset `o` and the member.
abbrev pub padding : ℕ → Member → ℕ
padding o m = (alignment m - o % alignment m) % alignment m

abbrev zeros : ℕ → List ℕ
zeros n = replicate n 0

length-zeros : (n : ℕ) → length (zeros n) ≡ n
length-zeros n = length-replicate {A = ℕ} n 0

-- The members from the offset `o` on, as bytes.
unfoldable pub image : ElfData → ℕ → List Member → List ℕ
image e o [] = []
image e o (m ∷ ms) =
    let place = o + padding o m in
    zeros (padding o m) ++ (content e m ++ image e (place + size_of m) ms)

-- `offsetof`, for the member of a number.
pub offset_of : ℕ → List Member → ℕ → ℕ
offset_of o [] i = o
offset_of o (m ∷ ms) zero = o + padding o m
offset_of o (m ∷ ms) (suc i) = offset_of (o + padding o m + size_of m) ms i

-- The values fit the types.
abbrev pub IsMember : Member → Type 0
IsMember (chars n bs) = (length bs ≡ n) × All (λ b. b < 256) bs
IsMember (field t v) = v < 2 ^ (field_size t * 8)

abbrev pub bytes_from : List ℕ → ℕ → ℕ → List ℕ
bytes_from bytes a n = run_at (λ k. get_or bytes k 0) a n

run_at-shift :
    (f g : ℕ → ℕ) (a n : ℕ) → ((k : ℕ) → f (suc k) ≡ g k) → run_at f (suc a) n ≡ run_at g a n
run_at-shift f g a zero h = refl
run_at-shift f g a (suc n) h =
    let e : suc a + 1 ≡ suc (a + 1) = omega arith in
    ap₂ ◌∷◌ (h a) (rw e (run_at-shift f g (a + 1) n h))

bytes_from-front : (ys zs : List ℕ) → bytes_from (ys ++ zs) 0 (length ys) ≡ ys
bytes_from-front [] zs = refl
bytes_from-front (y ∷ ys) zs =
    ap (λ (l : List ℕ). y ∷ l)
      (run_at-shift (λ k. get_or (y ∷ (ys ++ zs)) k 0) (λ k. get_or (ys ++ zs) k 0) 0 (length ys)
          (λ k. refl)
        ∙ bytes_from-front ys zs)

-- What stands behind a front of bytes.
bytes_from-append : (xs ys zs : List ℕ) → bytes_from (xs ++ (ys ++ zs)) (length xs) (length ys) ≡ ys
bytes_from-append [] ys zs = bytes_from-front ys zs
bytes_from-append (x ∷ xs) ys zs =
    run_at-shift (λ k. get_or (x ∷ (xs ++ (ys ++ zs))) k 0) (λ k. get_or (xs ++ (ys ++ zs)) k 0)
      (length xs) (length ys) (λ k. refl)
    ∙ bytes_from-append xs ys zs

length-number : (e : ElfData) (n v : ℕ) → length (number e n v) ≡ n
length-number e n v = elim (Bool-cases (is_lsb e)) [
  | inl y ↦ rw y (length-bytes_of little n v)
  | inr y ↦ rw y (length-bytes_of big n v)
]

length-content : (e : ElfData) (m : Member) → IsMember m → length (content e m) ≡ size_of m
length-content e (chars n bs) h = h.0
length-content e (field t v) h = length-number e (field_size t) v

-- The bytes of a member come behind those in front of it and its padding.
regroup :
    (front pad c tail rest : List ℕ)
    → front ++ ((pad ++ (c ++ tail)) ++ rest) ≡ (front ++ pad) ++ (c ++ (tail ++ rest))
regroup front pad c tail rest = simp append_assoc refl

-- A member's content stands at its offset.
pub image-content :
    (e : ElfData) (ms : List Member) (o : ℕ) (front rest : List ℕ) (i : ℕ) (m : Member)
    → o ≡ length front
    → All IsMember ms
    → get_elem? ms i ≡ some m
    → bytes_from (front ++ (image e o ms ++ rest)) (offset_of o ms i) (size_of m) ≡ content e m
unfolding image offset_of
image-content e [] o front rest i m here hs is = cc
image-content e (n ∷ ms) o front rest zero m here hs is =
    let pad = zeros (padding o n) in
    let c = content e n in
    let tail = image e (o + padding o n + size_of n) ms in
    let place : o + padding o n ≡ length (front ++ pad) =
      omega (arith, here, length-append front pad, length-zeros (padding o n)) in
    rw (← some_injective is) (
      ap (λ (bs : List ℕ). bytes_from bs (o + padding o n) (size_of n))
        (regroup front pad c tail rest)
      ∙ ap₂ (λ (a k : ℕ). bytes_from ((front ++ pad) ++ (c ++ (tail ++ rest))) a k) place
          (sym (length-content e n hs.0))
      ∙ bytes_from-append (front ++ pad) c (tail ++ rest))
image-content e (n ∷ ms) o front rest (suc i) m here hs is =
    let pad = zeros (padding o n) in
    let c = content e n in
    let o' = o + padding o n + size_of n in
    let tail = image e o' ms in
    let place : o' ≡ length ((front ++ pad) ++ c) = omega (
      arith,
      here,
      length-append front pad,
      length-append (front ++ pad) c,
      length-zeros (padding o n),
      length-content e n hs.0,
    ) in
    ap (λ (bs : List ℕ). bytes_from bs (offset_of o' ms i) (size_of m))
      (regroup front pad c tail rest ∙ sym (append_assoc (front ++ pad) c (tail ++ rest)))
    ∙ image-content e ms o' ((front ++ pad) ++ c) rest i m place hs.1 is

-- The number of a field that stands there.
number-field_at :
    (e : ElfData) (bytes : List ℕ) (a n v : ℕ)
    → v < 2 ^ (n * 8)
    → bytes_from bytes a n ≡ number e n v
    → field_at bytes a n e ≡ v
number-field_at e bytes a n v h q = elim (Bool-cases (is_lsb e)) [
  | inl y ↦ rw (y, rw y at q) (value_of-bytes_of little n v h)
  | inr y ↦ rw (y, rw y at q) (value_of-bytes_of big n v h)
]

content-bytes : (e : ElfData) (m : Member) → IsMember m → All (λ b. b < 256) (content e m)
content-bytes e (chars n bs) h = h.1
content-bytes e (field t v) h = elim (Bool-cases (is_lsb e)) [
  | inl y ↦ rw y (AreBytes-bytes_of little (field_size t) v)
  | inr y ↦ rw y (AreBytes-bytes_of big (field_size t) v)
]

pub image-bytes :
    (e : ElfData) (o : ℕ) (ms : List Member) → All IsMember ms → All (λ b. b < 256) (image e o ms)
unfolding image
image-bytes e o [] hs = tt
image-bytes e o (m ∷ ms) hs =
    let o' = o + padding o m + size_of m in
    All-append (λ b. b < 256) (zeros (padding o m)) (content e m ++ image e o' ms)
      (All-replicate (λ b. b < 256) (padding o m) 0 (omega arith))
      (All-append (λ b. b < 256) (content e m) (image e o' ms) (content-bytes e m hs.0)
        (image-bytes e o' ms hs.1))

length-image :
    (e : ElfData) (o : ℕ) (n : Member) (ms : List Member)
    → IsMember n
    → length (image e o (n ∷ ms))
      ≡ padding o n + size_of n + length (image e (o + padding o n + size_of n) ms)
unfolding image
length-image e o n ms h =
    let pad = zeros (padding o n) in
    let tail = image e (o + padding o n + size_of n) ms in
    omega (
      arith,
      length-append pad (content e n ++ tail),
      length-append (content e n) tail,
      length-zeros (padding o n),
      length-content e n h,
    )

-- A member ends inside the image.
pub offset_of-length :
    (e : ElfData) (o : ℕ) (ms : List Member) (i : ℕ) (m : Member)
    → All IsMember ms
    → get_elem? ms i ≡ some m
    → offset_of o ms i + size_of m ≤ o + length (image e o ms)
unfolding image offset_of
offset_of-length e o [] i m hs is = cc
offset_of-length e o (n ∷ ms) zero m hs is =
    let o' = o + padding o n + size_of n in
    rw (← some_injective is) (omega (arith, length-image e o n ms hs.0))
offset_of-length e o (n ∷ ms) (suc i) m hs is =
    let o' = o + padding o n + size_of n in
    omega (arith, length-image e o n ms hs.0, offset_of-length e o' ms i m hs.1 is)

pub image-field_at :
    (e : ElfData) (ms : List Member) (i : ℕ) (t : Field) (v : ℕ) (rest : List ℕ)
    → All IsMember ms
    → get_elem? ms i ≡ some (field t v)
    → field_at (image e 0 ms ++ rest) (offset_of 0 ms i) (field_size t) e ≡ v
image-field_at e ms i t v rest hs is =
    number-field_at e (image e 0 ms ++ rest) (offset_of 0 ms i) (field_size t) v
      (All-get_elem? IsMember ms i hs is) (image-content e ms 0 [] rest i (field t v) refl hs is)

-- For every C struct of character arrays and numbers of 2, 4 and 8 bytes whose values fit, with
-- each number aligned to its width and laid in either byte order in front of any bytes: reading
-- a number at its offset, with the reader of its width, gives its value with no fault.
pub elf_read-offset_of :
    (e : ElfData) (ms : List Member) (i : ℕ) (t : Field) (v : ℕ) (rest : List ℕ)
    → All IsMember ms
    → get_elem? ms i ≡ some (field t v)
    → All (λ b. b < 256) rest
    → elf_read t (image e 0 ms ++ rest) (offset_of 0 ms i) e ≡ done v
elf_read-offset_of e ms i t v rest hs is hr =
    elf_read-field_at t (image e 0 ms ++ rest) (offset_of 0 ms i) e
      (All-append (λ b. b < 256) (image e 0 ms) rest (image-bytes e 0 ms hs) hr)
      (omega
        (arith, offset_of-length e 0 ms i (field t v) hs is, length-append (image e 0 ms) rest))
    ∙ ap done (image-field_at e ms i t v rest hs is)
