-- ===== src/Memory/RoundTrip.antt =====
-- Reads of src/mips64/memory.c after its writes.
use mathlib.Core.List.{reverse-reverse}
use mips64_emulator.Base.{
  ℕ, zero, suc, ◌+◌, ◌*◌, ◌/◌, ◌^◌, ◌<◌, ◌≤◌, ◌≡◌, ◌⊎◌, refl, ap, ap₂, sym, All-reverse_aux, ◌∙◌,
  arith, some, done, ◌>>=◌, Bool-cases, inl, inr, List, [], ◌∷◌, ◌++◌, length, All,
}
use mips64_emulator.Types.{Endian, is_little}
use mips64_emulator.Memory.{
  Memory, MemoryStatus, ok, null_pointer, out_of_bounds, misaligned, update,
}
use mips64_emulator.Memory.Spec.{
  Width, byte, halfword, word, doubleword, size, read, write, le_bytes, le_value, value_of,
  bytes_of, run_at, overlay, access_status, when_ok, HoldsBytes,
}
use mips64_emulator.Memory.Loops.{byte_pow, length-reverse}
use mips64_emulator.Memory.Read.{read-read_result}
use mips64_emulator.Memory.Write.{Fits, written, write-write_result}

pub overlay_before : (f : ℕ → ℕ) (a x : ℕ) (bs : List ℕ) → x < a → overlay f a bs x ≡ f x
overlay_before f a x [] h = refl
overlay_before f a x (b ∷ bs) h = ground (arith, overlay_before (update f a b) (a + 1) x bs)

pub overlay_after : (f : ℕ → ℕ) (a x : ℕ) (bs : List ℕ) → a + length bs ≤ x → overlay f a bs x ≡ f x
overlay_after f a x [] h = refl
overlay_after f a x (b ∷ bs) h = ground (arith, overlay_after (update f a b) (a + 1) x bs)

pub run_at-overlay : (f : ℕ → ℕ) (a : ℕ) (bs : List ℕ) → run_at (overlay f a bs) a (length bs) ≡ bs
run_at-overlay f a [] = refl
run_at-overlay f a (b ∷ bs) =
    ap₂ ◌∷◌ (ground (arith, overlay_before (update f a b) (a + 1) a bs))
      (run_at-overlay (update f a b) (a + 1) bs)

-- A run laid behind another.
pub overlay-overlay :
    (f : ℕ → ℕ) (a : ℕ) (xs ys : List ℕ)
    → overlay (overlay f a xs) (a + length xs) ys ≡ overlay f a (xs ++ ys)
overlay-overlay f a [] ys = let e : a + 0 ≡ a = omega arith in rw e
overlay-overlay f a (x ∷ xs) ys =
    let e : a + suc (length xs) ≡ a + 1 + length xs = omega arith in
    rw e (overlay-overlay (update f a x) (a + 1) xs ys)

-- A run depends only on the bytes inside it.
run_at-congr :
    (f g : ℕ → ℕ) (a n : ℕ)
    → ((x : ℕ) → a ≤ x → x < a + n → f x ≡ g x)
    → run_at f a n ≡ run_at g a n
run_at-congr f g a zero h = refl
run_at-congr f g a (suc n) h =
    ap₂ ◌∷◌ (h a (omega arith) (omega arith))
      (run_at-congr f g (a + 1) n λ x p q. h x (omega arith) (omega arith))

pub length-le_bytes : (n v : ℕ) → length (le_bytes n v) ≡ n
length-le_bytes zero v = refl
length-le_bytes (suc n) v = ap suc (length-le_bytes n (v / 256))

pub length-bytes_of : (e : Endian) (n v : ℕ) → length (bytes_of e n v) ≡ n
length-bytes_of e n v = elim (Bool-cases (is_little e)) [
  | inl le ↦ rw le (length-le_bytes n v)
  | inr be ↦ rw be (length-reverse (le_bytes n v) ∙ length-le_bytes n v)
]

pub le_value-le_bytes : (n v : ℕ) → v < 2 ^ (n * 8) → le_value (le_bytes n v) ≡ v
le_value-le_bytes zero v h = omega arith
le_value-le_bytes (suc n) v h =
    omega (arith, byte_pow n, le_value-le_bytes n (v / 256) (omega (arith, byte_pow n)))

-- The bytes of a number stand for the number, in both orders.
pub value_of-bytes_of : (e : Endian) (n v : ℕ) → v < 2 ^ (n * 8) → value_of e (bytes_of e n v) ≡ v
value_of-bytes_of e n v h = elim (Bool-cases (is_little e)) [
  | inl le ↦ rw le (le_value-le_bytes n v h)
  | inr be ↦ rw be (ap le_value (reverse-reverse (le_bytes n v)) ∙ le_value-le_bytes n v h)
]

AreBytes-le_bytes : (n v : ℕ) → All (λ b. b < 256) (le_bytes n v)
AreBytes-le_bytes zero v = tt
AreBytes-le_bytes (suc n) v = (omega arith, AreBytes-le_bytes n (v / 256))

pub AreBytes-bytes_of : (e : Endian) (n v : ℕ) → All (λ b. b < 256) (bytes_of e n v)
AreBytes-bytes_of e n v = elim (Bool-cases (is_little e)) [
  | inl le ↦ rw le (AreBytes-le_bytes n v)
  | inr be ↦ rw be (All-reverse_aux (λ b. b < 256) (le_bytes n v) [] (AreBytes-le_bytes n v) tt)
]

overlay-lt :
    (f : ℕ → ℕ) (a : ℕ) (bs : List ℕ)
    → ((x : ℕ) → f x < 256)
    → All (λ b. b < 256) bs
    → (x : ℕ) → overlay f a bs x < 256
overlay-lt f a [] hf hs = hf
overlay-lt f a (b ∷ bs) hf hs =
    overlay-lt (update f a b) (a + 1) bs (λ x. ground (arith, hf x)) hs.1

-- A write leaves bytes in the memory.
pub written-HoldsBytes :
    (mem : Memory) (address n value : ℕ) → HoldsBytes mem → HoldsBytes (written mem address n value)
written-HoldsBytes mem address n value h =
    overlay-lt mem.memory address (bytes_of mem.endian n value) h
      (AreBytes-bytes_of mem.endian n value)

run_at-written :
    (mem : Memory) (address n value : ℕ)
    → run_at (written mem address n value).memory address n ≡ bytes_of mem.endian n value
run_at-written mem address n value =
    rw length-bytes_of at (run_at-overlay mem.memory address (bytes_of mem.endian n value))

run_at-written_apart :
    (mem : Memory) (address n value other m : ℕ)
    → (other + m ≤ address) ⊎ (address + n ≤ other)
    → run_at (written mem address n value).memory other m ≡ run_at mem.memory other m
run_at-written_apart mem address n value other m apart =
    run_at-congr (written mem address n value).memory mem.memory other m λ x p q. ground (
      arith,
      length-bytes_of mem.endian n value,
      overlay_before mem.memory address x (bytes_of mem.endian n value),
      overlay_after mem.memory address x (bytes_of mem.endian n value),
    )

Fits-size : (w : Width) (v : ℕ) → Fits w v → v < 2 ^ (size w * 8)
Fits-size byte v h = h
Fits-size halfword v h = h
Fits-size word v h = h
Fits-size doubleword v h = h

module _ (mem : Memory) (w : Width) (address value : ℕ) (bytes : HoldsBytes mem)
    (h : address < 2 ^ 64) (fits : Fits w value) where
  -- On a memory that holds bytes, with a 64-bit address and a value of the C type: a read at the
  -- address just written, of the same width, returns the status of the write, and the value
  -- itself if the write was accepted.
  pub write-read :
      (old : ℕ)
      → (write w (some mem) address value >>= λ (s, m). read w m address (some old))
        ≡ (let s = access_status address (size w) in done (s, when_ok s (some value) (some old)))
  write-read old =
      rw (write-write_result w (some mem) address value h fits)
        (decided (access_status address (size w)) refl)
    where
      decided :
          (s : MemoryStatus)
          → access_status address (size w) ≡ s
          → read w
              (when_ok s (some (written mem address (size w) value)) (some mem))
              address
              (some old)
            ≡ done (s, when_ok s (some value) (some old))
      decided ok e =
          read-read_result w (some (written mem address (size w) value)) address (some old)
            (written-HoldsBytes mem address (size w) value bytes) h
          ∙ rw
              (
                e,
                run_at-written mem address (size w) value,
                value_of-bytes_of mem.endian (size w) value (Fits-size w value fits),
              )
              refl
      decided null_pointer e = read-read_result w (some mem) address (some old) bytes h ∙ rw e
      decided out_of_bounds e = read-read_result w (some mem) address (some old) bytes h ∙ rw e
      decided misaligned e = read-read_result w (some mem) address (some old) bytes h ∙ rw e

  -- On a memory that holds bytes, with 64-bit addresses and a value of the C type: a read of any
  -- width that does not overlap the written range returns what it returned before the write,
  -- whether the write was accepted or not.
  pub write-read_apart :
      (w' : Width) (other old : ℕ)
      → other < 2 ^ 64
      → (other + size w' ≤ address) ⊎ (address + size w ≤ other)
      → (write w (some mem) address value >>= λ (s, m). read w' m other (some old))
        ≡ read w' (some mem) other (some old)
  write-read_apart w' other old h' apart =
      rw (write-write_result w (some mem) address value h fits)
        (decided (access_status address (size w)))
    where
      decided :
          (s : MemoryStatus)
          → read w'
              (when_ok s (some (written mem address (size w) value)) (some mem))
              other
              (some old)
            ≡ read w' (some mem) other (some old)
      decided ok =
          read-read_result w' (some (written mem address (size w) value)) other (some old)
            (written-HoldsBytes mem address (size w) value bytes) h'
          ∙ rw (run_at-written_apart mem address (size w) value other (size w') apart)
              (sym (read-read_result w' (some mem) other (some old) bytes h'))
      decided null_pointer = refl
      decided out_of_bounds = refl
      decided misaligned = refl
