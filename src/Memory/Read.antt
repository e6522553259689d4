-- ===== src/Memory/Read.antt =====
-- `mips64_memory_read8` to `mips64_memory_read64`: no fault, the right status, the right number.
use mips64_emulator.Base.{
  ℕ, ◌+◌, ◌^◌, ◌<◌, ◌≡◌, refl, ap, arith, Option, some, none, Outcome, done, Bool-cases, inl, inr,
}
use mips64_emulator.Types.{is_little}
use mips64_emulator.Memory.{
  Memory, MemoryStatus, ok, null_pointer, max_size, load, read8, read16, read32, read64,
}
use mips64_emulator.Memory.Spec.{
  Width, byte, halfword, word, doubleword, size, read, value_of, run_at, access_status, when_ok,
  HoldsBytes,
}
use mips64_emulator.Memory.Join.{little16, big16, little32, big32}
use mips64_emulator.Memory.Checks.{load-lt, guarded-when_ok, bounded-when_ok}
use mips64_emulator.Memory.Loops.{gather-little, gather-big}

-- What a read returns and leaves behind its output pointer.
abbrev pub read_result : Width → Option Memory → ℕ → Option ℕ → MemoryStatus × Option ℕ
read_result w none address out = (null_pointer, out)
read_result w (some mem) address none = (null_pointer, none)
read_result w (some mem) address (some old) =
    let s = access_status address (size w) in
    (s, when_ok s (some (value_of mem.endian (run_at mem.memory address (size w)))) (some old))

abbrev pub PointsToBytes : Option Memory → Type 0
PointsToBytes none = Unit
PointsToBytes (some mem) = HoldsBytes mem

first :
    (mem : Memory) (address : ℕ) → address < max_size → load mem address ≡ done (mem.memory address)
unfolding load
first mem address h = ground arith

-- The number that a read delivers.
abbrev delivers : ℕ → Outcome (MemoryStatus × Option ℕ)
delivers v = done (ok, some v)

module _ (mem : Memory) (address old : ℕ) (bytes : HoldsBytes mem) (h : address < 2 ^ 64) where
  abbrev at_index : ℕ → ℕ
  at_index k = mem.memory (address + k)

  read8-eq :
      read8 (some mem) address (some old) ≡ done (read_result byte (some mem) address (some old))
  unfolding read8
  read8-eq = bounded-when_ok address (some old) _ _ h λ fits.
      rw (first mem address (omega arith)) (elim (Bool-cases (is_little mem.endian)) [
        | inl le ↦ rw le (ap delivers (omega arith))
        | inr be ↦ rw be (ap delivers (omega arith))
      ])

  read16-eq :
      read16 (some mem) address (some old)
      ≡ done (read_result halfword (some mem) address (some old))
  unfolding read16
  read16-eq = guarded-when_ok address (some old) _ _ h halfword λ fits.
      rw (first mem address (omega arith), load-lt mem address 1 (omega arith))
        (elim (Bool-cases (is_little mem.endian)) [
          | inl le ↦ rw le (
              ap delivers (
                omega (
                  arith,
                  little16 (mem.memory address) (at_index 1) (bytes address) (bytes (address + 1)),
                  bytes address,
                  bytes (address + 1),
                )))
          | inr be ↦ rw be (
              ap delivers (
                omega (
                  arith,
                  big16 (mem.memory address) (at_index 1) (bytes address) (bytes (address + 1)),
                  bytes address,
                  bytes (address + 1),
                )))
        ])

  read32-eq :
      read32 (some mem) address (some old) ≡ done (read_result word (some mem) address (some old))
  unfolding read32
  read32-eq = guarded-when_ok address (some old) _ _ h word λ fits.
      let two : address + 1 + 1 ≡ address + 2 = omega arith in
      let three : address + 2 + 1 ≡ address + 3 = omega arith in
      rw
        (
          first mem address (omega arith),
          load-lt mem address 1 (omega arith),
          load-lt mem address 2 (omega arith),
          load-lt mem address 3 (omega arith),
          two,
          three,
        )
        (elim (Bool-cases (is_little mem.endian)) [
          | inl le ↦ rw le (
              ap delivers (
                omega (
                  arith,
                  little32 (mem.memory address) (at_index 1) (at_index 2) (at_index 3)
                      (bytes address) (bytes (address + 1)) (bytes (address + 2))
                      (bytes (address + 3)),
                )))
          | inr be ↦ rw be (
              ap delivers (
                omega (
                  arith,
                  big32 (mem.memory address) (at_index 1) (at_index 2) (at_index 3) (bytes address)
                      (bytes (address + 1)) (bytes (address + 2)) (bytes (address + 3)),
                )))
        ])

  read64-eq :
      read64 (some mem) address (some old)
      ≡ done (read_result doubleword (some mem) address (some old))
  unfolding read64
  read64-eq = guarded-when_ok address (some old) _ _ h doubleword λ fits.
      let here : address + 0 ≡ address = omega arith in
      elim (Bool-cases (is_little mem.endian)) [
        | inl le ↦
            rw
              (
                le,
                gather-little mem address bytes 8 0 0 (omega arith) (omega arith) (omega arith),
                here,
              )
              (ap delivers (omega arith))
        | inr be ↦
            rw (be, gather-big mem address bytes 8 0 0 refl (omega arith), here)
              (ap delivers (omega arith))
      ]

-- For every width, byte order, pair of pointers (a memory, where there is one, holds bytes) and
-- 64-bit address, a read is done with no fault: a null pointer, an access past the end and a
-- misaligned one are told apart and leave the output alone; otherwise the output is the number
-- that the bytes stand for.
pub read-read_result :
    (w : Width) (mem : Option Memory) (address : ℕ) (out : Option ℕ)
    → PointsToBytes mem
    → address < 2 ^ 64
    → read w mem address out ≡ done (read_result w mem address out)
unfolding read8 read16 read32 read64
read-read_result byte none address out p h = refl
read-read_result halfword none address out p h = refl
read-read_result word none address out p h = refl
read-read_result doubleword none address out p h = refl
read-read_result byte (some mem) address none p h = refl
read-read_result halfword (some mem) address none p h = refl
read-read_result word (some mem) address none p h = refl
read-read_result doubleword (some mem) address none p h = refl
read-read_result byte (some mem) address (some old) p h = read8-eq mem address old p h
read-read_result halfword (some mem) address (some old) p h = read16-eq mem address old p h
read-read_result word (some mem) address (some old) p h = read32-eq mem address old p h
read-read_result doubleword (some mem) address (some old) p h = read64-eq mem address old p h
