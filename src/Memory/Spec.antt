-- ===== src/Memory/Spec.antt =====
-- What src/mips64/memory.c promises, without shifts and masks: an access of 1, 2, 4 or 8 bytes
-- reads or replaces a run of bytes that stands for a number in the memory's byte order.
use mathlib.Core.List.{reverse}
use mips64_emulator.Base.{
  ℕ, zero, suc, ◌+◌, ◌*◌, ◌/◌, ◌%◌, ◌<◌, Option, List, [], ◌∷◌, ltb, ◌==◌, if◌then◌else◌,
}
use mips64_emulator.Types.{Endian, is_little}
use mips64_emulator.Memory.{
  Memory, MemoryStatus, ok, out_of_bounds, misaligned, max_size, update, ReadResult, WriteResult,
  read8, read16, read32, read64, write8, write16, write32, write64,
}

-- The four accesses.
pub data Width : Type 0 where
  byte halfword word doubleword : Width

abbrev pub size : Width → ℕ
size byte = 1
size halfword = 2
size word = 4
size doubleword = 8

abbrev pub read : Width → Option Memory → ℕ → Option ℕ → ReadResult
read byte = read8
read halfword = read16
read word = read32
read doubleword = read64

abbrev pub write : Width → Option Memory → ℕ → ℕ → WriteResult
write byte = write8
write halfword = write16
write word = write32
write doubleword = write64

-- The number of a run of bytes, least significant first.
abbrev pub le_value : List ℕ → ℕ
le_value [] = 0
le_value (b ∷ bs) = b + 256 * le_value bs

-- The lowest `n` bytes of a number, least significant first.
abbrev pub le_bytes : ℕ → ℕ → List ℕ
le_bytes zero v = []
le_bytes (suc n) v = v % 256 ∷ le_bytes n (v / 256)

-- In the other byte order the most significant byte comes first.
abbrev pub value_of : Endian → List ℕ → ℕ
value_of e bs = if is_little e then le_value bs else le_value (reverse bs)

abbrev pub bytes_of : Endian → ℕ → ℕ → List ℕ
bytes_of e n v = if is_little e then le_bytes n v else reverse (le_bytes n v)

-- The run of `n` bytes at an address, and the memory with a run replaced.
abbrev pub run_at : (ℕ → ℕ) → ℕ → ℕ → List ℕ
run_at f a zero = []
run_at f a (suc n) = f a ∷ run_at f (a + 1) n

abbrev pub overlay : (ℕ → ℕ) → ℕ → List ℕ → ℕ → ℕ
overlay f a [] = f
overlay f a (b ∷ bs) = overlay (update f a b) (a + 1) bs

-- An access is refused past the end of the memory, or off its own alignment.
abbrev pub access_status : ℕ → ℕ → MemoryStatus
access_status address n =
    if ltb max_size (address + n)
    then out_of_bounds
    else if address % n == 0
    then ok
    else misaligned

-- The choice between what an accepted and what a refused access gives.
abbrev pub when_ok {ℓ} : {A : Type ℓ} → MemoryStatus → A → A → A
when_ok ok x y = x
when_ok _ x y = y

-- The memory holds bytes.
abbrev pub HoldsBytes : Memory → Type 0
HoldsBytes mem = (a : ℕ) → mem.memory a < 256
