-- ===== src/Memory/Write.antt =====
-- `mips64_memory_write8` to `mips64_memory_write64`: the bytes that a write replaces.
use mathlib.Core.List.{reverse}
use mips64_emulator.Base.{
  ℕ, ◌+◌, ◌-◌, ◌*◌, ◌/◌, ◌%◌, ◌^◌, ◌<◌, ◌≡◌, refl, ap, arith, Option, some, none, Outcome, done,
  Bool-cases, inl, inr, bit_and, u8, u16, ◌>>◌, List,
}
use mips64_emulator.Base.Bits.{bit_and-mask}
use mips64_emulator.Types.{is_little}
use mips64_emulator.Memory.{
  Memory, MemoryStatus, ok, null_pointer, max_size, update, store, write8, write16, write32,
  write64,
}
use mips64_emulator.Memory.Spec.{
  Width, byte, halfword, word, doubleword, size, write, le_bytes, bytes_of, overlay, access_status,
  when_ok,
}
use mips64_emulator.Memory.Checks.{store-lt, guarded-when_ok, bounded-when_ok}
use mips64_emulator.Memory.Loops.{scatter-overlay, tabulate}

-- The memory with the bytes of a number laid over it.
abbrev pub written : Memory → ℕ → ℕ → ℕ → Memory
written mem address n value = record mem {
  memory = overlay mem.memory address (bytes_of mem.endian n value);
}

abbrev pub write_result : Width → Option Memory → ℕ → ℕ → MemoryStatus × Option Memory
write_result w none address value = (null_pointer, none)
write_result w (some mem) address value =
    let s = access_status address (size w) in
    (s, when_ok s (some (written mem address (size w) value)) (some mem))

low_byte : (x : ℕ) → u8 (bit_and x 0xFF) ≡ x % 256
low_byte x = omega (arith, bit_and-mask 8 x)

low_byte16 : (x : ℕ) → u8 (u16 (bit_and x 0xFF)) ≡ x % 256
low_byte16 x = omega (arith, bit_and-mask 8 x)

low_byte_twice : (x : ℕ) → u8 (bit_and (u8 x) 0xFF) ≡ x % 256
low_byte_twice x = omega (arith, bit_and-mask 8 (u8 x))

first :
    (mem : Memory) (address v : ℕ)
    → address < max_size
    → store mem address v ≡ done (record mem { memory = update mem.memory address v })
unfolding store
first mem address v h = ground arith

-- What the loop stores, in both byte orders.
little_run : (v : ℕ) → tabulate (λ i. u8 (bit_and (v >> (i * 8)) 0xFF)) 0 8 ≡ le_bytes 8 v
little_run v = ground (
  arith,
  low_byte (v / 2 ^ (0 * 8)),
  low_byte (v / 2 ^ (1 * 8)),
  low_byte (v / 2 ^ (2 * 8)),
  low_byte (v / 2 ^ (3 * 8)),
  low_byte (v / 2 ^ (4 * 8)),
  low_byte (v / 2 ^ (5 * 8)),
  low_byte (v / 2 ^ (6 * 8)),
  low_byte (v / 2 ^ (7 * 8)),
)

big_run :
    (v : ℕ)
    → tabulate (λ i. u8 (bit_and (u8 (v >> ((7 - i) * 8))) 0xFF)) 0 8 ≡ reverse (le_bytes 8 v)
big_run v = ground (
  arith,
  low_byte_twice (v / 2 ^ (0 * 8)),
  low_byte_twice (v / 2 ^ (1 * 8)),
  low_byte_twice (v / 2 ^ (2 * 8)),
  low_byte_twice (v / 2 ^ (3 * 8)),
  low_byte_twice (v / 2 ^ (4 * 8)),
  low_byte_twice (v / 2 ^ (5 * 8)),
  low_byte_twice (v / 2 ^ (6 * 8)),
  low_byte_twice (v / 2 ^ (7 * 8)),
)

-- A run of bytes laid over the memory.
abbrev laid : Memory → ℕ → List ℕ → Outcome (MemoryStatus × Option Memory)
laid mem address bs = done (ok, some (record mem { memory = overlay mem.memory address bs }))

module _ (mem : Memory) (address value : ℕ) (h : address < 2 ^ 64) where
  write8-eq :
      value < 2 ^ 8
      → write8 (some mem) address value ≡ done (write_result byte (some mem) address value)
  unfolding write8
  write8-eq fit = bounded-when_ok address (some mem) _ _ h λ fits.
      let same : value % 256 ≡ value = omega arith in
      rw (first mem address value (omega arith)) (elim (Bool-cases (is_little mem.endian)) [
        | inl le ↦ rw (le, same)
        | inr be ↦ rw (be, same)
      ])

  write16-eq :
      write16 (some mem) address value ≡ done (write_result halfword (some mem) address value)
  unfolding write16
  write16-eq = guarded-when_ok address (some mem) _ _ h halfword λ fits.
      rw
        (
          low_byte value,
          low_byte (value >> 8),
          first mem address _ (omega arith),
          store-lt _ address 1 _ (omega arith),
        )
        (elim (Bool-cases (is_little mem.endian)) [ inl le ↦ rw le | inr be ↦ rw be ])

  write32-eq : write32 (some mem) address value ≡ done (write_result word (some mem) address value)
  unfolding write32
  write32-eq = guarded-when_ok address (some mem) _ _ h word λ fits.
      let two : address + 1 + 1 ≡ address + 2 = omega arith in
      let three : address + 2 + 1 ≡ address + 3 = omega arith in
      let whole : value >> 0 ≡ value = omega arith in
      let second : value / 256 / 256 ≡ value >> 16 = omega arith in
      let third : (value >> 16) / 256 ≡ value >> 24 = omega arith in
      rw
        (
          whole,
          low_byte16 value,
          low_byte16 (value >> 8),
          low_byte16 (value >> 16),
          low_byte16 (value >> 24),
          first mem address _ (omega arith),
          store-lt _ address 1 _ (omega arith),
          store-lt _ address 2 _ (omega arith),
          store-lt _ address 3 _ (omega arith),
        )
        (elim (Bool-cases (is_little mem.endian)) [
          | inl le ↦ rw (le, two, three, second, third)
          | inr be ↦ rw (be, two, three, second, third)
        ])

  write64-eq :
      write64 (some mem) address value ≡ done (write_result doubleword (some mem) address value)
  unfolding write64
  write64-eq = guarded-when_ok address (some mem) _ _ h doubleword λ fits.
      let here : address + 0 ≡ address = omega arith in
      elim (Bool-cases (is_little mem.endian)) [
        | inl le ↦
            rw (le, scatter-overlay _ 8 0 mem address (omega arith), here)
              (ap (laid mem address) (little_run value))
        | inr be ↦
            rw (be, scatter-overlay _ 8 0 mem address (omega arith), here)
              (ap (laid mem address) (big_run value))
      ]

-- The value is one of the C type of the parameter.
abbrev pub Fits : Width → ℕ → Type 0
Fits w value = value < 2 ^ (8 * size w)

-- For every width, byte order, memory pointer, 64-bit address and value of the parameter's C
-- type, a write is done with no fault: a null pointer, an access past the end and a misaligned
-- one are told apart and leave the memory as it was; otherwise exactly the bytes of the value
-- are laid over the memory.
pub write-write_result :
    (w : Width) (mem : Option Memory) (address value : ℕ)
    → address < 2 ^ 64
    → Fits w value
    → write w mem address value ≡ done (write_result w mem address value)
unfolding write8 write16 write32 write64
write-write_result byte none address value h f = refl
write-write_result halfword none address value h f = refl
write-write_result word none address value h f = refl
write-write_result doubleword none address value h f = refl
write-write_result byte (some mem) address value h f = write8-eq mem address value h f
write-write_result halfword (some mem) address value h f = write16-eq mem address value h
write-write_result word (some mem) address value h f = write32-eq mem address value h
write-write_result doubleword (some mem) address value h f = write64-eq mem address value h
