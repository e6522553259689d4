-- ===== src/Memory.antt =====
-- Guest memory with byte order: include/mips64/memory.h and src/mips64/memory.c.
-- The array is a function of the index; an access at `MAX_SIZE` or above is a `fault`. A pointer
-- is an `Option`, an output parameter the value that stands behind it.
pub mod Spec
pub mod Join
pub mod Checks
pub mod Loops
pub mod Read
pub mod Write
pub mod RoundTrip
pub mod Reset
pub mod Order
mod Tests
use mips64_emulator.Base.{
  ℕ, zero, suc, ◌+◌, ◌-◌, ◌*◌, ◌^◌, ◌<◌, Bool, true, false, Option, none, some, Outcome, done,
  fault, ◌>>=◌, ltb, ◌==◌, not, if◌then◌else◌, bit_and, bit_or, u8, u16, u32, u64, ◌<<◌, ◌>>◌,
}
use mips64_emulator.Types.{Endian, little, is_little}

-- `MAX_SIZE`
abbrev pub max_size : ℕ
max_size = 64 * 1024 * 1024

-- `Memory`
pub record Memory : Type 0 where
  pub memory : ℕ → ℕ
  pub endian : Endian

-- `Mips64MemoryStatus`
pub data MemoryStatus : Type 0 where
  ok : MemoryStatus
  null_pointer : MemoryStatus
  out_of_bounds : MemoryStatus
  misaligned : MemoryStatus

-- `mem->memory[address]`, read and written
unfoldable pub load : Memory → ℕ → Outcome ℕ
load mem address = if ltb address max_size then done (mem.memory address) else fault

abbrev pub update : (ℕ → ℕ) → ℕ → ℕ → ℕ → ℕ
update f p v q = if q == p then v else f q

unfoldable pub store : Memory → ℕ → ℕ → Outcome Memory
store mem address v =
    if ltb address max_size
    then done (record mem { memory = update mem.memory address v })
    else fault

unfoldable pub bound_checking : ℕ → ℕ → Bool
bound_checking address data_size =
    if data_size == 0
    then false
    else if ltb (2 ^ 64 - 1 - data_size) address
    then false
    else if ltb max_size (u64 (address + data_size))
    then false
    else true

unfoldable pub alignment_checking : ℕ → ℕ → Bool
alignment_checking address data_size =
    if data_size == 1
    then true
    else if data_size == 2
    then bit_and address 0x1 == 0
    else if data_size == 4
    then bit_and address 0x3 == 0
    else if data_size == 8
    then bit_and address 0x7 == 0
    else false

-- `memset(mem->memory, 0, sizeof(*mem))`: as many bytes as the whole structure has, from its first
-- member on, so that the byte order behind the array becomes 0, `MIPS64_ENDIAN_LITTLE`, too.
abbrev pub memset_whole : Memory
memset_whole = record { memory = λ _. 0; endian = little }

unfoldable pub init : Option Memory → Endian → MemoryStatus × Option Memory
init none endian = (null_pointer, none)
init (some mem) endian = (ok, some (record memset_whole { endian = endian }))

unfoldable pub reset : Option Memory → MemoryStatus × Option Memory
reset none = (null_pointer, none)
reset (some mem) = (ok, some memset_whole)

abbrev pub ReadResult : Type 0
ReadResult = Outcome (MemoryStatus × Option ℕ)

unfoldable pub read8 : Option Memory → ℕ → Option ℕ → ReadResult
read8 none address out = done (null_pointer, out)
read8 (some mem) address none = done (null_pointer, none)
read8 (some mem) address (some old) =
    if not (bound_checking address 1)
    then done (out_of_bounds, some old)
    else (load mem address >>= λ b. done (ok, some b))

-- The common guards of the wider accesses, in their order.
abbrev pub guarded :
    {A : Type 0} → ℕ → ℕ → A → Outcome (MemoryStatus × A) → Outcome (MemoryStatus × A)
guarded address size kept access =
    if not (bound_checking address size)
    then done (out_of_bounds, kept)
    else if not (alignment_checking address size)
    then done (misaligned, kept)
    else access

unfoldable pub read16 : Option Memory → ℕ → Option ℕ → ReadResult
read16 none address out = done (null_pointer, out)
read16 (some mem) address none = done (null_pointer, none)
read16 (some mem) address (some old) = guarded address 2 (some old) do
  b0 ← load mem address
  b1 ← load mem (u64 (address + 1))
  done (ok, some (u16 (if is_little mem.endian then bit_or b0 (b1 << 8) else bit_or (b0 << 8) b1)))

unfoldable pub read32 : Option Memory → ℕ → Option ℕ → ReadResult
read32 none address out = done (null_pointer, out)
read32 (some mem) address none = done (null_pointer, none)
read32 (some mem) address (some old) = guarded address 4 (some old) do
  b0 ← load mem address
  b1 ← load mem (u64 (address + 1))
  b2 ← load mem (u64 (address + 2))
  b3 ← load mem (u64 (address + 3))
  done (
    ok,
    some (
        if is_little mem.endian
        then bit_or (bit_or (bit_or b0 (u32 (b1 << 8))) (u32 (b2 << 16))) (u32 (b3 << 24))
        else bit_or (bit_or (bit_or (u32 (b0 << 24)) (u32 (b1 << 16))) (u32 (b2 << 8))) b3),
  )

-- `for (i = 0; i < 8; ++i) value |= (uint64_t)mem->memory[address + i] << shift(i);` from `i` on
unfoldable pub gather : (ℕ → ℕ) → Memory → ℕ → ℕ → ℕ → ℕ → Outcome ℕ
gather shift mem address zero i value = done value
gather shift mem address (suc left) i value = do
  b ← load mem (u64 (address + i))
  gather shift mem address left (i + 1) (bit_or value (u64 (b << shift i)))

unfoldable pub read64 : Option Memory → ℕ → Option ℕ → ReadResult
read64 none address out = done (null_pointer, out)
read64 (some mem) address none = done (null_pointer, none)
read64 (some mem) address (some old) = guarded address 8 (some old) do
  value ← gather (λ i. if is_little mem.endian then i * 8 else (7 - i) * 8) mem address 8 0 0
  done (ok, some value)

abbrev pub WriteResult : Type 0
WriteResult = Outcome (MemoryStatus × Option Memory)

unfoldable pub write8 : Option Memory → ℕ → ℕ → WriteResult
write8 none address value = done (null_pointer, none)
write8 (some mem) address value =
    if not (bound_checking address 1)
    then done (out_of_bounds, some mem)
    else (store mem address value >>= λ m. done (ok, some m))

unfoldable pub write16 : Option Memory → ℕ → ℕ → WriteResult
write16 none address value = done (null_pointer, none)
write16 (some mem) address value = guarded address 2 (some mem) do
  let low = u8 (bit_and value 0x00FF)
  let high = u8 (bit_and (value >> 8) 0x00FF)
  m1 ← store mem address (if is_little mem.endian then low else high)
  m2 ← store m1 (u64 (address + 1)) (if is_little mem.endian then high else low)
  done (ok, some m2)

-- The casts of `write32` are to `uint16_t`; the array's element type cuts to 8 bits.
unfoldable pub write32 : Option Memory → ℕ → ℕ → WriteResult
write32 none address value = done (null_pointer, none)
write32 (some mem) address value = guarded address 4 (some mem) do
  let byte = λ (k : ℕ). u8 (u16 (bit_and (value >> k) 0x000000FF))
  m1 ← store mem address (if is_little mem.endian then byte 0 else byte 24)
  m2 ← store m1 (u64 (address + 1)) (if is_little mem.endian then byte 8 else byte 16)
  m3 ← store m2 (u64 (address + 2)) (if is_little mem.endian then byte 16 else byte 8)
  m4 ← store m3 (u64 (address + 3)) (if is_little mem.endian then byte 24 else byte 0)
  done (ok, some m4)

-- `for (i = 0; i < 8; ++i) mem->memory[address + i] = byte(i);` from `i` on
unfoldable pub scatter : (ℕ → ℕ) → Memory → ℕ → ℕ → ℕ → Outcome Memory
scatter byte mem address zero i = done mem
scatter byte mem address (suc left) i = do
  m ← store mem (u64 (address + i)) (byte i)
  scatter byte m address left (i + 1)

-- The two casts to `uint8_t` stand at different places.
unfoldable pub write64 : Option Memory → ℕ → ℕ → WriteResult
write64 none address value = done (null_pointer, none)
write64 (some mem) address value = guarded address 8 (some mem) do
  m ←
      scatter
        (λ i.
          if is_little mem.endian
          then u8 (bit_and (value >> (i * 8)) 0xFF)
          else u8 (bit_and (u8 (value >> ((7 - i) * 8))) 0xFF))
        mem address 8 0
  done (ok, some m)
