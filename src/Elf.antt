-- ===== src/Elf.antt =====
-- ELF headers and the ELF symbol hash: include/mips64/elf_loader.h and src/mips64/elf_loader.c.
-- A pointer into a buffer is the buffer with an offset; a read outside it is a `fault`.
pub mod Format
pub mod Layout
pub mod Read
pub mod Header
pub mod Hash
mod Tests
use mips64_emulator.Base.{
  ℕ, zero, suc, ◌+◌, ◌-◌, ◌*◌, ◌^◌, Bool, true, false, not, ◌||◌, Option, none, some, List, [], ◌∷◌,
  Outcome, done, fault, access, ◌>>=◌, get_elem?, ltb, ◌==◌, if◌then◌else◌, bit_and, bit_or, u16,
  u32, u64, ◌<<◌, ◌>>◌,
}
use Prim.Native.Nat.{bit_xor}
use mips64_emulator.Types.{Status, ok, invalid_argument}
use mips64_emulator.Emulator.{Emulator}
use mips64_emulator.Elf.Format.{
  elfmag0, elfmag1, elfmag2, elfmag3, ident_index, ei_mag0, ei_mag1, ei_mag2, ei_mag3, ei_class,
  ei_data, elf_class, class64, ElfData, lsb, msb, elf_data, elf_type, et_exec, elf_machine, em_mips,
}

abbrev pub is_lsb : ElfData → Bool
is_lsb lsb = true
is_lsb _ = false

-- `data[k]`
abbrev pub at : List ℕ → ℕ → Outcome ℕ
at bytes k = access (get_elem? bytes k)

unfoldable pub elf_read_u16 : List ℕ → ℕ → ElfData → Outcome ℕ
elf_read_u16 bytes offset endian = do
  b0 ← at bytes offset
  b1 ← at bytes (offset + 1)
  done (u16 (if is_lsb endian then bit_or b0 (b1 << 8) else bit_or (b0 << 8) b1))

unfoldable pub elf_read_u32 : List ℕ → ℕ → ElfData → Outcome ℕ
elf_read_u32 bytes offset endian = do
  b0 ← at bytes offset
  b1 ← at bytes (offset + 1)
  b2 ← at bytes (offset + 2)
  b3 ← at bytes (offset + 3)
  done (
      if is_lsb endian
      then bit_or (bit_or (bit_or b0 (u32 (b1 << 8))) (u32 (b2 << 16))) (u32 (b3 << 24))
      else bit_or (bit_or (bit_or (u32 (b0 << 24)) (u32 (b1 << 16))) (u32 (b2 << 8))) b3)

-- `for (i = 7; i >= 0; i--)`, with `left` rounds left: the next index is `left - 1`.
unfoldable pub read_down : List ℕ → ℕ → ℕ → ℕ → Outcome ℕ
read_down bytes offset zero value = done value
read_down bytes offset (suc left) value = do
  b ← at bytes (offset + left)
  read_down bytes offset left (bit_or (u64 (value << 8)) b)

-- `for (i = 0; i < 8; i++)`, from `i` on
unfoldable pub read_up : List ℕ → ℕ → ℕ → ℕ → ℕ → Outcome ℕ
read_up bytes offset zero i value = done value
read_up bytes offset (suc left) i value = do
  b ← at bytes (offset + i)
  read_up bytes offset left (i + 1) (bit_or (u64 (value << 8)) b)

unfoldable pub elf_read_u64 : List ℕ → ℕ → ElfData → Outcome ℕ
elf_read_u64 bytes offset endian =
    if is_lsb endian then read_down bytes offset 8 0 else read_up bytes offset 8 0 0

-- `bytes[k] != v || rest`: `rest` is computed only if the byte agrees.
abbrev pub differs_or : List ℕ → ℕ → ℕ → Outcome Bool → Outcome Bool
differs_or bytes k v rest = at bytes k >>= λ b. if not (b == v) then done true else rest

-- The test of the magic number, in the order of the source: byte 1 stands in it twice.
unfoldable pub magic_differs : List ℕ → Outcome Bool
magic_differs bytes = differs_or bytes (ident_index ei_mag0) elfmag0 (
    differs_or bytes (ident_index ei_mag1) elfmag1 (
      differs_or bytes (ident_index ei_mag2) elfmag2 (
        differs_or bytes (ident_index ei_mag1) elfmag0
          (differs_or bytes (ident_index ei_mag3) elfmag3 (done false)))))

-- The byte order that a data byte names.
abbrev pub data_of : ℕ → Option ElfData
data_of b = if b == elf_data lsb then some lsb else if b == elf_data msb then some msb else none

-- The fields of the header, read in the order of the source, and the three tests on them.
unfoldable pub check_fields : List ℕ → ElfData → Outcome Status
check_fields bytes endian = do
  e_type ← elf_read_u16 bytes 16 endian
  e_machine ← elf_read_u16 bytes 18 endian
  e_version ← elf_read_u32 bytes 20 endian
  e_entry ← elf_read_u64 bytes 24 endian
  e_phoff ← elf_read_u32 bytes 32 endian
  e_ehsize ← elf_read_u16 bytes 52 endian
  e_phentsize ← elf_read_u16 bytes 54 endian
  e_phnum ← elf_read_u16 bytes 56 endian
  if not (e_type == elf_type et_exec)
      then done invalid_argument
      else if not (e_version == 1)
      then done invalid_argument
      else if not (e_machine == elf_machine em_mips)
      then done invalid_argument
      else done ok

abbrev pub check_data : List ℕ → Option ElfData → Outcome Status
check_data bytes none = done invalid_argument
check_data bytes (some endian) = check_fields bytes endian

-- What follows the magic number: the class, then the byte order and the fields.
abbrev pub check_class : List ℕ → Outcome Status
check_class bytes = at bytes (ident_index ei_class) >>= λ class.
    if not (class == elf_class class64)
    then done invalid_argument
    else (at bytes (ident_index ei_data) >>= λ order. check_data bytes (data_of order))

unfoldable pub load_elf : Option Emulator → Option (List ℕ) → ℕ → Outcome Status
load_elf none bytes size = done invalid_argument
load_elf (some emulator) none size = done invalid_argument
load_elf (some emulator) (some bytes) size =
    if ltb size 64
    then done invalid_argument
    else (magic_differs bytes >>= λ differs.
        if differs then done invalid_argument else check_class bytes)

-- One round of the hash: `hash = (hash << 4) + c`, then the top four bits are folded in and cut.
unfoldable pub hash_step : ℕ → ℕ → ℕ
hash_step hash c =
    let h = u32 (u32 (hash << 4) + c) in
    let g = bit_and h 0xF0000000 in
    if not (g == 0) then bit_and (bit_xor h (g >> 24)) (2 ^ 32 - 1 - g) else h

-- The bytes of a C string: it ends at its first 0, and there has to be one.
unfoldable pub hash_loop : ℕ → List ℕ → Outcome ℕ
hash_loop hash [] = fault
hash_loop hash (c ∷ name) =
    let rest = hash_loop (hash_step hash c) name in if c == 0 then done hash else rest

unfoldable pub hash_table : Option ℕ → Option (List ℕ) → Outcome (Status × Option ℕ)
hash_table none name = done (invalid_argument, none)
hash_table (some old) none = done (invalid_argument, some old)
hash_table (some old) (some name) = hash_loop 0 name >>= λ h. done (ok, some h)
