-- ===== src/Elf/Header.antt =====
-- What `mips64_load_elf` of src/mips64/elf_loader.c accepts.
use mips64_emulator.Base.{
  ℕ, ◌<◌, ◌≤◌, ◌≡◌, refl, arith, Bool-cases, Bool, true, false, inl, inr, not, ◌&&◌, Option, none,
  some, List, length, All, get_or, get_elem?-get_or, done, ltb, ◌==◌, if◌then◌else◌,
}
use mips64_emulator.Types.{Status, ok, invalid_argument}
use mips64_emulator.Emulator.{Emulator}
use mips64_emulator.Elf.Format.{ElfData, half, word, xword}
use mips64_emulator.Elf.{
  at, magic_differs, data_of, check_fields, check_data, check_class, load_elf,
}
use mips64_emulator.Elf.Read.{field_at, elf_read-field_at}

-- The values of `e_type`, `e_version` and `e_machine`: an executable for MIPS.
abbrev pub is_mips_executable : List ℕ → ElfData → Bool
is_mips_executable bytes e =
    (field_at bytes 16 2 e == 2) && (field_at bytes 20 4 e == 1) && (field_at bytes 18 2 e == 8)

abbrev pub verdict : Bool → Status
verdict accepted = if accepted then ok else invalid_argument

abbrev pub data_verdict : List ℕ → Option ElfData → Status
data_verdict bytes none = invalid_argument
data_verdict bytes (some e) = verdict (is_mips_executable bytes e)

-- The class byte asks for 64 bits and the data byte names a byte order.
abbrev pub ident_verdict : List ℕ → Status
ident_verdict bytes =
    if get_or bytes 4 0 == 2
    then data_verdict bytes (data_of (get_or bytes 5 0))
    else invalid_argument

three_tests :
    (p q r : Bool)
    → (if not p
        then done invalid_argument
        else if not q
        then done invalid_argument
        else if not r
        then done invalid_argument
        else done ok)
      ≡ done (verdict (p && q && r))
three_tests true true true = refl
three_tests true true false = refl
three_tests true false r = refl
three_tests false q r = refl

-- Byte 1 would have to be `E` and 0x7F at once.
one_byte_twice :
    (b0 b1 b2 b3 : ℕ)
    → (if not (b0 == 0x7F)
        then done true
        else if not (b1 == b'E')
        then done true
        else if not (b2 == b'L')
        then done true
        else if not (b1 == 0x7F)
        then done true
        else if not (b3 == b'F')
        then done true
        else done false)
      ≡ done true
one_byte_twice b0 b1 b2 b3 = ground arith

size_enough : (a b : ℕ) → ltb a b ≡ false → b ≤ a
size_enough a b e = ground arith

module _ (bytes : List ℕ) (long : 64 ≤ length bytes) where
  at-eq : (k : ℕ) → k < 64 → at bytes k ≡ done (get_or bytes k 0)
  at-eq k p = rw (get_elem?-get_or bytes k 0 (omega arith))

  magic_differs-true : magic_differs bytes ≡ done true
  unfolding magic_differs
  magic_differs-true =
      rw
        (at-eq 0 (omega arith), at-eq 1 (omega arith), at-eq 2 (omega arith), at-eq 3 (omega arith))
        (one_byte_twice (get_or bytes 0 0) (get_or bytes 1 0) (get_or bytes 2 0) (get_or bytes 3 0))

module _ (bytes : List ℕ) (h : All (λ b. b < 256) bytes) (long : 64 ≤ length bytes) where
  pub check_fields-eq :
      (e : ElfData) → check_fields bytes e ≡ done (verdict (is_mips_executable bytes e))
  unfolding check_fields
  check_fields-eq e =
      rw
        (
          elf_read-field_at half bytes 16 e h (omega arith),
          elf_read-field_at half bytes 18 e h (omega arith),
          elf_read-field_at word bytes 20 e h (omega arith),
          elf_read-field_at xword bytes 24 e h (omega arith),
          elf_read-field_at word bytes 32 e h (omega arith),
          elf_read-field_at half bytes 52 e h (omega arith),
          elf_read-field_at half bytes 54 e h (omega arith),
          elf_read-field_at half bytes 56 e h (omega arith),
        )
        (three_tests (field_at bytes 16 2 e == 2) (field_at bytes 20 4 e == 1)
          (field_at bytes 18 2 e == 8))

  check_data-eq :
      (order : Option ElfData) → check_data bytes order ≡ done (data_verdict bytes order)
  check_data-eq none = refl
  check_data-eq (some e) = check_fields-eq e

  -- Behind the magic number, a buffer of at least 64 bytes is accepted exactly when its class
  -- byte asks for 64 bits, its data byte names a byte order, and in that byte order the type is
  -- 2, the version 1 and the machine 8; otherwise the argument is refused, with no read outside
  -- the buffer.
  pub check_class-ident_verdict : check_class bytes ≡ done (ident_verdict bytes)
  check_class-ident_verdict =
      rw (at-eq bytes long 4 (omega arith)) (elim (Bool-cases (get_or bytes 4 0 == 2)) [
        | inl same ↦
            rw (same, at-eq bytes long 5 (omega arith)) (check_data-eq (data_of (get_or bytes 5 0)))
        | inr other ↦ rw other refl
      ])

-- For every emulator pointer and every buffer that is at least as long as its given size,
-- loading an ELF file refuses the argument and reads nothing outside the buffer: no file is
-- accepted.
pub load_elf-invalid_argument :
    (emulator : Option Emulator) (bytes : List ℕ) (size : ℕ)
    → size ≤ length bytes
    → load_elf emulator (some bytes) size ≡ done invalid_argument
unfolding load_elf
load_elf-invalid_argument none bytes size p = refl
load_elf-invalid_argument (some emulator) bytes size p = elim (Bool-cases (ltb size 64)) [
  | inl short ↦ rw short refl
  | inr enough ↦
      rw (enough, magic_differs-true bytes (omega (arith, size_enough size 64 enough))) refl
]
