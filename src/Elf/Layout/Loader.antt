-- ===== src/Elf/Layout/Loader.antt =====
-- The header of include/mips64/elf_loader.h, laid by a compiler, and what `mips64_load_elf` of
-- src/mips64/elf_loader.c makes of it, which reads at offsets of its own.
use mathlib.Core.List.{reverse}
use mips64_emulator.Base.{
  All-append, ℕ, ◌/◌, ◌%◌, ◌^◌, ◌<◌, ◌≤◌, ◌≡◌, refl, ap, ap₂, ◌∙◌, arith, Bool, Bool-cases, inl,
  inr, true, false, ◌&&◌, ◌==◌, some, List, [], ◌∷◌, ◌++◌, length, length-append, All, get_or, done,
  if◌then◌else◌,
}
use mips64_emulator.Types.{Status, invalid_argument}
use mips64_emulator.Memory.Spec.{le_bytes, le_value}
use mips64_emulator.Elf.{is_lsb, elf_read_u16, elf_read_u32, elf_read_u64, data_of, check_class}
use mips64_emulator.Elf.Format.{
  ElfData, Ehdr, ehdr_members, half, word, xword, chars, field, ei_nident, ident_index, ei_class,
  ei_data, elf_class, class64, elf_type, et_exec, elf_machine, em_mips,
}
use mips64_emulator.Elf.Read.{field_at, elf_read-field_at}
use mips64_emulator.Elf.Header.{
  is_mips_executable, verdict, data_verdict, check_class-ident_verdict,
}
use mips64_emulator.Elf.Layout.{
  IsMember, number, image, offset_of, bytes_from, image-content, image-bytes, image-field_at,
  offset_of-length, elf_read-offset_of,
}

abbrev first_four : List ℕ → List ℕ
first_four (a ∷ b ∷ c ∷ d ∷ rest) = a ∷ b ∷ c ∷ d ∷ []
first_four _ = []

abbrev pub half_of : ElfData → ℕ → ℕ
half_of e v = if is_lsb e then v % 2 ^ 32 else v / 2 ^ 32

low_half : (v : ℕ) → le_value (first_four (le_bytes 8 v)) ≡ v % 2 ^ 32
low_half v = omega arith

high_half :
    (v : ℕ) → v < 2 ^ 64 → le_value (reverse (first_four (reverse (le_bytes 8 v)))) ≡ v / 2 ^ 32
high_half v h = omega arith

half-field_at :
    (e : ElfData) (bytes : List ℕ) (a v : ℕ)
    → v < 2 ^ 64
    → bytes_from bytes a 8 ≡ number e 8 v
    → field_at bytes a 4 e ≡ half_of e v
half-field_at e bytes a v h q = elim (Bool-cases (is_lsb e)) [
  | inl y ↦ rw y (ap (λ (bs : List ℕ). le_value (first_four bs)) (rw y at q) ∙ low_half v)
  | inr y ↦
      rw y (ap (λ (bs : List ℕ). le_value (reverse (first_four bs))) (rw y at q) ∙ high_half v h)
]

-- The struct in memory, in a byte order, in front of other bytes.
abbrev pub ehdr_image : ElfData → Ehdr → List ℕ → List ℕ
ehdr_image e h rest = image e 0 (ehdr_members h) ++ rest

-- The values fit their types: `e_ident` has 16 bytes.
abbrev pub IsEhdr : Ehdr → Type 0
IsEhdr h = All IsMember (ehdr_members h)

abbrev is_executable : Ehdr → Bool
is_executable h =
    (h.e_type == elf_type et_exec) && (h.e_version == 1) && (h.e_machine == elf_machine em_mips)

abbrev pub accepts : Ehdr → Bool
accepts h = (get_or h.e_ident (ident_index ei_class) 0 == elf_class class64) && is_executable h

module _ (e : ElfData) (h : Ehdr) (rest : List ℕ) (fits : IsEhdr h)
    (others : All (λ b. b < 256) rest) where
  ehdr_bytes : All (λ b. b < 256) (ehdr_image e h rest)
  ehdr_bytes =
      All-append (λ b. b < 256) (image e 0 (ehdr_members h)) rest
        (image-bytes e 0 (ehdr_members h) fits) others

  -- The last member ends with the 64th byte.
  ehdr_long : 64 ≤ length (ehdr_image e h rest)
  unfolding offset_of
  ehdr_long = omega (
    arith,
    offset_of-length e 0 (ehdr_members h) 13 (field half h.e_shstrndx) fits refl,
    length-append (image e 0 (ehdr_members h)) rest,
  )

  read_phoff : elf_read_u32 (ehdr_image e h rest) 32 e ≡ done (half_of e h.e_phoff)
  unfolding offset_of
  read_phoff =
      elf_read-field_at word (ehdr_image e h rest) 32 e ehdr_bytes (omega (arith, ehdr_long))
      ∙ ap done (
          half-field_at e (ehdr_image e h rest) 32 h.e_phoff (omega arith)
            (image-content e (ehdr_members h) 0 [] rest 5 (field xword h.e_phoff) refl fits refl))

  -- For every ELF header whose values fit their types, laid as the struct of the header file in
  -- either byte order in front of any bytes: the offsets that the loader has as literals
  -- deliver, read with no fault, the members e_type, e_machine, e_version, e_entry, e_ehsize,
  -- e_phentsize and e_phnum; of e_phoff the loader reads half, the lower one if the least
  -- significant byte comes first and the upper one otherwise.
  pub elf_read-Ehdr :
      (elf_read_u16 (ehdr_image e h rest) 16 e ≡ done h.e_type)
      × (elf_read_u16 (ehdr_image e h rest) 18 e ≡ done h.e_machine)
      × (elf_read_u32 (ehdr_image e h rest) 20 e ≡ done h.e_version)
      × (elf_read_u64 (ehdr_image e h rest) 24 e ≡ done h.e_entry)
      × (elf_read_u32 (ehdr_image e h rest) 32 e ≡ done (half_of e h.e_phoff))
      × (elf_read_u16 (ehdr_image e h rest) 52 e ≡ done h.e_ehsize)
      × (elf_read_u16 (ehdr_image e h rest) 54 e ≡ done h.e_phentsize)
      × (elf_read_u16 (ehdr_image e h rest) 56 e ≡ done h.e_phnum)
  unfolding offset_of
  elf_read-Ehdr =
      let ms = ehdr_members h in
      (
        elf_read-offset_of e ms 1 half h.e_type rest fits refl others,
        elf_read-offset_of e ms 2 half h.e_machine rest fits refl others,
        elf_read-offset_of e ms 3 word h.e_version rest fits refl others,
        elf_read-offset_of e ms 4 xword h.e_entry rest fits refl others,
        read_phoff,
        elf_read-offset_of e ms 8 half h.e_ehsize rest fits refl others,
        elf_read-offset_of e ms 9 half h.e_phentsize rest fits refl others,
        elf_read-offset_of e ms 10 half h.e_phnum rest fits refl others,
      )

  ident : bytes_from (ehdr_image e h rest) 0 16 ≡ h.e_ident
  unfolding offset_of
  ident = image-content e (ehdr_members h) 0 [] rest 0 (chars ei_nident h.e_ident) refl fits refl

  executable : is_mips_executable (ehdr_image e h rest) e ≡ is_executable h
  unfolding offset_of
  executable =
      let ms = ehdr_members h in
      let kind : field_at (ehdr_image e h rest) 16 2 e ≡ h.e_type =
        image-field_at e ms 1 half h.e_type rest fits refl in
      let machine : field_at (ehdr_image e h rest) 18 2 e ≡ h.e_machine =
        image-field_at e ms 2 half h.e_machine rest fits refl in
      let version : field_at (ehdr_image e h rest) 20 4 e ≡ h.e_version =
        image-field_at e ms 3 word h.e_version rest fits refl in
      cc

  data_verdict-eq :
      data_of (get_or h.e_ident (ident_index ei_data) 0) ≡ some e
      → data_verdict (ehdr_image e h rest) (data_of (get_or (ehdr_image e h rest) 5 0))
        ≡ verdict (is_executable h)
  data_verdict-eq named =
      ap (λ (b : ℕ). data_verdict (ehdr_image e h rest) (data_of b))
        (ap (λ (bs : List ℕ). get_or bs 5 0) ident)
      ∙ ap (data_verdict (ehdr_image e h rest)) named
      ∙ ap verdict executable

  -- For every ELF header whose values fit their types, laid as the struct of the header file in
  -- the byte order that its data byte names, in front of any bytes: behind the magic number it
  -- is accepted, with no read outside, exactly if its class is ELFCLASS64, its type ET_EXEC, its
  -- version 1 and its machine EM_MIPS; otherwise the argument is refused.
  pub check_class-Ehdr :
      data_of (get_or h.e_ident (ident_index ei_data) 0) ≡ some e
      → check_class (ehdr_image e h rest) ≡ done (verdict (accepts h))
  check_class-Ehdr named =
      check_class-ident_verdict (ehdr_image e h rest) ehdr_bytes ehdr_long
      ∙ ap done (
          ap₂ (λ (c : ℕ) (s : Status). if c == 2 then s else invalid_argument)
            (ap (λ (bs : List ℕ). get_or bs 4 0) ident) (data_verdict-eq named)
          ∙ by_class (get_or h.e_ident 4 0 == 2) (is_executable h))
    where
      by_class : (a b : Bool) → (if a then verdict b else invalid_argument) ≡ verdict (a && b)
      by_class true b = refl
      by_class false b = refl
