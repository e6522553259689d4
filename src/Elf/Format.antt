-- ===== src/Elf/Format.antt =====
-- The constants, the types and the two structs of include/mips64/elf_loader.h.
use mips64_emulator.Base.{ℕ, List, [], ◌∷◌}

-- `EI_NIDENT`, and `ELFMAG0` to `ELFMAG3`
abbrev pub ei_nident : ℕ
ei_nident = 16

abbrev pub elfmag0 : ℕ
elfmag0 = 0x7F

abbrev pub elfmag1 : ℕ
elfmag1 = b'E'

abbrev pub elfmag2 : ℕ
elfmag2 = b'L'

abbrev pub elfmag3 : ℕ
elfmag3 = b'F'

-- `Mips64ElfIdentIndex`
pub data IdentIndex : Type 0 where
  ei_mag0 ei_mag1 ei_mag2 ei_mag3 ei_class ei_data ei_version ei_osabi ei_abiversion ei_pad :
      IdentIndex

abbrev pub ident_index : IdentIndex → ℕ
ident_index ei_mag0 = 0
ident_index ei_mag1 = 1
ident_index ei_mag2 = 2
ident_index ei_mag3 = 3
ident_index ei_class = 4
ident_index ei_data = 5
ident_index ei_version = 6
ident_index ei_osabi = 7
ident_index ei_abiversion = 8
ident_index ei_pad = 9

-- `Mips64ElfClass`
pub data ElfClass : Type 0 where
  none_class class32 class64 : ElfClass

abbrev pub elf_class : ElfClass → ℕ
elf_class none_class = 0
elf_class class32 = 1
elf_class class64 = 2

-- `Mips64ElfData`
pub data ElfData : Type 0 where
  none_data lsb msb : ElfData

abbrev pub elf_data : ElfData → ℕ
elf_data none_data = 0
elf_data lsb = 1
elf_data msb = 2

-- `Mips64ElfType`
pub data ElfType : Type 0 where
  et_none et_rel et_exec et_dyn et_core : ElfType

abbrev pub elf_type : ElfType → ℕ
elf_type et_none = 0
elf_type et_rel = 1
elf_type et_exec = 2
elf_type et_dyn = 3
elf_type et_core = 4

-- `Mips64ElfMachine`
pub data ElfMachine : Type 0 where
  em_mips : ElfMachine

abbrev pub elf_machine : ElfMachine → ℕ
elf_machine em_mips = 8

-- `Mips64ElfProgramType`
pub data ProgramType : Type 0 where
  pt_null pt_load pt_dynamic pt_interp pt_note pt_shlib pt_phdr : ProgramType

abbrev pub program_type : ProgramType → ℕ
program_type pt_null = 0
program_type pt_load = 1
program_type pt_dynamic = 2
program_type pt_interp = 3
program_type pt_note = 4
program_type pt_shlib = 5
program_type pt_phdr = 6

-- `Mips64ElfProgramFlags`
pub data ProgramFlag : Type 0 where
  pf_x pf_w pf_r : ProgramFlag

abbrev pub program_flag : ProgramFlag → ℕ
program_flag pf_x = 1
program_flag pf_w = 2
program_flag pf_r = 4

-- The widths of the typedefs: `Elf64_Half`; `Elf64_Word`; and `Elf64_Addr`, `Elf64_Off` and
-- `Elf64_Xword`.
pub data Field : Type 0 where
  half word xword : Field

abbrev pub field_size : Field → ℕ
field_size half = 2
field_size word = 4
field_size xword = 8

-- `Elf64_Ehdr`
pub record Ehdr : Type 0 where
  pub e_ident : List ℕ
  pub e_type : ℕ
  pub e_machine : ℕ
  pub e_version : ℕ
  pub e_entry : ℕ
  pub e_phoff : ℕ
  pub e_shoff : ℕ
  pub e_flags : ℕ
  pub e_ehsize : ℕ
  pub e_phentsize : ℕ
  pub e_phnum : ℕ
  pub e_shentsize : ℕ
  pub e_shnum : ℕ
  pub e_shstrndx : ℕ

-- `Elf64_Phdr`
pub record Phdr : Type 0 where
  pub p_type : ℕ
  pub p_flags : ℕ
  pub p_offset : ℕ
  pub p_vaddr : ℕ
  pub p_paddr : ℕ
  pub p_filesz : ℕ
  pub p_memsz : ℕ
  pub p_align : ℕ

-- A member of a struct: its width is that of its typedef, and an array has its length.
pub data Member : Type 0 where
  chars : ℕ → List ℕ → Member
  field : Field → ℕ → Member

-- The members with their types, in the order of the declarations.
abbrev pub ehdr_members : Ehdr → List Member
ehdr_members h =
    chars ei_nident h.e_ident
    ∷ field half h.e_type
    ∷ field half h.e_machine
    ∷ field word h.e_version
    ∷ field xword h.e_entry
    ∷ field xword h.e_phoff
    ∷ field xword h.e_shoff
    ∷ field word h.e_flags
    ∷ field half h.e_ehsize
    ∷ field half h.e_phentsize
    ∷ field half h.e_phnum
    ∷ field half h.e_shentsize
    ∷ field half h.e_shnum
    ∷ field half h.e_shstrndx
    ∷ []

abbrev pub phdr_members : Phdr → List Member
phdr_members h =
    field word h.p_type
    ∷ field word h.p_flags
    ∷ field xword h.p_offset
    ∷ field xword h.p_vaddr
    ∷ field xword h.p_paddr
    ∷ field xword h.p_filesz
    ∷ field xword h.p_memsz
    ∷ field xword h.p_align
    ∷ []
