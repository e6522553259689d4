-- ===== src/Elf/Tests.antt =====
-- ELF headers and names at concrete inputs.
use mips64_emulator.Base.{
  ℕ, ◌+◌, length, ◌++◌, ◌^◌, ◌<◌, All, ◌≡◌, refl, arith, some, done, List, [], ◌∷◌, replicate,
}
use mips64_emulator.Types.{ok, invalid_argument, big}
use mips64_emulator.Emulator.{Emulator, fresh}
use mips64_emulator.Elf.Format.{
  lsb, msb, xword, Ehdr, Phdr, ehdr_members, phdr_members, program_type, pt_load, program_flag,
  pf_r, pf_x,
}
use mips64_emulator.Elf.Layout.{image, offset_of, elf_read-offset_of}
use mips64_emulator.Elf.Layout.Loader.{IsEhdr, ehdr_image, elf_read-Ehdr, check_class-Ehdr}
use mips64_emulator.Elf.{
  elf_read_u16, elf_read_u32, elf_read_u64, load_elf, hash_table, hash_loop, hash_step, check_class,
}
use mips64_emulator.Elf.Read.{elf_read}
use mips64_emulator.Elf.Hash.{elf_hash, hash_table-elf_hash}
use mips64_emulator.Elf.Header.{load_elf-invalid_argument}

-- A correct header of an executable for MIPS, least significant byte first.
abbrev header : List ℕ
header =
    0x7F
    ∷ b'E'
    ∷ b'L'
    ∷ b'F'
    ∷ 2
    ∷ 1
    ∷ 1
    ∷ 0
    ∷ 0
    ∷ 0
    ∷ 0
    ∷ 0
    ∷ 0
    ∷ 0
    ∷ 0
    ∷ 0
    ∷ 2
    ∷ 0
    ∷ 8
    ∷ 0
    ∷ 1
    ∷ 0
    ∷ 0
    ∷ 0
    ∷ 0x00
    ∷ 0x10
    ∷ 0x40
    ∷ replicate 37 0

abbrev machine : Emulator
machine =
    fresh (record { memory_size = 8; reset_pc = 0; endian = big; clear_memory_on_reset = 1 })
      (replicate 8 0)

header_bytes : All (λ b. b < 256) header
header_bytes = omega arith

load_elf-invalid_argument_example : load_elf (some machine) (some header) 64 ≡ done invalid_argument
load_elf-invalid_argument_example = load_elf-invalid_argument (some machine) header 64 (omega arith)

most_significant_first : elf_read_u32 (0x12 ∷ 0x34 ∷ 0x56 ∷ 0x78 ∷ []) 0 msb ≡ done 0x12345678
unfolding elf_read_u32
most_significant_first = refl

abbrev printf : List ℕ
printf = b'p' ∷ b'r' ∷ b'i' ∷ b'n' ∷ b't' ∷ b'f' ∷ []

printf_hash : hash_table (some 0) (some (printf ++ 0 ∷ [])) ≡ done (ok, some 0x077905A6)
unfolding hash_table hash_loop hash_step
printf_hash = refl

hash_table-elf_hash_example :
    (hash_table (some 5) (some (printf ++ 0 ∷ b'x' ∷ [])) ≡ done (ok, some 0x077905A6))
    × (elf_hash 0 printf < 2 ^ 28)
hash_table-elf_hash_example = hash_table-elf_hash 5 printf (b'x' ∷ []) (omega arith)

-- A header of an executable, most significant byte first.
abbrev executable : Ehdr
executable = record {
  e_ident = 0x7F ∷ b'E' ∷ b'L' ∷ b'F' ∷ 2 ∷ 2 ∷ 1 ∷ replicate 9 0;
  e_type = 2;
  e_machine = 8;
  e_version = 1;
  e_entry = 0xFFFFFFFF80001000;
  e_phoff = 64;
  e_shoff = 0;
  e_flags = 0x60000000;
  e_ehsize = 64;
  e_phentsize = 56;
  e_phnum = 1;
  e_shentsize = 0;
  e_shnum = 0;
  e_shstrndx = 0;
}

executable-IsEhdr : IsEhdr executable
executable-IsEhdr = omega arith

abbrev segment : Phdr
segment = record {
  p_type = program_type pt_load;
  p_flags = program_flag pf_r + program_flag pf_x;
  p_offset = 0x1000;
  p_vaddr = 0xFFFFFFFF80000000;
  p_paddr = 0;
  p_filesz = 0x400;
  p_memsz = 0x500;
  p_align = 0x1000;
}

-- The two structs have 64 and 56 bytes.
ehdr_size : length (image lsb 0 (ehdr_members executable)) ≡ 64
unfolding image
ehdr_size = refl

phdr_size : length (image msb 0 (phdr_members segment)) ≡ 56
unfolding image
phdr_size = refl

elf_read-offset_of_example :
    elf_read xword
      (image msb 0 (phdr_members segment) ++ header)
      (offset_of 0 (phdr_members segment) 3)
      msb
    ≡ done 0xFFFFFFFF80000000
elf_read-offset_of_example =
    elf_read-offset_of msb (phdr_members segment) 3 xword 0xFFFFFFFF80000000 header (omega arith)
      refl header_bytes

-- The loader takes the offset of the program headers for 0.
elf_read-Ehdr_example :
    let bytes = ehdr_image msb executable header in
    (elf_read_u16 bytes 16 msb ≡ done 2)
    × (elf_read_u16 bytes 18 msb ≡ done 8)
    × (elf_read_u32 bytes 20 msb ≡ done 1)
    × (elf_read_u64 bytes 24 msb ≡ done 0xFFFFFFFF80001000)
    × (elf_read_u32 bytes 32 msb ≡ done 0)
    × (elf_read_u16 bytes 52 msb ≡ done 64)
    × (elf_read_u16 bytes 54 msb ≡ done 56)
    × (elf_read_u16 bytes 56 msb ≡ done 1)
elf_read-Ehdr_example = elf_read-Ehdr msb executable header executable-IsEhdr header_bytes

check_class-Ehdr_example : check_class (ehdr_image msb executable header) ≡ done ok
check_class-Ehdr_example =
    check_class-Ehdr msb executable header executable-IsEhdr header_bytes refl
