-- ===== src/Elf.antt =====
-- kernel/elf.hpp: the structures and numbers of an ELF file.
use mikanos_aarch.Prelude.{ℕ, ◌+◌, ◌*◌, ◌/◌, ◌%◌, ◌^◌, List}

-- `Elf64_Ehdr`.
pub record Ehdr : Type 0 where
  pub e_ident : List ℕ
  pub e_type : ℕ
  pub e_machine : ℕ
  pub e_version : ℕ
  pub e_entry : ℕ
  pub e_phoff : ℕ
  pub e_shoff : ℕ
  pub e_flags : ℕ
  pub e_ehsize : ℕ
  pub e_phentsize : ℕ
  pub e_phnum : ℕ
  pub e_shentsize : ℕ
  pub e_shnum : ℕ
  pub e_shstrndx : ℕ

-- `Elf64_Phdr`.
pub record Phdr : Type 0 where
  pub p_type : ℕ
  pub p_flags : ℕ
  pub p_offset : ℕ
  pub p_vaddr : ℕ
  pub p_paddr : ℕ
  pub p_filesz : ℕ
  pub p_memsz : ℕ
  pub p_align : ℕ

-- `Elf64_Rela`.
pub record Rela : Type 0 where
  pub r_offset : ℕ
  pub r_info : ℕ
  -- an `int64_t`, as the 64-bit word that stores it
  pub r_addend : ℕ

abbrev pub ei_nident : ℕ
ei_nident = 16

abbrev pub pt_null : ℕ
pt_null = 0

abbrev pub pt_load : ℕ
pt_load = 1

abbrev pub pt_dynamic : ℕ
pt_dynamic = 2

abbrev pub pt_interp : ℕ
pt_interp = 3

abbrev pub pt_note : ℕ
pt_note = 4

abbrev pub pt_shlib : ℕ
pt_shlib = 5

abbrev pub pt_phdr : ℕ
pt_phdr = 6

abbrev pub pt_tls : ℕ
pt_tls = 7

abbrev pub dt_null : ℕ
dt_null = 0

abbrev pub dt_rela : ℕ
dt_rela = 7

abbrev pub dt_relasz : ℕ
dt_relasz = 8

abbrev pub dt_relaent : ℕ
dt_relaent = 9

abbrev pub r_x86_64_relative : ℕ
r_x86_64_relative = 8

-- `ELF64_R_SYM`, `ELF64_R_TYPE` and `ELF64_R_INFO` on 64-bit numbers.
abbrev pub elf64_r_sym : ℕ → ℕ
elf64_r_sym i = i / 2 ^ 32

abbrev pub elf64_r_type : ℕ → ℕ
elf64_r_type i = i % 2 ^ 32

abbrev pub elf64_r_info : ℕ → ℕ → ℕ
elf64_r_info s t = (s * 2 ^ 32 + t % 2 ^ 32) % 2 ^ 64
