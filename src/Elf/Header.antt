-- ===== src/Elf/Header.antt =====
-- src/defs.h: the structures of an ELF file, and their bytes in memory on a little-endian host.
use shecc.Prelude.{ℕ, ◌≡◌, refl, List, [], ◌∷◌, ◌++◌, length}
use shecc.Elf.{Buf}
use shecc.Elf.Bytes.{int_bytes}

-- A list of `int` fields, one after the other.
unfoldable pub ints : List ℕ → Buf
ints [] = []
ints (v ∷ vs) = int_bytes v ++ ints vs

-- The fields that are arrays of `char` are lists of bytes.
pub record Hdr : Type 0 where
  pub e_ident : Buf
  pub e_type : Buf
  pub e_machine : Buf
  pub e_version : ℕ
  pub e_entry : ℕ
  pub e_phoff : ℕ
  pub e_shoff : ℕ
  pub e_flags : ℕ
  pub e_ehsize : Buf
  pub e_phentsize : Buf
  pub e_phnum : Buf
  pub e_shentsize : Buf
  pub e_shnum : Buf
  pub e_shstrndx : Buf

pub record Phdr : Type 0 where
  pub p_type : ℕ
  pub p_offset : ℕ
  pub p_vaddr : ℕ
  pub p_paddr : ℕ
  pub p_filesz : ℕ
  pub p_memsz : ℕ
  pub p_flags : ℕ
  pub p_align : ℕ

pub record Shdr : Type 0 where
  pub sh_name : ℕ
  pub sh_type : ℕ
  pub sh_flags : ℕ
  pub sh_addr : ℕ
  pub sh_offset : ℕ
  pub sh_size : ℕ
  pub sh_link : ℕ
  pub sh_info : ℕ
  pub sh_addralign : ℕ
  pub sh_entsize : ℕ

-- A symbol without `st_value`, `st_size`, `st_other` and `st_shndx`, which are zero.
pub record Sym : Type 0 where
  pub st_name : ℕ
  pub st_info : ℕ

pub record Rel : Type 0 where
  pub r_offset : ℕ
  pub r_info : ℕ

abbrev pub sizeof_hdr : ℕ
sizeof_hdr = 52

abbrev pub sizeof_phdr : ℕ
sizeof_phdr = 32

abbrev pub sizeof_shdr : ℕ
sizeof_shdr = 40

abbrev pub sizeof_sym : ℕ
sizeof_sym = 16

abbrev pub sizeof_rel : ℕ
sizeof_rel = 8

abbrev pub sizeof_dyn : ℕ
sizeof_dyn = 8

unfoldable pub hdr_bytes : Hdr → Buf
unfolding ints
hdr_bytes h =
    h.e_ident
    ++ h.e_type
    ++ h.e_machine
    ++ ints (h.e_version ∷ h.e_entry ∷ h.e_phoff ∷ h.e_shoff ∷ h.e_flags ∷ [])
    ++ h.e_ehsize
    ++ h.e_phentsize
    ++ h.e_phnum
    ++ h.e_shentsize
    ++ h.e_shnum
    ++ h.e_shstrndx

unfoldable pub phdr_bytes : Phdr → Buf
unfolding ints
phdr_bytes h = ints (
    h.p_type ∷ h.p_offset ∷ h.p_vaddr ∷ h.p_paddr ∷ h.p_filesz ∷ h.p_memsz ∷ h.p_flags ∷ h.p_align
    ∷ [])

unfoldable pub shdr_bytes : Shdr → Buf
unfolding ints
shdr_bytes h = ints (
    h.sh_name ∷ h.sh_type ∷ h.sh_flags ∷ h.sh_addr ∷ h.sh_offset ∷ h.sh_size ∷ h.sh_link ∷ h.sh_info
    ∷ h.sh_addralign ∷ h.sh_entsize ∷ [])

unfoldable pub sym_bytes : Sym → Buf
unfolding ints
sym_bytes s = ints (s.st_name ∷ 0 ∷ 0 ∷ []) ++ s.st_info ∷ 0 ∷ 0 ∷ 0 ∷ []

unfoldable pub rel_bytes : Rel → Buf
unfolding ints
rel_bytes r = ints (r.r_offset ∷ r.r_info ∷ [])

-- An entry of the dynamic section: `d_tag` and `d_un`.
unfoldable pub dyn_bytes : ℕ → ℕ → Buf
unfolding ints
dyn_bytes d_tag d_un = ints (d_tag ∷ d_un ∷ [])

pub length-phdr_bytes : (h : Phdr) → length (phdr_bytes h) ≡ sizeof_phdr
unfolding phdr_bytes ints int_bytes
length-phdr_bytes h = refl

pub length-shdr_bytes : (h : Shdr) → length (shdr_bytes h) ≡ sizeof_shdr
unfolding shdr_bytes ints int_bytes
length-shdr_bytes h = refl

pub length-sym_bytes : (s : Sym) → length (sym_bytes s) ≡ sizeof_sym
unfolding sym_bytes ints int_bytes
length-sym_bytes s = refl

pub length-rel_bytes : (r : Rel) → length (rel_bytes r) ≡ sizeof_rel
unfolding rel_bytes ints int_bytes
length-rel_bytes r = refl

pub length-dyn_bytes : (d_tag d_un : ℕ) → length (dyn_bytes d_tag d_un) ≡ sizeof_dyn
unfolding dyn_bytes ints int_bytes
length-dyn_bytes d_tag d_un = refl
