-- ===== src/Elf.antt =====
-- src/elf.c: the executable file. A buffer is the list of its bytes.
pub mod Bytes
pub mod Header
pub mod Align
pub mod Dynamic
pub mod Sections
pub mod Preprocess
pub mod Segments
pub mod Table
pub mod Generate
pub mod Reader
pub mod Parts
pub mod Readback
pub mod Reserved
pub mod Layout
pub mod Whole
mod Tests
use shecc.Prelude.{ℕ, Bool, List}

abbrev pub Buf : Type 0
Buf = List ℕ

-- What the build defines for a target: `ELF_MACHINE`, `ELF_FLAGS`, `DYN_LINKER`, `LIBC_SO`,
-- `PLT_FIXUP_SIZE`, `PLT_ENT_SIZE` and `R_ARCH_JUMP_SLOT`.
pub record Target : Type 0 where
  pub elf_machine : ℕ
  pub elf_flags : ℕ
  pub dyn_linker : Buf
  pub libc_so : Buf
  pub plt_fixup_size : ℕ
  pub plt_ent_size : ℕ
  pub r_arch_jump_slot : ℕ

-- Of a `func_t`: its name, `is_used`, whether `bbs` is set, and the two offsets.
pub record Func : Type 0 where
  pub var_name : Buf
  pub is_used : Bool
  pub has_bbs : Bool
  pub plt_offset : ℕ
  pub got_offset : ℕ

-- The buffers and numbers of the globals with the prefix `elf_` and of `dynamic_sections`, with
-- `FUNC_LIST`. No sum of sizes reaches 2 ^ 32, so additions do not wrap.
pub record Elf : Type 0 where
  pub dynlink : Bool
  pub funcs : List Func
  pub elf_offset : ℕ
  pub elf_code : Buf
  pub elf_data : Buf
  pub elf_rodata : Buf
  pub elf_symtab : Buf
  pub elf_strtab : Buf
  pub elf_shstrtab : Buf
  pub elf_header : Buf
  pub elf_program_header : Buf
  pub elf_section_header : Buf
  pub elf_interp : Buf
  pub elf_dynamic : Buf
  pub elf_dynsym : Buf
  pub elf_dynstr : Buf
  pub elf_relplt : Buf
  pub elf_plt : Buf
  pub elf_got : Buf
  pub elf_header_len : ℕ
  pub elf_code_start : ℕ
  pub elf_data_start : ℕ
  pub elf_rodata_start : ℕ
  pub elf_bss_start : ℕ
  pub elf_bss_size : ℕ
  pub elf_symbol_index : ℕ
  pub elf_interp_start : ℕ
  pub elf_relplt_start : ℕ
  pub elf_plt_start : ℕ
  pub elf_got_start : ℕ
  pub relplt_size : ℕ
  pub plt_size : ℕ
  pub got_size : ℕ

abbrev pub elf_start : ℕ
elf_start = 0x10000

abbrev pub page_size : ℕ
page_size = 4096

abbrev pub ptr_size : ℕ
ptr_size = 4
