-- ===== src/Elf/Preprocess.antt =====
-- src/elf.c: `elf_preprocess`, which places the sections in memory.
use shecc.Prelude.{ℕ, ◌+◌, ◌*◌, Bool, true, false, List, [], ◌∷◌, length, if◌then◌else◌}
use shecc.Elf.{Target, Func, Elf, elf_start, page_size, ptr_size}
use shecc.Elf.Align.{align, align4}
use shecc.Elf.Header.{sizeof_hdr, sizeof_phdr, sizeof_rel}
use shecc.Elf.Dynamic.{is_external}
use shecc.Elf.Sections.{generate_sections}

-- The three sizes.
pub record Sizes : Type 0 where
  pub relplt_size : ℕ
  pub plt_size : ℕ
  pub got_size : ℕ

-- With `__libc_start_main` alone.
abbrev pub first_sizes : Target → Sizes
first_sizes t = record {
  relplt_size = sizeof_rel;
  plt_size = t.plt_fixup_size + t.plt_ent_size;
  got_size = ptr_size * 3 + ptr_size;
}

-- With one more external function.
abbrev pub add_sizes : Target → Sizes → Sizes
add_sizes t z = record {
  relplt_size = z.relplt_size + sizeof_rel;
  plt_size = z.plt_size + t.plt_ent_size;
  got_size = z.got_size + ptr_size;
}

-- The loop over the functions that counts the external ones.
unfoldable pub size_loop : Target → List Func → Sizes → Sizes
size_loop t [] z = z
size_loop t (func ∷ funcs) z =
    if is_external func then size_loop t funcs (add_sizes t z) else size_loop t funcs z

unfoldable pub dynamic_sizes : Target → List Func → Sizes
unfolding size_loop
dynamic_sizes t funcs = size_loop t funcs (first_sizes t)

-- The addresses of the sections for dynamic linking that are known before these are written.
unfoldable pub reserve_dynamic : Target → Elf → Elf
unfolding dynamic_sizes
reserve_dynamic t s =
    let z = dynamic_sizes t s.funcs in
    let relplt_start = s.elf_rodata_start + length s.elf_rodata in
    let plt_start = relplt_start + z.relplt_size in
    let interp_start = plt_start + z.plt_size + page_size in
    record s {
      relplt_size = z.relplt_size;
      plt_size = z.plt_size;
      got_size = z.got_size;
      elf_relplt_start = relplt_start;
      elf_plt_start = plt_start;
      elf_interp_start = interp_start;
      elf_got_start = interp_start + align4 (length t.dyn_linker + 1);
    }

-- `elf_header_len`
abbrev pub header_len : Bool → ℕ
header_len true = sizeof_hdr + sizeof_phdr * 2 + sizeof_phdr * 2
header_len false = sizeof_hdr + sizeof_phdr * 2

-- What comes before `elf_generate_sections`.
unfoldable pub reserve : Target → Elf → Elf
unfolding align reserve_dynamic
reserve t s =
    let code_start = elf_start + header_len s.dynlink in
    let s' : Elf = record s {
      elf_header_len = header_len s.dynlink;
      elf_data = align s.elf_data;
      elf_rodata = align s.elf_rodata;
      elf_code_start = code_start;
      elf_rodata_start = code_start + s.elf_offset;
    } in
    if s.dynlink then reserve_dynamic t s' else s'

-- What comes after it.
unfoldable pub place_data : Elf → Elf
unfolding align
place_data s =
    let data_start =
      if s.dynlink
      then s.elf_got_start
        + length s.elf_got
        + length s.elf_dynstr
        + length s.elf_dynsym
        + length s.elf_dynamic
      else s.elf_rodata_start + length s.elf_rodata + page_size in
    record s {
      elf_data_start = data_start;
      elf_bss_start = data_start + length s.elf_data;
      elf_symtab = align s.elf_symtab;
      elf_strtab = align s.elf_strtab;
    }

-- `elf_preprocess`
unfoldable pub preprocess : Target → Elf → Elf
unfolding reserve generate_sections place_data
preprocess t s = place_data (generate_sections t (reserve t s))
