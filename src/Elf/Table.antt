-- ===== src/Elf/Table.antt =====
-- src/elf.c: `elf_generate_section_headers`.
use shecc.Prelude.{ℕ, ◌+◌, List, [], ◌∷◌, ◌++◌, length, if◌then◌else◌}
use shecc.Elf.{Buf, Target, Elf, ptr_size}
use shecc.Elf.Header.{Shdr, shdr_bytes, sizeof_rel, sizeof_sym}
use shecc.Elf.Dynamic.{chars}

-- The headers that are written, with the variables `ofs` and `sh_name`.
pub record Table : Type 0 where
  pub headers : List Shdr
  pub ofs : ℕ
  pub name_ofs : ℕ

-- One of the blocks: the header gets the name and the offset that it has come to, and both advance
-- past the name and past the size of the section in the file.
unfoldable pub add_header : Buf → ℕ → Shdr → Table → Table
add_header name size shdr t = record {
  headers = t.headers ++ record shdr { sh_name = t.name_ofs; sh_offset = t.ofs } ∷ [];
  ofs = t.ofs + size;
  name_ofs = t.name_ofs + (length name + 1);
}

-- A header with the fields that are not zero in most blocks.
abbrev pub shdr : ℕ → ℕ → ℕ → ℕ → Shdr
shdr sh_type sh_flags sh_addr sh_size = record {
  sh_name = 0;
  sh_type = sh_type;
  sh_flags = sh_flags;
  sh_addr = sh_addr;
  sh_offset = 0;
  sh_size = sh_size;
  sh_link = 0;
  sh_info = 0;
  sh_addralign = 4;
  sh_entsize = 0;
}

-- The NULL section, .text and .rodata.
unfoldable pub first_headers : Elf → Table
unfolding add_header
first_headers s =
    let t : Table = record {
      headers = record (shdr 0 0 0 0) { sh_addralign = 0 } ∷ [];
      ofs = s.elf_header_len;
      name_ofs = 1;
    } in
    let t =
      add_header (chars ".text") (length s.elf_code) (shdr 1 7 s.elf_code_start (length s.elf_code))
        t in
    add_header (chars ".rodata") (length s.elf_rodata)
      (shdr 1 2 s.elf_rodata_start (length s.elf_rodata)) t

-- The sections for dynamic linking.
unfoldable pub dynamic_headers : Target → Elf → Table → Table
unfolding add_header
dynamic_headers target s t =
    let t =
      add_header (chars ".rel.plt") (length s.elf_relplt)
        (record (shdr 9 0x42 s.elf_relplt_start (length s.elf_relplt)) {
          sh_link = 8;
          sh_info = 6;
          sh_entsize = sizeof_rel;
        })
        t in
    let t =
      add_header (chars ".plt") (length s.elf_plt)
        (record (shdr 1 0x6 s.elf_plt_start (length s.elf_plt)) { sh_entsize = 4 }) t in
    let t =
      add_header (chars ".interp") (length s.elf_interp)
        (record (shdr 1 0x2 s.elf_interp_start (length target.dyn_linker + 1)) { sh_addralign = 1 })
        t in
    let t =
      add_header (chars ".got") (length s.elf_got)
        (record (shdr 1 0x3 s.elf_got_start (length s.elf_got)) { sh_entsize = ptr_size }) t in
    let t =
      add_header (chars ".dynstr") (length s.elf_dynstr)
        (record (shdr 3 0x2 (s.elf_got_start + length s.elf_got) (length s.elf_dynstr)) {
          sh_addralign = 1;
        })
        t in
    let t =
      add_header (chars ".dynsym") (length s.elf_dynsym)
        (record (shdr 11 0x2 (s.elf_got_start + length s.elf_got + length s.elf_dynstr)
          (length s.elf_dynsym)) { sh_link = 7; sh_info = 1; sh_entsize = sizeof_sym })
        t in
    add_header (chars ".dynamic") (length s.elf_dynamic)
      (record (shdr 6 0x3
        (s.elf_got_start + length s.elf_got + length s.elf_dynstr + length s.elf_dynsym)
        (length s.elf_dynamic)) { sh_link = 7 })
      t

-- The sections from .data on; .bss takes no place in the file, and the offset after .shstrtab is
-- not used any more.
unfoldable pub last_headers : Elf → Table → Table
unfolding add_header
last_headers s t =
    let t =
      add_header (chars ".data") (length s.elf_data) (shdr 1 3 s.elf_data_start (length s.elf_data))
        t in
    let t = add_header (chars ".bss") 0 (shdr 8 3 s.elf_bss_start s.elf_bss_size) t in
    let t =
      add_header (chars ".symtab") (length s.elf_symtab)
        (record (shdr 2 0 0 (length s.elf_symtab)) {
          sh_link = if s.dynlink then 13 else 6;
          sh_info = s.elf_symbol_index;
          sh_entsize = 16;
        })
        t in
    let t =
      add_header (chars ".strtab") (length s.elf_strtab)
        (record (shdr 3 0 0 (length s.elf_strtab)) { sh_addralign = 1 }) t in
    add_header (chars ".shstrtab") 0
      (record (shdr 3 0 0 (length s.elf_shstrtab)) { sh_addralign = 1 }) t

-- The headers that `elf_generate_section_headers` writes.
unfoldable pub section_headers : Target → Elf → List Shdr
unfolding first_headers dynamic_headers last_headers
section_headers target s =
    let t = first_headers s in
    let t = if s.dynlink then dynamic_headers target s t else t in (last_headers s t).headers

-- The bytes that they are written as.
abbrev pub shdrs_bytes : List Shdr → Buf
shdrs_bytes [] = []
shdrs_bytes (h ∷ hs) = shdr_bytes h ++ shdrs_bytes hs
