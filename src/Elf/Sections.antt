-- ===== src/Elf/Sections.antt =====
-- src/elf.c: `elf_add_symbol`, and the names of the sections with the rest of `elf_generate_sections`.
pub mod Symbols
use shecc.Prelude.{
  ℕ, ◌+◌, ◌-◌, ◌*◌, ◌/◌, ◌≡◌, Bool, true, false, List, [], ◌∷◌, ◌++◌, length, shl32, ◌==◌,
  if◌then◌else◌,
}
use shecc.Elf.{Buf, Target, Elf}
use shecc.Elf.Bytes.{write_int, write_name}
use shecc.Elf.Dynamic.{chars, dynamic_sections}

-- `elf_add_symbol`
unfoldable pub add_symbol : Buf → ℕ → Elf → Elf
unfolding write_int write_name
add_symbol symbol pc s = record s {
  elf_symtab =
      write_int (write_int (write_int (write_int s.elf_symtab (length s.elf_strtab)) pc) 0)
        (if pc == 0 then 0 else shl32 1 16);
  elf_strtab = write_name s.elf_strtab symbol;
  elf_symbol_index = s.elf_symbol_index + 1;
}

-- The names that are written only for dynamic linking.
unfoldable pub dynamic_names : Buf → Buf
unfolding write_name
dynamic_names buf =
    let buf = write_name buf (chars ".rel.plt") in
    let buf = write_name buf (chars ".plt") in
    let buf = write_name buf (chars ".interp") in
    let buf = write_name buf (chars ".got") in
    let buf = write_name buf (chars ".dynstr") in
    let buf = write_name buf (chars ".dynsym") in write_name buf (chars ".dynamic")

-- The names of the sections.
unfoldable pub section_names : Bool → Buf → Buf
unfolding write_name dynamic_names
section_names dynlink shstrtab =
    let buf = write_name (shstrtab ++ 0 ∷ []) (chars ".text") in
    let buf = write_name buf (chars ".rodata") in
    let buf = if dynlink then dynamic_names buf else buf in
    let buf = write_name buf (chars ".data") in
    let buf = write_name buf (chars ".bss") in
    let buf = write_name buf (chars ".symtab") in
    let buf = write_name buf (chars ".strtab") in write_name buf (chars ".shstrtab")

-- `elf_generate_sections`
unfoldable pub generate_sections : Target → Elf → Elf
unfolding dynamic_sections section_names
generate_sections t s = record (if s.dynlink then dynamic_sections t s else s) {
  elf_shstrtab = section_names s.dynlink s.elf_shstrtab;
}
