-- ===== src/Elf/Segments.antt =====
-- src/elf.c: `elf_generate_program_headers`.
use shecc.Prelude.{ℕ, ◌+◌, ◌++◌, length, if◌then◌else◌}
use shecc.Elf.{Buf, Target, Elf, elf_start, page_size}
use shecc.Elf.Header.{Phdr, phdr_bytes}

-- `elf_relplt->size + elf_plt->size`, which is added for dynamic linking.
abbrev linked_size : Elf → ℕ
linked_size s = if s.dynlink then length s.elf_relplt + length s.elf_plt else 0

-- What the writable segment holds before the data.
abbrev linking_size : Elf → ℕ
linking_size s =
    if s.dynlink
    then length s.elf_interp
      + length s.elf_got
      + length s.elf_dynstr
      + length s.elf_dynsym
      + length s.elf_dynamic
    else 0

unfoldable pub read_only : Elf → Phdr
read_only s =
    let size = s.elf_header_len + length s.elf_code + length s.elf_rodata + linked_size s in
    record {
      p_type = 1;
      p_offset = 0;
      p_vaddr = elf_start;
      p_paddr = elf_start;
      p_filesz = size;
      p_memsz = size;
      p_flags = 5;
      p_align = page_size;
    }

unfoldable pub writable : Elf → Phdr
writable s =
    let start = if s.dynlink then s.elf_interp_start else s.elf_data_start in
    record {
      p_type = 1;
      p_offset = s.elf_header_len + length s.elf_code + length s.elf_rodata + linked_size s;
      p_vaddr = start;
      p_paddr = start;
      p_filesz = length s.elf_data + linking_size s;
      p_memsz = length s.elf_data + s.elf_bss_size + linking_size s;
      p_flags = 6;
      p_align = page_size;
    }

-- The program interpreter.
unfoldable pub interpreter : Target → Elf → Phdr
interpreter t s = record {
  p_type = 3;
  p_offset =
      s.elf_header_len
      + length s.elf_code
      + length s.elf_rodata
      + length s.elf_relplt
      + length s.elf_plt;
  p_vaddr = s.elf_interp_start;
  p_paddr = s.elf_interp_start;
  p_filesz = length t.dyn_linker + 1;
  p_memsz = length t.dyn_linker + 1;
  p_flags = 4;
  p_align = 1;
}

-- The section .dynamic.
unfoldable pub dynamic_segment : Elf → Phdr
dynamic_segment s =
    let start = s.elf_got_start + length s.elf_got + length s.elf_dynstr + length s.elf_dynsym in
    record {
      p_type = 2;
      p_offset =
          s.elf_header_len
          + length s.elf_code
          + length s.elf_rodata
          + length s.elf_relplt
          + length s.elf_plt
          + length s.elf_interp
          + length s.elf_got
          + length s.elf_dynstr
          + length s.elf_dynsym;
      p_vaddr = start;
      p_paddr = start;
      p_filesz = length s.elf_dynamic;
      p_memsz = length s.elf_dynamic;
      p_flags = 6;
      p_align = 4;
    }

-- `elf_generate_program_headers`
unfoldable pub program_headers : Target → Elf → Buf
unfolding phdr_bytes read_only writable interpreter dynamic_segment
program_headers t s =
    let load = phdr_bytes (read_only s) ++ phdr_bytes (writable s) in
    if s.dynlink
    then load ++ phdr_bytes (interpreter t s) ++ phdr_bytes (dynamic_segment s)
    else load
