-- ===== src/Elf/Generate.antt =====
-- src/elf.c: the header of the file and the file itself.
use shecc.Prelude.{ℕ, ◌+◌, [], ◌∷◌, ◌++◌, length, if◌then◌else◌}
use shecc.Elf.{Buf, Target, Elf}
use shecc.Elf.Header.{Hdr, hdr_bytes, sizeof_hdr, sizeof_phdr, sizeof_shdr}
use shecc.Elf.Preprocess.{preprocess}
use shecc.Elf.Segments.{program_headers}
use shecc.Elf.Table.{section_headers, shdrs_bytes}

-- The offset of the section headers.
unfoldable pub section_header_offset : Elf → ℕ
section_header_offset s =
    if s.dynlink
    then s.elf_header_len
      + length s.elf_code
      + length s.elf_data
      + length s.elf_rodata
      + length s.elf_symtab
      + length s.elf_strtab
      + length s.elf_shstrtab
      + length s.elf_interp
      + length s.elf_relplt
      + length s.elf_plt
      + length s.elf_got
      + length s.elf_dynstr
      + length s.elf_dynsym
      + length s.elf_dynamic
    else s.elf_header_len
      + length s.elf_code
      + length s.elf_data
      + length s.elf_rodata
      + length s.elf_symtab
      + length s.elf_strtab
      + length s.elf_shstrtab

-- `elf_generate_header`
unfoldable pub file_header : Target → Elf → Hdr
unfolding section_header_offset
file_header t s = record {
  e_ident = 0x7F ∷ 69 ∷ 76 ∷ 70 ∷ 1 ∷ 1 ∷ 1 ∷ 0 ∷ 0 ∷ 0 ∷ 0 ∷ 0 ∷ 0 ∷ 0 ∷ 0 ∷ 0 ∷ [];
  e_type = 2 ∷ 0 ∷ [];
  e_machine = t.elf_machine ∷ 0 ∷ [];
  e_version = 1;
  e_entry = s.elf_code_start;
  e_phoff = sizeof_hdr;
  e_shoff = section_header_offset s;
  e_flags = t.elf_flags;
  e_ehsize = sizeof_hdr ∷ 0 ∷ [];
  e_phentsize = sizeof_phdr ∷ 0 ∷ [];
  e_phnum = (if s.dynlink then 4 else 2) ∷ 0 ∷ [];
  e_shentsize = sizeof_shdr ∷ 0 ∷ [];
  e_shnum = (if s.dynlink then 15 else 8) ∷ 0 ∷ [];
  e_shstrndx = (if s.dynlink then 14 else 7) ∷ 0 ∷ [];
}

-- `elf_postprocess`
unfoldable pub postprocess : Target → Elf → Elf
unfolding file_header hdr_bytes program_headers section_headers
postprocess t s = record s {
  elf_header = s.elf_header ++ hdr_bytes (file_header t s);
  elf_program_header = s.elf_program_header ++ program_headers t s;
  elf_section_header = s.elf_section_header ++ shdrs_bytes (section_headers t s);
}

-- The bytes that `elf_generate` writes to the file.
unfoldable pub generate : Elf → Buf
generate s =
    s.elf_header
    ++ s.elf_program_header
    ++ s.elf_code
    ++ s.elf_rodata
    ++ (if s.dynlink
        then s.elf_relplt ++ s.elf_plt ++ s.elf_interp ++ s.elf_got ++ s.elf_dynstr ++ s.elf_dynsym
          ++ s.elf_dynamic
        else [])
    ++ s.elf_data
    ++ s.elf_symtab
    ++ s.elf_strtab
    ++ s.elf_shstrtab
    ++ s.elf_section_header

-- What `main` does from `elf_preprocess` to `code_generate`; `emit` stands for the latter, and gives
-- what it writes to `elf_code` and to `elf_plt`.
unfoldable pub emitted : Target → (Elf → Buf × Buf) → Elf → Elf
unfolding preprocess
emitted t emit s =
    let s' = preprocess t s in
    record s' { elf_code = s'.elf_code ++ (emit s').0; elf_plt = s'.elf_plt ++ (emit s').1 }

-- And then to `elf_generate`.
unfoldable pub write_elf : Target → (Elf → Buf × Buf) → Elf → Buf
unfolding emitted postprocess generate
write_elf t emit s = generate (postprocess t (emitted t emit s))
