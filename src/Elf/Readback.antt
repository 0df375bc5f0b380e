-- ===== src/Elf/Readback.antt =====
-- src/elf.c: the file read back by its section headers.
pub mod Headers
use shecc.Prelude.{
  ℕ, zero, suc, ◌+◌, ◌*◌, ◌^◌, ◌<◌, ◌≤◌, ◌≡◌, refl, ap, ◌∙◌, sym, arith, Bool, true, false, List,
  [], ◌∷◌, ◌++◌, map, length, length-append, IsWord, ◌==◌, if◌then◌else◌, Bool-cases, inl, inr,
}
use mathlib.Core.List.{append_assoc, append-nil}
use shecc.Program.Placed.{All}
use shecc.Elf.{Buf, Target, Elf}
use shecc.Elf.Bytes.{int_bytes, read_int, read_int-int_bytes, write_name}
use shecc.Elf.Header.{
  ints, Hdr, hdr_bytes, Shdr, shdr_bytes, sizeof_hdr, sizeof_phdr, phdr_bytes, length-phdr_bytes,
}
use shecc.Elf.Dynamic.{chars}
use shecc.Elf.Sections.{section_names, dynamic_names}
use shecc.Elf.Preprocess.{header_len, preprocess}
use shecc.Elf.Segments.{program_headers, read_only, writable, interpreter, dynamic_segment}
use shecc.Elf.Table.{
  section_headers, shdrs_bytes, first_headers, dynamic_headers, last_headers, add_header,
}
use shecc.Elf.Generate.{file_header, section_header_offset, postprocess, generate, write_elf}
use shecc.Elf.Reader.{
  take, drop, read_half, read_string, read_headers, read_section, read_contents, read_names,
  names_in, nth, HasWords, read_shdrs-shdrs_bytes,
}
use shecc.Elf.Parts.{
  drop-add, drop-append, take-append, take-length, Part, whole, joined, Fits, read_parts,
  read_parts_lem,
}

-- The name of the interpreter has its place, when there is one.
abbrev pub InterpFits : Bool → Target → Elf → Type 0
InterpFits true t s = length t.dyn_linker + 1 ≤ length s.elf_interp
InterpFits false t s = Unit

-- The state before `elf_postprocess`: no header is written yet, and the names of the sections are.
pub record IsLaidOut (t : Target) (s : Elf) : Type 0 where
  pub no_header : s.elf_header ≡ []
  pub no_program_header : s.elf_program_header ≡ []
  pub no_section_header : s.elf_section_header ≡ []
  pub header_size : s.elf_header_len ≡ header_len s.dynlink
  pub names : s.elf_shstrtab ≡ section_names s.dynlink []
  pub interp_fits : InterpFits s.dynlink t s

-- The sections in their order in the file.
abbrev pub parts : Bool → Target → Elf → List Part
parts true t s =
    whole s.elf_code
    ∷ whole s.elf_rodata
    ∷ whole s.elf_relplt
    ∷ whole s.elf_plt
    ∷ record { size = length t.dyn_linker + 1; bytes = s.elf_interp }
    ∷ whole s.elf_got
    ∷ whole s.elf_dynstr
    ∷ whole s.elf_dynsym
    ∷ whole s.elf_dynamic
    ∷ whole s.elf_data
    ∷ whole []
    ∷ whole s.elf_symtab
    ∷ whole s.elf_strtab
    ∷ whole s.elf_shstrtab
    ∷ []
parts false t s =
    whole s.elf_code
    ∷ whole s.elf_rodata
    ∷ whole s.elf_data
    ∷ whole []
    ∷ whole s.elf_symtab
    ∷ whole s.elf_strtab
    ∷ whole s.elf_shstrtab
    ∷ []

-- The names of the sections, in the order of their headers.
abbrev pub expected_names : Bool → List Buf
expected_names true =
    []
    ∷ chars ".text"
    ∷ chars ".rodata"
    ∷ chars ".rel.plt"
    ∷ chars ".plt"
    ∷ chars ".interp"
    ∷ chars ".got"
    ∷ chars ".dynstr"
    ∷ chars ".dynsym"
    ∷ chars ".dynamic"
    ∷ chars ".data"
    ∷ chars ".bss"
    ∷ chars ".symtab"
    ∷ chars ".strtab"
    ∷ chars ".shstrtab"
    ∷ []
expected_names false =
    []
    ∷ chars ".text"
    ∷ chars ".rodata"
    ∷ chars ".data"
    ∷ chars ".bss"
    ∷ chars ".symtab"
    ∷ chars ".strtab"
    ∷ chars ".shstrtab"
    ∷ []

-- What they hold.
abbrev pub expected_contents : Bool → Target → Elf → List Buf
expected_contents true t s =
    []
    ∷ s.elf_code
    ∷ s.elf_rodata
    ∷ s.elf_relplt
    ∷ s.elf_plt
    ∷ take (length t.dyn_linker + 1) s.elf_interp
    ∷ s.elf_got
    ∷ s.elf_dynstr
    ∷ s.elf_dynsym
    ∷ s.elf_dynamic
    ∷ s.elf_data
    ∷ []
    ∷ s.elf_symtab
    ∷ s.elf_strtab
    ∷ s.elf_shstrtab
    ∷ []
expected_contents false t s =
    [] ∷ s.elf_code ∷ s.elf_rodata ∷ s.elf_data ∷ [] ∷ s.elf_symtab ∷ s.elf_strtab ∷ s.elf_shstrtab
    ∷ []

pub section_headers-read_parts :
    (d : Bool) (t : Target) (s : Elf) (image : Buf)
    → s.dynlink ≡ d
    → map (read_section image) (section_headers t s)
      ≡ [] ∷ read_parts s.elf_header_len (parts d t s) image
unfolding section_headers first_headers dynamic_headers last_headers add_header
section_headers-read_parts true t s image link = rw link refl
section_headers-read_parts false t s image link = rw link refl

pub section_headers-names :
    (d : Bool) (t : Target) (s : Elf)
    → s.dynlink ≡ d
    → names_in (section_names d []) (section_headers t s) ≡ expected_names d
unfolding section_headers first_headers dynamic_headers last_headers add_header section_names
    dynamic_names write_name
section_headers-names true t s link = rw link refl
section_headers-names false t s link = rw link refl

whole-Fits : (bytes : Buf) → Fits (whole bytes)
whole-Fits bytes = omega arith

pub parts-Fits : (d : Bool) (t : Target) (s : Elf) → InterpFits d t s → All Fits (parts d t s)
parts-Fits true t s fits = omega (arith, fits)
parts-Fits false t s fits = omega arith

pub parts-contents :
    (d : Bool) (t : Target) (s : Elf)
    → [] ∷ map (λ p. take p.size p.bytes) (parts d t s) ≡ expected_contents d t s
parts-contents true t s = simp take-length
parts-contents false t s = simp take-length

-- The two headers, the sections, and the headers of the sections.
pub generate-parts :
    (d : Bool) (t : Target) (s : Elf)
    → s.dynlink ≡ d
    → generate s
      ≡ s.elf_header ++ (s.elf_program_header ++ (joined (parts d t s) ++ s.elf_section_header))
unfolding generate
generate-parts true t s link = rw link (simp append_assoc)
generate-parts false t s link = rw link (simp append_assoc)

pub length-headers :
    (d : Bool) (t : Target) (s : Elf)
    → s.dynlink ≡ d
    → length (hdr_bytes (file_header t s) ++ program_headers t s) ≡ header_len d
unfolding hdr_bytes file_header program_headers ints int_bytes phdr_bytes
length-headers true t s link = rw link refl
length-headers false t s link = rw link refl

pub length-parts :
    (d : Bool) (t : Target) (s : Elf)
    → s.dynlink ≡ d
    → s.elf_header_len + length (joined (parts d t s)) ≡ section_header_offset s
unfolding section_header_offset
length-parts true t s link = rw link (simp length-append (omega arith))
length-parts false t s link = rw link (simp length-append (omega arith))
