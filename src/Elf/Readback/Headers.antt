-- ===== src/Elf/Readback/Headers.antt =====
-- src/elf.c: the header of the file and those of the sections, as a reader finds them.
use shecc.Prelude.{
  ℕ, ◌≡◌, refl, ap, ◌∙◌, sym, Bool, true, false, [], ◌∷◌, ◌++◌, map, length, IsWord, if◌then◌else◌,
}
use mathlib.Core.Path.{subst}
use mathlib.Core.List.{append_assoc, append-nil}
use shecc.Program.Placed.{All}
use shecc.Elf.{Buf, Target, Elf}
use shecc.Elf.Bytes.{int_bytes, read_int, read_int-int_bytes}
use shecc.Elf.Header.{ints, hdr_bytes}
use shecc.Elf.Sections.{section_names}
use shecc.Elf.Preprocess.{header_len}
use shecc.Elf.Segments.{program_headers}
use shecc.Elf.Table.{
  section_headers, shdrs_bytes, first_headers, dynamic_headers, last_headers, add_header,
}
use shecc.Elf.Generate.{file_header, section_header_offset, postprocess, generate}
use shecc.Elf.Reader.{
  drop, read_half, read_headers, read_section, read_contents, read_names, names_in, nth, HasWords,
  read_shdrs-shdrs_bytes,
}
use shecc.Elf.Parts.{drop-add, drop-append, whole, joined, read_parts_lem}
use shecc.Elf.Readback.{
  InterpFits, IsLaidOut, parts, expected_names, expected_contents, section_headers-read_parts,
  section_headers-names, parts-Fits, parts-contents, generate-parts, length-headers, length-parts,
}

-- What stands at 32, 48 and 50.
read_shoff :
    (t : Target) (s : Elf) (rest : Buf)
    → IsWord (section_header_offset s)
    → read_int (drop 32 (hdr_bytes (file_header t s) ++ rest)) ≡ section_header_offset s
unfolding hdr_bytes file_header ints int_bytes
read_shoff t s rest word = read_int-int_bytes (section_header_offset s) [] word

read_shnum :
    (d : Bool) (t : Target) (s : Elf) (rest : Buf)
    → s.dynlink ≡ d
    → read_half (drop 48 (hdr_bytes (file_header t s) ++ rest)) ≡ length (section_headers t s)
unfolding hdr_bytes file_header ints int_bytes section_headers first_headers dynamic_headers
    last_headers add_header
read_shnum true t s rest link = rw link refl
read_shnum false t s rest link = rw link refl

read_shstrndx :
    (d : Bool) (t : Target) (s : Elf) (rest : Buf)
    → s.dynlink ≡ d
    → read_half (drop 50 (hdr_bytes (file_header t s) ++ rest)) ≡ (if d then 14 else 7)
unfolding hdr_bytes file_header ints int_bytes
read_shstrndx true t s rest link = rw link refl
read_shstrndx false t s rest link = rw link refl

nth-contents :
    (d : Bool) (t : Target) (s : Elf)
    → nth (if d then 14 else 7) (expected_contents d t s) ≡ s.elf_shstrtab
nth-contents true t s = refl
nth-contents false t s = refl

-- The file, with the bytes of the header in front.
image-parts :
    (d : Bool) (t : Target) (s : Elf)
    → s.dynlink ≡ d
    → IsLaidOut t s
    → generate (postprocess t s)
      ≡ hdr_bytes (file_header t s)
        ++ (program_headers t s ++ (joined (parts d t s) ++ shdrs_bytes (section_headers t s)))
unfolding postprocess
image-parts true t s link laid =
    generate-parts true t (postprocess t s) link
    ∙ rw (laid.no_header, laid.no_program_header, laid.no_section_header) refl
image-parts false t s link laid =
    generate-parts false t (postprocess t s) link
    ∙ rw (laid.no_header, laid.no_program_header, laid.no_section_header) refl

-- The numbers of the headers of the sections, and the offset of these headers, are words.
abbrev pub IsSmall : Target → Elf → Type 0
IsSmall t s = IsWord (section_header_offset s) × All HasWords (section_headers t s)

drop-length_eq : (n : ℕ) (front back : Buf) → length front ≡ n → drop n (front ++ back) ≡ back
drop-length_eq n front back at =
    subst (λ k. drop k (front ++ back) ≡ back) at (drop-append front back)

generate-header :
    (d : Bool) (t : Target) (s : Elf)
    → s.dynlink ≡ d
    → IsLaidOut t s
    → (rest : Buf) × (generate (postprocess t s) ≡ hdr_bytes (file_header t s) ++ rest)
      × (drop s.elf_header_len (hdr_bytes (file_header t s) ++ rest)
          ≡ joined (parts d t s) ++ shdrs_bytes (section_headers t s))
      × (drop (section_header_offset s) (hdr_bytes (file_header t s) ++ rest)
          ≡ shdrs_bytes (section_headers t s))
generate-header d t s link laid =
    let size : length (hdr_bytes (file_header t s) ++ program_headers t s) ≡ s.elf_header_len =
      length-headers d t s link ∙ sym (laid.header_size ∙ ap header_len link) in
    let sections = joined (parts d t s) in
    let table = shdrs_bytes (section_headers t s) in
    let first =
      drop-length_eq s.elf_header_len (hdr_bytes (file_header t s) ++ program_headers t s)
        (sections ++ table) size in
    let first' =
      ap (drop s.elf_header_len)
        (sym (append_assoc (hdr_bytes (file_header t s)) (program_headers t s) (sections ++ table)))
      ∙ first in
    (
      program_headers t s ++ (sections ++ table),
      image-parts d t s link laid,
      first',
      ap (λ k. drop k (hdr_bytes (file_header t s) ++ (program_headers t s ++ (sections ++ table))))
            (sym (length-parts d t s link))
          ∙ (drop-add s.elf_header_len (length sections)
                (hdr_bytes (file_header t s) ++ (program_headers t s ++ (sections ++ table)))
              ∙ (ap (drop (length sections)) first' ∙ drop-append sections table)),
    )

read_headers-generate :
    (d : Bool) (t : Target) (s : Elf)
    → s.dynlink ≡ d
    → IsLaidOut t s
    → IsSmall t s
    → read_headers (generate (postprocess t s)) ≡ section_headers t s
unfolding read_headers
read_headers-generate d t s link laid small =
    let (rest, whole, first, last) = generate-header d t s link laid in
    rw
      (
        whole,
        read_shnum d t s rest link,
        read_shoff t s rest small.0,
        last,
        sym (append-nil (shdrs_bytes (section_headers t s))),
      )
      (read_shdrs-shdrs_bytes (section_headers t s) [] small.1)

-- What the reader finds in the sections.
pub read_contents-generate :
    (d : Bool) (t : Target) (s : Elf)
    → s.dynlink ≡ d
    → IsLaidOut t s
    → IsSmall t s
    → read_contents (generate (postprocess t s)) ≡ expected_contents d t s
read_contents-generate d t s link laid small =
    let (rest, whole, first, last) = generate-header d t s link laid in
    ap (map (read_section (generate (postprocess t s))))
      (read_headers-generate d t s link laid small)
    ∙ (section_headers-read_parts d t s (generate (postprocess t s)) link
        ∙ (ap ([] ∷◌) (
              read_parts_lem (parts d t s) s.elf_header_len (generate (postprocess t s))
                (shdrs_bytes (section_headers t s))
                (parts-Fits d t s (subst (λ d. InterpFits d t s) link laid.interp_fits))
                (ap (drop s.elf_header_len) whole ∙ first))
            ∙ parts-contents d t s))

-- And their names.
pub read_names-generate :
    (d : Bool) (t : Target) (s : Elf)
    → s.dynlink ≡ d
    → IsLaidOut t s
    → IsSmall t s
    → read_names (generate (postprocess t s)) ≡ expected_names d
read_names-generate d t s link laid small =
    let (rest, whole, first, last) = generate-header d t s link laid in
    let index = ap (λ image. read_half (drop 50 image)) whole ∙ read_shstrndx d t s rest link in
    let strings =
      ap (λ i. nth i (read_contents (generate (postprocess t s)))) index
      ∙ (ap (nth (if d then 14 else 7)) (read_contents-generate d t s link laid small)
          ∙ (nth-contents d t s ∙ (laid.names ∙ ap (λ d. section_names d []) link))) in
    ap (λ b. names_in b (read_headers (generate (postprocess t s)))) strings
    ∙ (ap (names_in (section_names d [])) (read_headers-generate d t s link laid small)
        ∙ section_headers-names d t s link)
