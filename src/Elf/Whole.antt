-- ===== src/Elf/Whole.antt =====
-- src/elf.c and src/main.c: the file as a whole, from `elf_preprocess` to `elf_generate`.
use shecc.Prelude.{◌+◌, ◌≤◌, ◌≡◌, refl, sym, ap, ◌∙◌, arith, Bool, true, false, [], ◌++◌, length}
use mathlib.Core.Path.{subst}
use shecc.Program.Placed.{All}
use shecc.Elf.{Buf, Target, Elf, elf_start, page_size}
use shecc.Elf.Align.{align_lem, align4}
use shecc.Elf.Bytes.{write_name}
use shecc.Elf.Dynamic.{dynamic_sections}
use shecc.Elf.Dynamic.Entries.{length-write_name}
use shecc.Elf.Sections.{generate_sections, section_names}
use shecc.Elf.Preprocess.{header_len, reserve, reserve_dynamic, place_data, preprocess}
use shecc.Elf.Generate.{emitted, write_elf}
use shecc.Elf.Segments.{read_only, writable}
use shecc.Elf.Table.{section_headers}
use shecc.Elf.Reader.{read_contents, read_names}
use shecc.Elf.Readback.{IsLaidOut, InterpFits, expected_names, expected_contents}
use shecc.Elf.Readback.Headers.{IsSmall, read_contents-generate, read_names-generate}
use shecc.Elf.Reserved.{dynamic_sections-sizes}
use shecc.Elf.Layout.{IsPlaced, ArePaged, IsHeld, section_headers-IsHeld, segments-pages}

-- Nothing is written yet but the data and the symbols.
pub record IsFresh (s : Elf) : Type 0 where
  pub no_code : s.elf_code ≡ []
  pub no_plt : s.elf_plt ≡ []
  pub no_header : s.elf_header ≡ []
  pub no_program_header : s.elf_program_header ≡ []
  pub no_section_header : s.elf_section_header ≡ []
  pub no_shstrtab : s.elf_shstrtab ≡ []
  pub no_interp : s.elf_interp ≡ []
  pub no_relplt : s.elf_relplt ≡ []
  pub no_got : s.elf_got ≡ []

-- The code and the table of the procedures have the sizes that were reserved for them.
abbrev pub Fills : Bool → Target → (Elf → Buf × Buf) → Elf → Type 0
Fills true t emit s =
    (length (emit (preprocess t s)).0 ≡ s.elf_offset)
    × (length (emit (preprocess t s)).1 ≡ (preprocess t s).plt_size)
Fills false t emit s = length (emit (preprocess t s)).0 ≡ s.elf_offset

length-interp :
    (t : Target) (s : Elf)
    → s.elf_interp ≡ []
    → length (dynamic_sections t s).elf_interp ≡ align4 (length t.dyn_linker + 1)
unfolding dynamic_sections
length-interp t s empty =
    let (zeros, same, total) = align_lem (write_name s.elf_interp t.dyn_linker) in
    total ∙ ap align4 (omega (arith, length-write_name s.elf_interp t.dyn_linker, ap length empty))

-- With `dynlink` written out, the tests compute.
abbrev linked : Bool → Elf → Elf
linked d s = record s { dynlink = d }

linked_lem : (d : Bool) (s : Elf) → s.dynlink ≡ d → linked d s ≡ s
linked_lem d s link = ap (λ d. linked d s) (sym link)

emitted-InterpFits :
    (d : Bool) (t : Target) (emit : Elf → Buf × Buf) (s : Elf)
    → IsFresh (linked d s)
    → InterpFits d t (emitted t emit (linked d s))
unfolding emitted preprocess generate_sections place_data reserve reserve_dynamic
emitted-InterpFits true t emit s fresh =
    subst (λ n. length t.dyn_linker + 1 ≤ n)
      (sym (length-interp t (reserve t (linked true s)) fresh.no_interp)) (omega arith)
emitted-InterpFits false t emit s fresh = tt

emitted-IsPlaced :
    (d : Bool) (t : Target) (emit : Elf → Buf × Buf) (s : Elf)
    → IsFresh (linked d s)
    → Fills d t emit (linked d s)
    → IsPlaced d (emitted t emit (linked d s))
unfolding emitted preprocess generate_sections place_data reserve reserve_dynamic
emitted-IsPlaced true t emit s fresh (code, plt) =
    let r = reserve t (linked true s) in
    let (relplts, gots) = dynamic_sections-sizes t r refl refl fresh.no_relplt fresh.no_got in
    (
      ap (λ n. elf_start + header_len true + n)
          (sym
            (ap (λ c. length (c ++ (emit (preprocess t (linked true s))).0)) fresh.no_code ∙ code)),
      refl,
      ap (r.elf_relplt_start +◌) (sym relplts),
      ap (λ n. r.elf_plt_start + n + page_size)
          (sym
            (ap (λ c. length (c ++ (emit (preprocess t (linked true s))).1)) fresh.no_plt ∙ plt)),
      ap (r.elf_interp_start +◌) (sym (length-interp t r fresh.no_interp)),
      refl,
    )
emitted-IsPlaced false t emit s fresh code = (
  ap (λ n. elf_start + header_len false + n)
      (sym (ap (λ c. length (c ++ (emit (preprocess t (linked false s))).0)) fresh.no_code ∙ code)),
  refl,
)

emitted-dynlink :
    (d : Bool) (t : Target) (emit : Elf → Buf × Buf) (s : Elf)
    → (emitted t emit (linked d s)).dynlink ≡ d
unfolding emitted preprocess generate_sections place_data reserve reserve_dynamic dynamic_sections
emitted-dynlink true t emit s = refl
emitted-dynlink false t emit s = refl

-- The three numbers that both kinds of linking have.
emitted-starts :
    (d : Bool) (t : Target) (emit : Elf → Buf × Buf) (s : Elf)
    → ((emitted t emit (linked d s)).elf_header_len ≡ header_len d)
      × ((emitted t emit (linked d s)).elf_code_start ≡ elf_start + header_len d)
      × ((emitted t emit (linked d s)).elf_bss_start
          ≡ (emitted t emit (linked d s)).elf_data_start
            + length (emitted t emit (linked d s)).elf_data)
unfolding emitted preprocess generate_sections place_data reserve reserve_dynamic dynamic_sections
emitted-starts true t emit s = (refl, refl, refl)
emitted-starts false t emit s = (refl, refl, refl)

emitted-IsLaidOut :
    (d : Bool) (t : Target) (emit : Elf → Buf × Buf) (s : Elf)
    → IsFresh (linked d s)
    → IsLaidOut t (emitted t emit (linked d s))
unfolding emitted preprocess generate_sections place_data reserve reserve_dynamic dynamic_sections
emitted-IsLaidOut true t emit s fresh = record {
  no_header = fresh.no_header;
  no_program_header = fresh.no_program_header;
  no_section_header = fresh.no_section_header;
  header_size = refl;
  names = ap (section_names true) fresh.no_shstrtab;
  interp_fits = emitted-InterpFits true t emit s fresh;
}
emitted-IsLaidOut false t emit s fresh = record {
  no_header = fresh.no_header;
  no_program_header = fresh.no_program_header;
  no_section_header = fresh.no_section_header;
  header_size = refl;
  names = ap (section_names false) fresh.no_shstrtab;
  interp_fits = tt;
}

-- From buffers that hold nothing but data, read-only data and symbols, and where the offset of the
-- section headers and all their numbers are below 2^32, a reader of the file that `main` writes,
-- which knows only its bytes, finds by the section headers just the code, the data and the other
-- buffers, in their order, for static and dynamic linking.
pub read_contents-write_elf :
    (t : Target) (emit : Elf → Buf × Buf) (s : Elf)
    → IsFresh s
    → IsSmall t (emitted t emit s)
    → read_contents (write_elf t emit s) ≡ expected_contents s.dynlink t (emitted t emit s)
unfolding write_elf
read_contents-write_elf t emit s fresh small =
    read_contents-generate s.dynlink t (emitted t emit s) (emitted-dynlink s.dynlink t emit s)
      (emitted-IsLaidOut s.dynlink t emit s fresh) small

-- From buffers that hold nothing but data, read-only data and symbols, and where the offset of the
-- section headers and all their numbers are below 2^32, a reader of the file finds in the section
-- that `e_shstrndx` points at the names of the sections, in the order of their headers.
pub read_names-write_elf :
    (t : Target) (emit : Elf → Buf × Buf) (s : Elf)
    → IsFresh s
    → IsSmall t (emitted t emit s)
    → read_names (write_elf t emit s) ≡ expected_names s.dynlink
unfolding write_elf
read_names-write_elf t emit s fresh small =
    read_names-generate s.dynlink t (emitted t emit s) (emitted-dynlink s.dynlink t emit s)
      (emitted-IsLaidOut s.dynlink t emit s fresh) small

-- From empty buffers, where the code and, for dynamic linking, the linkage table have the sizes
-- reserved for them, every allocated section is in one of the two segments, in the file (.bss in
-- memory) and at the address that the segment gives its offset.
pub section_headers-emitted :
    (t : Target) (emit : Elf → Buf × Buf) (s : Elf)
    → IsFresh s
    → Fills s.dynlink t emit s
    → All
        (IsHeld (read_only (emitted t emit s)) (writable (emitted t emit s)))
        (section_headers t (emitted t emit s))
section_headers-emitted t emit s fresh fills =
    let (len, code, bss) = emitted-starts s.dynlink t emit s in
    section_headers-IsHeld s.dynlink t (emitted t emit s) (emitted-dynlink s.dynlink t emit s) len
      code bss (emitted-IsPlaced s.dynlink t emit s fresh fills)
      (emitted-InterpFits s.dynlink t emit s fresh)

-- From empty buffers, where the code and, for dynamic linking, the linkage table have the sizes
-- reserved for them, both segments start at the same place of a page in memory and in the file,
-- and no page of memory has parts of both.
pub segments-emitted :
    (t : Target) (emit : Elf → Buf × Buf) (s : Elf)
    → IsFresh s
    → Fills s.dynlink t emit s
    → ArePaged (read_only (emitted t emit s)) (writable (emitted t emit s))
segments-emitted t emit s fresh fills =
    let (len, code, bss) = emitted-starts s.dynlink t emit s in
    segments-pages s.dynlink t (emitted t emit s) (emitted-dynlink s.dynlink t emit s) len code
      (emitted-IsPlaced s.dynlink t emit s fresh fills)
