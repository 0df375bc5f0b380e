-- ===== src/Elf/Tests.antt =====
-- Runs of src/elf.c, and the theorems on it at a small program.
use shecc.Prelude.{ℕ, ◌+◌, ◌≡◌, refl, arith, Bool, true, false, List, [], ◌∷◌, ◌++◌, length}
use shecc.Program.Placed.{All}
use shecc.Elf.{Buf, Target, Func, Elf}
use shecc.Elf.Align.{align, align_lem, repeat}
use shecc.Elf.Bytes.{write_int, write_int-int_bytes, int_bytes, write_name}
use shecc.Elf.Header.{Rel, Sym, shdr_bytes, sym_bytes}
use shecc.Elf.Dynamic.{chars, dynamic_sections, dynamic_entries}
use shecc.Elf.Dynamic.Whole.{start_main, dynamic_sections-Linked}
use shecc.Elf.Dynamic.Entries.{rels_bytes, syms_bytes, Linked, externals}
use shecc.Elf.Sections.{add_symbol, section_names}
use shecc.Elf.Sections.Symbols.{HasSymbols, add_symbol-HasSymbols}
use shecc.Elf.Preprocess.{preprocess, dynamic_sizes}
use shecc.Elf.Generate.{emitted, write_elf, section_header_offset}
use shecc.Elf.Segments.{read_only, writable}
use shecc.Elf.Table.{section_headers}
use shecc.Elf.Reader.{read_headers, read_contents, read_names}
use shecc.Elf.Readback.{expected_names, expected_contents}
use shecc.Elf.Readback.Headers.{IsSmall}
use shecc.Elf.Reserved.{dynamic_sections-sizes}
use shecc.Elf.Layout.{IsHeld, ArePaged}
use shecc.Elf.Whole.{
  IsFresh, Fills, read_contents-write_elf, read_names-write_elf, section_headers-emitted,
  segments-emitted,
}

-- The constants of mk/arm.mk.
abbrev arm : Target
arm = record {
  elf_machine = 0x28;
  elf_flags = 0x5000400;
  dyn_linker = chars "/lib/ld-linux-armhf.so.3";
  libc_so = chars "libc.so.6";
  plt_fixup_size = 20;
  plt_ent_size = 12;
  r_arch_jump_slot = 0x16;
}

abbrev functions : List Func
functions =
    record {
      var_name = chars "main";
      is_used = true;
      has_bbs = true;
      plt_offset = 0;
      got_offset = 0;
    }
    ∷ record {
      var_name = chars "puts";
      is_used = true;
      has_bbs = false;
      plt_offset = 0;
      got_offset = 0;
    }
    ∷ record {
      var_name = chars "exit";
      is_used = false;
      has_bbs = false;
      plt_offset = 0;
      got_offset = 0;
    }
    ∷ record {
      var_name = chars "printf";
      is_used = true;
      has_bbs = false;
      plt_offset = 0;
      got_offset = 0;
    }
    ∷ []

-- Before `elf_preprocess`, with eight bytes of code laid out.
abbrev program : Bool → Elf
program dynlink = record {
  dynlink = dynlink;
  funcs = functions;
  elf_offset = 8;
  elf_code = [];
  elf_data = 0 ∷ 0 ∷ 0 ∷ 0 ∷ 7 ∷ [];
  elf_rodata = 104 ∷ 105 ∷ 0 ∷ [];
  elf_symtab = [];
  elf_strtab = [];
  elf_shstrtab = [];
  elf_header = [];
  elf_program_header = [];
  elf_section_header = [];
  elf_interp = [];
  elf_dynamic = [];
  elf_dynsym = [];
  elf_dynstr = [];
  elf_relplt = [];
  elf_plt = [];
  elf_got = [];
  elf_header_len = 0;
  elf_code_start = 0;
  elf_data_start = 0;
  elf_rodata_start = 0;
  elf_bss_start = 0;
  elf_bss_size = 16;
  elf_symbol_index = 0;
  elf_interp_start = 0;
  elf_relplt_start = 0;
  elf_plt_start = 0;
  elf_got_start = 0;
  relplt_size = 0;
  plt_size = 0;
  got_size = 0;
}

abbrev emit : Elf → Buf × Buf
emit s = (repeat 8 0xE1, repeat s.plt_size 0xE2)

abbrev program-IsFresh : (d : Bool) → IsFresh (program d)
program-IsFresh d = record {
  no_code = refl;
  no_plt = refl;
  no_header = refl;
  no_program_header = refl;
  no_section_header = refl;
  no_shstrtab = refl;
  no_interp = refl;
  no_relplt = refl;
  no_got = refl;
}

program-IsSmall : IsSmall arm (emitted arm emit (program true))
unfolding emitted section_headers section_header_offset int_bytes dynamic_entries
program-IsSmall = omega arith

read_contents-write_elf_example :
    read_contents (write_elf arm emit (program true))
    ≡ expected_contents true arm (emitted arm emit (program true))
read_contents-write_elf_example =
    read_contents-write_elf arm emit (program true) (program-IsFresh true) program-IsSmall

read_names-write_elf_example : read_names (write_elf arm emit (program true)) ≡ expected_names true
read_names-write_elf_example =
    read_names-write_elf arm emit (program true) (program-IsFresh true) program-IsSmall

program-Fills : Fills true arm emit (program true)
unfolding preprocess
program-Fills = (refl, refl)

section_headers-emitted_example :
    All
      (IsHeld
        (read_only (emitted arm emit (program true)))
        (writable (emitted arm emit (program true))))
      (section_headers arm (emitted arm emit (program true)))
section_headers-emitted_example =
    section_headers-emitted arm emit (program true) (program-IsFresh true) program-Fills

segments-emitted_example :
    ArePaged
      (read_only (emitted arm emit (program true)))
      (writable (emitted arm emit (program true)))
segments-emitted_example =
    segments-emitted arm emit (program true) (program-IsFresh true) program-Fills

-- The length of the file for static linking.
static_length : length (write_elf arm emit (program false)) ≡ 116 + 8 + 4 + 8 + 52 + 320
unfolding write_elf int_bytes shdr_bytes section_headers
static_length = refl

names_length : (length (section_names false []) ≡ 52) × (length (section_names true []) ≡ 104)
unfolding section_names write_name
names_length = (refl, refl)

static_names : read_names (write_elf arm emit (program false)) ≡ expected_names false
unfolding write_elf int_bytes section_headers read_headers shdr_bytes
static_names = refl

add_symbol-HasSymbols_example :
    HasSymbols
      (add_symbol (chars "main") 65716 (program false))
      (record { st_name = 0; name = chars "main"; st_value = 65716 } ∷ [])
add_symbol-HasSymbols_example =
    add_symbol-HasSymbols (chars "main") 65716 (program false) [] (omega arith) (omega arith)
      (refl, refl, tt)

align_lem_example :
    (zeros : ℕ) × (align (7 ∷ 7 ∷ []) ≡ 7 ∷ 7 ∷ repeat zeros 0) × (length (align (7 ∷ 7 ∷ [])) ≡ 4)
align_lem_example = align_lem (7 ∷ 7 ∷ [])

write_int-int_bytes_example : write_int (9 ∷ []) 0x01020304 ≡ 9 ∷ 4 ∷ 3 ∷ 2 ∷ 1 ∷ []
unfolding int_bytes
write_int-int_bytes_example = write_int-int_bytes (9 ∷ []) 0x01020304 (omega arith)

-- Before `elf_generate_sections`, for dynamic linking.
abbrev before_sections : Elf
before_sections = record (program true) {
  elf_got_start = 0x11000;
  relplt_size = 24;
  plt_size = 56;
  got_size = 24;
}

dynamic_sections-sizes_example :
    (length (dynamic_sections arm before_sections).elf_relplt ≡ 24)
    × (length (dynamic_sections arm before_sections).elf_got ≡ 24)
unfolding dynamic_sizes
dynamic_sections-sizes_example = dynamic_sections-sizes arm before_sections refl refl refl refl

dynamic_sections-Linked_example :
    (rels : List Rel) × (syms : List Sym) × ((dynamic_sections arm before_sections).elf_relplt
      ≡ rels_bytes rels)
    × ((dynamic_sections arm before_sections).elf_dynsym
        ≡ sym_bytes (record { st_name = 0; st_info = 0 }) ++ syms_bytes syms)
    × Linked arm 0x11000
        (dynamic_sections arm before_sections).elf_dynstr
        0
        (start_main arm ∷ externals (dynamic_sections arm before_sections).funcs)
        rels
        syms
dynamic_sections-Linked_example = dynamic_sections-Linked arm before_sections refl refl refl
