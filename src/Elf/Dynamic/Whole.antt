-- ===== src/Elf/Dynamic/Whole.antt =====
-- src/elf.c: the entries of the sections for dynamic linking, with those of `__libc_start_main`.
use shecc.Prelude.{
  ℕ, ◌+◌, ◌*◌, ◌≡◌, refl, sym, ap, ◌∙◌, arith, true, false, List, [], ◌∷◌, ◌++◌, length,
  length-append, bit_or, shl32,
}
use mathlib.Core.List.{append_assoc}
use shecc.Elf.{Buf, Target, Func, Elf, ptr_size}
use shecc.Elf.Bytes.{write_name}
use shecc.Elf.Align.{align_lem}
use shecc.Elf.Header.{Sym, Rel, sym_bytes, rel_bytes}
use shecc.Elf.Dynamic.{st_info, chars, add_dynamic, first_dynamic, dynamic_loop, dynamic_sections}
use mathlib.Core.Path.{subst}
use shecc.Elf.Align.{repeat}
use shecc.Elf.Dynamic.Entries.{
  NamedAt, NamedAt-append, externals, rels_bytes, syms_bytes, Linked, IsReady, length-write_name,
  dynamic_loop-Linked,
}

-- `__libc_start_main`, which has the first entries.
abbrev pub start_main : Target → Func
start_main t = record {
  var_name = chars "__libc_start_main";
  is_used = true;
  has_bbs = false;
  plt_offset = t.plt_fixup_size;
  got_offset = ptr_size * 3;
}

abbrev first_rel : Target → Elf → Rel
first_rel t s = record {
  r_offset = s.elf_got_start + ptr_size * 3;
  r_info = bit_or (shl32 1 8) t.r_arch_jump_slot;
}

abbrev first_sym : Target → Sym
first_sym t = record { st_name = 1 + (length t.libc_so + 1); st_info = st_info }

first_dynamic-IsReady :
    (t : Target) (s : Elf) → s.elf_dynstr ≡ [] → IsReady t s.elf_got_start 1 (first_dynamic t s)
unfolding first_dynamic add_dynamic
first_dynamic-IsReady t s no_dynstr =
    let libc = length-write_name (s.elf_dynstr ++ 0 ∷ []) t.libc_so in
    let main =
      length-write_name (write_name (s.elf_dynstr ++ 0 ∷ []) t.libc_so) (start_main t).var_name in
    (
      omega (arith, libc, main, length-append s.elf_dynstr (0 ∷ []), ap length no_dynstr),
      omega arith,
      refl,
      refl,
      omega arith,
    )

-- The name of `__libc_start_main` stands after that of the library.
first_dynamic-NamedAt :
    (t : Target) (s : Elf)
    → s.elf_dynstr ≡ []
    → NamedAt (first_dynamic t s).dynstr (first_sym t).st_name (start_main t).var_name
unfolding first_dynamic add_dynamic write_name
first_dynamic-NamedAt t s no_dynstr = (
  write_name (s.elf_dynstr ++ 0 ∷ []) t.libc_so,
  [],
  refl,
  omega (
    arith,
    length-write_name (s.elf_dynstr ++ 0 ∷ []) t.libc_so,
    length-append s.elf_dynstr (0 ∷ []),
    ap length no_dynstr,
  ),
)

Linked-append :
    (t : Target) (got_start : ℕ) (dynstr more : Buf) (k : ℕ) (fs : List Func) (rs : List Rel)
    (ys : List Sym)
    → Linked t got_start dynstr k fs rs ys
    → Linked t got_start (dynstr ++ more) k fs rs ys
Linked-append t got_start dynstr more k [] [] [] linked = tt
Linked-append t got_start dynstr more k [] [] (y ∷ ys) linked = linked
Linked-append t got_start dynstr more k [] (r ∷ rs) ys linked = linked
Linked-append t got_start dynstr more k (f ∷ fs) [] ys linked = linked
Linked-append t got_start dynstr more k (f ∷ fs) (r ∷ rs) [] linked = linked
Linked-append t got_start dynstr more k (f ∷ fs) (r ∷ rs) (y ∷ ys)
      ((named, offset, info, gots, plts), rest) =
    (
      (NamedAt-append dynstr more y.st_name f.var_name named, offset, info, gots, plts),
      Linked-append t got_start dynstr more (k + 1) fs rs ys rest,
    )

joined_eq : (a b c e : Buf) → a ≡ [] → a ++ b ++ c ++ e ≡ b ++ (c ++ e)
joined_eq a b c e empty = rw empty (append_assoc b c e)

-- With empty buffers, after `elf_generate_sections` for dynamic linking the external functions,
-- `__libc_start_main` first, have one relocation and one symbol each, in their order: the symbol
-- names the function in .dynstr, the relocation is for that symbol and for the word at
-- `got_offset`, and `plt_offset` and `got_offset` are those of the entry with the same number.
pub dynamic_sections-Linked :
    (t : Target) (s : Elf)
    → s.elf_relplt ≡ []
    → s.elf_dynsym ≡ []
    → s.elf_dynstr ≡ []
    → (rels : List Rel) × (syms : List Sym) × ((dynamic_sections t s).elf_relplt ≡ rels_bytes rels)
      × ((dynamic_sections t s).elf_dynsym
          ≡ sym_bytes (record { st_name = 0; st_info = 0 }) ++ syms_bytes syms)
      × Linked t s.elf_got_start
          (dynamic_sections t s).elf_dynstr
          0
          (start_main t ∷ externals (dynamic_sections t s).funcs)
          rels
          syms
unfolding dynamic_sections
dynamic_sections-Linked t s no_relplt no_dynsym no_dynstr =
    let d = first_dynamic t s in
    let (rels, syms, more, r1, s1, n1, rest) =
      dynamic_loop-Linked t s.funcs s.elf_got_start 1 d (first_dynamic-IsReady t s no_dynstr) in
    let dynstr = (dynamic_loop t s.funcs d).0.dynstr in
    let (zeros, same, total) = align_lem dynstr in
    let named = first_dynamic-NamedAt t s no_dynstr in
    (
      first_rel t s ∷ rels,
      first_sym t ∷ syms,
      r1 ∙ (ap (λ b. b ++ rel_bytes (first_rel t s) ++ rels_bytes rels) no_relplt),
      s1
          ∙ joined_eq s.elf_dynsym (sym_bytes (record { st_name = 0; st_info = 0 }))
              (sym_bytes (first_sym t)) (syms_bytes syms) no_dynsym,
      subst
          (λ b.
            Linked t s.elf_got_start b 0 (start_main t ∷ externals (dynamic_loop t s.funcs d).1)
              (first_rel t s ∷ rels) (first_sym t ∷ syms))
          (sym same)
          (Linked-append t s.elf_got_start dynstr (repeat zeros 0) 0
            (start_main t ∷ externals (dynamic_loop t s.funcs d).1) (first_rel t s ∷ rels)
            (first_sym t ∷ syms)
            (
              (
                subst (λ b. NamedAt b (first_sym t).st_name (start_main t).var_name) (sym n1)
                    (NamedAt-append d.dynstr more (first_sym t).st_name (start_main t).var_name
                      named),
                refl,
                refl,
                refl,
                omega arith,
              ),
              rest,
            )),
    )
