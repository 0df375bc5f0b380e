-- ===== src/Elf/Reserved.antt =====
-- src/elf.c: the sections for dynamic linking against the sizes that `elf_preprocess` reserves.
use shecc.Prelude.{
  ℕ, zero, suc, ◌+◌, ◌*◌, ◌%◌, ◌≤◌, ◌≡◌, refl, sym, ap, ◌∙◌, arith, List, [], ◌∷◌, length,
  length-append, ltb, Bool-cases, inl, inr,
}
use shecc.Elf.{Buf, Target, Func, Elf, ptr_size}
use shecc.Elf.Bytes.{int_bytes, write_int}
use shecc.Elf.Dynamic.{
  is_external, Dyn, add_dynamic, first_dynamic, add_external, dynamic_loop, got_loop, write_got,
  dynamic_sections,
}
use shecc.Elf.Preprocess.{Sizes, first_sizes, add_sizes, size_loop, dynamic_sizes}

-- The sections as far as they are written have the sizes as far as they are counted.
abbrev pub IsCounted : Dyn → Sizes → Type 0
IsCounted d z =
    (length d.relplt ≡ z.relplt_size)
    × (d.func_plt_ofs ≡ z.plt_size)
    × (d.func_got_ofs ≡ z.got_size)

add_external-IsCounted :
    (t : Target) (func : Func) (d : Dyn) (z : Sizes)
    → IsCounted d z
    → IsCounted (add_external t func d) (add_sizes t z)
unfolding add_external add_dynamic int_bytes
add_external-IsCounted t func d z (rels, plts, gots) =
    (length-append d.relplt _ ∙ omega (arith, rels), omega (arith, plts), omega (arith, gots))

-- The loop writes what the other loop counts.
pub dynamic_loop-IsCounted :
    (t : Target) (funcs : List Func) (d : Dyn) (z : Sizes)
    → IsCounted d z
    → IsCounted (dynamic_loop t funcs d).0 (size_loop t funcs z)
unfolding dynamic_loop size_loop
dynamic_loop-IsCounted t [] d z counted = counted
dynamic_loop-IsCounted t (func ∷ funcs) d z counted = elim (Bool-cases (is_external func)) [
  | inr skip ↦ rw skip (dynamic_loop-IsCounted t funcs d z counted)
  | inl external ↦ rw external (
      dynamic_loop-IsCounted t funcs (add_external t func d) (add_sizes t z)
        (add_external-IsCounted t func d z counted))
]

length-write_int : (buf : Buf) (v : ℕ) → length (write_int buf v) ≡ length buf + 4
unfolding write_int
length-write_int buf v = simp length-append (omega arith)

-- As many rounds as bytes are left are enough, a word each.
length-got_loop :
    (fuel plt_start got_size i : ℕ) (got : Buf)
    → length got ≡ i
    → got_size % 4 ≡ 0
    → i % 4 ≡ 0
    → i ≤ got_size
    → got_size ≤ i + fuel
    → length (got_loop fuel plt_start got_size i got) ≡ got_size
unfolding got_loop
length-got_loop zero plt_start got_size i got len whole whole' lo hi = omega (arith, len, lo, hi)
length-got_loop (suc fuel) plt_start got_size i got len whole whole' lo hi =
    elim (Bool-cases (ltb i got_size)) [
      | inr done ↦ rw done (ground (arith, done, len, lo))
      | inl more ↦ rw more (
          length-got_loop fuel plt_start got_size (i + ptr_size) (write_int got plt_start)
            (length-write_int got plt_start ∙ ap (λ n. n + 4) len) whole (omega (arith, whole'))
            (ground (arith, more, whole, whole')) (omega (arith, hi)))
    ]

-- The table has whole words, the first three among them.
HasGot : Sizes → Type 0
HasGot z = (z.got_size % 4 ≡ 0) × (12 ≤ z.got_size)

size_loop-HasGot :
    (t : Target) (funcs : List Func) (z : Sizes) → HasGot z → HasGot (size_loop t funcs z)
unfolding size_loop HasGot
size_loop-HasGot t [] z has = has
size_loop-HasGot t (func ∷ funcs) z (whole, some_first) = elim (Bool-cases (is_external func)) [
  | inr skip ↦ rw skip (size_loop-HasGot t funcs z (whole, some_first))
  | inl external ↦
      rw external
        (size_loop-HasGot t funcs (add_sizes t z) (omega (arith, whole), omega (arith, some_first)))
]

length-write_got :
    (t : Target) (s : Elf) (dynstr_size dynsym_size : ℕ)
    → s.got_size ≡ (dynamic_sizes t s.funcs).got_size
    → s.elf_got ≡ []
    → length (write_got s dynstr_size dynsym_size) ≡ s.got_size
unfolding write_got dynamic_sizes HasGot
length-write_got t s dynstr_size dynsym_size sized empty =
    let (whole, first) : HasGot (dynamic_sizes t s.funcs) =
      size_loop-HasGot t s.funcs (first_sizes t) (refl, omega arith) in
    let start = s.elf_got_start + s.got_size + dynstr_size + dynsym_size in
    let len : length (write_int (write_int (write_int s.elf_got start) 0) 0) ≡ 12 = omega (
      arith,
      ap length empty,
      length-write_int s.elf_got start,
      length-write_int (write_int s.elf_got start) 0,
      length-write_int (write_int (write_int s.elf_got start) 0) 0,
    ) in
    length-got_loop s.got_size s.elf_plt_start s.got_size (ptr_size * 3)
      (write_int (write_int (write_int s.elf_got start) 0) 0) len (omega (arith, sized, whole)) refl
      (omega (arith, sized, first)) (omega arith)

first_dynamic-IsCounted :
    (t : Target) (s : Elf) → s.elf_relplt ≡ [] → IsCounted (first_dynamic t s) (first_sizes t)
unfolding first_dynamic add_dynamic int_bytes
first_dynamic-IsCounted t s empty = (rw empty refl, refl, refl)

-- Where the sizes are those that `elf_preprocess` counts and the buffers are empty, the
-- relocations and the table of global offsets that are written fill just these sizes.
pub dynamic_sections-sizes :
    (t : Target) (s : Elf)
    → s.relplt_size ≡ (dynamic_sizes t s.funcs).relplt_size
    → s.got_size ≡ (dynamic_sizes t s.funcs).got_size
    → s.elf_relplt ≡ []
    → s.elf_got ≡ []
    → (length (dynamic_sections t s).elf_relplt ≡ s.relplt_size)
      × (length (dynamic_sections t s).elf_got ≡ s.got_size)
unfolding dynamic_sections dynamic_sizes
dynamic_sections-sizes t s sized sized' empty empty' =
    let (rels, plts, gots) =
      dynamic_loop-IsCounted t s.funcs (first_dynamic t s) (first_sizes t)
        (first_dynamic-IsCounted t s empty) in
    (rels ∙ sym sized, length-write_got t s _ _ sized' empty')
