-- ===== src/Elf/Dynamic/Entries.antt =====
-- src/elf.c: the entries that the loop over the functions writes.
use shecc.Prelude.{
  ℕ, ◌+◌, ◌*◌, ◌≡◌, sym, ap, ◌∙◌, arith, List, [], ◌∷◌, ◌++◌, length, length-append, bit_or, shl32,
  if◌then◌else◌, Bool-cases, inl, inr,
}
use mathlib.Core.List.{append_assoc, append-nil}
use shecc.Elf.{Buf, Target, Func, ptr_size}
use shecc.Elf.Bytes.{write_name}
use shecc.Elf.Header.{Sym, Rel, sym_bytes, rel_bytes}
use shecc.Elf.Dynamic.{st_info, is_external, Dyn, add_dynamic, add_external, dynamic_loop}

-- A name with its final zero stands at an offset.
abbrev pub NamedAt : Buf → ℕ → Buf → Type 0
NamedAt buf ofs name =
    (front : Buf) × (back : Buf) × (buf ≡ front ++ name ++ 0 ∷ back) × (ofs ≡ length front)

pub NamedAt-append :
    (buf more : Buf) (ofs : ℕ) (name : Buf) → NamedAt buf ofs name → NamedAt (buf ++ more) ofs name
NamedAt-append buf more ofs name (front, back, split, at) =
    (front, back ++ more, ap (λ b. b ++ more) split ∙ simp append_assoc, at)

-- The external functions.
abbrev pub externals : List Func → List Func
externals [] = []
externals (func ∷ funcs) = if is_external func then func ∷ externals funcs else externals funcs

abbrev pub rels_bytes : List Rel → Buf
rels_bytes [] = []
rels_bytes (r ∷ rs) = rel_bytes r ++ rels_bytes rs

abbrev pub syms_bytes : List Sym → Buf
syms_bytes [] = []
syms_bytes (y ∷ ys) = sym_bytes y ++ syms_bytes ys

-- The entry `k` of each table is for one function: its symbol names it, its relocation is for its
-- word of the table of global offsets and for that symbol, and its offsets are those of the entry `k`.
abbrev pub IsEntry : Target → ℕ → Buf → ℕ → Func → Rel → Sym → Type 0
IsEntry t got_start dynstr k f r y =
    NamedAt dynstr y.st_name f.var_name
    × (r.r_offset ≡ got_start + f.got_offset)
    × (r.r_info ≡ bit_or (shl32 (k + 1) 8) t.r_arch_jump_slot)
    × (f.got_offset ≡ ptr_size * (3 + k))
    × (f.plt_offset ≡ t.plt_fixup_size + k * t.plt_ent_size)

-- The functions, relocations and symbols, one after the other from the entry `k` on.
abbrev pub Linked : Target → ℕ → Buf → ℕ → List Func → List Rel → List Sym → Type 0
Linked t got_start dynstr k [] [] [] = Unit
Linked t got_start dynstr k (f ∷ fs) (r ∷ rs) (y ∷ ys) =
    IsEntry t got_start dynstr k f r y × Linked t got_start dynstr (k + 1) fs rs ys
Linked t got_start dynstr k _ _ _ = ⊥

-- What the loop keeps: the next name starts at the end, and the entry `k` is next.
abbrev pub IsReady : Target → ℕ → ℕ → Dyn → Type 0
IsReady t got_start k d =
    (d.st_name ≡ length d.dynstr)
    × (d.r_offset + ptr_size ≡ got_start + d.func_got_ofs)
    × (d.dymsym_idx ≡ k + 1)
    × (d.func_got_ofs ≡ ptr_size * (3 + k))
    × (d.func_plt_ofs ≡ t.plt_fixup_size + k * t.plt_ent_size)

pub length-write_name :
    (buf name : Buf) → length (write_name buf name) ≡ length buf + (length name + 1)
unfolding write_name
length-write_name buf name =
    omega (arith, length-append (buf ++ name) (0 ∷ []), length-append buf name)

next_entry :
    (t : Target) (k : ℕ)
    → t.plt_fixup_size + (k + 1) * t.plt_ent_size
      ≡ t.plt_fixup_size + k * t.plt_ent_size + t.plt_ent_size
next_entry t k = grind arith

add_external-IsReady :
    (t : Target) (func : Func) (got_start k : ℕ) (d : Dyn)
    → IsReady t got_start k d
    → IsReady t got_start (k + 1) (add_external t func d)
unfolding add_external add_dynamic
add_external-IsReady t func got_start k d (named, offset, index, gots, plts) = (
  omega (arith, named, length-write_name d.dynstr func.var_name),
  omega (arith, offset),
  omega (arith, index),
  omega (arith, gots),
  ap (λ n. n + t.plt_ent_size) plts ∙ sym (next_entry t k),
)

-- The loop only appends: entries that are linked in the end.
pub dynamic_loop-Linked :
    (t : Target) (funcs : List Func) (got_start k : ℕ) (d : Dyn)
    → IsReady t got_start k d
    → (rels : List Rel) × (syms : List Sym) × (more : Buf) × ((dynamic_loop t funcs d).0.relplt
        ≡ d.relplt ++ rels_bytes rels)
      × ((dynamic_loop t funcs d).0.dynsym ≡ d.dynsym ++ syms_bytes syms)
      × ((dynamic_loop t funcs d).0.dynstr ≡ d.dynstr ++ more)
      × Linked t got_start
          (dynamic_loop t funcs d).0.dynstr
          k
          (externals (dynamic_loop t funcs d).1)
          rels
          syms
unfolding dynamic_loop add_external add_dynamic write_name
dynamic_loop-Linked t [] got_start k d ready =
    ([], [], [], sym (append-nil _), sym (append-nil _), sym (append-nil _), tt)
dynamic_loop-Linked t (func ∷ funcs) got_start k d ready = elim (Bool-cases (is_external func)) [
  | inr skip ↦ rw (skip, skip) (dynamic_loop-Linked t funcs got_start k d ready)
  | inl take ↦
      let (rels, syms, more, r1, s1, n1, rest) =
        dynamic_loop-Linked t funcs got_start (k + 1) (add_external t func d)
          (add_external-IsReady t func got_start k d ready) in
      let rel : Rel = record {
        r_offset = d.r_offset + ptr_size;
        r_info = bit_or (shl32 d.dymsym_idx 8) t.r_arch_jump_slot;
      } in
      let symbol : Sym = record { st_name = d.st_name; st_info = st_info } in
      let (named, offset, index, gots, plts) = ready in
      let info = ap (λ i. bit_or (shl32 i 8) t.r_arch_jump_slot) index in
      rw (take, take)
        (
          rel ∷ rels,
          symbol ∷ syms,
          func.var_name ++ (0 ∷ more),
          r1 ∙ append_assoc d.relplt (rel_bytes rel) (rels_bytes rels),
          s1 ∙ append_assoc d.dynsym (sym_bytes symbol) (syms_bytes syms),
          n1 ∙ simp append_assoc,
          (((d.dynstr, more, n1 ∙ simp append_assoc, named), offset, info, gots, plts), rest),
        )
]
