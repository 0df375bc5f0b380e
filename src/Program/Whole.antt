-- ===== src/Program/Whole.antt =====
-- src/riscv-codegen.c and src/arm-codegen.c: the layout of a whole program against its code.
use shecc.Prelude.{
  ℕ, length, length-append, ◌+◌, ◌*◌, ◌^◌, ◌%◌, ◌≡◌, refl, arith, Option, none, some, List, [], ◌∷◌,
  ◌++◌, add32, bind-some, ◌∙◌, ap, sym,
}
use mathlib.Core.List.{append_assoc}
use shecc.Ir.{Ph2Ir}
use shecc.Words.{Code, collect}
use shecc.Program.{Func, Backend, Flat, flatten_funcs, update_all, emit_all}
use shecc.Program.Placed.{
  All, All-each, IsConsistent, IsAt, Stand, Stand-map, laid_funcs, emit_all-append,
  flatten_funcs-Reached, from_some,
}

-- The words are a part of the code, and the offset is the number of bytes before them.
abbrev pub IsPart : List ℕ → List ℕ → ℕ → Type 0
IsPart code words ofs =
    (front : List ℕ) × (back : List ℕ) × (code ≡ front ++ words ++ back)
    × (ofs ≡ 4 * length front % 2 ^ 32)

-- What a sequence of `emit` calls writes stands in the code at the offset.
abbrev pub IsWritten : List ℕ → Code → ℕ → Type 0
IsWritten code calls ofs = (words : List ℕ) × (collect calls ≡ some words) × IsPart code words ofs

-- The words of the instructions, as they are written behind `front`, stand at the offset.
abbrev pub IsPlaced : Backend → List ℕ → List Ph2Ir → ℕ → Type 0
IsPlaced b code irs ofs =
    (front words back : List ℕ) × (code ≡ front ++ words ++ back)
    × (emit_all b (4 * length front) irs ≡ some words)
    × (ofs ≡ 4 * length front % 2 ^ 32)

-- Every instruction of the functions, as it is laid out, is fine.
abbrev pub AllFine : Backend → (Ph2Ir → Type 0) → List Func → Type 0
AllFine b IsFine funcs =
    All (λ f. All (λ k. All (λ i. IsFine (b.adjust f.stack_size i)) k.insns) f.bbs) funcs

empty-emit_all :
    (b : Backend) (size : ℕ) {words : List ℕ} → emit_all b size [] ≡ some words → length words ≡ 0
unfolding emit_all
empty-emit_all b size e = ap length (sym (from_some e))

-- A part of a front part of the code is a part of the code.
pub IsPart-append : (l m words : List ℕ) (o : ℕ) → IsPart l words o → IsPart (l ++ m) words o
IsPart-append l m words o (front, back, split, at) =
    (front, back ++ m, ap (λ k. k ++ m) split ∙ append_assoc (front ++ words) back m, at)

-- Two sequences of `emit` calls write the words of the one and then of the other.
pub collect-append :
    (calls calls' : Code) {words : List ℕ}
    → collect (calls ++ calls') ≡ some words
    → (front back : List ℕ) × (collect calls ≡ some front)
      × (collect calls' ≡ some back)
      × (words ≡ front ++ back)
unfolding collect
collect-append [] calls' h = ([], _, refl, h, refl)
collect-append (none ∷ calls) calls' h = absurd (no_words h)
  where
    no_words : {words : List ℕ} → ◌≡◌ {A = Option (List ℕ)} none (some words) → ⊥
    no_words q = cc
collect-append (some word ∷ calls) calls' h =
    let (rest, others, out) = bind-some (collect (calls ++ calls')) _ h in
    let (front, back, e1, e2, joined) = collect-append calls calls' others in
    (word ∷ front, back, rw e1 refl, e2, sym (from_some out) ∙ ap (word ∷◌) joined)

pub AllFine-each :
    (b : Backend) (P : Ph2Ir → Type 0)
    → ((i : Ph2Ir) → P i)
    → (funcs : List Func) → AllFine b P funcs
AllFine-each b P f =
    All-each _
      (λ func. All-each _ (λ k. All-each _ (λ i. f (b.adjust func.stack_size i)) k.insns) func.bbs)

module _ (b : Backend) (IsFine : Ph2Ir → Type 0) (laws : IsConsistent b IsFine) where
  -- Laying out instructions moves the offset by the bytes that are written for them.
  pub update_all-emit_all :
      (irs : List Ph2Ir) (size ofs ofs' : ℕ) (words : List ℕ)
      → All IsFine irs
      → update_all b irs ofs ≡ some ofs'
      → emit_all b size irs ≡ some words
      → ofs' % 2 ^ 32 ≡ (ofs + 4 * length words) % 2 ^ 32
  unfolding update_all emit_all
  update_all-emit_all [] size ofs ofs' words fine h e =
      omega (arith, from_some h, ap length (from_some e))
  update_all-emit_all (ir ∷ irs) size ofs ofs' words fine h e =
      let (mid, moved, h') = bind-some (b.update_elf_offset ir ofs) _ h in
      let (here, one, e') = bind-some (b.emit_ph2_ir size ir) _ e in
      let (there, others, out) = bind-some (emit_all b (size + 4 * length here) irs) _ e' in
      let near = laws.reserves size ofs mid ir here fine.0 moved one in
      let far = update_all-emit_all irs (size + 4 * length here) mid ofs' there fine.1 h' others in
      omega (arith, near, far, ap length (from_some out), length-append here there)

  -- Where the layout starts at the size of the code before, each block stands where its code begins.
  pub flatten_funcs-IsPlaced :
      (before : List ℕ) (funcs : List Func) (ofs : ℕ) (s : Flat) (rest : List ℕ)
      → AllFine b IsFine funcs
      → ofs ≡ 4 * length before % 2 ^ 32
      → flatten_funcs b funcs (record { elf_offset = ofs; flattened = []; bb_offset = [] }) ≡ some s
      → emit_all b (4 * length before) s.flattened ≡ some rest
      → Stand (IsPlaced b (before ++ rest)) (laid_funcs b funcs) s.bb_offset
  flatten_funcs-IsPlaced before funcs ofs s rest fine start h e =
      Stand-map (IsAt b IsFine laws (4 * length before) s.flattened) (IsPlaced b (before ++ rest))
        (laid_funcs b funcs) s.bb_offset placed
        ((flatten_funcs-Reached b IsFine laws (4 * length before) [] funcs _ s fine h none_yet).1
          rest e)
    where
      none_yet :
          ((words : List ℕ)
            → emit_all b (4 * length before) [] ≡ some words
            → ofs ≡ add32 (4 * length before) (4 * length words))
          × ((words : List ℕ) → emit_all b (4 * length before) [] ≡ some words → Unit {0})
      none_yet = (
        λ words written. omega (arith, start, empty-emit_all b (4 * length before) written),
        λ words written. tt,
      )

      placed :
          (irs : List Ph2Ir) (o : ℕ)
          → IsAt b IsFine laws (4 * length before) s.flattened irs o
          → IsPlaced b (before ++ rest) irs o
      placed irs o (front, back, words, split, written, at) =
          let (w, k, e1, e2, joined) =
            emit_all-append b (front ++ irs) back (4 * length before)
              (ap (emit_all b (4 * length before)) (sym split) ∙ e) in
          let (f, i, e3, e4, joined') = emit_all-append b front irs (4 * length before) e1 in
          let same : f ≡ words = from_some (sym e3 ∙ written) in
          (
            before ++ f,
            i,
            k,
            ap (before ++◌) (joined ∙ ap (λ x. x ++ k) joined')
                ∙ (sym (append_assoc before (f ++ i) k)
                    ∙ ap (λ x. x ++ k) (sym (append_assoc before f i))),
            ap (λ n. emit_all b n irs) (sum f) ∙ e4,
            omega (arith, at, ap length same, length-append before f),
          )
        where
          sum : (f : List ℕ) → 4 * length (before ++ f) ≡ 4 * length before + 4 * length f
          sum f = omega (arith, length-append before f)
