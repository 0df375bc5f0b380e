-- ===== src/Peephole/Rule/Keep.antt =====
-- A pattern over two instructions keeps what they do, but for the register that the first sets.
use shecc.Prelude.{ℕ, ◌≡◌, inl, inr, Option, none, some, List, [], ◌∷◌, ◌++◌, ◌∙◌, ap, Option-cases}
use shecc.Ir.{Ph2Ir}
use shecc.Ir.Semantics.{State, Agree, run}
use shecc.Peephole.Rule.{Rule, ◌orelse◌, at_pair}

-- The instruction that uses the constant has one more operand.
abbrev pub OneOperand : Ph2Ir → Ph2Ir → Type 0
OneOperand cur next = ¬ ((cur.dest ≡ next.src0) × (cur.dest ≡ next.src1))

module _ (data_start rodata_start : ℕ) (other : Ph2Ir → State → State)
    (Pre : Ph2Ir → Ph2Ir → State → Type 0) where
  abbrev pub Keeps : Rule → Type 0
  Keeps rule =
      (cur next : Ph2Ir) (w : List Ph2Ir) (s : State)
      → Pre cur next s
      → rule cur next ≡ some w
      → Agree cur.dest next.dest (run data_start rodata_start other (cur ∷ next ∷ []) s)
          (run data_start rodata_start other w s)

  pub orelse-Keeps :
      (a b : Rule) → Keeps a → Keeps b → Keeps (λ cur next. a cur next orelse b cur next)
  orelse-Keeps a b keep_a keep_b cur next w s pre h = elim (Option-cases (a cur next)) [
    | inl misses ↦ keep_b cur next w s pre (rw misses at h)
    | inr (v, hits) ↦ keep_a cur next w s pre (hits ∙ rw hits at h)
  ]

-- A pattern at the head of a block leaves the instructions behind the two as they are.
pub at_pair-prefix :
    (rule : Rule) (cur next : Ph2Ir) (rest w : List Ph2Ir)
    → at_pair rule (cur ∷ next ∷ rest) ≡ some w
    → (front : List Ph2Ir) × (rule cur next ≡ some front) × (w ≡ front ++ rest)
unfolding at_pair
at_pair-prefix rule cur next rest w h = elim (Option-cases (rule cur next)) [
  | inl misses ↦ absurd (none_some (rw (misses, at_pair) at h))
  | inr (front, hits) ↦ (front, hits, from_some (rw (hits, at_pair) at h))
]
  where
    none_some : none ≡ some w → ⊥
    none_some e = cc

    from_some : {v : List Ph2Ir} → some v ≡ some w → w ≡ v
    from_some e = cc

-- A rule that applies at the head.
pub at_pair-some :
    (rule : Rule) (cur next : Ph2Ir) (rest front : List Ph2Ir)
    → rule cur next ≡ some front
    → at_pair rule (cur ∷ next ∷ rest) ≡ some (front ++ rest)
unfolding at_pair
at_pair-some rule cur next rest front hit =
    ap (λ (o : Option (List Ph2Ir)). elim o [ none ↦ none | some w ↦ some (w ++ rest) ]) hit
