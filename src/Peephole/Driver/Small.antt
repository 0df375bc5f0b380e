-- ===== src/Peephole/Driver/Small.antt =====
-- src/peephole.c: what a pattern puts in place of two instructions is one or two.
use shecc.Prelude.{
  length, length-append, ◌≡◌, refl, inl, inr, arith, Option, none, some, List, [], ◌∷◌, ◌++◌, ◌∙◌,
  Option-cases, ◌≤◌,
}
use shecc.Ir.{Ph2Ir}
use shecc.Peephole.Rule.{Rule, ◌orelse◌, at_pair}
use shecc.Peephole.Driver.{at_head}

-- One or two instructions.
pub record IsSmall (o : Option (List Ph2Ir)) : Type 0 where
  pub bounds : (w : List Ph2Ir) → o ≡ some w → (1 ≤ length w) × (length w ≤ 2)

pub IsSmall-orelse : (a b : Option (List Ph2Ir)) → IsSmall a → IsSmall b → IsSmall (a orelse b)
IsSmall-orelse none b small_a small_b = small_b
IsSmall-orelse (some v) b small_a small_b = small_a

-- A function over a block gives back a shorter block or one of the same length, and not an empty one.
abbrev pub Shrinks : (List Ph2Ir → Option (List Ph2Ir)) → Type 0
Shrinks f = (l w : List Ph2Ir) → f l ≡ some w → (1 ≤ length w) × (length w ≤ length l)

pub at_pair-Shrinks :
    (rule : Rule) → ((cur next : Ph2Ir) → IsSmall (rule cur next)) → Shrinks (at_pair rule)
unfolding at_pair
at_pair-Shrinks rule small [] w h = cc
at_pair-Shrinks rule small (cur ∷ []) w h = cc
at_pair-Shrinks rule small (cur ∷ next ∷ rest) w h = split (rule cur next) (small cur next) h
  where
    split :
        (o : Option (List Ph2Ir))
        → IsSmall o
        → elim o [ none ↦ none | some v ↦ some (v ++ rest) ] ≡ some w
        → (1 ≤ length w) × (length w ≤ length (cur ∷ next ∷ rest))
    split none s e = cc
    split (some v) s e = ground (arith, s.bounds v refl, length-append v rest)

pub at_head-Shrinks : (f : Ph2Ir → Option Ph2Ir) → Shrinks (at_head f)
unfolding at_head
at_head-Shrinks f [] w h = cc
at_head-Shrinks f (ir ∷ rest) w h = split (f ir) h
  where
    split :
        (o : Option Ph2Ir)
        → elim o [ none ↦ none | some v ↦ some (v ∷ rest) ] ≡ some w
        → (1 ≤ length w) × (length w ≤ length (ir ∷ rest))
    split none e = cc
    split (some v) e = ground arith

pub orelse-Shrinks :
    (f g : List Ph2Ir → Option (List Ph2Ir)) → Shrinks f → Shrinks g → Shrinks (λ l. f l orelse g l)
orelse-Shrinks f g shrinks_f shrinks_g l w h = elim (Option-cases (f l)) [
  | inl misses ↦ shrinks_g l w (rw misses at h)
  | inr (v, hits) ↦ shrinks_f l w (hits ∙ rw hits at h)
]
