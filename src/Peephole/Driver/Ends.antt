-- ===== src/Peephole/Driver/Ends.antt =====
-- src/peephole.c: the walk over a block ends, and never makes the block longer.
use shecc.Prelude.{
  ℕ, zero, suc, length, ◌≡◌, refl, inl, inr, arith, List, [], ◌∷◌, ap, Option-cases, ◌≤◌,
}
use shecc.Ir.{Ph2Ir}
use shecc.Peephole.Simplify.{comparison_optimization, algebraic_simplification}
use shecc.Peephole.Driver.{at_head, try_all, round, walk}
use shecc.Peephole.Memory.{triple_pattern_optimization}
use shecc.Peephole.Fusion
use shecc.Peephole.Strength
use shecc.Peephole.Bitwise
use shecc.Peephole.Moves
use shecc.Peephole.Driver.Small.{Shrinks, at_head-Shrinks, orelse-Shrinks}
use shecc.Peephole.Driver.Arithmetic.{fuse-Shrinks, reduce-Shrinks, simplify_bits-Shrinks}
use shecc.Peephole.Driver.Moving.{drop_move-Shrinks, pair_memory-Shrinks, triple-Shrinks}

try_all-Shrinks : Shrinks try_all
unfolding try_all
try_all-Shrinks = orelse-Shrinks triple_pattern_optimization _ triple-Shrinks (
    orelse-Shrinks Fusion.insn_fusion _ fuse-Shrinks (
      orelse-Shrinks (at_head comparison_optimization) _ (at_head-Shrinks comparison_optimization) (
        orelse-Shrinks Strength.strength_reduction _ reduce-Shrinks (
          orelse-Shrinks (at_head algebraic_simplification) _
            (at_head-Shrinks algebraic_simplification)
            (orelse-Shrinks Bitwise.bitwise_optimization _ simplify_bits-Shrinks (
              orelse-Shrinks Moves.redundant_move_elim _ drop_move-Shrinks pair_memory-Shrinks))))))

length-round : (l : List Ph2Ir) → length (round l) ≤ length l
unfolding round
length-round [] = omega arith
length-round (ir ∷ []) = omega arith
length-round (ir ∷ next ∷ rest) = elim (Option-cases (try_all (ir ∷ next ∷ rest))) [
  | inl misses ↦ ground arith
  | inr (w, hits) ↦ ground (arith, try_all-Shrinks (ir ∷ next ∷ rest) w)
]

-- The walk over a block with any fuel from the length of the block on gives the same block: it has
-- reached the end.
pub walk_fuel : (f g : ℕ) (l : List Ph2Ir) → length l ≤ f → length l ≤ g → walk f l ≡ walk g l
unfolding walk round
walk_fuel zero zero l p q = refl
walk_fuel zero (suc g) [] p q = refl
walk_fuel zero (suc g) (x ∷ xs) p q = absurd (omega arith)
walk_fuel (suc f) zero [] p q = refl
walk_fuel (suc f) zero (x ∷ xs) p q = absurd (omega arith)
walk_fuel (suc f) (suc g) l p q = split (round l) (length-round l) (walk_fuel f g)
  where
    split :
        (r : List Ph2Ir)
        → length r ≤ length l
        → ((m : List Ph2Ir) → length m ≤ f → length m ≤ g → walk f m ≡ walk g m)
        → elim r [ [] ↦ [] | ir ∷ rest ↦ ir ∷ walk f rest ]
          ≡ elim r [ [] ↦ [] | ir ∷ rest ↦ ir ∷ walk g rest ]
    split [] le ih = refl
    split (ir ∷ rest) le ih = ap (ir ∷◌) (ih rest (omega arith) (omega arith))

-- The walk over a block never makes it longer, whatever the fuel.
pub length-walk-le : (f : ℕ) (l : List Ph2Ir) → length (walk f l) ≤ length l
unfolding walk
length-walk-le zero l = omega arith
length-walk-le (suc f) l = split (round l) (length-round l) (length-walk-le f)
  where
    split :
        (r : List Ph2Ir)
        → length r ≤ length l
        → ((m : List Ph2Ir) → length (walk f m) ≤ length m)
        → length (elim r [ [] ↦ [] | ir ∷ rest ↦ ir ∷ walk f rest ]) ≤ length l
    split [] le ih = omega arith
    split (ir ∷ rest) le ih = omega (arith, ih rest)
