-- ===== src/Peephole/Driver.antt =====
-- src/peephole.c: `peephole`, the walk over one block. A block is the list of its instructions.
mod Small
mod Arithmetic
mod Moving
pub mod Ends
use shecc.Prelude.{
  ℕ, zero, suc, length, ◌+◌, ◌-◌, ◌*◌, ◌/◌, ◌%◌, ◌^◌, ◌≡◌, refl, ◌≢◌, ◌⊎◌, inl, inr, arith, Bool,
  true, false, not, ◌&&◌, ◌||◌, Option, none, some, List, [], ◌∷◌, ◌++◌, ◌∙◌, ap, sym, Option-cases,
  Bool-cases, IsWord, bit_and_mask, bit_and-zero, bit_or-zero, bit_xor-zero, bit_and_self,
  bit_or_self, bit_xor_self, slt32, sub32, ltb, leb, is_neg, neg32, ◌==◌, if◌then◌else◌, ◌<◌, ◌≤◌,
}
use shecc.Ir.{Opcode, Ph2Ir, is_op, eq_of_is_op}
use shecc.Peephole.Rule.{◌orelse◌}
use shecc.Peephole.Fusion.{insn_fusion}
use shecc.Peephole.Simplify.{comparison_optimization, algebraic_simplification}
use shecc.Peephole.Strength.{strength_reduction}
use shecc.Peephole.Bitwise.{bitwise_optimization}
use shecc.Peephole.Moves.{redundant_move_elim}
use shecc.Peephole.Memory.{eliminate_load_store_pairs, triple_pattern_optimization}

-- A function that rewrites `ir` itself, at the head of a block.
unfoldable pub at_head : (Ph2Ir → Option Ph2Ir) → List Ph2Ir → Option (List Ph2Ir)
at_head f [] = none
at_head f (ir ∷ rest) = elim (f ir) [ none ↦ none | some w ↦ some (w ∷ rest) ]

-- The functions in the order of the loop's body; each that applies ends the round.
unfoldable pub try_all : List Ph2Ir → Option (List Ph2Ir)
try_all l =
    triple_pattern_optimization l
    orelse insn_fusion l
    orelse at_head comparison_optimization l
    orelse strength_reduction l
    orelse at_head algebraic_simplification l
    orelse bitwise_optimization l
    orelse redundant_move_elim l
    orelse eliminate_load_store_pairs l

-- One round at `ir`, the head of the list.
unfoldable pub round : List Ph2Ir → List Ph2Ir
round (ir ∷ next ∷ rest) =
    if is_op next.op Opcode.assign && (next.dest == next.src0)
    then ir ∷ rest
    else elim (try_all (ir ∷ next ∷ rest)) [ none ↦ ir ∷ next ∷ rest | some w ↦ w ]
round l = l

-- `for (ir = head; ir; ir = ir->next)`, with fuel.
unfoldable pub walk : ℕ → List Ph2Ir → List Ph2Ir
walk zero l = l
walk (suc fuel) l = elim (round l) [ [] ↦ [] | ir ∷ rest ↦ ir ∷ walk fuel rest ]

unfoldable pub peephole_block : List Ph2Ir → List Ph2Ir
peephole_block l = walk (length l) l
