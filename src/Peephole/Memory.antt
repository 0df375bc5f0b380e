-- ===== src/Peephole/Memory.antt =====
-- src/peephole.c: `eliminate_load_store_pairs` and `triple_pattern_optimization`.
pub mod Sound
use shecc.Prelude.{
  ℕ, suc, ◌+◌, ◌-◌, ◌*◌, ◌/◌, ◌%◌, ◌^◌, ◌≡◌, refl, ◌≢◌, ◌⊎◌, inl, inr, arith, Bool, true, false,
  not, ◌&&◌, ◌||◌, Option, none, some, List, [], ◌∷◌, ◌++◌, ◌∙◌, ap, sym, Option-cases, Bool-cases,
  IsWord, bit_and_mask, bit_and-zero, bit_or-zero, bit_xor-zero, bit_and_self, bit_or_self,
  bit_xor_self, slt32, sub32, ltb, leb, is_neg, neg32, ◌==◌, if◌then◌else◌, ◌<◌, ◌≤◌,
}
use shecc.Ir.{Opcode, Ph2Ir, is_op, eq_of_is_op}
use shecc.Peephole.Rule.{Rule, when, ◌orelse◌, at_pair, shift_amount, single_bit}

-- {store; store} to one slot
unfoldable pub store_store : Rule
store_store cur next =
    when
      (is_op cur.op Opcode.store
        && is_op next.op Opcode.store
        && (cur.src0 == next.src0)
        && (cur.src1 == next.src1)
        && not (is_neg cur.src0)
        && not (is_neg cur.src1))
      (record cur { dest = next.dest } ∷ [])

-- {load; load} from one slot
unfoldable pub load_again : Rule
load_again cur next =
    when
      (is_op cur.op Opcode.load
        && is_op next.op Opcode.load
        && (cur.src0 == next.src0)
        && (cur.src1 == next.src1)
        && not (is_neg cur.src0)
        && not (is_neg cur.src1))
      (cur ∷ record next { op = Opcode.assign; src0 = cur.dest; src1 = 0 } ∷ [])

-- {store; load}
unfoldable pub store_load : Rule
store_load cur next =
    when
      (is_op cur.op Opcode.store
        && is_op next.op Opcode.load
        && (cur.src0 == next.src0)
        && (cur.src1 == next.src1)
        && not (is_neg cur.src0)
        && not (is_neg cur.dest))
      (cur ∷ record next { op = Opcode.assign; src0 = cur.dest; src1 = 0 } ∷ [])

-- {load; store}
unfoldable pub load_store : Rule
load_store cur next =
    when
      (is_op cur.op Opcode.load
        && is_op next.op Opcode.store
        && (cur.dest == next.dest)
        && (cur.src0 == next.src0)
        && (cur.src1 == next.src1)
        && not (is_neg cur.src0))
      (cur ∷ [])

-- {global_store; global_store} to one slot
unfoldable pub global_store_store : Rule
global_store_store cur next =
    when
      (is_op cur.op Opcode.global_store
        && is_op next.op Opcode.global_store
        && (cur.src0 == next.src0)
        && (cur.src1 == next.src1))
      (record cur { dest = next.dest } ∷ [])

-- {global_load; global_load} from one slot
unfoldable pub global_load_again : Rule
global_load_again cur next =
    when
      (is_op cur.op Opcode.global_load
        && is_op next.op Opcode.global_load
        && (cur.src0 == next.src0)
        && (cur.src1 == next.src1))
      (cur ∷ record next { op = Opcode.assign; src0 = cur.dest; src1 = 0 } ∷ [])

-- The patterns in the order in which they are tried.
unfoldable pub pair_memory : Rule
pair_memory cur next =
    store_store cur next
    orelse load_again cur next
    orelse store_load cur next
    orelse load_store cur next
    orelse global_store_store cur next
    orelse global_load_again cur next

unfoldable pub eliminate_load_store_pairs : List Ph2Ir → Option (List Ph2Ir)
eliminate_load_store_pairs = at_pair pair_memory

-- {store v1; load r; store v2} on one slot: the load goes.
unfoldable pub store_load_store : Ph2Ir → Ph2Ir → Ph2Ir → Option (List Ph2Ir)
store_load_store first second third =
    when
      (is_op first.op Opcode.store
        && is_op second.op Opcode.load
        && is_op third.op Opcode.store
        && (first.src1 == second.src0)
        && (first.dest == second.src1)
        && (second.src0 == third.src1)
        && (second.src1 == third.dest)
        && not (third.src0 == second.dest))
      (first ∷ third ∷ [])

-- Three stores to one slot.
unfoldable pub three_stores : Ph2Ir → Ph2Ir → Ph2Ir → Option (List Ph2Ir)
three_stores first second third =
    when
      (is_op first.op Opcode.store
        && is_op second.op Opcode.store
        && is_op third.op Opcode.store
        && (first.src1 == second.src1)
        && (first.dest == second.dest)
        && (second.src1 == third.src1)
        && (second.dest == third.dest))
      (record first { src0 = third.src0 } ∷ [])

unfoldable pub triple_pattern_optimization : List Ph2Ir → Option (List Ph2Ir)
triple_pattern_optimization (first ∷ second ∷ third ∷ rest) =
    elim (store_load_store first second third orelse three_stores first second third) [
      | none ↦ none
      | some w ↦ some (w ++ rest)
    ]
triple_pattern_optimization _ = none
