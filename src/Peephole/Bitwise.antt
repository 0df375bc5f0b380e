-- ===== src/Peephole/Bitwise.antt =====
-- src/peephole.c: `bitwise_optimization`. In all patterns but the first the source writes the new
-- instruction into `next` and then unlinks `next`, so that `cur` alone is left.
pub mod Sound
use shecc.Prelude.{
  ℕ, suc, ◌+◌, ◌-◌, ◌*◌, ◌/◌, ◌%◌, ◌^◌, ◌≡◌, refl, ◌≢◌, ◌⊎◌, inl, inr, arith, Bool, true, false,
  not, ◌&&◌, ◌||◌, Option, none, some, List, [], ◌∷◌, ◌++◌, ◌∙◌, ap, sym, Option-cases, Bool-cases,
  IsWord, bit_and_mask, bit_and-zero, bit_or-zero, bit_xor-zero, bit_and_self, bit_or_self,
  bit_xor_self, slt32, sub32, ltb, leb, is_neg, neg32, ◌==◌, if◌then◌else◌, ◌<◌, ◌≤◌,
}
use shecc.Ir.{Opcode, Ph2Ir, is_op, eq_of_is_op}
use shecc.Peephole.Rule.{Rule, when, ◌orelse◌, at_pair, shift_amount, single_bit}
use shecc.Peephole.Fusion.{loads, minus_one}

-- {neg t, x; neg d, t}
unfoldable pub negate_twice : Rule
negate_twice cur next =
    when (is_op cur.op Opcode.negate && is_op next.op Opcode.negate && (next.src0 == cur.dest))
      (record cur { op = Opcode.assign; dest = next.dest } ∷ [])

-- {li -1; and x, -1}
unfoldable pub and_ones : Rule
and_ones cur next =
    when (loads cur minus_one && is_op next.op Opcode.bit_and && (next.src1 == cur.dest)) (cur ∷ [])

-- {li 0; or x, 0}
unfoldable pub or_zero : Rule
or_zero cur next =
    when (loads cur 0 && is_op next.op Opcode.bit_or && (next.src1 == cur.dest)) (cur ∷ [])

-- {li 0; xor x, 0}
unfoldable pub xor_zero : Rule
xor_zero cur next =
    when (loads cur 0 && is_op next.op Opcode.bit_xor && (next.src1 == cur.dest)) (cur ∷ [])

-- {li 0; and x, 0} and {li 0; and 0, x}
unfoldable pub and_zero : Rule
and_zero cur next =
    when
      (loads cur 0
        && is_op next.op Opcode.bit_and
        && (next.src0 == cur.dest || next.src1 == cur.dest))
      (cur ∷ [])

-- {li -1; or x, -1} and {li -1; or -1, x}
unfoldable pub or_ones : Rule
or_ones cur next =
    when
      (loads cur minus_one
        && is_op next.op Opcode.bit_or
        && (next.src0 == cur.dest || next.src1 == cur.dest))
      (cur ∷ [])

-- {li 0; shl x, 0} and {li 0; shr x, 0}
unfoldable pub shift_zero : Rule
shift_zero cur next =
    when
      (loads cur 0
        && (is_op next.op Opcode.lshift || is_op next.op Opcode.rshift)
        && (next.src1 == cur.dest))
      (cur ∷ [])

-- The patterns in the order in which they are tried.
unfoldable pub simplify_bits : Rule
simplify_bits cur next =
    negate_twice cur next
    orelse and_ones cur next
    orelse or_zero cur next
    orelse xor_zero cur next
    orelse and_zero cur next
    orelse or_ones cur next
    orelse shift_zero cur next

unfoldable pub bitwise_optimization : List Ph2Ir → Option (List Ph2Ir)
bitwise_optimization = at_pair simplify_bits
