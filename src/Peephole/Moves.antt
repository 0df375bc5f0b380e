-- ===== src/Peephole/Moves.antt =====
-- src/peephole.c: `redundant_move_elim`.
pub mod Sound
use shecc.Prelude.{
  ℕ, suc, ◌+◌, ◌-◌, ◌*◌, ◌/◌, ◌%◌, ◌^◌, ◌≡◌, refl, ◌≢◌, ◌⊎◌, inl, inr, arith, Bool, true, false,
  not, ◌&&◌, ◌||◌, Option, none, some, List, [], ◌∷◌, ◌++◌, ◌∙◌, ap, sym, Option-cases, Bool-cases,
  IsWord, bit_and_mask, bit_and-zero, bit_or-zero, bit_xor-zero, bit_and_self, bit_or_self,
  bit_xor_self, slt32, sub32, ltb, leb, is_neg, neg32, ◌==◌, if◌then◌else◌, ◌<◌, ◌≤◌,
}
use shecc.Ir.{Opcode, Ph2Ir, is_op, eq_of_is_op}
use shecc.Peephole.Rule.{Rule, when, ◌orelse◌, at_pair, shift_amount, single_bit}

-- {mov rd, rs1; mov rd, rs2}
unfoldable pub move_move : Rule
move_move cur next =
    when (is_op cur.op Opcode.assign && is_op next.op Opcode.assign && (cur.dest == next.dest))
      (record cur { src0 = next.src0 } ∷ [])

-- {load rd, ofs; mov rd, rs}
unfoldable pub load_move : Rule
load_move cur next =
    when
      ((is_op cur.op Opcode.load || is_op cur.op Opcode.global_load)
        && is_op next.op Opcode.assign
        && (cur.dest == next.dest))
      (record cur { op = Opcode.assign; src0 = next.src0; src1 = 0 } ∷ [])

-- {li rd, imm; mov rd, rs}
unfoldable pub constant_move : Rule
constant_move cur next =
    when
      (is_op cur.op Opcode.load_constant && is_op next.op Opcode.assign && (cur.dest == next.dest))
      (record cur { op = Opcode.assign; src0 = next.src0 } ∷ [])

-- {load rd, ofs1; load rd, ofs2}
unfoldable pub load_load : Rule
load_load cur next =
    when
      ((is_op cur.op Opcode.load || is_op cur.op Opcode.global_load)
        && (is_op next.op Opcode.load || is_op next.op Opcode.global_load)
        && (cur.dest == next.dest))
      (record cur { op = next.op; src0 = next.src0; src1 = next.src1 } ∷ [])

-- {li rd, imm1; li rd, imm2}
unfoldable pub constant_constant : Rule
constant_constant cur next =
    when
      (is_op cur.op Opcode.load_constant
        && is_op next.op Opcode.load_constant
        && (cur.dest == next.dest))
      (record cur { src0 = next.src0 } ∷ [])

-- {mov rd, rs; load rd, ofs}
unfoldable pub move_load : Rule
move_load cur next =
    when
      (is_op cur.op Opcode.assign
        && (is_op next.op Opcode.load || is_op next.op Opcode.global_load)
        && (cur.dest == next.dest))
      (record cur { op = next.op; src0 = next.src0; src1 = next.src1 } ∷ [])

-- {mov rd, rs; li rd, imm}
unfoldable pub move_constant : Rule
move_constant cur next =
    when
      (is_op cur.op Opcode.assign && is_op next.op Opcode.load_constant && (cur.dest == next.dest))
      (record cur { op = Opcode.load_constant; src0 = next.src0; src1 = 0 } ∷ [])

-- The patterns in the order in which they are tried.
unfoldable pub drop_move : Rule
drop_move cur next =
    move_move cur next
    orelse load_move cur next
    orelse constant_move cur next
    orelse load_load cur next
    orelse constant_constant cur next
    orelse move_load cur next
    orelse move_constant cur next

unfoldable pub redundant_move_elim : List Ph2Ir → Option (List Ph2Ir)
redundant_move_elim = at_pair drop_move
