-- ===== src/Peephole/Simplify.antt =====
-- src/peephole.c: `comparison_optimization` and `algebraic_simplification`, which rewrite one
-- instruction whose operands are one register.
pub mod Sound
use shecc.Prelude.{
  ℕ, ◌+◌, ◌-◌, ◌*◌, ◌%◌, ◌^◌, ◌≡◌, refl, ◌≢◌, ◌⊎◌, inl, inr, arith, Bool, true, false, not, ◌&&◌,
  ◌||◌, Option, none, some, List, [], ◌∷◌, ◌++◌, ◌∙◌, ap, sym, Option-cases, Bool-cases, IsWord,
  bit_and_mask, bit_and-zero, bit_or-zero, bit_xor-zero, bit_and_self, bit_or_self, bit_xor_self,
  slt32, sub32, ltb, leb, is_neg, ◌==◌, if◌then◌else◌, ◌<◌, ◌≤◌,
}
use shecc.Ir.{Opcode, Ph2Ir, is_op, eq_of_is_op}
use shecc.Peephole.Rule.{when, ◌orelse◌}

-- x neq x
unfoldable pub neq_self : Ph2Ir → Option Ph2Ir
neq_self ir =
    when (is_op ir.op Opcode.neq && (ir.src0 == ir.src1))
      (record ir { op = Opcode.load_constant; src0 = 0; src1 = 0 })

-- x eq x
unfoldable pub eq_self : Ph2Ir → Option Ph2Ir
eq_self ir =
    when (is_op ir.op Opcode.eq && (ir.src0 == ir.src1))
      (record ir { op = Opcode.load_constant; src0 = 1; src1 = 0 })

-- x lt x
unfoldable pub lt_self : Ph2Ir → Option Ph2Ir
lt_self ir =
    when (is_op ir.op Opcode.lt && (ir.src0 == ir.src1))
      (record ir { op = Opcode.load_constant; src0 = 0; src1 = 0 })

-- x gt x
unfoldable pub gt_self : Ph2Ir → Option Ph2Ir
gt_self ir =
    when (is_op ir.op Opcode.gt && (ir.src0 == ir.src1))
      (record ir { op = Opcode.load_constant; src0 = 0; src1 = 0 })

-- x leq x
unfoldable pub leq_self : Ph2Ir → Option Ph2Ir
leq_self ir =
    when (is_op ir.op Opcode.leq && (ir.src0 == ir.src1))
      (record ir { op = Opcode.load_constant; src0 = 1; src1 = 0 })

-- x geq x
unfoldable pub geq_self : Ph2Ir → Option Ph2Ir
geq_self ir =
    when (is_op ir.op Opcode.geq && (ir.src0 == ir.src1))
      (record ir { op = Opcode.load_constant; src0 = 1; src1 = 0 })

unfoldable pub comparison_optimization : Ph2Ir → Option Ph2Ir
comparison_optimization ir =
    neq_self ir
    orelse eq_self ir
    orelse lt_self ir
    orelse gt_self ir
    orelse leq_self ir
    orelse geq_self ir

-- x sub x
unfoldable pub sub_self : Ph2Ir → Option Ph2Ir
sub_self ir =
    when (is_op ir.op Opcode.sub && (ir.src0 == ir.src1))
      (record ir { op = Opcode.load_constant; src0 = 0; src1 = 0 })

-- x bit_xor x
unfoldable pub xor_self : Ph2Ir → Option Ph2Ir
xor_self ir =
    when (is_op ir.op Opcode.bit_xor && (ir.src0 == ir.src1))
      (record ir { op = Opcode.load_constant; src0 = 0; src1 = 0 })

-- x bit_or x
unfoldable pub or_self : Ph2Ir → Option Ph2Ir
or_self ir =
    when (is_op ir.op Opcode.bit_or && (ir.src0 == ir.src1))
      (record ir { op = Opcode.assign; src1 = 0 })

-- x bit_and x
unfoldable pub and_self : Ph2Ir → Option Ph2Ir
and_self ir =
    when (is_op ir.op Opcode.bit_and && (ir.src0 == ir.src1))
      (record ir { op = Opcode.assign; src1 = 0 })

unfoldable pub algebraic_simplification : Ph2Ir → Option Ph2Ir
algebraic_simplification ir = sub_self ir orelse xor_self ir orelse or_self ir orelse and_self ir
