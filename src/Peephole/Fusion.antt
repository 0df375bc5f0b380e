-- ===== src/Peephole/Fusion.antt =====
-- src/peephole.c: `is_fusible_insn` and `insn_fusion`, one function for each pattern.
pub mod Sound
use shecc.Prelude.{
  ℕ, ◌-◌, ◌^◌, Bool, true, false, ◌&&◌, ◌||◌, not, Option, List, [], ◌∷◌, slt32, ◌==◌,
  if◌then◌else◌,
}
use shecc.Ir.{Opcode, Ph2Ir, is_op}
use shecc.Peephole.Rule.{Rule, when, ◌orelse◌, at_pair, shift_amount, single_bit}

unfoldable pub is_fusible_op : Opcode → Bool
is_fusible_op Opcode.add = true
is_fusible_op Opcode.sub = true
is_fusible_op Opcode.mul = true
is_fusible_op Opcode.div = true
is_fusible_op Opcode.rem = true
is_fusible_op Opcode.lshift = true
is_fusible_op Opcode.rshift = true
is_fusible_op Opcode.bit_and = true
is_fusible_op Opcode.bit_or = true
is_fusible_op Opcode.bit_xor = true
is_fusible_op Opcode.log_and = true
is_fusible_op Opcode.log_or = true
is_fusible_op Opcode.log_not = true
is_fusible_op Opcode.negate = true
is_fusible_op Opcode.load = true
is_fusible_op Opcode.global_load = true
is_fusible_op Opcode.load_data_address = true
is_fusible_op Opcode.load_rodata_address = true
is_fusible_op _ = false

unfoldable pub is_fusible_insn : Ph2Ir → Bool
unfolding is_fusible_op
is_fusible_insn ir = is_fusible_op ir.op

-- `cur` loads the constant `k`.
abbrev pub loads : Ph2Ir → ℕ → Bool
loads cur k = is_op cur.op Opcode.load_constant && (cur.src0 == k)

abbrev pub minus_one : ℕ
minus_one = 2 ^ 32 - 1

-- `cur` becomes a move of `src` to the destination of `next`, which goes.
abbrev pub move_of : ℕ → Ph2Ir → Ph2Ir → List Ph2Ir
move_of src cur next = record cur { op = Opcode.assign; src0 = src; dest = next.dest } ∷ []

-- {op rn, ..; mv rd, rn}
unfoldable pub fuse_assign : Rule
fuse_assign cur next =
    when (is_op next.op Opcode.assign && (is_fusible_insn cur && (cur.dest == next.src0)))
      (record cur { dest = next.dest } ∷ [])

-- {li 0; add x, 0} and {li 0; add 0, x}
unfoldable pub add_zero : Rule
add_zero cur next =
    when
      (loads cur 0 && is_op next.op Opcode.add && (cur.dest == next.src0 || cur.dest == next.src1))
      (move_of (if cur.dest == next.src0 then next.src1 else next.src0) cur next)

-- {li 0; sub x, 0}
unfoldable pub sub_zero : Rule
sub_zero cur next =
    when (loads cur 0 && is_op next.op Opcode.sub && (cur.dest == next.src1))
      (move_of next.src0 cur next)

-- {li 0; sub 0, x}
unfoldable pub zero_sub : Rule
zero_sub cur next =
    when (loads cur 0 && is_op next.op Opcode.sub && (cur.dest == next.src0))
      (record cur { op = Opcode.negate; src0 = next.src1; dest = next.dest } ∷ [])

-- {li 0; mul x, 0} and {li 0; mul 0, x}
unfoldable pub mul_zero : Rule
mul_zero cur next =
    when
      (loads cur 0 && is_op next.op Opcode.mul && (cur.dest == next.src0 || cur.dest == next.src1))
      (record cur { op = Opcode.load_constant; src0 = 0; dest = next.dest } ∷ [])

-- {li 1; mul x, 1} and {li 1; mul 1, x}
unfoldable pub mul_one : Rule
mul_one cur next =
    when
      (loads cur 1 && is_op next.op Opcode.mul && (cur.dest == next.src0 || cur.dest == next.src1))
      (move_of (if cur.dest == next.src0 then next.src1 else next.src0) cur next)

-- {li -1; and x, -1}
unfoldable pub and_ones : Rule
and_ones cur next =
    when (loads cur minus_one && is_op next.op Opcode.bit_and && (cur.dest == next.src1))
      (move_of next.src0 cur next)

-- {li 0; shl x, 0} and {li 0; shr x, 0}
unfoldable pub shift_zero : Rule
shift_zero cur next =
    when
      (loads cur 0
        && (is_op next.op Opcode.lshift || is_op next.op Opcode.rshift)
        && (cur.dest == next.src1))
      (move_of next.src0 cur next)

-- {li 0; or x, 0}
unfoldable pub or_zero : Rule
or_zero cur next =
    when (loads cur 0 && is_op next.op Opcode.bit_or && (cur.dest == next.src1))
      (move_of next.src0 cur next)

-- {li 2^n; mul x, 2^n}
unfoldable pub mul_power : Rule
mul_power cur next =
    when
      (is_op cur.op Opcode.load_constant
        && slt32 0 cur.src0
        && is_op next.op Opcode.mul
        && (cur.dest == next.src1)
        && (not (cur.src0 == 0) && single_bit cur.src0))
      (record cur { op = Opcode.load_constant; src0 = shift_amount cur.src0 }
        ∷ record next { op = Opcode.lshift }
        ∷ [])

-- {li 0; xor x, 0}
unfoldable pub xor_zero : Rule
xor_zero cur next =
    when (loads cur 0 && is_op next.op Opcode.bit_xor && (cur.dest == next.src1))
      (move_of next.src0 cur next)

-- {li 1; mul 1, x}
unfoldable pub one_mul : Rule
one_mul cur next =
    when (loads cur 1 && is_op next.op Opcode.mul && (cur.dest == next.src0))
      (move_of next.src1 cur next)

-- The patterns in the order in which they are tried.
unfoldable pub fuse : Rule
fuse cur next =
    fuse_assign cur next
    orelse add_zero cur next
    orelse sub_zero cur next
    orelse zero_sub cur next
    orelse mul_zero cur next
    orelse mul_one cur next
    orelse and_ones cur next
    orelse shift_zero cur next
    orelse or_zero cur next
    orelse mul_power cur next
    orelse xor_zero cur next
    orelse one_mul cur next

unfoldable pub insn_fusion : List Ph2Ir → Option (List Ph2Ir)
insn_fusion = at_pair fuse
