-- ===== src/Peephole/Strength.antt =====
-- src/peephole.c: `strength_reduction`.
pub mod Sound
use shecc.Prelude.{
  ℕ, ◌+◌, ◌-◌, ◌*◌, ◌%◌, ◌^◌, ◌≡◌, refl, ◌≢◌, ◌⊎◌, inl, inr, arith, Bool, true, false, not, ◌&&◌,
  ◌||◌, Option, none, some, List, [], ◌∷◌, ◌++◌, ◌∙◌, ap, sym, Option-cases, Bool-cases, IsWord,
  bit_and_mask, bit_and-zero, bit_or-zero, bit_xor-zero, bit_and_self, bit_or_self, bit_xor_self,
  slt32, sub32, ltb, leb, is_neg, ◌==◌, if◌then◌else◌, ◌<◌, ◌≤◌,
}
use shecc.Ir.{Opcode, Ph2Ir, is_op, eq_of_is_op}
use shecc.Peephole.Rule.{Rule, when, ◌orelse◌, at_pair, shift_amount, single_bit}

-- `cur` loads a constant with a single bit; the tests of the source are `value <= 0` and
-- `(value & (value - 1)) != 0`, each of which returns.
unfoldable pub loads_power : Ph2Ir → Bool
loads_power cur = is_op cur.op Opcode.load_constant && slt32 0 cur.src0 && single_bit cur.src0

-- {li 2^n; div x, 2^n}
unfoldable pub div_power : Rule
unfolding loads_power
div_power cur next =
    when (loads_power cur && is_op next.op Opcode.div && (next.src1 == cur.dest))
      (record cur { src0 = shift_amount cur.src0 } ∷ record next { op = Opcode.rshift } ∷ [])

-- {li 2^n; mod x, 2^n}
unfoldable pub rem_power : Rule
unfolding loads_power
rem_power cur next =
    when (loads_power cur && is_op next.op Opcode.rem && (next.src1 == cur.dest))
      (record cur { src0 = sub32 cur.src0 1 } ∷ record next { op = Opcode.bit_and } ∷ [])

-- {li 2^n; mul 2^n, x}
unfoldable pub power_mul : Rule
unfolding loads_power
power_mul cur next = when (loads_power cur && is_op next.op Opcode.mul && (next.src0 == cur.dest)) (
    record cur { src0 = shift_amount cur.src0 }
    ∷ record next { op = Opcode.lshift; src0 = next.src1; src1 = cur.dest }
    ∷ [])

-- {li 2^n; mul x, 2^n}
unfoldable pub mul_power : Rule
unfolding loads_power
mul_power cur next =
    when (loads_power cur && is_op next.op Opcode.mul && (next.src1 == cur.dest))
      (record cur { src0 = shift_amount cur.src0 } ∷ record next { op = Opcode.lshift } ∷ [])

unfoldable pub reduce : Rule
reduce cur next =
    div_power cur next orelse rem_power cur next orelse power_mul cur next orelse mul_power cur next

unfoldable pub strength_reduction : List Ph2Ir → Option (List Ph2Ir)
strength_reduction = at_pair reduce
