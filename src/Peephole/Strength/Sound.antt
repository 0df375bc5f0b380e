-- ===== src/Peephole/Strength/Sound.antt =====
-- Strength reduction keeps what the two instructions do, where a dividend is not negative.
use shecc.Prelude.{ℕ, ◌^◌, ◌≡◌, ◌⊎◌, arith, IsWord, bit_and_mask, ◌<◌}
use shecc.Ir.{Opcode, Ph2Ir, eq_of_is_op}
use shecc.Ir.Semantics.{State, HasWords, run, alu, sdiv32, srem32}
use shecc.Peephole.Rule.{Rule, shift_amount}
use shecc.Peephole.Rule.Power.{shift_amount_lem}
use shecc.Peephole.Rule.Keep.{Keeps, orelse-Keeps, OneOperand}
use native.Mathlib.Nat.{mul_comm}
use shecc.Peephole.Strength.{div_power, rem_power, power_mul, mul_power, reduce}

abbrev pub ReducePre : Ph2Ir → Ph2Ir → State → Type 0
ReducePre cur next s =
    HasWords s
    × IsWord cur.src0
    × OneOperand cur next
    × ((next.op ≡ Opcode.mul) ⊎ (s.reg next.src0 < 2 ^ 31))

module _ (data_start rodata_start : ℕ) (other : Ph2Ir → State → State) where
  abbrev pub Kept : Rule → Type 0
  Kept = Keeps data_start rodata_start other ReducePre

  div_power-Keeps : Kept div_power
  unfolding div_power run alu sdiv32 srem32
  div_power-Keeps cur next w s (words, field, one, pos) h = ground (
    arith,
    eq_of_is_op cur.op Opcode.load_constant,
    eq_of_is_op next.op Opcode.div,
    shift_amount_lem cur.src0,
    words next.src0,
  )

  rem_power-Keeps : Kept rem_power
  unfolding rem_power run alu sdiv32 srem32
  rem_power-Keeps cur next w s (words, field, one, pos) h = ground (
    arith,
    eq_of_is_op cur.op Opcode.load_constant,
    eq_of_is_op next.op Opcode.rem,
    shift_amount_lem cur.src0,
    bit_and_mask (shift_amount cur.src0) (s.reg next.src0),
    words next.src0,
  )

  power_mul-Keeps : Kept power_mul
  unfolding power_mul run alu sdiv32 srem32
  power_mul-Keeps cur next w s (words, field, one, pos) h = ground (
    arith,
    eq_of_is_op cur.op Opcode.load_constant,
    eq_of_is_op next.op Opcode.mul,
    shift_amount_lem cur.src0,
    words next.src1,
    mul_comm cur.src0 (s.reg next.src1),
  )

  mul_power-Keeps : Kept mul_power
  unfolding mul_power run alu sdiv32 srem32
  mul_power-Keeps cur next w s (words, field, one, pos) h = ground (
    arith,
    eq_of_is_op cur.op Opcode.load_constant,
    eq_of_is_op next.op Opcode.mul,
    shift_amount_lem cur.src0,
    words next.src0,
  )

  pub reduce-Keeps : Kept reduce
  unfolding reduce
  reduce-Keeps = orelse-Keeps data_start rodata_start other ReducePre div_power _ div_power-Keeps (
      orelse-Keeps data_start rodata_start other ReducePre rem_power _ rem_power-Keeps (
        orelse-Keeps data_start rodata_start other ReducePre power_mul _ power_mul-Keeps
          mul_power-Keeps))
