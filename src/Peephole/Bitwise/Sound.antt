-- ===== src/Peephole/Bitwise/Sound.antt =====
-- The first pattern of `bitwise_optimization` keeps what the instructions do; the others lose the
-- result.
use shecc.Prelude.{ℕ, ◌≡◌, arith, some, List, [], ◌∷◌}
use shecc.Ir.{Opcode, Ph2Ir, is_op, eq_of_is_op}
use shecc.Ir.Semantics.{State, HasWords, run}
use shecc.Peephole.Rule.Keep.{Keeps}
use shecc.Peephole.Bitwise.{
  simplify_bits, negate_twice, and_ones, or_zero, xor_zero, and_zero, or_ones, shift_zero,
}

module _ (data_start rodata_start : ℕ) (other : Ph2Ir → State → State) where
  negate_twice-Keeps : Keeps data_start rodata_start other (λ cur next s. HasWords s) negate_twice
  unfolding negate_twice run
  negate_twice-Keeps cur next w s words h =
      ground
        (arith, eq_of_is_op cur.op Opcode.negate, eq_of_is_op next.op Opcode.negate, words cur.src0)

  -- Where a constant meets a bit operation or a shift, only the load of the constant is left.
  pub lost :
      (cur next : Ph2Ir) (w : List Ph2Ir)
      → cur.op ≡ Opcode.load_constant
      → simplify_bits cur next ≡ some w
      → w ≡ cur ∷ []
  unfolding simplify_bits and_ones or_zero xor_zero and_zero or_ones shift_zero negate_twice is_op
  lost cur next w e h = ground arith
