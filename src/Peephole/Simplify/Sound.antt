-- ===== src/Peephole/Simplify/Sound.antt =====
-- Rewriting one instruction changes no state.
use shecc.Prelude.{
  ℕ, ◌≡◌, inl, inr, arith, Option, some, ◌∙◌, Option-cases, bit_and_self, bit_or_self, bit_xor_self,
}
use shecc.Ir.{Opcode, Ph2Ir, eq_of_is_op}
use shecc.Ir.Semantics.{State, HasWords, exec, alu}
use shecc.Peephole.Rule.{◌orelse◌}
use shecc.Peephole.Simplify.{
  comparison_optimization, algebraic_simplification, neq_self, eq_self, lt_self, gt_self, leq_self,
  geq_self, sub_self, xor_self, or_self, and_self,
}

module _ (data_start rodata_start : ℕ) (other : Ph2Ir → State → State) where
  abbrev Exact : (Ph2Ir → Option Ph2Ir) → Type 0
  Exact rule =
      (ir w : Ph2Ir) (s : State)
      → HasWords s
      → rule ir ≡ some w
      → exec data_start rodata_start other ir s ≡ exec data_start rodata_start other w s

  orelse-Exact : (a b : Ph2Ir → Option Ph2Ir) → Exact a → Exact b → Exact (λ ir. a ir orelse b ir)
  orelse-Exact a b exact_a exact_b ir w s words h = elim (Option-cases (a ir)) [
    | inl misses ↦ exact_b ir w s words (rw misses at h)
    | inr (v, hits) ↦ exact_a ir w s words (hits ∙ rw hits at h)
  ]

  neq_self-Exact : Exact neq_self
  unfolding neq_self exec alu
  neq_self-Exact ir w s words h = ground (arith, eq_of_is_op ir.op Opcode.neq, words ir.src0)

  eq_self-Exact : Exact eq_self
  unfolding eq_self exec alu
  eq_self-Exact ir w s words h = ground (arith, eq_of_is_op ir.op Opcode.eq, words ir.src0)

  lt_self-Exact : Exact lt_self
  unfolding lt_self exec alu
  lt_self-Exact ir w s words h = ground (arith, eq_of_is_op ir.op Opcode.lt, words ir.src0)

  gt_self-Exact : Exact gt_self
  unfolding gt_self exec alu
  gt_self-Exact ir w s words h = ground (arith, eq_of_is_op ir.op Opcode.gt, words ir.src0)

  leq_self-Exact : Exact leq_self
  unfolding leq_self exec alu
  leq_self-Exact ir w s words h = ground (arith, eq_of_is_op ir.op Opcode.leq, words ir.src0)

  geq_self-Exact : Exact geq_self
  unfolding geq_self exec alu
  geq_self-Exact ir w s words h = ground (arith, eq_of_is_op ir.op Opcode.geq, words ir.src0)

  sub_self-Exact : Exact sub_self
  unfolding sub_self exec alu
  sub_self-Exact ir w s words h = ground (arith, eq_of_is_op ir.op Opcode.sub, words ir.src0)

  xor_self-Exact : Exact xor_self
  unfolding xor_self exec alu
  xor_self-Exact ir w s words h =
      ground (arith, eq_of_is_op ir.op Opcode.bit_xor, words ir.src0, bit_xor_self (s.reg ir.src0))

  or_self-Exact : Exact or_self
  unfolding or_self exec alu
  or_self-Exact ir w s words h =
      ground (arith, eq_of_is_op ir.op Opcode.bit_or, words ir.src0, bit_or_self (s.reg ir.src0))

  and_self-Exact : Exact and_self
  unfolding and_self exec alu
  and_self-Exact ir w s words h =
      ground (arith, eq_of_is_op ir.op Opcode.bit_and, words ir.src0, bit_and_self (s.reg ir.src0))

  -- Where registers hold words, the instruction that `comparison_optimization` puts in place of a
  -- comparison has the same effect on the state.
  pub exec-comparison_optimization :
      (ir w : Ph2Ir) (s : State)
      → HasWords s
      → comparison_optimization ir ≡ some w
      → exec data_start rodata_start other ir s ≡ exec data_start rodata_start other w s
  unfolding comparison_optimization
  exec-comparison_optimization = orelse-Exact neq_self _ neq_self-Exact (
      orelse-Exact eq_self _ eq_self-Exact (
        orelse-Exact lt_self _ lt_self-Exact (
          orelse-Exact gt_self _ gt_self-Exact
            (orelse-Exact leq_self _ leq_self-Exact geq_self-Exact))))

  -- Where registers hold words, the instruction that `algebraic_simplification` puts in place of
  -- an operation has the same effect on the state.
  pub exec-algebraic_simplification :
      (ir w : Ph2Ir) (s : State)
      → HasWords s
      → algebraic_simplification ir ≡ some w
      → exec data_start rodata_start other ir s ≡ exec data_start rodata_start other w s
  unfolding algebraic_simplification
  exec-algebraic_simplification =
      orelse-Exact sub_self _ sub_self-Exact (
        orelse-Exact xor_self _ xor_self-Exact
          (orelse-Exact or_self _ or_self-Exact and_self-Exact))
