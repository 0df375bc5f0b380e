-- ===== src/Peephole/Fusion/Sound.antt =====
-- Fusing two instructions keeps what they do.
use shecc.Prelude.{
  ℕ, ◌≡◌, inl, inr, arith, some, List, [], ◌∷◌, ◌∙◌, Option-cases, IsWord, bit_and_mask,
  bit_or-zero, bit_xor-zero,
}
use shecc.Ir.{Opcode, Ph2Ir, eq_of_is_op}
use shecc.Ir.Semantics.{State, HasWords, Agree, run, alu}
use shecc.Peephole.Rule.{Rule, ◌orelse◌}
use shecc.Peephole.Rule.Power.{shift_amount_lem}
use shecc.Peephole.Rule.Keep.{OneOperand}
use shecc.Peephole.Fusion.{
  is_fusible_insn, mul_power, fuse, add_zero, fuse_assign, sub_zero, zero_sub, mul_zero, mul_one,
  and_ones, or_zero, xor_zero, one_mul, shift_zero,
}

module _ (data_start rodata_start : ℕ) (other : Ph2Ir → State → State) where
  abbrev pub Keeps : Rule → Type 0
  Keeps rule =
      (cur next : Ph2Ir) (w : List Ph2Ir) (s : State)
      → HasWords s
      → IsWord cur.src0
      → OneOperand cur next
      → rule cur next ≡ some w
      → Agree cur.dest next.dest (run data_start rodata_start other (cur ∷ next ∷ []) s)
          (run data_start rodata_start other w s)

  add_zero-Keeps : Keeps add_zero
  unfolding add_zero run alu
  add_zero-Keeps cur next w s words field one h = ground (
    arith,
    eq_of_is_op cur.op Opcode.load_constant,
    eq_of_is_op next.op Opcode.add,
    words next.src0,
    words next.src1,
  )

  sub_zero-Keeps : Keeps sub_zero
  unfolding sub_zero run alu
  sub_zero-Keeps cur next w s words field one h = ground (
    arith,
    eq_of_is_op cur.op Opcode.load_constant,
    eq_of_is_op next.op Opcode.sub,
    words next.src0,
    words next.src1,
  )

  zero_sub-Keeps : Keeps zero_sub
  unfolding zero_sub run alu
  zero_sub-Keeps cur next w s words field one h = ground (
    arith,
    eq_of_is_op cur.op Opcode.load_constant,
    eq_of_is_op next.op Opcode.sub,
    words next.src0,
    words next.src1,
  )

  mul_zero-Keeps : Keeps mul_zero
  unfolding mul_zero run alu
  mul_zero-Keeps cur next w s words field one h = ground (
    arith,
    eq_of_is_op cur.op Opcode.load_constant,
    eq_of_is_op next.op Opcode.mul,
    words next.src0,
    words next.src1,
  )

  mul_one-Keeps : Keeps mul_one
  unfolding mul_one run alu
  mul_one-Keeps cur next w s words field one h = ground (
    arith,
    eq_of_is_op cur.op Opcode.load_constant,
    eq_of_is_op next.op Opcode.mul,
    words next.src0,
    words next.src1,
  )

  and_ones-Keeps : Keeps and_ones
  unfolding and_ones run alu
  and_ones-Keeps cur next w s words field one h = ground (
    arith,
    eq_of_is_op cur.op Opcode.load_constant,
    eq_of_is_op next.op Opcode.bit_and,
    words next.src0,
    words next.src1,
    bit_and_mask 32 (s.reg next.src0),
  )

  or_zero-Keeps : Keeps or_zero
  unfolding or_zero run alu
  or_zero-Keeps cur next w s words field one h = ground (
    arith,
    eq_of_is_op cur.op Opcode.load_constant,
    eq_of_is_op next.op Opcode.bit_or,
    words next.src0,
    words next.src1,
    bit_or-zero (s.reg next.src0),
  )

  xor_zero-Keeps : Keeps xor_zero
  unfolding xor_zero run alu
  xor_zero-Keeps cur next w s words field one h = ground (
    arith,
    eq_of_is_op cur.op Opcode.load_constant,
    eq_of_is_op next.op Opcode.bit_xor,
    words next.src0,
    words next.src1,
    bit_xor-zero (s.reg next.src0),
  )

  one_mul-Keeps : Keeps one_mul
  unfolding one_mul run alu
  one_mul-Keeps cur next w s words field one h = ground (
    arith,
    eq_of_is_op cur.op Opcode.load_constant,
    eq_of_is_op next.op Opcode.mul,
    words next.src0,
    words next.src1,
  )

  shift_zero-Keeps : Keeps shift_zero
  unfolding shift_zero run alu
  shift_zero-Keeps cur next w s words field one h = ground (
    arith,
    eq_of_is_op cur.op Opcode.load_constant,
    eq_of_is_op next.op Opcode.lshift,
    eq_of_is_op next.op Opcode.rshift,
    words next.src0,
  )

  fuse_assign-Keeps : Keeps fuse_assign
  unfolding fuse_assign is_fusible_insn run
  fuse_assign-Keeps cur next w s words field one h =
      ground (arith, eq_of_is_op next.op Opcode.assign)

  mul_power-Keeps : Keeps mul_power
  unfolding mul_power run alu
  mul_power-Keeps cur next w s words field one h = ground (
    arith,
    eq_of_is_op cur.op Opcode.load_constant,
    eq_of_is_op next.op Opcode.mul,
    shift_amount_lem cur.src0,
    words next.src0,
  )

  orelse-Keeps : (a b : Rule) → Keeps a → Keeps b → Keeps (λ cur next. a cur next orelse b cur next)
  orelse-Keeps a b keep_a keep_b cur next w s words field one h = elim (Option-cases (a cur next)) [
    | inl misses ↦ keep_b cur next w s words field one (rw misses at h)
    | inr (v, hits) ↦ keep_a cur next w s words field one (hits ∙ rw hits at h)
  ]

  -- Every pattern keeps what the two instructions do, but for the register of the first.
  pub fuse-Keeps : Keeps fuse
  unfolding fuse
  fuse-Keeps = orelse-Keeps fuse_assign _ fuse_assign-Keeps (
      orelse-Keeps add_zero _ add_zero-Keeps (
        orelse-Keeps sub_zero _ sub_zero-Keeps (
          orelse-Keeps zero_sub _ zero_sub-Keeps (
            orelse-Keeps mul_zero _ mul_zero-Keeps (
              orelse-Keeps mul_one _ mul_one-Keeps (
                orelse-Keeps and_ones _ and_ones-Keeps (
                  orelse-Keeps shift_zero _ shift_zero-Keeps (
                    orelse-Keeps or_zero _ or_zero-Keeps (
                      orelse-Keeps mul_power _ mul_power-Keeps
                        (orelse-Keeps xor_zero _ xor_zero-Keeps one_mul-Keeps))))))))))
