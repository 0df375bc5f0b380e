-- ===== src/ArmGen/Lower.antt =====
-- src/arch-lower.c: `arm_lower` and `riscv_lower`, which mark the branches whose `else` block is not
-- the next one.
use shecc.Prelude.{
  ℕ, ◌≡◌, Bool, true, false, not, Option, none, some, List, [], ◌∷◌, map, ◌==◌, if◌then◌else◌,
  arith, refl, inl, inr, Bool-cases, sym, ap, ◌∙◌,
}
use shecc.Ir.{Opcode, Ph2Ir, is_op, is_op_self}
use shecc.Program.{Block, Func}
use shecc.Program.Placed.{All}

-- `insn->else_bb != bb->rpo_next`, where the last block has no next one.
unfoldable is_detached : Option ℕ → Ph2Ir → Bool
is_detached rpo_next insn = elim rpo_next [ none ↦ true | some bb ↦ not (insn.else_bb == bb) ]

unfoldable lower_insn : Option ℕ → Ph2Ir → Ph2Ir
unfolding is_detached
lower_insn rpo_next insn =
    if is_op insn.op Opcode.branch
    then record insn { is_branch_detached = is_detached rpo_next insn }
    else insn

-- The name of the next block.
unfoldable pub next_bb : List Block → Option ℕ
next_bb [] = none
next_bb (block ∷ blocks) = some block.bb

unfoldable lower_blocks : List Block → List Block
unfolding lower_insn next_bb
lower_blocks [] = []
lower_blocks (block ∷ blocks) =
    record block { insns = map (lower_insn (next_bb blocks)) block.insns } ∷ lower_blocks blocks

unfoldable lower_func : Func → Func
unfolding lower_blocks
lower_func func = record func { bbs = lower_blocks func.bbs }

-- `arm_lower`, and `riscv_lower`, which does the same.
unfoldable pub arch_lower : List Func → List Func
unfolding lower_func
arch_lower funcs = map lower_func funcs

-- A branch that is not marked has its `else` block at `rpo_next`.
abbrev pub FallsThrough : Option ℕ → Ph2Ir → Type 0
FallsThrough rpo_next insn =
    insn.op ≡ Opcode.branch → insn.is_branch_detached ≡ false → rpo_next ≡ some insn.else_bb

-- The same for all instructions of the blocks.
abbrev pub BlocksFallThrough : List Block → Type 0
BlocksFallThrough [] = Unit
BlocksFallThrough (block ∷ blocks) =
    All (FallsThrough (next_bb blocks)) block.insns × BlocksFallThrough blocks

lower_insn-FallsThrough :
    (rpo_next : Option ℕ) (insn : Ph2Ir) → FallsThrough rpo_next (lower_insn rpo_next insn)
unfolding lower_insn is_detached
lower_insn-FallsThrough rpo_next insn = elim (Bool-cases (is_op insn.op Opcode.branch)) [
  | inl is ↦ rw is (marked rpo_next)
  | inr is_not ↦ rw is_not (λ branch flat. absurd (clash branch is_not))
]
  where
    clash : insn.op ≡ Opcode.branch → is_op insn.op Opcode.branch ≡ false → ⊥
    clash e is_not =
        true_false
          (sym (is_op_self Opcode.branch) ∙ (ap (λ o. is_op o Opcode.branch) (sym e) ∙ is_not))
      where
        true_false : true ≡ false → ⊥
        true_false q = cc

    marked :
        (r : Option ℕ)
        → insn.op ≡ Opcode.branch
        → elim r [ none ↦ true | some bb ↦ not (insn.else_bb == bb) ] ≡ false
        → r ≡ some insn.else_bb
    marked none branch flat = cc
    marked (some bb) branch flat = ground arith

lower_insns-FallsThrough :
    (rpo_next : Option ℕ) (insns : List Ph2Ir)
    → All (FallsThrough rpo_next) (map (lower_insn rpo_next) insns)
lower_insns-FallsThrough rpo_next [] = tt
lower_insns-FallsThrough rpo_next (insn ∷ insns) =
    (lower_insn-FallsThrough rpo_next insn, lower_insns-FallsThrough rpo_next insns)

next_bb-lower_blocks : (blocks : List Block) → next_bb (lower_blocks blocks) ≡ next_bb blocks
unfolding next_bb lower_blocks
next_bb-lower_blocks [] = refl
next_bb-lower_blocks (block ∷ blocks) = refl

lower_blocks-BlocksFallThrough : (blocks : List Block) → BlocksFallThrough (lower_blocks blocks)
unfolding lower_blocks
lower_blocks-BlocksFallThrough [] = tt
lower_blocks-BlocksFallThrough (block ∷ blocks) = (
  rw (next_bb-lower_blocks blocks) (lower_insns-FallsThrough (next_bb blocks) block.insns),
  lower_blocks-BlocksFallThrough blocks,
)

-- After `arch_lower` every branch that is not marked detached has its `else` block next in the
-- layout, so that to write only the jump to the `then` block is right.
pub arch_lower-BlocksFallThrough :
    (funcs : List Func) → All (λ f. BlocksFallThrough f.bbs) (arch_lower funcs)
unfolding arch_lower lower_func
arch_lower-BlocksFallThrough [] = tt
arch_lower-BlocksFallThrough (func ∷ funcs) =
    (lower_blocks-BlocksFallThrough func.bbs, arch_lower-BlocksFallThrough funcs)
