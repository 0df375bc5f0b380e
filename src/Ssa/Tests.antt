-- ===== src/Ssa/Tests.antt =====
-- Runs of src/ssa.c and src/opt-sccp.c on single instructions, and the theorems on them.
use shecc.Prelude.{
  ◌-◌, ◌^◌, ◌≡◌, refl, arith, true, false, ◌||◌, none, some, [], ◌∷◌, ◌==◌, if◌then◌else◌,
}
use shecc.Ir.{Opcode, is_op}
use shecc.Ssa.{Insn, Vars, Step}
use shecc.Ssa.Meaning.{Env, IsKnown}
use shecc.Ssa.Fold.{const_folding, from_prev}
use shecc.Ssa.Fold.Sound.{Keeps, const_folding-Keeps}
use shecc.Ssa.Sccp.{sccp_insn, Block, simple_sccp}
use shecc.Ssa.Sccp.Sound.{sccp_insn-Keeps, simple_sccp_unmarked}

-- The variables 0 and 1 hold 2 and -1 and are marked; 2 is not.
abbrev vars : Vars
vars = record {
  is_global = λ v. false;
  is_const = λ v. v == 0 || v == 1;
  init_val = λ v. if v == 0 then 2 else if v == 1 then 2 ^ 32 - 1 else 0;
}

abbrev env : Env
env v = if v == 0 then 2 else if v == 1 then 2 ^ 32 - 1 else 9

-- No variable is marked.
abbrev no_marks : Vars
no_marks = record { is_global = λ v. false; is_const = λ v. false; init_val = λ v. 0 }

abbrev a_mul : Insn
a_mul = record { opcode = Opcode.mul; rd = some 2; rs1 = some 0; rs2 = some 1; sz = 0 }

abbrev keep_env : Insn → Env → Env
keep_env i e = e

env-IsKnown : IsKnown vars env
env-IsKnown v h = ground arith

mul_other : {A : Type 0} → Opcode.mul ≡ Opcode.assign → A
mul_other e = cc

mul_sign_ext : {A : Type 0} → Opcode.mul ≡ Opcode.sign_ext → A
mul_sign_ext e = cc

const_folding-Keeps_example :
    (s : Step) × (const_folding vars none a_mul ≡ some s) × Keeps keep_env vars a_mul env s
unfolding from_prev
const_folding-Keeps_example =
    const_folding-Keeps keep_env vars none a_mul env 2 (λ i e known. known) refl (λ e. mul_other e)
      (λ ne. refl) env-IsKnown (λ v h. absurd (never h))
  where
    never : false ≡ true → ⊥
    never h = cc

sccp_insn-Keeps_example : Keeps keep_env vars a_mul env (sccp_insn vars a_mul)
sccp_insn-Keeps_example =
    sccp_insn-Keeps keep_env vars a_mul env 2 (λ i e known. known) refl (λ e. mul_sign_ext e) refl
      env-IsKnown

abbrev a_block : Block
a_block = record {
  insns =
      a_mul ∷ record { opcode = Opcode.branch; rd = none; rs1 = some 2; rs2 = none; sz = 0 } ∷ [];
  then_ = some 5;
  else_ = some 6;
}

simple_sccp_unmarked_example :
    simple_sccp no_marks (a_block ∷ [])
    ≡ record { changed = false; vars = no_marks; bbs = a_block ∷ [] }
simple_sccp_unmarked_example = simple_sccp_unmarked no_marks (a_block ∷ []) (λ x. refl)

-- With the operands marked, the product is -2, and the branch on it a jump to block 5.
folds :
    (simple_sccp vars (a_block ∷ [])).bbs
    ≡ record {
      insns =
          record { opcode = Opcode.load_constant; rd = some 2; rs1 = none; rs2 = none; sz = 0 }
          ∷ record { opcode = Opcode.jump; rd = none; rs1 = none; rs2 = none; sz = 0 }
          ∷ [];
      then_ = some 5;
      else_ = none;
    }
      ∷ []
unfolding simple_sccp is_op
folds = refl
