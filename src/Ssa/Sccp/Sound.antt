-- ===== src/Ssa/Sccp/Sound.antt =====
-- src/opt-sccp.c: the pass keeps the meaning of an instruction, and changes nothing without a mark.
use shecc.Prelude.{
  ℕ, ◌^◌, ◌≤◌, ◌≡◌, refl, arith, inl, inr, Bool, true, false, ◌||◌, Option, none, some, List, [],
  ◌∷◌, Option-cases, bind-some, bit_and_mask, if◌then◌else◌, ◌∙◌, ap, sym,
}
use mathlib.Core.Path.{subst}
use shecc.Ir.{Opcode}
use shecc.Ir.Semantics.{alu}
use shecc.Ssa.{Insn, Vars, Step, set_val, const_value}
use shecc.Ssa.Meaning.{Env, set, value, exec_op, exec, IsKnown, IsKnown-set_val}
use shecc.Ssa.Fold.Sound.{const_value_lem, Keeps, exec-IsKnown, loads}
use shecc.Ssa.Sccp.{
  fold_trunc, fold_sign_ext, fold_binary, fold_value, constant_load, sccp_to, sccp_insn, sccp_insns,
  Block, branch_value, branch_to, sccp_block, simple_sccp, FuncPass,
}

-- Where no variable is marked no operand is a constant.
no_const_value :
    (vars : Vars) (v : Option ℕ) → ((x : ℕ) → vars.is_const x ≡ false) → const_value vars v ≡ none
unfolding const_value
no_const_value vars none h = refl
no_const_value vars (some v) h = rw (h v) refl

no_fold_value :
    (vars : Vars) (op : Opcode) (insn : Insn) (rd : ℕ)
    → ((x : ℕ) → vars.is_const x ≡ false)
    → fold_value vars op insn rd ≡ none
unfolding fold_value
no_fold_value vars op insn rd h =
    let a = no_const_value vars insn.rs1 h in let b = no_const_value vars insn.rs2 h in ground arith

unmarked :
    (vars : Vars) (insn : Insn)
    → ((x : ℕ) → vars.is_const x ≡ false)
    → sccp_insn vars insn ≡ record { changed = false; vars = vars; insn = insn }
unfolding sccp_insn sccp_to
unmarked vars insn h = elim (Option-cases insn.rd) [
  | inl none_ ↦ at none none_
  | inr (rd, some_) ↦ at (some rd) some_
]
  where
    at :
        (o : Option ℕ)
        → insn.rd ≡ o
        → elim insn.rd as (λ _. Step) [
          | none ↦ record { changed = false; vars = vars; insn = insn }
          | some rd ↦ sccp_to vars insn rd (fold_value vars insn.opcode insn rd)
        ]
          ≡ record { changed = false; vars = vars; insn = insn }
    at none q =
        ap
          (λ r. elim r as (λ _. Step) [
            | none ↦ record { changed = false; vars = vars; insn = insn }
            | some rd ↦ sccp_to vars insn rd (fold_value vars insn.opcode insn rd)
          ])
          q
    at (some d) q =
        ap
          (λ r. elim r as (λ _. Step) [
            | none ↦ record { changed = false; vars = vars; insn = insn }
            | some rd ↦ sccp_to vars insn rd (fold_value vars insn.opcode insn rd)
          ])
          q
        ∙ ap (sccp_to vars insn d) (no_fold_value vars insn.opcode insn d h)

sccp_insns_unmarked :
    (vars : Vars) (insns : List Insn)
    → ((x : ℕ) → vars.is_const x ≡ false)
    → sccp_insns vars insns ≡ record { changed = false; vars = vars; insns = insns }
unfolding sccp_insns sccp_insn sccp_to
sccp_insns_unmarked vars [] h = refl
sccp_insns_unmarked vars (insn ∷ insns) h =
    let one = unmarked vars insn h in
    let others = sccp_insns_unmarked vars insns h in rw (one, others) refl

no_branch_value :
    (vars : Vars) (insns : List Insn)
    → ((x : ℕ) → vars.is_const x ≡ false)
    → branch_value vars insns ≡ none
unfolding branch_value
no_branch_value vars [] h = refl
no_branch_value vars (insn ∷ []) h = let a = no_const_value vars insn.rs1 h in ground arith
no_branch_value vars (insn ∷ next ∷ insns) h = no_branch_value vars (next ∷ insns) h

sccp_block_unmarked :
    (vars : Vars) (bb : Block)
    → ((x : ℕ) → vars.is_const x ≡ false)
    → sccp_block vars bb ≡ (false, (vars, bb))
unfolding sccp_block branch_to
sccp_block_unmarked vars bb h =
    let same = sccp_insns_unmarked vars bb.insns h in
    let none_ = no_branch_value vars bb.insns h in rw (same, none_) refl

-- In a function where no variable is marked constant, `simple_sccp` leaves every instruction, the
-- blocks that follow every block and every variable as they are, and reports no change.
pub simple_sccp_unmarked :
    (vars : Vars) (bbs : List Block)
    → ((x : ℕ) → vars.is_const x ≡ false)
    → simple_sccp vars bbs ≡ record { changed = false; vars = vars; bbs = bbs }
unfolding simple_sccp
simple_sccp_unmarked vars [] h = refl
simple_sccp_unmarked vars (bb ∷ bbs) h =
    let one = sccp_block_unmarked vars bb h in
    let others = simple_sccp_unmarked vars bbs h in
    ap
      (λ (r : Bool × (Vars × Block)).
        let rest = simple_sccp r.1.0 bbs in
        let after : FuncPass = record {
          changed = r.0 || rest.changed;
          vars = rest.vars;
          bbs = r.1.1 ∷ rest.bbs;
        } in
        after)
      one
    ∙ rw others refl

module _ (other : Insn → Env → Env) where
  fold_binary-exec_op :
      (vars : Vars) (op : Opcode) (insn : Insn) (env : Env) {res : ℕ}
      → fold_binary op (value insn.rs1 env) (value insn.rs2 env) ≡ some res
      → exec_op other vars op insn env ≡ set insn.rd res env
  unfolding fold_binary exec_op alu
  fold_binary-exec_op vars op insn env h = ground arith

  operands :
      (op : Opcode) (a b l r : ℕ) {res : ℕ}
      → a ≡ l
      → b ≡ r
      → fold_binary op l r ≡ some res
      → fold_binary op a b ≡ some res
  operands op a b l r p q h = rw (p, q) h

  fold_trunc-exec_op :
      (vars : Vars) (insn : Insn) (env : Env) {res : ℕ}
      → fold_trunc insn.sz (value insn.rs1 env) ≡ some res
      → exec_op other vars Opcode.trunc insn env ≡ set insn.rd res env
  unfolding fold_trunc exec_op
  fold_trunc-exec_op vars insn env h =
      let a = bit_and_mask 8 (value insn.rs1 env) in
      let b = bit_and_mask 16 (value insn.rs1 env) in ground (arith, a, b)

  no_sign_ext : (sz x : ℕ) → 2 ^ 16 ≤ sz → fold_sign_ext sz x ≡ none
  unfolding fold_sign_ext
  no_sign_ext sz x h = ground arith

  inside : {o : Option ℕ} {res : ℕ} (b : Bool) → (if b then none else o) ≡ some res → o ≡ some res
  inside true h = cc
  inside false h = h

  fold_value-exec_op :
      (vars : Vars) (op : Opcode) (insn : Insn) (env : Env) (d : ℕ) {res : ℕ}
      → (op ≡ Opcode.sign_ext → 2 ^ 16 ≤ insn.sz)
      → IsKnown vars env
      → fold_value vars op insn d ≡ some res
      → exec_op other vars op insn env ≡ set insn.rd res env
  unfolding fold_value exec_op
  fold_value-exec_op vars Opcode.assign insn env d wide known h =
      ap (λ x. set insn.rd x env) (const_value_lem vars env insn.rs1 known (inside _ h))
  fold_value-exec_op vars Opcode.trunc insn env d wide known h =
      let (x, hx, h') = bind-some (const_value vars insn.rs1) _ (inside _ h) in
      fold_trunc-exec_op vars insn env (rw (const_value_lem vars env insn.rs1 known hx) h')
  fold_value-exec_op vars Opcode.sign_ext insn env d wide known h =
      let (x, hx, h') = bind-some (const_value vars insn.rs1) _ (inside _ h) in
      absurd (none_some (sym (no_sign_ext insn.sz x (wide refl)) ∙ h'))
    where
      none_some : {y : ℕ} → ◌≡◌ {A = Option ℕ} none (some y) → ⊥
      none_some q = cc
  fold_value-exec_op vars op insn env d wide known h =
      let (l, hl, h') = bind-some (const_value vars insn.rs1) _ (inside _ h) in
      let (r, hr, h'') = bind-some (const_value vars insn.rs2) _ h' in
      fold_binary-exec_op vars op insn env (
        operands op _ _ l r (const_value_lem vars env insn.rs1 known hl)
          (const_value_lem vars env insn.rs2 known hr) h'')

  exec-constant_load :
      (vars : Vars) (op : Opcode) (insn : Insn) (env : Env)
      → exec other vars (constant_load op insn) env ≡ set insn.rd (value insn.rd vars.init_val) env
  unfolding constant_load exec exec_op
  exec-constant_load vars Opcode.assign insn env = refl
  exec-constant_load vars Opcode.trunc insn env = refl
  exec-constant_load vars Opcode.sign_ext insn env = refl
  exec-constant_load vars _ insn env = refl

  sccp_to-Keeps :
      (vars : Vars) (insn : Insn) (env : Env) (d : ℕ) (o : Option ℕ)
      → insn.rd ≡ some d
      → IsKnown vars env
      → IsKnown vars (exec other vars insn env)
      → ((res : ℕ) → o ≡ some res → exec other vars insn env ≡ set insn.rd res env)
      → Keeps other vars insn env (sccp_to vars insn d o)
  unfolding sccp_to
  sccp_to-Keeps vars insn env d none hd known after same = (refl, after)
  sccp_to-Keeps vars insn env d (some res) hd known after same =
      let load =
        exec-constant_load (set_val vars d res) insn.opcode insn env
        ∙ loads other vars env d res insn.rd hd in
      (
        same res refl ∙ (ap (λ r. set r res env) hd ∙ sym load),
        subst (IsKnown (set_val vars d res)) (sym load) (IsKnown-set_val vars env d res known),
      )

  -- Where every marked variable has its `init_val` and instructions of other kinds keep this, what
  -- `simple_sccp` makes of an instruction that sets an unmarked variable (with a source size in
  -- the upper half of `sz` if it extends a sign) gives all variables the same values, and the
  -- marked ones have their `init_val` again.
  pub sccp_insn-Keeps :
      (vars : Vars) (insn : Insn) (env : Env) (d : ℕ)
      → ((i : Insn) (e : Env) → IsKnown vars e → IsKnown vars (other i e))
      → insn.rd ≡ some d
      → (insn.opcode ≡ Opcode.sign_ext → 2 ^ 16 ≤ insn.sz)
      → vars.is_const d ≡ false
      → IsKnown vars env
      → Keeps other vars insn env (sccp_insn vars insn)
  unfolding sccp_insn exec
  sccp_insn-Keeps vars insn env d others hd wide free known =
      subst (Keeps other vars insn env)
        (sym (
          ap
            (λ r. elim r as (λ _. Step) [
              | none ↦ record { changed = false; vars = vars; insn = insn }
              | some rd ↦ sccp_to vars insn rd (fold_value vars insn.opcode insn rd)
            ])
            hd))
        (sccp_to-Keeps vars insn env d _ hd known
          (exec-IsKnown other vars insn env d others hd free known)
          (λ res h. fold_value-exec_op vars insn.opcode insn env d wide known h))
