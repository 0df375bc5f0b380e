-- ===== src/Ssa/Fold/Sound.antt =====
-- src/ssa.c: `const_folding` keeps the meaning of an instruction.
use shecc.Prelude.{
  ℕ, ◌≡◌, ◌≢◌, refl, arith, inl, inr, ◌⊎◌, true, false, ◌||◌, Option, none, some, Bool-cases,
  bind-some, ◌==◌, if◌then◌else◌, ◌>>=◌, ◌∙◌, ap, sym,
}
use mathlib.Core.Path.{subst}
use shecc.Ir.{Opcode, is_op, is_op_self, eq_of_is_op}
use shecc.Ir.Semantics.{alu}
use shecc.Ssa.{Insn, Vars, Step, set_const, set_val, const_value}
use shecc.Ssa.Meaning.{
  Env, set, value, exec_op, exec, IsKnown, IsKnown-set, IsKnown-set_val, IsKnown-set_const,
  exec_op_cases,
}
use shecc.Ssa.Fold.{
  from_prev, mark_assign, mark_const, fold_op, load_result, eval_const_arithmetic, fold_unary,
  eval_const_unary, or_else, const_folding,
}

pub const_value_lem :
    (vars : Vars) (env : Env) (v : Option ℕ) {x : ℕ}
    → IsKnown vars env
    → const_value vars v ≡ some x
    → value v env ≡ x
unfolding const_value
const_value_lem vars env none known h = cc
const_value_lem vars env (some v) known h = elim (Bool-cases (vars.is_const v)) [
  | inl is ↦ known v is ∙ value_of is h
  | inr is_not ↦ absurd (none_some is_not h)
]
  where
    value_of :
        {x : ℕ}
        → vars.is_const v ≡ true
        → (if vars.is_const v then some (vars.init_val v) else none) ≡ some x
        → vars.init_val v ≡ x
    value_of is h' = ground (arith, is, h')

    none_some :
        {x : ℕ}
        → vars.is_const v ≡ false
        → (if vars.is_const v then some (vars.init_val v) else none) ≡ some x
        → ⊥
    none_some is_not h' = ground (arith, is_not, h')

no_value :
    (l r : Option ℕ) (op : Opcode)
    → op ≡ Opcode.load_constant
    → (l >>= λ x. r >>= λ y. fold_op op x y) ≡ none
unfolding fold_op
no_value none r op e = refl
no_value (some x) none op e = refl
no_value (some x) (some y) op e = rw e refl

no_unary : (l : Option ℕ) (op : Opcode) → op ≡ Opcode.load_constant → (l >>= fold_unary op) ≡ none
unfolding fold_unary
no_unary none op e = refl
no_unary (some x) op e = rw e refl

module _ (other : Insn → Env → Env) where
  fold_op-exec_op :
      (vars : Vars) (op : Opcode) (insn : Insn) (env : Env) {res : ℕ}
      → fold_op op (value insn.rs1 env) (value insn.rs2 env) ≡ some res
      → exec_op other vars op insn env ≡ set insn.rd res env
  unfolding fold_op exec_op alu
  fold_op-exec_op vars op insn env h = ground arith

  fold_unary-exec_op :
      (vars : Vars) (op : Opcode) (insn : Insn) (env : Env) {res : ℕ}
      → fold_unary op (value insn.rs1 env) ≡ some res
      → exec_op other vars op insn env ≡ set insn.rd res env
  unfolding fold_unary exec_op
  fold_unary-exec_op vars op insn env h = ground arith

  pub loads :
      (vars : Vars) (env : Env) (d res : ℕ) (rd : Option ℕ)
      → rd ≡ some d
      → set rd (value rd (set_val vars d res).init_val) env ≡ set (some d) res env
  loads vars env d res rd h = rw (h, self) refl
    where
      self : (d == d) ≡ true
      self = ground arith

  -- The instruction does the same, and the marks are right after it.
  abbrev pub Keeps : Vars → Insn → Env → Step → Type 0
  Keeps vars insn env s =
      (exec other vars insn env ≡ exec other s.vars s.insn env)
      × IsKnown s.vars (exec other s.vars s.insn env)

  -- A function that succeeds, and either keeps the meaning or leaves all as it is.
  abbrev pub Outcome : Vars → Insn → Env → Option Step → Type 0
  Outcome vars insn env m =
      (s : Step) × (m ≡ some s)
      × (((s.changed ≡ true) × Keeps vars insn env s)
          ⊎ ((s.changed ≡ false) × (s.vars ≡ vars) × (s.insn ≡ insn)))

  load_result-Outcome :
      (vars : Vars) (insn insn' : Insn) (env : Env) (d : ℕ) (o : Option ℕ)
      → insn.rd ≡ some d
      → insn'.rd ≡ some d
      → IsKnown vars env
      → ((res : ℕ) → o ≡ some res → exec other vars insn env ≡ set insn.rd res env)
      → Outcome vars insn env (load_result vars insn o insn')
  unfolding load_result exec exec_op
  load_result-Outcome vars insn insn' env d none hd hd' known same =
      (record { changed = false; vars = vars; insn = insn }, refl, inr (refl, refl, refl))
  load_result-Outcome vars insn insn' env d (some res) hd hd' known same = (
    record {
      changed = true;
      vars = set_val vars d res;
      insn = record insn' { opcode = Opcode.load_constant };
    },
    rw hd refl,
    inl (
      refl,
      (
        same res refl ∙ (ap (λ r. set r res env) hd ∙ sym (loads vars env d res insn'.rd hd')),
        subst (λ e. IsKnown (set_val vars d res) e) (sym (loads vars env d res insn'.rd hd'))
            (IsKnown-set_val vars env d res known),
      ),
    ),
  )

  or_else-Outcome :
      (vars : Vars) (insn : Insn) (env : Env) (m : Option Step) (f : Vars → Insn → Option Step)
      → Outcome vars insn env m
      → Outcome vars insn env (f vars insn)
      → Outcome vars insn env (m >>= λ s. or_else s f)
  or_else-Outcome vars insn env m f (s, done, inl (is, keeps)) other_one =
      (s, rw (done, is) refl, inl (is, keeps))
  or_else-Outcome vars insn env m f (s, done, inr (is_not, v, i)) (s', done', out) =
      (s', rw (done, is_not, v, i) done', out)

  eval_const_arithmetic-Outcome :
      (vars : Vars) (insn : Insn) (env : Env) (d : ℕ)
      → insn.rd ≡ some d
      → IsKnown vars env
      → Outcome vars insn env (eval_const_arithmetic vars insn)
  unfolding eval_const_arithmetic exec
  eval_const_arithmetic-Outcome vars insn env d hd known =
      load_result-Outcome vars insn (record insn { rs1 = none; rs2 = none }) env d _ hd hd known
        (λ res h.
          let (l, hl, h') = bind-some (const_value vars insn.rs1) _ h in
          let (r, hr, h'') = bind-some (const_value vars insn.rs2) _ h' in
          fold_op-exec_op vars insn.opcode insn env (
            rw
              (
                const_value_lem vars env insn.rs1 known hl,
                const_value_lem vars env insn.rs2 known hr,
              )
              h''))

  eval_const_unary-Outcome :
      (vars : Vars) (insn : Insn) (env : Env) (d : ℕ)
      → insn.rd ≡ some d
      → IsKnown vars env
      → Outcome vars insn env (eval_const_unary vars insn)
  unfolding eval_const_unary exec
  eval_const_unary-Outcome vars insn env d hd known =
      load_result-Outcome vars insn (record insn { rs1 = none }) env d _ hd hd known
        (λ res h.
          let (l, hl, h') = bind-some (const_value vars insn.rs1) _ h in
          fold_unary-exec_op vars insn.opcode insn env
            (rw (const_value_lem vars env insn.rs1 known hl) h'))

  -- What the instruction before has loaded is there.
  abbrev pub IsAfter : Vars → Option Insn → Env → Type 0
  IsAfter vars prev env = (v : ℕ) → from_prev prev v ≡ true → env v ≡ vars.init_val v

  exec_assign :
      (vars : Vars) (insn : Insn) (env : Env) (d a : ℕ)
      → insn.opcode ≡ Opcode.assign
      → insn.rd ≡ some d
      → insn.rs1 ≡ some a
      → exec other vars insn env ≡ set (some d) (env a) env
  unfolding exec exec_op
  exec_assign vars insn env d a op hd ha = rw (op, hd, ha) refl

  moved :
      (vars : Vars) (prev : Option Insn) (env : Env) (a : ℕ)
      → IsKnown vars env
      → IsAfter vars prev env
      → (vars.is_const a || from_prev prev a) ≡ true
      → env a ≡ vars.init_val a
  moved vars prev env a known after h = elim (Bool-cases (vars.is_const a)) [
    | inl is ↦ known a is
    | inr is_not ↦ after a (second is_not h)
  ]
    where
      second :
          vars.is_const a ≡ false
          → (vars.is_const a || from_prev prev a) ≡ true
          → from_prev prev a ≡ true
      second q h' = ground (arith, q, h')

  mark_assign-Outcome :
      (vars : Vars) (prev : Option Insn) (insn : Insn) (env : Env) (d a : ℕ)
      → insn.opcode ≡ Opcode.assign
      → insn.rd ≡ some d
      → insn.rs1 ≡ some a
      → IsKnown vars env
      → IsAfter vars prev env
      → Outcome vars insn env (mark_assign vars prev insn d)
  unfolding mark_assign exec exec_op
  mark_assign-Outcome vars prev insn env d a op hd ha known after =
      elim (Bool-cases (vars.is_global d)) [
        | inl global ↦ (
          record { changed = false; vars = vars; insn = insn },
          rw global refl,
          inr (refl, refl, refl),
        )
        | inr local ↦ elim (Bool-cases (vars.is_const a || from_prev prev a)) [
          | inr unknown ↦ (
            record { changed = false; vars = vars; insn = insn },
            rw (local, ha, unknown) refl,
            inr (refl, refl, refl),
          )
          | inl const ↦ (
            record {
              changed = true;
              vars = set_val vars d (vars.init_val a);
              insn = record insn { opcode = Opcode.load_constant; rs1 = none };
            },
            rw (local, ha, const) refl,
            inl (
              refl,
              (
                exec_assign vars insn env d a op hd ha
                    ∙ (ap (λ x. set (some d) x env) (moved vars prev env a known after const)
                        ∙ sym (loads vars env d (vars.init_val a) insn.rd hd)),
                subst (λ e. IsKnown (set_val vars d (vars.init_val a)) e)
                    (sym (loads vars env d (vars.init_val a) insn.rd hd))
                    (IsKnown-set_val vars env d (vars.init_val a) known),
              ),
            ),
          )
        ]
      ]

  -- The first of the three, where the instruction is not the load of a constant.
  mark_const-Outcome :
      (vars : Vars) (prev : Option Insn) (insn : Insn) (env : Env) (d : ℕ)
      → is_op insn.opcode Opcode.load_constant ≡ false
      → insn.rd ≡ some d
      → (insn.opcode ≡ Opcode.assign → (a : ℕ) × (insn.rs1 ≡ some a))
      → IsKnown vars env
      → IsAfter vars prev env
      → Outcome vars insn env (mark_const vars prev insn)
  unfolding mark_const
  mark_const-Outcome vars prev insn env d no_load hd source known after =
      elim (Bool-cases (is_op insn.opcode Opcode.assign)) [
        | inl assign ↦ from_assign (eq_of_is_op insn.opcode Opcode.assign assign) assign
        | inr other_op ↦ (
          record { changed = false; vars = vars; insn = insn },
          rw (no_load, other_op) refl,
          inr (refl, refl, refl),
        )
      ]
    where
      from_assign :
          insn.opcode ≡ Opcode.assign
          → is_op insn.opcode Opcode.assign ≡ true
          → Outcome vars insn env (mark_const vars prev insn)
      from_assign e is =
          let (a, ha) = source e in
          let (s, done, out) = mark_assign-Outcome vars prev insn env d a e hd ha known after in
          (s, rw (no_load, is) (ap (λ r. r >>= mark_assign vars prev insn) hd) ∙ done, out)

  -- An instruction that sets a variable without a mark.
  pub exec-IsKnown :
      (vars : Vars) (insn : Insn) (env : Env) (d : ℕ)
      → ((i : Insn) (e : Env) → IsKnown vars e → IsKnown vars (other i e))
      → insn.rd ≡ some d
      → vars.is_const d ≡ false
      → IsKnown vars env
      → IsKnown vars (exec other vars insn env)
  unfolding exec
  exec-IsKnown vars insn env d others hd free known =
      elim (exec_op_cases other vars insn.opcode insn env) [
        | inl (x, e) ↦
            subst (IsKnown vars) (sym (e ∙ ap (λ r. set r x env) hd))
              (IsKnown-set vars env d x free known)
        | inr e ↦ subst (IsKnown vars) (sym e) (others insn env known)
      ]

  exec_load :
      (vars : Vars) (insn : Insn) (env : Env)
      → insn.opcode ≡ Opcode.load_constant
      → exec other vars insn env ≡ set insn.rd (value insn.rd vars.init_val) env
  unfolding exec exec_op
  exec_load vars insn env op = rw op refl

  -- The load of a constant marks its variable.
  loaded :
      (vars : Vars) (prev : Option Insn) (insn : Insn) (env : Env) (d : ℕ)
      → is_op insn.opcode Opcode.load_constant ≡ true
      → insn.rd ≡ some d
      → IsKnown vars env
      → (s : Step) × (const_folding vars prev insn ≡ some s) × Keeps vars insn env s
  unfolding const_folding mark_const eval_const_arithmetic eval_const_unary load_result
  loaded vars prev insn env d is hd known =
      let op = eq_of_is_op insn.opcode Opcode.load_constant is in
      let marked : mark_const vars prev insn ≡ some left = rw is (
        ap
          (λ r.
            r >>= λ rd. some (record { changed = false; vars = set_const vars rd; insn = insn }))
          hd) in
      let same = exec_load (set_const vars d) insn env op in
      (
        left,
        rw
            (
              marked,
              no_value (const_value (set_const vars d) insn.rs1)
                  (const_value (set_const vars d) insn.rs2) insn.opcode op,
              no_unary (const_value (set_const vars d) insn.rs1) insn.opcode op,
            )
            refl,
        (
          exec_load vars insn env op ∙ sym same,
          subst (IsKnown (set_const vars d))
              (sym (same ∙ ap (λ r. set r (value r vars.init_val) env) hd))
              (IsKnown-set_const vars env d known),
        ),
      )
    where
      left : Step
      left = record { changed = false; vars = set_const vars d; insn = insn }

  -- Where every marked variable has its `init_val`, what the instruction before has loaded is
  -- there, and instructions of other kinds keep this, `const_folding` of an instruction that sets
  -- a variable (not marked, unless it loads a constant; an assignment has a source) returns; the
  -- instruction that it leaves gives all variables the same values, and the marked ones have their
  -- `init_val` again.
  pub const_folding-Keeps :
      (vars : Vars) (prev : Option Insn) (insn : Insn) (env : Env) (d : ℕ)
      → ((i : Insn) (e : Env) → IsKnown vars e → IsKnown vars (other i e))
      → insn.rd ≡ some d
      → (insn.opcode ≡ Opcode.assign → (a : ℕ) × (insn.rs1 ≡ some a))
      → (insn.opcode ≢ Opcode.load_constant → vars.is_const d ≡ false)
      → IsKnown vars env
      → IsAfter vars prev env
      → (s : Step) × (const_folding vars prev insn ≡ some s) × Keeps vars insn env s
  unfolding const_folding
  const_folding-Keeps vars prev insn env d others hd source free known after =
      elim (Bool-cases (is_op insn.opcode Opcode.load_constant)) [
        | inl is ↦ loaded vars prev insn env d is hd known
        | inr no_load ↦ close (free (differs no_load)) (
            or_else-Outcome vars insn env _ eval_const_unary
              (or_else-Outcome vars insn env _ eval_const_arithmetic
                (mark_const-Outcome vars prev insn env d no_load hd source known after)
                (eval_const_arithmetic-Outcome vars insn env d hd known))
              (eval_const_unary-Outcome vars insn env d hd known))
      ]
    where
      differs : is_op insn.opcode Opcode.load_constant ≡ false → insn.opcode ≢ Opcode.load_constant
      differs q e = true_false (
          sym (is_op_self Opcode.load_constant)
          ∙ (ap (λ o. is_op o Opcode.load_constant) (sym e) ∙ q))
        where
          true_false : true ≡ false → ⊥
          true_false r = cc

      close :
          {m : Option Step}
          → vars.is_const d ≡ false
          → Outcome vars insn env m
          → (s : Step) × (m ≡ some s) × Keeps vars insn env s
      close unmarked (s, done, inl (is, keeps)) = (s, done, keeps)
      close unmarked (s, done, inr (is_not, v, i)) =
          (s, done, rw (v, i) (refl, exec-IsKnown vars insn env d others hd unmarked known))
