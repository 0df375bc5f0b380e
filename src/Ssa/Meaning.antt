-- ===== src/Ssa/Meaning.antt =====
-- What the SSA instructions mean, as a specification for the passes: each sets its variable to a
-- value. It models no code of the compiler.
use shecc.Prelude.{
  refl, ◌⊎◌, inl, inr, ℕ, ◌/◌, ◌%◌, ◌^◌, ◌-◌, ◌≡◌, Bool-cases, arith, false, ◌∙◌, ap, sym, true,
  Option, none, some, neg32, sign_extend, bool_word, ◌==◌, if◌then◌else◌,
}
use shecc.Ir.{Opcode}
use shecc.Ir.Semantics.{alu, update}
use shecc.Ssa.{Insn, Vars, set_val, set_const}

-- The values of the variables.
abbrev pub Env : Type 0
Env = ℕ → ℕ

abbrev pub set : Option ℕ → ℕ → Env → Env
set none x env = env
set (some rd) x env = update env rd x

abbrev pub value : Option ℕ → Env → ℕ
value none env = 0
value (some v) env = env v

-- The low bytes of a word, as many as `sz` says.
abbrev pub truncated : ℕ → ℕ → ℕ
truncated sz x = if sz == 1 then x % 2 ^ 8 else if sz == 2 then x % 2 ^ 16 else x

-- The source size is in the upper half of `sz`.
abbrev pub extended : ℕ → ℕ → ℕ
extended sz x = if sz / 2 ^ 16 % 2 ^ 16 == 2 then sign_extend 16 x else sign_extend 8 x

-- Control flow, calls and memory are any function of the instruction and the values.
module _ (other : Insn → Env → Env) where
  unfoldable pub exec_op : Vars → Opcode → Insn → Env → Env
  exec_op vars Opcode.load_constant i env = set i.rd (value i.rd vars.init_val) env
  exec_op vars Opcode.assign i env = set i.rd (value i.rs1 env) env
  exec_op vars Opcode.negate i env = set i.rd (neg32 (value i.rs1 env)) env
  exec_op vars Opcode.bit_not i env = set i.rd (2 ^ 32 - 1 - value i.rs1 env) env
  exec_op vars Opcode.log_not i env = set i.rd (bool_word (value i.rs1 env == 0)) env
  exec_op vars Opcode.trunc i env = set i.rd (truncated i.sz (value i.rs1 env)) env
  exec_op vars Opcode.sign_ext i env = set i.rd (extended i.sz (value i.rs1 env)) env
  exec_op vars Opcode.add i env = set i.rd (alu Opcode.add (value i.rs1 env) (value i.rs2 env)) env
  exec_op vars Opcode.sub i env = set i.rd (alu Opcode.sub (value i.rs1 env) (value i.rs2 env)) env
  exec_op vars Opcode.mul i env = set i.rd (alu Opcode.mul (value i.rs1 env) (value i.rs2 env)) env
  exec_op vars Opcode.div i env = set i.rd (alu Opcode.div (value i.rs1 env) (value i.rs2 env)) env
  exec_op vars Opcode.rem i env = set i.rd (alu Opcode.rem (value i.rs1 env) (value i.rs2 env)) env
  exec_op vars Opcode.lshift i env =
      set i.rd (alu Opcode.lshift (value i.rs1 env) (value i.rs2 env)) env
  exec_op vars Opcode.rshift i env =
      set i.rd (alu Opcode.rshift (value i.rs1 env) (value i.rs2 env)) env
  exec_op vars Opcode.log_and i env =
      set i.rd (alu Opcode.log_and (value i.rs1 env) (value i.rs2 env)) env
  exec_op vars Opcode.log_or i env =
      set i.rd (alu Opcode.log_or (value i.rs1 env) (value i.rs2 env)) env
  exec_op vars Opcode.eq i env = set i.rd (alu Opcode.eq (value i.rs1 env) (value i.rs2 env)) env
  exec_op vars Opcode.neq i env = set i.rd (alu Opcode.neq (value i.rs1 env) (value i.rs2 env)) env
  exec_op vars Opcode.lt i env = set i.rd (alu Opcode.lt (value i.rs1 env) (value i.rs2 env)) env
  exec_op vars Opcode.leq i env = set i.rd (alu Opcode.leq (value i.rs1 env) (value i.rs2 env)) env
  exec_op vars Opcode.gt i env = set i.rd (alu Opcode.gt (value i.rs1 env) (value i.rs2 env)) env
  exec_op vars Opcode.geq i env = set i.rd (alu Opcode.geq (value i.rs1 env) (value i.rs2 env)) env
  exec_op vars Opcode.bit_or i env =
      set i.rd (alu Opcode.bit_or (value i.rs1 env) (value i.rs2 env)) env
  exec_op vars Opcode.bit_and i env =
      set i.rd (alu Opcode.bit_and (value i.rs1 env) (value i.rs2 env)) env
  exec_op vars Opcode.bit_xor i env =
      set i.rd (alu Opcode.bit_xor (value i.rs1 env) (value i.rs2 env)) env
  exec_op vars _ i env = other i env

  unfoldable pub exec : Vars → Insn → Env → Env
  unfolding exec_op
  exec vars i env = exec_op vars i.opcode i env

  -- An instruction sets its variable, or is one of the others.
  pub exec_op_cases :
      (vars : Vars) (op : Opcode) (i : Insn) (env : Env)
      → ((x : ℕ) × (exec_op vars op i env ≡ set i.rd x env)) ⊎ (exec_op vars op i env ≡ other i env)
  unfolding exec_op
  exec_op_cases vars Opcode.load_constant i env = inl (_, refl)
  exec_op_cases vars Opcode.assign i env = inl (_, refl)
  exec_op_cases vars Opcode.negate i env = inl (_, refl)
  exec_op_cases vars Opcode.bit_not i env = inl (_, refl)
  exec_op_cases vars Opcode.log_not i env = inl (_, refl)
  exec_op_cases vars Opcode.trunc i env = inl (_, refl)
  exec_op_cases vars Opcode.sign_ext i env = inl (_, refl)
  exec_op_cases vars Opcode.add i env = inl (_, refl)
  exec_op_cases vars Opcode.sub i env = inl (_, refl)
  exec_op_cases vars Opcode.mul i env = inl (_, refl)
  exec_op_cases vars Opcode.div i env = inl (_, refl)
  exec_op_cases vars Opcode.rem i env = inl (_, refl)
  exec_op_cases vars Opcode.lshift i env = inl (_, refl)
  exec_op_cases vars Opcode.rshift i env = inl (_, refl)
  exec_op_cases vars Opcode.log_and i env = inl (_, refl)
  exec_op_cases vars Opcode.log_or i env = inl (_, refl)
  exec_op_cases vars Opcode.eq i env = inl (_, refl)
  exec_op_cases vars Opcode.neq i env = inl (_, refl)
  exec_op_cases vars Opcode.lt i env = inl (_, refl)
  exec_op_cases vars Opcode.leq i env = inl (_, refl)
  exec_op_cases vars Opcode.gt i env = inl (_, refl)
  exec_op_cases vars Opcode.geq i env = inl (_, refl)
  exec_op_cases vars Opcode.bit_or i env = inl (_, refl)
  exec_op_cases vars Opcode.bit_and i env = inl (_, refl)
  exec_op_cases vars Opcode.bit_xor i env = inl (_, refl)
  exec_op_cases vars _ i env = inr refl

-- A variable that is marked constant has its `init_val`.
abbrev pub IsKnown : Vars → Env → Type 0
IsKnown vars env = (v : ℕ) → vars.is_const v ≡ true → env v ≡ vars.init_val v

-- Setting a variable that is not marked.
pub IsKnown-set :
    (vars : Vars) (env : Env) (d x : ℕ)
    → vars.is_const d ≡ false
    → IsKnown vars env
    → IsKnown vars (set (some d) x env)
IsKnown-set vars env d x free known v is = elim (Bool-cases (v == d)) [
  | inl same ↦ absurd (clash (ground (arith, same)))
  | inr other ↦ rw other (known v is)
]
  where
    clash : v ≡ d → ⊥
    clash e = true_false (sym is ∙ (ap vars.is_const e ∙ free))
      where
        true_false : true ≡ false → ⊥
        true_false q = cc

-- A variable that gets a value and is marked with it.
pub IsKnown-set_val :
    (vars : Vars) (env : Env) (d x : ℕ)
    → IsKnown vars env
    → IsKnown (set_val vars d x) (set (some d) x env)
IsKnown-set_val vars env d x known v is = elim (Bool-cases (v == d)) [
  | inl same ↦ rw same refl
  | inr other ↦ rw other (known v (old other is))
]
  where
    old :
        (v == d) ≡ false
        → (if v == d then true else vars.is_const v) ≡ true
        → vars.is_const v ≡ true
    old q h = ground (arith, q, h)

-- A variable that gets its `init_val` and is marked.
pub IsKnown-set_const :
    (vars : Vars) (env : Env) (d : ℕ)
    → IsKnown vars env
    → IsKnown (set_const vars d) (set (some d) (vars.init_val d) env)
IsKnown-set_const vars env d known v is = elim (Bool-cases (v == d)) [
  | inl same ↦ rw same (ap vars.init_val (sym (same_var same)))
  | inr other ↦ rw other (known v (old other is))
]
  where
    same_var : (v == d) ≡ true → v ≡ d
    same_var q = ground (arith, q)

    old :
        (v == d) ≡ false
        → (if v == d then true else vars.is_const v) ≡ true
        → vars.is_const v ≡ true
    old q h = ground (arith, q, h)
