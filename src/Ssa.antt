-- ===== src/Ssa.antt =====
-- src/defs.h: the SSA instructions before register allocation, and what the passes know of variables.
pub mod Meaning
pub mod Fold
pub mod Sccp
mod Tests
use shecc.Prelude.{ℕ, Bool, true, Option, none, some, ◌==◌, if◌then◌else◌}
use shecc.Ir.{Opcode}

-- An `insn_t` without its links: variables are numbers, and `none` is NULL.
pub record Insn : Type 0 where
  pub opcode : Opcode
  pub rd : Option ℕ
  pub rs1 : Option ℕ
  pub rs2 : Option ℕ
  pub sz : ℕ

-- Of each `var_t`: `is_global`, `is_const` and `init_val`.
pub record Vars : Type 0 where
  pub is_global : ℕ → Bool
  pub is_const : ℕ → Bool
  pub init_val : ℕ → ℕ

-- What a pass leaves of an instruction and of the variables, and what it returns.
pub record Step : Type 0 where
  pub changed : Bool
  pub vars : Vars
  pub insn : Insn

-- `rd->is_const = true`
abbrev pub set_const : Vars → ℕ → Vars
set_const vars rd = record vars { is_const = λ v. if v == rd then true else vars.is_const v }

-- `rd->is_const = true; rd->init_val = res`
abbrev pub set_val : Vars → ℕ → ℕ → Vars
set_val vars rd res = record vars {
  is_const = λ v. if v == rd then true else vars.is_const v;
  init_val = λ v. if v == rd then res else vars.init_val v;
}

-- The `init_val` of an operand that is there and constant.
unfoldable pub const_value : Vars → Option ℕ → Option ℕ
const_value vars none = none
const_value vars (some v) = if vars.is_const v then some (vars.init_val v) else none
