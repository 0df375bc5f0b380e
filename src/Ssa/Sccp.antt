-- ===== src/Ssa/Sccp.antt =====
-- src/opt-sccp.c: `simple_sccp`, on the instructions of a block, the branch at its end and all blocks.
pub mod Sound
use shecc.Prelude.{
  ℕ, Bool, true, false, not, ◌&&◌, ◌||◌, Option, none, some, List, [], ◌∷◌, bit_and, bit_or, add32,
  sub32, mul32, slt32, sle32, is_neg, bool_word, ◌==◌, if◌then◌else◌, ◌>>=◌,
}
use shecc.Ir.{Opcode, is_op}
use shecc.Ssa.{Insn, Vars, Step, set_val, const_value}

-- The truncation by size; another size is skipped.
unfoldable pub fold_trunc : ℕ → ℕ → Option ℕ
fold_trunc sz value =
    if sz == 1
    then some (bit_and value 0xFF)
    else if sz == 2
    then some (bit_and value 0xFFFF)
    else if sz == 4
    then some value
    else none

unfoldable pub fold_sign_ext : ℕ → ℕ → Option ℕ
fold_sign_ext sz value =
    if sz == 1
    then some (if bit_and value 0x80 == 0 then bit_and value 0xFF else bit_or value 0xFFFFFF00)
    else if sz == 2
    then some (if bit_and value 0x8000 == 0 then bit_and value 0xFFFF else bit_or value 0xFFFF0000)
    else if sz == 4
    then some value
    else none

unfoldable pub fold_binary : Opcode → ℕ → ℕ → Option ℕ
fold_binary Opcode.add l r = some (add32 l r)
fold_binary Opcode.sub l r = some (sub32 l r)
fold_binary Opcode.mul l r = some (mul32 l r)
fold_binary Opcode.eq l r = some (bool_word (l == r))
fold_binary Opcode.neq l r = some (bool_word (not (l == r)))
fold_binary Opcode.lt l r = some (bool_word (slt32 l r))
fold_binary Opcode.leq l r = some (bool_word (sle32 l r))
fold_binary Opcode.gt l r = some (bool_word (slt32 r l))
fold_binary Opcode.geq l r = some (bool_word (sle32 r l))
fold_binary _ l r = none

-- `insn->sz > 0`
unfoldable pub is_positive : ℕ → Bool
is_positive sz = not (is_neg sz) && not (sz == 0)

-- The constant that an instruction with the destination `rd` becomes.
unfoldable pub fold_value : Vars → Opcode → Insn → ℕ → Option ℕ
unfolding fold_trunc fold_sign_ext fold_binary is_positive const_value
fold_value vars Opcode.assign insn rd = if vars.is_const rd then none else const_value vars insn.rs1
fold_value vars Opcode.trunc insn rd =
    if vars.is_global rd || not (is_positive insn.sz)
    then none
    else const_value vars insn.rs1 >>= fold_trunc insn.sz
fold_value vars Opcode.sign_ext insn rd =
    if vars.is_global rd || not (is_positive insn.sz)
    then none
    else const_value vars insn.rs1 >>= fold_sign_ext insn.sz
fold_value vars op insn rd =
    if vars.is_global rd
    then none
    else const_value vars insn.rs1 >>= λ l. const_value vars insn.rs2 >>= λ r. fold_binary op l r

-- The instruction that loads the constant.
unfoldable pub constant_load : Opcode → Insn → Insn
constant_load Opcode.assign insn = record insn { opcode = Opcode.load_constant; rs1 = none }
constant_load Opcode.trunc insn = record insn { opcode = Opcode.load_constant; rs1 = none; sz = 0 }
constant_load Opcode.sign_ext insn = record insn {
  opcode = Opcode.load_constant;
  rs1 = none;
  sz = 0;
}
constant_load _ insn = record insn { opcode = Opcode.load_constant; rs1 = none; rs2 = none }

unfoldable pub sccp_to : Vars → Insn → ℕ → Option ℕ → Step
unfolding constant_load
sccp_to vars insn rd none = record { changed = false; vars = vars; insn = insn }
sccp_to vars insn rd (some res) = record {
  changed = true;
  vars = set_val vars rd res;
  insn = constant_load insn.opcode insn;
}

-- An instruction; one without a destination is skipped.
unfoldable pub sccp_insn : Vars → Insn → Step
unfolding fold_value sccp_to
sccp_insn vars insn = elim insn.rd [
  | none ↦ record { changed = false; vars = vars; insn = insn }
  | some rd ↦ sccp_to vars insn rd (fold_value vars insn.opcode insn rd)
]

-- What the pass leaves of the variables, and a list of instructions.
pub record Pass : Type 0 where
  pub changed : Bool
  pub vars : Vars
  pub insns : List Insn

unfoldable pub sccp_insns : Vars → List Insn → Pass
unfolding sccp_insn
sccp_insns vars [] = record { changed = false; vars = vars; insns = [] }
sccp_insns vars (insn ∷ insns) =
    let s = sccp_insn vars insn in
    let rest = sccp_insns s.vars insns in
    record { changed = s.changed || rest.changed; vars = rest.vars; insns = s.insn ∷ rest.insns }

-- A basic block: its instructions and the blocks that follow it.
pub record Block : Type 0 where
  pub insns : List Insn
  pub then_ : Option ℕ
  pub else_ : Option ℕ

-- The constant that decides the branch at the end of a block.
unfoldable pub branch_value : Vars → List Insn → Option ℕ
unfolding const_value
branch_value vars [] = none
branch_value vars (insn ∷ []) =
    if is_op insn.opcode Opcode.branch then const_value vars insn.rs1 else none
branch_value vars (insn ∷ next ∷ insns) = branch_value vars (next ∷ insns)

-- The last instruction becomes a jump.
unfoldable pub jump_last : List Insn → List Insn
jump_last [] = []
jump_last (insn ∷ []) = record insn { opcode = Opcode.jump; rs1 = none } ∷ []
jump_last (insn ∷ next ∷ insns) = insn ∷ jump_last (next ∷ insns)

-- What the pass leaves of the variables, and the blocks.
pub record FuncPass : Type 0 where
  pub changed : Bool
  pub vars : Vars
  pub bbs : List Block

-- The branch is folded when its condition has the value.
unfoldable pub branch_to : Block → Option ℕ → Bool × Block
unfolding jump_last
branch_to bb none = (false, bb)
branch_to bb (some value) = (
  true,
  record {
    insns = jump_last bb.insns;
    then_ = if value == 0 then bb.else_ else bb.then_;
    else_ = none;
  },
)

-- The instructions of a block, and then the branch at its end.
unfoldable pub sccp_block : Vars → Block → Bool × (Vars × Block)
unfolding sccp_insns branch_value branch_to
sccp_block vars bb =
    let p = sccp_insns vars bb.insns in
    let (folded, bb') = branch_to (record bb { insns = p.insns }) (branch_value p.vars p.insns) in
    (p.changed || folded, (p.vars, bb'))

-- The blocks of a function.
unfoldable pub simple_sccp : Vars → List Block → FuncPass
unfolding sccp_block
simple_sccp vars [] = record { changed = false; vars = vars; bbs = [] }
simple_sccp vars (bb ∷ bbs) =
    let (changed, (vars', bb')) = sccp_block vars bb in
    let rest = simple_sccp vars' bbs in
    record { changed = changed || rest.changed; vars = rest.vars; bbs = bb' ∷ rest.bbs }
