-- ===== src/Ssa/Fold.antt =====
-- src/ssa.c: `const_folding` with the three functions that it calls.
pub mod Sound
use shecc.Prelude.{
  ℕ, ◌-◌, ◌%◌, ◌^◌, Bool, true, false, not, ◌&&◌, ◌||◌, Option, none, some, bit_and, bit_or,
  bit_xor, add32, sub32, mul32, neg32, shl32, sar32, slt32, sle32, bool_word, ◌==◌, if◌then◌else◌,
  ◌>>=◌,
}
use shecc.Ir.{Opcode, is_op}
use shecc.Ir.Semantics.{sdiv32, srem32}
use shecc.Ssa.{Insn, Vars, Step, set_const, set_val, const_value}

-- The instruction before loads the constant that is moved.
unfoldable pub from_prev : Option Insn → ℕ → Bool
from_prev none rs1 = false
from_prev (some prev) rs1 =
    is_op prev.opcode Opcode.load_constant && elim prev.rd [ none ↦ false | some rd ↦ rs1 == rd ]

-- An assignment; `none` is the use of a null pointer.
unfoldable pub mark_assign : Vars → Option Insn → Insn → ℕ → Option Step
unfolding from_prev
mark_assign vars prev insn rd =
    let left : Step = record { changed = false; vars = vars; insn = insn } in
    if vars.is_global rd
    then some left
    else insn.rs1 >>= λ rs1. some (
        if vars.is_const rs1 || from_prev prev rs1
        then record {
          changed = true;
          vars = set_val vars rd (vars.init_val rs1);
          insn = record insn { opcode = Opcode.load_constant; rs1 = none };
        }
        else left)

unfoldable pub mark_const : Vars → Option Insn → Insn → Option Step
unfolding mark_assign
mark_const vars prev insn =
    if is_op insn.opcode Opcode.load_constant
    then (insn.rd >>= λ rd.
        some (record { changed = false; vars = set_const vars rd; insn = insn }))
    else if not (is_op insn.opcode Opcode.assign)
    then some (record { changed = false; vars = vars; insn = insn })
    else insn.rd >>= mark_assign vars prev insn

-- The `switch` of `eval_const_arithmetic`. A shift by 32 or more, and the quotient of -2^31 by -1,
-- are not defined in C; here they are what the machine does.
unfoldable pub fold_op : Opcode → ℕ → ℕ → Option ℕ
fold_op Opcode.add l r = some (add32 l r)
fold_op Opcode.sub l r = some (sub32 l r)
fold_op Opcode.mul l r = some (mul32 l r)
fold_op Opcode.div l r = if r == 0 then none else some (sdiv32 l r)
fold_op Opcode.rem l r = if r == 0 then none else some (srem32 l r)
fold_op Opcode.lshift l r = some (shl32 l (r % 32))
fold_op Opcode.rshift l r = some (sar32 l (r % 32))
fold_op Opcode.bit_and l r = some (bit_and l r)
fold_op Opcode.bit_or l r = some (bit_or l r)
fold_op Opcode.bit_xor l r = some (bit_xor l r)
fold_op Opcode.log_and l r = some (bool_word (not (l == 0) && not (r == 0)))
fold_op Opcode.log_or l r = some (bool_word (not (l == 0) || not (r == 0)))
fold_op Opcode.eq l r = some (bool_word (l == r))
fold_op Opcode.neq l r = some (bool_word (not (l == r)))
fold_op Opcode.lt l r = some (bool_word (slt32 l r))
fold_op Opcode.leq l r = some (bool_word (sle32 l r))
fold_op Opcode.gt l r = some (bool_word (slt32 r l))
fold_op Opcode.geq l r = some (bool_word (sle32 r l))
fold_op _ l r = none

-- The instruction becomes the load of a result, if there is one.
unfoldable pub load_result : Vars → Insn → Option ℕ → Insn → Option Step
load_result vars insn none insn' = some (record { changed = false; vars = vars; insn = insn })
load_result vars insn (some res) insn' = insn.rd >>= λ rd. some (record {
  changed = true;
  vars = set_val vars rd res;
  insn = record insn' { opcode = Opcode.load_constant };
})

unfoldable pub eval_const_arithmetic : Vars → Insn → Option Step
unfolding load_result fold_op const_value
eval_const_arithmetic vars insn =
    load_result vars insn
      (const_value vars insn.rs1 >>= λ l.
        const_value vars insn.rs2 >>= λ r. fold_op insn.opcode l r)
      (record insn { rs1 = none; rs2 = none })

-- The `switch` of `eval_const_unary`.
unfoldable pub fold_unary : Opcode → ℕ → Option ℕ
fold_unary Opcode.negate val = some (neg32 val)
fold_unary Opcode.bit_not val = some (2 ^ 32 - 1 - val)
fold_unary Opcode.log_not val = some (bool_word (val == 0))
fold_unary _ val = none

unfoldable pub eval_const_unary : Vars → Insn → Option Step
unfolding load_result fold_unary const_value
eval_const_unary vars insn =
    load_result vars insn (const_value vars insn.rs1 >>= λ val. fold_unary insn.opcode val)
      (record insn { rs1 = none })

-- The next function where one has changed nothing.
abbrev pub or_else : Step → (Vars → Insn → Option Step) → Option Step
or_else s f = if s.changed then some s else f s.vars s.insn

unfoldable pub const_folding : Vars → Option Insn → Insn → Option Step
unfolding mark_const eval_const_arithmetic eval_const_unary
const_folding vars prev insn =
    (mark_const vars prev insn >>= λ s. or_else s eval_const_arithmetic) >>= λ s.
    or_else s eval_const_unary
