-- ===== src/Ir.antt =====
-- src/defs.h: `opcode_t` and `ph2_ir_t`, the instructions after register allocation.
pub mod Semantics
use Prim.Native.String.{String}
use shecc.Prelude.{
  ℕ, zero, suc, ◌≡◌, refl, ap, sym, ◌∙◌, Bool, true, List, [], ◌∷◌, ◌==◌, ==_iff, arith,
}

-- `OP_mod` is `rem` here (`mod` is reserved); the other constructors are the source's without `OP_`.
pub data Opcode : Type 0 where
  generic phi unwound_phi define push call indirect return allocat assign : Opcode
  load_constant load_data_address load_rodata_address branch jump func_ret label : Opcode
  address_of_func load_func global_load_func address_of global_address_of load : Opcode
  global_load store global_store read write add sub mul div rem ternary lshift : Opcode
  rshift log_and log_or log_not eq neq lt leq gt geq bit_or bit_and bit_xor : Opcode
  bit_not negate trunc sign_ext cast start : Opcode

-- The enumerator's value.
unfoldable pub op_id : Opcode → ℕ
op_id generic = 0
op_id phi = 1
op_id unwound_phi = 2
op_id define = 3
op_id push = 4
op_id call = 5
op_id indirect = 6
op_id return = 7
op_id allocat = 8
op_id assign = 9
op_id load_constant = 10
op_id load_data_address = 11
op_id load_rodata_address = 12
op_id branch = 13
op_id jump = 14
op_id func_ret = 15
op_id label = 16
op_id address_of_func = 17
op_id load_func = 18
op_id global_load_func = 19
op_id address_of = 20
op_id global_address_of = 21
op_id load = 22
op_id global_load = 23
op_id store = 24
op_id global_store = 25
op_id read = 26
op_id write = 27
op_id add = 28
op_id sub = 29
op_id mul = 30
op_id div = 31
op_id rem = 32
op_id ternary = 33
op_id lshift = 34
op_id rshift = 35
op_id log_and = 36
op_id log_or = 37
op_id log_not = 38
op_id eq = 39
op_id neq = 40
op_id lt = 41
op_id leq = 42
op_id gt = 43
op_id geq = 44
op_id bit_or = 45
op_id bit_and = 46
op_id bit_xor = 47
op_id bit_not = 48
op_id negate = 49
op_id trunc = 50
op_id sign_ext = 51
op_id cast = 52
op_id start = 53

-- `a == b` of two opcodes.
unfoldable pub is_op : Opcode → Opcode → Bool
unfolding op_id
is_op a b = op_id a == op_id b

all_ops : List Opcode
all_ops =
    generic ∷ phi ∷ unwound_phi ∷ define ∷ push ∷ call ∷ indirect ∷ return ∷ allocat ∷ assign
    ∷ load_constant ∷ load_data_address ∷ load_rodata_address ∷ branch ∷ jump ∷ func_ret ∷ label
    ∷ address_of_func ∷ load_func ∷ global_load_func ∷ address_of ∷ global_address_of ∷ load
    ∷ global_load ∷ store ∷ global_store ∷ read ∷ write ∷ add ∷ sub ∷ mul ∷ div ∷ rem ∷ ternary
    ∷ lshift ∷ rshift ∷ log_and ∷ log_or ∷ log_not ∷ eq ∷ neq ∷ lt ∷ leq ∷ gt ∷ geq ∷ bit_or
    ∷ bit_and ∷ bit_xor ∷ bit_not ∷ negate ∷ trunc ∷ sign_ext ∷ cast ∷ start ∷ []

op_at : List Opcode → ℕ → Opcode
op_at [] n = generic
op_at (o ∷ os) zero = o
op_at (o ∷ os) (suc n) = op_at os n

op_at-op_id : (o : Opcode) → op_at all_ops (op_id o) ≡ o
unfolding op_at all_ops op_id
op_at-op_id generic = refl
op_at-op_id _ = refl

-- The test finds equal opcodes.
pub eq_of_is_op : (a b : Opcode) → is_op a b ≡ true → a ≡ b
unfolding is_op
eq_of_is_op a b h =
    sym (op_at-op_id a) ∙ (ap (op_at all_ops) ((==_iff (op_id a) (op_id b)).0 h) ∙ op_at-op_id b)

pub is_op_self : (a : Opcode) → is_op a a ≡ true
unfolding is_op
is_op_self a = ground arith

-- A `ph2_ir_t` without its `next` link: a block is a list. `src0`, `src1` and `dest` hold a
-- register, a constant, an offset or nothing, as the opcode has it; each is an `int`, kept as a bit
-- pattern. Blocks are named by numbers.
pub record Ph2Ir : Type 0 where
  pub op : Opcode
  pub src0 : ℕ
  pub src1 : ℕ
  pub dest : ℕ
  pub func_name : String
  pub next_bb : ℕ
  pub then_bb : ℕ
  pub else_bb : ℕ
  pub is_branch_detached : Bool
  pub ofs_based_on_stack_top : Bool
