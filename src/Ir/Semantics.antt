-- ===== src/Ir/Semantics.antt =====
-- What the instructions mean, as a specification for the optimiser and the code generators: a
-- register machine of 32-bit words. It models no code of the compiler.
use shecc.Prelude.{
  ℕ, ◌-◌, ◌/◌, ◌%◌, ◌^◌, ◌≡◌, ◌≢◌, ◌⊎◌, Bool, not, ◌&&◌, ◌||◌, List, [], ◌∷◌, bit_and, bit_or,
  bit_xor, IsWord, add32, sub32, mul32, neg32, is_neg, shl32, sar32, slt32, sle32, bool_word, ◌==◌,
  if◌then◌else◌,
}
use shecc.Ir.{Opcode, Ph2Ir}

-- The registers, the words of the stack frame and the words of the global area. A frame slot is
-- named by its offset and by whether that counts from the top of the frame.
pub record State : Type 0 where
  pub reg : ℕ → ℕ
  pub frame : Bool → ℕ → ℕ
  pub global : ℕ → ℕ

abbrev pub update : (ℕ → ℕ) → ℕ → ℕ → ℕ → ℕ
update f k v j = if j == k then v else f j

-- Slots named the two ways are kept apart: an instruction names a slot by its own flag.
abbrev pub bool_eq : Bool → Bool → Bool
bool_eq a b = if a then b else not b

abbrev pub update_frame : (Bool → ℕ → ℕ) → Bool → ℕ → ℕ → Bool → ℕ → ℕ
update_frame f top k v u j = if bool_eq u top && j == k then v else f u j

abbrev pub set_reg : ℕ → ℕ → State → State
set_reg d v s = record s { reg = update s.reg d v }

-- The magnitude of a signed word.
abbrev pub abs32 : ℕ → ℕ
abs32 a = if is_neg a then neg32 a else a

-- `a / b` and `a % b` of signed words: the quotient is rounded towards zero, and the remainder has
-- the sign of `a`.
unfoldable pub sdiv32 : ℕ → ℕ → ℕ
sdiv32 a b = let q = abs32 a / abs32 b in if bool_eq (is_neg a) (is_neg b) then q else neg32 q

unfoldable pub srem32 : ℕ → ℕ → ℕ
srem32 a b = let r = abs32 a % abs32 b in if is_neg a then neg32 r else r

-- The value of an operation on two words.
unfoldable pub alu : Opcode → ℕ → ℕ → ℕ
alu Opcode.add a b = add32 a b
alu Opcode.sub a b = sub32 a b
alu Opcode.mul a b = mul32 a b
alu Opcode.div a b = sdiv32 a b
alu Opcode.rem a b = srem32 a b
alu Opcode.lshift a b = shl32 a (b % 32)
alu Opcode.rshift a b = sar32 a (b % 32)
alu Opcode.log_and a b = bool_word (not (a == 0) && not (b == 0))
alu Opcode.log_or a b = bool_word (not (a == 0) || not (b == 0))
alu Opcode.eq a b = bool_word (a == b)
alu Opcode.neq a b = bool_word (not (a == b))
alu Opcode.lt a b = bool_word (slt32 a b)
alu Opcode.leq a b = bool_word (sle32 a b)
alu Opcode.gt a b = bool_word (slt32 b a)
alu Opcode.geq a b = bool_word (sle32 b a)
alu Opcode.bit_or a b = bit_or a b
alu Opcode.bit_and a b = bit_and a b
alu Opcode.bit_xor a b = bit_xor a b
alu _ a b = 0

-- The effect of an instruction. What is not computed here (control flow, memory behind pointers,
-- calls, the IR-only opcodes) is any function of the instruction and the state. The two numbers are
-- the addresses of the data sections.
module _ (data_start rodata_start : ℕ) (other : Ph2Ir → State → State) where
  unfoldable pub exec_op : Opcode → Ph2Ir → State → State
  exec_op Opcode.assign i s = set_reg i.dest (s.reg i.src0) s
  exec_op Opcode.load_constant i s = set_reg i.dest i.src0 s
  exec_op Opcode.load_data_address i s = set_reg i.dest (add32 data_start i.src0) s
  exec_op Opcode.load_rodata_address i s = set_reg i.dest (add32 rodata_start i.src0) s
  exec_op Opcode.load i s = set_reg i.dest (s.frame i.ofs_based_on_stack_top i.src0) s
  exec_op Opcode.global_load i s = set_reg i.dest (s.global i.src0) s
  exec_op Opcode.store i s = record s {
    frame = update_frame s.frame i.ofs_based_on_stack_top i.src1 (s.reg i.src0);
  }
  exec_op Opcode.global_store i s = record s { global = update s.global i.src1 (s.reg i.src0) }
  exec_op Opcode.log_not i s = set_reg i.dest (bool_word (s.reg i.src0 == 0)) s
  exec_op Opcode.bit_not i s = set_reg i.dest (2 ^ 32 - 1 - s.reg i.src0) s
  exec_op Opcode.negate i s = set_reg i.dest (neg32 (s.reg i.src0)) s
  exec_op Opcode.add i s = set_reg i.dest (alu Opcode.add (s.reg i.src0) (s.reg i.src1)) s
  exec_op Opcode.sub i s = set_reg i.dest (alu Opcode.sub (s.reg i.src0) (s.reg i.src1)) s
  exec_op Opcode.mul i s = set_reg i.dest (alu Opcode.mul (s.reg i.src0) (s.reg i.src1)) s
  exec_op Opcode.div i s = set_reg i.dest (alu Opcode.div (s.reg i.src0) (s.reg i.src1)) s
  exec_op Opcode.rem i s = set_reg i.dest (alu Opcode.rem (s.reg i.src0) (s.reg i.src1)) s
  exec_op Opcode.lshift i s = set_reg i.dest (alu Opcode.lshift (s.reg i.src0) (s.reg i.src1)) s
  exec_op Opcode.rshift i s = set_reg i.dest (alu Opcode.rshift (s.reg i.src0) (s.reg i.src1)) s
  exec_op Opcode.log_and i s = set_reg i.dest (alu Opcode.log_and (s.reg i.src0) (s.reg i.src1)) s
  exec_op Opcode.log_or i s = set_reg i.dest (alu Opcode.log_or (s.reg i.src0) (s.reg i.src1)) s
  exec_op Opcode.eq i s = set_reg i.dest (alu Opcode.eq (s.reg i.src0) (s.reg i.src1)) s
  exec_op Opcode.neq i s = set_reg i.dest (alu Opcode.neq (s.reg i.src0) (s.reg i.src1)) s
  exec_op Opcode.lt i s = set_reg i.dest (alu Opcode.lt (s.reg i.src0) (s.reg i.src1)) s
  exec_op Opcode.leq i s = set_reg i.dest (alu Opcode.leq (s.reg i.src0) (s.reg i.src1)) s
  exec_op Opcode.gt i s = set_reg i.dest (alu Opcode.gt (s.reg i.src0) (s.reg i.src1)) s
  exec_op Opcode.geq i s = set_reg i.dest (alu Opcode.geq (s.reg i.src0) (s.reg i.src1)) s
  exec_op Opcode.bit_or i s = set_reg i.dest (alu Opcode.bit_or (s.reg i.src0) (s.reg i.src1)) s
  exec_op Opcode.bit_and i s = set_reg i.dest (alu Opcode.bit_and (s.reg i.src0) (s.reg i.src1)) s
  exec_op Opcode.bit_xor i s = set_reg i.dest (alu Opcode.bit_xor (s.reg i.src0) (s.reg i.src1)) s
  exec_op _ i s = other i s

  unfoldable pub exec : Ph2Ir → State → State
  unfolding exec_op
  exec i s = exec_op i.op i s

  -- The instructions of a list, one after the other.
  unfoldable pub run : List Ph2Ir → State → State
  unfolding exec
  run [] s = s
  run (i ∷ is) s = run is (exec i s)

-- Every register holds a word.
abbrev pub HasWords : State → Type 0
HasWords s = (r : ℕ) → IsWord (s.reg r)

-- The states agree, but perhaps in the register `t`, unless that is `d`.
pub record Agree (t d : ℕ) (s u : State) : Type 0 where
  pub regs : (r : ℕ) → (r ≢ t) ⊎ (r ≡ d) → s.reg r ≡ u.reg r
  pub frames : (top : Bool) (k : ℕ) → s.frame top k ≡ u.frame top k
  pub globals : (k : ℕ) → s.global k ≡ u.global k
