-- ===== src/Riscv/Machine.antt =====
-- What the integer instructions of Isa do to the registers, after the RISC-V manual. It models no
-- code of the compiler: it is what the words that the code generator writes are run on.
use shecc.Prelude.{
  ℕ, ◌%◌, not, ◌&&◌, Option, none, some, List, [], ◌∷◌, add32, sub32, mul32, shl32, shr32, sar32,
  slt32, ltb, bool_word, bit_and, bit_or, bit_xor, ◌==◌, if◌then◌else◌, ◌>>=◌,
}
use shecc.Riscv.Isa.{ROp, IOp, ShiftOp, Instr, decode}

-- Register 0 stays as it is.
abbrev pub write : ℕ → ℕ → (ℕ → ℕ) → ℕ → ℕ
write d v regs r = if r == d && not (d == 0) then v else regs r

-- Division and the remainder are left out.
unfoldable pub reg_value : ROp → ℕ → ℕ → Option ℕ
reg_value ROp.add a b = some (add32 a b)
reg_value ROp.sub a b = some (sub32 a b)
reg_value ROp.sll a b = some (shl32 a (b % 32))
reg_value ROp.slt a b = some (bool_word (slt32 a b))
reg_value ROp.sltu a b = some (bool_word (ltb a b))
reg_value ROp.xor a b = some (bit_xor a b)
reg_value ROp.srl a b = some (shr32 a (b % 32))
reg_value ROp.sra a b = some (sar32 a (b % 32))
reg_value ROp.or a b = some (bit_or a b)
reg_value ROp.and a b = some (bit_and a b)
reg_value ROp.mul a b = some (mul32 a b)
reg_value _ a b = none

unfoldable pub imm_value : IOp → ℕ → ℕ → ℕ
imm_value IOp.addi a v = add32 a v
imm_value IOp.slti a v = bool_word (slt32 a v)
imm_value IOp.sltiu a v = bool_word (ltb a v)
imm_value IOp.xori a v = bit_xor a v
imm_value IOp.ori a v = bit_or a v
imm_value IOp.andi a v = bit_and a v

unfoldable pub shift_value : ShiftOp → ℕ → ℕ → ℕ
shift_value ShiftOp.slli a v = shl32 a v
shift_value ShiftOp.srli a v = shr32 a v
shift_value ShiftOp.srai a v = sar32 a v

-- Memory, jumps and the program counter are not part of this machine.
unfoldable pub step : Instr → (ℕ → ℕ) → Option (ℕ → ℕ)
step (Instr.reg o d s1 s2) regs = reg_value o (regs s1) (regs s2) >>= λ v. some (write d v regs)
step (Instr.imm o d s1 v) regs = some (write d (imm_value o (regs s1) v) regs)
step (Instr.shift o d s1 v) regs = some (write d (shift_value o (regs s1) v) regs)
step (Instr.lui d v) regs = some (write d v regs)
step _ regs = none

-- The words of straight-line code, one after the other.
unfoldable pub run_words : List ℕ → (ℕ → ℕ) → Option (ℕ → ℕ)
run_words [] regs = some regs
run_words (w ∷ ws) regs = decode w >>= λ i. step i regs >>= run_words ws
