-- ===== src/Riscv/Isa.antt =====
-- An independent reading of an RV32IM instruction word, after the base formats of the RISC-V
-- manual. It models no code of the compiler: it is what the encoders are compared with.
use shecc.Prelude.{
  ℕ, ◌+◌, ◌*◌, ◌/◌, ◌%◌, ◌^◌, Option, none, some, sign_extend, ◌==◌, if◌then◌else◌, ◌>>=◌,
}

abbrev pub opcode : ℕ → ℕ
opcode w = w % 128

abbrev pub rd : ℕ → ℕ
rd w = w / 2 ^ 7 % 32

abbrev pub funct3 : ℕ → ℕ
funct3 w = w / 2 ^ 12 % 8

abbrev pub rs1 : ℕ → ℕ
rs1 w = w / 2 ^ 15 % 32

abbrev pub rs2 : ℕ → ℕ
rs2 w = w / 2 ^ 20 % 32

abbrev pub funct7 : ℕ → ℕ
funct7 w = w / 2 ^ 25

abbrev pub imm_I : ℕ → ℕ
imm_I w = sign_extend 12 (w / 2 ^ 20)

abbrev pub imm_S : ℕ → ℕ
imm_S w = sign_extend 12 (w / 2 ^ 25 * 32 + w / 2 ^ 7 % 32)

abbrev pub imm_B : ℕ → ℕ
imm_B w =
    sign_extend 13
      (w / 2 ^ 31 * 4096 + w / 2 ^ 7 % 2 * 2048 + w / 2 ^ 25 % 64 * 32 + w / 2 ^ 8 % 16 * 2)

abbrev pub imm_J : ℕ → ℕ
imm_J w =
    sign_extend 21 (
      w / 2 ^ 31 * 2 ^ 20 + w / 2 ^ 12 % 256 * 4096 + w / 2 ^ 20 % 2 * 2048 + w / 2 ^ 21 % 1024 * 2)

abbrev pub imm_U : ℕ → ℕ
imm_U w = w / 2 ^ 12 * 2 ^ 12

pub data ROp : Type 0 where
  add sub sll slt sltu xor srl sra or and mul div rem : ROp

pub data IOp : Type 0 where
  addi slti sltiu xori ori andi : IOp

pub data ShiftOp : Type 0 where
  slli srli srai : ShiftOp

pub data LoadOp : Type 0 where
  lb lh lw lbu lhu : LoadOp

pub data StoreOp : Type 0 where
  sb sh sw : StoreOp

pub data BranchOp : Type 0 where
  beq bne blt bge bltu bgeu : BranchOp

-- An instruction: the destination comes first; immediates are sign-extended bit patterns.
pub data Instr : Type 0 where
  reg : ROp → ℕ → ℕ → ℕ → Instr
  imm : IOp → ℕ → ℕ → ℕ → Instr
  shift : ShiftOp → ℕ → ℕ → ℕ → Instr
  load : LoadOp → ℕ → ℕ → ℕ → Instr
  store : StoreOp → ℕ → ℕ → ℕ → Instr
  branch : BranchOp → ℕ → ℕ → ℕ → Instr
  jal lui auipc : ℕ → ℕ → Instr
  jalr : ℕ → ℕ → ℕ → Instr
  ecall : Instr

-- The register operation of `funct3` and `funct7`.
unfoldable pub reg_op : ℕ → ℕ → Option ROp
reg_op f3 f7 =
    if f7 == 0
    then (if f3 == 0
        then some add
        else if f3 == 1
        then some sll
        else if f3 == 2
        then some slt
        else if f3 == 3
        then some sltu
        else if f3 == 4
        then some xor
        else if f3 == 5
        then some srl
        else if f3 == 6
        then some or
        else some and)
    else if f7 == 32
    then (if f3 == 0 then some sub else if f3 == 5 then some sra else none)
    else if f7 == 1
    then (if f3 == 0
        then some mul
        else if f3 == 4
        then some div
        else if f3 == 6
        then some rem
        else none)
    else none

unfoldable pub load_op : ℕ → Option LoadOp
load_op f3 =
    if f3 == 0
    then some lb
    else if f3 == 1
    then some lh
    else if f3 == 2
    then some lw
    else if f3 == 4
    then some lbu
    else if f3 == 5
    then some lhu
    else none

unfoldable pub store_op : ℕ → Option StoreOp
store_op f3 =
    if f3 == 0 then some sb else if f3 == 1 then some sh else if f3 == 2 then some sw else none

unfoldable pub branch_op : ℕ → Option BranchOp
branch_op f3 =
    if f3 == 0
    then some beq
    else if f3 == 1
    then some bne
    else if f3 == 4
    then some blt
    else if f3 == 5
    then some bge
    else if f3 == 6
    then some bltu
    else if f3 == 7
    then some bgeu
    else none

-- An operation with an immediate; the shifts keep `funct7` beside their amount.
unfoldable pub imm_instr : ℕ → ℕ → ℕ → ℕ → ℕ → ℕ → Option Instr
imm_instr f3 f7 d s1 amount i =
    if f3 == 0
    then some (imm addi d s1 i)
    else if f3 == 1
    then (if f7 == 0 then some (shift slli d s1 amount) else none)
    else if f3 == 2
    then some (imm slti d s1 i)
    else if f3 == 3
    then some (imm sltiu d s1 i)
    else if f3 == 4
    then some (imm xori d s1 i)
    else if f3 == 5
    then (if f7 == 0
        then some (shift srli d s1 amount)
        else if f7 == 32
        then some (shift srai d s1 amount)
        else none)
    else if f3 == 6
    then some (imm ori d s1 i)
    else some (imm andi d s1 i)

-- The instruction of the fields.
unfoldable pub from_fields : ℕ → ℕ → ℕ → ℕ → Option Instr
from_fields op f3 f7 w =
    if op == 51
    then (reg_op f3 f7 >>= λ o. some (reg o (rd w) (rs1 w) (rs2 w)))
    else if op == 19
    then imm_instr f3 f7 (rd w) (rs1 w) (rs2 w) (imm_I w)
    else if op == 3
    then (load_op f3 >>= λ o. some (load o (rd w) (rs1 w) (imm_I w)))
    else if op == 35
    then (store_op f3 >>= λ o. some (store o (rs2 w) (rs1 w) (imm_S w)))
    else if op == 99
    then (branch_op f3 >>= λ o. some (branch o (rs1 w) (rs2 w) (imm_B w)))
    else if op == 111
    then some (jal (rd w) (imm_J w))
    else if op == 103
    then (if f3 == 0 then some (jalr (rd w) (rs1 w) (imm_I w)) else none)
    else if op == 55
    then some (lui (rd w) (imm_U w))
    else if op == 23
    then some (auipc (rd w) (imm_U w))
    else if op == 115
    then (if w == 115 then some ecall else none)
    else none

unfoldable pub decode : ℕ → Option Instr
decode w = from_fields (opcode w) (funct3 w) (funct7 w) w
