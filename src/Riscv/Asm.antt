-- ===== src/Riscv/Asm.antt =====
-- src/riscv.c: the mnemonics. The argument order is the source's, also where it differs from the
-- order of the encoder. `rem` is the source's `__mod`.
use shecc.Prelude.{ℕ, Option}
use shecc.Riscv.Op.{RvOp}
use shecc.Riscv.{encode_R, encode_I, encode_S, encode_B, encode_J, encode_U}

unfoldable pub add : ℕ → ℕ → ℕ → ℕ
add rd rs1 rs2 = encode_R RvOp.rv_add rd rs1 rs2

unfoldable pub sub : ℕ → ℕ → ℕ → ℕ
sub rd rs1 rs2 = encode_R RvOp.rv_sub rd rs1 rs2

unfoldable pub xor : ℕ → ℕ → ℕ → ℕ
xor rd rs1 rs2 = encode_R RvOp.rv_xor rd rs1 rs2

unfoldable pub or : ℕ → ℕ → ℕ → ℕ
or rd rs1 rs2 = encode_R RvOp.rv_or rd rs1 rs2

unfoldable pub and : ℕ → ℕ → ℕ → ℕ
and rd rs1 rs2 = encode_R RvOp.rv_and rd rs1 rs2

unfoldable pub sll : ℕ → ℕ → ℕ → ℕ
sll rd rs1 rs2 = encode_R RvOp.rv_sll rd rs1 rs2

unfoldable pub srl : ℕ → ℕ → ℕ → ℕ
srl rd rs1 rs2 = encode_R RvOp.rv_srl rd rs1 rs2

unfoldable pub sra : ℕ → ℕ → ℕ → ℕ
sra rd rs1 rs2 = encode_R RvOp.rv_sra rd rs1 rs2

unfoldable pub slt : ℕ → ℕ → ℕ → ℕ
slt rd rs1 rs2 = encode_R RvOp.rv_slt rd rs1 rs2

unfoldable pub sltu : ℕ → ℕ → ℕ → ℕ
sltu rd rs1 rs2 = encode_R RvOp.rv_sltu rd rs1 rs2

unfoldable pub addi : ℕ → ℕ → ℕ → Option ℕ
addi rd rs1 imm = encode_I RvOp.rv_addi rd rs1 imm

unfoldable pub xori : ℕ → ℕ → ℕ → Option ℕ
xori rd rs1 imm = encode_I RvOp.rv_xori rd rs1 imm

unfoldable pub ori : ℕ → ℕ → ℕ → Option ℕ
ori rd rs1 imm = encode_I RvOp.rv_ori rd rs1 imm

unfoldable pub andi : ℕ → ℕ → ℕ → Option ℕ
andi rd rs1 imm = encode_I RvOp.rv_andi rd rs1 imm

unfoldable pub slli : ℕ → ℕ → ℕ → Option ℕ
slli rd rs1 imm = encode_I RvOp.rv_slli rd rs1 imm

unfoldable pub srli : ℕ → ℕ → ℕ → Option ℕ
srli rd rs1 imm = encode_I RvOp.rv_srli rd rs1 imm

unfoldable pub srai : ℕ → ℕ → ℕ → Option ℕ
srai rd rs1 imm = encode_I RvOp.rv_srai rd rs1 imm

unfoldable pub slti : ℕ → ℕ → ℕ → Option ℕ
slti rd rs1 imm = encode_I RvOp.rv_slti rd rs1 imm

unfoldable pub sltiu : ℕ → ℕ → ℕ → Option ℕ
sltiu rd rs1 imm = encode_I RvOp.rv_sltiu rd rs1 imm

unfoldable pub lb : ℕ → ℕ → ℕ → Option ℕ
lb rd rs1 imm = encode_I RvOp.rv_lb rd rs1 imm

unfoldable pub lh : ℕ → ℕ → ℕ → Option ℕ
lh rd rs1 imm = encode_I RvOp.rv_lh rd rs1 imm

unfoldable pub lw : ℕ → ℕ → ℕ → Option ℕ
lw rd rs1 imm = encode_I RvOp.rv_lw rd rs1 imm

unfoldable pub lbu : ℕ → ℕ → ℕ → Option ℕ
lbu rd rs1 imm = encode_I RvOp.rv_lbu rd rs1 imm

unfoldable pub lhu : ℕ → ℕ → ℕ → Option ℕ
lhu rd rs1 imm = encode_I RvOp.rv_lhu rd rs1 imm

unfoldable pub sb : ℕ → ℕ → ℕ → Option ℕ
sb rd rs1 imm = encode_S RvOp.rv_sb rs1 rd imm

unfoldable pub sh : ℕ → ℕ → ℕ → Option ℕ
sh rd rs1 imm = encode_S RvOp.rv_sh rs1 rd imm

unfoldable pub sw : ℕ → ℕ → ℕ → Option ℕ
sw rd rs1 imm = encode_S RvOp.rv_sw rs1 rd imm

unfoldable pub beq : ℕ → ℕ → ℕ → Option ℕ
beq rs1 rs2 imm = encode_B RvOp.rv_beq rs1 rs2 imm

unfoldable pub bne : ℕ → ℕ → ℕ → Option ℕ
bne rs1 rs2 imm = encode_B RvOp.rv_bne rs1 rs2 imm

unfoldable pub blt : ℕ → ℕ → ℕ → Option ℕ
blt rs1 rs2 imm = encode_B RvOp.rv_blt rs1 rs2 imm

unfoldable pub bge : ℕ → ℕ → ℕ → Option ℕ
bge rs1 rs2 imm = encode_B RvOp.rv_bge rs1 rs2 imm

unfoldable pub bltu : ℕ → ℕ → ℕ → Option ℕ
bltu rs1 rs2 imm = encode_B RvOp.rv_bltu rs1 rs2 imm

unfoldable pub bgeu : ℕ → ℕ → ℕ → Option ℕ
bgeu rs1 rs2 imm = encode_B RvOp.rv_bgeu rs1 rs2 imm

unfoldable pub jal : ℕ → ℕ → Option ℕ
jal rd imm = encode_J RvOp.rv_jal rd imm

unfoldable pub jalr : ℕ → ℕ → ℕ → Option ℕ
jalr rd rs1 imm = encode_I RvOp.rv_jalr rd rs1 imm

unfoldable pub lui : ℕ → ℕ → Option ℕ
lui rd imm = encode_U RvOp.rv_lui rd imm

unfoldable pub auipc : ℕ → ℕ → Option ℕ
auipc rd imm = encode_U RvOp.rv_auipc rd imm

unfoldable pub ecall : Option ℕ
ecall = encode_I RvOp.rv_ecall 0 0 0

unfoldable pub mul : ℕ → ℕ → ℕ → ℕ
mul rd rs1 rs2 = encode_R RvOp.rv_mul rd rs1 rs2

unfoldable pub div : ℕ → ℕ → ℕ → ℕ
div rd rs1 rs2 = encode_R RvOp.rv_div rd rs1 rs2

unfoldable pub rem : ℕ → ℕ → ℕ → ℕ
rem rd rs1 rs2 = encode_R RvOp.rv_mod rd rs1 rs2

unfoldable pub sext_b : ℕ → ℕ → Option ℕ
sext_b rd rs = encode_I RvOp.rv_sext_b rd rs 0
