-- ===== src/Riscv/Op.antt =====
-- src/riscv.c: `rv_op`, the fixed part of each instruction word.
use shecc.Prelude.{ℕ}

pub data RvOp : Type 0 where
  rv_add rv_sub rv_xor rv_or rv_and rv_sll rv_srl rv_sra rv_slt rv_sltu rv_addi rv_xori : RvOp
  rv_ori rv_andi rv_slli rv_srli rv_srai rv_slti rv_sltiu rv_sext_b rv_lb rv_lh rv_lw : RvOp
  rv_lbu rv_lhu rv_sb rv_sh rv_sw rv_beq rv_bne rv_blt rv_bge rv_bltu rv_bgeu rv_jal : RvOp
  rv_jalr rv_lui rv_auipc rv_ecall rv_ebreak rv_mul rv_div rv_mod : RvOp

-- The enumerator's value.
unfoldable pub code : RvOp → ℕ
code rv_add = 51
code rv_sub = 1073741875
code rv_xor = 16435
code rv_or = 24627
code rv_and = 28723
code rv_sll = 4147
code rv_srl = 20531
code rv_sra = 1073762355
code rv_slt = 8243
code rv_sltu = 12339
code rv_addi = 19
code rv_xori = 16403
code rv_ori = 24595
code rv_andi = 28691
code rv_slli = 4115
code rv_srli = 20499
code rv_srai = 1073762323
code rv_slti = 8211
code rv_sltiu = 12307
code rv_sext_b = 1614811155
code rv_lb = 3
code rv_lh = 4099
code rv_lw = 8195
code rv_lbu = 16387
code rv_lhu = 20483
code rv_sb = 35
code rv_sh = 4131
code rv_sw = 8227
code rv_beq = 99
code rv_bne = 4195
code rv_blt = 16483
code rv_bge = 20579
code rv_bltu = 24675
code rv_bgeu = 28771
code rv_jal = 111
code rv_jalr = 103
code rv_lui = 55
code rv_auipc = 23
code rv_ecall = 115
code rv_ebreak = 1048691
code rv_mul = 33554483
code rv_div = 33570867
code rv_mod = 33579059
