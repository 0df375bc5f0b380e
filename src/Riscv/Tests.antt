-- ===== src/Riscv/Tests.antt =====
-- Runs of src/riscv.c, and each theorem on the words at a concrete instruction.
use shecc.Prelude.{◌^◌, ◌-◌, ◌≡◌, refl, arith, inr, some, ◌>>=◌}
use shecc.Riscv.Isa.{StoreOp, BranchOp, Instr, decode}
use shecc.Riscv.{encode_R, encode_I, fold_offset}
use shecc.Riscv.Op.{code}
use shecc.Riscv.Asm
use shecc.Riscv.Decoded.Stores.{store_word, decode-store_word}
use shecc.Riscv.Decoded.Branches.{branch_word, decode-branch_word}
use shecc.Riscv.Decoded.Jumps.{decode-jal}

-- `add a0, a1, a2`
add_run : Asm.add 10 11 12 ≡ 0x00c58533
unfolding Asm.add encode_R code
add_run = refl

-- `addi a0, a0, -1`
addi_run : Asm.addi 10 10 (2 ^ 32 - 1) ≡ some 0xfff50513
unfolding Asm.addi encode_I fold_offset code
addi_run = refl

decode-store_word_example :
    (store_word StoreOp.sw 1 2 (2 ^ 32 - 4) >>= decode)
    ≡ some (Instr.store StoreOp.sw 1 2 (2 ^ 32 - 4))
decode-store_word_example =
    decode-store_word StoreOp.sw 1 2 (2 ^ 32 - 4) (omega arith) (omega arith) (inr (omega arith))

decode-branch_word_example :
    (branch_word BranchOp.bne 6 0 (2 ^ 32 - 20) >>= decode)
    ≡ some (Instr.branch BranchOp.bne 6 0 (2 ^ 32 - 20))
decode-branch_word_example =
    decode-branch_word BranchOp.bne 6 0 (2 ^ 32 - 20) (omega arith) (omega arith)
      (inr (omega arith)) refl

decode-jal_example : (Asm.jal 1 (2 ^ 32 - 2 ^ 20) >>= decode) ≡ some (Instr.jal 1 (2 ^ 32 - 2 ^ 20))
decode-jal_example = decode-jal 1 (2 ^ 32 - 2 ^ 20) (omega arith) (inr (omega arith)) refl
