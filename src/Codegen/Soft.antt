-- ===== src/Codegen/Soft.antt =====
-- src/riscv-codegen.c: the words that stand for a multiplication, a division and a remainder where
-- the hardware has none.
use shecc.Prelude.{ℕ, some, [], ◌∷◌, neg32}
use shecc.Words.{Code}
use shecc.Riscv.Asm
use shecc.Riscv.Reg

-- The multiplication in software.
unfoldable pub soft_mul : ℕ → ℕ → ℕ → Code
soft_mul rd rs1 rs2 =
    Asm.addi Reg.t0 Reg.zero 0
    ∷ Asm.addi Reg.t1 Reg.zero 0
    ∷ Asm.addi Reg.t3 rs1 0
    ∷ Asm.addi Reg.t4 rs2 0
    ∷ Asm.beq Reg.t3 Reg.zero 32
    ∷ Asm.beq Reg.t4 Reg.zero 28
    ∷ Asm.andi Reg.t1 Reg.t4 1
    ∷ Asm.beq Reg.t1 Reg.zero 8
    ∷ some (Asm.add Reg.t0 Reg.t0 Reg.t3)
    ∷ Asm.slli Reg.t3 Reg.t3 1
    ∷ Asm.srli Reg.t4 Reg.t4 1
    ∷ Asm.jal Reg.zero (neg32 28)
    ∷ Asm.addi rd Reg.t0 0
    ∷ []

-- Division and remainder in software: `interm` holds the result, and `divisor_mask` is zero for the
-- remainder, whose sign is the dividend's.
unfoldable pub soft_div : ℕ → ℕ → ℕ → ℕ → ℕ → Code
soft_div interm divisor_mask rd rs1 rs2 =
    Asm.addi Reg.t2 rs1 0
    ∷ Asm.addi Reg.t3 rs2 0
    ∷ Asm.srai Reg.t0 Reg.t2 31
    ∷ some (Asm.add Reg.t2 Reg.t2 Reg.t0)
    ∷ some (Asm.xor Reg.t2 Reg.t2 Reg.t0)
    ∷ Asm.srai Reg.t1 Reg.t3 31
    ∷ some (Asm.add Reg.t3 Reg.t3 Reg.t1)
    ∷ some (Asm.xor Reg.t3 Reg.t3 Reg.t1)
    ∷ some (Asm.xor Reg.t5 Reg.t0 divisor_mask)
    ∷ Asm.addi Reg.t0 Reg.zero 0
    ∷ Asm.addi Reg.t1 Reg.zero 1
    ∷ Asm.beq Reg.t3 Reg.zero 52
    ∷ Asm.beq Reg.t2 Reg.zero 48
    ∷ Asm.beq Reg.t2 Reg.t3 20
    ∷ Asm.bltu Reg.t2 Reg.t3 16
    ∷ Asm.slli Reg.t3 Reg.t3 1
    ∷ Asm.slli Reg.t1 Reg.t1 1
    ∷ Asm.jal Reg.zero (neg32 16)
    ∷ Asm.bltu Reg.t2 Reg.t3 12
    ∷ some (Asm.sub Reg.t2 Reg.t2 Reg.t3)
    ∷ some (Asm.add Reg.t0 Reg.t0 Reg.t1)
    ∷ Asm.srli Reg.t1 Reg.t1 1
    ∷ Asm.srli Reg.t3 Reg.t3 1
    ∷ Asm.bne Reg.t1 Reg.zero (neg32 20)
    ∷ Asm.addi rd interm 0
    ∷ Asm.beq Reg.t5 Reg.zero 8
    ∷ some (Asm.sub rd Reg.zero rd)
    ∷ []
