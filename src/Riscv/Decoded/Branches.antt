-- ===== src/Riscv/Decoded/Branches.antt =====
-- src/riscv.c: the words of a branch, read back by `Isa.decode`.
use shecc.Prelude.{ℕ, ◌+◌, ◌*◌, ◌/◌, ◌%◌, ◌^◌, ◌<◌, ◌≡◌, refl, arith, Option, some, ◌>>=◌}
use shecc.Riscv.Op.{RvOp, code}
use shecc.Riscv.Isa.{
  opcode, funct3, rs1, rs2, imm_B, BranchOp, Instr, branch_op, from_fields, decode,
}
use shecc.Riscv.Fields.{HasShape, IsSigned, s_word, encode_B_word}
use shecc.Riscv.{encode_B}
use shecc.Riscv.Asm

abbrev pub branch_word : BranchOp → ℕ → ℕ → ℕ → Option ℕ
branch_word BranchOp.beq = Asm.beq
branch_word BranchOp.bne = Asm.bne
branch_word BranchOp.blt = Asm.blt
branch_word BranchOp.bge = Asm.bge
branch_word BranchOp.bltu = Asm.bltu
branch_word BranchOp.bgeu = Asm.bgeu

abbrev pub branch_f3 : BranchOp → ℕ
branch_f3 BranchOp.beq = 0
branch_f3 BranchOp.bne = 1
branch_f3 BranchOp.blt = 4
branch_f3 BranchOp.bge = 5
branch_f3 BranchOp.bltu = 6
branch_f3 BranchOp.bgeu = 7

abbrev pub branch_code : BranchOp → RvOp
branch_code BranchOp.beq = RvOp.rv_beq
branch_code BranchOp.bne = RvOp.rv_bne
branch_code BranchOp.blt = RvOp.rv_blt
branch_code BranchOp.bge = RvOp.rv_bge
branch_code BranchOp.bltu = RvOp.rv_bltu
branch_code BranchOp.bgeu = RvOp.rv_bgeu

branch-HasShape : (o : BranchOp) → HasShape (branch_code o) 99 (branch_f3 o) 0
unfolding code
branch-HasShape BranchOp.beq = omega arith
branch-HasShape _ = omega arith

branch_op_lem : (o : BranchOp) → branch_op (branch_f3 o) ≡ some o
unfolding branch_op
branch_op_lem BranchOp.beq = refl
branch_op_lem _ = refl

branch_word_lem :
    (o : BranchOp) (s1 s2 v : ℕ) → branch_word o s1 s2 v ≡ encode_B (branch_code o) s1 s2 v
unfolding Asm.beq Asm.bne Asm.blt Asm.bge Asm.bltu Asm.bgeu
branch_word_lem BranchOp.beq s1 s2 v = refl
branch_word_lem _ s1 s2 v = refl

decode_branch :
    (o : BranchOp) (w : ℕ) {s1 s2 v : ℕ}
    → (opcode w ≡ 99) × (funct3 w ≡ branch_f3 o) × (rs1 w ≡ s1) × (rs2 w ≡ s2) × (imm_B w ≡ v)
    → decode w ≡ some (Instr.branch o s1 s2 v)
unfolding decode from_fields
decode_branch o w (a, b, c, d, e) = rw (a, b, c, d, e, branch_op_lem o)

b_word_fields :
    (o f3 s1 s2 v : ℕ)
    → o < 128
    → f3 < 8
    → s1 < 32
    → s2 < 32
    → IsSigned 12 v
    → v % 2 ≡ 0
    → let w =
        s_word o f3 s1 s2 (v / 2 ^ 11 % 2 + v / 2 % 16 * 2) (v / 2 ^ 5 % 64 + v / 2 ^ 31 * 64) in
      (opcode w ≡ o) × (funct3 w ≡ f3) × (rs1 w ≡ s1) × (rs2 w ≡ s2) × (imm_B w ≡ v)
b_word_fields o f3 s1 s2 v ho h3 h1 h2 hv even =
    (omega arith, omega arith, omega arith, omega arith, ground arith)

-- For registers below 32, a conditional branch over an even distance from -4096 to 4094 is
-- encoded, and its word is decoded as that branch.
pub decode-branch_word :
    (o : BranchOp) (s1 s2 v : ℕ)
    → s1 < 32
    → s2 < 32
    → IsSigned 12 v
    → v % 2 ≡ 0
    → (branch_word o s1 s2 v >>= decode) ≡ some (Instr.branch o s1 s2 v)
decode-branch_word o s1 s2 v h1 h2 hv even =
    let s = branch-HasShape o in
    rw (branch_word_lem o s1 s2 v, encode_B_word (branch_code o) 0 s1 s2 v (omega arith) h1 h2 s hv)
      (decode_branch o _ (b_word_fields 99 (branch_f3 o) s1 s2 v (omega arith) s.2 h1 h2 hv even))
