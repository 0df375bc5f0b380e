-- ===== src/Riscv/Decoded/Registers.antt =====
-- src/riscv.c: the words of three registers, read back by `Isa.decode`.
use shecc.Prelude.{ℕ, ◌<◌, ◌≡◌, refl, arith, some}
use shecc.Riscv.Op.{RvOp, code}
use shecc.Riscv.Isa.{opcode, rd, funct3, rs1, rs2, funct7, ROp, Instr, reg_op, from_fields, decode}
use shecc.Riscv.Fields.{HasShape, encode_R_fields}
use shecc.Riscv.{encode_R}
use shecc.Riscv.Asm

abbrev pub reg_word : ROp → ℕ → ℕ → ℕ → ℕ
reg_word ROp.add = Asm.add
reg_word ROp.sub = Asm.sub
reg_word ROp.sll = Asm.sll
reg_word ROp.slt = Asm.slt
reg_word ROp.sltu = Asm.sltu
reg_word ROp.xor = Asm.xor
reg_word ROp.srl = Asm.srl
reg_word ROp.sra = Asm.sra
reg_word ROp.or = Asm.or
reg_word ROp.and = Asm.and
reg_word ROp.mul = Asm.mul
reg_word ROp.div = Asm.div
reg_word ROp.rem = Asm.rem

abbrev pub reg_f3 : ROp → ℕ
reg_f3 ROp.add = 0
reg_f3 ROp.sub = 0
reg_f3 ROp.sll = 1
reg_f3 ROp.slt = 2
reg_f3 ROp.sltu = 3
reg_f3 ROp.xor = 4
reg_f3 ROp.srl = 5
reg_f3 ROp.sra = 5
reg_f3 ROp.or = 6
reg_f3 ROp.and = 7
reg_f3 ROp.mul = 0
reg_f3 ROp.div = 4
reg_f3 ROp.rem = 6

abbrev pub reg_f7 : ROp → ℕ
reg_f7 ROp.add = 0
reg_f7 ROp.sub = 32
reg_f7 ROp.sll = 0
reg_f7 ROp.slt = 0
reg_f7 ROp.sltu = 0
reg_f7 ROp.xor = 0
reg_f7 ROp.srl = 0
reg_f7 ROp.sra = 32
reg_f7 ROp.or = 0
reg_f7 ROp.and = 0
reg_f7 ROp.mul = 1
reg_f7 ROp.div = 1
reg_f7 ROp.rem = 1

abbrev pub reg_code : ROp → RvOp
reg_code ROp.add = RvOp.rv_add
reg_code ROp.sub = RvOp.rv_sub
reg_code ROp.sll = RvOp.rv_sll
reg_code ROp.slt = RvOp.rv_slt
reg_code ROp.sltu = RvOp.rv_sltu
reg_code ROp.xor = RvOp.rv_xor
reg_code ROp.srl = RvOp.rv_srl
reg_code ROp.sra = RvOp.rv_sra
reg_code ROp.or = RvOp.rv_or
reg_code ROp.and = RvOp.rv_and
reg_code ROp.mul = RvOp.rv_mul
reg_code ROp.div = RvOp.rv_div
reg_code ROp.rem = RvOp.rv_mod

reg-HasShape : (o : ROp) → HasShape (reg_code o) 51 (reg_f3 o) (reg_f7 o)
unfolding code
reg-HasShape ROp.add = omega arith
reg-HasShape _ = omega arith

reg_op_lem : (o : ROp) → reg_op (reg_f3 o) (reg_f7 o) ≡ some o
unfolding reg_op
reg_op_lem ROp.add = refl
reg_op_lem _ = refl

reg_word_lem : (o : ROp) (d s1 s2 : ℕ) → reg_word o d s1 s2 ≡ encode_R (reg_code o) d s1 s2
unfolding Asm.add Asm.sub Asm.sll Asm.slt Asm.sltu Asm.xor Asm.srl Asm.sra Asm.or Asm.and Asm.mul
    Asm.div Asm.rem
reg_word_lem ROp.add d s1 s2 = refl
reg_word_lem _ d s1 s2 = refl

decode_reg :
    (o : ROp) (w : ℕ) {d s1 s2 : ℕ}
    → (opcode w ≡ 51)
      × (rd w ≡ d)
      × (funct3 w ≡ reg_f3 o)
      × (rs1 w ≡ s1)
      × (rs2 w ≡ s2)
      × (funct7 w ≡ reg_f7 o)
    → decode w ≡ some (Instr.reg o d s1 s2)
unfolding decode from_fields
decode_reg o w (a, b, c, d, e, f) = rw (a, c, f, b, d, e, reg_op_lem o)

-- The word of an operation on three registers below 32 is decoded as that operation on those
-- registers.
pub decode-reg_word :
    (o : ROp) (d s1 s2 : ℕ)
    → d < 32
    → s1 < 32
    → s2 < 32
    → decode (reg_word o d s1 s2) ≡ some (Instr.reg o d s1 s2)
decode-reg_word o d s1 s2 hd h1 h2 =
    rw (reg_word_lem o d s1 s2)
      (decode_reg o _ (encode_R_fields (reg_code o) d s1 s2 (reg-HasShape o) hd h1 h2))
