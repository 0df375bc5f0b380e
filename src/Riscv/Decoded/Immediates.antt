-- ===== src/Riscv/Decoded/Immediates.antt =====
-- src/riscv.c: the words of an immediate, read back by `Isa.decode`.
use shecc.Prelude.{ℕ, ◌%◌, ◌<◌, ◌≡◌, refl, arith, Option, some, ◌>>=◌}
use shecc.Riscv.Op.{RvOp, code}
use shecc.Riscv.Isa.{opcode, rd, funct3, rs1, imm_I, IOp, Instr, imm_instr, from_fields, decode}
use shecc.Riscv.Fields.{HasShape, IsSigned, i_word, encode_I_word}
use shecc.Riscv.{encode_I}
use shecc.Riscv.Asm

abbrev pub imm_word : IOp → ℕ → ℕ → ℕ → Option ℕ
imm_word IOp.addi = Asm.addi
imm_word IOp.slti = Asm.slti
imm_word IOp.sltiu = Asm.sltiu
imm_word IOp.xori = Asm.xori
imm_word IOp.ori = Asm.ori
imm_word IOp.andi = Asm.andi

abbrev pub imm_f3 : IOp → ℕ
imm_f3 IOp.addi = 0
imm_f3 IOp.slti = 2
imm_f3 IOp.sltiu = 3
imm_f3 IOp.xori = 4
imm_f3 IOp.ori = 6
imm_f3 IOp.andi = 7

abbrev pub imm_code : IOp → RvOp
imm_code IOp.addi = RvOp.rv_addi
imm_code IOp.slti = RvOp.rv_slti
imm_code IOp.sltiu = RvOp.rv_sltiu
imm_code IOp.xori = RvOp.rv_xori
imm_code IOp.ori = RvOp.rv_ori
imm_code IOp.andi = RvOp.rv_andi

imm-HasShape : (o : IOp) → HasShape (imm_code o) 19 (imm_f3 o) 0
unfolding code
imm-HasShape IOp.addi = omega arith
imm-HasShape _ = omega arith

imm_word_lem : (o : IOp) (d s1 v : ℕ) → imm_word o d s1 v ≡ encode_I (imm_code o) d s1 v
unfolding Asm.addi Asm.slti Asm.sltiu Asm.xori Asm.ori Asm.andi
imm_word_lem IOp.addi d s1 v = refl
imm_word_lem _ d s1 v = refl

decode_imm :
    (o : IOp) (w : ℕ) {d s1 v : ℕ}
    → (opcode w ≡ 19) × (funct3 w ≡ imm_f3 o) × (rd w ≡ d) × (rs1 w ≡ s1) × (imm_I w ≡ v)
    → decode w ≡ some (Instr.imm o d s1 v)
unfolding decode from_fields imm_instr
decode_imm IOp.addi w (a, b, c, d, e) = rw (a, b, c, d, e)
decode_imm _ w (a, b, c, d, e) = rw (a, b, c, d, e)

pub i_word_fields :
    (o f3 d s1 v : ℕ)
    → o < 128
    → f3 < 8
    → d < 32
    → s1 < 32
    → IsSigned 11 v
    → let w = i_word o f3 d s1 (v % 4096) in
      (opcode w ≡ o) × (funct3 w ≡ f3) × (rd w ≡ d) × (rs1 w ≡ s1) × (imm_I w ≡ v)
i_word_fields o f3 d s1 v ho h3 hd h1 hv =
    (omega arith, omega arith, omega arith, omega arith, ground arith)

-- For registers below 32, an operation with an immediate from -2048 to 2047 is encoded, and its
-- word is decoded as that operation.
pub decode-imm_word :
    (o : IOp) (d s1 v : ℕ)
    → d < 32
    → s1 < 32
    → IsSigned 11 v
    → (imm_word o d s1 v >>= decode) ≡ some (Instr.imm o d s1 v)
decode-imm_word o d s1 v hd h1 hv =
    let s = imm-HasShape o in
    rw (imm_word_lem o d s1 v, encode_I_word (imm_code o) d s1 0 v hd h1 (omega arith) s hv)
      (decode_imm o _ (i_word_fields 19 (imm_f3 o) d s1 v (omega arith) s.2 hd h1 hv))
