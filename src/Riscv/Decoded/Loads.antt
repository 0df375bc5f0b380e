-- ===== src/Riscv/Decoded/Loads.antt =====
-- src/riscv.c: the words of a load, read back by `Isa.decode`.
use shecc.Prelude.{ℕ, ◌<◌, ◌≡◌, refl, arith, Option, some, ◌>>=◌}
use shecc.Riscv.Op.{RvOp, code}
use shecc.Riscv.Isa.{opcode, rd, funct3, rs1, imm_I, LoadOp, Instr, load_op, from_fields, decode}
use shecc.Riscv.Fields.{HasShape, IsSigned, encode_I_word}
use shecc.Riscv.{encode_I}
use shecc.Riscv.Asm
use shecc.Riscv.Decoded.Immediates.{i_word_fields}

abbrev pub load_word : LoadOp → ℕ → ℕ → ℕ → Option ℕ
load_word LoadOp.lb = Asm.lb
load_word LoadOp.lh = Asm.lh
load_word LoadOp.lw = Asm.lw
load_word LoadOp.lbu = Asm.lbu
load_word LoadOp.lhu = Asm.lhu

abbrev pub load_f3 : LoadOp → ℕ
load_f3 LoadOp.lb = 0
load_f3 LoadOp.lh = 1
load_f3 LoadOp.lw = 2
load_f3 LoadOp.lbu = 4
load_f3 LoadOp.lhu = 5

abbrev pub load_code : LoadOp → RvOp
load_code LoadOp.lb = RvOp.rv_lb
load_code LoadOp.lh = RvOp.rv_lh
load_code LoadOp.lw = RvOp.rv_lw
load_code LoadOp.lbu = RvOp.rv_lbu
load_code LoadOp.lhu = RvOp.rv_lhu

load-HasShape : (o : LoadOp) → HasShape (load_code o) 3 (load_f3 o) 0
unfolding code
load-HasShape LoadOp.lb = omega arith
load-HasShape _ = omega arith

load_op_lem : (o : LoadOp) → load_op (load_f3 o) ≡ some o
unfolding load_op
load_op_lem LoadOp.lb = refl
load_op_lem _ = refl

load_word_lem : (o : LoadOp) (d s1 v : ℕ) → load_word o d s1 v ≡ encode_I (load_code o) d s1 v
unfolding Asm.lb Asm.lh Asm.lw Asm.lbu Asm.lhu
load_word_lem LoadOp.lb d s1 v = refl
load_word_lem _ d s1 v = refl

decode_load :
    (o : LoadOp) (w : ℕ) {d s1 v : ℕ}
    → (opcode w ≡ 3) × (funct3 w ≡ load_f3 o) × (rd w ≡ d) × (rs1 w ≡ s1) × (imm_I w ≡ v)
    → decode w ≡ some (Instr.load o d s1 v)
unfolding decode from_fields
decode_load o w (a, b, c, d, e) = rw (a, b, c, d, e, load_op_lem o)

-- For registers below 32, a load with an offset from -2048 to 2047 is encoded, and its word is
-- decoded as that load.
pub decode-load_word :
    (o : LoadOp) (d s1 v : ℕ)
    → d < 32
    → s1 < 32
    → IsSigned 11 v
    → (load_word o d s1 v >>= decode) ≡ some (Instr.load o d s1 v)
decode-load_word o d s1 v hd h1 hv =
    let s = load-HasShape o in
    rw (load_word_lem o d s1 v, encode_I_word (load_code o) d s1 0 v hd h1 (omega arith) s hv)
      (decode_load o _ (i_word_fields 3 (load_f3 o) d s1 v (omega arith) s.2 hd h1 hv))
