-- ===== src/Riscv/Decoded/Jumps.antt =====
-- src/riscv.c: the words of jumps, upper immediates, shifts by an amount and `ecall`, read back by
-- `Isa.decode`.
use shecc.Prelude.{ℕ, ◌+◌, ◌*◌, ◌/◌, ◌%◌, ◌^◌, ◌<◌, ◌≡◌, refl, arith, Option, some, IsWord, ◌>>=◌}
use shecc.Riscv.Op.{RvOp, code}
use shecc.Riscv.Isa.{
  opcode, rd, funct3, rs1, rs2, funct7, imm_I, imm_J, imm_U, ShiftOp, Instr, imm_instr, from_fields,
  decode,
}
use shecc.Riscv.Fields.{HasShape, IsSigned, u_word, encode_I_word, encode_J_word, encode_U_word}
use shecc.Riscv.{fold_offset, encode_I}
use shecc.Riscv.Asm
use shecc.Riscv.Decoded.Immediates.{i_word_fields}

abbrev pub shift_word : ShiftOp → ℕ → ℕ → ℕ → Option ℕ
shift_word ShiftOp.slli = Asm.slli
shift_word ShiftOp.srli = Asm.srli
shift_word ShiftOp.srai = Asm.srai

shift_f3 : ShiftOp → ℕ
shift_f3 ShiftOp.slli = 1
shift_f3 ShiftOp.srli = 5
shift_f3 ShiftOp.srai = 5

shift_f7 : ShiftOp → ℕ
shift_f7 ShiftOp.slli = 0
shift_f7 ShiftOp.srli = 0
shift_f7 ShiftOp.srai = 32

shift_word_fields :
    (o : ShiftOp) (d s1 v : ℕ)
    → d < 32
    → s1 < 32
    → v < 32
    → (w : ℕ) × (shift_word o d s1 v ≡ some w)
      × (opcode w ≡ 19)
      × (funct3 w ≡ shift_f3 o)
      × (funct7 w ≡ shift_f7 o)
      × (rd w ≡ d)
      × (rs1 w ≡ s1)
      × (rs2 w ≡ v)
unfolding Asm.slli Asm.srli Asm.srai encode_I fold_offset code shift_f3 shift_f7
shift_word_fields ShiftOp.slli d s1 v hd h1 hv = (
  4115 + d * 2 ^ 7 + s1 * 2 ^ 15 + v * 2 ^ 20,
  ground arith,
  omega arith,
  omega arith,
  omega arith,
  omega arith,
  omega arith,
  omega arith,
)
shift_word_fields ShiftOp.srli d s1 v hd h1 hv = (
  20499 + d * 2 ^ 7 + s1 * 2 ^ 15 + v * 2 ^ 20,
  ground arith,
  omega arith,
  omega arith,
  omega arith,
  omega arith,
  omega arith,
  omega arith,
)
shift_word_fields ShiftOp.srai d s1 v hd h1 hv = (
  1073762323 + d * 2 ^ 7 + s1 * 2 ^ 15 + v * 2 ^ 20,
  ground arith,
  omega arith,
  omega arith,
  omega arith,
  omega arith,
  omega arith,
  omega arith,
)

-- For registers below 32, a shift by an amount below 32 is encoded, and its word is decoded as
-- that shift.
pub decode-shift_word :
    (o : ShiftOp) (d s1 v : ℕ)
    → d < 32
    → s1 < 32
    → v < 32
    → (shift_word o d s1 v >>= decode) ≡ some (Instr.shift o d s1 v)
unfolding decode from_fields imm_instr shift_f3 shift_f7
decode-shift_word ShiftOp.slli d s1 v hd h1 hv =
    let (w, e, a, b, c, x, y, z) = shift_word_fields ShiftOp.slli d s1 v hd h1 hv in
    rw (e, a, b, c, x, y, z)
decode-shift_word ShiftOp.srli d s1 v hd h1 hv =
    let (w, e, a, b, c, x, y, z) = shift_word_fields ShiftOp.srli d s1 v hd h1 hv in
    rw (e, a, b, c, x, y, z)
decode-shift_word ShiftOp.srai d s1 v hd h1 hv =
    let (w, e, a, b, c, x, y, z) = shift_word_fields ShiftOp.srai d s1 v hd h1 hv in
    rw (e, a, b, c, x, y, z)

jalr-HasShape : HasShape RvOp.rv_jalr 103 0 0
unfolding code
jalr-HasShape = omega arith

jal-HasShape : HasShape RvOp.rv_jal 111 0 0
unfolding code
jal-HasShape = omega arith

lui-HasShape : HasShape RvOp.rv_lui 55 0 0
unfolding code
lui-HasShape = omega arith

auipc-HasShape : HasShape RvOp.rv_auipc 23 0 0
unfolding code
auipc-HasShape = omega arith

read_jalr :
    (w : ℕ) {d s1 v : ℕ}
    → (opcode w ≡ 103) × (funct3 w ≡ 0) × (rd w ≡ d) × (rs1 w ≡ s1) × (imm_I w ≡ v)
    → decode w ≡ some (Instr.jalr d s1 v)
unfolding decode from_fields
read_jalr w (a, b, c, d, e) = rw (a, b, c, d, e)

-- For registers below 32, an indirect jump with an offset from -2048 to 2047 is encoded, and its
-- word is decoded as that jump.
pub decode-jalr :
    (d s1 v : ℕ)
    → d < 32
    → s1 < 32
    → IsSigned 11 v
    → (Asm.jalr d s1 v >>= decode) ≡ some (Instr.jalr d s1 v)
unfolding Asm.jalr
decode-jalr d s1 v hd h1 hv =
    rw (encode_I_word RvOp.rv_jalr d s1 0 v hd h1 (omega arith) jalr-HasShape hv)
      (read_jalr _ (i_word_fields 103 0 d s1 v (omega arith) (omega arith) hd h1 hv))

u_word_fields :
    (o d v : ℕ)
    → o < 128
    → d < 32
    → IsWord v
    → let w = u_word o d (v / 2 ^ 12) in
      (opcode w ≡ o) × (rd w ≡ d) × (imm_U w ≡ v / 2 ^ 12 * 2 ^ 12)
u_word_fields o d v ho hd hv = (omega arith, omega arith, omega arith)

read_lui :
    (w : ℕ) {d v : ℕ}
    → (opcode w ≡ 55) × (rd w ≡ d) × (imm_U w ≡ v)
    → decode w ≡ some (Instr.lui d v)
unfolding decode from_fields
read_lui w (a, b, c) = rw (a, b, c)

read_auipc :
    (w : ℕ) {d v : ℕ}
    → (opcode w ≡ 23) × (rd w ≡ d) × (imm_U w ≡ v)
    → decode w ≡ some (Instr.auipc d v)
unfolding decode from_fields
read_auipc w (a, b, c) = rw (a, b, c)

-- For a register below 32, `lui` is encoded for every word, and is decoded with the low 12 bits
-- cleared.
pub decode-lui :
    (d v : ℕ)
    → d < 32
    → IsWord v
    → (Asm.lui d v >>= decode) ≡ some (Instr.lui d (v / 2 ^ 12 * 2 ^ 12))
unfolding Asm.lui
decode-lui d v hd hv =
    rw (encode_U_word RvOp.rv_lui d 0 0 v hd (omega arith) (omega arith) lui-HasShape hv)
      (read_lui _ (u_word_fields 55 d v (omega arith) hd hv))

-- For a register below 32, `auipc` is encoded for every word, and is decoded with the low 12 bits
-- cleared.
pub decode-auipc :
    (d v : ℕ)
    → d < 32
    → IsWord v
    → (Asm.auipc d v >>= decode) ≡ some (Instr.auipc d (v / 2 ^ 12 * 2 ^ 12))
unfolding Asm.auipc
decode-auipc d v hd hv =
    rw (encode_U_word RvOp.rv_auipc d 0 0 v hd (omega arith) (omega arith) auipc-HasShape hv)
      (read_auipc _ (u_word_fields 23 d v (omega arith) hd hv))

read_jal :
    (w : ℕ) {d v : ℕ}
    → (opcode w ≡ 111) × (rd w ≡ d) × (imm_J w ≡ v)
    → decode w ≡ some (Instr.jal d v)
unfolding decode from_fields
read_jal w (a, b, c) = rw (a, b, c)

j_word_fields :
    (d v : ℕ)
    → d < 32
    → IsSigned 20 v
    → v % 2 ≡ 0
    → let w =
        u_word 111 d (
          v / 2 ^ 12 % 256 + v / 2 ^ 11 % 2 * 2 ^ 8 + v / 2 % 1024 * 2 ^ 9 + v / 2 ^ 31 * 2 ^ 19) in
      (opcode w ≡ 111) × (rd w ≡ d) × (imm_J w ≡ v)
j_word_fields d v hd hv even = (omega arith, omega arith, ground arith)

-- For a register below 32, a jump over an even distance from -2^20 to 2^20 - 2 is encoded, and its
-- word is decoded as that jump.
pub decode-jal :
    (d v : ℕ) → d < 32 → IsSigned 20 v → v % 2 ≡ 0 → (Asm.jal d v >>= decode) ≡ some (Instr.jal d v)
unfolding Asm.jal
decode-jal d v hd hv even =
    rw (encode_J_word RvOp.rv_jal d 0 0 v hd (omega arith) (omega arith) jal-HasShape hv)
      (read_jal _ (j_word_fields d v hd hv even))

-- The system call reads back.
pub decode-ecall : (Asm.ecall >>= decode) ≡ some Instr.ecall
unfolding Asm.ecall encode_I fold_offset code decode from_fields
decode-ecall = refl
