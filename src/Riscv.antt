-- ===== src/Riscv.antt =====
-- src/riscv.c: the RISC-V instruction words. A register and an immediate are C `int`s, so bit
-- patterns below 2 ^ 32; a sum of fields wraps as the C sum does. `none` is a call of `fatal`.
pub mod Op
pub mod Reg
pub mod Asm
pub mod Isa
pub mod Fields
pub mod Decoded
pub mod Immediate
pub mod Machine
mod Tests
use shecc.Prelude.{
  ℕ, ◌+◌, ◌-◌, ◌<◌, Bool, ◌||◌, not, Option, none, some, bit_and, add32, sub32, neg32, is_neg,
  shl32, sar32, slt32, bool_word, ltb, ◌==◌, if◌then◌else◌, ◌>>=◌,
}
use Op.{RvOp, code}

-- The copy of the bits `i_start..i_end` of `imm` to `d_start..d_end`. The bounds are constants
-- at every call; the test of the two lengths is written without a subtraction.
unfoldable pub extract_bits : ℕ → ℕ → ℕ → ℕ → ℕ → Option ℕ
extract_bits imm i_start i_end d_start d_end =
    if not (d_end + i_start == i_end + d_start) || ltb i_end i_start || ltb d_end d_start
    then none
    else let v = sar32 imm i_start in
      let v' = bit_and v (sub32 (shl32 2 (i_end - i_start)) 1) in some (shl32 v' d_start)

unfoldable pub hi : ℕ → ℕ
hi val = add32 val (shl32 (bit_and val (shl32 1 11)) 1)

unfoldable pub lo : ℕ → ℕ
lo val = sub32 (bit_and val 0xFFF) (shl32 (bit_and val (shl32 1 11)) 1)

unfoldable pub encode_R : RvOp → ℕ → ℕ → ℕ → ℕ
encode_R op rd rs1 rs2 = add32 (add32 (add32 (code op) (shl32 rd 7)) (shl32 rs1 15)) (shl32 rs2 20)

-- What `encode_I` and `encode_S` make of a negative offset.
unfoldable pub fold_offset : ℕ → ℕ
fold_offset imm = if is_neg imm then bit_and (add32 imm 4096) (sub32 (shl32 1 13) 1) else imm

unfoldable pub encode_I : RvOp → ℕ → ℕ → ℕ → Option ℕ
encode_I op rd rs1 imm =
    if slt32 2047 imm || slt32 imm (neg32 2048)
    then none
    else let imm' = fold_offset imm in
      some (add32 (add32 (add32 (code op) (shl32 rd 7)) (shl32 rs1 15)) (shl32 imm' 20))

unfoldable pub encode_S : RvOp → ℕ → ℕ → ℕ → Option ℕ
encode_S op rs1 rs2 imm =
    if slt32 2047 imm || slt32 imm (neg32 2048)
    then none
    else let imm' = fold_offset imm in
      do
        low ← extract_bits imm' 0 4 7 11
        high ← extract_bits imm' 5 11 25 31
        some (add32 (add32 (add32 (add32 (code op) (shl32 rs1 15)) (shl32 rs2 20)) low) high)

unfoldable pub encode_B : RvOp → ℕ → ℕ → ℕ → Option ℕ
encode_B op rs1 rs2 imm =
    if slt32 4095 imm || slt32 imm (neg32 4096)
    then none
    else let sign = bool_word (is_neg imm) in
      let start = add32 (add32 (code op) (shl32 rs1 15)) (shl32 rs2 20) in
      do
        bit_11 ← extract_bits imm 11 11 7 7
        bits_1_4 ← extract_bits imm 1 4 8 11
        bits_5_10 ← extract_bits imm 5 10 25 30
        some (add32 (add32 (add32 (add32 start bit_11) bits_1_4) bits_5_10) (shl32 sign 31))

-- No range is tested here.
unfoldable pub encode_J : RvOp → ℕ → ℕ → Option ℕ
encode_J op rd imm =
    let sign = is_neg imm in
    let imm' = if sign then sub32 (shl32 1 21) (neg32 imm) else imm in
    let start = add32 (code op) (shl32 rd 7) in
    do
      bits_1_10 ← extract_bits imm' 1 10 21 30
      bit_11 ← extract_bits imm' 11 11 20 20
      bits_12_19 ← extract_bits imm' 12 19 12 19
      some (
          add32 (add32 (add32 (add32 start bits_1_10) bit_11) bits_12_19)
            (shl32 (bool_word sign) 31))

unfoldable pub encode_U : RvOp → ℕ → ℕ → Option ℕ
encode_U op rd imm = do
  upper ← extract_bits imm 12 31 12 31
  some (add32 (add32 (code op) (shl32 rd 7)) upper)
