-- ===== src/Arm.antt =====
-- src/arm.c: the ARM instruction words. Registers, conditions and immediates are C `int`s, so bit
-- patterns below 2 ^ 32; a sum of fields wraps as the C sum does. `none` is a call of `fatal`.
pub mod Op
pub mod Asm
pub mod Fields
mod Tests
use shecc.Prelude.{
  ℕ, zero, suc, ◌+◌, ◌-◌, ◌<◌, Bool, ◌||◌, not, Option, none, some, bit_and, bit_or, add32, sub32,
  neg32, is_neg, shl32, sar32, slt32, ltb, ◌==◌, if◌then◌else◌, ◌>>=◌,
}
use shecc.Ir.{Opcode}
use Op

-- The condition under which a comparison holds.
unfoldable pub get_cond : Opcode → Option ℕ
get_cond Opcode.eq = some Op.eq
get_cond Opcode.neq = some Op.ne
get_cond Opcode.lt = some Op.lt
get_cond Opcode.geq = some Op.ge
get_cond Opcode.gt = some Op.gt
get_cond Opcode.leq = some Op.le
get_cond _ = none

-- The copy of the bits `i_start..i_end` of `imm` to `d_start..d_end`. The bounds are constants
-- at every call; the test of the two lengths is written without a subtraction.
unfoldable pub extract_bits : ℕ → ℕ → ℕ → ℕ → ℕ → Option ℕ
extract_bits imm i_start i_end d_start d_end =
    if not (d_end + i_start == i_end + d_start) || ltb i_end i_start || ltb d_end d_start
    then none
    else let v = sar32 imm i_start in
      let v' = bit_and v (sub32 (shl32 2 (i_end - i_start)) 1) in some (shl32 v' d_start)

unfoldable pub encode : ℕ → ℕ → ℕ → ℕ → ℕ → ℕ
encode cond opcode rn rd op2 =
    add32 (add32 (add32 (add32 (shl32 cond 28) (shl32 opcode 20)) (shl32 rn 16)) (shl32 rd 12)) op2

-- `while ((op2 & 3) == 0) { op2 >>= 2; shift -= 1; }` with fuel: the rotated operand and its shift.
unfoldable pub rotate_loop : ℕ → ℕ → ℕ → ℕ × ℕ
rotate_loop zero op2 shift = (op2, shift)
rotate_loop (suc fuel) op2 shift =
    let rest = rotate_loop fuel (sar32 op2 2) (sub32 shift 1) in
    if bit_and op2 3 == 0 then rest else (op2, shift)

-- The word of a data-processing instruction; a positive `int` is shifted 15 times at most.
unfoldable pub mov : ℕ → ℕ → ℕ → ℕ → ℕ → ℕ → ℕ → Option ℕ
mov cond io opcode s rn rd op2 =
    let word : ℕ → ℕ → ℕ = λ v shift.
      encode cond (add32 (add32 s (shl32 opcode 1)) (shl32 io 5)) rn rd
        (add32 (shl32 shift 8) (bit_and v 255)) in
    let (v, shift) = rotate_loop 16 op2 16 in
    if slt32 255 op2 then (if slt32 255 v then none else some (word v shift)) else some (word op2 0)

-- `LDRSH` and `STRH`.
unfoldable pub halfword_transfer : ℕ → ℕ → ℕ → ℕ → ℕ → ℕ → Option ℕ
halfword_transfer cond l rn rd ofs signed_op =
    let opcode = add32 28 l in
    let opcode' = if is_neg ofs then sub32 opcode 8 else opcode in
    let ofs' = if is_neg ofs then neg32 ofs else ofs in
    if slt32 255 ofs'
    then none
    else let imm4h = shl32 (bit_and (sar32 ofs' 4) 0xF) 8 in
      let imm4l = bit_and ofs' 0xF in
      let encoded_ofs = bit_or (bit_or (bit_or imm4h 0xB0) imm4l) (shl32 signed_op 6) in
      some (encode cond opcode' rn rd encoded_ofs)

unfoldable pub transfer : ℕ → ℕ → ℕ → ℕ → ℕ → ℕ → ℕ
transfer cond l size rn rd ofs =
    let opcode = add32 88 l in
    let opcode' = if size == 1 then add32 opcode 4 else opcode in
    let opcode'' = if is_neg ofs then sub32 opcode' 8 else opcode' in
    let ofs' = if is_neg ofs then neg32 ofs else ofs in
    encode cond opcode'' rn rd (bit_and ofs' 4095)
