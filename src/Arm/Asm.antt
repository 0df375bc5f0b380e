-- ===== src/Arm/Asm.antt =====
-- src/arm.c: the mnemonics. The argument order is the source's.
use shecc.Prelude.{
  ℕ, ◌||◌, not, Bool, Option, none, some, bit_and, bit_or, add32, sub32, neg32, is_neg, shl32,
  sar32, ◌==◌, if◌then◌else◌, ◌>>=◌,
}
use shecc.Arm.{extract_bits, encode, mov, halfword_transfer, transfer}
use shecc.Arm.Op

unfoldable pub svc : ℕ
svc = encode Op.al 240 0 0 0

unfoldable pub and_r : ℕ → ℕ → ℕ → ℕ → Option ℕ
and_r cond rd rs rm = mov cond 0 Op.arm_and 0 rs rd rm

unfoldable pub or_r : ℕ → ℕ → ℕ → ℕ → Option ℕ
or_r cond rd rs rm = mov cond 0 Op.arm_orr 0 rs rd rm

unfoldable pub eor_r : ℕ → ℕ → ℕ → ℕ → Option ℕ
eor_r cond rd rs rm = mov cond 0 Op.arm_eor 0 rs rd rm

unfoldable pub mvn_r : ℕ → ℕ → ℕ → Option ℕ
mvn_r cond rd rm = mov cond 0 Op.arm_mvn 0 0 rd rm

unfoldable pub movw : ℕ → ℕ → ℕ → Option ℕ
movw cond rd imm = do
  low ← extract_bits imm 0 11 0 11
  high ← extract_bits imm 12 15 16 19
  some (add32 (add32 (encode cond 48 0 rd 0) low) high)

unfoldable pub movt : ℕ → ℕ → ℕ → Option ℕ
movt cond rd imm = do
  low ← extract_bits (sar32 imm 16) 0 11 0 11
  high ← extract_bits (sar32 imm 16) 12 15 16 19
  some (add32 (add32 (encode cond 52 0 rd 0) low) high)

unfoldable pub mov_i : ℕ → ℕ → ℕ → Option ℕ
mov_i cond rd imm = mov cond 1 Op.arm_mov 0 0 rd imm

unfoldable pub mov_r : ℕ → ℕ → ℕ → Option ℕ
mov_r cond rd rs = mov cond 0 Op.arm_mov 0 0 rd rs

unfoldable pub srl : ℕ → ℕ → ℕ → ℕ → ℕ
srl cond rd rm rs =
    encode cond (shl32 Op.arm_mov 1) 0 rd (add32 (add32 (add32 rm 16) 32) (shl32 rs 8))

unfoldable pub srl_amt : ℕ → ℕ → ℕ → ℕ → ℕ → ℕ → ℕ
srl_amt cond s shift rd rm amt =
    encode cond (add32 s (shl32 Op.arm_mov 1)) 0 rd (add32 (add32 rm (shl32 shift 5)) (shl32 amt 7))

unfoldable pub sll : ℕ → ℕ → ℕ → ℕ → ℕ
sll cond rd rm rs = encode cond (shl32 Op.arm_mov 1) 0 rd (add32 (add32 rm 16) (shl32 rs 8))

unfoldable pub sll_amt : ℕ → ℕ → ℕ → ℕ → ℕ → ℕ → ℕ
sll_amt cond s shift rd rm amt =
    encode cond (add32 s (shl32 Op.arm_mov 1)) 0 rd (add32 (add32 rm (shl32 shift 5)) (shl32 amt 7))

unfoldable pub sra : ℕ → ℕ → ℕ → ℕ → ℕ
sra cond rd rm rs =
    encode cond (shl32 Op.arm_mov 1) 0 rd
      (add32 (add32 (add32 rm 16) (shl32 Op.arith_rs 5)) (shl32 rs 8))

unfoldable pub add_i : ℕ → ℕ → ℕ → ℕ → Option ℕ
add_i cond rd rs imm =
    if not (is_neg imm)
    then mov cond 1 Op.arm_add 0 rs rd imm
    else mov cond 1 Op.arm_sub 0 rs rd (neg32 imm)

unfoldable pub add_r : ℕ → ℕ → ℕ → ℕ → Option ℕ
add_r cond rd rs ro = mov cond 0 Op.arm_add 0 rs rd ro

unfoldable pub sub_r : ℕ → ℕ → ℕ → ℕ → Option ℕ
sub_r cond rd rs ro = mov cond 0 Op.arm_sub 0 rs rd ro

unfoldable pub and_i : ℕ → ℕ → ℕ → ℕ → Option ℕ
and_i cond rd rs imm = mov cond 1 Op.arm_and 0 rs rd imm

unfoldable pub zero : ℕ → Option ℕ
zero rd = mov_i Op.al rd 0

unfoldable pub lw : ℕ → ℕ → ℕ → ℕ → ℕ
lw cond rd rn ofs = transfer cond 1 4 rn rd ofs

unfoldable pub lb : ℕ → ℕ → ℕ → ℕ → ℕ
lb cond rd rn ofs = transfer cond 1 1 rn rd ofs

unfoldable pub sw : ℕ → ℕ → ℕ → ℕ → ℕ
sw cond rd rn ofs = transfer cond 0 4 rn rd ofs

unfoldable pub sb : ℕ → ℕ → ℕ → ℕ → ℕ
sb cond rd rn ofs = transfer cond 0 1 rn rd ofs

unfoldable pub lh : ℕ → ℕ → ℕ → ℕ → Option ℕ
lh cond rd rn ofs = halfword_transfer cond 1 rn rd ofs 1

unfoldable pub sh : ℕ → ℕ → ℕ → ℕ → Option ℕ
sh cond rd rn ofs = halfword_transfer cond 0 rn rd ofs 0

unfoldable pub stmdb : ℕ → ℕ → ℕ → ℕ → ℕ
stmdb cond w rn reg_list = encode cond (add32 (add32 Op.arm_stmdb 128) (shl32 w 1)) rn 0 reg_list

unfoldable pub ldm : ℕ → ℕ → ℕ → ℕ → ℕ
ldm cond w rn reg_list = encode cond (add32 (add32 Op.arm_ldm 128) (shl32 w 1)) rn 0 reg_list

unfoldable pub push_reg : ℕ → ℕ → ℕ
push_reg cond rt = encode cond 0x52 0xd rt 0x4

unfoldable pub pop_word : ℕ → ℕ → ℕ
pop_word cond rt = encode cond 0x49 0xd rt 0x4

unfoldable pub b : ℕ → ℕ → ℕ
b cond ofs = add32 (encode cond 160 0 0 0) (bit_and (sar32 (sub32 ofs 8) 2) 16777215)

unfoldable pub bl : ℕ → ℕ → ℕ
bl cond ofs = add32 (encode cond 176 0 0 0) (bit_and (sar32 (sub32 ofs 8) 2) 16777215)

unfoldable pub bx : ℕ → ℕ → ℕ
bx cond rm = bit_or (bit_or (shl32 cond 28) 0x012FFF10) rm

unfoldable pub blx : ℕ → ℕ → ℕ
blx cond rd = encode cond 18 15 15 (add32 rd 3888)

unfoldable pub mul : ℕ → ℕ → ℕ → ℕ → ℕ
mul cond rd r1 r2 = encode cond 0 rd 0 (add32 (add32 (shl32 r1 8) 144) r2)

unfoldable pub div : ℕ → ℕ → ℕ → ℕ → ℕ
div cond rd r1 r2 = encode cond 113 rd 15 (add32 (add32 (shl32 r1 8) 16) r2)

unfoldable pub rsb_i : ℕ → ℕ → ℕ → ℕ → Option ℕ
rsb_i cond rd imm rn = mov cond 1 Op.arm_rsb 0 rn rd imm

unfoldable pub cmp_r : ℕ → ℕ → ℕ → Option ℕ
cmp_r cond r1 r2 = mov cond 0 Op.arm_cmp 1 r1 0 r2

unfoldable pub cmp_i : ℕ → ℕ → ℕ → Option ℕ
cmp_i cond rn imm = mov cond 1 Op.arm_cmp 1 rn 0 imm

unfoldable pub teq : ℕ → Option ℕ
teq rd = mov Op.al 1 Op.arm_teq 1 rd 0 0

-- The rotations that `sxtb` and `sxth` take.
abbrev is_rotation : ℕ → Bool
is_rotation rotation = rotation == 0 || rotation == 8 || rotation == 16 || rotation == 24

unfoldable pub sxtb : ℕ → ℕ → ℕ → ℕ → Option ℕ
sxtb cond rd rm rotation =
    if not (is_rotation rotation)
    then none
    else some (encode cond 106 0xF rd (bit_or (bit_or rm (shl32 (sar32 rotation 3) 10)) 0x70))

unfoldable pub sxth : ℕ → ℕ → ℕ → ℕ → Option ℕ
sxth cond rd rm rotation =
    if not (is_rotation rotation)
    then none
    else some (encode cond 107 0xF rd (bit_or (bit_or rm (shl32 (sar32 rotation 3) 10)) 0x70))
