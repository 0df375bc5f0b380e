-- ===== src/Arm/Fields.antt =====
-- src/arm.c: the fields of the encoded words, read back by a decoder after the ARM manual.
use shecc.Prelude.{
  ℕ, ◌+◌, ◌-◌, ◌*◌, ◌/◌, ◌%◌, ◌^◌, ◌≤◌, ◌<◌, ◌≡◌, ◌⊎◌, inl, inr, arith, some, IsWord, bit_and_mask,
  sar32, add32, sub32, neg32, sign_extend, ◌==◌, if◌then◌else◌,
}
use shecc.Arm.{extract_bits, encode, transfer}
use shecc.Arm.Op
use shecc.Arm.Asm

-- The fields of an instruction word.
abbrev pub cond_field : ℕ → ℕ
cond_field w = w / 2 ^ 28

abbrev pub rn_field : ℕ → ℕ
rn_field w = w / 2 ^ 16 % 16

abbrev pub rd_field : ℕ → ℕ
rd_field w = w / 2 ^ 12 % 16

-- The immediate of `movw` and `movt`.
abbrev pub imm16 : ℕ → ℕ
imm16 w = w / 2 ^ 16 % 16 * 4096 + w % 4096

-- The distance of a branch: the program counter is 8 bytes ahead.
abbrev pub branch_distance : ℕ → ℕ
branch_distance w = add32 (sign_extend 26 (w % 2 ^ 24 * 4)) 8

-- The offset of a load or store: bit 23 says whether it is added.
abbrev pub transfer_offset : ℕ → ℕ
transfer_offset w = if w / 2 ^ 23 % 2 == 1 then w % 4096 else neg32 (w % 4096)

-- The word as a sum of disjoint fields.
pub encode_word :
    (cond opcode rn rd op2 : ℕ)
    → cond < 16
    → opcode < 256
    → rn < 16
    → rd < 16
    → op2 < 4096
    → encode cond opcode rn rd op2
      ≡ cond * 2 ^ 28 + opcode * 2 ^ 20 + rn * 2 ^ 16 + rd * 2 ^ 12 + op2
unfolding encode
encode_word cond opcode rn rd op2 hc ho hn hd h2 = omega arith

extract_0_11 : (v : ℕ) → IsWord v → extract_bits v 0 11 0 11 ≡ some (v % 4096)
unfolding extract_bits
extract_0_11 v h = ground (arith, bit_and_mask 12 v)

extract_12_15 : (v : ℕ) → IsWord v → extract_bits v 12 15 16 19 ≡ some (v / 4096 % 16 * 2 ^ 16)
unfolding extract_bits
extract_12_15 v h = ground (arith, bit_and_mask 4 (sar32 v 12))

movw_word :
    (v rd : ℕ)
    → IsWord v
    → rd < 16
    → Asm.movw Op.al rd v
      ≡ some (14 * 2 ^ 28 + 48 * 2 ^ 20 + rd * 2 ^ 12 + v % 4096 + v / 4096 % 16 * 2 ^ 16)
unfolding Asm.movw encode
movw_word v rd h hd = rw (extract_0_11 v h, extract_12_15 v h) (ground arith)

movt_word :
    (v rd : ℕ)
    → IsWord v
    → rd < 16
    → Asm.movt Op.al rd v
      ≡ some
          (14 * 2 ^ 28 + 52 * 2 ^ 20 + rd * 2 ^ 12 + v / 2 ^ 16 % 4096 + v / 2 ^ 28 % 16 * 2 ^ 16)
unfolding Asm.movt encode
movt_word v rd h hd =
    let halves : IsWord (sar32 v 16) = ground arith in
    rw (extract_0_11 (sar32 v 16) halves, extract_12_15 (sar32 v 16) halves) (ground arith)

-- For a register below 16 and a word, `__movw` and `__movt` succeed, and the register and the two
-- halves of the word are read back from their fields.
pub movw-movt :
    (rd v : ℕ)
    → rd < 16
    → IsWord v
    → (low high : ℕ) × (Asm.movw Op.al rd v ≡ some low)
      × (Asm.movt Op.al rd v ≡ some high)
      × (rd_field low ≡ rd)
      × (rd_field high ≡ rd)
      × (imm16 high * 2 ^ 16 + imm16 low ≡ v)
movw-movt rd v hd h =
    (_, _, movw_word v rd h hd, movt_word v rd h hd, omega arith, omega arith, omega arith)

-- For a condition below 16 and a distance that is a multiple of 4 from -2^25 + 8 to 2^25 - 1, the
-- distance and the condition are read back from the word of `__b`.
pub branch_distance-b :
    (cond ofs : ℕ)
    → cond < 16
    → IsWord ofs
    → ofs % 4 ≡ 0
    → (ofs < 2 ^ 25) ⊎ (2 ^ 32 - 2 ^ 25 + 8 ≤ ofs)
    → (branch_distance (Asm.b cond ofs) ≡ ofs) × (cond_field (Asm.b cond ofs) ≡ cond)
unfolding Asm.b
branch_distance-b cond ofs hc h aligned near =
    let o = sar32 (sub32 ofs 8) 2 in
    let low = bit_and_mask 24 o in
    let word =
      encode_word cond 160 0 0 0 hc (omega arith) (omega arith) (omega arith) (omega arith) in
    (ground (arith, low, word), ground (arith, low, word))

-- The opcode of a load or store: bit 4 of it says whether the offset is added, bit 2 whether it is
-- a byte.
abbrev transfer_code : ℕ → ℕ → ℕ → ℕ
transfer_code up size l = if size == 1 then up + l + 4 else up + l

transfer_word_up :
    (cond l size rn rd ofs : ℕ)
    → cond < 16
    → l < 2
    → rn < 16
    → rd < 16
    → ofs < 4096
    → transfer cond l size rn rd ofs
      ≡ cond * 2 ^ 28 + transfer_code 88 size l * 2 ^ 20 + rn * 2 ^ 16 + rd * 2 ^ 12 + ofs
unfolding transfer encode
transfer_word_up cond l size rn rd ofs hc hl hn hd ho = ground (arith, bit_and_mask 12 ofs)

transfer_word_down :
    (cond l size rn rd ofs : ℕ)
    → cond < 16
    → l < 2
    → rn < 16
    → rd < 16
    → 2 ^ 32 - 4096 < ofs
    → ofs < 2 ^ 32
    → transfer cond l size rn rd ofs
      ≡ cond * 2 ^ 28
        + transfer_code 80 size l * 2 ^ 20
        + rn * 2 ^ 16
        + rd * 2 ^ 12
        + (2 ^ 32 - ofs)
unfolding transfer encode
transfer_word_down cond l size rn rd ofs hc hl hn hd low high =
    ground (arith, bit_and_mask 12 (neg32 ofs))

-- For registers and a condition below 16 and an offset from -4095 to 4095, the offset, the
-- registers and the condition are read back from the word of `arm_transfer`.
pub transfer_offset-transfer :
    (cond l size rn rd ofs : ℕ)
    → cond < 16
    → l < 2
    → rn < 16
    → rd < 16
    → (ofs < 4096) ⊎ ((2 ^ 32 - 4096 < ofs) × (ofs < 2 ^ 32))
    → let w = transfer cond l size rn rd ofs in
      (transfer_offset w ≡ ofs) × (rn_field w ≡ rn) × (rd_field w ≡ rd) × (cond_field w ≡ cond)
transfer_offset-transfer cond l size rn rd ofs hc hl hn hd (inl low) =
    rw (transfer_word_up cond l size rn rd ofs hc hl hn hd low)
      (ground arith, ground arith, ground arith, ground arith)
transfer_offset-transfer cond l size rn rd ofs hc hl hn hd (inr (low, high)) =
    rw (transfer_word_down cond l size rn rd ofs hc hl hn hd low high)
      (ground arith, ground arith, ground arith, ground arith)
