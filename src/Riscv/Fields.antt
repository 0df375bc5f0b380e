-- ===== src/Riscv/Fields.antt =====
-- The fields of each encoded word.
use shecc.Prelude.{
  ℕ, ◌+◌, ◌-◌, ◌*◌, ◌/◌, ◌%◌, ◌^◌, ◌≤◌, ◌<◌, ◌≡◌, arith, some, IsWord, bit_and_mask, sar32, add32,
  ◌⊎◌,
}
use shecc.Riscv.Op.{RvOp, code}
use shecc.Riscv.Isa.{opcode, rd, funct3, rs1, rs2, funct7}
use shecc.Riscv.{
  extract_bits, fold_offset, encode_R, encode_I, encode_S, encode_B, encode_J, encode_U,
}

-- The fixed part has no bit in the places of the registers.
abbrev pub HasShape : RvOp → ℕ → ℕ → ℕ → Type 0
HasShape op o f3 f7 = (code op ≡ o + f3 * 2 ^ 12 + f7 * 2 ^ 25) × (o < 128) × (f3 < 8) × (f7 < 128)

pub encode_R_fields :
    (op : RvOp) (d s1 s2 : ℕ) {o f3 f7 : ℕ}
    → HasShape op o f3 f7
    → d < 32
    → s1 < 32
    → s2 < 32
    → let w = encode_R op d s1 s2 in
      (opcode w ≡ o) × (rd w ≡ d) × (funct3 w ≡ f3) × (rs1 w ≡ s1) × (rs2 w ≡ s2) × (funct7 w ≡ f7)
unfolding encode_R
encode_R_fields op d s1 s2 shape hd h1 h2 = omega arith

-- Each copy of bits that the encoders make, as arithmetic.
module _ (imm : ℕ) (h : IsWord imm) where
  extract_0_4 : extract_bits imm 0 4 7 11 ≡ some (imm % 32 * 2 ^ 7)
  unfolding extract_bits
  extract_0_4 = ground (arith, bit_and_mask 5 imm)

  extract_5_11 : extract_bits imm 5 11 25 31 ≡ some (imm / 2 ^ 5 % 128 * 2 ^ 25)
  unfolding extract_bits
  extract_5_11 = ground (arith, bit_and_mask 7 (sar32 imm 5))

  extract_11 : extract_bits imm 11 11 7 7 ≡ some (imm / 2 ^ 11 % 2 * 2 ^ 7)
  unfolding extract_bits
  extract_11 = ground (arith, bit_and_mask 1 (sar32 imm 11))

  extract_1_4 : extract_bits imm 1 4 8 11 ≡ some (imm / 2 % 16 * 2 ^ 8)
  unfolding extract_bits
  extract_1_4 = ground (arith, bit_and_mask 4 (sar32 imm 1))

  extract_5_10 : extract_bits imm 5 10 25 30 ≡ some (imm / 2 ^ 5 % 64 * 2 ^ 25)
  unfolding extract_bits
  extract_5_10 = ground (arith, bit_and_mask 6 (sar32 imm 5))

  extract_1_10 : extract_bits imm 1 10 21 30 ≡ some (imm / 2 % 1024 * 2 ^ 21)
  unfolding extract_bits
  extract_1_10 = ground (arith, bit_and_mask 10 (sar32 imm 1))

  extract_11_20 : extract_bits imm 11 11 20 20 ≡ some (imm / 2 ^ 11 % 2 * 2 ^ 20)
  unfolding extract_bits
  extract_11_20 = ground (arith, bit_and_mask 1 (sar32 imm 11))

  extract_12_19 : extract_bits imm 12 19 12 19 ≡ some (imm / 2 ^ 12 % 256 * 2 ^ 12)
  unfolding extract_bits
  extract_12_19 = ground (arith, bit_and_mask 8 (sar32 imm 12))

  extract_12_31 : extract_bits imm 12 31 12 31 ≡ some (imm / 2 ^ 12 * 2 ^ 12)
  unfolding extract_bits
  extract_12_31 = ground (arith, bit_and_mask 20 (sar32 imm 12))

-- A signed number from -2 ^ k to 2 ^ k - 1, as a bit pattern.
abbrev pub IsSigned : ℕ → ℕ → Type 0
IsSigned k x = (x < 2 ^ k) ⊎ ((2 ^ 32 - 2 ^ k ≤ x) × (x < 2 ^ 32))

fold_offset_lem : (imm : ℕ) → IsSigned 11 imm → fold_offset imm ≡ imm % 4096
unfolding fold_offset
fold_offset_lem imm h = ground (arith, bit_and_mask 13 (add32 imm 4096))

-- The word of each format, as a sum of disjoint fields.
abbrev pub i_word : ℕ → ℕ → ℕ → ℕ → ℕ → ℕ
i_word o f3 d s1 v = o + d * 2 ^ 7 + f3 * 2 ^ 12 + s1 * 2 ^ 15 + v * 2 ^ 20

abbrev pub s_word : ℕ → ℕ → ℕ → ℕ → ℕ → ℕ → ℕ
s_word o f3 s1 s2 low high =
    o + low * 2 ^ 7 + f3 * 2 ^ 12 + s1 * 2 ^ 15 + s2 * 2 ^ 20 + high * 2 ^ 25

abbrev pub u_word : ℕ → ℕ → ℕ → ℕ
u_word o d v = o + d * 2 ^ 7 + v * 2 ^ 12

module _ (op : RvOp) (d s1 s2 imm : ℕ) (hd : d < 32) (h1 : s1 < 32) (h2 : s2 < 32) where
  pub encode_I_word :
      {o f3 : ℕ}
      → HasShape op o f3 0
      → IsSigned 11 imm
      → encode_I op d s1 imm ≡ some (i_word o f3 d s1 (imm % 4096))
  unfolding encode_I
  encode_I_word shape h = ground (arith, fold_offset_lem imm h)

  pub encode_S_word :
      {o f3 : ℕ}
      → HasShape op o f3 0
      → IsSigned 11 imm
      → encode_S op s1 s2 imm ≡ some (s_word o f3 s1 s2 (imm % 32) (imm / 32 % 128))
  unfolding encode_S
  encode_S_word shape h =
      ground (arith, fold_offset_lem imm h, extract_0_4 (imm % 4096), extract_5_11 (imm % 4096))

  pub encode_B_word :
      {o f3 : ℕ}
      → HasShape op o f3 0
      → IsSigned 12 imm
      → encode_B op s1 s2 imm
        ≡ some (
            s_word o f3 s1 s2
              (imm / 2 ^ 11 % 2 + imm / 2 % 16 * 2)
              (imm / 2 ^ 5 % 64 + imm / 2 ^ 31 * 64))
  unfolding encode_B
  encode_B_word shape h = ground (arith, extract_11 imm, extract_1_4 imm, extract_5_10 imm)

  pub encode_J_word :
      {o : ℕ}
      → HasShape op o 0 0
      → IsSigned 20 imm
      → encode_J op d imm
        ≡ some (
            u_word o d (
              imm / 2 ^ 12 % 256
              + imm / 2 ^ 11 % 2 * 2 ^ 8
              + imm / 2 % 1024 * 2 ^ 9
              + imm / 2 ^ 31 * 2 ^ 19))
  unfolding encode_J
  encode_J_word shape h = ground (
    arith,
    extract_1_10 (imm % 2 ^ 21),
    extract_11_20 (imm % 2 ^ 21),
    extract_12_19 (imm % 2 ^ 21),
  )

  pub encode_U_word :
      {o : ℕ}
      → HasShape op o 0 0
      → IsWord imm
      → encode_U op d imm ≡ some (u_word o d (imm / 2 ^ 12))
  unfolding encode_U
  encode_U_word shape h = ground (arith, extract_12_31 imm)
