-- ===== src/Riscv/Immediate.antt =====
-- src/riscv.c: `rv_hi` and `rv_lo`, the two halves of a 32-bit constant.
use shecc.Prelude.{
  ℕ, ◌*◌, ◌/◌, ◌%◌, ◌^◌, ◌≡◌, arith, bit_and, add32, IsWord, bit_and_mask, bit_and_digit,
}
use shecc.Riscv.Fields.{IsSigned}
use shecc.Riscv.{hi, lo}

lo_lem : (v : ℕ) → IsWord v → (bit_and v 0xFFF ≡ v % 4096) × (bit_and v 2048 ≡ v / 2048 % 2 * 2048)
lo_lem v h = (bit_and_mask 12 v, bit_and_digit 11 v)

-- `rv_lo` of a word is from -2048 to 2047, the range that `rv_encode_I` takes.
pub lo-IsSigned : (v : ℕ) → IsWord v → IsSigned 11 (lo v)
unfolding lo
lo-IsSigned v h = ground (arith, lo_lem v h)

-- `lui` of `rv_hi` of a word, which clears the low 12 bits, and `addi` of its `rv_lo` add up to
-- the word.
pub hi-add-lo : (v : ℕ) → IsWord v → add32 (hi v / 2 ^ 12 * 2 ^ 12) (lo v) ≡ v
unfolding hi lo
hi-add-lo v h = ground (arith, lo_lem v h)

pub hi-IsWord : (v : ℕ) → IsWord (hi v)
unfolding hi
hi-IsWord v = omega arith
