-- ===== src/Elf/Bytes.antt =====
-- src/elf.c: numbers as bytes.
use shecc.Prelude.{
  ℕ, ◌∙◌, ◌+◌, ◌*◌, ◌/◌, ◌%◌, ◌≡◌, refl, arith, [], ◌∷◌, ◌++◌, length, bit_and, bit_and_mask, sar32,
  IsWord,
}
use mathlib.Core.List.{append_assoc}
use shecc.Elf.{Buf}

-- The byte `b` of an `int`.
unfoldable pub extract_byte : ℕ → ℕ → ℕ
extract_byte v b = bit_and (sar32 v (8 * b)) 0xFF

-- `elf_write_int`: the four calls of `strbuf_putc`.
unfoldable pub write_int : Buf → ℕ → Buf
unfolding extract_byte
write_int buf val =
    (((buf ++ extract_byte val 0 ∷ []) ++ extract_byte val 1 ∷ []) ++ extract_byte val 2 ∷ [])
    ++ extract_byte val 3 ∷ []

-- An `int` in the memory of a structure, the low byte first.
unfoldable pub int_bytes : ℕ → Buf
int_bytes v = v % 256 ∷ v / 256 % 256 ∷ v / 65536 % 256 ∷ v / 16777216 % 256 ∷ []

-- `elf_write_str` and `elf_write_byte(_, 0)`, as they follow each other.
unfoldable pub write_name : Buf → Buf → Buf
write_name buf name = (buf ++ name) ++ 0 ∷ []

-- The number that four bytes stand for in the file.
abbrev pub read_int : Buf → ℕ
read_int (a ∷ b ∷ c ∷ d ∷ rest) = a + 256 * b + 65536 * c + 16777216 * d
read_int _ = 0

pub length-int_bytes : (v : ℕ) → length (int_bytes v) ≡ 4
unfolding int_bytes
length-int_bytes v = refl

pub read_int-int_bytes : (v : ℕ) (rest : Buf) → IsWord v → read_int (int_bytes v ++ rest) ≡ v
unfolding int_bytes
read_int-int_bytes v rest h = omega arith

masked : (x : ℕ) → bit_and x 0xFF ≡ x % 256
masked x = bit_and_mask 8 x

-- The sign is shifted in from above, and masked away.
extracted :
    (v : ℕ)
    → IsWord v
    → (extract_byte v 0 ≡ v % 256)
      × (extract_byte v 1 ≡ v / 256 % 256)
      × (extract_byte v 2 ≡ v / 65536 % 256)
      × (extract_byte v 3 ≡ v / 16777216 % 256)
unfolding extract_byte
extracted v h = (
  masked (sar32 v 0) ∙ ground arith,
  masked (sar32 v 8) ∙ ground arith,
  masked (sar32 v 16) ∙ ground arith,
  masked (sar32 v 24) ∙ ground arith,
)

-- A word is written as its bytes in memory.
pub write_int-int_bytes : (buf : Buf) (v : ℕ) → IsWord v → write_int buf v ≡ buf ++ int_bytes v
unfolding write_int int_bytes
write_int-int_bytes buf v h =
    let (b0, b1, b2, b3) = extracted v h in rw (b0, b1, b2, b3) (simp append_assoc)
