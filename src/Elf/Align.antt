-- ===== src/Elf/Align.antt =====
-- src/elf.c: `elf_align`.
use shecc.Prelude.{
  ℕ, sym, ◌∙◌, zero, suc, ◌+◌, ◌*◌, ◌/◌, ◌≤◌, ◌≡◌, refl, arith, [], ◌∷◌, ◌++◌, length,
  length-append, bit_and, bit_and_mask, ◌==◌, if◌then◌else◌, ap, Bool-cases, inl, inr,
}
use mathlib.Core.List.{append_assoc, append-nil}
use shecc.Elf.{Buf}

abbrev pub repeat : ℕ → ℕ → Buf
repeat zero x = []
repeat (suc n) x = x ∷ repeat n x

length-repeat : (n x : ℕ) → length (repeat n x) ≡ n
length-repeat zero x = refl
length-repeat (suc n) x = omega (arith, length-repeat n x)

-- `while (elf_array->size & 3) elf_write_byte(elf_array, 0);` with fuel.
unfoldable align_loop : ℕ → Buf → Buf
align_loop zero buf = buf
align_loop (suc fuel) buf =
    let rest = align_loop fuel (buf ++ 0 ∷ []) in if bit_and (length buf) 3 == 0 then buf else rest

-- Three bytes are enough.
unfoldable pub align : Buf → Buf
unfolding align_loop
align buf = align_loop 3 buf

-- The size rounded up to a multiple of four.
abbrev pub align4 : ℕ → ℕ
align4 n = (n + 3) / 4 * 4

-- No more zeros than needed are added, and the buffer stays in front.
align_loop_lem :
    (fuel : ℕ) (buf : Buf)
    → align4 (length buf) ≤ length buf + fuel
    → (zeros : ℕ) × (align_loop fuel buf ≡ buf ++ repeat zeros 0)
      × (length buf + zeros ≡ align4 (length buf))
unfolding align_loop
align_loop_lem zero buf h = (0, sym (append-nil buf), omega arith)
align_loop_lem (suc fuel) buf h =
    let mask = bit_and_mask 2 (length buf) in
    elim (Bool-cases (bit_and (length buf) 3 == 0)) [
      | inl full ↦ (0, rw full (sym (append-nil buf)), ground (arith, mask, full))
      | inr more ↦
          let one = length-append buf (0 ∷ []) in
          let (zeros, same, total) =
            align_loop_lem fuel (buf ++ 0 ∷ []) (ground (arith, mask, more, one)) in
          (
            suc zeros,
            rw more (same ∙ append_assoc buf (0 ∷ []) (repeat zeros 0)),
            ground (arith, mask, more, one, total),
          )
    ]

-- Padding goes up to the next multiple of four, and is zeros.
pub align_lem :
    (buf : Buf)
    → (zeros : ℕ) × (align buf ≡ buf ++ repeat zeros 0) × (length (align buf) ≡ align4 (length buf))
unfolding align
align_lem buf =
    let (zeros, same, total) = align_loop_lem 3 buf (omega arith) in
    (
      zeros,
      same,
      ap length same
          ∙ (length-append buf (repeat zeros 0)
              ∙ (ap (length buf +◌) (length-repeat zeros 0) ∙ total)),
    )
