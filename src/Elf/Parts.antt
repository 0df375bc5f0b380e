-- ===== src/Elf/Parts.antt =====
-- Lists of bytes that are put together from parts, and what stands at an offset.
use shecc.Prelude.{
  ℕ, zero, suc, ◌+◌, ◌≤◌, ◌≡◌, refl, ap, ◌∙◌, sym, arith, List, [], ◌∷◌, ◌++◌, map, length,
}
use mathlib.Core.List.{append_assoc}
use shecc.Program.Placed.{All}
use shecc.Elf.{Buf}
use shecc.Elf.Reader.{take, drop}

suc_add : (n m : ℕ) → suc n + m ≡ suc (n + m)
suc_add n m = omega arith

drop-nil : (n : ℕ) → drop n [] ≡ []
drop-nil zero = refl
drop-nil (suc n) = refl

pub drop-add : (n m : ℕ) (buf : Buf) → drop (n + m) buf ≡ drop m (drop n buf)
drop-add zero m buf = ap (λ k. drop k buf) (omega arith)
drop-add (suc n) m [] = drop-nil (suc n + m) ∙ sym (drop-nil m)
drop-add (suc n) m (x ∷ xs) = ap (λ k. drop k (x ∷ xs)) (suc_add n m) ∙ drop-add n m xs

pub drop-append : (front back : Buf) → drop (length front) (front ++ back) ≡ back
drop-append [] back = refl
drop-append (x ∷ front) back = drop-append front back

pub take-append :
    (n : ℕ) (front back : Buf) → n ≤ length front → take n (front ++ back) ≡ take n front
take-append zero front back h = refl
take-append (suc n) [] back h = absurd (omega (arith, h))
take-append (suc n) (x ∷ front) back h = ap (x ∷◌) (take-append n front back (omega (arith, h)))

pub take-length : (buf : Buf) → take (length buf) buf ≡ buf
take-length [] = refl
take-length (x ∷ xs) = ap (x ∷◌) (take-length xs)

-- A part, with the size that is read of it.
pub record Part : Type 0 where
  pub size : ℕ
  pub bytes : Buf

-- A part that is read whole.
abbrev pub whole : Buf → Part
whole bytes = record { size = length bytes; bytes = bytes }

abbrev pub joined : List Part → Buf
joined [] = []
joined (p ∷ ps) = p.bytes ++ joined ps

abbrev pub Fits : Part → Type 0
Fits p = p.size ≤ length p.bytes

-- The parts read one after the other, the first at `ofs`.
abbrev pub read_parts : ℕ → List Part → Buf → List Buf
read_parts ofs [] image = []
read_parts ofs (p ∷ ps) image =
    take p.size (drop ofs image) ∷ read_parts (ofs + length p.bytes) ps image

pub read_parts_lem :
    (ps : List Part) (ofs : ℕ) (image rest : Buf)
    → All Fits ps
    → drop ofs image ≡ joined ps ++ rest
    → read_parts ofs ps image ≡ map (λ p. take p.size p.bytes) ps
read_parts_lem [] ofs image rest fits here = refl
read_parts_lem (p ∷ ps) ofs image rest fits here =
    let here' = here ∙ append_assoc p.bytes (joined ps) rest in
    let next =
      drop-add ofs (length p.bytes) image
      ∙ (ap (drop (length p.bytes)) here' ∙ drop-append p.bytes (joined ps ++ rest)) in
    rw
      (
        read_parts_lem ps (ofs + length p.bytes) image rest fits.1 next,
        here',
        take-append p.size p.bytes (joined ps ++ rest) fits.0,
      )
      refl
