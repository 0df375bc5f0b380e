-- ===== src/Numeral/Value.antt =====
-- src/globals.c: the number that a literal stands for.
use shecc.Prelude.{
  ℕ, zero, suc, ◌+◌, ◌-◌, ◌*◌, ◌%◌, ◌^◌, ◌<◌, ◌≤◌, ◌≡◌, refl, ap, ◌∙◌, arith, Bool, true, false,
  List, [], ◌∷◌, map, bit_or, ltb, add32, ◌==◌, if◌then◌else◌, Bool-cases, inl, inr,
}
use shecc.Program.Placed.{All}
use shecc.Numeral.{
  hex_step, hex_loop, binary_loop, digit_step, digit_loop, parse_rest, parse_numeric_constant,
}

-- A digit, whose letter may be a capital.
pub record Digit : Type 0 where
  pub value : ℕ
  pub capital : Bool

-- The number of digits in a base, after the number `value`.
abbrev pub horner : ℕ → ℕ → List Digit → ℕ
horner base value [] = value
horner base value (d ∷ ds) = horner base (value * base + d.value) ds

-- The character of a digit.
abbrev pub digit_char : Digit → ℕ
digit_char d =
    if ltb d.value 10 then 48 + d.value else if d.capital then 55 + d.value else 87 + d.value

-- The bit 32 is set in digits and in small letters.
digit_bit : (e : ℕ) → e < 10 → bit_or (48 + e) 32 ≡ 48 + e
digit_bit zero lo = refl
digit_bit (suc zero) lo = refl
digit_bit (suc (suc zero)) lo = refl
digit_bit (suc (suc (suc zero))) lo = refl
digit_bit (suc (suc (suc (suc zero)))) lo = refl
digit_bit (suc (suc (suc (suc (suc zero))))) lo = refl
digit_bit (suc (suc (suc (suc (suc (suc zero)))))) lo = refl
digit_bit (suc (suc (suc (suc (suc (suc (suc zero))))))) lo = refl
digit_bit (suc (suc (suc (suc (suc (suc (suc (suc zero)))))))) lo = refl
digit_bit (suc (suc (suc (suc (suc (suc (suc (suc (suc zero))))))))) lo = refl
digit_bit (suc (suc (suc (suc (suc (suc (suc (suc (suc (suc e)))))))))) lo =
    absurd (omega (arith, lo))

letter_bit : (e : ℕ) → e < 6 → bit_or (97 + e) 32 ≡ 97 + e
letter_bit zero lo = refl
letter_bit (suc zero) lo = refl
letter_bit (suc (suc zero)) lo = refl
letter_bit (suc (suc (suc zero))) lo = refl
letter_bit (suc (suc (suc (suc zero)))) lo = refl
letter_bit (suc (suc (suc (suc (suc zero))))) lo = refl
letter_bit (suc (suc (suc (suc (suc (suc e)))))) lo = absurd (omega (arith, lo))

capital_bit : (e : ℕ) → e < 6 → bit_or (65 + e) 32 ≡ 97 + e
capital_bit zero lo = refl
capital_bit (suc zero) lo = refl
capital_bit (suc (suc zero)) lo = refl
capital_bit (suc (suc (suc zero))) lo = refl
capital_bit (suc (suc (suc (suc zero)))) lo = refl
capital_bit (suc (suc (suc (suc (suc zero))))) lo = refl
capital_bit (suc (suc (suc (suc (suc (suc e)))))) lo = absurd (omega (arith, lo))

hex_step_lem :
    (value : ℕ) (d : Digit)
    → d.value < 16
    → hex_step (value % 2 ^ 32) (digit_char d) ≡ (value * 16 + d.value) % 2 ^ 32
unfolding hex_step
hex_step_lem value d lo = elim (Bool-cases (ltb d.value 10)) [
  | inl digit ↦
      let bit = digit_bit d.value (ground (arith, digit)) in
      rw digit (rw bit (ground (arith, digit)))
  | inr letter ↦ elim (Bool-cases d.capital) [
    | inl capital ↦
        let bit = capital_bit (d.value - 10) (ground (arith, lo, letter)) in
        let same : 55 + d.value ≡ 65 + (d.value - 10) = ground (arith, letter) in
        rw (letter, capital) (rw (same, bit) (ground (arith, letter, lo)))
    | inr small ↦
        let bit = letter_bit (d.value - 10) (ground (arith, lo, letter)) in
        let same : 87 + d.value ≡ 97 + (d.value - 10) = ground (arith, letter) in
        rw (letter, small) (rw (same, bit) (ground (arith, letter, lo)))
  ]
]

digit_step-10 :
    (value : ℕ) (d : Digit)
    → d.value < 10
    → digit_step 10 (value % 2 ^ 32) (digit_char d) ≡ (value * 10 + d.value) % 2 ^ 32
digit_step-10 value d lo = ground (arith, lo)

digit_step-8 :
    (value : ℕ) (d : Digit)
    → d.value < 8
    → digit_step 8 (value % 2 ^ 32) (digit_char d) ≡ (value * 8 + d.value) % 2 ^ 32
digit_step-8 value d lo = ground (arith, lo)

binary_step :
    (value : ℕ) (d : Digit)
    → d.value < 2
    → add32 (value % 2 ^ 32 * 2 % 2 ^ 32) (if digit_char d == 49 then 1 else 0)
      ≡ (value * 2 + d.value) % 2 ^ 32
binary_step value d lo = ground (arith, lo)

hex_loop-horner :
    (value : ℕ) (ds : List Digit)
    → All (λ d. d.value < 16) ds
    → hex_loop (value % 2 ^ 32) (map digit_char ds) ≡ horner 16 value ds % 2 ^ 32
unfolding hex_loop
hex_loop-horner value [] small = refl
hex_loop-horner value (d ∷ ds) (lo, small) =
    ap (λ v. hex_loop v (map digit_char ds)) (hex_step_lem value d lo)
    ∙ hex_loop-horner (value * 16 + d.value) ds small

binary_loop-horner :
    (value : ℕ) (ds : List Digit)
    → All (λ d. d.value < 2) ds
    → binary_loop (value % 2 ^ 32) (map digit_char ds) ≡ horner 2 value ds % 2 ^ 32
unfolding binary_loop
binary_loop-horner value [] small = refl
binary_loop-horner value (d ∷ ds) (lo, small) =
    ap (λ v. binary_loop v (map digit_char ds)) (binary_step value d lo)
    ∙ binary_loop-horner (value * 2 + d.value) ds small

digit_loop-horner :
    (base : ℕ)
    → ((value : ℕ) (d : Digit)
        → d.value < base
        → digit_step base (value % 2 ^ 32) (digit_char d) ≡ (value * base + d.value) % 2 ^ 32)
    → (value : ℕ) (ds : List Digit) → All (λ d. d.value < base) ds
    → digit_loop base (value % 2 ^ 32) (map digit_char ds) ≡ horner base value ds % 2 ^ 32
unfolding digit_loop
digit_loop-horner base step value [] small = refl
digit_loop-horner base step value (d ∷ ds) (lo, small) =
    ap (λ v. digit_loop base v (map digit_char ds)) (step value d lo)
    ∙ digit_loop-horner base step (value * base + d.value) ds small

-- A digit below ten is no mark of a base.
parse_rest-digits :
    (base value : ℕ) (ds : List Digit)
    → All (λ d. d.value < 10) ds
    → parse_rest base value (map digit_char ds) ≡ digit_loop base value (map digit_char ds)
unfolding digit_loop
parse_rest-digits base value [] small = refl
parse_rest-digits base value (d ∷ ds) (lo, small) =
    let bit = digit_bit d.value lo in
    let digit : ltb d.value 10 ≡ true = ground (arith, lo) in rw digit (rw bit (ground (arith, lo)))

-- How a literal is written.
pub data Base : Type 0 where
  binary : Base
  octal : Base
  decimal : Base
  hexadecimal : Base

abbrev pub radix : Base → ℕ
radix Base.binary = 2
radix Base.octal = 8
radix Base.decimal = 10
radix Base.hexadecimal = 16

-- The mark of the base may be a capital too.
abbrev pub literal : Base → Bool → Digit → List Digit → List ℕ
literal Base.binary capital d ds = 48 ∷ (if capital then 66 else 98) ∷ map digit_char (d ∷ ds)
literal Base.octal capital d ds = 48 ∷ map digit_char (d ∷ ds)
literal Base.decimal capital d ds = map digit_char (d ∷ ds)
literal Base.hexadecimal capital d ds = 48 ∷ (if capital then 88 else 120) ∷ map digit_char (d ∷ ds)

-- A decimal literal does not start with zero.
abbrev pub IsFirst : Base → Digit → Type 0
IsFirst Base.decimal d = 0 < d.value
IsFirst _ d = Unit

All-weaken :
    (m n : ℕ) (ds : List Digit) → m ≤ n → All (λ d. d.value < m) ds → All (λ d. d.value < n) ds
All-weaken m n [] le small = tt
All-weaken m n (d ∷ ds) le (lo, small) = (omega (arith, le, lo), All-weaken m n ds le small)

-- For a binary, octal, decimal or hexadecimal literal with at least one digit after the `0b`, `0`
-- or `0x`, whose mark and letters may each be a capital, the first digit of a decimal one not
-- zero, `parse_numeric_constant` gives the number that the digits stand for, modulo 2^32.
pub parse_numeric_constant-literal :
    (base : Base) (capital : Bool) (d : Digit) (ds : List Digit)
    → IsFirst base d
    → All (λ e. e.value < radix base) (d ∷ ds)
    → parse_numeric_constant (literal base capital d ds) ≡ horner (radix base) 0 (d ∷ ds) % 2 ^ 32
unfolding parse_numeric_constant
parse_numeric_constant-literal Base.binary true d ds first small =
    binary_loop-horner 0 (d ∷ ds) small
parse_numeric_constant-literal Base.binary false d ds first small =
    binary_loop-horner 0 (d ∷ ds) small
parse_numeric_constant-literal Base.hexadecimal true d ds first small =
    hex_loop-horner 0 (d ∷ ds) small
parse_numeric_constant-literal Base.hexadecimal false d ds first small =
    hex_loop-horner 0 (d ∷ ds) small
parse_numeric_constant-literal Base.octal capital d ds first small =
    parse_rest-digits 8 0 (d ∷ ds) (All-weaken 8 10 (d ∷ ds) (omega arith) small)
    ∙ digit_loop-horner 8 digit_step-8 0 (d ∷ ds) small
parse_numeric_constant-literal Base.decimal capital d ds first (lo, small) =
    let ten : (if digit_char d == 48 then 8 else 10) ≡ 10 = ground (arith, first, lo) in
    ap (λ b. parse_rest b (digit_step b 0 (digit_char d)) (map digit_char ds)) ten
    ∙ (ap (λ v. parse_rest 10 v (map digit_char ds)) (digit_step-10 0 d lo)
        ∙ (parse_rest-digits 10 ((0 * 10 + d.value) % 2 ^ 32) ds small
            ∙ digit_loop-horner 10 digit_step-10 (0 * 10 + d.value) ds small))
