-- ===== src/Numeral.antt =====
-- src/globals.c: `parse_numeric_constant`, on strings without the final zero.
pub mod Value
mod Tests
use shecc.Prelude.{
  ℕ, zero, suc, ◌+◌, ◌-◌, ◌*◌, ◌%◌, ◌^◌, ◌≡◌, Bool, true, false, ◌&&◌, List, [], ◌∷◌, bit_or, leb,
  add32, ◌==◌, if◌then◌else◌,
}
use shecc.Lexer.{is_digit}

-- `value <<= 4`, and the digit is added, a letter in either case.
unfoldable pub hex_step : ℕ → ℕ → ℕ
hex_step value c =
    let shifted = value * 16 % 2 ^ 32 in
    let with_digit = if is_digit c then add32 shifted (c - 48) else shifted in
    let c' = bit_or c 32 in
    if leb 97 c' && leb c' 102 then add32 with_digit (c' - 97 + 10) else with_digit

unfoldable pub hex_loop : ℕ → List ℕ → ℕ
unfolding hex_step
hex_loop value [] = value
hex_loop value (c ∷ cs) = hex_loop (hex_step value c) cs

unfoldable pub binary_loop : ℕ → List ℕ → ℕ
binary_loop value [] = value
binary_loop value (c ∷ cs) = binary_loop (add32 (value * 2 % 2 ^ 32) (if c == 49 then 1 else 0)) cs

-- `value * base + c - '0'`, where the difference may be negative.
abbrev pub digit_step : ℕ → ℕ → ℕ → ℕ
digit_step base value c = (value * base + c + (2 ^ 32 - 48)) % 2 ^ 32

unfoldable pub digit_loop : ℕ → ℕ → List ℕ → ℕ
digit_loop base value [] = value
digit_loop base value (c ∷ cs) = digit_loop base (digit_step base value c) cs

-- From the second character on.
abbrev pub parse_rest : ℕ → ℕ → List ℕ → ℕ
parse_rest base value [] = value
parse_rest base value (c ∷ cs) =
    if bit_or c 32 == 120
    then hex_loop 0 cs
    else if bit_or c 32 == 98
    then binary_loop 0 cs
    else digit_loop base value (c ∷ cs)

unfoldable pub parse_numeric_constant : List ℕ → ℕ
unfolding hex_loop binary_loop digit_loop
parse_numeric_constant [] = 0
parse_numeric_constant (c ∷ cs) =
    let base = if c == 48 then 8 else 10 in parse_rest base (digit_step base 0 c) cs
