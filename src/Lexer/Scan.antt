-- ===== src/Lexer/Scan.antt =====
-- src/lexer.c: the loops of `lex_token`.
use shecc.Prelude.{
  ℕ, zero, suc, ◌-◌, Bool, ◌&&◌, ◌||◌, not, Option, none, some, List, [], ◌∷◌, ◌++◌, length, leb,
  bit_or, ◌==◌, if◌then◌else◌, ◌>>=◌,
}
use shecc.Lexer.{Lex, Kind, Lexed, read_char, new_token, is_digit, is_xdigit, max_token_len}

-- The text of a token, with the character that the loop stopped at.
pub record Scanned : Type 0 where
  pub text : List ℕ
  pub ch : ℕ
  pub state : Lex

-- A `while` loop that puts characters in `token_buffer`; `test` says which. It fails at the 256th
-- character, so that 256 rounds are enough.
unfoldable pub while_loop : (ℕ → Bool) → ℕ → Scanned → Option Scanned
unfolding read_char
while_loop test zero sc = none
while_loop test (suc fuel) sc =
    let (ch, s) = read_char sc.state in
    let rest = while_loop test fuel (record { text = sc.text ++ sc.ch ∷ []; ch = ch; state = s }) in
    if not (test sc.ch)
    then some sc
    else if leb (max_token_len - 1) (length sc.text)
    then none
    else rest

-- A `do` loop, whose first character is taken in any case.
unfoldable pub do_loop : (ℕ → Bool) → Scanned → Option Scanned
unfolding read_char while_loop
do_loop test sc =
    let (ch, s) = read_char sc.state in
    if leb (max_token_len - 1) (length sc.text)
    then none
    else while_loop test max_token_len (record { text = sc.text ++ sc.ch ∷ []; ch = ch; state = s })

-- The end of a token that has a text.
unfoldable pub with_text : Kind → Scanned → Lexed
unfolding new_token
with_text kind sc = new_token kind sc.text (length sc.text) sc.state

-- After `0x` or `0b`: the letter is taken (the test of the length cannot fail there), then the digits,
-- of which there must be one.
unfoldable pub lex_prefixed : (ℕ → Bool) → Scanned → Lexed
unfolding read_char do_loop with_text
lex_prefixed test sc =
    let (ch, s) = read_char sc.state in
    if not (test ch) then none else do
      sc' ← do_loop test (record { text = sc.text ++ sc.ch ∷ []; ch = ch; state = s })
      with_text Kind.t_numeric sc'

abbrev pub is_binary : ℕ → Bool
is_binary ch = ch == 48 || ch == 49

abbrev pub is_octal : ℕ → Bool
is_octal ch = is_digit ch && not (leb 56 ch)

-- Octal digits; another digit is an error.
unfoldable pub lex_octal : Scanned → Lexed
unfolding while_loop with_text
lex_octal sc = do
  sc' ← while_loop is_octal max_token_len sc
  if is_digit sc'.ch then none else with_text Kind.t_numeric sc'

unfoldable pub lex_decimal : Scanned → Lexed
unfolding while_loop with_text
lex_decimal sc = do sc' ← while_loop is_digit max_token_len sc; with_text Kind.t_numeric sc'

-- A number, whose first digit is `first`.
unfoldable pub lex_number : ℕ → Lex → Lexed
unfolding read_char lex_prefixed lex_octal lex_decimal
lex_number first s =
    let (ch, s') = read_char s in
    let sc : Scanned = record { text = first ∷ []; ch = ch; state = s' } in
    if first == 48 && bit_or ch 32 == 120
    then lex_prefixed is_xdigit sc
    else if first == 48 && bit_or ch 32 == 98
    then lex_prefixed is_binary sc
    else if first == 48
    then lex_octal sc
    else lex_decimal sc
