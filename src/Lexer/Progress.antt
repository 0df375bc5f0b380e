-- ===== src/Lexer/Progress.antt =====
-- src/lexer.c: what is read of the file.
pub mod Operators
pub mod Tokens
pub mod Comments
pub mod Spaces
mod Rounds
pub mod Steps
use shecc.Prelude.{
  ℕ, zero, suc, ◌+◌, ◌-◌, ◌≤◌, ◌<◌, ◌≡◌, refl, sym, ap, ◌∙◌, arith, Bool, true, false, ◌&&◌, ◌||◌,
  not, Option, none, some, List, [], ◌∷◌, ◌++◌, length, ltb, leb, ◌==◌, if◌then◌else◌, ◌>>=◌,
  Bool-cases, inl, inr,
}
use shecc.Lexer.{
  nth, Lex, Token, Kind, Lexed, peek_char, read_char, new_token, is_digit, is_xdigit, is_word,
  max_token_len,
}
use shecc.Lexer.Scan.{
  Scanned, while_loop, do_loop, with_text, lex_prefixed, lex_octal, lex_decimal, lex_number,
  is_binary, is_octal,
}

-- The file is the same, and read up to `n` at least.
abbrev pub Reached : ℕ → List ℕ → Lex → Type 0
Reached n els s = (n ≤ s.size) × (s.elements ≡ els)

-- So it is where a token is given.
abbrev pub Goes : ℕ → List ℕ → Lexed → Type 0
Goes n els none = Unit
Goes n els (some (t, s)) = Reached n els s

abbrev pub Scans : ℕ → List ℕ → Option Scanned → Type 0
Scans n els none = Unit
Scans n els (some sc) = Reached n els sc.state

pub read_char-Reached :
    (n : ℕ) (els : List ℕ) (s : Lex) → Reached n els s → Reached n els (read_char s).1
unfolding read_char
read_char-Reached n els s (at, same) = elim (Bool-cases (leb (length s.elements) (s.size + 1))) [
  | inl last ↦ rw last (at, same)
  | inr inside ↦ rw inside (omega (arith, at), same)
]

-- Before the last character it goes on.
pub read_char-strict :
    (s : Lex) → s.size + 1 < length s.elements → Reached (s.size + 1) s.elements (read_char s).1
unfolding read_char
read_char-strict s inside = elim (Bool-cases (leb (length s.elements) (s.size + 1))) [
  | inl last ↦ absurd (ground (arith, last, inside))
  | inr more ↦ rw more (omega arith, refl)
]

pub new_token-Goes :
    (n : ℕ) (els : List ℕ) (kind : Kind) (literal : List ℕ) (len : ℕ) (s : Lex)
    → Reached n els s
    → Goes n els (new_token kind literal len s)
unfolding new_token
new_token-Goes n els kind literal len s at = at

pub if_Goes :
    (n : ℕ) (els : List ℕ) (b : Bool) (x y : Lexed)
    → Goes n els x
    → Goes n els y
    → Goes n els (if b then x else y)
if_Goes n els true x y hx hy = hx
if_Goes n els false x y hx hy = hy

pub if_Scans :
    (n : ℕ) (els : List ℕ) (b : Bool) (x y : Option Scanned)
    → Scans n els x
    → Scans n els y
    → Scans n els (if b then x else y)
if_Scans n els true x y hx hy = hx
if_Scans n els false x y hx hy = hy

pub bind_Goes :
    (n : ℕ) (els : List ℕ) (x : Option Scanned) (f : Scanned → Lexed)
    → Scans n els x
    → ((sc : Scanned) → Reached n els sc.state → Goes n els (f sc))
    → Goes n els (x >>= f)
bind_Goes n els none f hx hf = tt
bind_Goes n els (some sc) f hx hf = hf sc hx

pub while_loop-Scans :
    (n : ℕ) (els : List ℕ) (test : ℕ → Bool) (fuel : ℕ) (sc : Scanned)
    → Reached n els sc.state
    → Scans n els (while_loop test fuel sc)
unfolding while_loop
while_loop-Scans n els test zero sc at = tt
while_loop-Scans n els test (suc fuel) sc at = if_Scans n els (not (test sc.ch)) (some sc) _ at (
    if_Scans n els (leb (max_token_len - 1) (length sc.text)) none _ tt
      (while_loop-Scans n els test fuel _ (read_char-Reached n els sc.state at)))

pub do_loop-Scans :
    (n : ℕ) (els : List ℕ) (test : ℕ → Bool) (sc : Scanned)
    → Reached n els (read_char sc.state).1
    → Scans n els (do_loop test sc)
unfolding do_loop
do_loop-Scans n els test sc at =
    if_Scans n els (leb (max_token_len - 1) (length sc.text)) none _ tt
      (while_loop-Scans n els test max_token_len _ at)

pub with_text-Goes :
    (n : ℕ) (els : List ℕ) (kind : Kind) (sc : Scanned)
    → Reached n els sc.state
    → Goes n els (with_text kind sc)
unfolding with_text
with_text-Goes n els kind sc at = new_token-Goes n els kind sc.text (length sc.text) sc.state at

lex_prefixed-Goes :
    (n : ℕ) (els : List ℕ) (test : ℕ → Bool) (sc : Scanned)
    → Reached n els sc.state
    → Goes n els (lex_prefixed test sc)
unfolding lex_prefixed
lex_prefixed-Goes n els test sc at =
    search (if_Goes, bind_Goes, do_loop-Scans, with_text-Goes, read_char-Reached)

lex_octal-Goes :
    (n : ℕ) (els : List ℕ) (sc : Scanned) → Reached n els sc.state → Goes n els (lex_octal sc)
unfolding lex_octal
lex_octal-Goes n els sc at =
    search (if_Goes, bind_Goes, while_loop-Scans, with_text-Goes, read_char-Reached)

lex_decimal-Goes :
    (n : ℕ) (els : List ℕ) (sc : Scanned) → Reached n els sc.state → Goes n els (lex_decimal sc)
unfolding lex_decimal
lex_decimal-Goes n els sc at =
    search (if_Goes, bind_Goes, while_loop-Scans, with_text-Goes, read_char-Reached)

pub lex_number-Goes :
    (n : ℕ) (els : List ℕ) (first : ℕ) (s : Lex)
    → Reached n els (read_char s).1
    → Goes n els (lex_number first s)
unfolding lex_number
lex_number-Goes n els first s at =
    search (if_Goes, lex_prefixed-Goes, lex_octal-Goes, lex_decimal-Goes)
