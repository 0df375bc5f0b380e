-- ===== src/Lexer/Progress/Operators.antt =====
-- src/lexer.c: what an operator reads.
use shecc.Prelude.{ℕ, ◌+◌, arith, List, []}
use shecc.Lexer.{Lex, Kind, Lexed, read_char}
use shecc.Lexer.Operator.{
  one_char, two_chars, lex_with_eq, lex_doubled, lex_compared, lex_dot, lex_minus, lex_single,
  lex_operator,
}
use shecc.Lexer.Progress.{Reached, Goes, read_char-Reached, new_token-Goes, if_Goes}

pub one_char-Goes :
    (n : ℕ) (els : List ℕ) (kind : Kind) (s : Lex)
    → Reached n els (read_char s).1
    → Goes n els (one_char kind s)
unfolding one_char
one_char-Goes n els kind s at = new_token-Goes n els kind [] 1 (read_char s).1 at

two_chars-Goes :
    (n : ℕ) (els : List ℕ) (kind : Kind) (s : Lex) → Reached n els s → Goes n els (two_chars kind s)
unfolding two_chars
two_chars-Goes n els kind s at =
    new_token-Goes n els kind [] 2 (read_char s).1 (read_char-Reached n els s at)

lex_with_eq-Goes :
    (n : ℕ) (els : List ℕ) (eq_kind kind : Kind) (s : Lex)
    → Reached n els (read_char s).1
    → Goes n els (lex_with_eq eq_kind kind s)
unfolding lex_with_eq
lex_with_eq-Goes n els eq_kind kind s at =
    search (if_Goes, two_chars-Goes, new_token-Goes, read_char-Reached)

lex_doubled-Goes :
    (n : ℕ) (els : List ℕ) (c : ℕ) (double_kind eq_kind kind : Kind) (s : Lex)
    → Reached n els (read_char s).1
    → Goes n els (lex_doubled c double_kind eq_kind kind s)
unfolding lex_doubled
lex_doubled-Goes n els c double_kind eq_kind kind s at =
    search (if_Goes, two_chars-Goes, new_token-Goes, read_char-Reached)

lex_compared-Goes :
    (n : ℕ) (els : List ℕ) (c : ℕ) (eq_kind shift_eq_kind shift_kind kind : Kind) (s : Lex)
    → Reached n els (read_char s).1
    → Goes n els (lex_compared c eq_kind shift_eq_kind shift_kind kind s)
unfolding lex_compared
lex_compared-Goes n els c eq_kind shift_eq_kind shift_kind kind s at =
    search (if_Goes, two_chars-Goes, new_token-Goes, read_char-Reached)

lex_minus-Goes :
    (n : ℕ) (els : List ℕ) (s : Lex) → Reached n els (read_char s).1 → Goes n els (lex_minus s)
unfolding lex_minus
lex_minus-Goes n els s at = search (if_Goes, two_chars-Goes, new_token-Goes, read_char-Reached)

two_more :
    (n : ℕ) (els : List ℕ) (s : Lex)
    → Reached n els s
    → Reached n els (record s { size = s.size + 2 })
two_more n els s (at, same) = (omega (arith, at), same)

lex_dot-Goes :
    (n : ℕ) (els : List ℕ) (s : Lex) → Reached n els (read_char s).1 → Goes n els (lex_dot s)
unfolding lex_dot
lex_dot-Goes n els s at =
    let more = two_more n els (read_char s).1 at in search (if_Goes, new_token-Goes)

lex_single-Goes :
    (n : ℕ) (els : List ℕ) (ch : ℕ) (s : Lex) (otherwise : Lexed)
    → Reached n els (read_char s).1
    → Goes n els otherwise
    → Goes n els (lex_single ch s otherwise)
unfolding lex_single
lex_single-Goes n els ch s otherwise at other = search (if_Goes, one_char-Goes) depth 20

pub lex_operator-Goes :
    (n : ℕ) (els : List ℕ) (ch : ℕ) (s : Lex) (otherwise : Lexed)
    → Reached n els (read_char s).1
    → Goes n els otherwise
    → Goes n els (lex_operator ch s otherwise)
unfolding lex_operator
lex_operator-Goes n els ch s otherwise at other =
    search
      (
        if_Goes, lex_with_eq-Goes, lex_doubled-Goes, lex_compared-Goes, lex_minus-Goes,
        lex_dot-Goes, lex_single-Goes,
      )
      depth 20
