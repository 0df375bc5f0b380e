-- ===== src/Lexer/Progress/Tokens.antt =====
-- src/lexer.c: what a token reads.
use shecc.Prelude.{ℕ, zero, suc, Bool, List, [], ◌∷◌, ◌++◌, ◌==◌}
use shecc.Lexer.{Lex, Kind, read_char, new_token}
use shecc.Lexer.Scan.{Scanned}
use shecc.Lexer.Dispatch.{
  known_directive, lex_directive, string_loop, with_quotes, lex_string, char_loop, close_char,
  lex_char, lex_word, lex_newline, lex_other,
}
use shecc.Lexer.Progress.{
  Reached, Goes, Scans, read_char-Reached, new_token-Goes, if_Goes, if_Scans, bind_Goes,
  do_loop-Scans, with_text-Goes, lex_number-Goes,
}
use shecc.Lexer.Progress.Operators.{one_char-Goes, lex_operator-Goes}

known_directive-Goes :
    (n : ℕ) (els : List ℕ) (kind : Kind) (sc : Scanned)
    → Reached n els sc.state
    → Goes n els (known_directive kind sc)
unfolding known_directive
known_directive-Goes n els kind sc at = search (if_Goes, new_token-Goes)

lex_directive-Goes :
    (n : ℕ) (els : List ℕ) (ch : ℕ) (s : Lex)
    → Reached n els (read_char s).1
    → Goes n els (lex_directive ch s)
unfolding lex_directive
lex_directive-Goes n els ch s at = search (if_Goes, bind_Goes, do_loop-Scans, known_directive-Goes)

string_loop-Scans :
    (n : ℕ) (els : List ℕ) (fuel : ℕ) (special : Bool) (sc : Scanned)
    → Reached n els sc.state
    → Scans n els (string_loop fuel special sc)
unfolding string_loop
string_loop-Scans n els zero special sc at = tt
string_loop-Scans n els (suc fuel) special sc at =
    let rest =
      string_loop-Scans n els fuel (sc.ch == 92)
        (record {
          text = sc.text ++ sc.ch ∷ [];
          ch = (read_char sc.state).0;
          state = (read_char sc.state).1;
        })
        (read_char-Reached n els sc.state at) in
    search (if_Scans)

with_quotes-Goes :
    (n : ℕ) (els : List ℕ) (kind : Kind) (sc : Scanned)
    → Reached n els sc.state
    → Goes n els (with_quotes kind sc)
unfolding with_quotes
with_quotes-Goes n els kind sc at = search (new_token-Goes, read_char-Reached)

lex_string-Goes :
    (n : ℕ) (els : List ℕ) (s : Lex) → Reached n els (read_char s).1 → Goes n els (lex_string s)
unfolding lex_string
lex_string-Goes n els s at = search (bind_Goes, string_loop-Scans, with_quotes-Goes)

char_loop-Scans :
    (n : ℕ) (els : List ℕ) (fuel : ℕ) (sc : Scanned)
    → Reached n els sc.state
    → Scans n els (char_loop fuel sc)
unfolding char_loop
char_loop-Scans n els zero sc at = tt
char_loop-Scans n els (suc fuel) sc at =
    let rest =
      char_loop-Scans n els fuel
        (record {
          text = sc.text ++ sc.ch ∷ [];
          ch = (read_char sc.state).0;
          state = (read_char sc.state).1;
        })
        (read_char-Reached n els sc.state at) in
    search (if_Scans)

close_char-Goes :
    (n : ℕ) (els : List ℕ) (sc : Scanned) → Reached n els sc.state → Goes n els (close_char sc)
unfolding close_char
close_char-Goes n els sc at = search (if_Goes, with_quotes-Goes)

lex_char-Goes :
    (n : ℕ) (els : List ℕ) (s : Lex) → Reached n els (read_char s).1 → Goes n els (lex_char s)
unfolding lex_char
lex_char-Goes n els s at =
    search (if_Goes, bind_Goes, char_loop-Scans, close_char-Goes, read_char-Reached)

pub lex_word-Goes :
    (n : ℕ) (els : List ℕ) (ch : ℕ) (s : Lex)
    → Reached n els (read_char s).1
    → Goes n els (lex_word ch s)
unfolding lex_word
lex_word-Goes n els ch s at = search (bind_Goes, do_loop-Scans, with_text-Goes)

lex_newline-Goes :
    (n : ℕ) (els : List ℕ) (s : Lex) → Reached n els (read_char s).1 → Goes n els (lex_newline s)
unfolding lex_newline new_token
lex_newline-Goes n els s at = at

pub lex_other-Goes :
    (n : ℕ) (els : List ℕ) (ch : ℕ) (s : Lex)
    → Reached n els (read_char s).1
    → Goes n els (lex_other ch s)
unfolding lex_other
lex_other-Goes n els ch s at =
    search
      (
        if_Goes, lex_directive-Goes, one_char-Goes, lex_newline-Goes, lex_number-Goes,
        lex_string-Goes, lex_char-Goes, lex_operator-Goes, lex_word-Goes,
      )
      depth 20
