-- ===== src/Lexer/Tests.antt =====
-- Runs of src/lexer.c, and the theorems on it at small files.
use shecc.Prelude.{ℕ, ◌≡◌, true, refl, arith, Option, none, some, List, [], ◌∷◌, ◌++◌}
use shecc.Elf.Dynamic.{chars}
use shecc.Lexer.{Token, Lex, Kind}
use shecc.Hashmap.Key.{same_str}
use shecc.Lexer.Dispatch.{Outcome, lex_token}
use shecc.Lexer.Keyword.{word_kind, lookup_keyword}
use shecc.Lexer.Keyword.Fast.{word_kind-lookup_keyword}
use shecc.Lexer.Progress.Steps.{OutcomeGoes, lex_token-progress}
use shecc.Lexer.Cursor.{Cursor, lex_accept, lex_expect, read_kinds, read_kinds-used_kinds}
use shecc.Lexer.Words.{lex_at, lex_token-word}

abbrev file : List ℕ → Lex
file text = record { elements = text ++ 0 ∷ []; size = 0; pos = 0; line = 1; column = 1 }

-- The kind, the literal and the length of the first token, and the position after it.
abbrev seen : Outcome → Option (Option (Kind × List ℕ × ℕ × ℕ))
seen Outcome.unfinished = none
seen (Outcome.ended none) = some none
seen (Outcome.ended (some (t, s))) = some (some (t.kind, t.literal, t.len, s.size))

abbrev expect : Kind → List ℕ → ℕ → ℕ → Option (Option (Kind × List ℕ × ℕ × ℕ))
expect k l n p = some (some (k, l, n, p))

hex_number : seen (lex_token 8 (file (chars "0x1fg"))) ≡ expect Kind.t_numeric (chars "0x1f") 4 4
unfolding lex_token same_str
hex_number = refl

shift : seen (lex_token 8 (file (chars ">>=1"))) ≡ expect Kind.t_rshifteq [] 3 3
unfolding lex_token same_str
shift = refl

dots : seen (lex_token 8 (file (chars "...)"))) ≡ expect Kind.t_elipsis [] 3 3
unfolding lex_token same_str
dots = refl

keyword :
    seen (lex_token 8 (file (chars "/* a */sizeof("))) ≡ expect Kind.t_sizeof (chars "sizeof") 6 13
unfolding lex_token same_str
keyword = refl

string :
    seen (lex_token 8 (file (34 ∷ 97 ∷ 92 ∷ 34 ∷ 34 ∷ 41 ∷ [])))
    ≡ expect Kind.t_string (97 ∷ 92 ∷ 34 ∷ []) 5 5
unfolding lex_token same_str
string = refl

directive : seen (lex_token 8 (file (chars "#ifdef A"))) ≡ expect Kind.t_cppd_ifdef [] 6 6
unfolding lex_token same_str
directive = refl

octal : seen (lex_token 8 (file (chars "018"))) ≡ some none
unfolding lex_token same_str
octal = refl

stars : seen (lex_token 8 (file (chars "/***/x"))) ≡ some none
unfolding lex_token same_str
stars = refl

backslashes : seen (lex_token 8 (file (34 ∷ 92 ∷ 92 ∷ 34 ∷ 59 ∷ []))) ≡ some none
unfolding lex_token same_str
backslashes = refl

word_kind-lookup_keyword_example : word_kind (chars "switch") ≡ Kind.t_switch
unfolding lookup_keyword same_str
word_kind-lookup_keyword_example = word_kind-lookup_keyword (chars "switch")

lex_token-progress_example :
    OutcomeGoes 1 (chars "<<=" ++ 0 ∷ []) (lex_token 4 (file (chars "<<=")))
lex_token-progress_example = lex_token-progress 4 (file (chars "<<=")) (omega arith)

abbrev return_token : Outcome
return_token = Outcome.ended (
    some (
      record {
        kind = lookup_keyword (chars "return");
        literal = chars "return";
        at = 1;
        len = 6;
        on_line = 1;
        on_column = 2;
      },
      lex_at (chars "(return;" ++ 0 ∷ []) 7 1 1 8,
    ))

lex_token-word_example : lex_token 1 (lex_at (chars "(return;" ++ 0 ∷ []) 1 0 1 2) ≡ return_token
lex_token-word_example =
    lex_token-word 0 (chars "(return;" ++ 0 ∷ []) (chars "(") (chars "eturn") (0 ∷ []) 114 59 0 1 2
      refl refl refl (refl, (refl, (refl, (refl, (refl, tt))))) refl (omega arith)

abbrev of_kind : Kind → Token
of_kind kind = record { kind = kind; literal = []; at = 0; len = 1; on_line = 1; on_column = 1 }

abbrev stream : List Token
stream =
    of_kind Kind.t_tab
    ∷ of_kind Kind.t_if
    ∷ of_kind Kind.t_whitespace
    ∷ of_kind Kind.t_newline
    ∷ of_kind Kind.t_semicolon
    ∷ of_kind Kind.t_eof
    ∷ []

abbrev start : Cursor
start = record { cur_token = of_kind Kind.t_start; next = stream }

read_kinds-used_kinds_example : read_kinds 6 start ≡ Kind.t_if ∷ Kind.t_semicolon ∷ Kind.t_eof ∷ []
read_kinds-used_kinds_example =
    read_kinds-used_kinds 6 (of_kind Kind.t_start) stream
      (refl, (refl, (refl, (refl, (refl, refl))))) refl (omega arith)

accept_if : (lex_accept Kind.t_if start).0 ≡ true
unfolding lex_accept
accept_if = refl

refuse_else : lex_expect Kind.t_else start ≡ none
unfolding lex_expect
refuse_else = refl
