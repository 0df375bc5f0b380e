-- ===== src/Lexer/Dispatch.antt =====
-- src/lexer.c: `lex_token`.
use shecc.Prelude.{
  ℕ, zero, suc, ◌+◌, ◌-◌, Bool, false, ◌&&◌, ◌||◌, not, Option, none, some, List, [], ◌∷◌, ◌++◌,
  length, ltb, leb, ◌==◌, if◌then◌else◌, ◌>>=◌,
}
use shecc.Lexer.{
  nth, Lex, Kind, Lexed, peek_char, read_char, new_token, is_digit, is_word, max_token_len,
}
use shecc.Lexer.Keyword.{lookup_directive, word_kind, is_identifier}
use shecc.Lexer.Operator.{one_char, lex_operator}
use shecc.Lexer.Scan.{Scanned, do_loop, with_text, lex_number}

unfoldable pub known_directive : Kind → Scanned → Lexed
unfolding new_token
known_directive kind sc =
    if is_identifier kind then none else new_token kind [] (length sc.text) sc.state

-- After `#`, which must be the first character of its line.
unfoldable pub lex_directive : ℕ → Lex → Lexed
unfolding do_loop lookup_directive known_directive
lex_directive ch s = if not (s.column == 1) then none else do
  sc ← do_loop is_word (record { text = []; ch = ch; state = s })
  known_directive (lookup_directive sc.text) sc

-- A token or `error_at`, the place after a comment where `lex_token` calls itself, or a loop over a
-- comment or spaces without rounds left.
pub data Step : Type 0 where
  token : Lexed → Step
  again : Lex → Step
  stuck : Step

-- The loop over a comment from the character before `pos` on. Each round goes on in the file, so that
-- as many rounds as characters are enough.
unfoldable pub comment_loop : ℕ → ℕ → Lex → Step
comment_loop zero pos s = Step.stuck
comment_loop (suc fuel) pos s =
    let ch = nth (pos + 1) s.elements in
    let ch' = nth (pos + 2) s.elements in
    let moved : Lex = record s { column = s.column + 1 } in
    let star : Lex = record s { column = s.column + 2 } in
    let line : Lex = record s { line = s.line + 1; column = 1 } in
    let next_moved = comment_loop fuel (pos + 1) moved in
    let next_line = comment_loop fuel (pos + 1) line in
    let next_star = comment_loop fuel (pos + 2) star in
    let next_star_line = comment_loop fuel (pos + 2) line in
    if ch == 42
    then (if ch' == 47
        then Step.again (record s { column = s.column + 4; size = pos + 3 })
        else if ch' == 10
        then next_star_line
        else if ch' == 0
        then Step.token none
        else next_star)
    else if ch == 10
    then next_line
    else if ch == 0
    then Step.token none
    else next_moved

-- The place of the end of the line; none without rounds left.
unfoldable pub line_loop : ℕ → ℕ → Lex → Option ℕ
line_loop zero pos s = none
line_loop (suc fuel) pos s =
    let ch = nth (pos + 1) s.elements in
    let rest = line_loop fuel (pos + 1) s in
    if not (ch == 0) && not (ch == 13 || ch == 10) then rest else some (pos + 1)

-- What is left after a comment up to the end of its line.
abbrev pub after_line : Lex → Option ℕ → Step
after_line s none = Step.stuck
after_line s (some pos) =
    Step.again (record s { column = s.column + (pos - s.size + 1); size = pos })

-- `while (read_char(buf) == ' ') sz++;`, none without rounds left.
unfoldable pub space_loop : ℕ → ℕ → Lex → Option (ℕ × Lex)
unfolding read_char
space_loop zero sz s = none
space_loop (suc fuel) sz s =
    let (ch, s') = read_char s in
    let rest = space_loop fuel (sz + 1) s' in if ch == 32 then rest else some (sz, s')

-- The last character of a text.
abbrev pub last : List ℕ → ℕ
last text = nth (length text - 1) text

-- The loop over a string literal. A character past the end of `token_buffer` is undefined, and fails
-- here, so that one round more than it has places is enough.
unfoldable pub string_loop : ℕ → Bool → Scanned → Option Scanned
unfolding read_char
string_loop zero special sc = none
string_loop (suc fuel) special sc =
    let (ch, s) = read_char sc.state in
    let rest =
      string_loop fuel (sc.ch == 92)
        (record { text = sc.text ++ sc.ch ∷ []; ch = ch; state = s }) in
    if leb max_token_len (length sc.text)
    then none
    else if sc.ch == 34 && not special
    then some sc
    else if not (ltb 0 (length sc.text) && last sc.text == 92)
        && leb (max_token_len - 1) (length sc.text)
    then none
    else rest

-- The end of a literal between quotes.
unfoldable pub with_quotes : Kind → Scanned → Lexed
unfolding read_char new_token
with_quotes kind sc = new_token kind sc.text (length sc.text + 2) (read_char sc.state).1

unfoldable pub lex_string : Lex → Lexed
unfolding read_char string_loop with_quotes
lex_string s =
    let (ch, s') = read_char s in
    do
      sc ← string_loop (max_token_len + 1) false (record { text = []; ch = ch; state = s' })
      with_quotes Kind.t_string sc

-- The loop over an escaped character; past the end of `token_buffer` as for a string.
unfoldable pub char_loop : ℕ → Scanned → Option Scanned
unfolding read_char
char_loop zero sc = none
char_loop (suc fuel) sc =
    let (ch, s) = read_char sc.state in
    let rest = char_loop fuel (record { text = sc.text ++ sc.ch ∷ []; ch = ch; state = s }) in
    if leb max_token_len (length sc.text)
    then none
    else if not (sc.ch == 0) && not (sc.ch == 39)
    then rest
    else some sc

-- The quote at the end.
unfoldable pub close_char : Scanned → Lexed
unfolding with_quotes
close_char sc = if not (sc.ch == 39) then none else with_quotes Kind.t_char sc

-- A character literal: an escape has one character in any case.
unfoldable pub lex_char : Lex → Lexed
unfolding read_char char_loop close_char
lex_char s =
    let (ch, s1) = read_char s in
    let (ch', s2) = read_char s1 in
    let (ch'', s3) = read_char s2 in
    if ch == 92
    then (do
      sc ← char_loop (max_token_len + 1) (record { text = ch ∷ ch' ∷ []; ch = ch''; state = s3 })
      close_char sc)
    else close_char (record { text = ch ∷ []; ch = ch'; state = s2 })

unfoldable pub lex_word : ℕ → Lex → Lexed
unfolding do_loop word_kind with_text
lex_word ch s = do
  sc ← do_loop is_word (record { text = []; ch = ch; state = s })
  with_text (word_kind sc.text) sc

-- After `/`.
unfoldable pub lex_slash : Lex → Step
unfolding read_char comment_loop line_loop new_token
lex_slash s =
    let (ch, s') = read_char s in
    if ch == 42
    then comment_loop (length s'.elements) s'.size s'
    else if ch == 47
    then after_line s' (line_loop (length s'.elements) s'.size s')
    else if ch == 61
    then Step.token (new_token Kind.t_divideeq [] 2 (read_char s').1)
    else Step.token (new_token Kind.t_divide [] 1 s')

-- A line break ends the line after the token.
unfoldable pub lex_newline : Lex → Lexed
unfolding read_char new_token
lex_newline s = do
  (tk, s') ← new_token Kind.t_newline [] 1 (read_char s).1
  some (tk, record s' { line = s'.line + 1; column = 1 })

-- Spaces one after the other are one token.
abbrev pub after_space : Option (ℕ × Lex) → Step
after_space none = Step.stuck
after_space (some (sz, s)) = Step.token (new_token Kind.t_whitespace [] sz s)

unfoldable pub lex_space : Lex → Step
unfolding space_loop new_token
lex_space s = after_space (space_loop (length s.elements) 1 s)

-- The branches of `lex_token` that are not for `/` or a space.
unfoldable pub lex_other : ℕ → Lex → Lexed
unfolding lex_directive one_char lex_newline lex_number lex_string lex_char lex_operator lex_word
lex_other ch s =
    if ch == 35
    then lex_directive ch s
    else if ch == 92
    then one_char Kind.t_backslash s
    else if ch == 10
    then lex_newline s
    else if ch == 9
    then one_char Kind.t_tab s
    else if ch == 0
    then one_char Kind.t_eof s
    else if is_digit ch
    then lex_number ch s
    else if ch == 34
    then lex_string s
    else if ch == 39
    then lex_char s
    else lex_operator ch s (if is_word ch then lex_word ch s else none)

unfoldable pub lex_step : Lex → Step
unfolding peek_char lex_slash lex_space lex_other
lex_step s =
    let ch = peek_char s 0 in
    let s' : Lex = record s { pos = s.size } in
    if ch == 47
    then lex_slash s'
    else if ch == 32
    then lex_space s'
    else Step.token (lex_other ch s')

-- What `lex_token` ends with, a token or `error_at`; or it is in a loop without rounds left.
pub data Outcome : Type 0 where
  ended : Lexed → Outcome
  unfinished : Outcome

-- `lex_token`; every comment has two characters, so that as many rounds as characters are enough.
unfoldable pub lex_token : ℕ → Lex → Outcome
unfolding lex_step
lex_token zero s = Outcome.unfinished
lex_token (suc fuel) s = elim (lex_step s) [
  | Step.token l ↦ Outcome.ended l
  | Step.again s' ↦ lex_token fuel s'
  | Step.stuck ↦ Outcome.unfinished
]
