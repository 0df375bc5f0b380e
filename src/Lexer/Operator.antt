-- ===== src/Lexer/Operator.antt =====
-- src/lexer.c: the operators and brackets.
use shecc.Prelude.{ℕ, ◌+◌, ◌&&◌, [], ◌==◌, if◌then◌else◌}
use shecc.Lexer.{Lex, Kind, Lexed, peek_char, read_char, new_token}

-- `read_char` and a token of one character.
unfoldable pub one_char : Kind → Lex → Lexed
unfolding read_char new_token
one_char kind s = new_token kind [] 1 (read_char s).1

-- The first character is read already: a token of that one, or of two after another `read_char`.
unfoldable pub two_chars : Kind → Lex → Lexed
unfolding read_char new_token
two_chars kind s = new_token kind [] 2 (read_char s).1

-- An operator that `=` may follow.
unfoldable pub lex_with_eq : Kind → Kind → Lex → Lexed
unfolding read_char new_token two_chars
lex_with_eq eq_kind kind s =
    let (ch, s') = read_char s in if ch == 61 then two_chars eq_kind s' else new_token kind [] 1 s'

-- An operator that itself or `=` may follow.
unfoldable pub lex_doubled : ℕ → Kind → Kind → Kind → Lex → Lexed
unfolding read_char new_token two_chars
lex_doubled c double_kind eq_kind kind s =
    let (ch, s') = read_char s in
    if ch == c
    then two_chars double_kind s'
    else if ch == 61
    then two_chars eq_kind s'
    else new_token kind [] 1 s'

-- `<` and `>`, whose shift may have a `=` after it.
unfoldable pub lex_compared : ℕ → Kind → Kind → Kind → Kind → Lex → Lexed
unfolding read_char new_token two_chars
lex_compared c eq_kind shift_eq_kind shift_kind kind s =
    let (ch, s') = read_char s in
    let (ch', s'') = read_char s' in
    if ch == 61
    then two_chars eq_kind s'
    else if ch == c
    then (if ch' == 61
        then new_token shift_eq_kind [] 3 (read_char s'').1
        else new_token shift_kind [] 2 s'')
    else new_token kind [] 1 s'

-- A dot, or three.
unfoldable pub lex_dot : Lex → Lexed
unfolding read_char peek_char new_token
lex_dot s =
    let (ch, s') = read_char s in
    if ch == 46 && peek_char s' 1 == 46
    then new_token Kind.t_elipsis [] 3 (record s' { size = s'.size + 2 })
    else new_token Kind.t_dot [] 1 s'

unfoldable pub lex_minus : Lex → Lexed
unfolding read_char new_token two_chars
lex_minus s =
    let (ch, s') = read_char s in
    if ch == 62
    then two_chars Kind.t_arrow s'
    else if ch == 45
    then two_chars Kind.t_decrement s'
    else if ch == 61
    then two_chars Kind.t_minuseq s'
    else new_token Kind.t_minus [] 1 s'

-- The characters that stand for themselves.
unfoldable pub lex_single : ℕ → Lex → Lexed → Lexed
unfolding one_char
lex_single ch s otherwise =
    if ch == 40
    then one_char Kind.t_open_bracket s
    else if ch == 41
    then one_char Kind.t_close_bracket s
    else if ch == 123
    then one_char Kind.t_open_curly s
    else if ch == 125
    then one_char Kind.t_close_curly s
    else if ch == 91
    then one_char Kind.t_open_square s
    else if ch == 93
    then one_char Kind.t_close_square s
    else if ch == 44
    then one_char Kind.t_comma s
    else if ch == 126
    then one_char Kind.t_bit_not s
    else if ch == 59
    then one_char Kind.t_semicolon s
    else if ch == 63
    then one_char Kind.t_question s
    else if ch == 58
    then one_char Kind.t_colon s
    else otherwise

-- The token of a character that starts an operator; `otherwise` for one that does not.
unfoldable pub lex_operator : ℕ → Lex → Lexed → Lexed
unfolding lex_single lex_with_eq lex_doubled lex_compared lex_dot lex_minus
lex_operator ch s otherwise =
    if ch == 94
    then lex_with_eq Kind.t_xoreq Kind.t_bit_xor s
    else if ch == 42
    then lex_with_eq Kind.t_asteriskeq Kind.t_asterisk s
    else if ch == 38
    then lex_doubled 38 Kind.t_log_and Kind.t_andeq Kind.t_ampersand s
    else if ch == 124
    then lex_doubled 124 Kind.t_log_or Kind.t_oreq Kind.t_bit_or s
    else if ch == 60
    then lex_compared 60 Kind.t_le Kind.t_lshifteq Kind.t_lshift Kind.t_lt s
    else if ch == 37
    then lex_with_eq Kind.t_modeq Kind.t_mod s
    else if ch == 62
    then lex_compared 62 Kind.t_ge Kind.t_rshifteq Kind.t_rshift Kind.t_gt s
    else if ch == 33
    then lex_with_eq Kind.t_noteq Kind.t_log_not s
    else if ch == 46
    then lex_dot s
    else if ch == 45
    then lex_minus s
    else if ch == 43
    then lex_doubled 43 Kind.t_increment Kind.t_pluseq Kind.t_plus s
    else if ch == 61
    then lex_with_eq Kind.t_eq Kind.t_assign s
    else lex_single ch s otherwise
