-- ===== src/Lexer.antt =====
-- src/lexer.c: the state of the lexer and what all its parts read and write.
pub mod Scan
pub mod Keyword
pub mod Operator
pub mod Dispatch
pub mod Progress
pub mod Stream
pub mod Cursor
pub mod Kinds
pub mod Branch
pub mod Words
mod Tests
use shecc.Prelude.{
  ℕ, zero, suc, ◌+◌, ◌-◌, ◌≡◌, Bool, true, false, ◌&&◌, ◌||◌, not, Option, none, some, List, [],
  ◌∷◌, ◌++◌, length, ltb, leb, ◌==◌, if◌then◌else◌,
}

-- `token_kind_t`
pub data Kind : Type 0 where
  t_start : Kind
  t_eof : Kind
  t_numeric : Kind
  t_identifier : Kind
  t_comma : Kind
  t_string : Kind
  t_char : Kind
  t_open_bracket : Kind
  t_close_bracket : Kind
  t_open_curly : Kind
  t_close_curly : Kind
  t_open_square : Kind
  t_close_square : Kind
  t_asterisk : Kind
  t_divide : Kind
  t_mod : Kind
  t_bit_or : Kind
  t_bit_xor : Kind
  t_bit_not : Kind
  t_log_and : Kind
  t_log_or : Kind
  t_log_not : Kind
  t_lt : Kind
  t_gt : Kind
  t_le : Kind
  t_ge : Kind
  t_lshift : Kind
  t_rshift : Kind
  t_dot : Kind
  t_arrow : Kind
  t_plus : Kind
  t_minus : Kind
  t_minuseq : Kind
  t_pluseq : Kind
  t_asteriskeq : Kind
  t_divideeq : Kind
  t_modeq : Kind
  t_lshifteq : Kind
  t_rshifteq : Kind
  t_xoreq : Kind
  t_oreq : Kind
  t_andeq : Kind
  t_eq : Kind
  t_noteq : Kind
  t_assign : Kind
  t_increment : Kind
  t_decrement : Kind
  t_question : Kind
  t_colon : Kind
  t_semicolon : Kind
  t_ampersand : Kind
  t_return : Kind
  t_if : Kind
  t_else : Kind
  t_while : Kind
  t_for : Kind
  t_do : Kind
  t_typedef : Kind
  t_enum : Kind
  t_struct : Kind
  t_union : Kind
  t_sizeof : Kind
  t_elipsis : Kind
  t_switch : Kind
  t_case : Kind
  t_break : Kind
  t_default : Kind
  t_continue : Kind
  t_goto : Kind
  t_const : Kind
  t_cppd_include : Kind
  t_cppd_define : Kind
  t_cppd_undef : Kind
  t_cppd_error : Kind
  t_cppd_if : Kind
  t_cppd_elif : Kind
  t_cppd_else : Kind
  t_cppd_endif : Kind
  t_cppd_ifdef : Kind
  t_cppd_ifndef : Kind
  t_cppd_pragma : Kind
  t_newline : Kind
  t_backslash : Kind
  t_whitespace : Kind
  t_tab : Kind

abbrev pub nth : ℕ → List ℕ → ℕ
nth n [] = 0
nth zero (c ∷ cs) = c
nth (suc n) (c ∷ cs) = nth n cs

-- A `strbuf_t`, whose `size` is where the lexer reads, with the `source_location_t` without the name
-- of the file. The capacity is the length of the elements.
pub record Lex : Type 0 where
  pub elements : List ℕ
  pub size : ℕ
  pub pos : ℕ
  pub line : ℕ
  pub column : ℕ

pub record Token : Type 0 where
  pub kind : Kind
  pub literal : List ℕ
  pub at : ℕ
  pub len : ℕ
  pub on_line : ℕ
  pub on_column : ℕ

-- A token and what is left; `none` where `error_at` ends the program.
abbrev pub Lexed : Type 0
Lexed = Option (Token × Lex)

unfoldable pub peek_char : Lex → ℕ → ℕ
peek_char s offset =
    if leb (length s.elements) (s.size + offset) then 0 else nth (s.size + offset) s.elements

-- The character that `read_char` returns, and the state after it.
unfoldable pub read_char : Lex → ℕ × Lex
read_char s =
    if leb (length s.elements) (s.size + 1)
    then (nth (length s.elements - 1) s.elements, s)
    else (nth (s.size + 1) s.elements, record s { size = s.size + 1 })

-- `new_token`, and the column after it.
unfoldable pub new_token : Kind → List ℕ → ℕ → Lex → Lexed
new_token kind literal len s = some (
  record {
    kind = kind;
    literal = literal;
    at = s.pos;
    len = len;
    on_line = s.line;
    on_column = s.column;
  },
  record s { column = s.column + len },
)

abbrev pub is_digit : ℕ → Bool
is_digit ch = leb 48 ch && leb ch 57

abbrev pub is_xdigit : ℕ → Bool
is_xdigit ch = is_digit ch || (leb 65 ch && leb ch 70) || (leb 97 ch && leb ch 102)

abbrev pub is_alnum : ℕ → Bool
is_alnum ch = is_digit ch || (leb 65 ch && leb ch 90) || (leb 97 ch && leb ch 122)

-- `isalnum(ch) || ch == '_'`
abbrev pub is_word : ℕ → Bool
is_word ch = is_alnum ch || ch == 95

abbrev pub max_token_len : ℕ
max_token_len = 256
