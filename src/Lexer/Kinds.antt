-- ===== src/Lexer/Kinds.antt =====
-- src/defs.h: `token_kind_t` as numbers, which `==` compares.
use shecc.Prelude.{ℕ, Bool, ◌==◌}
use shecc.Lexer.{Kind}

-- The number of a kind in its enumeration.
abbrev pub kind_id : Kind → ℕ
kind_id Kind.t_start = 0
kind_id Kind.t_eof = 1
kind_id Kind.t_numeric = 2
kind_id Kind.t_identifier = 3
kind_id Kind.t_comma = 4
kind_id Kind.t_string = 5
kind_id Kind.t_char = 6
kind_id Kind.t_open_bracket = 7
kind_id Kind.t_close_bracket = 8
kind_id Kind.t_open_curly = 9
kind_id Kind.t_close_curly = 10
kind_id Kind.t_open_square = 11
kind_id Kind.t_close_square = 12
kind_id Kind.t_asterisk = 13
kind_id Kind.t_divide = 14
kind_id Kind.t_mod = 15
kind_id Kind.t_bit_or = 16
kind_id Kind.t_bit_xor = 17
kind_id Kind.t_bit_not = 18
kind_id Kind.t_log_and = 19
kind_id Kind.t_log_or = 20
kind_id Kind.t_log_not = 21
kind_id Kind.t_lt = 22
kind_id Kind.t_gt = 23
kind_id Kind.t_le = 24
kind_id Kind.t_ge = 25
kind_id Kind.t_lshift = 26
kind_id Kind.t_rshift = 27
kind_id Kind.t_dot = 28
kind_id Kind.t_arrow = 29
kind_id Kind.t_plus = 30
kind_id Kind.t_minus = 31
kind_id Kind.t_minuseq = 32
kind_id Kind.t_pluseq = 33
kind_id Kind.t_asteriskeq = 34
kind_id Kind.t_divideeq = 35
kind_id Kind.t_modeq = 36
kind_id Kind.t_lshifteq = 37
kind_id Kind.t_rshifteq = 38
kind_id Kind.t_xoreq = 39
kind_id Kind.t_oreq = 40
kind_id Kind.t_andeq = 41
kind_id Kind.t_eq = 42
kind_id Kind.t_noteq = 43
kind_id Kind.t_assign = 44
kind_id Kind.t_increment = 45
kind_id Kind.t_decrement = 46
kind_id Kind.t_question = 47
kind_id Kind.t_colon = 48
kind_id Kind.t_semicolon = 49
kind_id Kind.t_ampersand = 50
kind_id Kind.t_return = 51
kind_id Kind.t_if = 52
kind_id Kind.t_else = 53
kind_id Kind.t_while = 54
kind_id Kind.t_for = 55
kind_id Kind.t_do = 56
kind_id Kind.t_typedef = 57
kind_id Kind.t_enum = 58
kind_id Kind.t_struct = 59
kind_id Kind.t_union = 60
kind_id Kind.t_sizeof = 61
kind_id Kind.t_elipsis = 62
kind_id Kind.t_switch = 63
kind_id Kind.t_case = 64
kind_id Kind.t_break = 65
kind_id Kind.t_default = 66
kind_id Kind.t_continue = 67
kind_id Kind.t_goto = 68
kind_id Kind.t_const = 69
kind_id Kind.t_cppd_include = 70
kind_id Kind.t_cppd_define = 71
kind_id Kind.t_cppd_undef = 72
kind_id Kind.t_cppd_error = 73
kind_id Kind.t_cppd_if = 74
kind_id Kind.t_cppd_elif = 75
kind_id Kind.t_cppd_else = 76
kind_id Kind.t_cppd_endif = 77
kind_id Kind.t_cppd_ifdef = 78
kind_id Kind.t_cppd_ifndef = 79
kind_id Kind.t_cppd_pragma = 80
kind_id Kind.t_newline = 81
kind_id Kind.t_backslash = 82
kind_id Kind.t_whitespace = 83
kind_id Kind.t_tab = 84

abbrev pub same_kind : Kind → Kind → Bool
same_kind a b = kind_id a == kind_id b
