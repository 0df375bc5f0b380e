-- ===== src/Lexer/Keyword.antt =====
-- src/lexer.c: keywords and directives.
pub mod Fast
use shecc.Prelude.{ℕ, ◌≡◌, Bool, true, false, ◌&&◌, List, [], ◌∷◌, length, ◌==◌, if◌then◌else◌}
use shecc.Elf.Dynamic.{chars}
use shecc.Hashmap.Key.{same_str}
use shecc.Lexer.{Kind, nth}

-- A `token_mapping_t`
pub record Mapping : Type 0 where
  pub name : List ℕ
  pub token : Kind

abbrev mapping : List ℕ → Kind → Mapping
mapping name token = record { name = name; token = token }

abbrev directives : List Mapping
directives =
    mapping (chars "#define") Kind.t_cppd_define
    ∷ mapping (chars "#elif") Kind.t_cppd_elif
    ∷ mapping (chars "#else") Kind.t_cppd_else
    ∷ mapping (chars "#endif") Kind.t_cppd_endif
    ∷ mapping (chars "#error") Kind.t_cppd_error
    ∷ mapping (chars "#if") Kind.t_cppd_if
    ∷ mapping (chars "#ifdef") Kind.t_cppd_ifdef
    ∷ mapping (chars "#ifndef") Kind.t_cppd_ifndef
    ∷ mapping (chars "#include") Kind.t_cppd_include
    ∷ mapping (chars "#pragma") Kind.t_cppd_pragma
    ∷ mapping (chars "#undef") Kind.t_cppd_undef
    ∷ []

abbrev pub keywords : List Mapping
keywords =
    mapping (chars "if") Kind.t_if
    ∷ mapping (chars "while") Kind.t_while
    ∷ mapping (chars "for") Kind.t_for
    ∷ mapping (chars "do") Kind.t_do
    ∷ mapping (chars "else") Kind.t_else
    ∷ mapping (chars "return") Kind.t_return
    ∷ mapping (chars "typedef") Kind.t_typedef
    ∷ mapping (chars "enum") Kind.t_enum
    ∷ mapping (chars "struct") Kind.t_struct
    ∷ mapping (chars "sizeof") Kind.t_sizeof
    ∷ mapping (chars "switch") Kind.t_switch
    ∷ mapping (chars "case") Kind.t_case
    ∷ mapping (chars "break") Kind.t_break
    ∷ mapping (chars "default") Kind.t_default
    ∷ mapping (chars "continue") Kind.t_continue
    ∷ mapping (chars "goto") Kind.t_goto
    ∷ mapping (chars "union") Kind.t_union
    ∷ mapping (chars "const") Kind.t_const
    ∷ []

-- `hashmap_get` of a map with these entries, and T_identifier without one.
unfoldable pub lookup : List Mapping → List ℕ → Kind
lookup [] token = Kind.t_identifier
lookup (m ∷ ms) token =
    let rest = lookup ms token in if same_str m.name token then m.token else rest

unfoldable pub lookup_directive : List ℕ → Kind
unfolding lookup
lookup_directive = lookup directives

unfoldable pub lookup_keyword : List ℕ → Kind
unfolding lookup
lookup_keyword = lookup keywords

abbrev pub is_identifier : Kind → Bool
is_identifier Kind.t_identifier = true
is_identifier _ = false

-- The cases of the `switch` on the length; `memcmp` with a name of that length compares the whole.
abbrev pub fast_2 : List ℕ → Kind
fast_2 token =
    if same_str (chars "if") token
    then Kind.t_if
    else if same_str (chars "do") token
    then Kind.t_do
    else Kind.t_identifier

abbrev pub fast_3 : List ℕ → Kind
fast_3 token = if same_str (chars "for") token then Kind.t_for else Kind.t_identifier

abbrev pub fast_4 : List ℕ → Kind
fast_4 token =
    if nth 0 token == 101
    then (if same_str (chars "else") token
        then Kind.t_else
        else if same_str (chars "enum") token
        then Kind.t_enum
        else Kind.t_identifier)
    else if same_str (chars "case") token
    then Kind.t_case
    else if same_str (chars "goto") token
    then Kind.t_goto
    else Kind.t_identifier

abbrev pub fast_5 : List ℕ → Kind
fast_5 token =
    if nth 0 token == 119 && same_str (chars "while") token
    then Kind.t_while
    else if nth 0 token == 98 && same_str (chars "break") token
    then Kind.t_break
    else if nth 0 token == 117 && same_str (chars "union") token
    then Kind.t_union
    else if nth 0 token == 99 && same_str (chars "const") token
    then Kind.t_const
    else Kind.t_identifier

abbrev pub fast_6 : List ℕ → Kind
fast_6 token =
    if nth 0 token == 114 && same_str (chars "return") token
    then Kind.t_return
    else if nth 0 token == 115
    then (if same_str (chars "struct") token
        then Kind.t_struct
        else if same_str (chars "switch") token
        then Kind.t_switch
        else if same_str (chars "sizeof") token
        then Kind.t_sizeof
        else Kind.t_identifier)
    else Kind.t_identifier

abbrev pub fast_7 : List ℕ → Kind
fast_7 token =
    if same_str (chars "typedef") token
    then Kind.t_typedef
    else if same_str (chars "default") token
    then Kind.t_default
    else Kind.t_identifier

abbrev pub fast_8 : List ℕ → Kind
fast_8 token = if same_str (chars "continue") token then Kind.t_continue else Kind.t_identifier

unfoldable pub fast_keyword : List ℕ → Kind
fast_keyword token =
    if length token == 2
    then fast_2 token
    else if length token == 3
    then fast_3 token
    else if length token == 4
    then fast_4 token
    else if length token == 5
    then fast_5 token
    else if length token == 6
    then fast_6 token
    else if length token == 7
    then fast_7 token
    else if length token == 8
    then fast_8 token
    else Kind.t_identifier

-- The kind of a word.
unfoldable pub word_kind : List ℕ → Kind
unfolding fast_keyword lookup_keyword
word_kind token =
    let kind = fast_keyword token in if is_identifier kind then lookup_keyword token else kind
