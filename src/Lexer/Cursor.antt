-- ===== src/Lexer/Cursor.antt =====
-- src/lexer.c: the functions that the parser moves over a stream of tokens with.
use shecc.Prelude.{
  ℕ, zero, suc, ◌≤◌, ◌≡◌, refl, ap, arith, Bool, true, false, ◌||◌, Option, none, some, List, [],
  ◌∷◌, length, if◌then◌else◌, Bool-cases, inl, inr,
}
use shecc.Lexer.{Token, Kind}
use shecc.Lexer.Kinds.{same_kind}
use shecc.Lexer.Stream.{is_eof, EndsOnce}

-- T_whitespace, T_newline and T_tab
abbrev pub is_unused : Kind → Bool
is_unused k = same_kind k Kind.t_whitespace || same_kind k Kind.t_newline || same_kind k Kind.t_tab

-- `cur_token`, and the tokens that its `next` leads to.
pub record Cursor : Type 0 where
  pub cur_token : Token
  pub next : List Token

abbrev cursor : Token → List Token → Cursor
cursor t ts = record { cur_token = t; next = ts }

-- The loop of `skip_unused_token`.
unfoldable pub skip_from : Token → List Token → Cursor
skip_from t [] = cursor t []
skip_from t (u ∷ ts) =
    let rest = skip_from u ts in if is_unused u.kind then rest else cursor t (u ∷ ts)

unfoldable pub skip_unused_token : Cursor → Cursor
unfolding skip_from
skip_unused_token c = skip_from c.cur_token c.next

-- `cur_token = cur_token->next`; there is a next token unless the current one is T_eof.
abbrev pub advance : Token → List Token → Option (Kind × Cursor)
advance t [] = none
advance t (u ∷ ts) = some (u.kind, cursor u ts)

unfoldable pub lex_next : Cursor → Option (Kind × Cursor)
unfolding skip_unused_token
lex_next c =
    let c' = skip_unused_token c in
    if is_eof c'.cur_token.kind then some (Kind.t_eof, c') else advance c'.cur_token c'.next

-- `cur_token->next && cur_token->next->kind == kind`
abbrev pub is_next : Kind → List Token → Bool
is_next kind [] = false
is_next kind (u ∷ ts) = same_kind u.kind kind

abbrev pub accepted : Option (Kind × Cursor) → Cursor → Bool × Cursor
accepted none c = (true, c)
accepted (some (k, c')) c = (true, c')

unfoldable pub lex_accept : Kind → Cursor → Bool × Cursor
unfolding skip_unused_token lex_next
lex_accept kind c =
    let c' = skip_unused_token c in
    if is_next kind c'.next then accepted (lex_next c') c' else (false, c')

-- The literal of the next token.
abbrev pub literal_of : List Token → List ℕ
literal_of [] = []
literal_of (u ∷ ts) = u.literal

-- The literal, where the kind is as asked.
unfoldable pub lex_peek : Kind → Cursor → Option (List ℕ) × Cursor
unfolding skip_unused_token
lex_peek kind c =
    let c' = skip_unused_token c in
    (if is_next kind c'.next then some (literal_of c'.next) else none, c')

-- `none` is `error_at`.
unfoldable pub lex_expect : Kind → Cursor → Option Cursor
unfolding skip_unused_token lex_next
lex_expect kind c =
    let c' = skip_unused_token c in
    if is_next kind c'.next then some (accepted (lex_next c') c').1 else none

unfoldable pub lex_ident : Kind → Cursor → Option (List ℕ × Cursor)
unfolding skip_unused_token lex_next
lex_ident kind c =
    let c' = skip_unused_token c in
    let (ok, c'') = accepted (lex_next c') c' in
    if is_next kind c'.next then some (c''.cur_token.literal, c'') else none

-- What `read_kinds` makes of a call.
abbrev add_kind : Option (Kind × Cursor) → (Cursor → List Kind) → List Kind
add_kind none rest = []
add_kind (some (k, c)) rest = k ∷ (if is_eof k then [] else rest c)

-- The kinds that calls of `lex_next` give, up to T_eof.
unfoldable pub read_kinds : ℕ → Cursor → List Kind
unfolding lex_next
read_kinds zero c = []
read_kinds (suc n) c = add_kind (lex_next c) (read_kinds n)

-- The kinds of the tokens that are not skipped.
abbrev pub used_kinds : List Token → List Kind
used_kinds [] = []
used_kinds (t ∷ ts) = let rest = used_kinds ts in if is_unused t.kind then rest else t.kind ∷ rest

lex_next-skip :
    (t u : Token) (ts : List Token)
    → is_unused u.kind ≡ true
    → lex_next (cursor t (u ∷ ts)) ≡ lex_next (cursor u ts)
unfolding lex_next
lex_next-skip t u ts unused = rw unused refl

abbrev given : Kind → Cursor → Option (Kind × Cursor)
given k c = some (k, c)

lex_next-used :
    (t u : Token) (ts : List Token)
    → is_unused u.kind ≡ false
    → is_eof t.kind ≡ false
    → lex_next (cursor t (u ∷ ts)) ≡ given u.kind (cursor u ts)
unfolding lex_next
lex_next-used t u ts used more = rw (used, more) refl

read_kinds-skip :
    (n : ℕ) (t u : Token) (ts : List Token)
    → is_unused u.kind ≡ true
    → read_kinds n (cursor t (u ∷ ts)) ≡ read_kinds n (cursor u ts)
unfolding read_kinds
read_kinds-skip zero t u ts unused = refl
read_kinds-skip (suc n) t u ts unused =
    ap (λ x. add_kind x (read_kinds n)) (lex_next-skip t u ts unused)

read_kinds-next :
    (n : ℕ) (t u : Token) (ts : List Token)
    → is_unused u.kind ≡ false
    → is_eof t.kind ≡ false
    → read_kinds (suc n) (cursor t (u ∷ ts))
      ≡ u.kind ∷ (if is_eof u.kind then [] else read_kinds n (cursor u ts))
unfolding read_kinds
read_kinds-next n t u ts used more =
    ap (λ x. add_kind x (read_kinds n)) (lex_next-used t u ts used more)

-- T_eof is not skipped.
eof-used : (k : Kind) → is_eof k ≡ true → is_unused k ≡ false
eof-used k eof = ground (arith, eof)

-- From a token that is not T_eof, before tokens of which only the last is T_eof, repeated calls of
-- `lex_next`, as many as there are tokens or more, give the kinds of the tokens in their order
-- without those for spaces, tabs and line breaks, up to T_eof.
pub read_kinds-used_kinds :
    (n : ℕ) (t : Token) (ts : List Token)
    → EndsOnce ts
    → is_eof t.kind ≡ false
    → length ts ≤ n
    → read_kinds n (cursor t ts) ≡ used_kinds ts
read_kinds-used_kinds n t [] ends more enough = absurd ends
read_kinds-used_kinds zero t (u ∷ ts) ends more enough = absurd (omega (arith, enough))
read_kinds-used_kinds (suc n) t (u ∷ []) ends more enough =
    rw (eof-used u.kind ends, read_kinds-next n t u [] (eof-used u.kind ends) more, ends) refl
read_kinds-used_kinds (suc n) t (u ∷ v ∷ ts) (apart, ends) more enough =
    elim (Bool-cases (is_unused u.kind)) [
      | inl unused ↦
          rw (unused, read_kinds-skip (suc n) t u (v ∷ ts) unused)
            (read_kinds-used_kinds (suc n) u (v ∷ ts) ends apart (omega (arith, enough)))
      | inr used ↦
          rw (used, read_kinds-next n t u (v ∷ ts) used more, apart)
            (ap (u.kind ∷◌) (read_kinds-used_kinds n u (v ∷ ts) ends apart (omega (arith, enough))))
    ]
