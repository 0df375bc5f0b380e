-- ===== src/Lexer/Keyword/Fast.antt =====
-- src/lexer.c: the fast path for keywords against the table.
use shecc.Prelude.{
  ℕ, ◌≡◌, refl, ap, ◌∙◌, ◌⊎◌, inl, inr, arith, Bool, true, false, ◌&&◌, List, length, ◌==◌,
  if◌then◌else◌, Bool-cases,
}
use shecc.Elf.Dynamic.{chars}
use shecc.Hashmap.Key.{same_str, same_str-eq}
use shecc.Lexer.{Kind, nth}
use shecc.Lexer.Keyword.{
  lookup_keyword, is_identifier, fast_keyword, fast_2, fast_3, fast_4, fast_5, fast_6, fast_7,
  fast_8, word_kind,
}

-- No keyword yet, or the one of the table.
abbrev Agrees : List ℕ → Kind → Type 0
Agrees token k = (is_identifier k ≡ true) ⊎ (k ≡ lookup_keyword token)

-- A test whose two sides agree.
if_Agrees :
    (b : Bool) (token : List ℕ) (x y : Kind)
    → (b ≡ true → Agrees token x)
    → Agrees token y
    → Agrees token (if b then x else y)
if_Agrees true token x y hx hy = hx refl
if_Agrees false token x y hx hy = hy

-- A name whose kind is the one in the table.
named :
    (name token : List ℕ) (k : Kind)
    → k ≡ lookup_keyword name
    → same_str name token ≡ true
    → Agrees token k
named name token k known same = inr (known ∙ ap lookup_keyword (same_str-eq name token same))

&&-right : (a b : Bool) → (a && b) ≡ true → b ≡ true
&&-right a b h = ground (arith, h)

fast_2-Agrees : (token : List ℕ) → Agrees token (fast_2 token)
unfolding lookup_keyword same_str
fast_2-Agrees token =
    if_Agrees (same_str (chars "if") token) token Kind.t_if _
      (named (chars "if") token Kind.t_if refl)
      (if_Agrees (same_str (chars "do") token) token Kind.t_do _
        (named (chars "do") token Kind.t_do refl) (inl refl))

fast_3-Agrees : (token : List ℕ) → Agrees token (fast_3 token)
unfolding lookup_keyword same_str
fast_3-Agrees token =
    if_Agrees (same_str (chars "for") token) token Kind.t_for _
      (named (chars "for") token Kind.t_for refl) (inl refl)

fast_4-Agrees : (token : List ℕ) → Agrees token (fast_4 token)
unfolding lookup_keyword same_str
fast_4-Agrees token =
    if_Agrees (nth 0 token == 101) token _ _
      (λ h.
        (if_Agrees (same_str (chars "else") token) token Kind.t_else _
          (named (chars "else") token Kind.t_else refl)
          (if_Agrees (same_str (chars "enum") token) token Kind.t_enum _
            (named (chars "enum") token Kind.t_enum refl) (inl refl))))
      (if_Agrees (same_str (chars "case") token) token Kind.t_case _
        (named (chars "case") token Kind.t_case refl)
        (if_Agrees (same_str (chars "goto") token) token Kind.t_goto _
          (named (chars "goto") token Kind.t_goto refl) (inl refl)))

fast_5-Agrees : (token : List ℕ) → Agrees token (fast_5 token)
unfolding lookup_keyword same_str
fast_5-Agrees token =
    if_Agrees (nth 0 token == 119 && same_str (chars "while") token) token Kind.t_while _
      (λ h.
        named (chars "while") token Kind.t_while refl
          (&&-right (nth 0 token == 119) (same_str (chars "while") token) h))
      (if_Agrees (nth 0 token == 98 && same_str (chars "break") token) token Kind.t_break _
        (λ h.
          named (chars "break") token Kind.t_break refl
            (&&-right (nth 0 token == 98) (same_str (chars "break") token) h))
        (if_Agrees (nth 0 token == 117 && same_str (chars "union") token) token Kind.t_union _
          (λ h.
            named (chars "union") token Kind.t_union refl
              (&&-right (nth 0 token == 117) (same_str (chars "union") token) h))
          (if_Agrees (nth 0 token == 99 && same_str (chars "const") token) token Kind.t_const _
            (λ h.
              named (chars "const") token Kind.t_const refl
                (&&-right (nth 0 token == 99) (same_str (chars "const") token) h))
            (inl refl))))

fast_6-Agrees : (token : List ℕ) → Agrees token (fast_6 token)
unfolding lookup_keyword same_str
fast_6-Agrees token =
    if_Agrees (nth 0 token == 114 && same_str (chars "return") token) token Kind.t_return _
      (λ h.
        named (chars "return") token Kind.t_return refl
          (&&-right (nth 0 token == 114) (same_str (chars "return") token) h))
      (if_Agrees (nth 0 token == 115) token _ _
        (λ h.
          (if_Agrees (same_str (chars "struct") token) token Kind.t_struct _
            (named (chars "struct") token Kind.t_struct refl)
            (if_Agrees (same_str (chars "switch") token) token Kind.t_switch _
              (named (chars "switch") token Kind.t_switch refl)
              (if_Agrees (same_str (chars "sizeof") token) token Kind.t_sizeof _
                (named (chars "sizeof") token Kind.t_sizeof refl) (inl refl)))))
        (inl refl))

fast_7-Agrees : (token : List ℕ) → Agrees token (fast_7 token)
unfolding lookup_keyword same_str
fast_7-Agrees token =
    if_Agrees (same_str (chars "typedef") token) token Kind.t_typedef _
      (named (chars "typedef") token Kind.t_typedef refl)
      (if_Agrees (same_str (chars "default") token) token Kind.t_default _
        (named (chars "default") token Kind.t_default refl) (inl refl))

fast_8-Agrees : (token : List ℕ) → Agrees token (fast_8 token)
unfolding lookup_keyword same_str
fast_8-Agrees token =
    if_Agrees (same_str (chars "continue") token) token Kind.t_continue _
      (named (chars "continue") token Kind.t_continue refl) (inl refl)

fast_keyword-Agrees : (token : List ℕ) → Agrees token (fast_keyword token)
unfolding fast_keyword
fast_keyword-Agrees token =
    if_Agrees (length token == 2) token _ _ (λ h. fast_2-Agrees token)
      (if_Agrees (length token == 3) token _ _ (λ h. fast_3-Agrees token)
        (if_Agrees (length token == 4) token _ _ (λ h. fast_4-Agrees token)
          (if_Agrees (length token == 5) token _ _ (λ h. fast_5-Agrees token)
            (if_Agrees (length token == 6) token _ _ (λ h. fast_6-Agrees token)
              (if_Agrees (length token == 7) token _ _ (λ h. fast_7-Agrees token)
                (if_Agrees (length token == 8) token _ _ (λ h. fast_8-Agrees token) (inl refl)))))))

-- The fast path for keywords, the `switch` on the length with the table after it, gives every word
-- the kind that the table alone gives it.
pub word_kind-lookup_keyword : (token : List ℕ) → word_kind token ≡ lookup_keyword token
unfolding word_kind
word_kind-lookup_keyword token = known (fast_keyword token) (fast_keyword-Agrees token)
  where
    known :
        (k : Kind)
        → Agrees token k
        → (if is_identifier k then lookup_keyword token else k) ≡ lookup_keyword token
    known k (inl none_yet) = rw none_yet refl
    known k (inr same) = elim (Bool-cases (is_identifier k)) [
      | inl none_yet ↦ rw none_yet refl
      | inr found ↦ rw found same
    ]
