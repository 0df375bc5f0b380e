-- ===== src/Lexer/Branch.antt =====
-- src/lexer.c: the branch of `lex_token` for words.
use shecc.Prelude.{
  ℕ, ◌≡◌, refl, ap, ◌∙◌, arith, Bool, true, false, none, ◌==◌, if◌then◌else◌, Bool-cases, inl, inr,
}
use shecc.Lexer.{Lex, Lexed, peek_char, is_digit, is_word}
use shecc.Lexer.Operator.{lex_single, lex_operator}
use shecc.Lexer.Dispatch.{Step, lex_slash, lex_space, lex_word, lex_other, lex_step}

if_skip : (b : Bool) (x y z : Lexed) → b ≡ false → y ≡ z → (if b then x else y) ≡ z
if_skip true x y z off same = cc
if_skip false x y z off same = same

if_take : (b : Bool) (x y : Lexed) → b ≡ true → (if b then x else y) ≡ x
if_take true x y on = refl
if_take false x y on = cc

other_char : (ch k : ℕ) → is_word ch ≡ true → is_word k ≡ false → ch == k ≡ false
other_char ch k word other = elim (Bool-cases (ch == k)) [
  | inr apart ↦ apart
  | inl same ↦ absurd (ground (arith, same, word, other))
]

lex_single-lex_word :
    (ch : ℕ) (s : Lex) (otherwise : Lexed)
    → is_word ch ≡ true
    → lex_single ch s otherwise ≡ otherwise
unfolding lex_single
lex_single-lex_word ch s otherwise word = search (if_skip, other_char) depth 24

lex_operator-lex_word :
    (ch : ℕ) (s : Lex) (otherwise : Lexed)
    → is_word ch ≡ true
    → lex_operator ch s otherwise ≡ otherwise
unfolding lex_operator
lex_operator-lex_word ch s otherwise word =
    search (if_skip, other_char, lex_single-lex_word) depth 24

lex_other-lex_word :
    (ch : ℕ) (s : Lex) → is_word ch ≡ true → is_digit ch ≡ false → lex_other ch s ≡ lex_word ch s
unfolding lex_other
lex_other-lex_word ch s word letter =
    let operator =
      lex_operator-lex_word ch s (if is_word ch then lex_word ch s else none) word
      ∙ if_take (is_word ch) (lex_word ch s) none word in
    search (if_skip, other_char) depth 24

-- A word starts with a letter or an underscore.
pub lex_step-lex_word :
    (ch : ℕ) (s : Lex)
    → peek_char s 0 ≡ ch
    → is_word ch ≡ true
    → is_digit ch ≡ false
    → lex_step s ≡ Step.token (lex_word ch (record s { pos = s.size }))
unfolding lex_step
lex_step-lex_word ch s peek word letter =
    ap
      (λ k.
        if k == 47
        then lex_slash (record s { pos = s.size })
        else if k == 32
        then lex_space (record s { pos = s.size })
        else Step.token (lex_other k (record s { pos = s.size })))
      peek
    ∙ (rw (other_char ch 47 word refl, other_char ch 32 word refl)
        (ap Step.token (lex_other-lex_word ch (record s { pos = s.size }) word letter)))
