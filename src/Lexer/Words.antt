-- ===== src/Lexer/Words.antt =====
-- src/lexer.c: words, from their characters to their token.
use shecc.Prelude.{
  ℕ, zero, suc, ◌+◌, ◌-◌, ◌<◌, ◌≡◌, refl, sym, ap, ◌∙◌, arith, Bool, true, false, some, List, [],
  ◌∷◌, ◌++◌, length, length-append, leb, Bool-cases, inl, inr,
}
use mathlib.Core.List.{append_assoc, append-nil}
use shecc.Program.Placed.{All}
use shecc.Lexer.{nth, Lex, peek_char, read_char, new_token, is_digit, is_word, max_token_len}
use shecc.Lexer.Keyword.{lookup_keyword}
use shecc.Lexer.Keyword.Fast.{word_kind-lookup_keyword}
use shecc.Lexer.Scan.{while_loop, do_loop, with_text}
use shecc.Lexer.Branch.{lex_step-lex_word}
use shecc.Lexer.Dispatch.{Step, Outcome, lex_word, lex_token}

-- The state at the place `i` of a file.
abbrev pub lex_at : List ℕ → ℕ → ℕ → ℕ → ℕ → Lex
lex_at els i p l c = record { elements = els; size = i; pos = p; line = l; column = c }

nth-append : (front back : List ℕ) (x i : ℕ) → i ≡ length front → nth i (front ++ x ∷ back) ≡ x
nth-append [] back x zero at = refl
nth-append [] back x (suc i) at = absurd (omega (arith, at))
nth-append (y ∷ front) back x zero at = absurd (omega (arith, at))
nth-append (y ∷ front) back x (suc i) at = nth-append front back x i (omega (arith, at))

read_char-next :
    (els : List ℕ) (i p l c : ℕ)
    → i + 1 < length els
    → read_char (lex_at els i p l c) ≡ (nth (i + 1) els, lex_at els (i + 1) p l c)
unfolding read_char
read_char-next els i p l c inside = elim (Bool-cases (leb (length els) (i + 1))) [
  | inl last ↦ absurd (ground (arith, last, inside))
  | inr more ↦ rw more refl
]

-- The loop takes the characters up to the first one that the test refuses.
while_loop-text :
    (test : ℕ → Bool) (els front todo post done : List ℕ) (stop fuel ch i p l c : ℕ)
    → els ≡ front ++ todo ++ stop ∷ post
    → i ≡ length front
    → ch ≡ nth i els
    → All (λ x. test x ≡ true) todo
    → test stop ≡ false
    → length done + length todo < max_token_len
    → length todo < fuel
    → while_loop test fuel (record { text = done; ch = ch; state = lex_at els i p l c })
      ≡ some (record { text = done ++ todo; ch = stop; state = lex_at els (i + length todo) p l c })
unfolding while_loop
while_loop-text test els front todo post done stop zero ch i p l c split at here all refused short
      enough =
    absurd (omega (arith, enough))
while_loop-text test els front [] post done stop (suc fuel) ch i p l c split at here all refused
      short enough =
    let this : ch ≡ stop =
      here
      ∙ (ap (nth i) (split ∙ ap (λ f. f ++ stop ∷ post) (append-nil front))
          ∙ nth-append front post stop i at) in
    rw (this, refused)
      (ap (λ k. some (record { text = done; ch = stop; state = lex_at els k p l c })) (plus_zero i)
        ∙ ap (λ d. some (record { text = d; ch = stop; state = lex_at els (i + 0) p l c }))
            (sym (append-nil done)))
  where
    plus_zero : (i : ℕ) → i ≡ i + 0
    plus_zero i = omega arith
while_loop-text test els front (x ∷ todo) post done stop (suc fuel) ch i p l c split at here all
      refused short enough =
    let split' = split ∙ ap (λ f. f ++ stop ∷ post) (sym (append_assoc front (x ∷ []) todo)) in
    let this : ch ≡ x =
      here
      ∙ (ap (nth i) (split ∙ append_assoc front (x ∷ todo) (stop ∷ post))
          ∙ nth-append front (todo ++ stop ∷ post) x i at) in
    let size = ap length split ∙ length-append (front ++ x ∷ todo) (stop ∷ post) in
    let room : leb (max_token_len - 1) (length done) ≡ false = ground (arith, short) in
    let next =
      read_char-next els i p l c (omega (arith, at, size, length-append front (x ∷ todo))) in
    let rest =
      while_loop-text test els (front ++ x ∷ []) todo post (done ++ x ∷ []) stop fuel
        (nth (i + 1) els) (i + 1) p l c split' (omega (arith, at, length-append front (x ∷ [])))
        refl all.1 refused (omega (arith, short, length-append done (x ∷ [])))
        (omega (arith, enough)) in
    rw (this, all.0, room, next)
      (rest
        ∙ (ap
              (λ k.
                some
                  (record { text = done ++ x ∷ [] ++ todo; ch = stop; state = lex_at els k p l c }))
              (plus_suc i (length todo))
            ∙ ap
                (λ d. some (record {
                  text = d;
                  ch = stop;
                  state = lex_at els (i + suc (length todo)) p l c;
                }))
                (append_assoc done (x ∷ []) todo)))
  where
    plus_suc : (i n : ℕ) → i + 1 + n ≡ i + suc n
    plus_suc i n = omega arith

do_loop-text :
    (test : ℕ → Bool) (els front todo post : List ℕ) (first stop i p l c : ℕ)
    → els ≡ front ++ first ∷ todo ++ stop ∷ post
    → i ≡ length front
    → All (λ x. test x ≡ true) todo
    → test stop ≡ false
    → 1 + length todo < max_token_len
    → do_loop test (record { text = []; ch = first; state = lex_at els i p l c })
      ≡ some (record {
        text = first ∷ todo;
        ch = stop;
        state = lex_at els (i + 1 + length todo) p l c;
      })
unfolding do_loop
do_loop-text test els front todo post first stop i p l c split at all refused short =
    let split' = split ∙ ap (λ f. f ++ stop ∷ post) (sym (append_assoc front (first ∷ []) todo)) in
    let size = ap length split ∙ length-append (front ++ first ∷ todo) (stop ∷ post) in
    rw (read_char-next els i p l c (omega (arith, at, size, length-append front (first ∷ todo)))) (
      while_loop-text test els (front ++ first ∷ []) todo post (first ∷ []) stop max_token_len
        (nth (i + 1) els) (i + 1) p l c split' (omega (arith, at, length-append front (first ∷ [])))
        refl all refused (omega (arith, short)) (omega (arith, short)))

peek_char-text :
    (els front back : List ℕ) (x p l c : ℕ)
    → els ≡ front ++ x ∷ back
    → peek_char (lex_at els (length front) p l c) 0 ≡ x
unfolding peek_char
peek_char-text els front back x p l c split =
    elim (Bool-cases (leb (length els) (length front + 0))) [
      | inl outside ↦
          absurd (ground (arith, outside, ap length split, length-append front (x ∷ back)))
      | inr inside ↦ rw inside (
          ap (nth (length front + 0)) split
          ∙ nth-append front back x (length front + 0) (omega arith))
    ]

lex_word-text :
    (els front todo post : List ℕ) (first stop p l c : ℕ)
    → els ≡ front ++ first ∷ todo ++ stop ∷ post
    → All (λ x. is_word x ≡ true) todo
    → is_word stop ≡ false
    → 1 + length todo < max_token_len
    → lex_word first (lex_at els (length front) p l c)
      ≡ some (
        record {
          kind = lookup_keyword (first ∷ todo);
          literal = first ∷ todo;
          at = p;
          len = length (first ∷ todo);
          on_line = l;
          on_column = c;
        },
        lex_at els (length front + 1 + length todo) p l (c + length (first ∷ todo)),
      )
unfolding lex_word with_text new_token
lex_word-text els front todo post first stop p l c split all refused short =
    rw
      (
        do_loop-text is_word els front todo post first stop (length front) p l c split refl all
            refused short,
        word_kind-lookup_keyword (first ∷ todo),
      )
      refl

-- In a file with a word of letters, digits and underscores that starts with no digit, is shorter
-- than 256 characters and has another character after it, `lex_token` at the start of the word
-- gives a token with the word as its literal, the kind that the table of keywords has for it, and
-- its place and length, and goes on after the word.
pub lex_token-word :
    (fuel : ℕ) (els front todo post : List ℕ) (first stop p l c : ℕ)
    → els ≡ front ++ first ∷ todo ++ stop ∷ post
    → is_word first ≡ true
    → is_digit first ≡ false
    → All (λ x. is_word x ≡ true) todo
    → is_word stop ≡ false
    → 1 + length todo < max_token_len
    → lex_token (suc fuel) (lex_at els (length front) p l c)
      ≡ Outcome.ended (
          some (
            record {
              kind = lookup_keyword (first ∷ todo);
              literal = first ∷ todo;
              at = length front;
              len = length (first ∷ todo);
              on_line = l;
              on_column = c;
            },
            lex_at els
                (length front + 1 + length todo)
                (length front)
                l
                (c + length (first ∷ todo)),
          ))
unfolding lex_token
lex_token-word fuel els front todo post first stop p l c split word letter all refused short =
    ap
      (λ x. elim x [
        | Step.token t ↦ Outcome.ended t
        | Step.again s' ↦ lex_token fuel s'
        | Step.stuck ↦ Outcome.unfinished
      ])
      (lex_step-lex_word first (lex_at els (length front) p l c)
        (peek_char-text els front (todo ++ stop ∷ post) first p l c
          (split ∙ append_assoc front (first ∷ todo) (stop ∷ post)))
        word letter)
    ∙ ap Outcome.ended
        (lex_word-text els front todo post first stop (length front) l c split all refused short)
