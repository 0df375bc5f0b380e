-- ===== src/Lexer/Progress/Rounds.antt =====
-- src/lexer.c: the loops that fill `token_buffer` have rounds enough, since they fail when it is full.
use shecc.Prelude.{
  ℕ, zero, suc, ◌+◌, ◌-◌, ◌≤◌, ◌<◌, ◌≡◌, refl, ap, arith, Bool, none, some, List, [], ◌∷◌, ◌++◌,
  not, ◌&&◌, length, length-append, leb, ltb, ◌==◌, if◌then◌else◌, Bool-cases, inl, inr,
}
use shecc.Lexer.{read_char, max_token_len}
use shecc.Lexer.Scan.{Scanned, while_loop}
use shecc.Lexer.Dispatch.{last, string_loop, char_loop}

-- The text with one character more.
longer :
    (text : List ℕ) (ch fuel : ℕ)
    → max_token_len ≤ length text + suc fuel
    → max_token_len ≤ length (text ++ ch ∷ []) + fuel
longer text ch fuel enough = omega (arith, enough, length-append text (ch ∷ []))

-- With as many rounds as `token_buffer` has places left, one more changes nothing. The other loops
-- test the length only before they write, and take one round more.
while_loop-rounds :
    (test : ℕ → Bool) (fuel : ℕ) (sc : Scanned)
    → 0 < fuel
    → max_token_len ≤ length sc.text + fuel
    → while_loop test (suc fuel) sc ≡ while_loop test fuel sc
unfolding while_loop
while_loop-rounds test zero sc some_left enough = absurd (omega (arith, some_left))
while_loop-rounds test (suc fuel) sc some_left enough =
    elim (Bool-cases (leb (max_token_len - 1) (length sc.text))) [
      | inl full ↦ rw full refl
      | inr room ↦
          ap
            (λ r.
              if not (test sc.ch)
              then some sc
              else if leb (max_token_len - 1) (length sc.text)
              then none
              else r)
            (while_loop-rounds test fuel
              (record {
                text = sc.text ++ sc.ch ∷ [];
                ch = (read_char sc.state).0;
                state = (read_char sc.state).1;
              })
              (ground (arith, room, enough)) (longer sc.text sc.ch fuel enough))
    ]

longer_by_one :
    (text : List ℕ) (ch fuel : ℕ)
    → max_token_len + 1 ≤ length text + suc fuel
    → max_token_len + 1 ≤ length (text ++ ch ∷ []) + fuel
longer_by_one text ch fuel enough = omega (arith, enough, length-append text (ch ∷ []))

string_loop-rounds :
    (fuel : ℕ) (special : Bool) (sc : Scanned)
    → 0 < fuel
    → max_token_len + 1 ≤ length sc.text + fuel
    → string_loop (suc fuel) special sc ≡ string_loop fuel special sc
unfolding string_loop
string_loop-rounds zero special sc some_left enough = absurd (omega (arith, some_left))
string_loop-rounds (suc fuel) special sc some_left enough =
    elim (Bool-cases (leb max_token_len (length sc.text))) [
      | inl full ↦ rw full refl
      | inr room ↦
          ap
            (λ r.
              if leb max_token_len (length sc.text)
              then none
              else if sc.ch == 34 && not special
              then some sc
              else if not (ltb 0 (length sc.text) && last sc.text == 92)
                  && leb (max_token_len - 1) (length sc.text)
              then none
              else r)
            (string_loop-rounds fuel (sc.ch == 92)
              (record {
                text = sc.text ++ sc.ch ∷ [];
                ch = (read_char sc.state).0;
                state = (read_char sc.state).1;
              })
              (ground (arith, room, enough)) (longer_by_one sc.text sc.ch fuel enough))
    ]

char_loop-rounds :
    (fuel : ℕ) (sc : Scanned)
    → 0 < fuel
    → max_token_len + 1 ≤ length sc.text + fuel
    → char_loop (suc fuel) sc ≡ char_loop fuel sc
unfolding char_loop
char_loop-rounds zero sc some_left enough = absurd (omega (arith, some_left))
char_loop-rounds (suc fuel) sc some_left enough =
    elim (Bool-cases (leb max_token_len (length sc.text))) [
      | inl full ↦ rw full refl
      | inr room ↦
          ap
            (λ r.
              if leb max_token_len (length sc.text)
              then none
              else if not (sc.ch == 0) && not (sc.ch == 39)
              then r
              else some sc)
            (char_loop-rounds fuel
              (record {
                text = sc.text ++ sc.ch ∷ [];
                ch = (read_char sc.state).0;
                state = (read_char sc.state).1;
              })
              (ground (arith, room, enough)) (longer_by_one sc.text sc.ch fuel enough))
    ]
