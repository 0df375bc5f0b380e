-- ===== src/Lexer/Progress/Spaces.antt =====
-- src/lexer.c: the spaces of `lex_token`.
use shecc.Prelude.{
  ℕ, zero, suc, ◌+◌, ◌≤◌, ◌<◌, ◌≡◌, ◌∙◌, sym, arith, Bool, true, false, Option, none, some, List,
  length, ltb, ◌==◌, if◌then◌else◌, Bool-cases, inl, inr,
}
use mathlib.Core.Path.{subst}
use shecc.Lexer.{Lex, read_char, new_token}
use shecc.Lexer.Dispatch.{space_loop, after_space, lex_space}
use shecc.Lexer.Progress.{Reached, read_char-Reached, read_char-strict}
use shecc.Lexer.Progress.Comments.{IsTerminated, StepGoes}

-- The rounds run out only where the file does not end with a zero.
abbrev Spaced : ℕ → List ℕ → Option (ℕ × Lex) → Type 0
Spaced n els none = ¬ (IsTerminated els)
Spaced n els (some (sz, s)) = Reached n els s

if_Spaced :
    (n : ℕ) (els : List ℕ) (b : Bool) (x y : Option (ℕ × Lex))
    → Spaced n els x
    → Spaced n els y
    → Spaced n els (if b then x else y)
if_Spaced n els true x y hx hy = hx
if_Spaced n els false x y hx hy = hy

-- Without a zero at the end, whatever the rounds.
space_loop-open :
    (n : ℕ) (els : List ℕ) (fuel sz : ℕ) (s : Lex)
    → ¬ (IsTerminated els)
    → Reached n els (read_char s).1
    → Spaced n els (space_loop fuel sz s)
unfolding space_loop
space_loop-open n els zero sz s endless at = endless
space_loop-open n els (suc fuel) sz s endless at =
    let rest =
      space_loop-open n els fuel (sz + 1) (read_char s).1 endless
        (read_char-Reached n els (read_char s).1 at) in
    search (if_Spaced) depth 4

-- At the last character that is read again.
read_char-last :
    (s : Lex) → length s.elements ≤ s.size + 1 → IsTerminated s.elements → (read_char s).0 ≡ 0
unfolding read_char
read_char-last s last (full, zero_last) = ground (arith, last, zero_last)

space_loop-Spaced :
    (n : ℕ) (els : List ℕ) (fuel sz : ℕ) (s : Lex)
    → s.elements ≡ els
    → 0 < fuel
    → length s.elements ≤ s.size + fuel
    → Reached n els (read_char s).1
    → Spaced n els (space_loop fuel sz s)
unfolding space_loop
space_loop-Spaced n els zero sz s same some_left enough at = absurd (omega (arith, some_left))
space_loop-Spaced n els (suc fuel) sz s same some_left enough at =
    elim (Bool-cases (ltb (s.size + 1) (length s.elements))) [
      | inl within ↦
          let inside : s.size + 1 < length s.elements = ground (arith, within) in
          let further = read_char-strict s inside in
          let rest =
            space_loop-Spaced n els fuel (sz + 1) (read_char s).1 at.1
              (omega (arith, inside, enough))
              (subst (λ e. length e ≤ (read_char s).1.size + fuel) (same ∙ sym at.1)
                (omega (arith, enough, further.0)))
              (read_char-Reached n els (read_char s).1 at) in
          search (if_Spaced) depth 4
      | inr outside ↦
          let last : length s.elements ≤ s.size + 1 = ground (arith, outside) in
          elim (Bool-cases ((read_char s).0 == 32)) [
            | inr done ↦ rw done at
            | inl more ↦ rw more (
                space_loop-open n els fuel (sz + 1) (read_char s).1
                  (λ ended.
                    zero_space (read_char-last s last (subst IsTerminated (sym same) ended)) more)
                  (read_char-Reached n els (read_char s).1 at))
          ]
    ]
  where
    zero_space : {c : ℕ} → c ≡ 0 → c == 32 ≡ true → ⊥
    zero_space e h = ground (arith, e, h)

after_space-StepGoes :
    (n : ℕ) (els : List ℕ) (o : Option (ℕ × Lex)) → Spaced n els o → StepGoes n els (after_space o)
unfolding new_token
after_space-StepGoes n els none at = at
after_space-StepGoes n els (some (sz, s)) at = at

pub lex_space-StepGoes :
    (n : ℕ) (els : List ℕ) (s : Lex)
    → s.elements ≡ els
    → 0 < length s.elements
    → Reached n els (read_char s).1
    → StepGoes n els (lex_space s)
unfolding lex_space
lex_space-StepGoes n els s same full at =
    after_space-StepGoes n els _
      (space_loop-Spaced n els (length s.elements) 1 s same full (omega arith) at)
