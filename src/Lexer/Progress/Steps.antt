-- ===== src/Lexer/Progress/Steps.antt =====
-- src/lexer.c: `lex_token` as a whole goes on in the file, and ends.
use shecc.Prelude.{
  ℕ, zero, suc, ◌+◌, ◌-◌, ◌≤◌, ◌<◌, ◌≡◌, refl, sym, ap, ◌∙◌, arith, List, length, leb, ◌==◌,
  if◌then◌else◌, Bool-cases, inl, inr,
}
use mathlib.Core.Path.{subst}
use shecc.Lexer.{nth, Lex, Lexed, Kind, peek_char, read_char}
use shecc.Lexer.Dispatch.{Step, Outcome, lex_slash, lex_space, lex_other, lex_step, lex_token}
use shecc.Lexer.Progress.{Reached, Goes, read_char-Reached, read_char-strict}
use shecc.Lexer.Operator.{one_char}
use shecc.Lexer.Progress.Tokens.{lex_other-Goes}
use shecc.Lexer.Progress.Comments.{IsTerminated, StepGoes, if_StepGoes, lex_slash-StepGoes}
use shecc.Lexer.Progress.Spaces.{lex_space-StepGoes}

lex_step-StepGoes :
    (n : ℕ) (els : List ℕ) (s : Lex)
    → s.elements ≡ els
    → 0 < length s.elements
    → Reached n els (read_char (record s { pos = s.size })).1
    → StepGoes n els (lex_step s)
unfolding lex_step
lex_step-StepGoes n els s same full at =
    let other = lex_other-Goes n els (peek_char s 0) (record s { pos = s.size }) at in
    let space = lex_space-StepGoes n els (record s { pos = s.size }) same full at in
    let slash =
      lex_slash-StepGoes n els (record s { pos = s.size }) (subst (λ e. 0 < length e) same full)
        at in
    search (if_StepGoes) depth 12

peek_char-last :
    (s : Lex) → IsTerminated s.elements → length s.elements ≤ s.size + 1 → peek_char s 0 ≡ 0
unfolding peek_char
peek_char-last s (full, zero_last) beyond =
    elim (Bool-cases (leb (length s.elements) (s.size + 0))) [
      | inl outside ↦ rw outside refl
      | inr inside ↦ rw inside (
          ap (λ i. nth i s.elements)
            (at_last (s.size + 0) (length s.elements) (ground (arith, inside))
              (omega (arith, beyond)))
          ∙ zero_last)
    ]
  where
    at_last : (i n : ℕ) → i < n → n ≤ i + 1 → i ≡ n - 1
    at_last i n lo hi = omega (arith, lo, hi)

-- There is the end of the file.
lex_step-last :
    (s : Lex)
    → IsTerminated s.elements
    → length s.elements ≤ s.size + 1
    → lex_step s ≡ Step.token (one_char Kind.t_eof (record s { pos = s.size }))
unfolding lex_step lex_other
lex_step-last s ended beyond =
    ap
      (λ ch.
        if ch == 47
        then lex_slash (record s { pos = s.size })
        else if ch == 32
        then lex_space (record s { pos = s.size })
        else Step.token (lex_other ch (record s { pos = s.size })))
      (peek_char-last s ended beyond)

-- So it is where `lex_token` ends with a token.
abbrev pub OutcomeGoes : ℕ → List ℕ → Outcome → Type 0
OutcomeGoes n els (Outcome.ended l) = Goes n els l
OutcomeGoes n els Outcome.unfinished = Unit

-- A call, with what a call of itself does.
abbrev next : Step → (Lex → Outcome) → Outcome
next (Step.token l) rest = Outcome.ended l
next (Step.again s) rest = rest s
next Step.stuck rest = Outcome.unfinished

next-OutcomeGoes :
    (n : ℕ) (els : List ℕ) (x : Step) (rest : Lex → Outcome)
    → StepGoes n els x
    → ((s : Lex) → Reached n els s → OutcomeGoes n els (rest s))
    → OutcomeGoes n els (next x rest)
next-OutcomeGoes n els (Step.token l) rest goes later = goes
next-OutcomeGoes n els (Step.again s) rest goes later = later s goes
next-OutcomeGoes n els Step.stuck rest goes later = tt

lex_token-next : (fuel : ℕ) (s : Lex) → lex_token (suc fuel) s ≡ next (lex_step s) (lex_token fuel)
unfolding lex_token
lex_token-next fuel s = by_step (lex_step s)
  where
    by_step :
        (x : Step)
        → (elim x [
          | Step.token l ↦ Outcome.ended l
          | Step.again s' ↦ lex_token fuel s'
          | Step.stuck ↦ Outcome.unfinished
        ])
          ≡ next x (lex_token fuel)
    by_step (Step.token l) = refl
    by_step (Step.again s') = refl
    by_step Step.stuck = refl

pub lex_token-OutcomeGoes :
    (n : ℕ) (els : List ℕ) (fuel : ℕ) (s : Lex)
    → 0 < length els
    → Reached n els s
    → OutcomeGoes n els (lex_token fuel s)
unfolding lex_token
lex_token-OutcomeGoes n els zero s full at = tt
lex_token-OutcomeGoes n els (suc fuel) s full at =
    subst (OutcomeGoes n els) (sym (lex_token-next fuel s)) (
      next-OutcomeGoes n els (lex_step s) (lex_token fuel)
        (lex_step-StepGoes n els s at.1 (subst (λ e. 0 < length e) (sym at.1) full)
          (read_char-Reached n els (record s { pos = s.size }) at))
        (λ s' h. lex_token-OutcomeGoes n els fuel s' full h))

step-inside :
    (s : Lex) → s.size + 1 < length s.elements → StepGoes (s.size + 1) s.elements (lex_step s)
step-inside s inside =
    lex_step-StepGoes (s.size + 1) s.elements s refl (omega (arith, inside))
      (read_char-strict (record s { pos = s.size }) inside)

-- Before the last character of a file, a token that `lex_token` gives, whatever its fuel, leaves
-- the file as it is and the place in it further on.
pub lex_token-progress :
    (fuel : ℕ) (s : Lex)
    → s.size + 1 < length s.elements
    → OutcomeGoes (s.size + 1) s.elements (lex_token fuel s)
unfolding lex_token
lex_token-progress zero s inside = tt
lex_token-progress (suc fuel) s inside =
    subst (OutcomeGoes (s.size + 1) s.elements) (sym (lex_token-next fuel s)) (
      next-OutcomeGoes (s.size + 1) s.elements (lex_step s) (lex_token fuel) (step-inside s inside)
        (λ s' h. lex_token-OutcomeGoes (s.size + 1) s.elements fuel s' (omega (arith, inside)) h))

-- Whatever the fuel.
pub lex_token_last :
    (m : ℕ) (s : Lex)
    → IsTerminated s.elements
    → length s.elements ≤ s.size + 1
    → lex_token (suc m) s ≡ Outcome.ended (one_char Kind.t_eof (record s { pos = s.size }))
lex_token_last m s ended beyond =
    lex_token-next m s ∙ ap (λ x. next x (lex_token m)) (lex_step-last s ended beyond)

-- Both numbers of calls end, and with the same.
abbrev pub EndAlike : Outcome → Outcome → Type 0
EndAlike x y = (l : Lexed) × (x ≡ Outcome.ended l) × (y ≡ Outcome.ended l)
