-- ===== src/Lexer/Progress/Comments.antt =====
-- src/lexer.c: the comments of `lex_token` go on in the file, and end.
use shecc.Prelude.{
  ℕ, zero, suc, ◌+◌, ◌-◌, ◌≤◌, ◌<◌, ◌≡◌, refl, ap, arith, Bool, true, false, Option, none, some,
  List, [], ◌∷◌, length, ltb, if◌then◌else◌, Bool-cases, inl, inr,
}
use shecc.Lexer.{nth, Lex, Kind, read_char}
use shecc.Lexer.Dispatch.{Step, comment_loop, line_loop, after_line, lex_slash}
use shecc.Lexer.Progress.{Reached, Goes, read_char-Reached, new_token-Goes}

-- The last character of the file is zero.
abbrev pub IsTerminated : List ℕ → Type 0
IsTerminated els = (0 < length els) × (nth (length els - 1) els ≡ 0)

-- After a step the file is read further, whether there is a token or a comment was left out; rounds
-- run out only where the file does not end with a zero.
abbrev pub StepGoes : ℕ → List ℕ → Step → Type 0
StepGoes n els (Step.token l) = Goes n els l
StepGoes n els (Step.again s) = Reached n els s
StepGoes n els Step.stuck = ¬ (IsTerminated els)

pub if_StepGoes :
    (n : ℕ) (els : List ℕ) (b : Bool) (x y : Step)
    → StepGoes n els x
    → StepGoes n els y
    → StepGoes n els (if b then x else y)
if_StepGoes n els true x y hx hy = hx
if_StepGoes n els false x y hx hy = hy

nth-outside : (i : ℕ) (l : List ℕ) → length l ≤ i → nth i l ≡ 0
nth-outside i [] h = refl
nth-outside zero (c ∷ cs) h = absurd (omega (arith, h))
nth-outside (suc i) (c ∷ cs) h = nth-outside i cs (omega (arith, h))

-- With a round for each character left the loop does not run out of them.
comment_loop-StepGoes :
    (n : ℕ) (els : List ℕ) (fuel pos : ℕ) (s : Lex)
    → n ≤ pos
    → s.elements ≡ els
    → 0 < fuel
    → length s.elements ≤ pos + fuel
    → StepGoes n els (comment_loop fuel pos s)
unfolding comment_loop
comment_loop-StepGoes n els zero pos s at same some_left enough = absurd (omega (arith, some_left))
comment_loop-StepGoes n els (suc fuel) pos s at same some_left enough =
    elim (Bool-cases (ltb (pos + 1) (length s.elements))) [
      | inr outside ↦ rw (nth-outside (pos + 1) s.elements (ground (arith, outside))) tt
      | inl within ↦
          let inside : pos + 1 < length s.elements = ground (arith, within) in
          let moved : Lex = record s { column = s.column + 1 } in
          let star : Lex = record s { column = s.column + 2 } in
          let line : Lex = record s { line = s.line + 1; column = 1 } in
          let ended : Reached n els (record s { column = s.column + 4; size = pos + 3 }) =
            (omega (arith, at), same) in
          let left : 0 < fuel = omega (arith, inside, enough) in
          let one : length s.elements ≤ pos + 1 + fuel = omega (arith, enough) in
          let two : length s.elements ≤ pos + 2 + fuel = omega (arith, enough) in
          let at1 : n ≤ pos + 1 = omega (arith, at) in
          let at2 : n ≤ pos + 2 = omega (arith, at) in
          let r1 = comment_loop-StepGoes n els fuel (pos + 1) moved at1 same left one in
          let r2 = comment_loop-StepGoes n els fuel (pos + 1) line at1 same left one in
          let r3 = comment_loop-StepGoes n els fuel (pos + 2) star at2 same left two in
          let r4 = comment_loop-StepGoes n els fuel (pos + 2) line at2 same left two in
          search (if_StepGoes) depth 12
    ]

-- The end of the line is found, further on.
abbrev Finds : ℕ → Option ℕ → Type 0
Finds n none = ⊥
Finds n (some pos) = n ≤ pos

if_Finds :
    (n : ℕ) (b : Bool) (x y : Option ℕ) → Finds n x → Finds n y → Finds n (if b then x else y)
if_Finds n true x y hx hy = hx
if_Finds n false x y hx hy = hy

line_loop-Finds :
    (n fuel pos : ℕ) (s : Lex)
    → n ≤ pos
    → 0 < fuel
    → length s.elements ≤ pos + fuel
    → Finds n (line_loop fuel pos s)
unfolding line_loop
line_loop-Finds n zero pos s at some_left enough = absurd (omega (arith, some_left))
line_loop-Finds n (suc fuel) pos s at some_left enough =
    elim (Bool-cases (ltb (pos + 1) (length s.elements))) [
      | inr outside ↦
          rw (nth-outside (pos + 1) s.elements (ground (arith, outside))) (omega (arith, at))
      | inl within ↦
          let inside : pos + 1 < length s.elements = ground (arith, within) in
          let rest =
            line_loop-Finds n fuel (pos + 1) s (omega (arith, at)) (omega (arith, inside, enough))
              (omega (arith, enough)) in
          let here : n ≤ pos + 1 = omega (arith, at) in search (if_Finds) depth 4
    ]

after_line-StepGoes :
    (n : ℕ) (els : List ℕ) (s : Lex) (o : Option ℕ)
    → s.elements ≡ els
    → Finds n o
    → StepGoes n els (after_line s o)
after_line-StepGoes n els s none same at = absurd at
after_line-StepGoes n els s (some pos) same at = (at, same)

pub lex_slash-StepGoes :
    (n : ℕ) (els : List ℕ) (s : Lex)
    → 0 < length els
    → Reached n els (read_char s).1
    → StepGoes n els (lex_slash s)
unfolding lex_slash
lex_slash-StepGoes n els s full at =
    let s' = (read_char s).1 in
    let some_left : 0 < length s'.elements = omega (arith, full, ap length at.1) in
    let enough : length s'.elements ≤ s'.size + length s'.elements = omega arith in
    let comment =
      comment_loop-StepGoes n els (length s'.elements) s'.size s' at.0 at.1 some_left enough in
    let line = line_loop-Finds n (length s'.elements) s'.size s' at.0 some_left enough in
    let skipped = after_line-StepGoes n els s' _ at.1 line in
    let eq =
      new_token-Goes n els Kind.t_divideeq [] 2 (read_char s').1 (read_char-Reached n els s' at) in
    let plain = new_token-Goes n els Kind.t_divide [] 1 s' at in search (if_StepGoes) depth 12
