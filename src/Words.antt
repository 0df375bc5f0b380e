-- ===== src/Words.antt =====
-- src/riscv-codegen.c and src/arm-codegen.c: what a sequence of `emit` calls writes.
use shecc.Prelude.{
  ℕ, length, ◌≡◌, inl, inr, arith, Option, none, some, List, [], ◌∷◌, Option-cases, ◌>>=◌,
}

-- An `emit` is an element; `none` in it is a call of `fatal` or `abort`, or a missing function.
abbrev pub Code : Type 0
Code = List (Option ℕ)

-- `fatal` and `abort`.
abbrev pub fatal : Code
fatal = none ∷ []

-- The words that are written if no `emit` fails.
unfoldable pub collect : Code → Option (List ℕ)
collect [] = some []
collect (none ∷ code) = none
collect (some word ∷ code) = collect code >>= λ words. some (word ∷ words)

pub length-collect :
    (code : Code) (words : List ℕ) → collect code ≡ some words → length words ≡ length code
unfolding collect
length-collect [] words h = ground (arith, h)
length-collect (none ∷ code) words h = ground (arith, h)
length-collect (some word ∷ code) words h = elim (Option-cases (collect code)) [
  | inl misses ↦ ground (arith, misses, h)
  | inr (v, hits) ↦ ground (arith, hits, h, length-collect code v hits)
]

pub collect-fatal : {words : List ℕ} → ¬ (collect fatal ≡ some words)
unfolding collect
collect-fatal e = cc
