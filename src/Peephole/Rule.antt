-- ===== src/Peephole/Rule.antt =====
-- What the patterns of src/peephole.c are made of.
pub mod Power
pub mod Keep
use shecc.Prelude.{
  ℕ, zero, suc, ◌+◌, ◌≡◌, refl, ◌⊎◌, inl, inr, Bool, true, false, Option, none, some, List, [], ◌∷◌,
  ◌++◌, slt32, sar32, bit_and, sub32, ◌==◌, if◌then◌else◌,
}
use shecc.Ir.{Ph2Ir}

-- A pattern over two adjacent instructions: what stands in their places, if it applies.
abbrev pub Rule : Type 0
Rule = Ph2Ir → Ph2Ir → Option (List Ph2Ir)

-- `if (test) { ...; return true; }`
abbrev pub when {ℓ} : {A : Type ℓ} → Bool → A → Option A
when test w = if test then some w else none

-- The next pattern is tried if the first does not apply.
infixr 20 ◌orelse◌
abbrev pub ◌orelse◌ {ℓ} : {A : Type ℓ} → Option A → Option A → Option A
none orelse b = b
some w orelse b = some w

-- A pattern at the head of a block; a last instruction has no `next`.
unfoldable pub at_pair : Rule → List Ph2Ir → Option (List Ph2Ir)
at_pair rule [] = none
at_pair rule (cur ∷ []) = none
at_pair rule (cur ∷ next ∷ rest) = elim (rule cur next) [ none ↦ none | some w ↦ some (w ++ rest) ]

-- `while (tmp > 1) { tmp >>= 1; shift++; }` with fuel.
unfoldable pub log2_loop : ℕ → ℕ → ℕ → ℕ
log2_loop zero tmp shift = shift
log2_loop (suc fuel) tmp shift =
    let rest = log2_loop fuel (sar32 tmp 1) (shift + 1) in if slt32 1 tmp then rest else shift

-- The shift amount that the loop finds: a positive `int` is halved 30 times at most.
unfoldable pub shift_amount : ℕ → ℕ
unfolding log2_loop
shift_amount power = log2_loop 32 power 0

-- `(n & (n - 1)) == 0`
abbrev pub single_bit : ℕ → Bool
single_bit n = bit_and n (sub32 n 1) == 0
