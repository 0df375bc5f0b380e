-- ===== src/Hashmap/Key.antt =====
-- src/globals.c: the keys of a hash map, strings of characters without the final zero.
use shecc.Prelude.{
  ℕ, ◌≡◌, ◌≢◌, refl, Bool, true, false, ◌&&◌, List, [], ◌∷◌, ◌==◌, arith, ap, sym, ◌∙◌, Bool-cases,
  inl, inr,
}

abbrev pub Str : Type 0
Str = List ℕ

-- `!strcmp(a, b)`
unfoldable pub same_str : Str → Str → Bool
same_str [] [] = true
same_str [] (d ∷ b) = false
same_str (c ∷ a) [] = false
same_str (c ∷ a) (d ∷ b) = c == d && same_str a b

pub same_str-eq : (a b : Str) → same_str a b ≡ true → a ≡ b
unfolding same_str
same_str-eq [] [] h = refl
same_str-eq [] (d ∷ b) h = cc
same_str-eq (c ∷ a) [] h = cc
same_str-eq (c ∷ a) (d ∷ b) h = ground (arith, same_str-eq a b)

pub same_str_self : (a : Str) → same_str a a ≡ true
unfolding same_str
same_str_self [] = refl
same_str_self (c ∷ a) = ground (arith, same_str_self a)

pub same_str_ne : (a b : Str) → same_str a b ≡ false → a ≢ b
same_str_ne a b h e = true_false (sym (same_str_self b) ∙ (ap (λ c. same_str c b) (sym e) ∙ h))
  where
    true_false : true ≡ false → ⊥
    true_false q = cc

pub same_str-false : (a b : Str) → a ≢ b → same_str a b ≡ false
same_str-false a b ne = elim (Bool-cases (same_str a b)) [
  | inl same ↦ absurd (ne (same_str-eq a b same))
  | inr apart ↦ apart
]
