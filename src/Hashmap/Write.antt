-- ===== src/Hashmap/Write.antt =====
-- src/globals.c: what an entry written to a slot of a hash map changes.
use shecc.Prelude.{
  ◌⊎◌, ℕ, ◌<◌, ◌≡◌, ◌≢◌, refl, arith, inl, inr, Bool, false, Option, none, some, ◌==◌, Bool-cases,
  ◌∙◌, ap, sym,
}
use mathlib.Core.Logic.{◌↔◌}
use shecc.Hashmap.Key.{Str, same_str}
use shecc.Hashmap.Search.{Passed}
use shecc.Hashmap.Count.{set_slot_self, set_slot_other}
use shecc.Hashmap.Valid.{Reached, IsReached}
use shecc.Hashmap.{set_slot}

pub same_index : (i j : ℕ) → (i ≡ j) ⊎ (i ≢ j)
same_index i j = elim (Bool-cases (i == j)) [
  | inl e ↦ inl (ground arith)
  | inr e ↦ inr (λ q. ground arith)
]

module _ {ℓ} {V : Type ℓ} where
  -- A slot that an entry of the key may be written to.
  abbrev pub IsOpen : (ℕ → Option (Str × V)) → ℕ → Str → Type ℓ
  IsOpen table i key = (table i ≡ none) ⊎ ((w : V) × (table i ≡ some (key, w)))

  abbrev pub entry : Str → V → Option (Str × V)
  entry k v = some (k, v)

  pub entry_inj : (a b : Str) (v w : V) → entry a v ≡ entry b w → (a ≡ b) × (v ≡ w)
  entry_inj a b v w e = (
    ap (λ o. elim o as (λ _. Str) [ none ↦ a | some x ↦ x.0 ]) e,
    ap (λ o. elim o as (λ _. V) [ none ↦ v | some x ↦ x.1 ]) e,
  )

  pub entry-none : (k : Str) (v : V) → entry k v ≢ none
  entry-none k v e = cc

  Passed-open :
      (table : ℕ → Option (Str × V)) (is_key : Str → Bool) (i : ℕ) (key : Str)
      → IsOpen table i key
      → Passed is_key table i
      → is_key key ≡ false
  Passed-open table is_key i key (inl empty) (k, v, h, other) =
      absurd (entry-none k v (sym h ∙ empty))
  Passed-open table is_key i key (inr (w, h')) (k, v, h, other) =
      rw ((entry_inj key k w v (sym h' ∙ h)).0) other

  module _ (table : ℕ → Option (Str × V)) (i : ℕ) (key : Str) (val : V)
      (free_or_own : IsOpen table i key) where
    written_self : (p : ℕ) → p ≡ i → set_slot table i (entry key val) p ≡ entry key val
    written_self p e = rw e (set_slot_self table i (entry key val))

    Passed-kept :
        (is_key : Str → Bool) (p : ℕ)
        → Passed is_key table p
        → Passed is_key (set_slot table i (entry key val)) p
    Passed-kept is_key p q = elim (same_index p i) [
      | inl e ↦ (key, val, written_self p e, Passed-open table is_key i key free_or_own (at e))
      | inr ne ↦ rw (set_slot_other table i p (entry key val) ne) q
    ]
      where
        at : p ≡ i → Passed is_key table i
        at e = rw (sym e) q

    Reached-kept :
        (c p : ℕ) (k : Str) → Reached c table p k → Reached c (set_slot table i (entry key val)) p k
    Reached-kept c p k (e, lt, at, before) =
        (e, lt, at, λ j lo hi. Passed-kept (λ k'. same_str k' k) _ (before j lo hi))

    -- The entries afterwards: the written one, and those of other slots.
    entry_from :
        (p : ℕ) (k : Str) (v : V)
        → set_slot table i (entry key val) p ≡ entry k v
        → ((p ≡ i) × (k ≡ key) × (v ≡ val)) ⊎ ((p ≢ i) × (table p ≡ entry k v))
    entry_from p k v h = elim (same_index p i) [
      | inl e ↦ let (q, r) = entry_inj k key v val (sym h ∙ written_self p e) in inl (e, q, r)
      | inr ne ↦ inr (ne, sym (set_slot_other table i p (entry key val) ne) ∙ h)
    ]

    -- The written entry is found if the search for its key leads to the slot.
    pub set_slot-IsReached :
        (c : ℕ)
        → IsReached c table
        → Reached c table i key
        → IsReached c (set_slot table i (entry key val))
    set_slot-IsReached c reached here p k v lt h = Reached-kept c p k (from (entry_from p k v h))
      where
        from :
            ((p ≡ i) × (k ≡ key) × (v ≡ val)) ⊎ ((p ≢ i) × (table p ≡ entry k v))
            → Reached c table p k
        from (inl (e, q, r)) = rw (e, q) here
        from (inr (ne, h')) = reached p k v lt h'

    -- Where no other slot has the key, the entries are the written one and those of other keys.
    pub Holds-set_slot :
        (c : ℕ)
        → i < c
        → ((p : ℕ) (w : V) → p < c → table p ≡ entry key w → p ≡ i)
        → (k : Str) (v : V)
        → ((p : ℕ) × (p < c) × (set_slot table i (entry key val) p ≡ entry k v))
          ↔ (((k ≡ key) × (v ≡ val)) ⊎ ((k ≢ key) × ((p : ℕ) × (p < c) × (table p ≡ entry k v))))
    Holds-set_slot c lt only k v = (split, join)
      where
        split :
            ((p : ℕ) × (p < c) × (set_slot table i (entry key val) p ≡ entry k v))
            → ((k ≡ key) × (v ≡ val)) ⊎ ((k ≢ key) × ((p : ℕ) × (p < c) × (table p ≡ entry k v)))
        split (p, below, h) = elim (entry_from p k v h) [
          | inl (e, q, r) ↦ inl (q, r)
          | inr (ne, h') ↦ inr (λ q. ne (only p v below (rw (sym q) h')), (p, below, h'))
        ]

        join :
            ((k ≡ key) × (v ≡ val)) ⊎ ((k ≢ key) × ((p : ℕ) × (p < c) × (table p ≡ entry k v)))
            → (p : ℕ) × (p < c) × (set_slot table i (entry key val) p ≡ entry k v)
        join (inl (q, r)) = (i, lt, rw (q, r) (written_self i refl))
        join (inr (nk, (p, below, h))) = elim (same_index p i) [
          | inl e ↦ absurd (nk (own e free_or_own h))
          | inr ne ↦ (p, below, set_slot_other table i p (entry key val) ne ∙ h)
        ]
          where
            own : p ≡ i → IsOpen table i key → table p ≡ entry k v → k ≡ key
            own e (inl empty) q = absurd (entry-none k v (sym q ∙ (ap table e ∙ empty)))
            own e (inr (w, h')) q = (entry_inj k key v w (sym q ∙ (ap table e ∙ h'))).0
