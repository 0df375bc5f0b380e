-- ===== src/Hashmap/Insert.antt =====
-- src/globals.c: a new entry in a hash map.
use shecc.Prelude.{
  ◌⊎◌, ℕ, ◌+◌, ◌*◌, ◌≤◌, ◌<◌, ◌≡◌, ◌≢◌, refl, arith, inl, inr, Bool, none, some, ◌∙◌, ap, sym,
}
use mathlib.Core.Logic.{◌↔◌}
use shecc.Hashmap.Key.{Str, same_str, same_str-false}
use shecc.Hashmap.Probe.{slot, slot-lt, slot_onto, hash_index-lt, IsCap}
use shecc.Hashmap.Search.{Passed, PassedTo, Ends}
use shecc.Hashmap.Count.{count, count_full, count-set_slot, one_if}
use shecc.Hashmap.Valid.{Reached, IsValid, Holds, find-Ends, full-hit, free-hit}
use shecc.Hashmap.Write.{entry, IsOpen, set_slot-IsReached, Holds-set_slot}
use shecc.Hashmap.{Map, insert, find, hash_index, free, full}

pub free_inj : (i j : ℕ) → free i ≡ free j → i ≡ j
free_inj i j e = cc

pub free-full : (i : ℕ) → free i ≢ full
free-full i e = cc

module _ {ℓ} {V : Type ℓ} where
  -- The entries of `map'` are those of `map`, but for the key, which has the value.
  abbrev pub Updates : Map V → Map V → Str → V → Type ℓ
  Updates map map' key val =
      (k : Str) (v : V) → Holds map' k v ↔ (((k ≡ key) × (v ≡ val)) ⊎ ((k ≢ key) × Holds map k v))

  -- With half of the slots free a search does not come back to its start.
  pub find-full :
      (is_key : Str → Bool) (map : Map V) (key : Str) → IsValid map → find is_key map key ≢ full
  find-full is_key map key (c, size, load, reached) at = go (find-Ends is_key map key c)
    where
      home : ℕ
      home = hash_index map.cap key

      occupied :
          PassedTo is_key map.table map.cap home 0 map.cap
          → (i : ℕ) → i < map.cap
          → (a : Str × V) × (map.table i ≡ some a)
      occupied all i lt =
          let (d, below, q) = slot_onto map.cap home i (hash_index-lt map.cap key c) lt in
          let (k, v, h, other) = all d (omega arith) below in ((k, v), ap map.table (sym q) ∙ h)

      all_full : count map.table map.cap ≡ map.cap → ⊥
      all_full q = let (b, power, pos, below) = c in omega arith

      go : Ends is_key map.table map.cap home 0 (find is_key map key) → ⊥
      go (inl (e, lt, q, h, rest)) = absurd (free-full _ (sym q ∙ at))
      go (inr (inl (e, k, v, lt, q, h, same, rest))) = full-hit _ (sym at ∙ q)
      go (inr (inr (q, all))) = all_full (count_full map.table map.cap (occupied all))

  -- What a search goes past holds no entry of the key, if there is none.
  Reached-of :
      (is_key : Str → Bool) (map : Map V) (key : Str) (i : ℕ)
      → IsCap map.cap
      → ((w : V) → ¬ Holds map key w)
      → find is_key map key ≡ free i
      → Ends is_key map.table map.cap (hash_index map.cap key) 0 (find is_key map key)
      → (i < map.cap) × (map.table i ≡ none) × Reached map.cap map.table i key
  Reached-of is_key map key i c new at (inr (inl (e, k, v, lt, q, h, same, rest))) =
      absurd (free-hit _ _ (sym at ∙ q))
  Reached-of is_key map key i c new at (inr (inr (q, all))) = absurd (free-full _ (sym at ∙ q))
  Reached-of is_key map key i c new at (inl (e, lt, q, h, before)) =
      let here : slot map.cap (hash_index map.cap key) e ≡ i = free_inj _ _ (sym q ∙ at) in
      (
        rw (sym here) (below e lt),
        rw (sym here) h,
        (e, lt, here, λ j lo hi. other j (omega arith) (before j lo hi)),
      )
    where
      below : (d : ℕ) → d < map.cap → slot map.cap (hash_index map.cap key) d < map.cap
      below d = slot-lt map.cap (hash_index map.cap key) d (hash_index-lt map.cap key c)

      not_key : (p : ℕ) (k : Str) (v : V) → p < map.cap → map.table p ≡ entry k v → k ≢ key
      not_key p k v lt' h' s = new v (p, lt', rw (sym s) h')

      other :
          (j : ℕ)
          → j < map.cap
          → Passed is_key map.table (slot map.cap (hash_index map.cap key) j)
          → Passed (λ k. same_str k key) map.table (slot map.cap (hash_index map.cap key) j)
      other j lt' (k, v, h', differs) =
          (k, v, h', same_str-false k key (not_key _ k v (below j lt') h'))

  -- A key that the map does not hold is added.
  pub insert_lem :
      (is_key : Str → Bool) (map : Map V) (key : Str) (val : V) (i : ℕ)
      → IsValid map
      → 2 * (map.size + 1) ≤ map.cap
      → ((w : V) → ¬ Holds map key w)
      → find is_key map key ≡ free i
      → IsValid (insert map i key val) × Updates map (insert map i key val) key val
  unfolding insert one_if
  insert_lem is_key map key val i (c, size, load, reached) room new at =
      let (lt, empty, here) = Reached-of is_key map key i c new at (find-Ends is_key map key c) in
      let own : IsOpen map.table i key = inl empty in
      let gone : one_if (map.table i) ≡ 0 = rw empty refl in
      let more = count-set_slot map.table i map.cap (entry key val) lt in
      (
        (c, omega arith, room, set_slot-IsReached map.table i key val own map.cap reached here),
        Holds-set_slot map.table i key val own map.cap lt
            (λ p w below h. absurd (new w (p, below, h))),
      )
