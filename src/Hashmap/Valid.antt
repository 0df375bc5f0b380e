-- ===== src/Hashmap/Valid.antt =====
-- src/globals.c: what a hash map keeps.
use shecc.Prelude.{
  bind-some, ℕ, ◌*◌, ◌≤◌, ◌<◌, ◌≡◌, ◌≢◌, refl, arith, inl, inr, Bool, true, Option, none, some, ◌∙◌,
  ap, sym,
}
use native.Mathlib.Decide.{dec_lt}
use shecc.Hashmap.Key.{Str, same_str, same_str-eq, same_str_self}
use shecc.Hashmap.Probe.{slot, slot-lt, hash_index-lt, IsCap}
use shecc.Hashmap.Search.{Passed, PassedTo, Ends, probe-Ends}
use shecc.Hashmap.Count.{count}
use shecc.Hashmap.{
  Map, Place, free, hit, full, probe, find, get, hash_index, node_at, get_node, val_of,
}

slot_zero : (c home : ℕ) → home < c → slot c home 0 ≡ home
unfolding slot
slot_zero c home h = ground arith

pub free-hit : (i j : ℕ) → free i ≢ hit j
free-hit i j e = cc

pub full-hit : (j : ℕ) → full ≢ hit j
full-hit j e = cc

pub hit_inj : (i j : ℕ) → hit i ≡ hit j → i ≡ j
hit_inj i j e = cc

node_hit : (place : Place) (i : ℕ) → node_at place ≡ some i → place ≡ hit i
unfolding node_at
node_hit (hit j) i q = cc
node_hit (free j) i q = cc
node_hit full i q = cc

module _ {ℓ} {V : Type ℓ} where
  -- The search for an entry's key, from where it starts, goes past other keys up to the entry.
  abbrev pub Reached : ℕ → (ℕ → Option (Str × V)) → ℕ → Str → Type ℓ
  Reached c table i key =
      (e : ℕ) × (e < c)
      × (slot c (hash_index c key) e ≡ i)
      × PassedTo (λ k. same_str k key) table c (hash_index c key) 0 e

  abbrev pub IsReached : ℕ → (ℕ → Option (Str × V)) → Type ℓ
  IsReached c table =
      (i : ℕ) (key : Str) (v : V) → i < c → table i ≡ some (key, v) → Reached c table i key

  -- At most half of the slots are occupied, `size` counts them, and each entry is found.
  abbrev pub IsValid : Map V → Type ℓ
  IsValid map =
      IsCap map.cap
      × (map.size ≡ count map.table map.cap)
      × (2 * map.size ≤ map.cap)
      × IsReached map.cap map.table

  -- The map's entries, in any order.
  abbrev pub Holds : Map V → Str → V → Type ℓ
  Holds map key v = (i : ℕ) × (i < map.cap) × (map.table i ≡ some (key, v))

  from_home :
      (is_key : Str → Bool) (table : ℕ → Option (Str × V)) (c home i : ℕ)
      → IsCap c
      → home < c
      → i ≡ slot c home 0
      → Ends is_key table c home 0 (probe is_key table c home c i)
  from_home is_key table c home i p below q =
      rw q (probe-Ends is_key table c home p below c 0 (omega arith))

  pub find-Ends :
      (is_key : Str → Bool) (map : Map V) (key : Str)
      → IsCap map.cap
      → Ends is_key map.table map.cap (hash_index map.cap key) 0 (find is_key map key)
  unfolding find
  find-Ends is_key map key c =
      let below = hash_index-lt map.cap key c in
      from_home is_key map.table map.cap _ _ c below (sym (slot_zero map.cap _ below))

  -- What is passed is occupied, by another key.
  Passed-free :
      (is_key : Str → Bool) (table : ℕ → Option (Str × V)) (i : ℕ)
      → Passed is_key table i
      → table i ≢ none
  Passed-free is_key table i (k, v, h, other) e = cc

  Passed-hit :
      (is_key : Str → Bool) (table : ℕ → Option (Str × V)) (i : ℕ) (k : Str) (v : V)
      → Passed is_key table i
      → table i ≡ some (k, v)
      → is_key k ≢ true
  Passed-hit is_key table i k v (k', v', h, other) e same = cc

  -- An entry that is not passed ends the search.
  Ends-at :
      (is_key : Str → Bool) (table : ℕ → Option (Str × V)) (c home : ℕ) (key : Str) (v : V) (e : ℕ)
      (place : Place)
      → e < c
      → table (slot c home e) ≡ some (key, v)
      → is_key key ≡ true
      → PassedTo is_key table c home 0 e
      → Ends is_key table c home 0 place
      → place ≡ hit (slot c home e)
  Ends-at is_key table c home key v e place lt h same before (inl (e', lt', q, none', before')) =
      elim (dec_lt e' e) [
        | yes p ↦ absurd (Passed-free is_key table _ (before e' (omega arith) p) none')
        | no p ↦ elim (dec_lt e e') [
          | yes p' ↦ absurd (Passed-hit is_key table _ key v (before' e (omega arith) p') h same)
          | no p' ↦ absurd (clash (omega arith))
        ]
      ]
    where
      clash : e ≡ e' → ⊥
      clash q = let h' : table (slot c home e') ≡ some (key, v) = rw (sym q) h in cc
  Ends-at is_key table c home key v e place lt h same before
        (inr (inl (e', k, w, lt', q, h', same', before'))) =
      elim (dec_lt e' e) [
        | yes p ↦ absurd (Passed-hit is_key table _ k w (before e' (omega arith) p) h' same')
        | no p ↦ elim (dec_lt e e') [
          | yes p' ↦ absurd (Passed-hit is_key table _ key v (before' e (omega arith) p') h same)
          | no p' ↦ one (omega arith)
        ]
      ]
    where
      one : e ≡ e' → place ≡ hit (slot c home e)
      one p = rw p q
  Ends-at is_key table c home key v e place lt h same before (inr (inr (q, all))) =
      absurd (Passed-hit is_key table _ key v (all e (omega arith) lt) h same)

  -- The search for the key of an entry ends at the entry.
  pub find-Holds :
      (map : Map V) (key : Str) (v : V) (i : ℕ)
      → IsCap map.cap
      → IsReached map.cap map.table
      → i < map.cap
      → map.table i ≡ some (key, v)
      → find (λ k. same_str k key) map key ≡ hit i
  find-Holds map key v i c reached lt h =
      let (e, le, at, before) = reached i key v lt h in
      Ends-at (λ k. same_str k key) map.table map.cap (hash_index map.cap key) key v e _ le
        (ap map.table at ∙ h) (same_str_self key) before (find-Ends (λ k. same_str k key) map key c)
      ∙ ap hit at

  find_hit :
      (table : ℕ → Option (Str × V)) (c home : ℕ) (key : Str) (i : ℕ) (place : Place)
      → home < c
      → place ≡ hit i
      → Ends (λ k. same_str k key) table c home 0 place
      → (v : V) × (i < c) × (table i ≡ some (key, v))
  find_hit table c home key i place hh at (inl (e, lt, q, h, rest)) =
      absurd (free-hit _ _ (sym q ∙ at))
  find_hit table c home key i place hh at (inr (inr (q, all))) = absurd (full-hit _ (sym q ∙ at))
  find_hit table c home key i place hh at (inr (inl (e, k, v, lt, q, h, same, rest))) =
      (v, rw (sym here) (slot-lt c home e hh lt), rw (sym here, sym (same_str-eq k key same)) h)
    where
      here : slot c home e ≡ i
      here = hit_inj _ _ (sym q ∙ at)

  -- Where the search ends at an entry, it is one of the key.
  pub Holds-find :
      (map : Map V) (key : Str) (i : ℕ)
      → IsCap map.cap
      → find (λ k. same_str k key) map key ≡ hit i
      → (v : V) × (i < map.cap) × (map.table i ≡ some (key, v))
  Holds-find map key i c at =
      find_hit map.table map.cap (hash_index map.cap key) key i _ (hash_index-lt map.cap key c) at
        (find-Ends (λ k. same_str k key) map key c)

  pub get-Holds :
      (map : Map V) (key : Str) (v : V) → IsValid map → Holds map key v → get map key ≡ some v
  unfolding get get_node val_of node_at
  get-Holds map key v (c, size, load, reached) (i, lt, h) =
      rw (find-Holds map key v i c reached lt h, h) refl

  same_val :
      (o : Option (Str × V)) (key : Str) (v w : V)
      → o ≡ some (key, w)
      → val_of o ≡ some v
      → o ≡ some (key, v)
  unfolding val_of
  same_val none key v w p q = cc
  same_val (some (k, u)) key v w p q = cc

  pub Holds-get :
      (map : Map V) (key : Str) (v : V) → IsValid map → get map key ≡ some v → Holds map key v
  unfolding get get_node
  Holds-get map key v (c, size, load, reached) h =
      let (i, node, val) = bind-some _ _ h in
      let (w, lt, entry) = Holds-find map key i c (node_hit _ i node) in
      (i, lt, same_val _ key v w entry val)
