-- ===== src/Hashmap/Put.antt =====
-- src/globals.c: `hashmap_put`, `hashmap_get` and `hashmap_contains` on the entries of a map.
use shecc.Prelude.{
  ◌⊎◌, leb, ℕ, ◌+◌, ◌*◌, ◌≤◌, ◌<◌, ◌≡◌, ◌≢◌, refl, arith, inl, inr, false, some, Option-cases,
  Bool-cases, ◌∙◌, sym, sar32, ◌^◌,
}
use mathlib.Core.Logic.{◌↔◌}
use shecc.Hashmap.Key.{Str, same_str}
use shecc.Hashmap.Count.{count-set_slot, one_if}
use shecc.Hashmap.Valid.{
  IsValid, Holds, Holds-find, find-Holds, hit_inj, free-hit, get-Holds, Holds-get,
}
use shecc.Hashmap.Write.{entry, IsOpen, set_slot-IsReached, Holds-set_slot}
use shecc.Hashmap.Insert.{Updates, insert_lem, find-full}
use shecc.Hashmap.Rehash.{rehash_lem}
use shecc.Hashmap.{
  Map, Place, free, hit, full, find, insert, set_slot, with_val, put_at, put, get, rehash,
}

module _ {ℓ} {V : Type ℓ} where
  -- An entry gets a new value.
  replace_lem :
      (map : Map V) (key : Str) (val : V) (i : ℕ)
      → IsValid map
      → find (λ k. same_str k key) map key ≡ hit i
      → (map' : Map V) × (put_at map key val (hit i) ≡ some map')
        × IsValid map'
        × Updates map map' key val
  unfolding put_at with_val one_if
  replace_lem map key val i (c, size, load, reached) at =
      let (w, lt, h) = Holds-find map key i c at in
      let own : IsOpen map.table i key = inr (w, h) in
      let same = count-set_slot map.table i map.cap (entry key val) lt in
      let one : one_if (map.table i) ≡ 1 = rw h refl in
      (
        record map { table = set_slot map.table i (entry key val) },
        rw h refl,
        (
          c,
          omega arith,
          load,
          set_slot-IsReached map.table i key val own map.cap reached (reached i key w lt h),
        ),
        Holds-set_slot map.table i key val own map.cap lt
            (λ p v below h'. hit_inj p i (sym (find-Holds map key v p c reached below h') ∙ at)),
      )

  put_at_lem :
      (map : Map V) (key : Str) (val : V) (place : Place)
      → IsValid map
      → 2 * (map.size + 1) ≤ map.cap
      → find (λ k. same_str k key) map key ≡ place
      → (map' : Map V) × (put_at map key val place ≡ some map')
        × IsValid map'
        × Updates map map' key val
  unfolding put_at
  put_at_lem map key val (hit i) valid room at = replace_lem map key val i valid at
  put_at_lem map key val full valid room at =
      absurd (find-full (λ k. same_str k key) map key valid at)
  put_at_lem map key val (free i) valid room at =
      let (valid', updates) = insert_lem (λ k. same_str k key) map key val i valid room new at in
      (insert map i key val, refl, valid', updates)
    where
      new : (w : V) → ¬ Holds map key w
      new w (j, lt, h) =
          let (c, size, load, reached) = valid in
          free-hit _ _ (sym at ∙ find-Holds map key w j c reached lt h)

  -- An update of a map with the same entries.
  Updates-same :
      (map map1 map' : Map V) (key : Str) (val : V)
      → ((k : Str) (v : V) → Holds map1 k v ↔ Holds map k v)
      → Updates map1 map' key val
      → Updates map map' key val
  Updates-same map map1 map' key val same updates k v =
      (λ h. there ((updates k v).0 h), λ h. (updates k v).1 (back h))
    where
      there :
          ((k ≡ key) × (v ≡ val)) ⊎ ((k ≢ key) × Holds map1 k v)
          → ((k ≡ key) × (v ≡ val)) ⊎ ((k ≢ key) × Holds map k v)
      there (inl q) = inl q
      there (inr (ne, h)) = inr (ne, (same k v).0 h)

      back :
          ((k ≡ key) × (v ≡ val)) ⊎ ((k ≢ key) × Holds map k v)
          → ((k ≡ key) × (v ≡ val)) ⊎ ((k ≢ key) × Holds map1 k v)
      back (inl q) = inl q
      back (inr (ne, h)) = inr (ne, (same k v).1 h)

  -- In a valid map of fewer than 2^30 slots (a power of two, at most half of them occupied, as
  -- `size` counts, each key found where its search leads), `hashmap_put` succeeds and leaves a
  -- valid map, whose entries are the new one and the old ones of other keys.
  pub put-Updates :
      (map : Map V) (key : Str) (val : V)
      → IsValid map
      → map.cap < 2 ^ 30
      → (map' : Map V) × (put map key val ≡ some map') × IsValid map' × Updates map map' key val
  unfolding put
  put-Updates map key val valid small = elim (Bool-cases (leb (sar32 map.cap 1) map.size)) [
    | inl grow ↦
        let (map1, grown, valid1, twice, size1, holds) = rehash_lem map valid small in
        let (map', done, valid', updates) =
          put_at_lem map1 key val _ valid1 (room1 map1 twice size1) refl in
        (map', rw (grow, grown) done, valid', Updates-same map map1 map' key val holds updates)
    | inr keep ↦
        let (map', done, valid', updates) = put_at_lem map key val _ valid (room keep) refl in
        (map', rw keep done, valid', updates)
  ]
    where
      room1 :
          (map1 : Map V)
          → map1.cap ≡ 2 * map.cap
          → map1.size ≡ map.size
          → 2 * (map1.size + 1) ≤ map1.cap
      room1 map1 twice same =
          let ((b, power, pos, below), size, load, reached) = valid in omega arith

      room : leb (sar32 map.cap 1) map.size ≡ false → 2 * (map.size + 1) ≤ map.cap
      room keep = ground arith

  -- Maps with the same entries of a key give the same value.
  get_same :
      (map map' : Map V) (key : Str)
      → IsValid map
      → IsValid map'
      → ((v : V) → Holds map' key v ↔ Holds map key v)
      → get map' key ≡ get map key
  get_same map map' key valid valid' same = elim (Option-cases (get map' key)) [
    | inr (v, h) ↦ h ∙ sym (get-Holds map key v valid ((same v).0 (Holds-get map' key v valid' h)))
    | inl h' ↦ elim (Option-cases (get map key)) [
      | inl h ↦ h' ∙ sym h
      | inr (v, h) ↦ get-Holds map' key v valid' ((same v).1 (Holds-get map key v valid h)) ∙ sym h
    ]
  ]

  -- After `hashmap_put` into a valid map of fewer than 2^30 slots, `hashmap_get` gives the value
  -- for the key, and for every other key what it gave before.
  pub get-put :
      (map : Map V) (key : Str) (val : V)
      → IsValid map
      → map.cap < 2 ^ 30
      → (map' : Map V) × (put map key val ≡ some map')
        × (get map' key ≡ some val)
        × ((k : Str) → k ≢ key → get map' k ≡ get map k)
  get-put map key val valid small =
      let (map', done, valid', updates) = put-Updates map key val valid small in
      (
        map',
        done,
        get-Holds map' key val valid' ((updates key val).1 (inl (refl, refl))),
        λ k ne.
            get_same map map' k valid valid'
              (λ v. (λ h. other k v ne ((updates k v).0 h), λ h. (updates k v).1 (inr (ne, h)))),
      )
    where
      other :
          (k : Str) (v : V)
          → k ≢ key
          → ((k ≡ key) × (v ≡ val)) ⊎ ((k ≢ key) × Holds map k v)
          → Holds map k v
      other k v ne (inl (q, r)) = absurd (ne q)
      other k v ne (inr (ne', h)) = h

  -- `hashmap_rehash` of a valid map of fewer than 2^30 slots does not abort, doubles the slots,
  -- keeps the size, and `hashmap_get` gives the same for every key.
  pub get-rehash :
      (map : Map V)
      → IsValid map
      → map.cap < 2 ^ 30
      → (map' : Map V) × (rehash map ≡ some map')
        × (map'.cap ≡ 2 * map.cap)
        × (map'.size ≡ map.size)
        × ((k : Str) → get map' k ≡ get map k)
  get-rehash map valid small =
      let (map', done, valid', twice, same, holds) = rehash_lem map valid small in
      (map', done, twice, same, λ k. get_same map map' k valid valid' (holds k))
