-- ===== src/Hashmap/Rehash.antt =====
-- src/globals.c: a hash map grows.
use shecc.Prelude.{
  ◌⊎◌, ℕ, zero, suc, ◌+◌, ◌*◌, ◌≤◌, ◌<◌, ◌≡◌, ◌≢◌, refl, arith, inl, inr, true, false, Option, none,
  some, Option-cases, ◌∙◌, sym, shl32, ◌^◌,
}
use mathlib.Core.Logic.{◌↔◌}
use native.Mathlib.Nat.{pow-succ'}
use shecc.Hashmap.Key.{Str}
use shecc.Hashmap.Probe.{IsCap}
use shecc.Hashmap.Search.{Ends}
use shecc.Hashmap.Count.{count, count-none, count_zero, count_mono, one_if}
use shecc.Hashmap.Valid.{IsValid, Holds, find-Ends, find-Holds, hit_inj}
use shecc.Hashmap.Write.{entry, entry-none, entry_inj, same_index}
use shecc.Hashmap.Insert.{insert_lem, find-full}
use shecc.Hashmap.{hash_index, Map, insert, find, free, rehash, rehash_loop, rehash_entry, move_at}

double : (c : ℕ) → IsCap c → c < 2 ^ 30 → IsCap (shl32 c 1) × (shl32 c 1 ≡ 2 * c)
double c (b, power, pos, below) h =
    let twice : shl32 c 1 ≡ 2 * c = omega arith in
    ((suc b, twice ∙ (omega (arith, pow-succ' 2 b)), omega arith, omega arith), twice)

module _ {ℓ} {V : Type ℓ} where
  -- A search that no entry ends, in a map with room, ends at a free slot.
  pub find_new :
      (map : Map V) (key : Str) → IsValid map → (i : ℕ) × (find (λ k. false) map key ≡ free i)
  find_new map key valid = go (find-Ends (λ k. false) map key valid.0)
    where
      go :
          Ends (λ k. false) map.table map.cap (hash_index map.cap key) 0 (find (λ k. false) map key)
          → (i : ℕ) × (find (λ k. false) map key ≡ free i)
      go (inl (e, lt, q, empty, rest)) = (_, q)
      go (inr (inl (e, k, v, lt, q, h, same, rest))) = absurd (same_false same)
        where
          same_false : false ≡ true → ⊥
          same_false s = cc
      go (inr (inr (q, all))) = absurd (find-full (λ k. false) map key valid q)

  -- The entries of the first `n` slots of a table.
  abbrev pub Below : (ℕ → Option (Str × V)) → ℕ → Str → V → Type ℓ
  Below table n k v = (i : ℕ) × (i < n) × (table i ≡ entry k v)

  -- After the slots below `n` the new map holds their entries.
  abbrev pub Moved : Map V → ℕ → Map V → Type ℓ
  Moved old n map =
      IsValid map
      × (map.cap ≡ 2 * old.cap)
      × (map.size ≡ count old.table n)
      × ((k : Str) (v : V) → Holds map k v ↔ Below old.table n k v)

  -- One key is in one slot.
  one_slot :
      (old : Map V) (i j : ℕ) (k : Str) (v w : V)
      → IsValid old
      → i < old.cap
      → j < old.cap
      → old.table i ≡ entry k v
      → old.table j ≡ entry k w
      → i ≡ j
  one_slot old i j k v w (c, size, load, reached) li lj hi hj =
      hit_inj i j
        (sym (find-Holds old k v i c reached li hi) ∙ find-Holds old k w j c reached lj hj)

  Below-suc :
      (table : ℕ → Option (Str × V)) (n : ℕ) (k : Str) (v : V)
      → Below table (suc n) k v
      → Below table n k v ⊎ (table n ≡ entry k v)
  Below-suc table n k v (i, lt, h) = elim (same_index i n) [
    | inl e ↦ inr (rw (sym e) h)
    | inr ne ↦ inl (i, omega arith, h)
  ]

  Below-more :
      (table : ℕ → Option (Str × V)) (n : ℕ) (k : Str) (v : V)
      → Below table n k v
      → Below table (suc n) k v
  Below-more table n k v (i, lt, h) = (i, omega arith, h)

  Moved-none :
      (old : Map V) (n : ℕ) (map : Map V)
      → old.table n ≡ none
      → Moved old n map
      → Moved old (suc n) map
  unfolding count one_if
  Moved-none old n map empty (valid, c, size, holds) = (
    valid,
    c,
    counted,
    λ k v. (
      λ h. Below-more old.table n k v ((holds k v).0 h),
      λ h. (holds k v).1 (from k v (Below-suc old.table n k v h)),
    ),
  )
    where
      counted : map.size ≡ count old.table n + one_if (old.table n)
      counted = rw empty (omega arith)

      from :
          (k : Str) (v : V)
          → Below old.table n k v ⊎ (old.table n ≡ entry k v)
          → Below old.table n k v
      from k v (inl h) = h
      from k v (inr h) = absurd (entry-none k v (sym h ∙ empty))

  Moved-some :
      (old : Map V) (n : ℕ) (map : Map V) (key : Str) (val : V) (i : ℕ)
      → IsValid old
      → n < old.cap
      → old.table n ≡ entry key val
      → Moved old n map
      → find (λ k. false) map key ≡ free i
      → Moved old (suc n) (insert map i key val)
  unfolding count one_if insert
  Moved-some old n map key val i valid_old below here (valid, c, size, holds) at =
      let (valid', holds') = insert_lem (λ k. false) map key val i valid room new at in
      (
        valid',
        c,
        counted,
        λ k v. (
          λ h. into k v ((holds' k v).0 h),
          λ h. (holds' k v).1 (from k v (Below-suc old.table n k v h)),
        ),
      )
    where
      apart : (w : V) → ¬ Below old.table n key w
      apart w (j, lt, h') =
          let e : j ≡ n = one_slot old j n key w val valid_old (omega arith) below h' here in
          omega arith

      new : (w : V) → ¬ Holds map key w
      new w h = apart w ((holds key w).0 h)

      counted : map.size + 1 ≡ count old.table n + one_if (old.table n)
      counted = rw here (omega arith)

      room : 2 * (map.size + 1) ≤ map.cap
      room =
          let all : count old.table n + one_if (old.table n) ≤ count old.table old.cap =
            count_mono old.table (suc n) old.cap (omega arith) in
          let (cap_old, size_old, load, reached) = valid_old in omega arith

      into :
          (k : Str) (v : V)
          → ((k ≡ key) × (v ≡ val)) ⊎ ((k ≢ key) × Holds map k v)
          → Below old.table (suc n) k v
      into k v (inl (q, r)) = (n, omega arith, rw (q, r) here)
      into k v (inr (ne, h)) = Below-more old.table n k v ((holds k v).0 h)

      from :
          (k : Str) (v : V)
          → Below old.table n k v ⊎ (old.table n ≡ entry k v)
          → ((k ≡ key) × (v ≡ val)) ⊎ ((k ≢ key) × Holds map k v)
      from k v (inl h) = inr (λ q. apart v (rw (sym q) h), (holds k v).1 h)
      from k v (inr h) = inl (entry_inj k key v val (sym h ∙ here))

  move_entry :
      (old : Map V) (n : ℕ) (map : Map V)
      → IsValid old
      → n < old.cap
      → Moved old n map
      → (map' : Map V) × (rehash_entry (old.table n) map ≡ some map') × Moved old (suc n) map'
  unfolding rehash_entry move_at
  move_entry old n map valid below moved = elim (Option-cases (old.table n)) [
    | inl empty ↦ (map, rw empty refl, Moved-none old n map empty moved)
    | inr ((key, val), here) ↦
        let (i, at) = find_new map key moved.0 in
        (
          insert map i key val,
          rw (here, at) refl,
          Moved-some old n map key val i valid below here moved at,
        )
  ]

  loop_Moved :
      (old : Map V) (start : Map V) (n : ℕ)
      → IsValid old
      → Moved old 0 start
      → n ≤ old.cap
      → (map : Map V) × (rehash_loop old.table n start ≡ some map) × Moved old n map
  unfolding rehash_loop
  loop_Moved old start zero valid first le = (start, refl, first)
  loop_Moved old start (suc n) valid first le =
      let (map, done, moved) = loop_Moved old start n valid first (omega arith) in
      let (map', next, moved') = move_entry old n map valid (omega arith) moved in
      (map', rw (done, next) refl, moved')

  -- A map without entries.
  pub empty-IsValid :
      (c : ℕ) → IsCap c → IsValid {V = V} (record { size = 0; cap = c; table = λ i. none })
  empty-IsValid c p = (
    p,
    sym (count-none _ _ (λ i. refl)),
    omega arith,
    λ i key v lt q. absurd (entry-none key v (sym q)),
  )

  first_Moved :
      (old : Map V)
      → IsValid old
      → old.cap < 2 ^ 30
      → Moved old 0 (record { size = 0; cap = shl32 old.cap 1; table = λ i. none })
  first_Moved old (c, size, load, reached) h =
      let (c', twice) = double old.cap c h in
      (
        empty-IsValid _ c',
        twice,
        sym (count_zero old.table),
        λ k v. (λ held. absurd (entry-none k v (sym held.2)), λ moved. absurd (none_below moved.1)),
      )
    where
      none_below : {i : ℕ} → i < 0 → ⊥
      none_below q = omega arith

  -- A map that grows is valid and holds the same entries.
  pub rehash_lem :
      (map : Map V)
      → IsValid map
      → map.cap < 2 ^ 30
      → (map' : Map V) × (rehash map ≡ some map')
        × IsValid map'
        × (map'.cap ≡ 2 * map.cap)
        × (map'.size ≡ map.size)
        × ((k : Str) (v : V) → Holds map' k v ↔ Holds map k v)
  unfolding rehash
  rehash_lem map (c, size, load, reached) h =
      let (map', done, (valid', double', size', holds)) =
        loop_Moved map _ map.cap (c, size, load, reached)
          (first_Moved map (c, size, load, reached) h) (omega arith) in
      (map', done, valid', double', size' ∙ sym size, holds)
