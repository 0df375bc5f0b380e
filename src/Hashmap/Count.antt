-- ===== src/Hashmap/Count.antt =====
-- src/globals.c: the number of occupied slots of a hash map's table, a specification.
use shecc.Prelude.{ℕ, zero, suc, ◌+◌, ◌≤◌, ◌<◌, ◌≡◌, ◌≢◌, refl, arith, Option, none, some}
use native.Mathlib.Decide.{dec_lt}
use shecc.Hashmap.Key.{Str}
use shecc.Hashmap.{set_slot}

unfoldable pub one_if {ℓ} : {A : Type ℓ} → Option A → ℕ
one_if none = 0
one_if (some a) = 1

module _ {ℓ} {V : Type ℓ} where
  -- The occupied slots below `n`.
  unfoldable pub count : (ℕ → Option (Str × V)) → ℕ → ℕ
  count table zero = 0
  count table (suc n) = count table n + one_if (table n)

  one_if-le : (o : Option (Str × V)) → one_if o ≤ 1
  unfolding one_if
  one_if-le none = omega arith
  one_if-le (some a) = omega arith

  pub count_zero : (table : ℕ → Option (Str × V)) → count table 0 ≡ 0
  unfolding count
  count_zero table = refl

  pub count-none :
      (table : ℕ → Option (Str × V)) (n : ℕ) → ((i : ℕ) → table i ≡ none) → count table n ≡ 0
  unfolding count one_if
  count-none table zero h = refl
  count-none table (suc n) h = rw (count-none table n h, h n) refl

  pub count-le : (table : ℕ → Option (Str × V)) (n : ℕ) → count table n ≤ n
  unfolding count
  count-le table zero = omega arith
  count-le table (suc n) = let a = count-le table n in let b = one_if-le (table n) in omega arith

  pub count_mono : (table : ℕ → Option (Str × V)) (m n : ℕ) → m ≤ n → count table m ≤ count table n
  unfolding count
  count_mono table m zero h = rw (zero_of h) (omega arith)
    where
      zero_of : m ≤ 0 → m ≡ 0
      zero_of q = omega arith
  count_mono table m (suc n) h = elim (dec_lt n m) [
    | yes p ↦ rw (last p) (omega arith)
    | no p ↦ let r = count_mono table m n (omega arith) in omega arith
  ]
    where
      last : n < m → m ≡ suc n
      last q = omega arith

  pub count_full :
      (table : ℕ → Option (Str × V)) (n : ℕ)
      → ((i : ℕ) → i < n → (a : Str × V) × (table i ≡ some a))
      → count table n ≡ n
  unfolding count one_if
  count_full table zero all = refl
  count_full table (suc n) all =
      let r = count_full table n (λ i h. all i (omega arith)) in
      let (a, h) = all n (omega arith) in rw h (omega arith)

  pub set_slot_self :
      (table : ℕ → Option (Str × V)) (i : ℕ) (a : Option (Str × V)) → set_slot table i a i ≡ a
  set_slot_self table i a = ground arith

  pub set_slot_other :
      (table : ℕ → Option (Str × V)) (i j : ℕ) (a : Option (Str × V))
      → j ≢ i
      → set_slot table i a j ≡ table j
  set_slot_other table i j a ne = ground arith

  count-set_far :
      (table : ℕ → Option (Str × V)) (i n : ℕ) (a : Option (Str × V))
      → n ≤ i
      → count (set_slot table i a) n ≡ count table n
  unfolding count
  count-set_far table i zero a h = refl
  count-set_far table i (suc n) a h =
      rw (count-set_far table i n a (omega arith), set_slot_other table i n a (λ e. omega arith))
        refl

  -- An entry in the place of another, or in a free slot.
  pub count-set_slot :
      (table : ℕ → Option (Str × V)) (i n : ℕ) (a : Option (Str × V))
      → i < n
      → count (set_slot table i a) n + one_if (table i) ≡ count table n + one_if a
  unfolding count one_if
  count-set_slot table i zero a h = absurd (omega arith)
  count-set_slot table i (suc n) a h = elim (dec_lt i n) [
    | yes p ↦
        let r = count-set_slot table i n a p in
        rw (set_slot_other table i n a (λ e. omega arith)) (omega arith)
    | no p ↦ last (omega arith)
  ]
    where
      last :
          i ≡ n
          → count (set_slot table i a) n + one_if (set_slot table i a n) + one_if (table i)
            ≡ count table n + one_if (table n) + one_if a
      last q =
          let here : set_slot table i a n ≡ a = ground arith in
          rw (here, count-set_far table i n a (omega arith), q) (omega arith)
