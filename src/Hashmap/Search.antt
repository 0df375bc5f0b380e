-- ===== src/Hashmap/Search.antt =====
-- src/globals.c: where a search of a hash map ends.
use shecc.Prelude.{
  ◌⊎◌, ltb, ℕ, zero, suc, ◌+◌, ◌≤◌, ◌<◌, ◌≡◌, refl, arith, inl, inr, Bool, true, false, Option,
  none, some, ◌==◌, if◌then◌else◌, Option-cases, Bool-cases,
}
use native.Mathlib.Decide.{dec_lt}
use shecc.Hashmap.Key.{Str}
use shecc.Hashmap.Probe.{slot, next_index-slot, slot_start, IsCap}
use shecc.Hashmap.{Place, free, hit, full, next_index, probe}

module _ {ℓ} {V : Type ℓ} (is_key : Str → Bool) (table : ℕ → Option (Str × V)) where
  -- An entry that the search goes past.
  abbrev pub Passed : ℕ → Type ℓ
  Passed i = (k : Str) × (v : V) × (table i ≡ some (k, v)) × (is_key k ≡ false)

  -- From `d` steps behind `home` up to `e`.
  abbrev pub PassedTo : ℕ → ℕ → ℕ → ℕ → Type ℓ
  PassedTo cap home d e = (j : ℕ) → d ≤ j → j < e → Passed (slot cap home j)

  abbrev pub EndsFree : ℕ → ℕ → ℕ → Place → Type ℓ
  EndsFree cap home d place =
      (e : ℕ) × (e < cap)
      × (place ≡ free (slot cap home e))
      × (table (slot cap home e) ≡ none)
      × PassedTo cap home d e

  abbrev pub EndsHit : ℕ → ℕ → ℕ → Place → Type ℓ
  EndsHit cap home d place =
      (e : ℕ) × (k : Str) × (v : V) × (e < cap)
      × (place ≡ hit (slot cap home e))
      × (table (slot cap home e) ≡ some (k, v))
      × (is_key k ≡ true)
      × PassedTo cap home d e

  abbrev pub Ends : ℕ → ℕ → ℕ → Place → Type ℓ
  Ends cap home d place =
      EndsFree cap home d place
      ⊎ (EndsHit cap home d place ⊎ ((place ≡ full) × PassedTo cap home d cap))

  pub PassedTo-cons :
      (cap home d e : ℕ)
      → Passed (slot cap home d)
      → PassedTo cap home (d + 1) e
      → PassedTo cap home d e
  PassedTo-cons cap home d e p rest j lo hi = elim (dec_lt d j) [
    | yes q ↦ rest j (omega arith) hi
    | no q ↦ here (omega arith)
  ]
    where
      here : j ≡ d → Passed (slot cap home j)
      here q = rw q p

  Ends-cons :
      (cap home d : ℕ) (place : Place)
      → Passed (slot cap home d)
      → Ends cap home (d + 1) place
      → Ends cap home d place
  Ends-cons cap home d place p (inl (e, lt, q, t, rest)) =
      inl (e, lt, q, t, PassedTo-cons cap home d e p rest)
  Ends-cons cap home d place p (inr (inl (e, k, v, lt, q, t, s, rest))) =
      inr (inl (e, k, v, lt, q, t, s, PassedTo-cons cap home d e p rest))
  Ends-cons cap home d place p (inr (inr (q, rest))) =
      inr (inr (q, PassedTo-cons cap home d cap p rest))

  probe_free :
      (cap start fuel i : ℕ) → table i ≡ none → probe is_key table cap start (suc fuel) i ≡ free i
  unfolding probe
  probe_free cap start fuel i h = rw (probe, h) refl

  probe_hit :
      (cap start fuel i : ℕ) (k : Str) (v : V)
      → table i ≡ some (k, v)
      → is_key k ≡ true
      → probe is_key table cap start (suc fuel) i ≡ hit i
  unfolding probe
  probe_hit cap start fuel i k v h same = rw (probe, h, same) refl

  probe_next :
      (cap start fuel i : ℕ)
      → Passed i
      → probe is_key table cap start (suc fuel) i ≡ (
          if next_index cap i == start
          then full
          else probe is_key table cap start fuel (next_index cap i))
  unfolding probe
  probe_next cap start fuel i (k, v, h, other) = rw (probe, h, other) refl

  -- The end of the search from the next slot on, which is the first one after a whole turn.
  Ends-turn :
      (cap home d : ℕ) (rest : Place)
      → home < cap
      → d < cap
      → (d + 1 < cap → Ends cap home (d + 1) rest)
      → Ends cap home (d + 1) (if slot cap home (d + 1) == home then full else rest)
  Ends-turn cap home d rest hh hd onward =
      rw (slot_start cap home d hh hd) (elim (dec_lt (d + 1) cap) [
        | yes q ↦ before (ground arith) (onward q)
        | no q ↦ after (ground arith) (omega arith)
      ])
    where
      before :
          ltb (d + 1) cap ≡ true
          → Ends cap home (d + 1) rest
          → Ends cap home (d + 1) (if (if ltb (d + 1) cap then false else true) then full else rest)
      before q r = rw q r

      after :
          ltb (d + 1) cap ≡ false
          → cap ≤ d + 1
          → Ends cap home (d + 1) (if (if ltb (d + 1) cap then false else true) then full else rest)
      after q le = rw q (inr (inr (refl, λ j lo hi. absurd (omega arith))))

  -- A fuel for the slots that are left leads to an end.
  pub probe-Ends :
      (cap home : ℕ)
      → IsCap cap
      → home < cap
      → (fuel d : ℕ) → fuel + d ≡ cap
      → Ends cap home d (probe is_key table cap home fuel (slot cap home d))
  unfolding probe
  probe-Ends cap home c hh zero d s = inr (inr (refl, λ j lo hi. absurd (omega arith)))
  probe-Ends cap home c hh (suc fuel) d s =
      let p = slot cap home d in
      elim (Option-cases (table p)) [
        | inl empty ↦ inl (
          d,
          omega arith,
          probe_free cap home fuel p empty,
          empty,
          λ j lo hi. absurd (omega arith),
        )
        | inr ((k, v), h) ↦ elim (Bool-cases (is_key k)) [
          | inl same ↦ inr (
              inl (
                d,
                k,
                v,
                omega arith,
                probe_hit cap home fuel p k v h same,
                h,
                same,
                λ j lo hi. absurd (omega arith),
              ))
          | inr other ↦
              Ends-cons cap home d _ (k, v, h, other)
                (rw
                  (
                    probe_next cap home fuel p (k, v, h, other),
                    next_index-slot cap home d c hh (omega arith),
                  )
                  (Ends-turn cap home d _ hh (omega arith)
                    (λ q. probe-Ends cap home c hh fuel (d + 1) (omega arith))))
        ]
      ]
