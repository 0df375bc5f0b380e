-- ===== src/Hashmap/Probe.antt =====
-- src/globals.c: where a search of a hash map ends.
use shecc.Prelude.{
  ltb, ℕ, ◌+◌, ◌-◌, ◌%◌, ◌^◌, ◌<◌, ◌≡◌, arith, true, false, bit_and, bit_and_mask, add32, sub32,
  ◌==◌, if◌then◌else◌, ◌∙◌, ap,
}
use native.Mathlib.Nat.{mod-lt, mod-eq_of_lt, mod_self, one-le-pow}
use native.Mathlib.Decide.{dec_lt}
use shecc.Hashmap.Key.{Str}
use shecc.Hashmap.{hash_index, next_index}

-- A capacity: a power of two.
abbrev pub IsCap : ℕ → Type 0
IsCap cap = (b : ℕ) × (cap ≡ 2 ^ b) × (0 < cap) × (cap < 2 ^ 31)

pub next_index_lem : (cap i : ℕ) → IsCap cap → i < cap → next_index cap i ≡ (i + 1) % cap
unfolding next_index
next_index_lem cap i (b, power, pos, below) h =
    let minus : sub32 cap 1 ≡ cap - 1 = omega arith in
    let plus : add32 i 1 ≡ i + 1 = omega arith in rw (minus, plus, power) (bit_and_mask b (i + 1))

pub hash_index-lt : (cap : ℕ) (key : Str) → IsCap cap → hash_index cap key < cap
unfolding hash_index
hash_index-lt cap key (b, power, pos, below) =
    let minus : sub32 cap 1 ≡ cap - 1 = omega arith in rw (minus, power) (in_mask b _)
  where
    in_mask : (k a : ℕ) → bit_and a (2 ^ k - 1) < 2 ^ k
    in_mask k a = rw (bit_and_mask k a) (mod-lt a (omega (arith, one-le-pow k 2 (omega arith))))

-- The slot `d` steps behind `home`, around the end of the table.
unfoldable pub slot : ℕ → ℕ → ℕ → ℕ
slot cap home d = if ltb (home + d) cap then home + d else home + d - cap

pub slot-lt : (cap home d : ℕ) → home < cap → d < cap → slot cap home d < cap
unfolding slot
slot-lt cap home d hh hd = ground arith

mod_step : (cap i : ℕ) → i < cap → (i + 1) % cap ≡ (if ltb (i + 1) cap then i + 1 else 0)
mod_step cap i h = elim (dec_lt (i + 1) cap) [
  | yes p ↦ mod-eq_of_lt p ∙ ground arith
  | no q ↦ ap (λ n. n % cap) (last q) ∙ (mod_self cap ∙ ground arith)
]
  where
    last : ¬ (i + 1 < cap) → i + 1 ≡ cap
    last q = omega arith

pub next_index-slot :
    (cap home d : ℕ)
    → IsCap cap
    → home < cap
    → d < cap
    → next_index cap (slot cap home d) ≡ slot cap home (d + 1)
unfolding slot
next_index-slot cap home d c hh hd =
    next_index_lem cap (slot cap home d) c (slot-lt cap home d hh hd)
    ∙ (mod_step cap (slot cap home d) (slot-lt cap home d hh hd) ∙ ground arith)

-- Only a whole turn leads back.
pub slot_start :
    (cap home d : ℕ)
    → home < cap
    → d < cap
    → (slot cap home (d + 1) == home) ≡ (if ltb (d + 1) cap then false else true)
unfolding slot
slot_start cap home d hh hd = ground arith

-- Every slot is some steps behind `home`.
pub slot_onto :
    (cap home i : ℕ) → home < cap → i < cap → (d : ℕ) × (d < cap) × (slot cap home d ≡ i)
unfolding slot
slot_onto cap home i hh hi = elim (dec_lt i home) [
  | yes p ↦ (i + cap - home, omega arith, ground arith)
  | no q ↦ (i - home, omega arith, ground arith)
]
