-- ===== src/Prelude/Bits.antt =====
-- Laws of the bit operations at variables.
mod Step
pub use Step.{bit_and_step}
use Step.{bit_and_step, bit_or_step, bit_xor_step, differ-zero, differ_self}
use Prim.Native.Nat.{ℕ, zero, suc, ◌+◌, ◌-◌, ◌*◌, ◌/◌, ◌%◌, ◌^◌, ◌≤◌, ◌<◌, bit_and, bit_or, bit_xor}
use mathlib.Core.Path.{◌≡◌, refl, ap, ◌≡⟨◌⟩◌, ◌∎}
use native.Mathlib.Omega.{arith}
use native.Mathlib.Nat.{
  pow-succ', one-le-pow, le_refl, add-mul-mod_self_left, mod-eq_of_lt, mod-lt, div-add-mod,
  div-div-eq-div-mul,
}

-- Each law goes from `a / 2` to `a`; the bound `n` on `a` is what the recursion follows.
module _ where
  or_nothing : (n a : ℕ) → a ≤ n → bit_or a 0 ≡ a
  or_nothing zero zero h = refl
  or_nothing zero (suc a) h = absurd (omega arith)
  or_nothing (suc n) zero h = refl
  or_nothing (suc n) (suc a) h =
      omega (arith, bit_or_step (suc a) 0, or_nothing n (suc a / 2) (omega arith))

  xor_nothing : (n a : ℕ) → a ≤ n → bit_xor a 0 ≡ a
  xor_nothing zero zero h = refl
  xor_nothing zero (suc a) h = absurd (omega arith)
  xor_nothing (suc n) zero h = refl
  xor_nothing (suc n) (suc a) h = omega (
    arith,
    bit_xor_step (suc a) 0,
    differ-zero (suc a % 2),
    xor_nothing n (suc a / 2) (omega arith),
  )

  and_nothing : (n a : ℕ) → a ≤ n → bit_and a 0 ≡ 0
  and_nothing zero zero h = refl
  and_nothing zero (suc a) h = absurd (omega arith)
  and_nothing (suc n) zero h = refl
  and_nothing (suc n) (suc a) h =
      omega (arith, bit_and_step (suc a) 0, and_nothing n (suc a / 2) (omega arith))

  and_same : (n a : ℕ) → a ≤ n → bit_and a a ≡ a
  and_same zero zero h = refl
  and_same zero (suc a) h = absurd (omega arith)
  and_same (suc n) zero h = refl
  and_same (suc n) (suc a) h =
      omega (arith, bit_and_step (suc a) (suc a), and_same n (suc a / 2) (omega arith))

  or_same : (n a : ℕ) → a ≤ n → bit_or a a ≡ a
  or_same zero zero h = refl
  or_same zero (suc a) h = absurd (omega arith)
  or_same (suc n) zero h = refl
  or_same (suc n) (suc a) h =
      omega (arith, bit_or_step (suc a) (suc a), or_same n (suc a / 2) (omega arith))

  xor_same : (n a : ℕ) → a ≤ n → bit_xor a a ≡ 0
  xor_same zero zero h = refl
  xor_same zero (suc a) h = absurd (omega arith)
  xor_same (suc n) zero h = refl
  xor_same (suc n) (suc a) h = omega (
    arith,
    bit_xor_step (suc a) (suc a),
    differ_self (suc a % 2),
    xor_same n (suc a / 2) (omega arith),
  )

pub bit_or-zero : (a : ℕ) → bit_or a 0 ≡ a
bit_or-zero a = or_nothing a a (le_refl a)

pub bit_xor-zero : (a : ℕ) → bit_xor a 0 ≡ a
bit_xor-zero a = xor_nothing a a (le_refl a)

pub bit_and-zero : (a : ℕ) → bit_and a 0 ≡ 0
bit_and-zero a = and_nothing a a (le_refl a)

pub bit_and_self : (a : ℕ) → bit_and a a ≡ a
bit_and_self a = and_same a a (le_refl a)

pub bit_or_self : (a : ℕ) → bit_or a a ≡ a
bit_or_self a = or_same a a (le_refl a)

pub bit_xor_self : (a : ℕ) → bit_xor a a ≡ 0
bit_xor_self a = xor_same a a (le_refl a)

-- The remainder by `2 * p`, from the half and the lowest digit.
mod_digit : (a p : ℕ) → 0 < p → a % (2 * p) ≡ a / 2 % p * 2 + a % 2
mod_digit a p h =
    a % (2 * p)
    ≡⟨ ap (λ (t : ℕ). t % (2 * p)) parts ⟩ (r + 2 * p * q) % (2 * p)
    ≡⟨ add-mul-mod_self_left r (2 * p) q ⟩ r % (2 * p)
    ≡⟨ mod-eq_of_lt (omega (arith, mod-lt (a / 2) h)) ⟩ r ∎
  where
    q : ℕ
    q = a / 2 / p

    r : ℕ
    r = a / 2 % p * 2 + a % 2

    parts : a ≡ r + 2 * p * q
    parts = omega (arith, div-add-mod (a / 2) p)

-- Masking with the `k` low bits is the remainder.
pub bit_and_mask : (k a : ℕ) → bit_and a (2 ^ k - 1) ≡ a % 2 ^ k
bit_and_mask zero a = omega (arith, bit_and-zero a)
bit_and_mask (suc k) a = ground (
  arith,
  bit_and_step a (2 ^ suc k - 1),
  pow-succ' 2 k,
  bit_and_mask k (a / 2),
  mod_digit a (2 ^ k) (one-le-pow k 2 (omega arith)),
  halves,
)
  where
    halves : ((2 ^ suc k - 1) / 2 ≡ 2 ^ k - 1) × ((2 ^ suc k - 1) % 2 ≡ 1)
    halves = omega (arith, pow-succ' 2 k, one-le-pow k 2 (omega arith))

-- Masking with a single bit.
pub bit_and_digit : (k a : ℕ) → bit_and a (2 ^ k) ≡ a / 2 ^ k % 2 * 2 ^ k
bit_and_digit zero a = ground (arith, bit_and_step a 1, bit_and-zero (a / 2))
bit_and_digit (suc k) a =
    rw
      (
        pow-succ' 2 k,
        bit_and_step a (2 * 2 ^ k),
        even.0,
        even.1,
        bit_and_digit k (a / 2),
        div-div-eq-div-mul a 2 (2 ^ k),
      )
      (omega arith)
  where
    even : (2 * 2 ^ k / 2 ≡ 2 ^ k) × (2 * 2 ^ k % 2 ≡ 0)
    even = omega arith
