-- ===== src/Prelude/Bits/Step.antt =====
-- One equation for the lowest binary digit of each bit operation. The native operations stand for
-- `bitwise`, a recursion with fuel; the fuel is dropped here.
use Prim.Native.Nat.{
  ℕ, zero, suc, ◌+◌, ◌*◌, ◌/◌, ◌%◌, ◌≤◌, min, max, digits, bitwise, differ, bit_and, bit_or,
  bit_xor, bit_and-bitwise, bit_or-bitwise, bit_xor-bitwise,
}
use mathlib.Core.Path.{◌≡◌, refl}
use native.Mathlib.Omega.{arith}

module _ (left_over : ℕ → ℕ) (digit : ℕ → ℕ → ℕ) where
  any_fuel :
      (n k a b : ℕ) → a ≤ n → a ≤ k → digits left_over digit n a b ≡ digits left_over digit k a b
  any_fuel zero zero a b p q = refl
  any_fuel zero (suc k) zero b p q = refl
  any_fuel zero (suc k) (suc a) b p q = absurd (omega arith)
  any_fuel (suc n) zero zero b p q = refl
  any_fuel (suc n) zero (suc a) b p q = absurd (omega arith)
  any_fuel (suc n) (suc k) zero b p q = refl
  any_fuel (suc n) (suc k) (suc a) b p q =
      rw (any_fuel n k (suc a / 2) (b / 2) (omega arith) (omega arith))

  lowest_digit :
      (a b : ℕ)
      → bitwise left_over digit (suc a) b
        ≡ bitwise left_over digit (suc a / 2) (b / 2) * 2 + digit (suc a % 2) (b % 2)
  lowest_digit a b =
      omega (arith, any_fuel a (suc a / 2) (suc a / 2) (b / 2) (omega arith) (omega arith))

pub bit_and_step : (a b : ℕ) → bit_and a b ≡ bit_and (a / 2) (b / 2) * 2 + min (a % 2) (b % 2)
bit_and_step zero b = rw bit_and-bitwise (omega (arith, bit_and-bitwise 0 (b / 2)))
bit_and_step (suc a) b =
    rw (bit_and-bitwise (suc a) b, bit_and-bitwise (suc a / 2) (b / 2))
      (lowest_digit (λ _. 0) min a b)

pub bit_or_step : (a b : ℕ) → bit_or a b ≡ bit_or (a / 2) (b / 2) * 2 + max (a % 2) (b % 2)
bit_or_step zero b = rw bit_or-bitwise (omega (arith, bit_or-bitwise 0 (b / 2)))
bit_or_step (suc a) b =
    rw (bit_or-bitwise (suc a) b, bit_or-bitwise (suc a / 2) (b / 2))
      (lowest_digit (λ y. y) max a b)

pub bit_xor_step : (a b : ℕ) → bit_xor a b ≡ bit_xor (a / 2) (b / 2) * 2 + differ (a % 2) (b % 2)
bit_xor_step zero b = rw bit_xor-bitwise (omega (arith, bit_xor-bitwise 0 (b / 2)))
bit_xor_step (suc a) b =
    rw (bit_xor-bitwise (suc a) b, bit_xor-bitwise (suc a / 2) (b / 2))
      (lowest_digit (λ y. y) differ a b)

pub differ-zero : (x : ℕ) → differ x 0 ≡ x
differ-zero zero = refl
differ-zero (suc x) = refl

pub differ_self : (x : ℕ) → differ x x ≡ 0
differ_self zero = refl
differ_self (suc x) = differ_self x
