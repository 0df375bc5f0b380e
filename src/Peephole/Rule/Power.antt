-- ===== src/Peephole/Rule/Power.antt =====
-- The test for a power of two, and the loop that finds its exponent.
use native.Mathlib.Decide.{dec_lt, ℕ_discrete}
use native.Mathlib.Nat.{pow-succ', pow-zero, pow-le-pow_right}
use shecc.Prelude.{
  ℕ, zero, suc, ◌+◌, ◌-◌, ◌/◌, ◌%◌, ◌^◌, ◌<◌, ◌≡◌, ◌≢◌, inl, inr, arith, true, Bool-cases, bit_and,
  sub32, sar32, slt32, bit_and_step, bit_and_self, ==_iff,
}
use shecc.Peephole.Rule.{log2_loop, shift_amount, single_bit}

-- A number that shares no bit with its predecessor is 1 or even, and then its half is such a number.
half_single :
    (n : ℕ) → 1 < n → bit_and n (n - 1) ≡ 0 → (n % 2 ≡ 0) × (bit_and (n / 2) (n / 2 - 1) ≡ 0)
half_single n h e = elim (ℕ_discrete (n % 2) 0) [
  | yes even ↦ (even, half_even even)
  | no odd ↦ absurd (half_odd odd)
]
  where
    half_even : n % 2 ≡ 0 → bit_and (n / 2) (n / 2 - 1) ≡ 0
    half_even even =
        let q : (n - 1) / 2 ≡ n / 2 - 1 = omega arith in
        rw (← q) (omega (arith, bit_and_step n (n - 1)))

    half_odd : n % 2 ≢ 0 → ⊥
    half_odd odd =
        let q : (n - 1) / 2 ≡ n / 2 = omega arith in
        let low = rw q at (bit_and_step n (n - 1)) in omega (arith, low, bit_and_self (n / 2))

loop_finds :
    (fuel n shift : ℕ)
    → 0 < n
    → n < 2 ^ 31
    → n < 2 ^ fuel
    → bit_and n (n - 1) ≡ 0
    → (k : ℕ) × (log2_loop fuel n shift ≡ shift + k) × (n ≡ 2 ^ k)
unfolding log2_loop
loop_finds zero n shift pos small fits e = absurd (omega (arith, pow-zero 2))
loop_finds (suc fuel) n shift pos small fits e = elim (Bool-cases (slt32 1 n)) [
  | inr done ↦ (0, rw done (omega arith), ground (arith, pow-zero 2))
  | inl more ↦
      let big : 1 < n = ground arith in
      let half = half_single n big e in
      let (k, found, power) =
        loop_finds fuel (n / 2) (shift + 1) (omega arith) (omega arith)
          (omega (arith, pow-succ' 2 fuel)) half.1 in
      let halved : sar32 n 1 ≡ n / 2 = ground arith in
      (suc k, rw (more, halved) (omega (arith, found)), omega (arith, power, half.0, pow-succ' 2 k))
]

exponent-lt : (k : ℕ) → 2 ^ k < 2 ^ 31 → k < 31
exponent-lt k h = elim (dec_lt k 31) [
  | yes p ↦ p
  | no p ↦
      absurd (omega (arith, pow-le-pow_right {n = 2} (omega arith) {i = 31} {j = k} (omega arith)))
]

-- For a positive `int` with a single bit the loop finds its exponent, which is below 31.
pub shift_amount_lem :
    (n : ℕ)
    → 0 < n
    → n < 2 ^ 31
    → single_bit n ≡ true
    → (n ≡ 2 ^ shift_amount n) × (shift_amount n < 31)
unfolding shift_amount
shift_amount_lem n pos small single =
    let less : sub32 n 1 ≡ n - 1 = omega arith in
    let none_shared = rw less at ((==_iff _ 0).0 single) in
    let (k, found, power) = loop_finds 32 n 0 pos small (omega arith) none_shared in
    let same : log2_loop 32 n 0 ≡ k = omega (arith, found) in
    rw same (power, exponent-lt k (rw (← power) small))
