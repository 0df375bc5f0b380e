-- ===== src/Prelude/Word.antt =====
-- The `int` of the compiler: 32 bits, kept as the bit pattern, a number below 2 ^ 32.
-- Addition, subtraction, multiplication and `<<` wrap; `>>` is the arithmetic shift.
use Prim.Native.Nat.{ℕ, ◌+◌, ◌-◌, ◌*◌, ◌/◌, ◌%◌, ◌^◌, ◌<◌}
use mathlib.Core.Bool.{Bool}
use shecc.Prelude.Tests.{ltb, leb, if◌then◌else◌}

abbrev pub IsWord : ℕ → Type 0
IsWord x = x < 2 ^ 32

abbrev pub add32 : ℕ → ℕ → ℕ
add32 a b = (a + b) % 2 ^ 32

abbrev pub sub32 : ℕ → ℕ → ℕ
sub32 a b = (a + (2 ^ 32 - b)) % 2 ^ 32

abbrev pub mul32 : ℕ → ℕ → ℕ
mul32 a b = a * b % 2 ^ 32

-- The pattern of -a.
abbrev pub neg32 : ℕ → ℕ
neg32 a = (2 ^ 32 - a) % 2 ^ 32

abbrev pub is_neg : ℕ → Bool
is_neg a = leb (2 ^ 31) a

abbrev pub shl32 : ℕ → ℕ → ℕ
shl32 a k = a * 2 ^ k % 2 ^ 32

-- The logical shift of the hardware.
abbrev pub shr32 : ℕ → ℕ → ℕ
shr32 a k = a / 2 ^ k

-- `a >> k` of a signed `a`: the quotient is rounded downwards.
abbrev pub sar32 : ℕ → ℕ → ℕ
sar32 a k = if is_neg a then 2 ^ 32 - 1 - (2 ^ 32 - 1 - a) / 2 ^ k else a / 2 ^ k

-- `a < b` of signed operands: the sign bit is flipped, then the patterns compare.
abbrev pub slt32 : ℕ → ℕ → Bool
slt32 a b = ltb ((a + 2 ^ 31) % 2 ^ 32) ((b + 2 ^ 31) % 2 ^ 32)

abbrev pub sle32 : ℕ → ℕ → Bool
sle32 a b = leb ((a + 2 ^ 31) % 2 ^ 32) ((b + 2 ^ 31) % 2 ^ 32)

-- The value of a comparison: 1 or 0.
abbrev pub bool_word : Bool → ℕ
bool_word b = if b then 1 else 0

-- The pattern of the signed number that the low `k` bits of `v` stand for.
abbrev pub sign_extend : ℕ → ℕ → ℕ
sign_extend k v = if ltb (v % 2 ^ k) (2 ^ (k - 1)) then v % 2 ^ k else v % 2 ^ k + (2 ^ 32 - 2 ^ k)
