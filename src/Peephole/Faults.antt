-- ===== src/Peephole/Faults.antt =====
-- src/peephole.c: inputs at which a pattern changes what the program computes.
use shecc.Prelude.{
  ℕ, ◌-◌, ◌/◌, ◌%◌, ◌^◌, ◌≡◌, ◌≢◌, arith, true, false, some, List, [], ◌∷◌, ◌++◌, ◌∙◌, ap, IsWord,
  sar32, ◌<◌, ◌≤◌,
}
use shecc.Ir.{Opcode, Ph2Ir, is_op, eq_of_is_op}
use shecc.Ir.Semantics.{State, run, alu, sdiv32}
use native.Mathlib.Nat.{
  div-le_self, one-le-pow, pow-le-pow_right, div-eq_of_lt-le, div-add-mod, mod-lt,
}
use shecc.Peephole.Rule.{shift_amount, single_bit}
use shecc.Peephole.Rule.Power.{shift_amount_lem}
use shecc.Peephole.Strength.{reduce, div_power, rem_power, power_mul, mul_power, strength_reduction}
use shecc.Peephole.Bitwise.{bitwise_optimization, simplify_bits}
use shecc.Peephole.Bitwise.Sound.{lost}
use shecc.Peephole.Moves.{
  move_move, load_move, constant_move, load_load, constant_constant, move_load, drop_move,
  redundant_move_elim,
}
use shecc.Peephole.Rule.Keep.{at_pair-prefix, at_pair-some}

pred_div : (m p : ℕ) → 0 < m → 0 < p → m % p ≢ 0 → (m - 1) / p ≡ m / p
pred_div m p pos bound inexact =
    div-eq_of_lt-le p (ground (arith, div-add-mod m p))
      (ground (arith, div-add-mod m p, mod-lt m bound))

-- The arithmetic shift of a negative number rounds away from zero, the division towards zero.
shift-ne-div :
    (x p k : ℕ)
    → 2 ^ 31 ≤ x
    → x < 2 ^ 32
    → p ≡ 2 ^ k
    → k < 31
    → (2 ^ 32 - x) % p ≢ 0
    → sdiv32 x p ≢ sar32 x (k % 32)
unfolding sdiv32
shift-ne-div x p k neg word power small inexact = ground (
  arith,
  pred_div (2 ^ 32 - x) p (omega arith) bound.0 inexact,
  div-le_self (2 ^ 32 - x) p,
  bound,
)
  where
    bound : (0 < p) × (p < 2 ^ 31)
    bound = rw power (one-le-pow k 2 (omega arith), pow_small)
      where
        pow_small : 2 ^ k < 2 ^ 31
        pow_small =
            omega (arith, pow-le-pow_right {n = 2} (omega arith) {i = k} {j = 30} (omega arith))

-- What a division by a constant with a single bit becomes.
open_div :
    (cur next : Ph2Ir) (front : List Ph2Ir)
    → IsWord cur.src0
    → next.op ≡ Opcode.div
    → reduce cur next ≡ some front
    → (cur.op ≡ Opcode.load_constant)
      × (next.src1 ≡ cur.dest)
      × (0 < cur.src0)
      × (cur.src0 < 2 ^ 31)
      × (single_bit cur.src0 ≡ true)
      × (front
          ≡ record cur { src0 = shift_amount cur.src0 } ∷ record next { op = Opcode.rshift } ∷ [])
unfolding reduce div_power rem_power power_mul mul_power is_op
open_div cur next front word div h = ground (arith, eq_of_is_op cur.op Opcode.load_constant)

-- The pattern that applies to a move and a load.
drop-move_load :
    (cur next : Ph2Ir)
    → cur.op ≡ Opcode.assign
    → next.op ≡ Opcode.load
    → cur.dest ≡ next.dest
    → drop_move cur next
      ≡ some (record cur { op = next.op; src0 = next.src0; src1 = next.src1 } ∷ [])
unfolding drop_move move_move load_move constant_move load_load constant_constant move_load is_op
drop-move_load cur next move load same = ground arith

module _ (data_start rodata_start : ℕ) (other : Ph2Ir → State → State) where
  -- For a negative dividend that the power of two does not divide, in another register than the
  -- constant's, `strength_reduction` replaces the division by instructions that leave another
  -- quotient.
  pub strength_reduction-negative :
      (cur next : Ph2Ir) (rest w : List Ph2Ir) (s : State)
      → IsWord cur.src0
      → next.op ≡ Opcode.div
      → next.src0 ≢ cur.dest
      → 2 ^ 31 ≤ s.reg next.src0
      → s.reg next.src0 < 2 ^ 32
      → (2 ^ 32 - s.reg next.src0) % cur.src0 ≢ 0
      → strength_reduction (cur ∷ next ∷ rest) ≡ some w
      → (front : List Ph2Ir) × (w ≡ front ++ rest)
        × ((run data_start rodata_start other (cur ∷ next ∷ []) s).reg next.dest
            ≢ (run data_start rodata_start other front s).reg next.dest)
  unfolding strength_reduction run alu
  strength_reduction-negative cur next rest w s word div apart neg top inexact h =
      let (front, hit, out) = at_pair-prefix reduce cur next rest w h in
      let (constant, divisor, pos, small, single, becomes) = open_div cur next front word div hit in
      let (power, bound) = shift_amount_lem cur.src0 pos small single in
      let differ =
        shift-ne-div (s.reg next.src0) cur.src0 (shift_amount cur.src0) neg top power bound
          inexact in
      (front, out, λ e. differ (ground (arith, e, becomes)))

  -- When `bitwise_optimization` applies to a constant and an instruction with another destination,
  -- it removes that instruction, so that its destination keeps the old value.
  pub bitwise_optimization_loses :
      (cur next : Ph2Ir) (rest w : List Ph2Ir) (s : State)
      → cur.op ≡ Opcode.load_constant
      → cur.dest ≢ next.dest
      → bitwise_optimization (cur ∷ next ∷ rest) ≡ some w
      → (w ≡ cur ∷ rest)
        × ((run data_start rodata_start other (cur ∷ []) s).reg next.dest ≡ s.reg next.dest)
  unfolding bitwise_optimization run
  bitwise_optimization_loses cur next rest w s constant apart h =
      let (front, hit, out) = at_pair-prefix simplify_bits cur next rest w h in
      (
        out ∙ ap (λ v. v ++ rest) (lost data_start rodata_start other cur next front constant hit),
        ground arith,
      )

  -- For a move and a load into the same register from a slot counted from the top of the frame,
  -- where the move has the flag cleared, `redundant_move_elim` leaves a load of the slot with that
  -- offset counted from the bottom.
  pub redundant_move_elim-offset :
      (cur next : Ph2Ir) (rest : List Ph2Ir) (s : State)
      → cur.op ≡ Opcode.assign
      → next.op ≡ Opcode.load
      → cur.dest ≡ next.dest
      → cur.ofs_based_on_stack_top ≡ false
      → next.ofs_based_on_stack_top ≡ true
      → (v : Ph2Ir) × (redundant_move_elim (cur ∷ next ∷ rest) ≡ some (v ∷ rest))
        × ((run data_start rodata_start other (cur ∷ next ∷ []) s).reg next.dest
            ≡ s.frame true next.src0)
        × ((run data_start rodata_start other (v ∷ []) s).reg next.dest ≡ s.frame false next.src0)
  unfolding redundant_move_elim run
  redundant_move_elim-offset cur next rest s move load same bottom top = (
    record cur { op = next.op; src0 = next.src0; src1 = next.src1 },
    at_pair-some drop_move cur next rest _ (drop-move_load cur next move load same),
    ground arith,
    ground arith,
  )
