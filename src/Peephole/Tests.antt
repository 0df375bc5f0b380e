-- ===== src/Peephole/Tests.antt =====
-- Runs of src/peephole.c, and each theorem on it at concrete instructions.
mod Faults
use shecc.Prelude.{
  ℕ, length, ◌-◌, ◌^◌, ◌≤◌, ◌<◌, ◌≡◌, ◌≢◌, refl, arith, inl, true, false, some, if◌then◌else◌, List,
  [], ◌∷◌, ◌++◌,
}
use shecc.Ir.{Opcode, op_id, Ph2Ir, is_op}
use shecc.Ir.Semantics.{State, HasWords, Agree, exec, run}
use shecc.Peephole.Rule.{at_pair, log2_loop, shift_amount}
use shecc.Peephole.Rule.Power.{shift_amount_lem}
use shecc.Peephole.Rule.Keep.{OneOperand}
use shecc.Peephole.Fusion.{insn_fusion, fuse}
use shecc.Peephole.Fusion
use shecc.Peephole.Strength
use shecc.Peephole.Bitwise
use shecc.Peephole.Moves
use shecc.Peephole.Memory
use shecc.Peephole.Strength.{strength_reduction, reduce, loads_power}
use shecc.Peephole.Bitwise.{bitwise_optimization, simplify_bits}
use shecc.Peephole.Moves.{redundant_move_elim, drop_move}
use shecc.Peephole.Memory.{eliminate_load_store_pairs, pair_memory, store_load_store}
use shecc.Peephole.Memory.Sound.{store_load_store-Agree}
use shecc.Peephole.Simplify.{comparison_optimization, algebraic_simplification, neq_self, sub_self}
use shecc.Peephole.Simplify.Sound.{exec-comparison_optimization, exec-algebraic_simplification}
use shecc.Peephole.Laws.{
  insn_fusion-Agree, strength_reduction-Agree, redundant_move_elim-Agree,
  eliminate_load_store_pairs-Agree,
}
use shecc.Peephole.Faults.{
  strength_reduction-negative, bitwise_optimization_loses, redundant_move_elim-offset,
}
use shecc.Peephole.Driver.{walk}
use shecc.Peephole.Driver.Ends.{walk_fuel, length-walk-le}

abbrev pub insn : Opcode → ℕ → ℕ → ℕ → Ph2Ir
insn op src0 src1 dest = record {
  op = op;
  src0 = src0;
  src1 = src1;
  dest = dest;
  func_name = "";
  next_bb = 0;
  then_bb = 0;
  else_bb = 0;
  is_branch_detached = false;
  ofs_based_on_stack_top = false;
}

abbrev pub ignore : Ph2Ir → State → State
ignore ir s = s

-- Every register holds `n`.
abbrev pub filled : ℕ → State
filled n = record { reg = λ r. n; frame = λ top k. k; global = λ k. k }

filled_5-HasWords : HasWords (filled 5)
filled_5-HasWords r = omega arith

-- {li r0, 0; add r2, r1, r0}
abbrev pub add_zero_cur : Ph2Ir
add_zero_cur = insn Opcode.load_constant 0 0 0

abbrev pub add_zero_next : Ph2Ir
add_zero_next = insn Opcode.add 1 0 2

add_apart : OneOperand add_zero_cur add_zero_next
add_apart = ground arith

fused : insn_fusion (add_zero_cur ∷ add_zero_next ∷ []) ≡ some (insn Opcode.assign 1 0 2 ∷ [])
unfolding insn_fusion fuse Fusion.fuse_assign Fusion.add_zero at_pair is_op op_id
fused = refl

insn_fusion-Agree_example :
    (front : List Ph2Ir) × (insn Opcode.assign 1 0 2 ∷ [] ≡ front ++ [])
    × Agree 0 2
        (run 0 0 ignore (add_zero_cur ∷ add_zero_next ∷ []) (filled 5))
        (run 0 0 ignore front (filled 5))
insn_fusion-Agree_example =
    insn_fusion-Agree 0 0 ignore add_zero_cur add_zero_next [] (insn Opcode.assign 1 0 2 ∷ [])
      (filled 5) filled_5-HasWords (omega arith) add_apart fused

-- {li r0, 8; mul r2, r1, r0}
abbrev mul_cur : Ph2Ir
mul_cur = insn Opcode.load_constant 8 0 0

abbrev mul_next : Ph2Ir
mul_next = insn Opcode.mul 1 0 2

abbrev mul_reduced : List Ph2Ir
mul_reduced = insn Opcode.load_constant 3 0 0 ∷ insn Opcode.lshift 1 0 2 ∷ []

mul_apart : OneOperand mul_cur mul_next
mul_apart = ground arith

reduced : strength_reduction (mul_cur ∷ mul_next ∷ []) ≡ some mul_reduced
unfolding strength_reduction reduce Strength.div_power Strength.rem_power Strength.power_mul
    Strength.mul_power loads_power shift_amount log2_loop at_pair is_op op_id
reduced = refl

strength_reduction-Agree_example :
    (front : List Ph2Ir) × (mul_reduced ≡ front ++ [])
    × Agree 0 2
        (run 0 0 ignore (mul_cur ∷ mul_next ∷ []) (filled 5))
        (run 0 0 ignore front (filled 5))
strength_reduction-Agree_example =
    strength_reduction-Agree 0 0 ignore mul_cur mul_next [] mul_reduced (filled 5) filled_5-HasWords
      (omega arith) mul_apart (inl refl) reduced

-- {load r0, 4; mov r0, r1}
abbrev move_cur : Ph2Ir
move_cur = insn Opcode.load 4 0 0

abbrev move_next : Ph2Ir
move_next = insn Opcode.assign 1 0 0

dropped : redundant_move_elim (move_cur ∷ move_next ∷ []) ≡ some (insn Opcode.assign 1 0 0 ∷ [])
unfolding redundant_move_elim drop_move Moves.move_move Moves.load_move at_pair is_op op_id
dropped = refl

redundant_move_elim-Agree_example :
    (front : List Ph2Ir) × (insn Opcode.assign 1 0 0 ∷ [] ≡ front ++ [])
    × Agree 0 0
        (run 0 0 ignore (move_cur ∷ move_next ∷ []) (filled 5))
        (run 0 0 ignore front (filled 5))
redundant_move_elim-Agree_example =
    redundant_move_elim-Agree 0 0 ignore move_cur move_next [] (insn Opcode.assign 1 0 0 ∷ [])
      (filled 5) (omega arith) refl dropped

-- The register 4 is stored in the slot 4, and loaded from it.
abbrev store_cur : Ph2Ir
store_cur = insn Opcode.store 4 4 4

abbrev load_next : Ph2Ir
load_next = insn Opcode.load 4 4 5

abbrev load_pair : List Ph2Ir
load_pair = store_cur ∷ insn Opcode.assign 4 0 5 ∷ []

paired : eliminate_load_store_pairs (store_cur ∷ load_next ∷ []) ≡ some load_pair
unfolding eliminate_load_store_pairs pair_memory Memory.store_store Memory.load_again
    Memory.store_load at_pair is_op op_id
paired = refl

store_ne_load : Opcode.store ≢ Opcode.load
store_ne_load e = cc

eliminate_load_store_pairs-Agree_example :
    (front : List Ph2Ir) × (load_pair ≡ front ++ [])
    × Agree 5 5
        (run 0 0 ignore (store_cur ∷ load_next ∷ []) (filled 5))
        (run 0 0 ignore front (filled 5))
eliminate_load_store_pairs-Agree_example =
    eliminate_load_store_pairs-Agree 0 0 ignore store_cur load_next [] load_pair (filled 5) refl
      (λ e f. (refl, refl)) (λ e f. absurd (store_ne_load e)) paired

-- `x != x`
not_equal : comparison_optimization (insn Opcode.neq 1 1 2) ≡ some (insn Opcode.load_constant 0 0 2)
unfolding comparison_optimization neq_self is_op op_id
not_equal = refl

-- `x - x`
difference :
    algebraic_simplification (insn Opcode.sub 1 1 2) ≡ some (insn Opcode.load_constant 0 0 2)
unfolding algebraic_simplification sub_self is_op op_id
difference = refl

-- {store r1, 8; load r2, 8; store r3, 8}
abbrev triple_first : Ph2Ir
triple_first = insn Opcode.store 1 8 0

abbrev triple_second : Ph2Ir
triple_second = insn Opcode.load 8 0 2

abbrev triple_third : Ph2Ir
triple_third = insn Opcode.store 3 8 0

triple_shorter :
    store_load_store triple_first triple_second triple_third
    ≡ some (triple_first ∷ triple_third ∷ [])
unfolding store_load_store is_op op_id
triple_shorter = refl
