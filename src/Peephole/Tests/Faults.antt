-- ===== src/Peephole/Tests/Faults.antt =====
-- The inputs at which a pattern of src/peephole.c changes the program, and runs of its walk.
use shecc.Prelude.{◌-◌, ◌^◌, ◌≡◌, ◌≢◌, refl, arith, true, some, if◌then◌else◌, List, [], ◌∷◌, ◌++◌}
use shecc.Ir.{Opcode, op_id, Ph2Ir, is_op}
use shecc.Ir.Semantics.{State, run}
use shecc.Peephole.Rule.{at_pair, log2_loop, shift_amount}
use shecc.Peephole.Strength
use shecc.Peephole.Bitwise
use shecc.Peephole.Strength.{strength_reduction, reduce, loads_power}
use shecc.Peephole.Bitwise.{bitwise_optimization, simplify_bits}
use shecc.Peephole.Moves.{redundant_move_elim}
use shecc.Peephole.Faults.{
  strength_reduction-negative, bitwise_optimization_loses, redundant_move_elim-offset,
}
use shecc.Peephole.Driver.{walk}
use shecc.Peephole.Driver.Ends.{walk_fuel}
use shecc.Peephole.Tests.{insn, ignore, filled, add_zero_cur, add_zero_next}

-- {li r0, 2; div r2, r1, r0}, with minus three in every register
abbrev div_cur : Ph2Ir
div_cur = insn Opcode.load_constant 2 0 0

abbrev div_next : Ph2Ir
div_next = insn Opcode.div 1 0 2

abbrev div_reduced : List Ph2Ir
div_reduced = insn Opcode.load_constant 1 0 0 ∷ insn Opcode.rshift 1 0 2 ∷ []

div_becomes : strength_reduction (div_cur ∷ div_next ∷ []) ≡ some div_reduced
unfolding strength_reduction reduce Strength.div_power loads_power shift_amount log2_loop at_pair
    is_op op_id
div_becomes = refl

strength_reduction-negative_example :
    (front : List Ph2Ir) × (div_reduced ≡ front ++ [])
    × ((run 0 0 ignore (div_cur ∷ div_next ∷ []) (filled (2 ^ 32 - 3))).reg 2
        ≢ (run 0 0 ignore front (filled (2 ^ 32 - 3))).reg 2)
strength_reduction-negative_example =
    strength_reduction-negative 0 0 ignore div_cur div_next [] div_reduced (filled (2 ^ 32 - 3))
      (omega arith) refl (omega arith) (omega arith) (omega arith) (omega arith) div_becomes

-- {li r0, 0; and r2, r0, r1}
abbrev and_next : Ph2Ir
and_next = insn Opcode.bit_and 0 1 2

and_lost : bitwise_optimization (add_zero_cur ∷ and_next ∷ []) ≡ some (add_zero_cur ∷ [])
unfolding bitwise_optimization simplify_bits Bitwise.negate_twice Bitwise.and_ones Bitwise.or_zero
    Bitwise.xor_zero Bitwise.and_zero at_pair is_op op_id
and_lost = refl

bitwise_optimization_loses_example :
    (add_zero_cur ∷ [] ≡ add_zero_cur ∷ [])
    × ((run 0 0 ignore (add_zero_cur ∷ []) (filled 5)).reg 2 ≡ 5)
bitwise_optimization_loses_example =
    bitwise_optimization_loses 0 0 ignore add_zero_cur and_next [] (add_zero_cur ∷ []) (filled 5)
      refl (omega arith) and_lost

-- {mov r2, r1; load r2, 8 from the top of the frame}
abbrev top_load : Ph2Ir
top_load = record (insn Opcode.load 8 0 2) { ofs_based_on_stack_top = true }

-- A frame whose slots from the top hold 1, the others 0.
abbrev two_bases : State
two_bases = record { reg = λ r. 5; frame = λ top k. if top then 1 else 0; global = λ k. 0 }

redundant_move_elim-offset_example :
    (v : Ph2Ir) × (redundant_move_elim (insn Opcode.assign 1 0 2 ∷ top_load ∷ []) ≡ some (v ∷ []))
    × ((run 0 0 ignore (insn Opcode.assign 1 0 2 ∷ top_load ∷ []) two_bases).reg 2 ≡ 1)
    × ((run 0 0 ignore (v ∷ []) two_bases).reg 2 ≡ 0)
redundant_move_elim-offset_example =
    redundant_move_elim-offset 0 0 ignore (insn Opcode.assign 1 0 2) top_load [] two_bases refl refl
      refl refl refl

walk_fuel_example :
    walk 2 (add_zero_cur ∷ add_zero_next ∷ []) ≡ walk 9 (add_zero_cur ∷ add_zero_next ∷ [])
walk_fuel_example = walk_fuel 2 9 (add_zero_cur ∷ add_zero_next ∷ []) (omega arith) (omega arith)
