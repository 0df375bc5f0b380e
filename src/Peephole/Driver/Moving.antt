-- ===== src/Peephole/Driver/Moving.antt =====
-- src/peephole.c: the sizes of what the move, load and store patterns give.
use shecc.Prelude.{
  length, length-append, ◌≡◌, refl, arith, Option, none, some, List, [], ◌∷◌, ◌++◌, ◌≤◌,
}
use shecc.Ir.{Ph2Ir}
use shecc.Peephole.Rule.{◌orelse◌}
use shecc.Peephole.Memory.{store_load_store, three_stores, triple_pattern_optimization}
use shecc.Peephole.Moves
use shecc.Peephole.Memory
use shecc.Peephole.Driver.Small.{IsSmall, IsSmall-orelse, Shrinks, at_pair-Shrinks}

moves_move_move-IsSmall : (cur next : Ph2Ir) → IsSmall (Moves.move_move cur next)
unfolding Moves.move_move
moves_move_move-IsSmall cur next = record { bounds = λ w h. ground arith }

moves_load_move-IsSmall : (cur next : Ph2Ir) → IsSmall (Moves.load_move cur next)
unfolding Moves.load_move
moves_load_move-IsSmall cur next = record { bounds = λ w h. ground arith }

moves_constant_move-IsSmall : (cur next : Ph2Ir) → IsSmall (Moves.constant_move cur next)
unfolding Moves.constant_move
moves_constant_move-IsSmall cur next = record { bounds = λ w h. ground arith }

moves_load_load-IsSmall : (cur next : Ph2Ir) → IsSmall (Moves.load_load cur next)
unfolding Moves.load_load
moves_load_load-IsSmall cur next = record { bounds = λ w h. ground arith }

moves_constant_constant-IsSmall : (cur next : Ph2Ir) → IsSmall (Moves.constant_constant cur next)
unfolding Moves.constant_constant
moves_constant_constant-IsSmall cur next = record { bounds = λ w h. ground arith }

moves_move_load-IsSmall : (cur next : Ph2Ir) → IsSmall (Moves.move_load cur next)
unfolding Moves.move_load
moves_move_load-IsSmall cur next = record { bounds = λ w h. ground arith }

moves_move_constant-IsSmall : (cur next : Ph2Ir) → IsSmall (Moves.move_constant cur next)
unfolding Moves.move_constant
moves_move_constant-IsSmall cur next = record { bounds = λ w h. ground arith }

pub drop_move-Shrinks : Shrinks Moves.redundant_move_elim
unfolding Moves.redundant_move_elim Moves.drop_move
drop_move-Shrinks = at_pair-Shrinks _ λ cur next.
    IsSmall-orelse (Moves.move_move cur next) _ (moves_move_move-IsSmall cur next) (
      (IsSmall-orelse (Moves.load_move cur next) _ (moves_load_move-IsSmall cur next) (
        (IsSmall-orelse (Moves.constant_move cur next) _ (moves_constant_move-IsSmall cur next) (
          (IsSmall-orelse (Moves.load_load cur next) _ (moves_load_load-IsSmall cur next) (
            (IsSmall-orelse (Moves.constant_constant cur next) _
              (moves_constant_constant-IsSmall cur next)
              ((IsSmall-orelse (Moves.move_load cur next) _ (moves_move_load-IsSmall cur next)
                (moves_move_constant-IsSmall cur next)))))))))))

memory_store_store-IsSmall : (cur next : Ph2Ir) → IsSmall (Memory.store_store cur next)
unfolding Memory.store_store
memory_store_store-IsSmall cur next = record { bounds = λ w h. ground arith }

memory_load_again-IsSmall : (cur next : Ph2Ir) → IsSmall (Memory.load_again cur next)
unfolding Memory.load_again
memory_load_again-IsSmall cur next = record { bounds = λ w h. ground arith }

memory_store_load-IsSmall : (cur next : Ph2Ir) → IsSmall (Memory.store_load cur next)
unfolding Memory.store_load
memory_store_load-IsSmall cur next = record { bounds = λ w h. ground arith }

memory_load_store-IsSmall : (cur next : Ph2Ir) → IsSmall (Memory.load_store cur next)
unfolding Memory.load_store
memory_load_store-IsSmall cur next = record { bounds = λ w h. ground arith }

memory_global_store_store-IsSmall :
    (cur next : Ph2Ir) → IsSmall (Memory.global_store_store cur next)
unfolding Memory.global_store_store
memory_global_store_store-IsSmall cur next = record { bounds = λ w h. ground arith }

memory_global_load_again-IsSmall : (cur next : Ph2Ir) → IsSmall (Memory.global_load_again cur next)
unfolding Memory.global_load_again
memory_global_load_again-IsSmall cur next = record { bounds = λ w h. ground arith }

pub pair_memory-Shrinks : Shrinks Memory.eliminate_load_store_pairs
unfolding Memory.eliminate_load_store_pairs Memory.pair_memory
pair_memory-Shrinks = at_pair-Shrinks _ λ cur next.
    IsSmall-orelse (Memory.store_store cur next) _ (memory_store_store-IsSmall cur next) (
      (IsSmall-orelse (Memory.load_again cur next) _ (memory_load_again-IsSmall cur next) (
        (IsSmall-orelse (Memory.store_load cur next) _ (memory_store_load-IsSmall cur next) (
          (IsSmall-orelse (Memory.load_store cur next) _ (memory_load_store-IsSmall cur next) (
            (IsSmall-orelse (Memory.global_store_store cur next) _
              (memory_global_store_store-IsSmall cur next)
              (memory_global_load_again-IsSmall cur next)))))))))

triples-IsSmall : (a b c : Ph2Ir) → IsSmall (store_load_store a b c orelse three_stores a b c)
unfolding store_load_store three_stores
triples-IsSmall a b c =
    IsSmall-orelse (store_load_store a b c) (three_stores a b c)
      (record { bounds = λ w h. ground arith }) (record { bounds = λ w h. ground arith })

pub triple-Shrinks : Shrinks triple_pattern_optimization
unfolding triple_pattern_optimization store_load_store three_stores
triple-Shrinks [] w h = cc
triple-Shrinks (a ∷ []) w h = cc
triple-Shrinks (a ∷ b ∷ []) w h = cc
triple-Shrinks (a ∷ b ∷ c ∷ rest) w h =
    split (store_load_store a b c orelse three_stores a b c) (triples-IsSmall a b c) h
  where
    split :
        (o : Option (List Ph2Ir))
        → IsSmall o
        → elim o [ none ↦ none | some v ↦ some (v ++ rest) ] ≡ some w
        → (1 ≤ length w) × (length w ≤ length (a ∷ b ∷ c ∷ rest))
    split none s e = cc
    split (some v) s e = ground (arith, s.bounds v refl, length-append v rest)
