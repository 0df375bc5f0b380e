-- ===== src/Peephole/Moves/Sound.antt =====
-- A write to a register that the next instruction writes again may go.
use shecc.Prelude.{ℕ, ◌≡◌, ◌≢◌, ◌⊎◌, inl, inr, arith, true, ◌||◌, some, List, [], ◌∷◌}
use shecc.Ir.{Opcode, Ph2Ir, is_op, eq_of_is_op}
use shecc.Ir.Semantics.{State, run}
use shecc.Peephole.Rule.{Rule}
use shecc.Peephole.Rule.Keep.{Keeps, orelse-Keeps}
use shecc.Peephole.Moves.{
  drop_move, move_move, load_move, constant_move, load_load, constant_constant, move_load,
  move_constant,
}

-- The second instruction is no move of a register to itself, which the driver removes before, and
-- both name frame slots the same way.
abbrev pub MovePre : Ph2Ir → Ph2Ir → State → Type 0
MovePre cur next s =
    (next.dest ≢ next.src0) × (cur.ofs_based_on_stack_top ≡ next.ofs_based_on_stack_top)

-- What the tests of the two patterns over loads say.
is_load :
    (o : Opcode)
    → (is_op o Opcode.load || is_op o Opcode.global_load) ≡ true
    → (o ≡ Opcode.load) ⊎ (o ≡ Opcode.global_load)
is_load o h = ground (arith, eq_of_is_op o Opcode.load, eq_of_is_op o Opcode.global_load)

open_load_move :
    (cur next : Ph2Ir) (w : List Ph2Ir)
    → load_move cur next ≡ some w
    → ((cur.op ≡ Opcode.load) ⊎ (cur.op ≡ Opcode.global_load))
      × (next.op ≡ Opcode.assign)
      × (cur.dest ≡ next.dest)
      × (w ≡ record cur { op = Opcode.assign; src0 = next.src0; src1 = 0 } ∷ [])
unfolding load_move
open_load_move cur next w h = (
  is_load cur.op (ground arith),
  ground (arith, eq_of_is_op next.op Opcode.assign),
  ground arith,
  ground arith,
)

open_load_load :
    (cur next : Ph2Ir) (w : List Ph2Ir)
    → load_load cur next ≡ some w
    → ((cur.op ≡ Opcode.load) ⊎ (cur.op ≡ Opcode.global_load))
      × ((next.op ≡ Opcode.load) ⊎ (next.op ≡ Opcode.global_load))
      × (cur.dest ≡ next.dest)
      × (w ≡ record cur { op = next.op; src0 = next.src0; src1 = next.src1 } ∷ [])
unfolding load_load
open_load_load cur next w h =
    (is_load cur.op (ground arith), is_load next.op (ground arith), ground arith, ground arith)

module _ (data_start rodata_start : ℕ) (other : Ph2Ir → State → State) where
  abbrev pub Kept : Rule → Type 0
  Kept = Keeps data_start rodata_start other MovePre

  move_move-Keeps : Kept move_move
  unfolding move_move run
  move_move-Keeps cur next w s (other_source, same_base) h =
      ground (arith, eq_of_is_op cur.op Opcode.assign, eq_of_is_op next.op Opcode.assign)

  load_move-Keeps : Kept load_move
  unfolding load_move run
  load_move-Keeps cur next w s (other_source, same_base) h =
      let (loads, moves, same_dest, out) = open_load_move cur next w h in
      elim loads [
        | inl local ↦ rw out (ground (arith, eq_of_is_op next.op Opcode.assign))
        | inr global ↦ rw out (ground (arith, eq_of_is_op next.op Opcode.assign))
      ]

  constant_move-Keeps : Kept constant_move
  unfolding constant_move run
  constant_move-Keeps cur next w s (other_source, same_base) h =
      ground (arith, eq_of_is_op cur.op Opcode.load_constant, eq_of_is_op next.op Opcode.assign)

  load_load-Keeps : Kept load_load
  unfolding load_load run
  load_load-Keeps cur next w s (other_source, same_base) h =
      let (loads, loads', same_dest, out) = open_load_load cur next w h in
      elim loads [
        | inl local ↦ elim loads' [
          | inl local' ↦ rw out (ground arith)
          | inr global' ↦ rw out (ground arith)
        ]
        | inr global ↦ elim loads' [
          | inl local' ↦ rw out (ground arith)
          | inr global' ↦ rw out (ground arith)
        ]
      ]

  constant_constant-Keeps : Kept constant_constant
  unfolding constant_constant run
  constant_constant-Keeps cur next w s (other_source, same_base) h =
      ground
        (arith, eq_of_is_op cur.op Opcode.load_constant, eq_of_is_op next.op Opcode.load_constant)

  move_load-Keeps : Kept move_load
  unfolding move_load run
  move_load-Keeps cur next w s (other_source, same_base) h = ground (
    arith,
    eq_of_is_op cur.op Opcode.assign,
    eq_of_is_op next.op Opcode.load,
    eq_of_is_op next.op Opcode.global_load,
  )

  move_constant-Keeps : Kept move_constant
  unfolding move_constant run
  move_constant-Keeps cur next w s (other_source, same_base) h =
      ground (arith, eq_of_is_op cur.op Opcode.assign, eq_of_is_op next.op Opcode.load_constant)

  pub drop_move-Keeps : Kept drop_move
  unfolding drop_move
  drop_move-Keeps = orelse-Keeps data_start rodata_start other MovePre move_move _ move_move-Keeps (
      orelse-Keeps data_start rodata_start other MovePre load_move _ load_move-Keeps (
        orelse-Keeps data_start rodata_start other MovePre constant_move _ constant_move-Keeps (
          orelse-Keeps data_start rodata_start other MovePre load_load _ load_load-Keeps (
            orelse-Keeps data_start rodata_start other MovePre constant_constant _
              constant_constant-Keeps
              (orelse-Keeps data_start rodata_start other MovePre move_load _ move_load-Keeps
                move_constant-Keeps)))))
