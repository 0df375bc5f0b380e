-- ===== src/Peephole/Laws.antt =====
-- What each function of src/peephole.c keeps of two adjacent instructions. `front` is what takes
-- their places, and the rest of the block stays; the register that the first instruction sets may
-- differ afterwards, unless the second sets it too.
use shecc.Prelude.{ℕ, ◌^◌, ◌≡◌, ◌≢◌, ◌⊎◌, some, List, [], ◌∷◌, ◌++◌, IsWord, ◌<◌}
use shecc.Ir.{Opcode, Ph2Ir}
use shecc.Ir.Semantics.{State, HasWords, Agree, run}
use shecc.Peephole.Rule.Keep.{OneOperand, at_pair-prefix}
use shecc.Peephole.Fusion.{insn_fusion, fuse}
use shecc.Peephole.Fusion.Sound.{fuse-Keeps}
use shecc.Peephole.Strength.{strength_reduction, reduce}
use shecc.Peephole.Strength.Sound.{reduce-Keeps}
use shecc.Peephole.Moves.{redundant_move_elim, drop_move}
use shecc.Peephole.Moves.Sound.{drop_move-Keeps}
use shecc.Peephole.Memory.{eliminate_load_store_pairs, pair_memory}
use shecc.Peephole.Memory.Sound.{pair_memory-Kept}

module _ (data_start rodata_start : ℕ) (other : Ph2Ir → State → State) where
  -- Where registers and the constant are words and the second instruction does not use the first
  -- one's register for both operands, `insn_fusion` puts in the places of the two instructions
  -- others that leave the same registers, frame and globals, but perhaps for the first one's
  -- register, unless the second sets it too; the rest of the block stays.
  pub insn_fusion-Agree :
      (cur next : Ph2Ir) (rest w : List Ph2Ir) (s : State)
      → HasWords s
      → IsWord cur.src0
      → OneOperand cur next
      → insn_fusion (cur ∷ next ∷ rest) ≡ some w
      → (front : List Ph2Ir) × (w ≡ front ++ rest)
        × Agree cur.dest next.dest
            (run data_start rodata_start other (cur ∷ next ∷ []) s)
            (run data_start rodata_start other front s)
  unfolding insn_fusion
  insn_fusion-Agree cur next rest w s words field one h =
      let (front, hit, out) = at_pair-prefix fuse cur next rest w h in
      (front, out, fuse-Keeps data_start rodata_start other cur next front s words field one hit)

  -- Where registers and the constant are words, the second instruction does not use the first
  -- one's register for both operands, and it is a multiplication or its first operand is not
  -- negative, what `strength_reduction` puts in the places of the two instructions leaves the same
  -- registers, frame and globals as the two, but perhaps for the first one's register, unless the
  -- second sets it too; the rest of the block stays.
  pub strength_reduction-Agree :
      (cur next : Ph2Ir) (rest w : List Ph2Ir) (s : State)
      → HasWords s
      → IsWord cur.src0
      → OneOperand cur next
      → (next.op ≡ Opcode.mul) ⊎ (s.reg next.src0 < 2 ^ 31)
      → strength_reduction (cur ∷ next ∷ rest) ≡ some w
      → (front : List Ph2Ir) × (w ≡ front ++ rest)
        × Agree cur.dest next.dest
            (run data_start rodata_start other (cur ∷ next ∷ []) s)
            (run data_start rodata_start other front s)
  unfolding strength_reduction
  strength_reduction-Agree cur next rest w s words field one pos h =
      let (front, hit, out) = at_pair-prefix reduce cur next rest w h in
      (
        front,
        out,
        reduce-Keeps data_start rodata_start other cur next front s (words, field, one, pos) hit,
      )

  -- Where the second instruction does not set the register or number in its first field and both
  -- name frame slots the same way, what `redundant_move_elim` puts in the places of the two
  -- instructions leaves the same registers, frame and globals as the two, but perhaps for the
  -- first one's register, unless the second sets it too; the rest of the block stays.
  pub redundant_move_elim-Agree :
      (cur next : Ph2Ir) (rest w : List Ph2Ir) (s : State)
      → next.dest ≢ next.src0
      → cur.ofs_based_on_stack_top ≡ next.ofs_based_on_stack_top
      → redundant_move_elim (cur ∷ next ∷ rest) ≡ some w
      → (front : List Ph2Ir) × (w ≡ front ++ rest)
        × Agree cur.dest next.dest
            (run data_start rodata_start other (cur ∷ next ∷ []) s)
            (run data_start rodata_start other front s)
  unfolding redundant_move_elim
  redundant_move_elim-Agree cur next rest w s moves same_base h =
      let (front, hit, out) = at_pair-prefix drop_move cur next rest w h in
      (
        front,
        out,
        drop_move-Keeps data_start rodata_start other cur next front s (moves, same_base) hit,
      )

  -- Where both instructions name frame slots the same way, a load after a store is of the stored
  -- slot and the `dest` of the store repeats the stored register, and a store after a load puts
  -- the loaded register back in the loaded slot, what `eliminate_load_store_pairs` puts in the
  -- places of the two instructions leaves the same registers, frame and globals as the two; the
  -- rest of the block stays.
  pub eliminate_load_store_pairs-Agree :
      (cur next : Ph2Ir) (rest w : List Ph2Ir) (s : State)
      → cur.ofs_based_on_stack_top ≡ next.ofs_based_on_stack_top
      → (cur.op ≡ Opcode.store
          → next.op ≡ Opcode.load
          → (cur.src1 ≡ next.src0) × (cur.dest ≡ cur.src0))
      → (cur.op ≡ Opcode.load
          → next.op ≡ Opcode.store
          → (next.src0 ≡ cur.dest) × (next.src1 ≡ cur.src0))
      → eliminate_load_store_pairs (cur ∷ next ∷ rest) ≡ some w
      → (front : List Ph2Ir) × (w ≡ front ++ rest)
        × Agree next.dest next.dest
            (run data_start rodata_start other (cur ∷ next ∷ []) s)
            (run data_start rodata_start other front s)
  unfolding eliminate_load_store_pairs
  eliminate_load_store_pairs-Agree cur next rest w s same_base forward back h =
      let (front, hit, out) = at_pair-prefix pair_memory cur next rest w h in
      (
        front,
        out,
        pair_memory-Kept data_start rodata_start other cur next front s (same_base, forward, back)
            hit,
      )
