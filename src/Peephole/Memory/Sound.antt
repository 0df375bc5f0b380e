-- ===== src/Peephole/Memory/Sound.antt =====
-- Loads and stores of one slot, side by side.
use shecc.Prelude.{ℕ, ◌≡◌, ◌≢◌, ◌∙◌, arith, inl, inr, some, List, [], ◌∷◌, Option-cases}
use shecc.Ir.{Opcode, Ph2Ir, eq_of_is_op}
use shecc.Ir.Semantics.{State, Agree, run}
use shecc.Peephole.Rule.{Rule, ◌orelse◌}
use shecc.Peephole.Memory.{
  pair_memory, store_store, load_again, store_load, load_store, global_store_store,
  global_load_again, store_load_store,
}

-- Both name frame slots the same way; a load after a store is of the stored slot, and the `dest` of
-- the store repeats the stored register; a store after a load puts the loaded register back.
abbrev pub MemoryPre : Ph2Ir → Ph2Ir → Type 0
MemoryPre cur next =
    (cur.ofs_based_on_stack_top ≡ next.ofs_based_on_stack_top)
    × (cur.op ≡ Opcode.store
        → next.op ≡ Opcode.load
        → (cur.src1 ≡ next.src0) × (cur.dest ≡ cur.src0))
    × (cur.op ≡ Opcode.load
        → next.op ≡ Opcode.store
        → (next.src0 ≡ cur.dest) × (next.src1 ≡ cur.src0))

module _ (data_start rodata_start : ℕ) (other : Ph2Ir → State → State) where
  -- All registers, and the memory.
  abbrev pub Kept : Rule → Type 0
  Kept rule =
      (cur next : Ph2Ir) (w : List Ph2Ir) (s : State)
      → MemoryPre cur next
      → rule cur next ≡ some w
      → Agree next.dest next.dest (run data_start rodata_start other (cur ∷ next ∷ []) s)
          (run data_start rodata_start other w s)

  orelse-Kept : (a b : Rule) → Kept a → Kept b → Kept (λ cur next. a cur next orelse b cur next)
  orelse-Kept a b keep_a keep_b cur next w s pre h = elim (Option-cases (a cur next)) [
    | inl misses ↦ keep_b cur next w s pre (rw misses at h)
    | inr (v, hits) ↦ keep_a cur next w s pre (hits ∙ rw hits at h)
  ]

  store_store-Kept : Kept store_store
  unfolding store_store run
  store_store-Kept cur next w s (same_base, apart, apart') h =
      ground (arith, eq_of_is_op cur.op Opcode.store, eq_of_is_op next.op Opcode.store)

  load_again-Kept : Kept load_again
  unfolding load_again run
  load_again-Kept cur next w s (same_base, apart, apart') h =
      ground (arith, eq_of_is_op cur.op Opcode.load, eq_of_is_op next.op Opcode.load)

  store_load-Kept : Kept store_load
  unfolding store_load run
  store_load-Kept cur next w s (same_base, apart, apart') h =
      ground (arith, eq_of_is_op cur.op Opcode.store, eq_of_is_op next.op Opcode.load)

  load_store-Kept : Kept load_store
  unfolding load_store run
  load_store-Kept cur next w s (same_base, apart, apart') h =
      ground (arith, eq_of_is_op cur.op Opcode.load, eq_of_is_op next.op Opcode.store)

  global_store_store-Kept : Kept global_store_store
  unfolding global_store_store run
  global_store_store-Kept cur next w s (same_base, apart, apart') h =
      ground
        (arith, eq_of_is_op cur.op Opcode.global_store, eq_of_is_op next.op Opcode.global_store)

  global_load_again-Kept : Kept global_load_again
  unfolding global_load_again run
  global_load_again-Kept cur next w s (same_base, apart, apart') h =
      ground (arith, eq_of_is_op cur.op Opcode.global_load, eq_of_is_op next.op Opcode.global_load)

  pub pair_memory-Kept : Kept pair_memory
  unfolding pair_memory
  pair_memory-Kept = orelse-Kept store_store _ store_store-Kept (
      orelse-Kept load_again _ load_again-Kept (
        orelse-Kept store_load _ store_load-Kept (
          orelse-Kept load_store _ load_store-Kept
            (orelse-Kept global_store_store _ global_store_store-Kept global_load_again-Kept))))

  -- Where the first triple pattern applies, every register but the removed load's holds afterwards
  -- what it held after the three instructions.
  pub store_load_store-Agree :
      (first second third : Ph2Ir) (w : List Ph2Ir) (s : State) (d : ℕ)
      → second.dest ≡ d
      → (r : ℕ) → r ≢ d
      → store_load_store first second third ≡ some w
      → (run data_start rodata_start other (first ∷ second ∷ third ∷ []) s).reg r
        ≡ (run data_start rodata_start other w s).reg r
  unfolding store_load_store run
  store_load_store-Agree first second third w s d e r ne h = ground (
    arith,
    eq_of_is_op first.op Opcode.store,
    eq_of_is_op second.op Opcode.load,
    eq_of_is_op third.op Opcode.store,
  )
