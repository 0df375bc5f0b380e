-- ===== src/ArmGen/Layout.antt =====
-- src/arm-codegen.c: `update_elf_offset` reserves what `emit_ph2_ir` writes.
use shecc.Prelude.{
  ℕ, length, ◌*◌, ◌≡◌, refl, ◌⊎◌, inl, inr, arith, some, List, [], ◌∷◌, add32, bind-some,
  bit_and_mask, shl32, ◌<◌, ◌^◌,
}
use shecc.Words.{fatal, collect, length-collect, collect-fatal}
use shecc.Ir.{Opcode, Ph2Ir}
use shecc.Arm.{encode, mov}
use shecc.Arm.Op
use shecc.Arm.Asm
use shecc.ArmGen.Env.{Env}
use shecc.ArmGen.Soft.{load_word, soft_div}
use shecc.ArmGen.Size.{reserved_at, reserved_call, reserved, update_elf_offset}
use shecc.ArmGen.Emit.{
  emit_address, emit_load, emit_store, emit_call, func_address, emit_compare, emit_op, emit_ph2_ir,
}

-- Each case of the `switch` writes as many words as are reserved, or gives up; a move to its own
-- source is the exception.
reserved-emit_op :
    (env : Env) (size : ℕ) (op : Opcode) (ir : Ph2Ir) {total : ℕ}
    → ¬ ((op ≡ Opcode.assign) × (ir.dest ≡ ir.src0))
    → reserved env op ir ≡ some total
    → (emit_op env size op ir ir.dest ir.src0 ir.src1 ≡ fatal)
      ⊎ (total ≡ 4 * length (emit_op env size op ir ir.dest ir.src0 ir.src1))
unfolding reserved reserved_at reserved_call emit_op emit_address emit_load emit_store emit_call
    func_address emit_compare load_word soft_div
reserved-emit_op env size op ir other h = ground arith

-- For every instruction but a move to its own source, if the ARM `update_elf_offset` lays it out
-- and `emit_ph2_ir` writes its words, `elf_offset` has moved by just their bytes.
pub length-emit_ph2_ir :
    (env : Env) (size elf_offset elf_offset' : ℕ) (ir : Ph2Ir) (words : List ℕ)
    → ¬ ((ir.op ≡ Opcode.assign) × (ir.dest ≡ ir.src0))
    → update_elf_offset env ir elf_offset ≡ some elf_offset'
    → emit_ph2_ir env size ir ≡ some words
    → elf_offset' ≡ add32 elf_offset (4 * length words)
unfolding update_elf_offset emit_ph2_ir
length-emit_ph2_ir env size elf_offset elf_offset' ir words other fits h =
    let (total, found, moved) = bind-some (reserved env ir.op ir) _ fits in
    let moved' : elf_offset' ≡ add32 elf_offset total = cc in
    let sized = length-collect (emit_op env size ir.op ir ir.dest ir.src0 ir.src1) words h in
    elim (reserved-emit_op env size ir.op ir other found) [
      | inl fails ↦ absurd (collect-fatal (rw fails at h))
      | inr fit ↦ rw (moved', sized, fit) refl
    ]

mov_r_word :
    (rd rs : ℕ) → rs < 16 → Asm.mov_r Op.al rd rs ≡ some (encode Op.al (shl32 Op.arm_mov 1) 0 rd rs)
unfolding Asm.mov_r mov
mov_r_word rd rs small = ground (arith, bit_and_mask 8 rs)

-- For a move of a register below 16 to itself, `emit_ph2_ir` writes a word, and
-- `update_elf_offset` leaves `elf_offset` as it is.
pub self_assign-emit_ph2_ir :
    (env : Env) (size elf_offset : ℕ) (ir : Ph2Ir)
    → ir.op ≡ Opcode.assign
    → ir.dest ≡ ir.src0
    → ir.src0 < 16
    → elf_offset < 2 ^ 32
    → (word : ℕ) × (emit_ph2_ir env size ir ≡ some (word ∷ []))
      × (update_elf_offset env ir elf_offset ≡ some elf_offset)
unfolding emit_ph2_ir emit_op collect update_elf_offset reserved
self_assign-emit_ph2_ir env size elf_offset ir move same small word = (
  encode Op.al (shl32 Op.arm_mov 1) 0 ir.dest ir.src0,
  rw (move, mov_r_word ir.dest ir.src0 small) refl,
  ground arith,
)

-- An ARM prologue that is written has the 28 bytes that `cfg_flatten` reserves for it.
pub prologue-emit_ph2_ir :
    (env : Env) (size : ℕ) (ir : Ph2Ir) (words : List ℕ)
    → ir.op ≡ Opcode.define
    → emit_ph2_ir env size ir ≡ some words
    → 4 * length words ≡ 28
unfolding emit_ph2_ir emit_op load_word
prologue-emit_ph2_ir env size ir words prologue h = rw (length-collect _ words h, prologue) refl
