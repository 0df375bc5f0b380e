-- ===== src/Codegen/Layout.antt =====
-- src/riscv-codegen.c: `update_elf_offset` reserves what `emit_ph2_ir` writes.
use shecc.Prelude.{ℕ, length, ◌*◌, ◌≡◌, refl, ◌≢◌, ◌⊎◌, inl, inr, arith, some, List, add32}
use shecc.Ir.{Opcode, Ph2Ir}
use shecc.Words.{fatal, collect, length-collect, collect-fatal}
use shecc.Codegen.Soft.{soft_mul, soft_div}
use shecc.Codegen.Size.{reserved, update_elf_offset}
use shecc.Codegen.Emit.{Env, load_word, emit_address, emit_load, emit_store, emit_op, emit_ph2_ir}

-- Each case of the `switch` writes as many words as are reserved, or gives up.
reserved-emit_op :
    (env : Env) (size : ℕ) (op : Opcode) (ir : Ph2Ir) (rd rs1 rs2 : ℕ)
    → op ≢ Opcode.define
    → (emit_op env size op ir rd rs1 rs2 ≡ fatal)
      ⊎ (reserved env.hard_mul_div op ir ≡ some (4 * length (emit_op env size op ir rd rs1 rs2)))
unfolding reserved emit_op emit_address emit_load emit_store load_word soft_mul soft_div
reserved-emit_op env size op ir rd rs1 rs2 other = ground arith

-- For every instruction but the prologue, if `emit_ph2_ir` writes its words, `update_elf_offset`
-- advances `elf_offset` by just their bytes, so the layout and the code agree.
pub update_elf_offset-emit_ph2_ir :
    (env : Env) (size elf_offset : ℕ) (ir : Ph2Ir) (words : List ℕ)
    → ir.op ≢ Opcode.define
    → emit_ph2_ir env size ir ≡ some words
    → update_elf_offset env.hard_mul_div ir elf_offset ≡ some (add32 elf_offset (4 * length words))
unfolding update_elf_offset emit_ph2_ir collect
update_elf_offset-emit_ph2_ir env size elf_offset ir words other h =
    elim (reserved-emit_op env size ir.op ir (add32 ir.dest 10) (add32 ir.src0 10)
      (add32 ir.src1 10) other) [
        | inl fails ↦ absurd (collect-fatal (rw fails at h))
        | inr fits ↦
            rw
              (
                fits,
                length-collect
                    (emit_op env size ir.op ir (add32 ir.dest 10) (add32 ir.src0 10)
                      (add32 ir.src1 10))
                    words h,
              )
              refl
      ]

-- A prologue that is written has the 16 bytes that `cfg_flatten` reserves for it.
pub define-emit_ph2_ir :
    (env : Env) (size : ℕ) (ir : Ph2Ir) (words : List ℕ)
    → ir.op ≡ Opcode.define
    → emit_ph2_ir env size ir ≡ some words
    → 4 * length words ≡ 16
unfolding emit_ph2_ir emit_op load_word
define-emit_ph2_ir env size ir words prologue h = rw (length-collect _ words h, prologue) refl
