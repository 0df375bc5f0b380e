-- ===== src/Codegen/Constant.antt =====
-- src/riscv-codegen.c: what the words for `OP_load_constant` do when they run.
use shecc.Prelude.{
  ℕ, ◌+◌, ◌*◌, ◌/◌, ◌^◌, ◌<◌, ◌≡◌, ◌≢◌, refl, arith, inl, inr, false, some, List, [], ◌∷◌, IsWord,
  add32, bind-some, Bool-cases,
}
use shecc.Ir.{Opcode, Ph2Ir}
use shecc.Riscv.{hi, lo}
use shecc.Riscv.Asm
use shecc.Riscv.Isa.{IOp, decode}
use shecc.Riscv.Fields.{IsSigned}
use shecc.Riscv.Machine.{write, step, imm_value, run_words}
use shecc.Riscv.Decoded.Immediates.{imm_word, decode-imm_word}
use shecc.Riscv.Decoded.Jumps.{decode-lui}
use shecc.Riscv.Immediate.{lo-IsSigned, hi-add-lo, hi-IsWord}
use shecc.Words.{collect}
use shecc.Codegen.Size.{is_far}
use shecc.Codegen.Emit.{Env, load_word, emit_op, emit_ph2_ir}

-- The words of `load_word` run and put the word in the register.
load_word_runs :
    (d v : ℕ) (regs : ℕ → ℕ)
    → d < 32
    → d ≢ 0
    → IsWord v
    → (words : List ℕ) × (after : ℕ → ℕ) × (collect (load_word d v) ≡ some words)
      × (run_words words regs ≡ some after)
      × (after d ≡ v)
      × ((r : ℕ) → r ≢ d → after r ≡ regs r)
unfolding load_word collect run_words step imm_value
load_word_runs d v regs hd nz hv =
    let (w1, upper, d1) =
      bind-some (Asm.lui d (hi v)) decode (decode-lui d (hi v) hd (hi-IsWord v)) in
    let (w2, lower, d2) =
      bind-some (imm_word IOp.addi d d (lo v)) decode
        (decode-imm_word IOp.addi d d (lo v) hd hd (lo-IsSigned v hv)) in
    (
      w1 ∷ w2 ∷ [],
      write d (add32 (write d (hi v / 2 ^ 12 * 2 ^ 12) regs d) (lo v))
          (write d (hi v / 2 ^ 12 * 2 ^ 12) regs),
      rw (upper, lower) refl,
      rw (d1, d2) refl,
      ground (arith, hi-add-lo v hv),
      λ r ne. ground arith,
    )

near-IsSigned : (v : ℕ) → IsWord v → is_far v ≡ false → IsSigned 11 v
unfolding is_far
near-IsSigned v hv near = ground arith

-- One `addi` from register 0 is enough for a number that fits.
addi_runs :
    (d v : ℕ) (regs : ℕ → ℕ)
    → d < 32
    → d ≢ 0
    → IsWord v
    → IsSigned 11 v
    → regs 0 ≡ 0
    → (words : List ℕ) × (after : ℕ → ℕ) × (collect (Asm.addi d 0 v ∷ []) ≡ some words)
      × (run_words words regs ≡ some after)
      × (after d ≡ v)
      × ((r : ℕ) → r ≢ d → after r ≡ regs r)
unfolding collect run_words step imm_value
addi_runs d v regs hd nz hv fits zero_reg =
    let (w, encoded, decoded) =
      bind-some (imm_word IOp.addi d 0 v) decode
        (decode-imm_word IOp.addi d 0 v hd (omega arith) fits) in
    (
      w ∷ [],
      write d (add32 (regs 0) v) regs,
      rw encoded refl,
      rw decoded refl,
      ground arith,
      λ r ne. ground arith,
    )

-- For an `OP_load_constant` of a word to a register below 22, `emit_ph2_ir` succeeds; run on
-- registers of which register 0 holds 0, its words end with the constant in the machine register
-- 10 above and every other register as it was.
pub load_constant-run_words :
    (env : Env) (size : ℕ) (ir : Ph2Ir) (regs : ℕ → ℕ)
    → ir.op ≡ Opcode.load_constant
    → IsWord ir.src0
    → ir.dest < 22
    → regs 0 ≡ 0
    → (words : List ℕ) × (after : ℕ → ℕ) × (emit_ph2_ir env size ir ≡ some words)
      × (run_words words regs ≡ some after)
      × (after (ir.dest + 10) ≡ ir.src0)
      × ((r : ℕ) → r ≢ ir.dest + 10 → after r ≡ regs r)
unfolding emit_ph2_ir emit_op
load_constant-run_words env size ir regs op word small zero_reg =
    let register : add32 ir.dest 10 ≡ ir.dest + 10 = omega arith in
    rw (op, register)
      (elim (Bool-cases (is_far ir.src0)) [
        | inl far ↦
            rw far (load_word_runs (ir.dest + 10) ir.src0 regs (omega arith) (omega arith) word)
        | inr near ↦ rw near (
            addi_runs (ir.dest + 10) ir.src0 regs (omega arith) (omega arith) word
              (near-IsSigned ir.src0 word near) zero_reg)
      ])
