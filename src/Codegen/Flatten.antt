-- ===== src/Codegen/Flatten.antt =====
-- src/riscv-codegen.c: the layout of a block's instructions in `cfg_flatten`, and the loop that
-- writes the flattened instructions in `code_generate`.
use shecc.Prelude.{
  ℕ, length, length-append, ◌+◌, ◌*◌, ◌≡◌, ◌≢◌, arith, Bool, Option, none, some, List, [], ◌∷◌,
  ◌++◌, add32, if◌then◌else◌, ◌>>=◌, bind-some, map, ◌%◌, ◌^◌, ◌∙◌, ap, sym,
}
use mathlib.Core.List.{append-nil, append_assoc}
use shecc.Ir.{Opcode, Ph2Ir, is_op}
use shecc.Codegen.Size.{reserved, update_elf_offset}
use shecc.Codegen.Emit.{Env, emit_ph2_ir}
use shecc.Codegen.Layout.{update_elf_offset-emit_ph2_ir}

-- `elf_offset` and the part of `PH2_IR_FLATTEN` that is filled.
pub record Flat : Type 0 where
  pub elf_offset : ℕ
  pub flattened : List Ph2Ir

-- A return is told how much stack its function has.
unfoldable pub restore_sp : ℕ → Ph2Ir → Ph2Ir
restore_sp stack_size insn =
    if is_op insn.op Opcode.return then record insn { src1 = stack_size } else insn

unfoldable pub flatten_insn : Bool → ℕ → Ph2Ir → Flat → Option Flat
flatten_insn hard_mul_div stack_size insn s =
    let ir = restore_sp stack_size insn in
    update_elf_offset hard_mul_div ir s.elf_offset >>= λ ofs.
    some (record { elf_offset = ofs; flattened = s.flattened ++ ir ∷ [] })

-- The loop over the instructions of a block.
unfoldable pub flatten_insns : Bool → ℕ → List Ph2Ir → Flat → Option Flat
flatten_insns hard_mul_div stack_size [] s = some s
flatten_insns hard_mul_div stack_size (insn ∷ insns) s =
    flatten_insn hard_mul_div stack_size insn s >>= flatten_insns hard_mul_div stack_size insns

-- The words of instructions one after the other, where `elf_code` holds `size` bytes before.
unfoldable pub emit_all : Env → ℕ → List Ph2Ir → Option (List ℕ)
emit_all env size [] = some []
emit_all env size (ir ∷ irs) = emit_ph2_ir env size ir >>= λ words.
    emit_all env (add32 size (4 * length words)) irs >>= λ rest. some (words ++ rest)

reserved-define :
    (hard_mul_div : Bool) (op : Opcode) (ir : Ph2Ir) (size : ℕ)
    → reserved hard_mul_div op ir ≡ some size
    → op ≢ Opcode.define
unfolding reserved
reserved-define hard_mul_div op ir size h e = none_some (rw e at h)
  where
    none_some : none ≡ some size → ⊥
    none_some d = cc

-- What is laid out by `update_elf_offset` is not a prologue.
pub laid_out :
    (hard_mul_div : Bool) (ir : Ph2Ir) (ofs : ℕ) {ofs' : ℕ}
    → update_elf_offset hard_mul_div ir ofs ≡ some ofs'
    → ir.op ≢ Opcode.define
unfolding update_elf_offset
laid_out hard_mul_div ir ofs h =
    let (size, reserves, out) = bind-some (reserved hard_mul_div ir.op ir) _ h in
    reserved-define hard_mul_div ir.op ir size reserves

emit_all-cons :
    (env : Env) (size : ℕ) (ir : Ph2Ir) (irs : List Ph2Ir) {words : List ℕ}
    → emit_all env size (ir ∷ irs) ≡ some words
    → (here there : List ℕ) × (emit_ph2_ir env size ir ≡ some here)
      × (emit_all env (add32 size (4 * length here)) irs ≡ some there)
      × (words ≡ here ++ there)
unfolding emit_all
emit_all-cons env size ir irs h =
    let (here, first, h') = bind-some (emit_ph2_ir env size ir) _ h in
    let (there, others, out) = bind-some (emit_all env (add32 size (4 * length here)) irs) _ h' in
    (here, there, first, others, cc)

-- One step moves `elf_offset` as `update_elf_offset` does, and adds one instruction.
flatten_insn_parts :
    (hard_mul_div : Bool) (stack_size : ℕ) (insn : Ph2Ir) (s mid : Flat)
    → flatten_insn hard_mul_div stack_size insn s ≡ some mid
    → (update_elf_offset hard_mul_div (restore_sp stack_size insn) s.elf_offset
        ≡ some mid.elf_offset)
      × (mid.flattened ≡ s.flattened ++ restore_sp stack_size insn ∷ [])
unfolding flatten_insn
flatten_insn_parts hard_mul_div stack_size insn s mid h =
    let (ofs, moved, becomes) =
      bind-some (update_elf_offset hard_mul_div (restore_sp stack_size insn) s.elf_offset) _ h in
    let same : record {
      elf_offset = ofs;
      flattened = s.flattened ++ restore_sp stack_size insn ∷ [];
    }
        ≡ mid =
      cc in
    (moved ∙ ap (λ t. some t.elf_offset) same, sym (ap (λ t. t.flattened) same))

-- Where the instructions of a block are laid out, and the instructions that this adds to
-- `PH2_IR_FLATTEN` are written, `elf_offset` has moved by the bytes that are written (modulo
-- 2^32), and what is added are the instructions of the block in order, the returns with the stack
-- size.
pub flatten_insns-emit_all :
    (env : Env) (stack_size : ℕ) (insns : List Ph2Ir) (s s' : Flat) (size : ℕ) (words : List ℕ)
    → flatten_insns env.hard_mul_div stack_size insns s ≡ some s'
    → emit_all env size (map (restore_sp stack_size) insns) ≡ some words
    → (s'.flattened ≡ s.flattened ++ map (restore_sp stack_size) insns)
      × (s'.elf_offset % 2 ^ 32 ≡ (s.elf_offset + 4 * length words) % 2 ^ 32)
unfolding flatten_insns emit_all
flatten_insns-emit_all env stack_size [] s s' size words h e =
    let same : s ≡ s' = cc in
    let none_written : [] ≡ words = cc in
    (
      ap (λ t. t.flattened) (sym same) ∙ sym (append-nil s.flattened),
      omega (arith, ap (λ (t : Flat). t.elf_offset) same, ap length none_written),
    )
flatten_insns-emit_all env stack_size (insn ∷ insns) s s' size words h e =
    let (mid, one, others) = bind-some (flatten_insn env.hard_mul_div stack_size insn s) _ h in
    let (moved, added) = flatten_insn_parts env.hard_mul_div stack_size insn s mid one in
    let (here, there, first, second, joined) =
      emit_all-cons env size (restore_sp stack_size insn) (map (restore_sp stack_size) insns) e in
    let (flat, far) =
      flatten_insns-emit_all env stack_size insns mid s' (add32 size (4 * length here)) there others
        second in
    let near : mid.elf_offset ≡ add32 s.elf_offset (4 * length here) = from_some (
      sym moved
      ∙ update_elf_offset-emit_ph2_ir env size s.elf_offset (restore_sp stack_size insn) here
          (laid_out env.hard_mul_div (restore_sp stack_size insn) s.elf_offset moved) first) in
    (
      flat
          ∙ ap (λ l. l ++ map (restore_sp stack_size) insns) added
          ∙ append_assoc s.flattened (restore_sp stack_size insn ∷ [])
              (map (restore_sp stack_size) insns),
      omega (arith, far, near, ap length joined, length-append here there),
    )
  where
    from_some : {a b : ℕ} → some a ≡ some b → a ≡ b
    from_some q = cc
