-- ===== src/Program.antt =====
-- src/riscv-codegen.c and src/arm-codegen.c: `cfg_flatten` over blocks and functions, and the loop of
-- `code_generate` over the flattened instructions, for a back end.
pub mod Placed
pub mod Whole
use Prim.Native.String.{String}
use shecc.Prelude.{
  ℕ, length, ◌+◌, ◌*◌, ◌^◌, ◌<◌, ◌≡◌, ◌≢◌, Bool, true, false, Option, some, List, [], ◌∷◌, ◌++◌,
  add32, if◌then◌else◌, ◌>>=◌,
}
use shecc.Ir.{Opcode, Ph2Ir}

-- What `cfg_flatten` reads of a basic block and of a function: `bbs` are the blocks along `rpo_next`.
pub record Block : Type 0 where
  pub bb : ℕ
  pub insns : List Ph2Ir

pub record Func : Type 0 where
  pub func_name : String
  pub stack_size : ℕ
  pub bbs : List Block

-- A back end: what the loop does to an instruction of a function with a stack of a size,
-- `update_elf_offset`, `emit_ph2_ir`, and the bytes of the prologue.
pub record Backend : Type 0 where
  pub adjust : ℕ → Ph2Ir → Ph2Ir
  pub update_elf_offset : Ph2Ir → ℕ → Option ℕ
  pub emit_ph2_ir : ℕ → Ph2Ir → Option (List ℕ)
  pub prologue_bytes : ℕ

-- `elf_offset`, the part of `PH2_IR_FLATTEN` that is filled, and the `elf_offset` of the blocks met.
pub record Flat : Type 0 where
  pub elf_offset : ℕ
  pub flattened : List Ph2Ir
  pub bb_offset : List (ℕ × ℕ)

-- `add_ph2_ir(OP_define)` with the stack size and the name.
unfoldable pub define_ir : Func → Ph2Ir
define_ir func = record {
  op = Opcode.define;
  src0 = func.stack_size;
  src1 = 0;
  dest = 0;
  func_name = func.func_name;
  next_bb = 0;
  then_bb = 0;
  else_bb = 0;
  is_branch_detached = false;
  ofs_based_on_stack_top = false;
}

module _ (b : Backend) where
  -- The loop over the instructions of a block.
  unfoldable pub flatten_insns : ℕ → List Ph2Ir → Flat → Option Flat
  flatten_insns stack_size [] s = some s
  flatten_insns stack_size (insn ∷ insns) s =
      let ir = b.adjust stack_size insn in
      b.update_elf_offset ir s.elf_offset >>= λ ofs.
      flatten_insns stack_size insns
        (record s { elf_offset = ofs; flattened = s.flattened ++ ir ∷ [] })

  -- One block; the first of a function makes room for the prologue.
  unfoldable pub flatten_block : ℕ → Bool → Block → Flat → Option Flat
  unfolding flatten_insns
  flatten_block stack_size first block s = flatten_insns stack_size block.insns (record s {
    elf_offset = if first then add32 s.elf_offset b.prologue_bytes else s.elf_offset;
    bb_offset = s.bb_offset ++ (block.bb, s.elf_offset) ∷ [];
  })

  unfoldable pub flatten_blocks : ℕ → List Block → Flat → Option Flat
  unfolding flatten_block
  flatten_blocks stack_size [] s = some s
  flatten_blocks stack_size (block ∷ blocks) s =
      flatten_block stack_size false block s >>= flatten_blocks stack_size blocks

  -- A declaration without a body is skipped.
  unfoldable pub flatten_func : Func → Flat → Option Flat
  unfolding flatten_block flatten_blocks define_ir
  flatten_func func s = elim func.bbs [
    | [] ↦ some s
    | block ∷ blocks ↦
        flatten_block func.stack_size true block
          (record s { flattened = s.flattened ++ define_ir func ∷ [] })
        >>= flatten_blocks func.stack_size blocks
  ]

  unfoldable pub flatten_funcs : List Func → Flat → Option Flat
  unfolding flatten_func
  flatten_funcs [] s = some s
  flatten_funcs (func ∷ funcs) s = flatten_func func s >>= flatten_funcs funcs

  -- `update_elf_offset` for the instructions of `GLOBAL_FUNC`.
  unfoldable pub update_all : List Ph2Ir → ℕ → Option ℕ
  update_all [] ofs = some ofs
  update_all (ir ∷ irs) ofs = b.update_elf_offset ir ofs >>= update_all irs

  -- The words of instructions one after the other, where `elf_code` holds `size` bytes before. The
  -- size of a buffer does not wrap.
  unfoldable pub emit_all : ℕ → List Ph2Ir → Option (List ℕ)
  emit_all size [] = some []
  emit_all size (ir ∷ irs) = b.emit_ph2_ir size ir >>= λ words.
      emit_all (size + 4 * length words) irs >>= λ rest. some (words ++ rest)
