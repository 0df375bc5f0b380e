-- ===== src/Codegen/Tests.antt =====
-- Runs of src/riscv-codegen.c, and the theorems on it at concrete instructions.
use shecc.Prelude.{
  ℕ, length, ◌*◌, ◌≡◌, ◌≢◌, refl, arith, true, false, none, some, Option, List, [], ◌∷◌, map, add32,
}
use shecc.Ir.{Opcode, op_id, Ph2Ir, is_op}
use shecc.Riscv.{
  hi, lo, encode_R, encode_I, encode_S, encode_U, encode_J, encode_B, fold_offset, extract_bits,
}
use shecc.Riscv.Op.{code}
use shecc.Riscv.Asm
use shecc.Words.{collect}
use shecc.Codegen.Size.{is_far, reserved, update_elf_offset}
use shecc.Codegen.Emit.{Env, load_word, emit_load, emit_op, emit_ph2_ir}
use shecc.Codegen.Flatten.{Flat, restore_sp, flatten_insn, flatten_insns, emit_all}
use shecc.Program.{
  Block, Func, define_ir, flatten_block, flatten_blocks, flatten_func, flatten_funcs, update_all,
}
use shecc.Program
use shecc.Program.Placed.{Stand, laid_funcs}
use shecc.Program.Whole.{IsPlaced, IsWritten}
use shecc.Codegen.Start.{
  backend, syscall_offset, global_offset, cfg_flatten, setup_code, trampoline, start_code,
  main_code, code_generate,
}
use shecc.Codegen.Start.Placed.{code_generate-cfg_flatten}
use shecc.Riscv.Machine.{run_words}
use shecc.Codegen.Constant.{load_constant-run_words}
use shecc.Codegen.Layout.{update_elf_offset-emit_ph2_ir}

abbrev env : Env
env = record {
  hard_mul_div = true;
  elf_code_start = 0x10054;
  elf_data_start = 0x11000;
  elf_rodata_start = 0x12000;
  bb_offset = λ bb. 60;
  func_offset = λ name. none;
}

abbrev insn : Opcode → ℕ → ℕ → ℕ → Ph2Ir
insn op src0 src1 dest = record {
  op = op;
  src0 = src0;
  src1 = src1;
  dest = dest;
  func_name = "";
  next_bb = 0;
  then_bb = 0;
  else_bb = 0;
  is_branch_detached = false;
  ofs_based_on_stack_top = false;
}

-- A slot beyond the reach of one load.
abbrev far_words : List ℕ
far_words = 0x000012b7 ∷ 0x00028293 ∷ 0x005102b3 ∷ 0x0002a503 ∷ []

far_load : emit_ph2_ir env 60 (insn Opcode.load 4096 0 0) ≡ some far_words
unfolding emit_ph2_ir emit_op emit_load load_word is_far collect hi lo Asm.lui Asm.addi Asm.add
    Asm.lw encode_U encode_I encode_R fold_offset extract_bits code
far_load = refl

load_ne_define : Opcode.load ≢ Opcode.define
load_ne_define e = cc

update_elf_offset-emit_ph2_ir_example :
    update_elf_offset true (insn Opcode.load 4096 0 0) 60 ≡ some (add32 60 (4 * length far_words))
update_elf_offset-emit_ph2_ir_example =
    update_elf_offset-emit_ph2_ir env 60 60 (insn Opcode.load 4096 0 0) far_words load_ne_define
      far_load

abbrev prologue_words : List ℕ
prologue_words = 0xfe112e23 ∷ 0x000002b7 ∷ 0x02428293 ∷ 0x40510133 ∷ []

prologue : emit_ph2_ir env 60 (insn Opcode.define 32 0 0) ≡ some prologue_words
unfolding emit_ph2_ir emit_op load_word collect hi lo Asm.lui Asm.addi Asm.sub Asm.sw encode_U
    encode_I encode_R encode_S fold_offset extract_bits code
prologue = refl

abbrev before : Flat
before = record { elf_offset = 60; flattened = [] }

abbrev after : Flat
after = record { elf_offset = 76; flattened = insn Opcode.load 4096 0 0 ∷ [] }

block_laid_out : flatten_insns true 32 (insn Opcode.load 4096 0 0 ∷ []) before ≡ some after
unfolding flatten_insns flatten_insn restore_sp update_elf_offset reserved is_far is_op op_id
block_laid_out = refl

block_written :
    emit_all env 60 (map (restore_sp 32) (insn Opcode.load 4096 0 0 ∷ [])) ≡ some far_words
unfolding emit_all restore_sp is_op op_id emit_ph2_ir emit_op emit_load load_word is_far collect hi
    lo Asm.lui Asm.addi Asm.add Asm.lw encode_U encode_I encode_R fold_offset extract_bits code
block_written = refl

load_constant-run_words_example :
    (words : List ℕ) × (after : ℕ → ℕ) × (emit_ph2_ir env 60
        (insn Opcode.load_constant 0x12345fff 0 3)
      ≡ some words)
    × (run_words words (λ r. 0) ≡ some after)
    × (after 13 ≡ 0x12345fff)
    × ((r : ℕ) → r ≢ 13 → after r ≡ 0)
load_constant-run_words_example =
    load_constant-run_words env 60 (insn Opcode.load_constant 0x12345fff 0 3) (λ r. 0) refl
      (omega arith) (omega arith) refl

-- A function of two blocks.
abbrev a_func : Func
a_func = record {
  func_name = "main";
  stack_size = 16;
  bbs =
      record { bb = 1; insns = insn Opcode.load_constant 5 0 0 ∷ insn Opcode.branch 0 0 0 ∷ [] }
      ∷ record { bb = 2; insns = insn Opcode.return 0 0 0 ∷ [] }
      ∷ [];
}

abbrev globals : List Ph2Ir
globals = insn Opcode.load_constant 7 0 1 ∷ []

-- What `cfg_flatten` leaves of a program, or nothing.
flat_of : Option Program.Flat → Program.Flat
flat_of none = record { elf_offset = 0; flattened = []; bb_offset = [] }
flat_of (some s) = s

words_of : Option (List ℕ) → List ℕ
words_of none = []
words_of (some words) = words

abbrev s : Program.Flat
s = flat_of (cfg_flatten env globals (a_func ∷ []))

abbrev code_words : List ℕ
code_words = words_of (code_generate env 8 globals (some 1) s.flattened)

code_generate-cfg_flatten_example :
    IsWritten code_words trampoline syscall_offset
    × IsPlaced (backend env) code_words globals global_offset
    × Stand (IsPlaced (backend env) code_words) (laid_funcs (backend env) (a_func ∷ [])) s.bb_offset
unfolding cfg_flatten code_generate flat_of words_of Program.flatten_insns flatten_block
    flatten_blocks flatten_func flatten_funcs define_ir update_all Program.emit_all restore_sp is_op
    op_id update_elf_offset reserved is_far emit_ph2_ir emit_op load_word collect setup_code
    start_code main_code hi lo Asm.lui Asm.addi Asm.add Asm.sub Asm.lw Asm.sw Asm.jal Asm.jalr
    Asm.bne Asm.beq Asm.ecall encode_U encode_I encode_R encode_J encode_S encode_B fold_offset
    extract_bits code
code_generate-cfg_flatten_example =
    code_generate-cfg_flatten env 8 1 globals (a_func ∷ []) s code_words refl refl
