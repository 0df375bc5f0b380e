-- ===== src/ArmGen/Tests.antt =====
-- Runs of src/arm-codegen.c and src/arch-lower.c, and the theorems on them at concrete programs.
use shecc.Prelude.{
  ℕ, length, ◌*◌, ◌≡◌, ◌≢◌, refl, arith, false, none, some, Option, List, [], ◌∷◌, add32,
}
use shecc.Ir.{Opcode, op_id, Ph2Ir, is_op}
use shecc.Words.{collect}
use shecc.Program.{
  Func, Flat, define_ir, flatten_insns, flatten_block, flatten_blocks, flatten_func, flatten_funcs,
  update_all, emit_all,
}
use shecc.Program.Placed.{All, Stand, laid_funcs}
use shecc.Program.Whole.{IsPlaced}
use shecc.Arm.{extract_bits, encode, rotate_loop, mov, transfer}
use shecc.Arm.Asm
use shecc.ArmGen.Env.{Env, align_up}
use shecc.ArmGen.Soft.{load_word}
use shecc.ArmGen.Size.{reserved_at, reserved, update_elf_offset}
use shecc.ArmGen.Emit.{emit_load, emit_op, emit_ph2_ir}
use shecc.ArmGen.Layout.{length-emit_ph2_ir, self_assign-emit_ph2_ir}
use shecc.ArmGen.Lower.{arch_lower, BlocksFallThrough, arch_lower-BlocksFallThrough}
use shecc.ArmGen.Start.{
  backend, from_bottom, adjust, global_offset, cfg_flatten, global_stack, stack_code, exit_code,
  start_code, main_code, code_generate,
}
use shecc.ArmGen.Start.Placed.{HasTrampoline, cfg_flatten-code_generate}

abbrev env : Env
env = record {
  hard_mul_div = false;
  dynlink = false;
  elf_code_start = 0x10054;
  elf_data_start = 0x11000;
  elf_rodata_start = 0x12000;
  elf_plt_start = 0;
  bb_offset = λ bb. 160;
  find_func = λ name. none;
}

abbrev insn : Opcode → ℕ → ℕ → ℕ → Ph2Ir
insn op src0 src1 dest = record {
  op = op;
  src0 = src0;
  src1 = src1;
  dest = dest;
  func_name = "";
  next_bb = 0;
  then_bb = 0;
  else_bb = 2;
  is_branch_detached = false;
  ofs_based_on_stack_top = false;
}

abbrev a_load : Ph2Ir
a_load = insn Opcode.load 4096 0 0

-- What an instruction writes, or nothing.
words_of : Option (List ℕ) → List ℕ
words_of none = []
words_of (some words) = words

length-emit_ph2_ir_example :
    add32 60 16 ≡ add32 60 (4 * length (words_of (emit_ph2_ir env 60 a_load)))
unfolding update_elf_offset reserved reserved_at emit_ph2_ir emit_op emit_load load_word collect
    words_of Asm.movw Asm.movt Asm.add_r Asm.lw mov rotate_loop encode extract_bits transfer
length-emit_ph2_ir_example =
    length-emit_ph2_ir env 60 60 (add32 60 16) a_load (words_of (emit_ph2_ir env 60 a_load))
      (λ e. clash e.0) refl refl
  where
    clash : Opcode.load ≢ Opcode.assign
    clash e = cc

self_assign-emit_ph2_ir_example :
    (word : ℕ) × (emit_ph2_ir env 60 (insn Opcode.assign 3 0 3) ≡ some (word ∷ []))
    × (update_elf_offset env (insn Opcode.assign 3 0 3) 124 ≡ some 124)
self_assign-emit_ph2_ir_example =
    self_assign-emit_ph2_ir env 60 124 (insn Opcode.assign 3 0 3) refl refl (omega arith)
      (omega arith)

-- A function of two blocks, whose branch goes to the second one.
abbrev a_func : Func
a_func = record {
  func_name = "main";
  stack_size = 16;
  bbs =
      record { bb = 1; insns = insn Opcode.load_constant 5 0 0 ∷ insn Opcode.branch 0 0 0 ∷ [] }
      ∷ record { bb = 2; insns = insn Opcode.return 0 0 0 ∷ [] }
      ∷ [];
}

arch_lower-BlocksFallThrough_example : All (λ f. BlocksFallThrough f.bbs) (arch_lower (a_func ∷ []))
arch_lower-BlocksFallThrough_example = arch_lower-BlocksFallThrough (a_func ∷ [])

abbrev globals : List Ph2Ir
globals = insn Opcode.load_constant 7 0 1 ∷ []

-- What `cfg_flatten` leaves of a program, or nothing.
flat_of : Option Flat → Flat
flat_of none = record { elf_offset = 0; flattened = []; bb_offset = [] }
flat_of (some s) = s

abbrev s : Flat
s = flat_of (cfg_flatten env globals (a_func ∷ []))

abbrev code : List ℕ
code = words_of (code_generate env 8 globals (some 1) s.flattened)

cfg_flatten-code_generate_example :
    HasTrampoline env.dynlink code
    × IsPlaced (backend env) code globals (global_offset env.dynlink)
    × Stand (IsPlaced (backend env) code) (laid_funcs (backend env) (a_func ∷ [])) s.bb_offset
unfolding cfg_flatten code_generate flat_of words_of flatten_insns flatten_block flatten_blocks
    flatten_func flatten_funcs define_ir update_all emit_all adjust from_bottom align_up is_op op_id
    update_elf_offset reserved reserved_at emit_ph2_ir emit_op load_word collect global_stack
    stack_code exit_code start_code main_code Asm.movw Asm.movt Asm.mov_i Asm.mov_r Asm.add_i
    Asm.add_r Asm.sub_r Asm.lw Asm.sw Asm.bl Asm.b Asm.bx Asm.svc Asm.ldm Asm.stmdb Asm.teq mov
    rotate_loop encode extract_bits transfer
cfg_flatten-code_generate_example =
    cfg_flatten-code_generate env 8 1 globals (a_func ∷ []) s code ((λ e. constant e.0), tt)
      ((((λ e. constant e.0), ((λ e. branch e.0), tt)), (((λ e. return e.0), tt), tt)), tt) refl
      refl
  where
    constant : Opcode.load_constant ≢ Opcode.assign
    constant e = cc

    branch : Opcode.branch ≢ Opcode.assign
    branch e = cc

    return : Opcode.return ≢ Opcode.assign
    return e = cc
