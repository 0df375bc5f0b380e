-- ===== src/ArmGen/Start.antt =====
-- src/arm-codegen.c: `cfg_flatten` and `code_generate`, with the fixed words before `main`.
pub mod Placed
use shecc.Prelude.{
  ℕ, length, ◌+◌, ◌*◌, ◌||◌, Bool, true, false, Option, none, some, List, [], ◌∷◌, ◌++◌, add32,
  sub32, if◌then◌else◌, ◌>>=◌,
}
use shecc.Ir.{Opcode, Ph2Ir, is_op}
use shecc.Arm.Op
use shecc.Arm.Asm
use shecc.Words.{Code, collect}
use shecc.Program.{Func, Backend, Flat, flatten_funcs, update_all, emit_all}
use shecc.ArmGen.Env.{Env, align_up}
use shecc.ArmGen.Size.{update_elf_offset}
use shecc.ArmGen.Soft.{load_word}
use shecc.ArmGen.Emit.{emit_ph2_ir}
use shecc.ArmGen.Plt.{plt_fixup_size}

-- A place counted from the top of the stack is counted from its bottom from here on.
unfoldable pub from_bottom : ℕ → Ph2Ir → Ph2Ir
from_bottom stack_top_ofs insn =
    if is_op insn.op Opcode.load || is_op insn.op Opcode.address_of
    then record insn { src0 = add32 insn.src0 stack_top_ofs }
    else if is_op insn.op Opcode.store
    then record insn { src1 = add32 insn.src1 stack_top_ofs }
    else insn

-- What the loop does to an instruction; a return is told how much stack its function has.
unfoldable pub adjust : ℕ → Ph2Ir → Ph2Ir
adjust stack_size insn =
    let moved =
      if insn.ofs_based_on_stack_top
      then from_bottom (add32 (align_up stack_size) 40) insn
      else insn in
    if is_op moved.op Opcode.return then record moved { src1 = stack_size } else moved

-- This back end: the prologue has 28 bytes.
abbrev pub backend : Env → Backend
backend env = record {
  adjust = adjust;
  update_elf_offset = update_elf_offset env;
  emit_ph2_ir = emit_ph2_ir env;
  prologue_bytes = 28;
}

-- The `elf_offset` of the system call's trampoline, where there is one, and of the code of the
-- global initialisers.
abbrev pub syscall_offset : ℕ
syscall_offset = 60

abbrev pub global_offset : Bool → ℕ
global_offset dynlink = if dynlink then 100 else 112

-- The bytes after the initialisers are for the call of `main`.
unfoldable pub cfg_flatten : Env → List Ph2Ir → List Func → Option Flat
cfg_flatten env globals funcs =
    update_all (backend env) globals (global_offset env.dynlink) >>= λ ofs.
    flatten_funcs (backend env) funcs (record {
      elf_offset = add32 ofs (if env.dynlink then 28 else 32);
      flattened = [];
      bb_offset = [];
    })

-- The stack for the globals.
unfoldable pub global_stack : Env → ℕ → ℕ
global_stack env stack_size =
    if env.dynlink then add32 (align_up stack_size) 4 else align_up stack_size

-- The call of `__libc_start_main`, the exit behind it, and the entry of the wrapper of `main`.
unfoldable pub libc_code : Env → Code
unfolding load_word
libc_code env =
    Asm.mov_i Op.al Op.r11 0
      ∷ Asm.mov_i Op.al Op.lr 0
      ∷ some (Asm.pop_word Op.al Op.r1)
      ∷ Asm.mov_r Op.al Op.r2 Op.sp
      ∷ some (Asm.push_reg Op.al Op.r2)
      ∷ some (Asm.push_reg Op.al Op.r0)
      ∷ Asm.mov_i Op.al Op.r12 0
      ∷ some (Asm.push_reg Op.al Op.r12)
      ∷ load_word Op.r0 (add32 env.elf_code_start 60)
    ++ Asm.mov_i Op.al Op.r3 0
      ∷ some (
          Asm.bl Op.al
            (sub32 (add32 env.elf_plt_start plt_fixup_size) (add32 env.elf_code_start 44)))
      ∷ Asm.mov_i Op.al Op.r0 127
      ∷ Asm.mov_i Op.al Op.r7 1
      ∷ some Asm.svc
      ∷ some (Asm.stmdb Op.al 1 Op.sp 0x4FF0)
      ∷ Asm.mov_r Op.al Op.r9 Op.r0
      ∷ Asm.mov_r Op.al Op.r10 Op.r1
      ∷ []

-- The global stack, whose address goes to the first word of the data.
unfoldable pub stack_code : Env → ℕ → Code
unfolding load_word
stack_code env stack_size =
    load_word Op.r8 (global_stack env stack_size)
    ++ Asm.sub_r Op.al Op.sp Op.sp Op.r8
      ∷ Asm.mov_r Op.al Op.r12 Op.sp
      ∷ load_word Op.r8 env.elf_data_start
    ++ some (Asm.sw Op.al Op.r12 Op.r8 0) ∷ []

-- The call of the initialisers and the exit, for static linking.
unfoldable pub exit_code : Env → ℕ → Code
unfolding load_word
exit_code env stack_size =
    some (Asm.bl Op.al (sub32 (global_offset false) 28))
      ∷ some (Asm.b Op.al 56)
      ∷ load_word Op.r8 (global_stack env stack_size)
    ++ Asm.add_r Op.al Op.sp Op.sp Op.r8
      ∷ Asm.mov_r Op.al Op.r0 Op.r0
      ∷ Asm.mov_i Op.al Op.r7 1
      ∷ some Asm.svc
      ∷ []

-- The trampoline for `__syscall`, for static linking.
abbrev pub trampoline : Code
trampoline =
    some (Asm.lw Op.al Op.r4 Op.sp 0)
    ∷ some (Asm.lw Op.al Op.r5 Op.sp 4)
    ∷ some (Asm.lw Op.al Op.r6 Op.sp 8)
    ∷ some (Asm.lw Op.al Op.r7 Op.sp 12)
    ∷ Asm.mov_r Op.al Op.r7 Op.r0
    ∷ Asm.mov_r Op.al Op.r0 Op.r1
    ∷ Asm.mov_r Op.al Op.r1 Op.r2
    ∷ Asm.mov_r Op.al Op.r2 Op.r3
    ∷ Asm.mov_r Op.al Op.r3 Op.r4
    ∷ Asm.mov_r Op.al Op.r4 Op.r5
    ∷ Asm.mov_r Op.al Op.r5 Op.r6
    ∷ some Asm.svc
    ∷ some (Asm.bx Op.al Op.lr)
    ∷ []

unfoldable pub start_code : Env → ℕ → Code
start_code env stack_size =
    if env.dynlink
    then libc_code env ++ stack_code env stack_size
    else stack_code env stack_size ++ exit_code env stack_size ++ trampoline

-- `argc` and `argv`, the call of `main`, and the exit; `size` is `elf_code->size` before.
unfoldable pub main_code : Env → ℕ → Option ℕ → ℕ → Code
unfolding load_word
main_code env stack_size none size = []
main_code env stack_size (some main_bb) size =
    if env.dynlink
    then Asm.mov_r Op.al Op.r0 Op.r9
        ∷ Asm.mov_r Op.al Op.r1 Op.r10
        ∷ some (Asm.bl Op.al (sub32 (env.bb_offset main_bb) (size + 8)))
        ∷ load_word Op.r8 (global_stack env stack_size)
      ++ Asm.add_r Op.al Op.sp Op.sp Op.r8 ∷ some (Asm.ldm Op.al 1 Op.sp 0x8FF0) ∷ []
    else load_word Op.r8 (global_stack env stack_size)
      ++ Asm.add_r Op.al Op.r8 Op.r12 Op.r8
        ∷ some (Asm.lw Op.al Op.r0 Op.r8 0)
        ∷ Asm.add_i Op.al Op.r1 Op.r8 4
        ∷ some (Asm.bl Op.al (sub32 (env.bb_offset main_bb) (size + 20)))
        ∷ Asm.mov_i Op.al Op.r7 1
        ∷ some Asm.svc
        ∷ []

-- `elf_code` at the end.
unfoldable pub code_generate : Env → ℕ → List Ph2Ir → Option ℕ → List Ph2Ir → Option (List ℕ)
code_generate env stack_size globals main_bb flattened =
    collect (start_code env stack_size) >>= λ start.
    emit_all (backend env) (4 * length start) globals >>= λ global.
    collect (main_code env stack_size main_bb (4 * length (start ++ global))) >>= λ main.
    emit_all (backend env) (4 * length ((start ++ global) ++ main)) flattened >>= λ rest.
    some (((start ++ global) ++ main) ++ rest)
