-- ===== src/Codegen/Start.antt =====
-- src/riscv-codegen.c: `cfg_flatten` and `code_generate`, with the fixed words before `main`.
pub mod Placed
use shecc.Prelude.{
  ℕ, length, ◌+◌, ◌*◌, Bool, Option, none, some, List, [], ◌∷◌, ◌++◌, add32, sub32, ◌>>=◌,
}
use shecc.Ir.{Ph2Ir}
use shecc.Riscv.{hi, lo}
use shecc.Riscv.Asm
use shecc.Riscv.Reg
use shecc.Words.{Code, collect}
use shecc.Program.{Func, Backend, Flat, flatten_funcs, update_all, emit_all}
use shecc.Codegen.Size.{update_elf_offset}
use shecc.Codegen.Emit.{Env, load_word, emit_ph2_ir}
use shecc.Codegen.Flatten.{restore_sp}

-- This back end: the prologue has 16 bytes.
abbrev pub backend : Env → Backend
backend env = record {
  adjust = restore_sp;
  update_elf_offset = update_elf_offset env.hard_mul_div;
  emit_ph2_ir = emit_ph2_ir env;
  prologue_bytes = 16;
}

-- The `elf_offset` of the system call's trampoline and of the code of the global initialisers.
abbrev pub syscall_offset : ℕ
syscall_offset = 24

abbrev pub global_offset : ℕ
global_offset = 60

-- The 24 bytes after the initialisers are for the call of `main`.
unfoldable pub cfg_flatten : Env → List Ph2Ir → List Func → Option Flat
cfg_flatten env globals funcs = update_all (backend env) globals global_offset >>= λ ofs.
    flatten_funcs (backend env) funcs
      (record { elf_offset = add32 ofs 24; flattened = []; bb_offset = [] })

-- The trampoline for `__syscall`.
abbrev pub trampoline : Code
trampoline =
    Asm.addi Reg.a7 Reg.a0 0
    ∷ Asm.addi Reg.a0 Reg.a1 0
    ∷ Asm.addi Reg.a1 Reg.a2 0
    ∷ Asm.addi Reg.a2 Reg.a3 0
    ∷ Asm.addi Reg.a3 Reg.a4 0
    ∷ Asm.addi Reg.a4 Reg.a5 0
    ∷ Asm.addi Reg.a5 Reg.a6 0
    ∷ Asm.ecall
    ∷ Asm.jalr Reg.zero Reg.ra 0
    ∷ []

-- The stack for the globals, and the call of their initialisers.
unfoldable pub setup_code : ℕ → Code
unfolding load_word
setup_code stack_size =
    Asm.addi Reg.s0 Reg.sp 0 ∷ load_word Reg.t0 stack_size
    ++ some (Asm.sub Reg.sp Reg.sp Reg.t0)
      ∷ Asm.addi Reg.gp Reg.sp 0
      ∷ Asm.jal Reg.ra (sub32 global_offset 20)
      ∷ []

unfoldable pub start_code : ℕ → Code
unfolding setup_code
start_code stack_size = setup_code stack_size ++ trampoline

-- `argc` and `argv`, the call of `main`, and the exit; `size` is `elf_code->size` before.
unfoldable pub main_code : Env → Option ℕ → ℕ → Code
main_code env none size = []
main_code env (some main_bb) size =
    Asm.addi Reg.t0 Reg.s0 0
    ∷ Asm.lw Reg.a0 Reg.t0 0
    ∷ Asm.addi Reg.a1 Reg.t0 4
    ∷ Asm.jal Reg.ra (sub32 (env.bb_offset main_bb) (size + 12))
    ∷ Asm.addi Reg.a7 Reg.zero 93
    ∷ Asm.ecall
    ∷ []

-- `elf_code` at the end.
unfoldable pub code_generate : Env → ℕ → List Ph2Ir → Option ℕ → List Ph2Ir → Option (List ℕ)
code_generate env stack_size globals main_bb flattened =
    collect (start_code stack_size) >>= λ start.
    emit_all (backend env) (4 * length start) globals >>= λ global.
    collect (main_code env main_bb (4 * length (start ++ global))) >>= λ main.
    emit_all (backend env) (4 * length ((start ++ global) ++ main)) flattened >>= λ rest.
    some (((start ++ global) ++ main) ++ rest)
