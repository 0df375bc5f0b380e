-- ===== src/Codegen/Start/Placed.antt =====
-- src/riscv-codegen.c: the layout of a program by `cfg_flatten` against its code by `code_generate`.
use shecc.Prelude.{
  ℕ, length, length-append, ◌*◌, ◌^◌, ◌%◌, ◌≡◌, refl, arith, some, List, [], ◌++◌, add32, bind-some,
  ◌∙◌, sym,
}
use mathlib.Core.Path.{subst}
use mathlib.Core.List.{append-nil, append_assoc}
use shecc.Ir.{Ph2Ir}
use shecc.Words.{collect, length-collect}
use shecc.Program.{Func, Flat, define_ir, update_all, emit_all}
use shecc.Program.Placed.{All-each, IsConsistent, Stand, laid_funcs, from_some}
use shecc.Program.Whole.{
  IsPlaced, IsPart-append, IsWritten, collect-append, AllFine-each, update_all-emit_all,
  flatten_funcs-IsPlaced,
}
use shecc.Codegen.Emit.{Env, load_word}
use shecc.Codegen.Layout.{update_elf_offset-emit_ph2_ir, define-emit_ph2_ir}
use shecc.Codegen.Flatten.{laid_out}
use shecc.Codegen.Start.{
  backend, syscall_offset, global_offset, cfg_flatten, setup_code, trampoline, start_code,
  main_code, code_generate,
}

-- Every instruction is fine.
abbrev Anything : Ph2Ir → Type 0
Anything ir = Unit

backend-IsConsistent : (env : Env) → IsConsistent (backend env) Anything
unfolding define_ir
backend-IsConsistent env = record {
  reserves = λ size ofs ofs' ir words fine moved written. from_some (
      sym moved
      ∙ update_elf_offset-emit_ph2_ir env size ofs ir words (laid_out env.hard_mul_div ir ofs moved)
          written);
  prologue =
      λ size func words written. define-emit_ph2_ir env size (define_ir func) words refl written;
}

-- The trampoline is behind six words.
start_code_parts :
    (stack_size : ℕ) (start : List ℕ)
    → collect (start_code stack_size) ≡ some start
    → (length start ≡ 15) × IsWritten start trampoline syscall_offset
unfolding start_code setup_code load_word
start_code_parts stack_size start h =
    let (front, back, e1, e2, joined) = collect-append (setup_code stack_size) trampoline h in
    let six : length front ≡ 6 = length-collect (setup_code stack_size) front e1 in
    (
      length-collect (start_code stack_size) start h,
      (back, e2, (front, [], joined ∙ sym (append-nil (front ++ back)), omega (arith, six))),
    )

length-main_code :
    (env : Env) (main_bb size : ℕ) (main : List ℕ)
    → collect (main_code env (some main_bb) size) ≡ some main
    → length main ≡ 6
unfolding main_code
length-main_code env main_bb size main h = length-collect _ main h

-- The parts of the code.
code_generate_parts :
    (env : Env) (stack_size main_bb : ℕ) (globals flattened : List Ph2Ir) {code : List ℕ}
    → code_generate env stack_size globals (some main_bb) flattened ≡ some code
    → (start global main rest : List ℕ) × (length start ≡ 15)
      × IsWritten start trampoline syscall_offset
      × (length main ≡ 6)
      × (emit_all (backend env) (4 * length start) globals ≡ some global)
      × (emit_all (backend env) (4 * length ((start ++ global) ++ main)) flattened ≡ some rest)
      × (code ≡ ((start ++ global) ++ main) ++ rest)
unfolding code_generate
code_generate_parts env stack_size main_bb globals flattened e =
    let (start, e1, e') = bind-some (collect (start_code stack_size)) _ e in
    let (global, e2, e'') = bind-some (emit_all (backend env) (4 * length start) globals) _ e' in
    let (main, e3, e''') =
      bind-some (collect (main_code env (some main_bb) (4 * length (start ++ global)))) _ e'' in
    let (rest, e4, out) =
      bind-some (emit_all (backend env) (4 * length ((start ++ global) ++ main)) flattened) _
        e''' in
    (
      start,
      global,
      main,
      rest,
      (start_code_parts stack_size start e1).0,
      (start_code_parts stack_size start e1).1,
      length-main_code env main_bb (4 * length (start ++ global)) main e3,
      e2,
      e4,
      sym (from_some out),
    )

-- If `cfg_flatten` lays a program out and `code_generate` writes it, with a `main`, then what is
-- written for the system call's trampoline and for the global initialisers stands in the code at
-- the offset it has, the blocks that got an `elf_offset` are those of the functions in order, and
-- at the `elf_offset` of each (modulo 2^32) stand the words of its own instructions, the prologue
-- first where it is the first of its function.
pub code_generate-cfg_flatten :
    (env : Env) (stack_size main_bb : ℕ) (globals : List Ph2Ir) (funcs : List Func) (s : Flat)
    (code : List ℕ)
    → cfg_flatten env globals funcs ≡ some s
    → code_generate env stack_size globals (some main_bb) s.flattened ≡ some code
    → IsWritten code trampoline syscall_offset
      × IsPlaced (backend env) code globals global_offset
      × Stand (IsPlaced (backend env) code) (laid_funcs (backend env) funcs) s.bb_offset
unfolding cfg_flatten
code_generate-cfg_flatten env stack_size main_bb globals funcs s code h e =
    let laws = backend-IsConsistent env in
    let (ofs, moved, h') = bind-some (update_all (backend env) globals global_offset) _ h in
    let (start, global, main, rest, n15, tramp, n6, e2, e4, joined) =
      code_generate_parts env stack_size main_bb globals s.flattened e in
    let far =
      update_all-emit_all (backend env) Anything laws globals (4 * length start) global_offset ofs
        global (All-each Anything (λ i. tt) globals) moved e2 in
    let before = (start ++ global) ++ main in
    let start_at : add32 ofs 24 ≡ 4 * length before % 2 ^ 32 =
      omega
        (arith, n15, n6, far, length-append (start ++ global) main, length-append start global) in
    let (words, written, part) = tramp in
    subst
      (λ c.
        IsWritten c trampoline syscall_offset
        × IsPlaced (backend env) c globals global_offset
        × Stand (IsPlaced (backend env) c) (laid_funcs (backend env) funcs) s.bb_offset)
      (sym joined)
      (
        (
          words,
          written,
          IsPart-append before rest words syscall_offset (
              IsPart-append (start ++ global) main words syscall_offset
                (IsPart-append start global words syscall_offset part)),
        ),
        (
          start,
          global,
          main ++ rest,
          append_assoc (start ++ global) main rest,
          e2,
          omega (arith, n15),
        ),
        flatten_funcs-IsPlaced (backend env) Anything laws before funcs (add32 ofs 24) s rest
            (AllFine-each (backend env) Anything (λ i. tt) funcs) start_at h' e4,
      )
