-- ===== src/ArmGen/Start/Placed.antt =====
-- src/arm-codegen.c: the layout of a program by `cfg_flatten` against its code by `code_generate`.
use shecc.Prelude.{
  ℕ, length, length-append, ◌*◌, ◌^◌, ◌%◌, ◌≡◌, refl, arith, some, Bool, true, false, if◌then◌else◌,
  List, [], ◌++◌, ◌∙◌, add32, bind-some, sym,
}
use mathlib.Core.Path.{subst}
use mathlib.Core.List.{append-nil, append_assoc}
use shecc.Ir.{Opcode, Ph2Ir}
use shecc.Words.{collect, length-collect}
use shecc.Program.{Func, Flat, define_ir, update_all, emit_all}
use shecc.Program.Placed.{All, IsConsistent, Stand, laid_funcs, from_some}
use shecc.Program.Whole.{
  IsPlaced, IsPart-append, IsWritten, collect-append, AllFine, update_all-emit_all,
  flatten_funcs-IsPlaced,
}
use shecc.ArmGen.Env.{Env}
use shecc.ArmGen.Soft.{load_word}
use shecc.ArmGen.Layout.{length-emit_ph2_ir, prologue-emit_ph2_ir}
use shecc.ArmGen.Start.{
  backend, syscall_offset, global_offset, cfg_flatten, start_code, libc_code, stack_code, exit_code,
  trampoline, main_code, code_generate,
}

-- What is not a move to its own source.
abbrev pub Apart : Ph2Ir → Type 0
Apart ir = ¬ ((ir.op ≡ Opcode.assign) × (ir.dest ≡ ir.src0))

backend-IsConsistent : (env : Env) → IsConsistent (backend env) Apart
unfolding define_ir
backend-IsConsistent env = record {
  reserves = λ size ofs ofs' ir words fine moved written.
      length-emit_ph2_ir env size ofs ofs' ir words fine moved written;
  prologue =
      λ size func words written. prologue-emit_ph2_ir env size (define_ir func) words refl written;
}

length-start_code :
    (env : Env) (stack_size : ℕ) (start : List ℕ)
    → collect (start_code env stack_size) ≡ some start
    → 4 * length start ≡ global_offset env.dynlink
unfolding start_code load_word libc_code stack_code exit_code
length-start_code env stack_size start h =
    rw (length-collect (start_code env stack_size) start h) (ground arith)

-- With static linking the trampoline stands at the offset.
abbrev pub HasTrampoline : Bool → List ℕ → Type 0
HasTrampoline true code = Unit
HasTrampoline false code = IsWritten code trampoline syscall_offset

HasTrampoline-append :
    (dynlink : Bool) (l m : List ℕ) → HasTrampoline dynlink l → HasTrampoline dynlink (l ++ m)
HasTrampoline-append true l m h = tt
HasTrampoline-append false l m (words, written, part) =
    (words, written, IsPart-append l m words syscall_offset part)

start_code-HasTrampoline :
    (env : Env) (stack_size : ℕ) (dynlink : Bool) (start : List ℕ)
    → collect (
        if dynlink
        then libc_code env ++ stack_code env stack_size
        else stack_code env stack_size ++ exit_code env stack_size ++ trampoline)
      ≡ some start
    → HasTrampoline dynlink start
unfolding load_word stack_code exit_code
start_code-HasTrampoline env stack_size true start h = tt
start_code-HasTrampoline env stack_size false start h =
    let before = stack_code env stack_size ++ exit_code env stack_size in
    let (front, back, e1, e2, joined) = collect-append before trampoline h in
    let far : length front ≡ 15 = length-collect before front e1 in
    (back, e2, (front, [], joined ∙ sym (append-nil (front ++ back)), omega (arith, far)))

length-main_code :
    (env : Env) (stack_size main_bb size : ℕ) (main : List ℕ)
    → collect (main_code env stack_size (some main_bb) size) ≡ some main
    → 4 * length main ≡ (if env.dynlink then 28 else 32)
unfolding main_code load_word
length-main_code env stack_size main_bb size main h =
    rw (length-collect (main_code env stack_size (some main_bb) size) main h) (ground arith)

-- The parts of the code.
code_generate_parts :
    (env : Env) (stack_size main_bb : ℕ) (globals flattened : List Ph2Ir) {code : List ℕ}
    → code_generate env stack_size globals (some main_bb) flattened ≡ some code
    → (start global main rest : List ℕ) × (4 * length start ≡ global_offset env.dynlink)
      × HasTrampoline env.dynlink start
      × (4 * length main ≡ (if env.dynlink then 28 else 32))
      × (emit_all (backend env) (4 * length start) globals ≡ some global)
      × (emit_all (backend env) (4 * length ((start ++ global) ++ main)) flattened ≡ some rest)
      × (code ≡ ((start ++ global) ++ main) ++ rest)
unfolding code_generate start_code
code_generate_parts env stack_size main_bb globals flattened e =
    let (start, e1, e') = bind-some (collect (start_code env stack_size)) _ e in
    let (global, e2, e'') = bind-some (emit_all (backend env) (4 * length start) globals) _ e' in
    let (main, e3, e''') =
      bind-some (collect (main_code env stack_size (some main_bb) (4 * length (start ++ global)))) _
        e'' in
    let (rest, e4, out) =
      bind-some (emit_all (backend env) (4 * length ((start ++ global) ++ main)) flattened) _
        e''' in
    (
      start,
      global,
      main,
      rest,
      length-start_code env stack_size start e1,
      start_code-HasTrampoline env stack_size env.dynlink start e1,
      length-main_code env stack_size main_bb (4 * length (start ++ global)) main e3,
      e2,
      e4,
      sym (from_some out),
    )

-- Where no instruction is a move to its own source, if the ARM `cfg_flatten` lays a program out
-- and `code_generate` writes it, with a `main`, then what is written for the trampoline (for
-- static linking) and for the global initialisers stands in the code at the offset it has, the
-- blocks that got an `elf_offset` are those of the functions in order, and at the `elf_offset` of
-- each (modulo 2^32) stand the words of its own instructions, the prologue first where it is the
-- first of its function.
pub cfg_flatten-code_generate :
    (env : Env) (stack_size main_bb : ℕ) (globals : List Ph2Ir) (funcs : List Func) (s : Flat)
    (code : List ℕ)
    → All Apart globals
    → AllFine (backend env) Apart funcs
    → cfg_flatten env globals funcs ≡ some s
    → code_generate env stack_size globals (some main_bb) s.flattened ≡ some code
    → HasTrampoline env.dynlink code
      × IsPlaced (backend env) code globals (global_offset env.dynlink)
      × Stand (IsPlaced (backend env) code) (laid_funcs (backend env) funcs) s.bb_offset
unfolding cfg_flatten
cfg_flatten-code_generate env stack_size main_bb globals funcs s code fine fine' h e =
    let laws = backend-IsConsistent env in
    let (ofs, moved, h') =
      bind-some (update_all (backend env) globals (global_offset env.dynlink)) _ h in
    let (start, global, main, rest, n, tramp, n', e2, e4, joined) =
      code_generate_parts env stack_size main_bb globals s.flattened e in
    let far =
      update_all-emit_all (backend env) Apart laws globals (4 * length start)
        (global_offset env.dynlink) ofs global fine moved e2 in
    let before = (start ++ global) ++ main in
    let start_at : add32 ofs (if env.dynlink then 28 else 32) ≡ 4 * length before % 2 ^ 32 =
      omega (arith, n, n', far, length-append (start ++ global) main, length-append start global) in
    subst
      (λ c.
        HasTrampoline env.dynlink c
        × IsPlaced (backend env) c globals (global_offset env.dynlink)
        × Stand (IsPlaced (backend env) c) (laid_funcs (backend env) funcs) s.bb_offset)
      (sym joined)
      (
        HasTrampoline-append env.dynlink before rest (
            HasTrampoline-append env.dynlink (start ++ global) main
              (HasTrampoline-append env.dynlink start global tramp)),
        (
          start,
          global,
          main ++ rest,
          append_assoc (start ++ global) main rest,
          e2,
          ground (arith, n),
        ),
        flatten_funcs-IsPlaced (backend env) Apart laws before funcs
            (add32 ofs (if env.dynlink then 28 else 32)) s rest fine' start_at h' e4,
      )
