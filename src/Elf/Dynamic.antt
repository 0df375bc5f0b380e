-- ===== src/Elf/Dynamic.antt =====
-- src/elf.c: the sections for dynamic linking, by `elf_generate_sections`.
pub mod Entries
pub mod Whole
use Prim.Native.Char.{code}
use Prim.Native.String.{String}
use shecc.Prelude.{
  ℕ, zero, suc, ◌+◌, ◌-◌, ◌*◌, ◌/◌, ◌≡◌, Bool, true, false, not, ◌&&◌, List, [], ◌∷◌, ◌++◌, length,
  bit_or, shl32, ltb, if◌then◌else◌,
}
use shecc.Elf.{Buf, Target, Func, Elf, ptr_size}
use shecc.Elf.Bytes.{write_int, write_name}
use shecc.Elf.Align.{align}
use shecc.Elf.Header.{Sym, Rel, sym_bytes, rel_bytes, dyn_bytes, sizeof_sym, sizeof_rel}

-- The characters of a string literal.
abbrev pub chars : String → Buf
chars String.[] = []
chars (String.◌∷◌ c s) = code c ∷ chars s

-- `func->is_used && !func->bbs`
abbrev pub is_external : Func → Bool
is_external func = func.is_used && not func.has_bbs

-- The variables of the loop over the functions, with the three buffers.
pub record Dyn : Type 0 where
  pub relplt : Buf
  pub dynsym : Buf
  pub dynstr : Buf
  pub r_offset : ℕ
  pub dymsym_idx : ℕ
  pub st_name : ℕ
  pub func_plt_ofs : ℕ
  pub func_got_ofs : ℕ

-- `ELF32_ST_INFO(1, 2)`
abbrev pub st_info : ℕ
st_info = 0x12

-- The relocation, the symbol and the name of a function.
unfoldable pub add_dynamic : Target → ℕ → Buf → Dyn → Dyn
unfolding rel_bytes sym_bytes write_name
add_dynamic t r_offset name d = record d {
  relplt =
      d.relplt
      ++ rel_bytes (record {
        r_offset = r_offset;
        r_info = bit_or (shl32 d.dymsym_idx 8) t.r_arch_jump_slot;
      });
  dynsym = d.dynsym ++ sym_bytes (record { st_name = d.st_name; st_info = st_info });
  dynstr = write_name d.dynstr name;
  r_offset = r_offset;
  dymsym_idx = d.dymsym_idx + 1;
  st_name = d.st_name + (length name + 1);
}

-- What is written before the loop: the first symbol, `LIBC_SO`, and `__libc_start_main`.
unfoldable pub first_dynamic : Target → Elf → Dyn
unfolding sym_bytes write_name add_dynamic
first_dynamic t s =
    add_dynamic t (s.elf_got_start + ptr_size * 3) (chars "__libc_start_main") (record {
      relplt = s.elf_relplt;
      dynsym = s.elf_dynsym ++ sym_bytes (record { st_name = 0; st_info = 0 });
      dynstr = write_name (s.elf_dynstr ++ 0 ∷ []) t.libc_so;
      r_offset = 0;
      dymsym_idx = 1;
      st_name = 1 + (length t.libc_so + 1);
      func_plt_ofs = t.plt_fixup_size + t.plt_ent_size;
      func_got_ofs = ptr_size * 4;
    })

-- An external function gets its entries and its two offsets.
unfoldable pub add_external : Target → Func → Dyn → Dyn
unfolding add_dynamic
add_external t func d = record (add_dynamic t (d.r_offset + ptr_size) func.var_name d) {
  func_plt_ofs = d.func_plt_ofs + t.plt_ent_size;
  func_got_ofs = d.func_got_ofs + ptr_size;
}

-- The loop over the functions, which is left with the functions as they are then.
unfoldable pub dynamic_loop : Target → List Func → Dyn → Dyn × List Func
unfolding add_external
dynamic_loop t [] d = (d, [])
dynamic_loop t (func ∷ funcs) d =
    if is_external func
    then (let (d', done) = dynamic_loop t funcs (add_external t func d) in
        (d', record func { plt_offset = d.func_plt_ofs; got_offset = d.func_got_ofs } ∷ done))
    else (let (d', done) = dynamic_loop t funcs d in (d', func ∷ done))

-- `for (int i = PTR_SIZE * 3; i < got_size; i += PTR_SIZE)` with fuel.
unfoldable pub got_loop : ℕ → ℕ → ℕ → ℕ → Buf → Buf
unfolding write_int
got_loop zero plt_start got_size i got = got
got_loop (suc fuel) plt_start got_size i got =
    let rest = got_loop fuel plt_start got_size (i + ptr_size) (write_int got plt_start) in
    if ltb i got_size then rest else got

-- The table of global offsets; as many rounds as bytes are enough.
unfoldable pub write_got : Elf → ℕ → ℕ → Buf
unfolding write_int got_loop
write_got s dynstr_size dynsym_size =
    got_loop s.got_size s.elf_plt_start s.got_size (ptr_size * 3) (
      write_int
        (write_int (write_int s.elf_got (s.elf_got_start + s.got_size + dynstr_size + dynsym_size))
          0)
        0)

-- The entries of the dynamic section.
unfoldable pub dynamic_entries : Elf → ℕ → Buf
unfolding dyn_bytes
dynamic_entries s dynstr_size =
    dyn_bytes 0x5 (s.elf_got_start + s.got_size)
    ++ dyn_bytes 0xa dynstr_size
    ++ dyn_bytes 0x6 (s.elf_got_start + s.got_size + dynstr_size)
    ++ dyn_bytes 0xb sizeof_sym
    ++ dyn_bytes 0x11 s.elf_relplt_start
    ++ dyn_bytes 0x12 s.relplt_size
    ++ dyn_bytes 0x13 sizeof_rel
    ++ dyn_bytes 0x3 s.elf_got_start
    ++ dyn_bytes 0x2 s.relplt_size
    ++ dyn_bytes 0x14 0x11
    ++ dyn_bytes 0x17 s.elf_relplt_start
    ++ dyn_bytes 0x1 0x1
    ++ dyn_bytes 0 0

-- The part of `elf_generate_sections` for dynamic linking.
unfoldable pub dynamic_sections : Target → Elf → Elf
unfolding align write_name first_dynamic dynamic_loop write_got dynamic_entries
dynamic_sections t s =
    let (d, funcs) = dynamic_loop t s.funcs (first_dynamic t s) in
    let dynstr = align d.dynstr in
    record s {
      funcs = funcs;
      elf_interp = align (write_name s.elf_interp t.dyn_linker);
      elf_relplt = d.relplt;
      elf_dynsym = d.dynsym;
      elf_dynstr = dynstr;
      elf_got = write_got s (length dynstr) (length d.dynsym);
      elf_dynamic = s.elf_dynamic ++ dynamic_entries s (length dynstr);
    }
