-- ===== src/Elf/Sections/Symbols.antt =====
-- src/elf.c: the table of symbols.
use shecc.Prelude.{
  ℕ, ◌≡◌, refl, sym, ap, ◌∙◌, arith, List, [], ◌∷◌, ◌++◌, length, length-append, IsWord, ◌==◌,
  if◌then◌else◌,
}
use mathlib.Core.List.{append_assoc, append-nil}
use shecc.Program.Placed.{All, All-append}
use shecc.Elf.{Buf, Elf}
use shecc.Elf.Bytes.{write_int, int_bytes, write_int-int_bytes, write_name}
use shecc.Elf.Header.{ints}
use shecc.Elf.Dynamic.Entries.{NamedAt, NamedAt-append}
use shecc.Elf.Sections.{add_symbol}

-- An entry: its name, where that starts, and the address.
pub record Symbol : Type 0 where
  pub st_name : ℕ
  pub name : Buf
  pub st_value : ℕ

-- The last two bytes are `st_shndx`, 1 for a symbol that is defined.
abbrev pub symbol_bytes : Symbol → Buf
symbol_bytes y = ints (y.st_name ∷ y.st_value ∷ 0 ∷ (if y.st_value == 0 then 0 else 65536) ∷ [])

abbrev pub symbols_bytes : List Symbol → Buf
symbols_bytes [] = []
symbols_bytes (y ∷ ys) = symbol_bytes y ++ symbols_bytes ys

-- The two sections hold these symbols, which are as many as are counted.
abbrev pub HasSymbols : Elf → List Symbol → Type 0
HasSymbols s ys =
    (s.elf_symtab ≡ symbols_bytes ys)
    × (s.elf_symbol_index ≡ length ys)
    × All (λ y. NamedAt s.elf_strtab y.st_name y.name) ys

symbols_bytes-append :
    (ys zs : List Symbol) → symbols_bytes (ys ++ zs) ≡ symbols_bytes ys ++ symbols_bytes zs
symbols_bytes-append [] zs = refl
symbols_bytes-append (y ∷ ys) zs =
    ap (symbol_bytes y ++◌) (symbols_bytes-append ys zs)
    ∙ sym (append_assoc (symbol_bytes y) (symbols_bytes ys) (symbols_bytes zs))

All-NamedAt :
    (buf more : Buf) (ys : List Symbol)
    → All (λ y. NamedAt buf y.st_name y.name) ys
    → All (λ y. NamedAt (buf ++ more) y.st_name y.name) ys
All-NamedAt buf more [] named = tt
All-NamedAt buf more (y ∷ ys) (named, rest) =
    (NamedAt-append buf more y.st_name y.name named, All-NamedAt buf more ys rest)

-- Four numbers, one after the other.
write_ints :
    (buf : Buf) (a b c e : ℕ)
    → IsWord a
    → IsWord b
    → IsWord c
    → IsWord e
    → write_int (write_int (write_int (write_int buf a) b) c) e ≡ buf ++ ints (a ∷ b ∷ c ∷ e ∷ [])
unfolding ints int_bytes
write_ints buf a b c e ha hb hc he =
    rw
      (
        write_int-int_bytes buf a ha,
        write_int-int_bytes (buf ++ int_bytes a) b hb,
        write_int-int_bytes (buf ++ int_bytes a ++ int_bytes b) c hc,
        write_int-int_bytes (buf ++ int_bytes a ++ int_bytes b ++ int_bytes c) e he,
      )
      (simp append_assoc)

shndx-IsWord : (pc : ℕ) → IsWord (if pc == 0 then 0 else 65536)
shndx-IsWord pc = ground arith

-- Where the address and the size of .strtab are words, and .symtab has an entry for each symbol,
-- as many as `elf_symbol_index` counts, each with a name that stands in .strtab, so it is after
-- `elf_add_symbol`, with one more entry for the new symbol.
pub add_symbol-HasSymbols :
    (name : Buf) (pc : ℕ) (s : Elf) (ys : List Symbol)
    → IsWord pc
    → IsWord (length s.elf_strtab)
    → HasSymbols s ys
    → HasSymbols
        (add_symbol name pc s)
        (ys ++ record { st_name = length s.elf_strtab; name = name; st_value = pc } ∷ [])
unfolding add_symbol write_name
add_symbol-HasSymbols name pc s ys word word' (bytes, count, named) =
    let new : Symbol = record { st_name = length s.elf_strtab; name = name; st_value = pc } in
    (
      write_ints s.elf_symtab (length s.elf_strtab) pc 0 (if pc == 0 then 0 else 65536) word' word
            (omega arith) (shndx-IsWord pc)
          ∙ (ap (λ b. b ++ symbol_bytes new) bytes
              ∙ sym (
                  symbols_bytes-append ys (new ∷ [])
                  ∙ ap (symbols_bytes ys ++◌) (append-nil (symbol_bytes new)))),
      omega (arith, count, length-append ys (new ∷ [])),
      All-append (λ y. NamedAt (s.elf_strtab ++ name ++ 0 ∷ []) y.st_name y.name) ys (new ∷ [])
          (All-NamedAt (s.elf_strtab ++ name) (0 ∷ []) ys (All-NamedAt s.elf_strtab name ys named))
          ((s.elf_strtab, [], refl, refl), tt),
    )
