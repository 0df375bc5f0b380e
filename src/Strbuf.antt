-- ===== src/Strbuf.antt =====
-- src/globals.c: `strbuf_t`. Memory from `malloc` holds anything: `fresh` says what.
pub mod Laws
mod Tests
use shecc.Prelude.{
  ℕ, zero, suc, ◌+◌, ◌*◌, ◌≤◌, ◌<◌, ◌≡◌, Bool, true, false, Option, none, some, List, [], ◌∷◌, ◌++◌,
  length, ltb, ◌==◌, if◌then◌else◌, ◌>>=◌,
}

pub record Strbuf : Type 0 where
  pub size : ℕ
  pub capacity : ℕ
  pub elements : ℕ → ℕ

-- `strbuf_create`, where `malloc` gives memory.
unfoldable pub strbuf_create : (ℕ → ℕ) → ℕ → Strbuf
strbuf_create fresh init_capacity = record { size = 0; capacity = init_capacity; elements = fresh }

-- `memcpy` of the first `n` elements over new memory.
unfoldable pub copied : (ℕ → ℕ) → ℕ → (ℕ → ℕ) → ℕ → ℕ
copied fresh n old i = if ltb i n then old i else fresh i

-- `strbuf_extend`, where `malloc` gives memory.
unfoldable pub strbuf_extend : (ℕ → ℕ) → ℕ → Strbuf → Strbuf
unfolding copied
strbuf_extend fresh len src =
    let new_size = src.size + len in
    if ltb new_size src.capacity then src else record src {
      capacity = if ltb (src.capacity * 2) new_size then new_size else src.capacity * 2;
      elements = copied fresh src.size src.elements;
    }

-- A write to `elements`; past the capacity it is undefined, and fails.
unfoldable pub write_at : ℕ → ℕ → Strbuf → Option Strbuf
write_at i value src =
    if ltb i src.capacity
    then some (record src { elements = λ j. if j == i then value else src.elements j })
    else none

unfoldable pub strbuf_putc : (ℕ → ℕ) → ℕ → Strbuf → Option Strbuf
unfolding strbuf_extend write_at
strbuf_putc fresh value src = do
  src' ← write_at src.size value (strbuf_extend fresh 1 src)
  some (record src' { size = src.size + 1 })

-- `strncpy` to the place `i`.
unfoldable pub copy_at : ℕ → List ℕ → Strbuf → Option Strbuf
unfolding write_at
copy_at i [] src = some src
copy_at i (c ∷ cs) src = write_at i c src >>= copy_at (i + 1) cs

unfoldable pub strbuf_puts : (ℕ → ℕ) → List ℕ → Strbuf → Option Strbuf
unfolding strbuf_extend copy_at
strbuf_puts fresh value src = do
  src' ← copy_at src.size value (strbuf_extend fresh (length value) src)
  some (record src' { size = src.size + length value })
