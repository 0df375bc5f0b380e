-- ===== src/Strbuf/Tests.antt =====
-- Runs of the string buffers of src/globals.c.
use shecc.Prelude.{ℕ, ◌+◌, ◌≡◌, refl, arith, Option, none, some, [], ◌∷◌}
use shecc.Strbuf.{Strbuf, strbuf_create, strbuf_putc, strbuf_puts}
use shecc.Strbuf.Laws.{bytes, IsValid, strbuf_puts-bytes}

-- Four bytes, three of them used; the rest of the memory holds 255.
abbrev three : Strbuf
three = record { size = 3; capacity = 4; elements = λ i. i + 65 }

strbuf_puts-bytes_example :
    (src' : Strbuf) × (strbuf_puts (λ i. 255) (1 ∷ 2 ∷ 3 ∷ 4 ∷ 5 ∷ 6 ∷ []) three ≡ some src')
    × IsValid src'
    × (bytes src' ≡ 65 ∷ 66 ∷ 67 ∷ 1 ∷ 2 ∷ 3 ∷ 4 ∷ 5 ∷ 6 ∷ [])
strbuf_puts-bytes_example =
    strbuf_puts-bytes (λ i. 255) (1 ∷ 2 ∷ 3 ∷ 4 ∷ 5 ∷ 6 ∷ []) three (omega arith)

abbrev size_after : Option Strbuf → ℕ
size_after none = 0
size_after (some b) = b.capacity

doubled : size_after (strbuf_putc (λ i. 255) 7 three) ≡ 8
unfolding strbuf_putc
doubled = refl

from_nothing : size_after (strbuf_putc (λ i. 255) 7 (strbuf_create (λ i. 255) 0)) ≡ 1
unfolding strbuf_putc strbuf_create
from_nothing = refl
