-- ===== src/Strbuf/Laws.antt =====
-- src/globals.c: a `strbuf_t` against the list of its bytes.
use shecc.Prelude.{
  ℕ, zero, suc, ◌+◌, ◌≤◌, ◌<◌, ◌≡◌, refl, sym, ap, ◌∙◌, arith, true, some, List, [], ◌∷◌, ◌++◌,
  length, ltb, ◌==◌, if◌then◌else◌, Bool-cases, inl, inr,
}
use mathlib.Core.List.{append_assoc, append-nil}
use shecc.Strbuf.{Strbuf, strbuf_extend, copied, write_at, strbuf_putc, copy_at, strbuf_puts}

-- The first `n` elements.
abbrev pub first : ℕ → (ℕ → ℕ) → List ℕ
first zero f = []
first (suc n) f = first n f ++ f n ∷ []

-- What the buffer stands for.
abbrev pub bytes : Strbuf → List ℕ
bytes src = first src.size src.elements

abbrev pub IsValid : Strbuf → Type 0
IsValid src = src.size ≤ src.capacity

first_eq : (n : ℕ) (f g : ℕ → ℕ) → ((i : ℕ) → i < n → f i ≡ g i) → first n f ≡ first n g
first_eq zero f g same = refl
first_eq (suc n) f g same =
    rw (first_eq n f g (λ i lo. same i (omega (arith, lo))), same n (omega arith)) refl

-- There is room afterwards, and the elements are kept.
strbuf_extend_lem :
    (fresh : ℕ → ℕ) (len : ℕ) (src : Strbuf)
    → IsValid src
    → (src.size + len ≤ (strbuf_extend fresh len src).capacity)
      × ((i : ℕ) → i < src.size → (strbuf_extend fresh len src).elements i ≡ src.elements i)
unfolding strbuf_extend copied
strbuf_extend_lem fresh len src valid = elim (Bool-cases (ltb (src.size + len) src.capacity)) [
  | inl room ↦ rw room (ground (arith, room), λ i lo. refl)
  | inr full ↦ rw full (ground (arith, full), λ i lo. ground (arith, lo))
]

-- One more character.
written_eq :
    (i c : ℕ) (src : Strbuf)
    → first (i + 1) (λ j. if j == i then c else src.elements j) ≡ first i src.elements ++ c ∷ []
written_eq i c src =
    ap (λ n. first n (λ j. if j == i then c else src.elements j)) (plus_one i)
    ∙ (ap (λ b. b ++ (if i == i then c else src.elements i) ∷ [])
          (first_eq i _ src.elements (λ j lo. ground (arith, lo)))
        ∙ ap (λ x. first i src.elements ++ x ∷ []) (ground arith))
  where
    plus_one : (i : ℕ) → i + 1 ≡ suc i
    plus_one i = omega arith

-- The characters go after the elements that are there.
copy_at_lem :
    (cs : List ℕ) (i : ℕ) (src : Strbuf)
    → i + length cs ≤ src.capacity
    → (src' : Strbuf) × (copy_at i cs src ≡ some src')
      × (src'.capacity ≡ src.capacity)
      × (first (i + length cs) src'.elements ≡ first i src.elements ++ cs)
unfolding copy_at write_at
copy_at_lem [] i src room = (
  src,
  refl,
  refl,
  ap (λ n. first n src.elements) (plus_zero i) ∙ sym (append-nil (first i src.elements)),
)
  where
    plus_zero : (i : ℕ) → i + 0 ≡ i
    plus_zero i = omega arith
copy_at_lem (c ∷ cs) i src room =
    let written : Strbuf = record src { elements = λ j. if j == i then c else src.elements j } in
    let (src', done, same, text) = copy_at_lem cs (i + 1) written (omega (arith, room)) in
    let inside : ltb i src.capacity ≡ true = ground (arith, room) in
    (
      src',
      rw inside done,
      same,
      ap (λ n. first n src'.elements) (plus_suc i (length cs))
          ∙ (text
              ∙ (ap (λ b. b ++ cs) (written_eq i c src)
                  ∙ append_assoc (first i src.elements) (c ∷ []) cs)),
    )
  where
    plus_suc : (i n : ℕ) → i + suc n ≡ i + 1 + n
    plus_suc i n = omega arith

-- On a buffer whose size is not above its capacity, `strbuf_puts` of characters writes inside of
-- its memory, whatever new memory holds, and leaves such a buffer, which holds what it held before
-- and then the characters.
pub strbuf_puts-bytes :
    (fresh : ℕ → ℕ) (value : List ℕ) (src : Strbuf)
    → IsValid src
    → (src' : Strbuf) × (strbuf_puts fresh value src ≡ some src')
      × IsValid src'
      × (bytes src' ≡ bytes src ++ value)
unfolding strbuf_puts
strbuf_puts-bytes fresh value src valid =
    let (room, kept) = strbuf_extend_lem fresh (length value) src valid in
    let (src', done, same, text) =
      copy_at_lem value src.size (strbuf_extend fresh (length value) src) room in
    (
      record src' { size = src.size + length value },
      rw done refl,
      omega (arith, room, same),
      text
          ∙ ap (λ b. b ++ value)
              (first_eq src.size (strbuf_extend fresh (length value) src).elements src.elements
                kept),
    )

strbuf_putc-strbuf_puts :
    (fresh : ℕ → ℕ) (value : ℕ) (src : Strbuf)
    → strbuf_putc fresh value src ≡ strbuf_puts fresh (value ∷ []) src
unfolding strbuf_putc strbuf_puts copy_at write_at
strbuf_putc-strbuf_puts fresh value src =
    elim (Bool-cases (ltb src.size (strbuf_extend fresh 1 src).capacity)) [
      | inl inside ↦ rw inside refl
      | inr outside ↦ rw outside refl
    ]

-- A character goes after what is there.
pub strbuf_putc-bytes :
    (fresh : ℕ → ℕ) (value : ℕ) (src : Strbuf)
    → IsValid src
    → (src' : Strbuf) × (strbuf_putc fresh value src ≡ some src')
      × IsValid src'
      × (bytes src' ≡ bytes src ++ value ∷ [])
strbuf_putc-bytes fresh value src valid =
    let (src', done, valid', text) = strbuf_puts-bytes fresh (value ∷ []) src valid in
    (src', strbuf_putc-strbuf_puts fresh value src ∙ done, valid', text)
