-- ===== src/Program/Placed.antt =====
-- src/riscv-codegen.c and src/arm-codegen.c: the `elf_offset` of a block is the number of bytes that
-- are written before it.
use shecc.Prelude.{
  ℕ, length, length-append, ◌+◌, ◌*◌, ◌≡◌, refl, arith, true, false, some, List, [], ◌∷◌, ◌++◌,
  add32, ◌>>=◌, bind-some, ◌∙◌, ap, sym, map,
}
use mathlib.Core.Path.{subst}
use mathlib.Core.List.{append-nil, append_assoc}
use shecc.Ir.{Ph2Ir}
use shecc.Program.{
  Block, Func, Backend, Flat, define_ir, flatten_insns, flatten_block, flatten_blocks, flatten_func,
  flatten_funcs, emit_all,
}

abbrev pub All {ℓ} : {A : Type ℓ} → (A → Type 0) → List A → Type 0
All P [] = Unit
All P (x ∷ xs) = P x × All P xs

pub All-append {ℓ} :
    {A : Type ℓ} (P : A → Type 0) (xs ys : List A) → All P xs → All P ys → All P (xs ++ ys)
All-append P [] ys hx hy = hy
All-append P (x ∷ xs) ys hx hy = (hx.0, All-append P xs ys hx.1 hy)

pub All-map {ℓ} :
    {A : Type ℓ} (P Q : A → Type 0) (xs : List A) → ((x : A) → P x → Q x) → All P xs → All Q xs
All-map P Q [] f h = tt
All-map P Q (x ∷ xs) f h = (f x h.0, All-map P Q xs f h.1)

pub All-each {ℓ} : {A : Type ℓ} (P : A → Type 0) → ((x : A) → P x) → (xs : List A) → All P xs
All-each P f [] = tt
All-each P f (x ∷ xs) = (f x, All-each P f xs)

-- The laws of a back end: what is reserved is what is written, for the instructions that are fine.
pub record IsConsistent (b : Backend) (IsFine : Ph2Ir → Type 0) : Type 0 where
  pub reserves :
      (size ofs ofs' : ℕ) (ir : Ph2Ir) (words : List ℕ)
      → IsFine ir
      → b.update_elf_offset ir ofs ≡ some ofs'
      → b.emit_ph2_ir size ir ≡ some words
      → ofs' ≡ add32 ofs (4 * length words)
  pub prologue :
      (size : ℕ) (func : Func) (words : List ℕ)
      → b.emit_ph2_ir size (define_ir func) ≡ some words
      → 4 * length words ≡ b.prologue_bytes

pub from_some {ℓ} : {A : Type ℓ} {a c : A} → some a ≡ some c → a ≡ c
from_some q = cc

module _ (b : Backend) where
  -- Writing two lists is writing the one and then the other.
  pub emit_all-append :
      (xs ys : List Ph2Ir) (size : ℕ) {words : List ℕ}
      → emit_all b size (xs ++ ys) ≡ some words
      → (front back : List ℕ) × (emit_all b size xs ≡ some front)
        × (emit_all b (size + 4 * length front) ys ≡ some back)
        × (words ≡ front ++ back)
  unfolding emit_all
  emit_all-append [] ys size h = ([], _, refl, ap (λ n. emit_all b n ys) (omega arith) ∙ h, refl)
  emit_all-append (x ∷ xs) ys size h =
      let (here, one, h') = bind-some (b.emit_ph2_ir size x) _ h in
      let (there, others, out) = bind-some (emit_all b (size + 4 * length here) (xs ++ ys)) _ h' in
      let (front, back, e1, e2, joined) = emit_all-append xs ys (size + 4 * length here) others in
      (
        here ++ front,
        back,
        rw (one, e1) refl,
        ap (λ n. emit_all b n ys) (omega (arith, length-append here front)) ∙ e2,
        sym (from_some out) ∙ ap (here ++◌) joined ∙ sym (append_assoc here front back),
      )

  emit_all-one :
      (ir : Ph2Ir) (size : ℕ) {words : List ℕ}
      → emit_all b size (ir ∷ []) ≡ some words
      → b.emit_ph2_ir size ir ≡ some words
  unfolding emit_all
  emit_all-one ir size h =
      let (here, one, h') = bind-some (b.emit_ph2_ir size ir) _ h in
      one ∙ ap (λ l. some l) (sym (append-nil here)) ∙ h'

-- Blocks with their instructions, and blocks with their offsets: the same blocks in the same order,
-- and the instructions of each have the relation to its offset.
abbrev pub Stand : (List Ph2Ir → ℕ → Type 0) → List (ℕ × List Ph2Ir) → List (ℕ × ℕ) → Type 0
Stand P [] [] = Unit
Stand P [] (o ∷ os) = ⊥
Stand P (k ∷ ks) [] = ⊥
Stand P (k ∷ ks) (o ∷ os) = (k.0 ≡ o.0) × P k.1 o.1 × Stand P ks os

pub Stand-map :
    (P Q : List Ph2Ir → ℕ → Type 0) (ks : List (ℕ × List Ph2Ir)) (os : List (ℕ × ℕ))
    → ((irs : List Ph2Ir) (ofs : ℕ) → P irs ofs → Q irs ofs)
    → Stand P ks os
    → Stand Q ks os
Stand-map P Q [] [] f h = tt
Stand-map P Q [] (o ∷ os) f h = h
Stand-map P Q (k ∷ ks) [] f h = h
Stand-map P Q (k ∷ ks) (o ∷ os) f h = (h.0, f k.1 o.1 h.1, Stand-map P Q ks os f h.2)

Stand-append :
    (P : List Ph2Ir → ℕ → Type 0) (ks : List (ℕ × List Ph2Ir)) (os : List (ℕ × ℕ)) (bb : ℕ)
    (irs : List Ph2Ir) (ofs : ℕ)
    → Stand P ks os
    → P irs ofs
    → Stand P (ks ++ (bb, irs) ∷ []) (os ++ (bb, ofs) ∷ [])
Stand-append P [] [] bb irs ofs h at = (refl, at, tt)
Stand-append P [] (o ∷ os) bb irs ofs h at = absurd h
Stand-append P (k ∷ ks) [] bb irs ofs h at = absurd h
Stand-append P (k ∷ ks) (o ∷ os) bb irs ofs h at =
    (h.0, h.1, Stand-append P ks os bb irs ofs h.2 at)

module _ (b : Backend) where
  -- The instructions of a block as they are laid out, behind others.
  abbrev pub laid : ℕ → List Ph2Ir → Block → ℕ × List Ph2Ir
  laid stack_size front block = (block.bb, front ++ map (b.adjust stack_size) block.insns)

  -- The blocks of a function; the first has the prologue.
  abbrev pub laid_func : Func → List Block → List (ℕ × List Ph2Ir)
  laid_func func [] = []
  laid_func func (k ∷ ks) =
      laid func.stack_size (define_ir func ∷ []) k ∷ map (laid func.stack_size []) ks

  abbrev pub laid_funcs : List Func → List (ℕ × List Ph2Ir)
  laid_funcs [] = []
  laid_funcs (f ∷ fs) = laid_func f f.bbs ++ laid_funcs fs

module _ (b : Backend) (IsFine : Ph2Ir → Type 0) (laws : IsConsistent b IsFine) (base : ℕ) where
  -- The instructions are a part of the list, and the offset is that of the bytes written for what
  -- is before them.
  abbrev pub IsAt : List Ph2Ir → List Ph2Ir → ℕ → Type 0
  IsAt flattened irs ofs =
      (front back : List Ph2Ir) × (words : List ℕ) × (flattened ≡ front ++ irs ++ back)
      × (emit_all b base front ≡ some words)
      × (ofs ≡ add32 base (4 * length words))

  IsAt-append : (l m irs : List Ph2Ir) (ofs : ℕ) → IsAt l irs ofs → IsAt (l ++ m) irs ofs
  IsAt-append l m irs ofs (front, back, words, split, written, at) = (
    front,
    back ++ m,
    words,
    ap (λ k. k ++ m) split ∙ append_assoc (front ++ irs) back m,
    written,
    at,
  )

  -- If the instructions so far are written, `elf_offset` has moved by their bytes.
  abbrev IsMoved : List Ph2Ir → ℕ → Type 0
  IsMoved flattened ofs =
      (words : List ℕ)
      → emit_all b base flattened ≡ some words
      → ofs ≡ add32 base (4 * length words)

  -- And each block met stands where its code begins.
  abbrev Reached : List (ℕ × List Ph2Ir) → Flat → Type 0
  Reached ks s =
      IsMoved s.flattened s.elf_offset
      × ((words : List ℕ)
          → emit_all b base s.flattened ≡ some words
          → Stand (IsAt s.flattened) ks s.bb_offset)

  insn-IsMoved :
      (flattened : List Ph2Ir) (ir : Ph2Ir) (ofs ofs' : ℕ)
      → IsFine ir
      → b.update_elf_offset ir ofs ≡ some ofs'
      → IsMoved flattened ofs
      → IsMoved (flattened ++ ir ∷ []) ofs'
  insn-IsMoved flattened ir ofs ofs' fine moved at words h =
      let (front, back, e1, e2, joined) = emit_all-append b flattened (ir ∷ []) base h in
      let size = base + 4 * length front in
      let far = laws.reserves size ofs ofs' ir back fine moved (emit_all-one b ir size e2) in
      omega (arith, far, at front e1, ap length joined, length-append front back)

  entry-IsMoved :
      (flattened : List Ph2Ir) (func : Func) (ofs : ℕ)
      → IsMoved flattened ofs
      → IsMoved (flattened ++ define_ir func ∷ []) (add32 ofs b.prologue_bytes)
  entry-IsMoved flattened func ofs at words h =
      let (front, back, e1, e2, joined) =
        emit_all-append b flattened (define_ir func ∷ []) base h in
      let size = base + 4 * length front in
      let sized = laws.prologue size func back (emit_all-one b (define_ir func) size e2) in
      omega (arith, sized, at front e1, ap length joined, length-append front back)

  -- Instructions are put behind the others, the offset moves, and no block is met.
  flatten_insns-IsMoved :
      (stack_size : ℕ) (insns : List Ph2Ir) (s s' : Flat)
      → All (λ i. IsFine (b.adjust stack_size i)) insns
      → flatten_insns b stack_size insns s ≡ some s'
      → IsMoved s.flattened s.elf_offset
      → IsMoved s'.flattened s'.elf_offset
        × (s'.flattened ≡ s.flattened ++ map (b.adjust stack_size) insns)
        × (s'.bb_offset ≡ s.bb_offset)
  unfolding flatten_insns
  flatten_insns-IsMoved stack_size [] s s' fine h at =
      subst
        (λ (t : Flat).
          IsMoved t.flattened t.elf_offset
          × (t.flattened ≡ s.flattened ++ [])
          × (t.bb_offset ≡ s.bb_offset))
        (from_some h) (at, sym (append-nil s.flattened), refl)
  flatten_insns-IsMoved stack_size (insn ∷ insns) s s' fine h at =
      let ir = b.adjust stack_size insn in
      let (ofs, moved, h') = bind-some (b.update_elf_offset ir s.elf_offset) _ h in
      let (at', flat, same) =
        flatten_insns-IsMoved stack_size insns _ s' fine.1 h'
          (insn-IsMoved s.flattened ir s.elf_offset ofs fine.0 moved at) in
      (at', flat ∙ append_assoc s.flattened (ir ∷ []) (map (b.adjust stack_size) insns), same)

  -- The instructions of a block that is met stand where it is.
  block-Reached :
      (ks : List (ℕ × List Ph2Ir)) (s s' : Flat) (bb : ℕ) (irs : List Ph2Ir)
      → Reached ks s
      → IsMoved s'.flattened s'.elf_offset
      → s'.flattened ≡ s.flattened ++ irs
      → s'.bb_offset ≡ s.bb_offset ++ (bb, s.elf_offset) ∷ []
      → Reached (ks ++ (bb, irs) ∷ []) s'
  block-Reached ks s s' bb irs (at, placed) moved flat met = (moved, stand)
    where
      stand :
          (words : List ℕ)
          → emit_all b base s'.flattened ≡ some words
          → Stand (IsAt s'.flattened) (ks ++ (bb, irs) ∷ []) s'.bb_offset
      stand words h =
          let (front, back, e1, e2, joined) =
            emit_all-append b s.flattened irs base (ap (emit_all b base) (sym flat) ∙ h) in
          let here : IsAt (s.flattened ++ irs) irs s.elf_offset =
            (s.flattened, [], front, sym (append-nil (s.flattened ++ irs)), e1, at front e1) in
          let others =
            Stand-map (IsAt s.flattened) (IsAt (s.flattened ++ irs)) ks s.bb_offset
              (λ i o p. IsAt-append s.flattened irs i o p) (placed front e1) in
          let all =
            Stand-append (IsAt (s.flattened ++ irs)) ks s.bb_offset bb irs s.elf_offset others
              here in
          subst (λ o. Stand (IsAt s'.flattened) (ks ++ (bb, irs) ∷ []) o) (sym met)
            (subst
              (λ f. Stand (IsAt f) (ks ++ (bb, irs) ∷ []) (s.bb_offset ++ (bb, s.elf_offset) ∷ []))
              (sym flat) all)

  flatten_blocks-Reached :
      (ks : List (ℕ × List Ph2Ir)) (stack_size : ℕ) (blocks : List Block) (s s' : Flat)
      → All (λ k. All (λ i. IsFine (b.adjust stack_size i)) k.insns) blocks
      → flatten_blocks b stack_size blocks s ≡ some s'
      → Reached ks s
      → Reached (ks ++ map (laid b stack_size []) blocks) s'
  unfolding flatten_blocks flatten_block
  flatten_blocks-Reached ks stack_size [] s s' fine h reached =
      subst (λ l. Reached l s') (sym (append-nil ks)) (subst (Reached ks) (from_some h) reached)
  flatten_blocks-Reached ks stack_size (k ∷ blocks) s s' fine h reached =
      let (mid, one, others) = bind-some (flatten_block b stack_size false k s) _ h in
      let (at, flat, same) = flatten_insns-IsMoved stack_size k.insns _ mid fine.0 one reached.0 in
      let entry = laid b stack_size [] k in
      let met = block-Reached ks s mid k.bb entry.1 reached at flat same in
      subst (λ l. Reached l s') (append_assoc ks (entry ∷ []) (map (laid b stack_size []) blocks))
        (flatten_blocks-Reached (ks ++ entry ∷ []) stack_size blocks mid s' fine.1 others met)

  flatten_func-Reached :
      (ks : List (ℕ × List Ph2Ir)) (func : Func) (s s' : Flat)
      → All (λ k. All (λ i. IsFine (b.adjust func.stack_size i)) k.insns) func.bbs
      → flatten_func b func s ≡ some s'
      → Reached ks s
      → Reached (ks ++ laid_func b func func.bbs) s'
  unfolding flatten_func flatten_block
  flatten_func-Reached ks func s s' fine h reached = body func.bbs fine h
    where
      body :
          (bbs : List Block)
          → All (λ k. All (λ i. IsFine (b.adjust func.stack_size i)) k.insns) bbs
          → elim bbs [
            | [] ↦ some s
            | k ∷ blocks ↦
                flatten_block b func.stack_size true k
                  (record s { flattened = s.flattened ++ define_ir func ∷ [] })
                >>= flatten_blocks b func.stack_size blocks
          ]
            ≡ some s'
          → Reached (ks ++ laid_func b func bbs) s'
      body [] fine h =
          subst (λ l. Reached l s') (sym (append-nil ks)) (subst (Reached ks) (from_some h) reached)
      body (k ∷ blocks) fine h =
          let (mid, one, others) =
            bind-some
              (flatten_block b func.stack_size true k
                (record s { flattened = s.flattened ++ define_ir func ∷ [] }))
              _ h in
          let (at, flat, same) =
            flatten_insns-IsMoved func.stack_size k.insns _ mid fine.0 one
              (entry-IsMoved s.flattened func s.elf_offset reached.0) in
          let entry = laid b func.stack_size (define_ir func ∷ []) k in
          let joined =
            append_assoc s.flattened (define_ir func ∷ [])
              (map (b.adjust func.stack_size) k.insns) in
          let met = block-Reached ks s mid k.bb entry.1 reached at (flat ∙ joined) same in
          subst (λ l. Reached l s')
            (append_assoc ks (entry ∷ []) (map (laid b func.stack_size []) blocks))
            (flatten_blocks-Reached (ks ++ entry ∷ []) func.stack_size blocks mid s' fine.1 others
              met)

  -- Every block of the functions stands where its code begins.
  pub flatten_funcs-Reached :
      (ks : List (ℕ × List Ph2Ir)) (funcs : List Func) (s s' : Flat)
      → All (λ f. All (λ k. All (λ i. IsFine (b.adjust f.stack_size i)) k.insns) f.bbs) funcs
      → flatten_funcs b funcs s ≡ some s'
      → Reached ks s
      → Reached (ks ++ laid_funcs b funcs) s'
  unfolding flatten_funcs
  flatten_funcs-Reached ks [] s s' fine h reached =
      subst (λ l. Reached l s') (sym (append-nil ks)) (subst (Reached ks) (from_some h) reached)
  flatten_funcs-Reached ks (f ∷ fs) s s' fine h reached =
      let (mid, one, others) = bind-some (flatten_func b f s) _ h in
      subst (λ l. Reached l s') (append_assoc ks (laid_func b f f.bbs) (laid_funcs b fs))
        (flatten_funcs-Reached (ks ++ laid_func b f f.bbs) fs mid s' fine.1 others
          (flatten_func-Reached ks f s mid fine.0 one reached))
