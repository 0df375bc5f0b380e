-- ===== src/ArmGen/Plt.antt =====
-- src/arm-codegen.c: `plt_generate`, the procedure linkage table.
use shecc.Prelude.{
  ℕ, zero, suc, length, ◌+◌, ◌-◌, ◌*◌, ◌≤◌, ◌≡◌, arith, some, List, [], ◌∷◌, ◌++◌, add32, ltb,
  if◌then◌else◌, inl, inr, Bool-cases, ap,
}
use shecc.Words.{Code, collect, length-collect}
use shecc.Arm.Op
use shecc.Arm.Asm
use shecc.ArmGen.Soft.{load_word}

-- `PLT_FIXUP_SIZE`, `PLT_ENT_SIZE` and `PTR_SIZE`
abbrev pub plt_fixup_size : ℕ
plt_fixup_size = 20

abbrev pub plt_ent_size : ℕ
plt_ent_size = 12

abbrev ptr_size : ℕ
ptr_size = 4

-- `for (int i = 0; i * PLT_ENT_SIZE < end; i++)` with fuel.
unfoldable pub plt_loop : ℕ → ℕ → ℕ → ℕ → Code
unfolding load_word
plt_loop zero elf_got_start end i = []
plt_loop (suc fuel) elf_got_start end i =
    let rest = plt_loop fuel elf_got_start end (i + 1) in
    if ltb (i * plt_ent_size) end
    then load_word Op.r12 (add32 elf_got_start (ptr_size * (i + 3)))
      ++ some (Asm.lw Op.al Op.pc Op.r12 0) ∷ rest
    else []

-- The table of `plt_size` bytes. Its fuel is `plt_size`: each round covers 12 of them.
unfoldable pub plt_generate : ℕ → ℕ → Code
unfolding load_word plt_loop
plt_generate elf_got_start plt_size =
    some (Asm.push_reg Op.al Op.lr) ∷ load_word Op.r10 (add32 elf_got_start (ptr_size * 2))
    ++ Asm.mov_r Op.al Op.lr Op.r10
      ∷ some (Asm.lw Op.al Op.pc Op.lr 0)
      ∷ plt_loop plt_size elf_got_start (plt_size - plt_fixup_size) 0

length-plt_loop :
    (fuel got entries i : ℕ)
    → i ≤ entries
    → entries ≤ i + fuel
    → length (plt_loop fuel got (plt_ent_size * entries) i) ≡ 3 * (entries - i)
unfolding plt_loop load_word
length-plt_loop zero got entries i low high = omega arith
length-plt_loop (suc fuel) got entries i low high =
    elim (Bool-cases (ltb (i * plt_ent_size) (plt_ent_size * entries))) [
      | inl more ↦
          let rest =
            length-plt_loop fuel got entries (i + 1) (ground (arith, more)) (omega arith) in
          rw more (ground (arith, rest, more))
      | inr done ↦ rw done (ground (arith, done))
    ]

-- The procedure linkage table that is written for 20 bytes and 12 for each of its entries has just
-- that length.
pub length-plt_generate :
    (elf_got_start entries : ℕ) (words : List ℕ)
    → collect (plt_generate elf_got_start (plt_fixup_size + plt_ent_size * entries)) ≡ some words
    → 4 * length words ≡ plt_fixup_size + plt_ent_size * entries
unfolding plt_generate load_word
length-plt_generate got entries words h =
    let loop =
      length-plt_loop (plt_fixup_size + plt_ent_size * entries) got entries 0 (omega arith)
        (omega arith) in
    let total = plt_fixup_size + plt_ent_size * entries in
    let same : total - plt_fixup_size ≡ plt_ent_size * entries = omega arith in
    omega (arith, loop, ap (λ e. length (plt_loop total got e 0)) same, length-collect _ words h)
