-- ===== src/Riscv/Decoded/Stores.antt =====
-- src/riscv.c: the words of a store, read back by `Isa.decode`.
use shecc.Prelude.{ℕ, ◌/◌, ◌%◌, ◌<◌, ◌≡◌, refl, arith, Option, some, ◌>>=◌}
use shecc.Riscv.Op.{RvOp, code}
use shecc.Riscv.Isa.{opcode, funct3, rs1, rs2, imm_S, StoreOp, Instr, store_op, from_fields, decode}
use shecc.Riscv.Fields.{HasShape, IsSigned, s_word, encode_S_word}
use shecc.Riscv.{encode_S}
use shecc.Riscv.Asm

abbrev pub store_word : StoreOp → ℕ → ℕ → ℕ → Option ℕ
store_word StoreOp.sb = Asm.sb
store_word StoreOp.sh = Asm.sh
store_word StoreOp.sw = Asm.sw

abbrev pub store_f3 : StoreOp → ℕ
store_f3 StoreOp.sb = 0
store_f3 StoreOp.sh = 1
store_f3 StoreOp.sw = 2

abbrev pub store_code : StoreOp → RvOp
store_code StoreOp.sb = RvOp.rv_sb
store_code StoreOp.sh = RvOp.rv_sh
store_code StoreOp.sw = RvOp.rv_sw

store-HasShape : (o : StoreOp) → HasShape (store_code o) 35 (store_f3 o) 0
unfolding code
store-HasShape StoreOp.sb = omega arith
store-HasShape _ = omega arith

store_op_lem : (o : StoreOp) → store_op (store_f3 o) ≡ some o
unfolding store_op
store_op_lem StoreOp.sb = refl
store_op_lem _ = refl

store_word_lem :
    (o : StoreOp) (s2 s1 v : ℕ) → store_word o s2 s1 v ≡ encode_S (store_code o) s1 s2 v
unfolding Asm.sb Asm.sh Asm.sw
store_word_lem StoreOp.sb s2 s1 v = refl
store_word_lem _ s2 s1 v = refl

decode_store :
    (o : StoreOp) (w : ℕ) {s2 s1 v : ℕ}
    → (opcode w ≡ 35) × (funct3 w ≡ store_f3 o) × (rs2 w ≡ s2) × (rs1 w ≡ s1) × (imm_S w ≡ v)
    → decode w ≡ some (Instr.store o s2 s1 v)
unfolding decode from_fields
decode_store o w (a, b, c, d, e) = rw (a, b, c, d, e, store_op_lem o)

s_word_fields :
    (o f3 s1 s2 v : ℕ)
    → o < 128
    → f3 < 8
    → s1 < 32
    → s2 < 32
    → IsSigned 11 v
    → let w = s_word o f3 s1 s2 (v % 32) (v / 32 % 128) in
      (opcode w ≡ o) × (funct3 w ≡ f3) × (rs2 w ≡ s2) × (rs1 w ≡ s1) × (imm_S w ≡ v)
s_word_fields o f3 s1 s2 v ho h3 h1 h2 hv =
    (omega arith, omega arith, omega arith, omega arith, ground arith)

-- For registers below 32, a store with an offset from -2048 to 2047 is encoded, and its word is
-- decoded as that store.
pub decode-store_word :
    (o : StoreOp) (s2 s1 v : ℕ)
    → s2 < 32
    → s1 < 32
    → IsSigned 11 v
    → (store_word o s2 s1 v >>= decode) ≡ some (Instr.store o s2 s1 v)
decode-store_word o s2 s1 v h2 h1 hv =
    let s = store-HasShape o in
    rw (store_word_lem o s2 s1 v, encode_S_word (store_code o) 0 s1 s2 v (omega arith) h1 h2 s hv)
      (decode_store o _ (s_word_fields 35 (store_f3 o) s1 s2 v (omega arith) s.2 h1 h2 hv))
