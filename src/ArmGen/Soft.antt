-- ===== src/ArmGen/Soft.antt =====
-- src/arm-codegen.c: the words that stand for a division and a remainder where the hardware has
-- none, and the loads of a 32-bit number.
use shecc.Prelude.{ℕ, Bool, some, [], ◌∷◌, neg32, shl32, bit_or, if◌then◌else◌}
use shecc.Words.{Code}
use shecc.Arm.Op
use shecc.Arm.Asm

-- `movw r, value; movt r, value`
unfoldable pub load_word : ℕ → ℕ → Code
load_word r value = Asm.movw Op.al r value ∷ Asm.movt Op.al r value ∷ []

-- Division, or the remainder if `is_rem`.
unfoldable pub soft_div : Bool → ℕ → ℕ → ℕ → Code
soft_div is_rem rd rn rm =
    some (Asm.stmdb Op.al 1 Op.sp (bit_or (shl32 1 rn) (shl32 1 rm)))
    ∷ some (Asm.srl_amt Op.al 0 Op.arith_rs Op.r8 rn 31)
    ∷ Asm.add_r Op.al rn rn Op.r8
    ∷ Asm.eor_r Op.al rn rn Op.r8
    ∷ some (Asm.srl_amt Op.al 0 Op.arith_rs Op.r9 rm 31)
    ∷ Asm.add_r Op.al rm rm Op.r9
    ∷ Asm.eor_r Op.al rm rm Op.r9
    ∷ (if is_rem then Asm.mov_r Op.al Op.r10 Op.r8 else Asm.eor_r Op.al Op.r10 Op.r8 Op.r9)
    ∷ Asm.zero Op.r8
    ∷ Asm.mov_i Op.al Op.r9 1
    ∷ Asm.cmp_i Op.al rm 0
    ∷ some (Asm.b Op.eq 52)
    ∷ Asm.cmp_i Op.al rn 0
    ∷ some (Asm.b Op.eq 44)
    ∷ Asm.cmp_r Op.al rm rn
    ∷ some (Asm.sll_amt Op.cc 0 Op.logic_ls rm rm 1)
    ∷ some (Asm.sll_amt Op.cc 0 Op.logic_ls Op.r9 Op.r9 1)
    ∷ some (Asm.b Op.cc (neg32 12))
    ∷ Asm.cmp_r Op.al rn rm
    ∷ Asm.sub_r Op.cs rn rn rm
    ∷ Asm.add_r Op.cs Op.r8 Op.r8 Op.r9
    ∷ some (Asm.srl_amt Op.al 1 Op.logic_rs Op.r9 Op.r9 1)
    ∷ some (Asm.srl_amt Op.cc 0 Op.logic_rs rm rm 1)
    ∷ some (Asm.b Op.cc (neg32 20))
    ∷ Asm.mov_r Op.al Op.r9 rn
    ∷ some (Asm.ldm Op.al 1 Op.sp (bit_or (shl32 1 rn) (shl32 1 rm)))
    ∷ Asm.mov_r Op.al rd (if is_rem then Op.r9 else Op.r8)
    ∷ Asm.cmp_i Op.al Op.r10 0
    ∷ Asm.rsb_i Op.ne rd 0 rd
    ∷ []
