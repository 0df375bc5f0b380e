-- ===== src/ArmGen/Emit.antt =====
-- src/arm-codegen.c: `emit_ph2_ir`.
use shecc.Prelude.{
  ℕ, true, false, Option, none, some, List, [], ◌∷◌, ◌++◌, add32, sub32, neg32, is_neg, sar32,
  slt32, bit_and, ◌==◌, if◌then◌else◌, ◌>>=◌,
}
use shecc.Words.{Code, fatal, collect}
use shecc.Ir.{Opcode, Ph2Ir}
use shecc.Arm.{get_cond}
use shecc.Arm.Op
use shecc.Arm.Asm
use shecc.ArmGen.Env.{Env, align_up}
use shecc.ArmGen.Soft.{load_word, soft_div}

unfoldable pub emit_address : ℕ → ℕ → ℕ → Code
unfolding load_word
emit_address interm rd ofs =
    if slt32 255 ofs
    then load_word Op.r8 ofs ++ Asm.add_r Op.al rd interm Op.r8 ∷ []
    else Asm.add_i Op.al rd interm ofs ∷ []

unfoldable pub emit_load : ℕ → ℕ → ℕ → Code
unfolding load_word
emit_load interm rd ofs =
    if slt32 4095 ofs
    then load_word Op.r8 ofs
      ++ Asm.add_r Op.al Op.r8 interm Op.r8 ∷ some (Asm.lw Op.al rd Op.r8 0) ∷ []
    else some (Asm.lw Op.al rd interm ofs) ∷ []

unfoldable pub emit_store : ℕ → ℕ → ℕ → Code
unfolding load_word
emit_store interm rn ofs =
    if slt32 4095 ofs
    then load_word Op.r8 ofs
      ++ Asm.add_r Op.al Op.r8 interm Op.r8 ∷ some (Asm.sw Op.al rn Op.r8 0) ∷ []
    else some (Asm.sw Op.al rn interm ofs) ∷ []

-- A call of a function with a body, or of an external one, which may change r12.
unfoldable pub emit_call : Env → ℕ → Ph2Ir → Code
unfolding load_word
emit_call env size ir = elim (env.find_func ir.func_name) [
  | none ↦ fatal
  | some func ↦ elim func.bbs [
    | some ofs ↦ some (Asm.bl Op.al (sub32 ofs size)) ∷ []
    | none ↦
        if env.dynlink
        then some (
              Asm.bl Op.al
                (sub32 (add32 env.elf_plt_start func.plt_offset) (add32 env.elf_code_start size)))
            ∷ load_word Op.r8 env.elf_data_start
          ++ some (Asm.lw Op.al Op.r12 Op.r8 0) ∷ []
        else fatal
  ]
]

-- The address of a function, in the code or in the linkage table.
unfoldable pub func_address : Env → Ph2Ir → Option ℕ
func_address env ir = env.find_func ir.func_name >>= λ func. elim func.bbs [
  | some ofs ↦ some (add32 env.elf_code_start ofs)
  | none ↦ if env.dynlink then some (add32 env.elf_plt_start func.plt_offset) else none
]

unfoldable pub emit_compare : Opcode → ℕ → ℕ → ℕ → Code
emit_compare op rd rn rm =
    Asm.cmp_r Op.al rn rm ∷ Asm.zero rd ∷ (get_cond op >>= λ cond. Asm.mov_i cond rd 1) ∷ []

-- The body of the `switch`; `size` is `elf_code->size` before the first `emit`.
unfoldable pub emit_op : Env → ℕ → Opcode → Ph2Ir → ℕ → ℕ → ℕ → Code
emit_op env size Opcode.define ir rd rn rm =
    some (Asm.stmdb Op.al 1 Op.sp 0x4FF0) ∷ load_word Op.r8 env.elf_data_start
    ++ some (Asm.lw Op.al Op.r12 Op.r8 0) ∷ load_word Op.r8 (add32 (align_up ir.src0) 4)
    ++ Asm.sub_r Op.al Op.sp Op.sp Op.r8 ∷ []
emit_op env size Opcode.load_constant ir rd rn rm =
    if is_neg ir.src0
    then load_word Op.r8 (neg32 ir.src0) ++ Asm.rsb_i Op.al rd 0 Op.r8 ∷ []
    else if slt32 255 ir.src0
    then load_word rd ir.src0
    else Asm.mov_i Op.al rd ir.src0 ∷ []
emit_op env size Opcode.address_of ir rd rn rm = emit_address Op.sp rd ir.src0
emit_op env size Opcode.global_address_of ir rd rn rm = emit_address Op.r12 rd ir.src0
emit_op env size Opcode.assign ir rd rn rm = Asm.mov_r Op.al rd rn ∷ []
emit_op env size Opcode.load ir rd rn rm = emit_load Op.sp rd ir.src0
emit_op env size Opcode.global_load ir rd rn rm = emit_load Op.r12 rd ir.src0
emit_op env size Opcode.store ir rd rn rm = emit_store Op.sp rn ir.src1
emit_op env size Opcode.global_store ir rd rn rm = emit_store Op.r12 rn ir.src1
emit_op env size Opcode.read ir rd rn rm =
    if ir.src1 == 1
    then some (Asm.lb Op.al rd rn 0) ∷ []
    else if ir.src1 == 2
    then Asm.lh Op.al rd rn 0 ∷ []
    else if ir.src1 == 4
    then some (Asm.lw Op.al rd rn 0) ∷ []
    else fatal
emit_op env size Opcode.write ir rd rn rm =
    if ir.dest == 1
    then some (Asm.sb Op.al rm rn 0) ∷ []
    else if ir.dest == 2
    then Asm.sh Op.al rm rn 0 ∷ []
    else if ir.dest == 4
    then some (Asm.sw Op.al rm rn 0) ∷ []
    else fatal
emit_op env size Opcode.branch ir rd rn rm =
    Asm.teq rn
    ∷ (if ir.is_branch_detached
        then some (Asm.b Op.ne 8)
          ∷ some (Asm.b Op.al (sub32 (env.bb_offset ir.else_bb) (add32 size 8)))
          ∷ []
        else some (Asm.b Op.ne (sub32 (env.bb_offset ir.then_bb) (add32 size 4))) ∷ [])
emit_op env size Opcode.jump ir rd rn rm =
    some (Asm.b Op.al (sub32 (env.bb_offset ir.next_bb) size)) ∷ []
emit_op env size Opcode.call ir rd rn rm = emit_call env size ir
emit_op env size Opcode.load_data_address ir rd rn rm =
    load_word rd (add32 ir.src0 env.elf_data_start)
emit_op env size Opcode.load_rodata_address ir rd rn rm =
    load_word rd (add32 ir.src0 env.elf_rodata_start)
emit_op env size Opcode.address_of_func ir rd rn rm = elim (func_address env ir) [
  | none ↦ fatal
  | some ofs ↦ load_word Op.r8 ofs ++ some (Asm.sw Op.al Op.r8 rn 0) ∷ []
]
emit_op env size Opcode.load_func ir rd rn rm = Asm.mov_r Op.al Op.r8 rn ∷ []
emit_op env size Opcode.indirect ir rd rn rm = some (Asm.blx Op.al Op.r8) ∷ []
emit_op env size Opcode.return ir rd rn rm =
    (if ir.src0 == neg32 1 then Asm.mov_r Op.al Op.r0 Op.r0 else Asm.mov_r Op.al Op.r0 rn)
      ∷ load_word Op.r8 (add32 (align_up ir.src1) 4)
    ++ Asm.add_r Op.al Op.sp Op.sp Op.r8
      ∷ some (Asm.ldm Op.al 1 Op.sp 0x4FF0)
      ∷ some (Asm.bx Op.al Op.lr)
      ∷ []
emit_op env size Opcode.add ir rd rn rm = Asm.add_r Op.al rd rn rm ∷ []
emit_op env size Opcode.sub ir rd rn rm = Asm.sub_r Op.al rd rn rm ∷ []
emit_op env size Opcode.mul ir rd rn rm = some (Asm.mul Op.al rd rn rm) ∷ []
emit_op env size Opcode.div ir rd rn rm =
    if env.hard_mul_div then some (Asm.div Op.al rd rm rn) ∷ [] else soft_div false rd rn rm
emit_op env size Opcode.rem ir rd rn rm =
    if env.hard_mul_div
    then some (Asm.div Op.al Op.r8 rm rn)
      ∷ some (Asm.mul Op.al Op.r8 rm Op.r8)
      ∷ Asm.sub_r Op.al rd rn Op.r8
      ∷ []
    else soft_div true rd rn rm
emit_op env size Opcode.lshift ir rd rn rm = some (Asm.sll Op.al rd rn rm) ∷ []
emit_op env size Opcode.rshift ir rd rn rm = some (Asm.sra Op.al rd rn rm) ∷ []
emit_op env size Opcode.eq ir rd rn rm = emit_compare Opcode.eq rd rn rm
emit_op env size Opcode.neq ir rd rn rm = emit_compare Opcode.neq rd rn rm
emit_op env size Opcode.gt ir rd rn rm = emit_compare Opcode.gt rd rn rm
emit_op env size Opcode.lt ir rd rn rm = emit_compare Opcode.lt rd rn rm
emit_op env size Opcode.geq ir rd rn rm = emit_compare Opcode.geq rd rn rm
emit_op env size Opcode.leq ir rd rn rm = emit_compare Opcode.leq rd rn rm
emit_op env size Opcode.negate ir rd rn rm = Asm.rsb_i Op.al rd 0 rn ∷ []
emit_op env size Opcode.bit_not ir rd rn rm = Asm.mvn_r Op.al rd rn ∷ []
emit_op env size Opcode.bit_and ir rd rn rm = Asm.and_r Op.al rd rn rm ∷ []
emit_op env size Opcode.bit_or ir rd rn rm = Asm.or_r Op.al rd rn rm ∷ []
emit_op env size Opcode.bit_xor ir rd rn rm = Asm.eor_r Op.al rd rn rm ∷ []
emit_op env size Opcode.log_not ir rd rn rm =
    Asm.cmp_i Op.al rn 0 ∷ Asm.mov_i Op.ne rd 0 ∷ Asm.mov_i Op.eq rd 1 ∷ []
emit_op env size Opcode.trunc ir rd rn rm =
    if rm == 1
    then Asm.and_i Op.al rd rn 0xFF ∷ []
    else if rm == 2
    then some (Asm.sll_amt Op.al 0 Op.logic_ls rd rn 16)
      ∷ some (Asm.sll_amt Op.al 0 Op.logic_rs rd rd 16)
      ∷ []
    else if rm == 4
    then Asm.mov_r Op.al rd rn ∷ []
    else fatal
emit_op env size Opcode.sign_ext ir rd rn rm =
    if bit_and (sar32 rm 16) 0xFFFF == 2
    then Asm.sxth Op.al rd rn 0 ∷ []
    else Asm.sxtb Op.al rd rn 0 ∷ []
emit_op env size Opcode.cast ir rd rn rm = Asm.mov_r Op.al rd rn ∷ []
emit_op env size _ ir rd rn rm = fatal

-- The words that an instruction adds to `elf_code`, which holds `size` bytes.
unfoldable pub emit_ph2_ir : Env → ℕ → Ph2Ir → Option (List ℕ)
emit_ph2_ir env size ir = collect (emit_op env size ir.op ir ir.dest ir.src0 ir.src1)
