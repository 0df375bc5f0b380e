-- ===== src/Codegen/Emit.antt =====
-- src/riscv-codegen.c: `emit_ph2_ir`. An `emit` is an element of a list; `none` in it is a call of
-- `fatal` or `abort`, or a missing function.
use Prim.Native.String.{String}
use shecc.Prelude.{
  ℕ, Bool, Option, none, some, List, [], ◌∷◌, ◌++◌, add32, sub32, neg32, mul32, bit_and, ◌==◌,
  if◌then◌else◌, ◌>>=◌,
}
use shecc.Ir.{Opcode, Ph2Ir}
use shecc.Riscv.{hi, lo}
use shecc.Riscv.Asm
use shecc.Riscv.Reg
use shecc.Words.{Code, fatal, collect}
use shecc.Codegen.Soft.{soft_mul, soft_div}
use shecc.Codegen.Size.{is_far, source_size}

-- The global state that the function reads: `hard_mul_div`, the starts of the sections, and the
-- `elf_offset` of a block and of the first block of a function.
pub record Env : Type 0 where
  pub hard_mul_div : Bool
  pub elf_code_start : ℕ
  pub elf_data_start : ℕ
  pub elf_rodata_start : ℕ
  pub bb_offset : ℕ → ℕ
  pub func_offset : String → Option ℕ

-- `lui r, hi; addi r, r, lo`
unfoldable pub load_word : ℕ → ℕ → Code
load_word r value = Asm.lui r (hi value) ∷ Asm.addi r r (lo value) ∷ []

unfoldable pub emit_address : ℕ → ℕ → ℕ → Code
unfolding load_word
emit_address interm rd ofs =
    if is_far ofs
    then load_word Reg.t0 ofs ++ some (Asm.add rd interm Reg.t0) ∷ []
    else Asm.addi rd interm ofs ∷ []

unfoldable pub emit_load : ℕ → ℕ → ℕ → Code
unfolding load_word
emit_load interm rd ofs =
    if is_far ofs
    then load_word Reg.t0 ofs ++ some (Asm.add Reg.t0 interm Reg.t0) ∷ Asm.lw rd Reg.t0 0 ∷ []
    else Asm.lw rd interm ofs ∷ []

unfoldable pub emit_store : ℕ → ℕ → ℕ → Code
unfolding load_word
emit_store interm rs1 ofs =
    if is_far ofs
    then load_word Reg.t0 ofs ++ some (Asm.add Reg.t0 interm Reg.t0) ∷ Asm.sw rs1 Reg.t0 0 ∷ []
    else Asm.sw rs1 interm ofs ∷ []

-- `(target_size - source_size) * 8`
unfoldable pub sign_ext_shift : Ph2Ir → ℕ
sign_ext_shift ir = mul32 (sub32 (bit_and ir.src1 0xFFFF) (source_size ir)) 8

-- The body of the `switch`. `rd`, `rs1` and `rs2` are the machine registers, and `size` is
-- `elf_code->size` before the first `emit`.
unfoldable pub emit_op : Env → ℕ → Opcode → Ph2Ir → ℕ → ℕ → ℕ → Code
emit_op env size Opcode.define ir rd rs1 rs2 =
    Asm.sw Reg.ra Reg.sp (neg32 4) ∷ load_word Reg.t0 (add32 ir.src0 4)
    ++ some (Asm.sub Reg.sp Reg.sp Reg.t0) ∷ []
emit_op env size Opcode.load_constant ir rd rs1 rs2 =
    if is_far ir.src0 then load_word rd ir.src0 else Asm.addi rd Reg.zero ir.src0 ∷ []
emit_op env size Opcode.address_of ir rd rs1 rs2 = emit_address Reg.sp rd ir.src0
emit_op env size Opcode.global_address_of ir rd rs1 rs2 = emit_address Reg.gp rd ir.src0
emit_op env size Opcode.assign ir rd rs1 rs2 = Asm.addi rd rs1 0 ∷ []
emit_op env size Opcode.load ir rd rs1 rs2 = emit_load Reg.sp rd ir.src0
emit_op env size Opcode.global_load ir rd rs1 rs2 = emit_load Reg.gp rd ir.src0
emit_op env size Opcode.store ir rd rs1 rs2 = emit_store Reg.sp rs1 ir.src1
emit_op env size Opcode.global_store ir rd rs1 rs2 = emit_store Reg.gp rs1 ir.src1
emit_op env size Opcode.read ir rd rs1 rs2 =
    if ir.src1 == 1
    then Asm.lb rd rs1 0 ∷ []
    else if ir.src1 == 2
    then Asm.lh rd rs1 0 ∷ []
    else if ir.src1 == 4
    then Asm.lw rd rs1 0 ∷ []
    else fatal
emit_op env size Opcode.write ir rd rs1 rs2 =
    if ir.dest == 1
    then Asm.sb rs2 rs1 0 ∷ []
    else if ir.dest == 2
    then Asm.sh rs2 rs1 0 ∷ []
    else if ir.dest == 4
    then Asm.sw rs2 rs1 0 ∷ []
    else fatal
emit_op env size Opcode.branch ir rd rs1 rs2 =
    load_word Reg.t0 (add32 env.elf_code_start (env.bb_offset ir.then_bb))
    ++ Asm.beq rs1 Reg.zero 8
      ∷ Asm.jalr Reg.zero Reg.t0 0
      ∷ Asm.jal Reg.zero (sub32 (env.bb_offset ir.else_bb) (add32 size 16))
      ∷ []
emit_op env size Opcode.jump ir rd rs1 rs2 =
    Asm.jal Reg.zero (sub32 (env.bb_offset ir.next_bb) size) ∷ []
emit_op env size Opcode.call ir rd rs1 rs2 =
    (env.func_offset ir.func_name >>= λ ofs. Asm.jal Reg.ra (sub32 ofs size)) ∷ []
emit_op env size Opcode.load_data_address ir rd rs1 rs2 =
    load_word rd (add32 env.elf_data_start ir.src0)
emit_op env size Opcode.load_rodata_address ir rd rs1 rs2 =
    load_word rd (add32 env.elf_rodata_start ir.src0)
emit_op env size Opcode.address_of_func ir rd rs1 rs2 = elim (env.func_offset ir.func_name) [
  | none ↦ fatal
  | some ofs ↦ load_word Reg.t0 (add32 env.elf_code_start ofs) ++ Asm.sw Reg.t0 rs1 0 ∷ []
]
emit_op env size Opcode.load_func ir rd rs1 rs2 = Asm.addi Reg.t0 rs1 0 ∷ []
emit_op env size Opcode.indirect ir rd rs1 rs2 = Asm.jalr Reg.ra Reg.t0 0 ∷ []
emit_op env size Opcode.return ir rd rs1 rs2 =
    (if ir.src0 == neg32 1 then Asm.addi Reg.zero Reg.zero 0 else Asm.addi Reg.a0 rs1 0)
      ∷ load_word Reg.t0 (add32 ir.src1 4)
    ++ some (Asm.add Reg.sp Reg.sp Reg.t0)
      ∷ Asm.lw Reg.ra Reg.sp (neg32 4)
      ∷ Asm.jalr Reg.zero Reg.ra 0
      ∷ []
emit_op env size Opcode.add ir rd rs1 rs2 = some (Asm.add rd rs1 rs2) ∷ []
emit_op env size Opcode.sub ir rd rs1 rs2 = some (Asm.sub rd rs1 rs2) ∷ []
emit_op env size Opcode.mul ir rd rs1 rs2 =
    if env.hard_mul_div then some (Asm.mul rd rs1 rs2) ∷ [] else soft_mul rd rs1 rs2
emit_op env size Opcode.div ir rd rs1 rs2 =
    if env.hard_mul_div then some (Asm.div rd rs1 rs2) ∷ [] else soft_div Reg.t0 Reg.t1 rd rs1 rs2
emit_op env size Opcode.rem ir rd rs1 rs2 =
    if env.hard_mul_div then some (Asm.rem rd rs1 rs2) ∷ [] else soft_div Reg.t2 Reg.zero rd rs1 rs2
emit_op env size Opcode.lshift ir rd rs1 rs2 = some (Asm.sll rd rs1 rs2) ∷ []
emit_op env size Opcode.rshift ir rd rs1 rs2 = some (Asm.sra rd rs1 rs2) ∷ []
emit_op env size Opcode.eq ir rd rs1 rs2 =
    some (Asm.sub rd rs1 rs2) ∷ some (Asm.sltu rd Reg.zero rd) ∷ Asm.xori rd rd 1 ∷ []
emit_op env size Opcode.neq ir rd rs1 rs2 =
    some (Asm.sub rd rs1 rs2) ∷ some (Asm.sltu rd Reg.zero rd) ∷ []
emit_op env size Opcode.gt ir rd rs1 rs2 = some (Asm.slt rd rs2 rs1) ∷ []
emit_op env size Opcode.geq ir rd rs1 rs2 = some (Asm.slt rd rs1 rs2) ∷ Asm.xori rd rd 1 ∷ []
emit_op env size Opcode.lt ir rd rs1 rs2 = some (Asm.slt rd rs1 rs2) ∷ []
emit_op env size Opcode.leq ir rd rs1 rs2 = some (Asm.slt rd rs2 rs1) ∷ Asm.xori rd rd 1 ∷ []
emit_op env size Opcode.negate ir rd rs1 rs2 = some (Asm.sub rd Reg.zero rs1) ∷ []
emit_op env size Opcode.bit_not ir rd rs1 rs2 = Asm.xori rd rs1 (neg32 1) ∷ []
emit_op env size Opcode.bit_and ir rd rs1 rs2 = some (Asm.and rd rs1 rs2) ∷ []
emit_op env size Opcode.bit_or ir rd rs1 rs2 = some (Asm.or rd rs1 rs2) ∷ []
emit_op env size Opcode.bit_xor ir rd rs1 rs2 = some (Asm.xor rd rs1 rs2) ∷ []
emit_op env size Opcode.log_not ir rd rs1 rs2 =
    some (Asm.sltu rd Reg.zero rs1) ∷ Asm.xori rd rd 1 ∷ []
emit_op env size Opcode.trunc ir rd rs1 rs2 =
    if ir.src1 == 1
    then Asm.andi rd rs1 0xFF ∷ []
    else if ir.src1 == 2
    then Asm.slli rd rs1 16 ∷ Asm.srli rd rd 16 ∷ []
    else if ir.src1 == 4
    then some (Asm.add rd rs1 Reg.zero) ∷ []
    else fatal
emit_op env size Opcode.sign_ext ir rd rs1 rs2 =
    if source_size ir == 2
    then Asm.slli rd rs1 (sign_ext_shift ir) ∷ Asm.srai rd rd (sign_ext_shift ir) ∷ []
    else Asm.andi rd rs1 0xFF
      ∷ Asm.slli rd rd (sign_ext_shift ir)
      ∷ Asm.srai rd rd (sign_ext_shift ir)
      ∷ []
emit_op env size Opcode.cast ir rd rs1 rs2 = Asm.addi rd rs1 0 ∷ []
emit_op env size _ ir rd rs1 rs2 = fatal

-- The words that an instruction adds to `elf_code`, which holds `size` bytes.
unfoldable pub emit_ph2_ir : Env → ℕ → Ph2Ir → Option (List ℕ)
emit_ph2_ir env size ir =
    collect (emit_op env size ir.op ir (add32 ir.dest 10) (add32 ir.src0 10) (add32 ir.src1 10))
