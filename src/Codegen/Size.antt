-- ===== src/Codegen/Size.antt =====
-- src/riscv-codegen.c: `update_elf_offset`, the size in bytes that the layout reserves for an
-- instruction.
use shecc.Prelude.{
  ℕ, Bool, ◌||◌, Option, none, some, add32, neg32, sar32, slt32, bit_and, ◌==◌, if◌then◌else◌,
  ◌>>=◌,
}
use shecc.Ir.{Opcode, Ph2Ir}

-- The offset does not fit the immediate of one instruction.
unfoldable pub is_far : ℕ → Bool
is_far ofs = slt32 ofs (neg32 2048) || slt32 2047 ofs

unfoldable pub source_size : Ph2Ir → ℕ
source_size ir = bit_and (sar32 ir.src1 16) 0xFFFF

-- What the `switch` adds to `elf_offset`; `none` is `fatal`.
unfoldable pub reserved : Bool → Opcode → Ph2Ir → Option ℕ
reserved hard_mul_div Opcode.load_constant ir = some (if is_far ir.src0 then 8 else 4)
reserved hard_mul_div Opcode.address_of ir = some (if is_far ir.src0 then 12 else 4)
reserved hard_mul_div Opcode.global_address_of ir = some (if is_far ir.src0 then 12 else 4)
reserved hard_mul_div Opcode.assign ir = some 4
reserved hard_mul_div Opcode.load ir = some (if is_far ir.src0 then 16 else 4)
reserved hard_mul_div Opcode.global_load ir = some (if is_far ir.src0 then 16 else 4)
reserved hard_mul_div Opcode.store ir = some (if is_far ir.src1 then 16 else 4)
reserved hard_mul_div Opcode.global_store ir = some (if is_far ir.src1 then 16 else 4)
reserved hard_mul_div Opcode.read ir = some 4
reserved hard_mul_div Opcode.write ir = some 4
reserved hard_mul_div Opcode.jump ir = some 4
reserved hard_mul_div Opcode.call ir = some 4
reserved hard_mul_div Opcode.load_func ir = some 4
reserved hard_mul_div Opcode.indirect ir = some 4
reserved hard_mul_div Opcode.add ir = some 4
reserved hard_mul_div Opcode.sub ir = some 4
reserved hard_mul_div Opcode.lshift ir = some 4
reserved hard_mul_div Opcode.rshift ir = some 4
reserved hard_mul_div Opcode.gt ir = some 4
reserved hard_mul_div Opcode.lt ir = some 4
reserved hard_mul_div Opcode.bit_and ir = some 4
reserved hard_mul_div Opcode.bit_or ir = some 4
reserved hard_mul_div Opcode.bit_xor ir = some 4
reserved hard_mul_div Opcode.negate ir = some 4
reserved hard_mul_div Opcode.bit_not ir = some 4
reserved hard_mul_div Opcode.mul ir = some (if hard_mul_div then 4 else 52)
reserved hard_mul_div Opcode.div ir = some (if hard_mul_div then 4 else 108)
reserved hard_mul_div Opcode.rem ir = some (if hard_mul_div then 4 else 108)
reserved hard_mul_div Opcode.load_data_address ir = some 8
reserved hard_mul_div Opcode.load_rodata_address ir = some 8
reserved hard_mul_div Opcode.neq ir = some 8
reserved hard_mul_div Opcode.geq ir = some 8
reserved hard_mul_div Opcode.leq ir = some 8
reserved hard_mul_div Opcode.log_not ir = some 8
reserved hard_mul_div Opcode.address_of_func ir = some 12
reserved hard_mul_div Opcode.eq ir = some 12
reserved hard_mul_div Opcode.branch ir = some 20
reserved hard_mul_div Opcode.return ir = some 24
reserved hard_mul_div Opcode.trunc ir = some (if ir.src1 == 2 then 8 else 4)
reserved hard_mul_div Opcode.sign_ext ir = some (if source_size ir == 2 then 8 else 12)
reserved hard_mul_div Opcode.cast ir = some 4
reserved hard_mul_div _ ir = none

-- `elf_offset` after the instruction.
unfoldable pub update_elf_offset : Bool → Ph2Ir → ℕ → Option ℕ
update_elf_offset hard_mul_div ir elf_offset =
    reserved hard_mul_div ir.op ir >>= λ size. some (add32 elf_offset size)
