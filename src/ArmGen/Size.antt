-- ===== src/ArmGen/Size.antt =====
-- src/arm-codegen.c: `update_elf_offset`, the size in bytes that the layout reserves for an
-- instruction.
use shecc.Prelude.{ℕ, not, Option, none, some, add32, slt32, is_neg, ◌==◌, if◌then◌else◌, ◌>>=◌}
use shecc.Ir.{Opcode, Ph2Ir}
use shecc.ArmGen.Env.{Env}

-- A place counted from a base: one size if it is beyond `reach`, another if not; a negative one
-- ends the compiler.
unfoldable pub reserved_at : ℕ → ℕ → ℕ → Option ℕ
reserved_at reach far ofs =
    if slt32 reach ofs then some far else if not (is_neg ofs) then some 4 else none

-- A call of a function with a body, of an external one, or of none.
unfoldable pub reserved_call : Env → Ph2Ir → Option ℕ
reserved_call env ir = env.find_func ir.func_name >>= λ func. elim func.bbs [
  | some ofs ↦ some 4
  | none ↦ if env.dynlink then some 16 else none
]

-- What the `switch` adds to `elf_offset`; `none` is `fatal` or `abort`.
unfoldable pub reserved : Env → Opcode → Ph2Ir → Option ℕ
reserved env Opcode.load_constant ir =
    some (if is_neg ir.src0 then 12 else if slt32 255 ir.src0 then 8 else 4)
reserved env Opcode.address_of ir = reserved_at 255 12 ir.src0
reserved env Opcode.global_address_of ir = reserved_at 255 12 ir.src0
reserved env Opcode.assign ir = some (if ir.dest == ir.src0 then 0 else 4)
reserved env Opcode.load ir = reserved_at 4095 16 ir.src0
reserved env Opcode.global_load ir = reserved_at 4095 16 ir.src0
reserved env Opcode.store ir = reserved_at 4095 16 ir.src1
reserved env Opcode.global_store ir = reserved_at 4095 16 ir.src1
reserved env Opcode.read ir = some 4
reserved env Opcode.write ir = some 4
reserved env Opcode.jump ir = some 4
reserved env Opcode.load_func ir = some 4
reserved env Opcode.indirect ir = some 4
reserved env Opcode.add ir = some 4
reserved env Opcode.sub ir = some 4
reserved env Opcode.mul ir = some 4
reserved env Opcode.lshift ir = some 4
reserved env Opcode.rshift ir = some 4
reserved env Opcode.bit_and ir = some 4
reserved env Opcode.bit_or ir = some 4
reserved env Opcode.bit_xor ir = some 4
reserved env Opcode.negate ir = some 4
reserved env Opcode.bit_not ir = some 4
reserved env Opcode.call ir = reserved_call env ir
reserved env Opcode.div ir = some (if env.hard_mul_div then 4 else 116)
reserved env Opcode.rem ir = some (if env.hard_mul_div then 12 else 116)
reserved env Opcode.load_data_address ir = some 8
reserved env Opcode.load_rodata_address ir = some 8
reserved env Opcode.address_of_func ir = some 12
reserved env Opcode.eq ir = some 12
reserved env Opcode.neq ir = some 12
reserved env Opcode.gt ir = some 12
reserved env Opcode.lt ir = some 12
reserved env Opcode.geq ir = some 12
reserved env Opcode.leq ir = some 12
reserved env Opcode.log_not ir = some 12
reserved env Opcode.branch ir = some (if ir.is_branch_detached then 12 else 8)
reserved env Opcode.return ir = some 24
reserved env Opcode.trunc ir = some (if ir.src1 == 2 then 8 else 4)
reserved env Opcode.sign_ext ir = some 4
reserved env Opcode.cast ir = some 4
reserved env _ ir = none

-- `elf_offset` after the instruction.
unfoldable pub update_elf_offset : Env → Ph2Ir → ℕ → Option ℕ
update_elf_offset env ir elf_offset = reserved env ir.op ir >>= λ size. some (add32 elf_offset size)
