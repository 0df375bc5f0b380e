-- ===== src/Arm/Tests.antt =====
-- Runs of src/arm.c, and the theorems on it at concrete words.
use shecc.Prelude.{ℕ, ◌+◌, ◌*◌, ◌≡◌, ◌^◌, ◌-◌, refl, arith, some}
use shecc.Arm.{encode, mov, rotate_loop, transfer}
use shecc.Arm.Op
use shecc.Arm.Asm
use shecc.Arm.Fields.{rd_field, imm16, movw-movt}

-- `mov r0, r0`, as the assembler writes it.
mov_r_run : Asm.mov_r Op.al Op.r0 Op.r0 ≡ some 0xE1A00000
unfolding Asm.mov_r mov rotate_loop encode
mov_r_run = refl

movw-movt_example :
    (low high : ℕ) × (Asm.movw Op.al 8 0x12345678 ≡ some low)
    × (Asm.movt Op.al 8 0x12345678 ≡ some high)
    × (rd_field low ≡ 8)
    × (rd_field high ≡ 8)
    × (imm16 high * 2 ^ 16 + imm16 low ≡ 0x12345678)
movw-movt_example = movw-movt 8 0x12345678 (omega arith) (omega arith)

abbrev a_load : ℕ
a_load = transfer Op.al 1 4 13 4 (2 ^ 32 - 8)
