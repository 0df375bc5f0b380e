-- ===== src/ArmGen/Env.antt =====
-- src/arm-codegen.c: the globals that the code generator reads.
use Prim.Native.String.{String}
use shecc.Prelude.{ℕ, ◌-◌, ◌^◌, Bool, Option, add32, bit_and}

-- Of a `func_t`: the `elf_offset` of its first block, if it has a body, and `plt_offset`.
pub record Func : Type 0 where
  pub bbs : Option ℕ
  pub plt_offset : ℕ

-- `find_func` gives nothing for an unknown name, which the code does not expect.
pub record Env : Type 0 where
  pub hard_mul_div : Bool
  pub dynlink : Bool
  pub elf_code_start : ℕ
  pub elf_data_start : ℕ
  pub elf_rodata_start : ℕ
  pub elf_plt_start : ℕ
  pub bb_offset : ℕ → ℕ
  pub find_func : String → Option Func

-- `ALIGN_UP(val, MIN_ALIGNMENT)`
unfoldable pub align_up : ℕ → ℕ
align_up val = bit_and (add32 val 7) (2 ^ 32 - 8)
