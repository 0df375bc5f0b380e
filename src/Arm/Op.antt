-- ===== src/Arm/Op.antt =====
-- src/arm.c: the enumerations of opcodes, conditions, registers and shifts.
use shecc.Prelude.{ℕ}

-- `arm_op_t`
abbrev pub arm_and : ℕ
arm_and = 0

abbrev pub arm_eor : ℕ
arm_eor = 1

abbrev pub arm_sub : ℕ
arm_sub = 2

abbrev pub arm_rsb : ℕ
arm_rsb = 3

abbrev pub arm_add : ℕ
arm_add = 4

abbrev pub arm_ldm : ℕ
arm_ldm = 9

abbrev pub arm_teq : ℕ
arm_teq = 9

abbrev pub arm_cmp : ℕ
arm_cmp = 10

abbrev pub arm_orr : ℕ
arm_orr = 12

abbrev pub arm_mov : ℕ
arm_mov = 13

abbrev pub arm_mvn : ℕ
arm_mvn = 15

abbrev pub arm_stmdb : ℕ
arm_stmdb = 16

-- `arm_cond_t`
abbrev pub eq : ℕ
eq = 0

abbrev pub ne : ℕ
ne = 1

abbrev pub cs : ℕ
cs = 2

abbrev pub cc : ℕ
cc = 3

abbrev pub ls : ℕ
ls = 9

abbrev pub ge : ℕ
ge = 10

abbrev pub lt : ℕ
lt = 11

abbrev pub gt : ℕ
gt = 12

abbrev pub le : ℕ
le = 13

abbrev pub al : ℕ
al = 14

-- `arm_reg`
abbrev pub r0 : ℕ
r0 = 0

abbrev pub r1 : ℕ
r1 = 1

abbrev pub r2 : ℕ
r2 = 2

abbrev pub r3 : ℕ
r3 = 3

abbrev pub r4 : ℕ
r4 = 4

abbrev pub r5 : ℕ
r5 = 5

abbrev pub r6 : ℕ
r6 = 6

abbrev pub r7 : ℕ
r7 = 7

abbrev pub r8 : ℕ
r8 = 8

abbrev pub r9 : ℕ
r9 = 9

abbrev pub r10 : ℕ
r10 = 10

abbrev pub r11 : ℕ
r11 = 11

abbrev pub r12 : ℕ
r12 = 12

abbrev pub sp : ℕ
sp = 13

abbrev pub lr : ℕ
lr = 14

abbrev pub pc : ℕ
pc = 15

-- `shift_type`
abbrev pub logic_ls : ℕ
logic_ls = 0

abbrev pub logic_rs : ℕ
logic_rs = 1

abbrev pub arith_rs : ℕ
arith_rs = 2

abbrev pub rotat_rs : ℕ
rotat_rs = 3
