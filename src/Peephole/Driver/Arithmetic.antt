-- ===== src/Peephole/Driver/Arithmetic.antt =====
-- src/peephole.c: the sizes of what the arithmetic and bitwise patterns give.
use shecc.Prelude.{arith}
use shecc.Ir.{Ph2Ir}
use shecc.Peephole.Fusion
use shecc.Peephole.Strength
use shecc.Peephole.Bitwise
use shecc.Peephole.Driver.Small.{IsSmall, IsSmall-orelse, Shrinks, at_pair-Shrinks}

fusion_fuse_assign-IsSmall : (cur next : Ph2Ir) → IsSmall (Fusion.fuse_assign cur next)
unfolding Fusion.fuse_assign
fusion_fuse_assign-IsSmall cur next = record { bounds = λ w h. ground arith }

fusion_add_zero-IsSmall : (cur next : Ph2Ir) → IsSmall (Fusion.add_zero cur next)
unfolding Fusion.add_zero
fusion_add_zero-IsSmall cur next = record { bounds = λ w h. ground arith }

fusion_sub_zero-IsSmall : (cur next : Ph2Ir) → IsSmall (Fusion.sub_zero cur next)
unfolding Fusion.sub_zero
fusion_sub_zero-IsSmall cur next = record { bounds = λ w h. ground arith }

fusion_zero_sub-IsSmall : (cur next : Ph2Ir) → IsSmall (Fusion.zero_sub cur next)
unfolding Fusion.zero_sub
fusion_zero_sub-IsSmall cur next = record { bounds = λ w h. ground arith }

fusion_mul_zero-IsSmall : (cur next : Ph2Ir) → IsSmall (Fusion.mul_zero cur next)
unfolding Fusion.mul_zero
fusion_mul_zero-IsSmall cur next = record { bounds = λ w h. ground arith }

fusion_mul_one-IsSmall : (cur next : Ph2Ir) → IsSmall (Fusion.mul_one cur next)
unfolding Fusion.mul_one
fusion_mul_one-IsSmall cur next = record { bounds = λ w h. ground arith }

fusion_and_ones-IsSmall : (cur next : Ph2Ir) → IsSmall (Fusion.and_ones cur next)
unfolding Fusion.and_ones
fusion_and_ones-IsSmall cur next = record { bounds = λ w h. ground arith }

fusion_shift_zero-IsSmall : (cur next : Ph2Ir) → IsSmall (Fusion.shift_zero cur next)
unfolding Fusion.shift_zero
fusion_shift_zero-IsSmall cur next = record { bounds = λ w h. ground arith }

fusion_or_zero-IsSmall : (cur next : Ph2Ir) → IsSmall (Fusion.or_zero cur next)
unfolding Fusion.or_zero
fusion_or_zero-IsSmall cur next = record { bounds = λ w h. ground arith }

fusion_mul_power-IsSmall : (cur next : Ph2Ir) → IsSmall (Fusion.mul_power cur next)
unfolding Fusion.mul_power
fusion_mul_power-IsSmall cur next = record { bounds = λ w h. ground arith }

fusion_xor_zero-IsSmall : (cur next : Ph2Ir) → IsSmall (Fusion.xor_zero cur next)
unfolding Fusion.xor_zero
fusion_xor_zero-IsSmall cur next = record { bounds = λ w h. ground arith }

fusion_one_mul-IsSmall : (cur next : Ph2Ir) → IsSmall (Fusion.one_mul cur next)
unfolding Fusion.one_mul
fusion_one_mul-IsSmall cur next = record { bounds = λ w h. ground arith }

pub fuse-Shrinks : Shrinks Fusion.insn_fusion
unfolding Fusion.insn_fusion Fusion.fuse
fuse-Shrinks = at_pair-Shrinks _ λ cur next.
    IsSmall-orelse (Fusion.fuse_assign cur next) _ (fusion_fuse_assign-IsSmall cur next) (
      (IsSmall-orelse (Fusion.add_zero cur next) _ (fusion_add_zero-IsSmall cur next) (
        (IsSmall-orelse (Fusion.sub_zero cur next) _ (fusion_sub_zero-IsSmall cur next) (
          (IsSmall-orelse (Fusion.zero_sub cur next) _ (fusion_zero_sub-IsSmall cur next) (
            (IsSmall-orelse (Fusion.mul_zero cur next) _ (fusion_mul_zero-IsSmall cur next) (
              (IsSmall-orelse (Fusion.mul_one cur next) _ (fusion_mul_one-IsSmall cur next) (
                (IsSmall-orelse (Fusion.and_ones cur next) _ (fusion_and_ones-IsSmall cur next) (
                  (IsSmall-orelse (Fusion.shift_zero cur next) _
                    (fusion_shift_zero-IsSmall cur next)
                    ((IsSmall-orelse (Fusion.or_zero cur next) _ (fusion_or_zero-IsSmall cur next) (
                      (IsSmall-orelse (Fusion.mul_power cur next) _
                        (fusion_mul_power-IsSmall cur next)
                        ((IsSmall-orelse (Fusion.xor_zero cur next) _
                          (fusion_xor_zero-IsSmall cur next)
                          (fusion_one_mul-IsSmall cur next)))))))))))))))))))))

strength_div_power-IsSmall : (cur next : Ph2Ir) → IsSmall (Strength.div_power cur next)
unfolding Strength.div_power
strength_div_power-IsSmall cur next = record { bounds = λ w h. ground arith }

strength_rem_power-IsSmall : (cur next : Ph2Ir) → IsSmall (Strength.rem_power cur next)
unfolding Strength.rem_power
strength_rem_power-IsSmall cur next = record { bounds = λ w h. ground arith }

strength_power_mul-IsSmall : (cur next : Ph2Ir) → IsSmall (Strength.power_mul cur next)
unfolding Strength.power_mul
strength_power_mul-IsSmall cur next = record { bounds = λ w h. ground arith }

strength_mul_power-IsSmall : (cur next : Ph2Ir) → IsSmall (Strength.mul_power cur next)
unfolding Strength.mul_power
strength_mul_power-IsSmall cur next = record { bounds = λ w h. ground arith }

pub reduce-Shrinks : Shrinks Strength.strength_reduction
unfolding Strength.strength_reduction Strength.reduce
reduce-Shrinks = at_pair-Shrinks _ λ cur next.
    IsSmall-orelse (Strength.div_power cur next) _ (strength_div_power-IsSmall cur next) (
      (IsSmall-orelse (Strength.rem_power cur next) _ (strength_rem_power-IsSmall cur next) (
        (IsSmall-orelse (Strength.power_mul cur next) _ (strength_power_mul-IsSmall cur next)
          (strength_mul_power-IsSmall cur next)))))

bitwise_negate_twice-IsSmall : (cur next : Ph2Ir) → IsSmall (Bitwise.negate_twice cur next)
unfolding Bitwise.negate_twice
bitwise_negate_twice-IsSmall cur next = record { bounds = λ w h. ground arith }

bitwise_and_ones-IsSmall : (cur next : Ph2Ir) → IsSmall (Bitwise.and_ones cur next)
unfolding Bitwise.and_ones
bitwise_and_ones-IsSmall cur next = record { bounds = λ w h. ground arith }

bitwise_or_zero-IsSmall : (cur next : Ph2Ir) → IsSmall (Bitwise.or_zero cur next)
unfolding Bitwise.or_zero
bitwise_or_zero-IsSmall cur next = record { bounds = λ w h. ground arith }

bitwise_xor_zero-IsSmall : (cur next : Ph2Ir) → IsSmall (Bitwise.xor_zero cur next)
unfolding Bitwise.xor_zero
bitwise_xor_zero-IsSmall cur next = record { bounds = λ w h. ground arith }

bitwise_and_zero-IsSmall : (cur next : Ph2Ir) → IsSmall (Bitwise.and_zero cur next)
unfolding Bitwise.and_zero
bitwise_and_zero-IsSmall cur next = record { bounds = λ w h. ground arith }

bitwise_or_ones-IsSmall : (cur next : Ph2Ir) → IsSmall (Bitwise.or_ones cur next)
unfolding Bitwise.or_ones
bitwise_or_ones-IsSmall cur next = record { bounds = λ w h. ground arith }

bitwise_shift_zero-IsSmall : (cur next : Ph2Ir) → IsSmall (Bitwise.shift_zero cur next)
unfolding Bitwise.shift_zero
bitwise_shift_zero-IsSmall cur next = record { bounds = λ w h. ground arith }

pub simplify_bits-Shrinks : Shrinks Bitwise.bitwise_optimization
unfolding Bitwise.bitwise_optimization Bitwise.simplify_bits
simplify_bits-Shrinks = at_pair-Shrinks _ λ cur next.
    IsSmall-orelse (Bitwise.negate_twice cur next) _ (bitwise_negate_twice-IsSmall cur next) (
      (IsSmall-orelse (Bitwise.and_ones cur next) _ (bitwise_and_ones-IsSmall cur next) (
        (IsSmall-orelse (Bitwise.or_zero cur next) _ (bitwise_or_zero-IsSmall cur next) (
          (IsSmall-orelse (Bitwise.xor_zero cur next) _ (bitwise_xor_zero-IsSmall cur next) (
            (IsSmall-orelse (Bitwise.and_zero cur next) _ (bitwise_and_zero-IsSmall cur next) (
              (IsSmall-orelse (Bitwise.or_ones cur next) _ (bitwise_or_ones-IsSmall cur next)
                (bitwise_shift_zero-IsSmall cur next)))))))))))
