-- ===== src/Isa/Alu/Tests.antt =====
-- The theorems on the arithmetic of nemu/src/isa/riscv32/inst.c at concrete inputs.
use soc_fpga_bjtu_hwct.Common.{◌+◌, ◌-◌, ◌*◌, ◌^◌, ◌<◌, ◌≡◌, refl, arith}
use soc_fpga_bjtu_hwct.Common.Int.{pos, ◌+ℤ◌, ◌*ℤ◌, signed32}
use soc_fpga_bjtu_hwct.Isa.Alu.{div_value, rem_value, divu_value, remu_value, mul_value, mulh_value}
use soc_fpga_bjtu_hwct.Isa.Alu.Divide.{IsDivision, div-rem, divu-remu}
use soc_fpga_bjtu_hwct.Isa.Alu.Multiply.{mulh-mul}

div-rem_example :
    IsDivision
      (signed32 0xfffffff9)
      (signed32 2)
      (signed32 (div_value 0xfffffff9 2))
      (signed32 (rem_value 0xfffffff9 2))
div-rem_example = div-rem 0xfffffff9 2 (omega arith) (omega arith) (omega arith) refl

divu-remu_example :
    (divu_value 100 7 * 7 + remu_value 100 7 ≡ 100)
    × (remu_value 100 7 < 7)
    × (divu_value 100 0 ≡ 100)
    × (remu_value 100 0 ≡ 100)
    × (div_value 100 0 ≡ 2 ^ 32 - 1)
    × (rem_value 100 0 ≡ 100)
    × (div_value (2 ^ 31) (2 ^ 32 - 1) ≡ 2 ^ 31)
    × (rem_value (2 ^ 31) (2 ^ 32 - 1) ≡ 0)
divu-remu_example = divu-remu 100 6 (omega arith)

mulh-mul_example :
    signed32 (mulh_value 0xfffffffe 3) *ℤ pos (2 ^ 32) +ℤ pos (mul_value 0xfffffffe 3)
    ≡ signed32 0xfffffffe *ℤ signed32 3
mulh-mul_example = mulh-mul 0xfffffffe 3 (omega arith) (omega arith)
