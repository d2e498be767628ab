-- ===== src/Isa/Alu/Words.antt =====
-- Every value that nemu/src/isa/riscv32/inst.c stores in a register is a 32-bit word.
use soc_fpga_bjtu_hwct.Common.{ℕ, ◌+◌, ◌-◌, ◌/◌, ◌%◌, ◌^◌, refl, arith, if_both}
use native.Mathlib.Nat.{div-le_self, mod-le}
use soc_fpga_bjtu_hwct.Common.Word.{bits, bitmask, IsWord}
use soc_fpga_bjtu_hwct.Common.Bits.{bit_and-le, bit_or-lt, bit_xor-lt}
use soc_fpga_bjtu_hwct.Common.Bits.Fields.{bits_lem}
use soc_fpga_bjtu_hwct.Isa.Alu.{
  sar, magnitude, quot_signed, rem_signed, div_value, rem_value, divu_value, remu_value, mulh_value,
  mulhsu_value, mulhu_value, alu_value,
}
use soc_fpga_bjtu_hwct.Isa.Alu.Signed.{mul-mod}
use soc_fpga_bjtu_hwct.Isa.Inst.{AluOp}
use soc_fpga_bjtu_hwct.Isa.Operand.{Operands}

-- The operands of an instruction are words.
pub record HasWordOperands (o : Operands) : Type 0 where
  pub src1_word : IsWord o.src1
  pub src2_word : IsWord o.src2
  pub imm_word : IsWord o.imm
  pub csr_value_word : IsWord o.csr_value

ones_IsWord : IsWord (2 ^ 32 - 1)
ones_IsWord = omega arith

min_IsWord : IsWord (2 ^ 31)
min_IsWord = omega arith

zero_IsWord : IsWord 0
zero_IsWord = omega arith

div-IsWord : (a b : ℕ) → IsWord a → IsWord (a / b)
div-IsWord a b h = omega (arith, div-le_self a b)

mod-IsWord : (a b : ℕ) → IsWord a → IsWord (a % b)
mod-IsWord a b h = omega (arith, mod-le a b)

sar-IsWord : (x k : ℕ) → IsWord x → IsWord (sar x k)
unfolding sar
sar-IsWord x k h = ground (arith, div-le_self x (2 ^ k), div-le_self (2 ^ 32 - 1 - x) (2 ^ k))

bits-IsWord : (x hi lo : ℕ) → IsWord x → IsWord (bits x hi lo)
unfolding bits
bits-IsWord x hi lo h =
    omega (arith, bit_and-le (x / 2 ^ lo) (bitmask (hi - lo + 1)), div-le_self x (2 ^ lo))

high-IsWord : (x : ℕ) → IsWord (bits x 63 32)
high-IsWord x = omega (arith, bits_lem x 63 32 32 refl (omega arith))

quot_signed-IsWord : (a b : ℕ) → IsWord (quot_signed a b)
unfolding quot_signed
quot_signed-IsWord a b = ground arith

rem_signed-IsWord : (a b : ℕ) → IsWord a → IsWord (rem_signed a b)
unfolding rem_signed
rem_signed-IsWord a b h = ground (arith, mod-le (magnitude a) (magnitude b))

pub alu_value-IsWord :
    (op : AluOp) (pc : ℕ) (o : Operands) → HasWordOperands o → IsWord (alu_value op pc o)
unfolding alu_value
alu_value-IsWord AluOp.lui pc o h = h.imm_word
alu_value-IsWord AluOp.xori pc o h = bit_xor-lt 32 o.src1 o.imm h.src1_word h.imm_word
alu_value-IsWord AluOp.ori pc o h = bit_or-lt 32 o.src1 o.imm h.src1_word h.imm_word
alu_value-IsWord AluOp.andi pc o h = omega (arith, bit_and-le o.src1 o.imm, h.src1_word)
alu_value-IsWord AluOp.srli pc o h = div-IsWord o.src1 (2 ^ o.shamt_num) h.src1_word
alu_value-IsWord AluOp.srai pc o h = sar-IsWord o.src1 o.shamt_num h.src1_word
alu_value-IsWord AluOp.xor pc o h = bit_xor-lt 32 o.src1 o.src2 h.src1_word h.src2_word
alu_value-IsWord AluOp.or pc o h = bit_or-lt 32 o.src1 o.src2 h.src1_word h.src2_word
alu_value-IsWord AluOp.and pc o h = omega (arith, bit_and-le o.src1 o.src2, h.src1_word)
alu_value-IsWord AluOp.srl pc o h = div-IsWord o.src1 (2 ^ bits o.src2 4 0) h.src1_word
alu_value-IsWord AluOp.sra pc o h = sar-IsWord o.src1 (bits o.src2 4 0) h.src1_word
alu_value-IsWord AluOp.mul pc o h = omega (arith, mul-mod o.src1 o.src2)
alu_value-IsWord AluOp.mulh pc o h = unfold mulh_value in high-IsWord _
alu_value-IsWord AluOp.mulhsu pc o h = unfold mulhsu_value in high-IsWord _
alu_value-IsWord AluOp.mulhu pc o h = unfold mulhu_value in high-IsWord _
alu_value-IsWord AluOp.div pc o h =
    unfold div_value in
    if_both IsWord _ ones_IsWord (if_both IsWord _ min_IsWord (quot_signed-IsWord o.src1 o.src2))
alu_value-IsWord AluOp.divu pc o h =
    unfold divu_value in if_both IsWord _ h.src1_word (div-IsWord o.src1 o.src2 h.src1_word)
alu_value-IsWord AluOp.rem pc o h =
    unfold rem_value in
    if_both IsWord _ h.src1_word
      (if_both IsWord _ zero_IsWord (rem_signed-IsWord o.src1 o.src2 h.src1_word))
alu_value-IsWord AluOp.remu pc o h =
    unfold remu_value in if_both IsWord _ h.src1_word (mod-IsWord o.src1 o.src2 h.src1_word)
alu_value-IsWord _ pc o h = ground arith
