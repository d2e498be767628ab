-- ===== src/Isa/Alu.antt =====
-- The values that the bodies of nemu/src/isa/riscv32/inst.c store in `rd`, with the arithmetic of C
-- on `word_t`, `int` and `int64_t`. `mul` multiplies two `int`s, which C leaves undefined where the
-- product does not fit; the model takes the wrapped product there, as the compiled code has it.
pub mod Signed
pub mod Multiply
pub mod Divide
pub mod Words
pub mod Tests
use soc_fpga_bjtu_hwct.Common.{
  ℕ, ◌+◌, ◌-◌, ◌*◌, ◌/◌, ◌%◌, ◌^◌, Bool, false, ◌&&◌, not, bit_and, bit_or, bit_xor, ltb, ◌==◌,
  if◌then◌else◌,
}
use soc_fpga_bjtu_hwct.Common.Int.{ℤ, pos, negsuc, ltb_ℤ, signed32}
use soc_fpga_bjtu_hwct.Common.Word.{u32, u64, ◌>>>◌, shl32, not32, bits, sext}
use soc_fpga_bjtu_hwct.Isa.Inst.{AluOp, BranchOp}
use soc_fpga_bjtu_hwct.Isa.Operand.{Operands}

-- `a == b` between two signed numbers that C widens to a common type.
unfoldable pub eq_ℤ : ℤ → ℤ → Bool
eq_ℤ (pos a) (pos b) = a == b
eq_ℤ (negsuc a) (negsuc b) = a == b
eq_ℤ _ _ = false

-- `INT_MIN` as the source writes it, -2147483648, which has the type `long`.
abbrev pub int_min : ℤ
int_min = negsuc (2 ^ 31 - 1)

abbrev pub minus_one : ℤ
minus_one = negsuc 0

-- `(signed)a < (signed)b`
abbrev pub lt_signed : ℕ → ℕ → Bool
lt_signed a b = ltb_ℤ (signed32 a) (signed32 b)

-- `(signed)x >> k`
unfoldable pub sar : ℕ → ℕ → ℕ
sar x k = if ltb x (2 ^ 31) then x >>> k else not32 (not32 x >>> k)

-- `|(signed)x|` and `-x` on 32 bits
unfoldable pub magnitude : ℕ → ℕ
magnitude x = if ltb x (2 ^ 31) then x else 2 ^ 32 - x

unfoldable pub neg32 : ℕ → ℕ
neg32 x = u32 (2 ^ 32 - x)

abbrev pub is_neg : ℕ → Bool
is_neg x = not (ltb x (2 ^ 31))

-- `(signed)a / (signed)b` and `(signed)a % (signed)b`, which round towards zero.
unfoldable pub quot_signed : ℕ → ℕ → ℕ
unfolding magnitude neg32
quot_signed a b =
    let q = magnitude a / magnitude b in
    if is_neg a then (if is_neg b then u32 q else neg32 q) else if is_neg b then neg32 q else u32 q

unfoldable pub rem_signed : ℕ → ℕ → ℕ
unfolding magnitude neg32
rem_signed a b = let r = magnitude a % magnitude b in if is_neg a then neg32 r else r

-- `_div_`, `divu`, `rem` and `remu`. In `remu` an unsigned value is compared with a negative
-- `long`, so its second case is never taken.
unfoldable pub div_value : ℕ → ℕ → ℕ
unfolding quot_signed eq_ℤ
div_value a b =
    if b == 0
    then 2 ^ 32 - 1
    else if eq_ℤ (signed32 a) int_min && eq_ℤ (signed32 b) minus_one
    then 2 ^ 31
    else quot_signed a b

unfoldable pub divu_value : ℕ → ℕ → ℕ
divu_value a b = if b == 0 then a else a / b

unfoldable pub rem_value : ℕ → ℕ → ℕ
unfolding rem_signed eq_ℤ
rem_value a b =
    if b == 0
    then a
    else if eq_ℤ (signed32 a) int_min && eq_ℤ (signed32 b) minus_one
    then 0
    else rem_signed a b

unfoldable pub remu_value : ℕ → ℕ → ℕ
unfolding eq_ℤ
remu_value a b = if b == 0 then a else if eq_ℤ (pos a) int_min && b == 2 ^ 32 - 1 then 0 else a % b

-- `mul_num` as the bits of an `int64_t`
unfoldable pub mul_value : ℕ → ℕ → ℕ
mul_value a b = bits (sext (u32 (a * b)) 32) 31 0

unfoldable pub mulh_value : ℕ → ℕ → ℕ
mulh_value a b = bits (u64 (sext a 32 * sext b 32)) 63 32

unfoldable pub mulhsu_value : ℕ → ℕ → ℕ
mulhsu_value a b = bits (u64 (sext a 32 * b)) 63 32

unfoldable pub mulhu_value : ℕ → ℕ → ℕ
mulhu_value a b = bits (u64 (a * b)) 63 32

unfoldable pub alu_value : AluOp → ℕ → Operands → ℕ
alu_value AluOp.lui pc o = o.imm
alu_value AluOp.auipc pc o = u32 (pc + o.imm)
alu_value AluOp.addi pc o = u32 (o.src1 + o.imm)
alu_value AluOp.slti pc o = if lt_signed o.src1 o.imm then 1 else 0
alu_value AluOp.sltiu pc o = if ltb o.src1 o.imm then 1 else 0
alu_value AluOp.xori pc o = bit_xor o.src1 o.imm
alu_value AluOp.ori pc o = bit_or o.src1 o.imm
alu_value AluOp.andi pc o = bit_and o.src1 o.imm
alu_value AluOp.slli pc o = shl32 o.src1 o.shamt_num
alu_value AluOp.srli pc o = o.src1 >>> o.shamt_num
alu_value AluOp.srai pc o = sar o.src1 o.shamt_num
alu_value AluOp.add pc o = u32 (o.src1 + o.src2)
alu_value AluOp.sub pc o = u32 (o.src1 + 2 ^ 32 - o.src2)
alu_value AluOp.sll pc o = shl32 o.src1 (bits o.src2 4 0)
alu_value AluOp.slt pc o = if lt_signed o.src1 o.src2 then 1 else 0
alu_value AluOp.sltu pc o = if ltb o.src1 o.src2 then 1 else 0
alu_value AluOp.xor pc o = bit_xor o.src1 o.src2
alu_value AluOp.srl pc o = o.src1 >>> bits o.src2 4 0
alu_value AluOp.sra pc o = sar o.src1 (bits o.src2 4 0)
alu_value AluOp.or pc o = bit_or o.src1 o.src2
alu_value AluOp.and pc o = bit_and o.src1 o.src2
alu_value AluOp.mul pc o = mul_value o.src1 o.src2
alu_value AluOp.mulh pc o = mulh_value o.src1 o.src2
alu_value AluOp.mulhsu pc o = mulhsu_value o.src1 o.src2
alu_value AluOp.mulhu pc o = mulhu_value o.src1 o.src2
alu_value AluOp.div pc o = div_value o.src1 o.src2
alu_value AluOp.divu pc o = divu_value o.src1 o.src2
alu_value AluOp.rem pc o = rem_value o.src1 o.src2
alu_value AluOp.remu pc o = remu_value o.src1 o.src2

unfoldable pub branch_taken : BranchOp → ℕ → ℕ → Bool
branch_taken BranchOp.beq a b = a == b
branch_taken BranchOp.bne a b = not (a == b)
branch_taken BranchOp.blt a b = lt_signed a b
branch_taken BranchOp.bge a b = not (lt_signed a b)
branch_taken BranchOp.bltu a b = ltb a b
branch_taken BranchOp.bgeu a b = not (ltb a b)
