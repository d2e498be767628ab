-- ===== src/Isa/Operand/Immediate.antt =====
-- What the immediates of `decode_operand` (nemu/src/isa/riscv32/inst.c) are: the numbers that the
-- RISC-V formats scatter over an instruction word.
use soc_fpga_bjtu_hwct.Common.{
  ℕ, ◌+◌, ◌-◌, ◌*◌, ◌/◌, ◌%◌, ◌^◌, ◌<◌, ◌≡◌, refl, arith, ltb, if◌then◌else◌,
}
use soc_fpga_bjtu_hwct.Common.Int.{ℤ, pos, negsuc, signed32}
use soc_fpga_bjtu_hwct.Common.Word.{shl64, bits, sext}
use soc_fpga_bjtu_hwct.Common.Bits.{bit_or_fields}
use soc_fpga_bjtu_hwct.Common.Bits.Fields.{bits_lem}
use soc_fpga_bjtu_hwct.Isa.Operand.{imm_i, imm_u, imm_s, imm_j, imm_b}

-- The number that the low `n` bits of `x` stand for in two's complement.
abbrev pub signed_bits : ℕ → ℕ → ℤ
signed_bits n x = if ltb x (2 ^ (n - 1)) then pos x else negsuc (2 ^ n - 1 - x)

-- The bits of the immediate of each format, put back in order.
abbrev pub field_s : ℕ → ℕ
field_s w = w / 2 ^ 25 * 2 ^ 5 + w / 2 ^ 7 % 2 ^ 5

abbrev pub field_b : ℕ → ℕ
field_b w =
    w / 2 ^ 31 * 2 ^ 12
    + w / 2 ^ 7 % 2 * 2 ^ 11
    + w / 2 ^ 25 % 2 ^ 6 * 2 ^ 5
    + w / 2 ^ 8 % 2 ^ 4 * 2

abbrev pub field_j : ℕ → ℕ
field_j w =
    w / 2 ^ 31 * 2 ^ 20
    + w / 2 ^ 12 % 2 ^ 8 * 2 ^ 12
    + w / 2 ^ 20 % 2 * 2 ^ 11
    + w / 2 ^ 21 % 2 ^ 10 * 2

imm_i-signed : (w : ℕ) → w < 2 ^ 32 → signed32 (imm_i w) ≡ signed_bits 12 (w / 2 ^ 20)
unfolding imm_i sext
imm_i-signed w h = ground (arith, bits_lem w 31 20 12 refl (omega arith))

imm_u-high : (w : ℕ) → w < 2 ^ 32 → imm_u w ≡ w / 2 ^ 12 * 2 ^ 12
unfolding imm_u sext
imm_u-high w h = ground (arith, bits_lem w 31 12 20 refl (omega arith))

imm_s-signed : (w : ℕ) → w < 2 ^ 32 → signed32 (imm_s w) ≡ signed_bits 12 (field_s w)
unfolding imm_s sext
imm_s-signed w h = ground (
  arith,
  bits_lem w 31 25 7 refl (omega arith),
  bits_lem w 11 7 5 refl (omega arith),
  bit_or_fields 5 (shl64 (sext (bits w 31 25) 7) 5 / 2 ^ 5) (w / 2 ^ 7 % 2 ^ 5) (omega arith),
)

imm_b-signed : (w : ℕ) → w < 2 ^ 32 → signed32 (imm_b w) ≡ signed_bits 13 (field_b w)
unfolding imm_b sext
imm_b-signed w h = ground (
  arith,
  bits_lem w 31 31 1 refl (omega arith),
  bits_lem w 7 7 1 refl (omega arith),
  bits_lem w 30 25 6 refl (omega arith),
  bits_lem w 11 8 4 refl (omega arith),
  bit_or_fields 12 (w / 2 ^ 31 * (2 ^ 52 - 1)) (w / 2 ^ 7 % 2 * 2 ^ 11) (omega arith),
  bit_or_fields 11 (w / 2 ^ 31 * (2 ^ 53 - 2) + w / 2 ^ 7 % 2) (w / 2 ^ 25 % 2 ^ 6 * 2 ^ 5)
      (omega arith),
  bit_or_fields 5 (w / 2 ^ 31 * (2 ^ 59 - 2 ^ 7) + w / 2 ^ 7 % 2 * 2 ^ 6 + w / 2 ^ 25 % 2 ^ 6)
      (w / 2 ^ 8 % 2 ^ 4 * 2) (omega arith),
)

imm_j-signed : (w : ℕ) → w < 2 ^ 32 → signed32 (imm_j w) ≡ signed_bits 21 (field_j w)
unfolding imm_j sext
imm_j-signed w h = ground (
  arith,
  bits_lem w 31 31 1 refl (omega arith),
  bits_lem w 19 12 8 refl (omega arith),
  bits_lem w 20 20 1 refl (omega arith),
  bits_lem w 30 21 10 refl (omega arith),
  bit_or_fields 20 (w / 2 ^ 31 * (2 ^ 44 - 1)) (w / 2 ^ 12 % 2 ^ 8 * 2 ^ 12) (omega arith),
  bit_or_fields 12 (w / 2 ^ 31 * (2 ^ 52 - 2 ^ 8) + w / 2 ^ 12 % 2 ^ 8) (w / 2 ^ 20 % 2 * 2 ^ 11)
      (omega arith),
  bit_or_fields 11 (w / 2 ^ 31 * (2 ^ 53 - 2 ^ 9) + w / 2 ^ 12 % 2 ^ 8 * 2 + w / 2 ^ 20 % 2)
      (w / 2 ^ 21 % 2 ^ 10 * 2) (omega arith),
)

-- In every format the immediate of a 32-bit word is the two's complement number whose bits the
-- format scatters over the word: 12 bits in I and S, 13 and 21 bits, the lowest one clear, in B
-- and J, and the upper 20 bits of the word, in place, in U.
pub immediates :
    (w : ℕ)
    → w < 2 ^ 32
    → (signed32 (imm_i w) ≡ signed_bits 12 (w / 2 ^ 20))
      × (signed32 (imm_s w) ≡ signed_bits 12 (field_s w))
      × (signed32 (imm_b w) ≡ signed_bits 13 (field_b w))
      × (signed32 (imm_j w) ≡ signed_bits 21 (field_j w))
      × (imm_u w ≡ w / 2 ^ 12 * 2 ^ 12)
immediates w h =
    (imm_i-signed w h, imm_s-signed w h, imm_b-signed w h, imm_j-signed w h, imm_u-high w h)
