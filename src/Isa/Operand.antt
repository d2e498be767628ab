-- ===== src/Isa/Operand.antt =====
-- `decode_operand` of nemu/src/isa/riscv32/inst.c.
pub mod Immediate
pub mod Words
use soc_fpga_bjtu_hwct.Common.{ℕ, bit_or}
use soc_fpga_bjtu_hwct.Common.Outcome.{Outcome, ok, failed}
use soc_fpga_bjtu_hwct.Common.Word.{u32, shl64, bits, sext}
use soc_fpga_bjtu_hwct.Isa.State.{Cpu, reg, csr_read}

-- The formats; `m` has no case in `decode_operand`, and no instruction uses it.
pub data Format : Type 0 where
  i u s n j r b is m csr : Format

-- What the body of an instruction reads. `shamt_num`, `csr_value` and `csr` are static variables
-- of the source, which only the formats that set them read.
pub record Operands : Type 0 where
  pub rd : ℕ
  pub src1 : ℕ
  pub src2 : ℕ
  pub imm : ℕ
  pub shamt_num : ℕ
  pub csr_value : ℕ
  pub csr : ℕ

-- The immediates are built in 64 bits and stored in a `word_t`.
unfoldable pub imm_i : ℕ → ℕ
imm_i w = u32 (sext (bits w 31 20) 12)

unfoldable pub imm_u : ℕ → ℕ
imm_u w = u32 (shl64 (sext (bits w 31 12) 20) 12)

unfoldable pub imm_s : ℕ → ℕ
imm_s w = u32 (bit_or (shl64 (sext (bits w 31 25) 7) 5) (bits w 11 7))

unfoldable pub imm_j : ℕ → ℕ
imm_j w = u32 (
    bit_or
      (bit_or (bit_or (shl64 (sext (bits w 31 31) 1) 20) (shl64 (bits w 19 12) 12))
        (shl64 (bits w 20 20) 11))
      (shl64 (bits w 30 21) 1))

unfoldable pub imm_b : ℕ → ℕ
imm_b w = u32 (
    bit_or
      (bit_or (bit_or (shl64 (sext (bits w 31 31) 1) 12) (shl64 (bits w 7 7) 11))
        (shl64 (bits w 30 25) 5))
      (shl64 (bits w 11 8) 1))

unfoldable pub decode_operand : Cpu → ℕ → Format → Outcome Operands
decode_operand c w format =
    let rs1 = bits w 19 15 in
    let rs2 = bits w 24 20 in
    let none_set : Operands = record {
      rd = bits w 11 7;
      src1 = 0;
      src2 = 0;
      imm = 0;
      shamt_num = 0;
      csr_value = 0;
      csr = 0;
    } in
    elim format [
      | Format.i ↦ ok (record none_set { src1 = reg c rs1; imm = imm_i w })
      | Format.u ↦ ok (record none_set { imm = imm_u w })
      | Format.s ↦ ok (record none_set { src1 = reg c rs1; src2 = reg c rs2; imm = imm_s w })
      | Format.n ↦ ok none_set
      | Format.j ↦ ok (record none_set { imm = imm_j w })
      | Format.r ↦ ok (record none_set { src1 = reg c rs1; src2 = reg c rs2 })
      | Format.b ↦ ok (record none_set { src1 = reg c rs1; src2 = reg c rs2; imm = imm_b w })
      | Format.is ↦ ok (record none_set { shamt_num = bits w 24 20; src1 = reg c rs1 })
      | Format.m ↦ failed
      | Format.csr ↦
          let code = bits w 31 20 in
          ok (record none_set {
            src1 = reg c rs1;
            csr_value = csr_read c code;
            csr = code;
            imm = rs1;
          })
    ]
