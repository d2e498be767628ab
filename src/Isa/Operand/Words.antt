-- ===== src/Isa/Operand/Words.antt =====
-- What `decode_operand` (nemu/src/isa/riscv32/inst.c) reads are words, and `rd` is a register.
use soc_fpga_bjtu_hwct.Common.{ℕ, ◌<◌, ◌≡◌, refl, arith}
use soc_fpga_bjtu_hwct.Common.Outcome.{ok}
use soc_fpga_bjtu_hwct.Common.Word.{IsWord, bits}
use soc_fpga_bjtu_hwct.Common.Bits.Fields.{bits_lem}
use soc_fpga_bjtu_hwct.Isa.State.{Cpu}
use soc_fpga_bjtu_hwct.Isa.State.Valid.{HasWords, reg-IsWord, csr_read-IsWord}
use soc_fpga_bjtu_hwct.Isa.Operand.{
  Format, Operands, imm_i, imm_u, imm_s, imm_j, imm_b, decode_operand,
}
use soc_fpga_bjtu_hwct.Isa.Alu.Words.{HasWordOperands}

imm_words :
    (w : ℕ)
    → IsWord (imm_i w) × IsWord (imm_u w) × IsWord (imm_s w) × IsWord (imm_j w) × IsWord (imm_b w)
unfolding imm_i imm_u imm_s imm_j imm_b
imm_words w = omega arith

pub register_field : (w : ℕ) → bits w 11 7 < 32
register_field w = omega (arith, bits_lem w 11 7 5 refl (omega arith))

rs1-IsWord : (w : ℕ) → IsWord (bits w 19 15)
rs1-IsWord w = omega (arith, bits_lem w 19 15 5 refl (omega arith))

pub decode_operand-words :
    {c : Cpu} {o : Operands} (w : ℕ) (f : Format)
    → HasWords c
    → decode_operand c w f ≡ ok o
    → HasWordOperands o × (o.rd ≡ bits w 11 7)
unfolding decode_operand
decode_operand-words w Format.m h e = cc
decode_operand-words {c} w _ h e = ground (
  arith,
  imm_words w,
  rs1-IsWord w,
  reg-IsWord h (bits w 19 15),
  reg-IsWord h (bits w 24 20),
  csr_read-IsWord h (bits w 31 20),
)
