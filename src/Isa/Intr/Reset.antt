-- ===== src/Isa/Intr/Reset.antt =====
-- The registers after `restart` of nemu/src/isa/riscv32/init.c.
use soc_fpga_bjtu_hwct.Common.{
  ℕ, ◌≡◌, refl, ◌∙◌, arith, List, length, length-set, get_or, set, get_or-set_self, get_or-set_ne,
}
use soc_fpga_bjtu_hwct.Isa.State.{Cpu, csr_read, set_csr_pr, mstatus_csr, mie_csr, mip_csr}
use soc_fpga_bjtu_hwct.Isa.State.Valid.{
  HasWords, IsValid, set_csr_pr-HasWords, set_reg_zero-IsValid,
}
use soc_fpga_bjtu_hwct.Isa.Intr.{restart}
use soc_fpga_bjtu_hwct.Memory.Config.{Config, reset_vector}

reset_csr :
    (l : List ℕ)
    → length l ≡ 12
    → let l' = set (set (set l 2 0x1800) 5 0x80) 6 0 in
      (get_or l' 2 0 ≡ 0x1800) × (get_or l' 5 0 ≡ 0x80) × (get_or l' 6 0 ≡ 0)
reset_csr l len =
    let l1 = set l 2 0x1800 in
    let l2 = set l1 5 0x80 in
    let n1 : length l1 ≡ 12 = length-set l 2 0x1800 ∙ len in
    let n2 : length l2 ≡ 12 = length-set l1 5 0x80 ∙ n1 in
    (
      get_or-set_ne l2 6 2 0 0 (omega arith)
          ∙ get_or-set_ne l1 5 2 0x80 0 (omega arith)
          ∙ get_or-set_self l 2 0x1800 0 (omega arith),
      get_or-set_ne l2 6 5 0 0 (omega arith) ∙ get_or-set_self l1 5 0x80 0 (omega arith),
      get_or-set_self l2 6 0 0 (omega arith),
    )

-- From registers that hold words, the reset gives well-formed ones with register 0 zero, the pc at
-- the reset vector and no cycle counted; `mstatus` is 0x1800, so that interrupts are disabled, `mie`
-- enables the machine timer's, and none is pending.
pub restart-IsValid :
    (cfg : Config) (c : Cpu)
    → HasWords c
    → IsValid (restart cfg c)
      × ((restart cfg c).pc ≡ reset_vector cfg)
      × ((restart cfg c).cycle ≡ 0)
      × (csr_read (restart cfg c) mstatus_csr ≡ 0x1800)
      × (csr_read (restart cfg c) mie_csr ≡ 0x80)
      × (csr_read (restart cfg c) mip_csr ≡ 0)
unfolding restart csr_read
restart-IsValid cfg c w =
    let w1 = set_csr_pr-HasWords w 2 0x1800 (omega arith) in
    let w2 = set_csr_pr-HasWords w1 5 0x80 (omega arith) in
    let w3 = set_csr_pr-HasWords w2 6 0 (omega arith) in
    let w4 : HasWords (record (set_csr_pr (set_csr_pr (set_csr_pr c 2 0x1800) 5 0x80) 6 0) {
      pc = reset_vector cfg;
      cycle = 0;
    }) =
      record {
        gpr_length = w3.gpr_length;
        gpr_words = w3.gpr_words;
        csr_length = w3.csr_length;
        csr_words = w3.csr_words;
      } in
    let (status, mie, mip) = reset_csr c.csr_pr w.csr_length in
    (set_reg_zero-IsValid w4, refl, refl, status, mie, mip)
