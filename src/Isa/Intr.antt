-- ===== src/Isa/Intr.antt =====
-- Interrupts: nemu/src/isa/riscv32/system/intr.c, and the reset of nemu/src/isa/riscv32/init.c.
pub mod Trap
pub mod Reset
use soc_fpga_bjtu_hwct.Common.{ℕ, ◌-◌, ◌^◌, List, bit_and, bit_or, set}
use soc_fpga_bjtu_hwct.Common.Word.{not32}
use soc_fpga_bjtu_hwct.Isa.State.{Cpu, csr_pr_at, set_csr_pr, set_reg}
use soc_fpga_bjtu_hwct.Device.Intr.{IntrLine, dev_query_intr}
use soc_fpga_bjtu_hwct.Memory.Config.{Config, reset_vector}

-- MIE cleared, MPIE and MPP set.
abbrev pub trap_mstatus : ℕ → ℕ
trap_mstatus mstatus = bit_or (bit_or (bit_and mstatus (not32 8)) 0x80) 0x1800

-- The new pc, and the registers.
unfoldable pub isa_raise_intr : ℕ → ℕ → Cpu → ℕ × Cpu
isa_raise_intr number epc c =
    let cause = bit_or (2 ^ 31) (bit_and number 0x7f) in
    let c1 = set_csr_pr (set_csr_pr c 1 epc) 3 cause in
    (csr_pr_at c 0, set_csr_pr c1 2 (trap_mstatus (csr_pr_at c 2)))

unfoldable pub isa_query_intr : IntrLine → ℕ × IntrLine
unfolding dev_query_intr
isa_query_intr i = dev_query_intr i

unfoldable pub restart : Config → Cpu → Cpu
restart cfg c =
    let c1 = set_csr_pr (set_csr_pr (set_csr_pr c 2 0x1800) 5 0x80) 6 0 in
    set_reg (record c1 { pc = reset_vector cfg; cycle = 0 }) 0 0
