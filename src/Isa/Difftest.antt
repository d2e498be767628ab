-- ===== src/Isa/Difftest.antt =====
-- The comparison with the reference emulator: nemu/src/isa/riscv32/difftest/dut.c. Messages are
-- left out.
pub mod Agree
use soc_fpga_bjtu_hwct.Common.{ℕ, zero, suc, ◌+◌, Bool, true, false, ◌==◌, if◌then◌else◌}
use soc_fpga_bjtu_hwct.Isa.State.{Cpu, reg, csr_pr_at}

-- The loops over the first registers, from number `i` on.
unfoldable pub same_gpr : ℕ → ℕ → Cpu → Cpu → Bool
same_gpr i zero ref dut = true
same_gpr i (suc n) ref dut =
    let rest = same_gpr (i + 1) n ref dut in if reg ref i == reg dut i then rest else false

unfoldable pub same_csr : ℕ → ℕ → Cpu → Cpu → Bool
same_csr i zero ref dut = true
same_csr i (suc n) ref dut =
    let rest = same_csr (i + 1) n ref dut in
    if csr_pr_at ref i == csr_pr_at dut i then rest else false

unfoldable pub isa_difftest_checkregs : Cpu → Cpu → Bool
unfolding same_gpr same_csr
isa_difftest_checkregs ref dut =
    if same_gpr 0 32 ref dut
    then (if ref.pc == dut.pc then same_csr 0 4 ref dut else false)
    else false
