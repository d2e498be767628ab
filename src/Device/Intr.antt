-- ===== src/Device/Intr.antt =====
-- The interrupt line of the timer: nemu/src/device/intr.c, with the CPU that it writes to.
use soc_fpga_bjtu_hwct.Common.{ℕ, ◌-◌, ◌^◌, Bool, true, false, bit_and, bit_or, if◌then◌else◌}
use soc_fpga_bjtu_hwct.Common.Word.{not32}
use soc_fpga_bjtu_hwct.Isa.State.{Cpu, csr_pr_at, set_csr_pr}

pub record IntrLine : Type 0 where
  pub cpu : Cpu
  pub timer_intr_pending : Bool

-- INTR_EMPTY
abbrev pub intr_empty : ℕ
intr_empty = 2 ^ 32 - 1

unfoldable pub dev_raise_intr : IntrLine → IntrLine
dev_raise_intr i = record {
  cpu = set_csr_pr i.cpu 6 (bit_or (csr_pr_at i.cpu 6) 8);
  timer_intr_pending = true;
}

unfoldable pub dev_query_intr : IntrLine → ℕ × IntrLine
dev_query_intr i =
    if i.timer_intr_pending
    then (
      3,
      record {
        cpu = set_csr_pr i.cpu 6 (bit_and (csr_pr_at i.cpu 6) (not32 8));
        timer_intr_pending = false;
      },
    )
    else (intr_empty, i)
