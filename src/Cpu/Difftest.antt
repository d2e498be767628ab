-- ===== src/Cpu/Difftest.antt =====
-- The comparison with a reference emulator after each instruction: nemu/src/cpu/difftest/dut.c, with
-- CONFIG_DIFFTEST set. The reference is a library that `init_difftest` loads: it is a parameter, and
-- so is its state `R`. Counts are not negative, and small enough for an `int`.
pub mod Lockstep
pub mod CatchUp
pub mod Tests
use soc_fpga_bjtu_hwct.Common.{ℕ, zero, suc, ◌+◌, ◌-◌, Bool, true, false, ◌==◌, if◌then◌else◌}
use soc_fpga_bjtu_hwct.Common.Outcome.{Outcome, ok, failed}
use soc_fpga_bjtu_hwct.Isa.State.{Cpu, RunState, NemuState}
use soc_fpga_bjtu_hwct.Isa.Difftest.{isa_difftest_checkregs}

-- `ref_difftest_exec`, and `ref_difftest_regcpy` in its two directions: `to_dut` is what is in the
-- `CPU_state` after the copy, the parts that the reference leaves alone included.
pub record Reference (R : Type 0) : Type 0 where
  pub exec : ℕ → R → R
  pub to_dut : R → Cpu
  pub to_ref : Cpu → R → R

pub record Difftest (R : Type 0) : Type 0 where
  pub ref : R
  pub is_skip_ref : Bool
  pub skip_dut_nr_inst : ℕ

abbrev pub abort_at : ℕ → NemuState → NemuState
abort_at pc n = record n { state = RunState.abort; halt_pc = pc }

-- `ref` are the registers of the reference, `cpu` those of the emulator.
unfoldable pub checkregs : Cpu → ℕ → Cpu → NemuState → NemuState
unfolding isa_difftest_checkregs
checkregs ref pc cpu n = if isa_difftest_checkregs ref cpu then n else abort_at pc n

module _ {R : Type 0} (r : Reference R) where
  unfoldable pub difftest_skip_ref : Difftest R → Difftest R
  difftest_skip_ref d = record d { is_skip_ref = true; skip_dut_nr_inst = 0 }

  -- The loop of `difftest_skip_dut`.
  unfoldable pub exec_times : ℕ → R → R
  exec_times zero x = x
  exec_times (suc nr_ref) x = exec_times nr_ref (r.exec 1 x)

  unfoldable pub difftest_skip_dut : ℕ → ℕ → Difftest R → Difftest R
  unfolding exec_times
  difftest_skip_dut nr_ref nr_dut d = record d {
    ref = exec_times nr_ref d.ref;
    skip_dut_nr_inst = d.skip_dut_nr_inst + nr_dut;
  }

  -- The reference is ahead; `left` more instructions may pass until the emulator is where it is.
  unfoldable pub catch_up : ℕ → ℕ → Cpu → NemuState → Difftest R → Outcome (NemuState × Difftest R)
  unfolding checkregs
  catch_up left npc cpu n d =
      let ref_r = r.to_dut d.ref in
      if ref_r.pc == npc
      then ok (checkregs ref_r npc cpu n, record d { skip_dut_nr_inst = 0 })
      else if left == 0
      then failed
      else ok (n, record d { skip_dut_nr_inst = left })

  unfoldable pub difftest_step :
      ℕ → ℕ → Cpu → NemuState → Difftest R → Outcome (NemuState × Difftest R)
  unfolding catch_up checkregs
  difftest_step pc npc cpu n d =
      if d.skip_dut_nr_inst == 0
      then (if d.is_skip_ref
          then ok (n, record d { ref = r.to_ref cpu d.ref; is_skip_ref = false })
          else (let ref = r.exec 1 d.ref in
              ok (checkregs (r.to_dut ref) pc cpu n, record d { ref = ref })))
      else catch_up (d.skip_dut_nr_inst - 1) npc cpu n d
