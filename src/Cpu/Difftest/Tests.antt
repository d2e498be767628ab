-- ===== src/Cpu/Difftest/Tests.antt =====
-- The comparison of nemu/src/cpu/difftest/dut.c with a concrete reference.
use soc_fpga_bjtu_hwct.Common.{ℕ, ◌+◌, ◌*◌, ◌≡◌, ◌⊎◌, refl, arith, false, [], ◌∷◌, replicate}
use soc_fpga_bjtu_hwct.Common.Outcome.{ok}
use soc_fpga_bjtu_hwct.Isa.State.{Cpu, RunState, NemuState}
use soc_fpga_bjtu_hwct.Cpu.Difftest.{
  Reference, Difftest, abort_at, difftest_skip_dut, difftest_step,
}
use soc_fpga_bjtu_hwct.Cpu.Difftest.Lockstep.{Same, difftest_step-Same}
use soc_fpga_bjtu_hwct.Cpu.Difftest.CatchUp.{AllBehind, followed, difftest_skip_dut-reached}

abbrev cpu_at : ℕ → Cpu
cpu_at pc = record {
  gpr = replicate 32 0;
  pc = pc;
  true_pc = 0;
  csr_pr = replicate 12 0;
  cycle = 0;
}

-- Every instruction only moves the pc.
abbrev reference : Reference Cpu
reference = record {
  exec = λ n x. record x { pc = x.pc + 4 * n };
  to_dut = λ x. x;
  to_ref = λ c x. c;
}

abbrev running_at : NemuState
running_at = record { state = RunState.running; halt_pc = 0; halt_ret = 0 }

abbrev difftest0 : Difftest Cpu
difftest0 = record { ref = cpu_at 0x80000000; is_skip_ref = false; skip_dut_nr_inst = 0 }

difftest_step-Same_example :
    (n' : NemuState) × (difftest_step reference 0x80000000 0x80000008
        (cpu_at 0x80000008)
        running_at
        difftest0
      ≡ ok (n', record difftest0 { ref = cpu_at 0x80000004 }))
    × ((Same (cpu_at 0x80000004) (cpu_at 0x80000008) × (n' ≡ running_at))
        ⊎ (¬ Same (cpu_at 0x80000004) (cpu_at 0x80000008) × (n' ≡ abort_at 0x80000000 running_at)))
difftest_step-Same_example =
    difftest_step-Same reference 0x80000000 0x80000008 (cpu_at 0x80000008) running_at difftest0 refl
      refl

-- The reference has run three instructions at once.
abbrev ahead : Difftest Cpu
ahead = record { ref = cpu_at 0x8000000c; is_skip_ref = false; skip_dut_nr_inst = 5 }

difftest_skip_dut_run : difftest_skip_dut reference 3 5 difftest0 ≡ ahead
unfolding difftest_skip_dut
difftest_skip_dut_run = refl

ahead-AllBehind :
    AllBehind reference
      (difftest_skip_dut reference 3 5 difftest0)
      (cpu_at 0x80000004 ∷ cpu_at 0x80000008 ∷ [])
unfolding difftest_skip_dut
ahead-AllBehind = (λ e. omega (arith, e), (λ e. omega (arith, e), tt))

ahead-ref : (difftest_skip_dut reference 3 5 difftest0).ref ≡ cpu_at 0x8000000c
unfolding difftest_skip_dut
ahead-ref = refl

difftest_skip_dut-reached_example :
    followed reference 0x80000000
      (cpu_at 0x80000004 ∷ cpu_at 0x80000008 ∷ cpu_at 0x8000000c ∷ [])
      running_at
      (difftest_skip_dut reference 3 5 difftest0)
    ≡ ok (running_at, record (difftest_skip_dut reference 3 5 difftest0) { skip_dut_nr_inst = 0 })
difftest_skip_dut-reached_example =
    difftest_skip_dut-reached reference 0x80000000 3 5 (cpu_at 0x80000004 ∷ cpu_at 0x80000008 ∷ [])
      (cpu_at 0x8000000c) running_at difftest0 refl ahead-AllBehind (omega arith) ahead-ref
