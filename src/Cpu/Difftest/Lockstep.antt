-- ===== src/Cpu/Difftest/Lockstep.antt =====
-- What a comparison of nemu/src/cpu/difftest/dut.c with the reference decides.
use soc_fpga_bjtu_hwct.Common.{
  ℕ, ◌-◌, ◌≡◌, ◌⊎◌, ◌∙◌, inl, inr, refl, ap, false, ◌==◌, if◌then◌else◌, Bool-cases,
}
use soc_fpga_bjtu_hwct.Common.Outcome.{Outcome, ok}
use soc_fpga_bjtu_hwct.Isa.State.{Cpu, NemuState, reg, csr_pr_at}
use soc_fpga_bjtu_hwct.Isa.Difftest.{isa_difftest_checkregs}
use soc_fpga_bjtu_hwct.Isa.Difftest.Agree.{Agree, isa_difftest_checkregs-Agree}
use soc_fpga_bjtu_hwct.Cpu.Difftest.{
  Reference, Difftest, abort_at, checkregs, catch_up, difftest_step,
}

-- The registers that are compared.
abbrev pub Same : Cpu → Cpu → Type 0
Same ref cpu =
    Agree (reg ref) (reg cpu) 0 32 × (ref.pc ≡ cpu.pc) × Agree (csr_pr_at ref) (csr_pr_at cpu) 0 4

pub checkregs_same : (c : Cpu) (pc : ℕ) (n : NemuState) → checkregs c pc c n ≡ n
unfolding checkregs
checkregs_same c pc n =
    rw ((isa_difftest_checkregs-Agree c c).1 (λ j lo hi. refl, refl, λ j lo hi. refl))

-- What `checkregs` answers: it stops the emulator at `pc` exactly if a register differs.
pub checkregs-Same :
    (ref cpu : Cpu) (pc : ℕ) (n : NemuState)
    → (Same ref cpu × (checkregs ref pc cpu n ≡ n))
      ⊎ (¬ Same ref cpu × (checkregs ref pc cpu n ≡ abort_at pc n))
unfolding checkregs
checkregs-Same ref cpu pc n = elim (Bool-cases (isa_difftest_checkregs ref cpu)) [
  | inl same ↦ inl ((isa_difftest_checkregs-Agree ref cpu).0 same, rw same)
  | inr differ ↦ inr (λ same. cc (differ, (isa_difftest_checkregs-Agree ref cpu).1 same), rw differ)
]

module _ {R : Type 0} (r : Reference R) where
  step_compares :
      (pc npc : ℕ) (cpu : Cpu) (n : NemuState) (d : Difftest R)
      → d.skip_dut_nr_inst ≡ 0
      → d.is_skip_ref ≡ false
      → difftest_step r pc npc cpu n d
        ≡ ok (checkregs (r.to_dut (r.exec 1 d.ref)) pc cpu n, record d { ref = r.exec 1 d.ref })
  unfolding difftest_step
  step_compares pc npc cpu n d no_dut no_ref =
      let answer : Outcome (NemuState × Difftest R) =
        ok (checkregs (r.to_dut (r.exec 1 d.ref)) pc cpu n, record d { ref = r.exec 1 d.ref }) in
      let skipped_ref : Outcome (NemuState × Difftest R) =
        ok (n, record d { ref = r.to_ref cpu d.ref; is_skip_ref = false }) in
      let behind = catch_up r (d.skip_dut_nr_inst - 1) npc cpu n d in
      ap (λ k. if k == 0 then (if d.is_skip_ref then skipped_ref else answer) else behind) no_dut
      ∙ ap (λ b. if b then skipped_ref else answer) no_ref

  -- With nothing to skip, `difftest_step` lets the reference run one instruction, and aborts at the
  -- instruction exactly if a general register, the pc or one of the first four control registers
  -- then differs.
  pub difftest_step-Same :
      (pc npc : ℕ) (cpu : Cpu) (n : NemuState) (d : Difftest R)
      → d.skip_dut_nr_inst ≡ 0
      → d.is_skip_ref ≡ false
      → (n' : NemuState) × (difftest_step r pc npc cpu n d
          ≡ ok (n', record d { ref = r.exec 1 d.ref }))
        × ((Same (r.to_dut (r.exec 1 d.ref)) cpu × (n' ≡ n))
            ⊎ (¬ Same (r.to_dut (r.exec 1 d.ref)) cpu × (n' ≡ abort_at pc n)))
  difftest_step-Same pc npc cpu n d no_dut no_ref = (
    _,
    step_compares pc npc cpu n d no_dut no_ref,
    checkregs-Same (r.to_dut (r.exec 1 d.ref)) cpu pc n,
  )
