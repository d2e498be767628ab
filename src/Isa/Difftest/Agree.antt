-- ===== src/Isa/Difftest/Agree.antt =====
-- What the comparison of nemu/src/isa/riscv32/difftest/dut.c accepts.
use soc_fpga_bjtu_hwct.Common.{
  ℕ, zero, suc, ◌+◌, ◌<◌, ◌≤◌, ◌≡◌, ◌↔◌, ◌⊎◌, inl, inr, refl, arith, true,
}
use mathlib.Core.Path.{subst}
use soc_fpga_bjtu_hwct.Isa.State.{Cpu, reg, csr_pr_at}
use soc_fpga_bjtu_hwct.Isa.Difftest.{same_gpr, same_csr, isa_difftest_checkregs}

-- Two register files that agree on the numbers from `i` on, below `i + n`.
abbrev pub Agree : (ℕ → ℕ) → (ℕ → ℕ) → ℕ → ℕ → Type 0
Agree f g i n = (j : ℕ) → i ≤ j → j < i + n → f j ≡ g j

le_cases : (i j : ℕ) → i ≤ j → (i ≡ j) ⊎ (i + 1 ≤ j)
le_cases i j h = ground arith

Agree-split : (f g : ℕ → ℕ) (i n : ℕ) → f i ≡ g i → Agree f g (i + 1) n → Agree f g i (suc n)
Agree-split f g i n e rest j lo hi = elim (le_cases i j lo) [
  | inl same ↦ subst (λ k. f k ≡ g k) same e
  | inr more ↦ rest j more (omega arith)
]

same_gpr_sound :
    (i n : ℕ) (ref dut : Cpu) → same_gpr i n ref dut ≡ true → Agree (reg ref) (reg dut) i n
unfolding same_gpr
same_gpr_sound i zero ref dut e = λ j lo hi. absurd (omega arith)
same_gpr_sound i (suc n) ref dut e =
    Agree-split (reg ref) (reg dut) i n (ground (arith, e))
      (same_gpr_sound (i + 1) n ref dut (ground (arith, e)))

same_csr_sound :
    (i n : ℕ) (ref dut : Cpu)
    → same_csr i n ref dut ≡ true
    → Agree (csr_pr_at ref) (csr_pr_at dut) i n
unfolding same_csr
same_csr_sound i zero ref dut e = λ j lo hi. absurd (omega arith)
same_csr_sound i (suc n) ref dut e =
    Agree-split (csr_pr_at ref) (csr_pr_at dut) i n (ground (arith, e))
      (same_csr_sound (i + 1) n ref dut (ground (arith, e)))

same_gpr_complete :
    (i n : ℕ) (ref dut : Cpu) → Agree (reg ref) (reg dut) i n → same_gpr i n ref dut ≡ true
unfolding same_gpr
same_gpr_complete i zero ref dut h = refl
same_gpr_complete i (suc n) ref dut h = ground (
  arith,
  h i (omega arith) (omega arith),
  same_gpr_complete (i + 1) n ref dut (λ j lo hi. h j (omega arith) (omega arith)),
)

same_csr_complete :
    (i n : ℕ) (ref dut : Cpu)
    → Agree (csr_pr_at ref) (csr_pr_at dut) i n
    → same_csr i n ref dut ≡ true
unfolding same_csr
same_csr_complete i zero ref dut h = refl
same_csr_complete i (suc n) ref dut h = ground (
  arith,
  h i (omega arith) (omega arith),
  same_csr_complete (i + 1) n ref dut (λ j lo hi. h j (omega arith) (omega arith)),
)

-- The comparison succeeds exactly where the 32 general registers, the pc and the first four control
-- registers of the reference and of the emulator are the same.
pub isa_difftest_checkregs-Agree :
    (ref dut : Cpu)
    → (isa_difftest_checkregs ref dut ≡ true) ↔ (
        Agree (reg ref) (reg dut) 0 32
        × (ref.pc ≡ dut.pc)
        × Agree (csr_pr_at ref) (csr_pr_at dut) 0 4)
unfolding isa_difftest_checkregs
isa_difftest_checkregs-Agree ref dut = (
  λ e. (
    same_gpr_sound 0 32 ref dut (ground (arith, e)),
    ground (arith, e),
    same_csr_sound 0 4 ref dut (ground (arith, e)),
  ),
  λ (g, p, c). ground (arith, same_gpr_complete 0 32 ref dut g, p, same_csr_complete 0 4 ref dut c),
)
