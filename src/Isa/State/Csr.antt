-- ===== src/Isa/State/Csr.antt =====
-- A control register reads as it was last written: `CSR_read` and `CSR_write` of
-- nemu/src/isa/riscv32/inst.c.
use soc_fpga_bjtu_hwct.Common.{
  ℕ, ◌<◌, ◌≡◌, ◌≢◌, refl, sym, ◌∙◌, arith, Bool, true, false, Option, none, some, length,
  get_or-set_self, get_or-set_ne, ◌==◌, if◌then◌else◌, if_cases, ==_iff, ap, ◌&&◌, ◌⊎◌, inl, inr,
}
use soc_fpga_bjtu_hwct.Isa.State.{
  Cpu, csr_pr_at, set_csr_pr, mtvec_csr, mepc_csr, mstatus_csr, mcause_csr, mscratch_csr, mie_csr,
  mip_csr, mtval_csr, csr_read, csr_write,
}

-- The place of a register that can be written.
unfoldable pub csr_slot : ℕ → Option ℕ
csr_slot code =
    if code == mtvec_csr
    then some 0
    else if code == mepc_csr
    then some 1
    else if code == mstatus_csr
    then some 2
    else if code == mcause_csr
    then some 3
    else if code == mscratch_csr
    then some 4
    else if code == mie_csr
    then some 5
    else if code == mip_csr
    then some 6
    else if code == mtval_csr
    then some 7
    else none

csr_slot-lt : (code i : ℕ) → csr_slot code ≡ some i → i < 8
unfolding csr_slot
csr_slot-lt code i e = ground (arith, e)

csr_slot_injective :
    (code code' i : ℕ) → csr_slot code ≡ some i → csr_slot code' ≡ some i → code ≡ code'
unfolding csr_slot
csr_slot_injective code code' i e e' = ground (arith, e, e')

csr_write-some :
    (c : Cpu) (code i v : ℕ) → csr_slot code ≡ some i → csr_write c code v ≡ set_csr_pr c i v
unfolding csr_slot csr_write
csr_write-some c code i v e = ground (arith, e)

csr_write-none : (c : Cpu) (code v : ℕ) → csr_slot code ≡ none → csr_write c code v ≡ c
unfolding csr_slot csr_write
csr_write-none c code v e = ground (arith, e)

csr_read-some : (c : Cpu) (code i : ℕ) → csr_slot code ≡ some i → csr_read c code ≡ csr_pr_at c i
unfolding csr_slot csr_read
csr_read-some c code i e = ground (arith, e)

csr_read-none :
    (c : Cpu) (code i v : ℕ)
    → csr_slot code ≡ none
    → csr_read (set_csr_pr c i v) code ≡ csr_read c code
unfolding csr_slot csr_read
csr_read-none c code i v e = ground (arith, e)

Option-cases : (o : Option ℕ) → (o ≡ none) ⊎ ((i : ℕ) × (o ≡ some i))
Option-cases none = inl refl
Option-cases (some i) = inr (i, refl)

unfoldable pub is_writable : ℕ → Bool
unfolding csr_slot
is_writable code = elim (csr_slot code) [ none ↦ false | some _ ↦ true ]

is_writable-some : (code i : ℕ) → csr_slot code ≡ some i → is_writable code ≡ true
unfolding is_writable
is_writable-some code i e = rw (e, is_writable) refl

is_writable-none : (code : ℕ) → csr_slot code ≡ none → is_writable code ≡ false
unfolding is_writable
is_writable-none code e = rw (e, is_writable) refl

different : (a b : ℕ) → (a == b) ≡ false → a ≢ b
different a b h = ground (arith, h)

read_slot :
    (c : Cpu) (code code' i v : ℕ)
    → length c.csr_pr ≡ 12
    → csr_slot code ≡ some i
    → csr_read (set_csr_pr c i v) code' ≡ (if code == code' then v else csr_read c code')
read_slot c code code' i v len e = elim (Option-cases (csr_slot code')) [
  | inl none' ↦
      if_cases (λ x. csr_read (set_csr_pr c i v) code' ≡ x) (code == code')
        (λ same. absurd (cc (e, none', ap csr_slot ((==_iff code code').0 same))))
        (λ _. csr_read-none c code' i v none')
  | inr (j, some') ↦
      if_cases (λ x. csr_read (set_csr_pr c i v) code' ≡ x) (code == code')
        (λ same.
          csr_read-some (set_csr_pr c i v) code' i
            (sym (ap csr_slot ((==_iff code code').0 same)) ∙ e)
          ∙ get_or-set_self c.csr_pr i v 0 (omega (arith, csr_slot-lt code i e, len)))
        (λ other.
          csr_read-some (set_csr_pr c i v) code' j some'
          ∙ get_or-set_ne c.csr_pr i j v 0 (λ (clash : i ≡ j).
            different code code' other
              (csr_slot_injective code code' i e (some' ∙ sym (ap some clash))))
          ∙ sym (csr_read-some c code' j some'))
]

-- With an array of its length, a read after a write gives the value that was written where the
-- number is that of a register that can be written and the same, and else what it gave before; and
-- no write changes the general registers, the pc or the cycle counter.
pub csr_read-csr_write :
    (c : Cpu) (code code' v : ℕ)
    → length c.csr_pr ≡ 12
    → (csr_read (csr_write c code v) code'
        ≡ (if is_writable code && (code == code') then v else csr_read c code'))
      × ((csr_write c code v).gpr ≡ c.gpr)
      × ((csr_write c code v).pc ≡ c.pc)
      × ((csr_write c code v).cycle ≡ c.cycle)
csr_read-csr_write c code code' v len = elim (Option-cases (csr_slot code)) [
  | inl closed ↦
      rw (csr_write-none c code v closed, is_writable-none code closed) (refl, refl, refl, refl)
  | inr (i, open_slot) ↦
      rw (csr_write-some c code i v open_slot, is_writable-some code i open_slot)
        (read_slot c code code' i v len open_slot, refl, refl, refl)
]

pub csr_write-cycle : (c : Cpu) (code v : ℕ) → (csr_write c code v).cycle ≡ c.cycle
csr_write-cycle c code v = elim (Option-cases (csr_slot code)) [
  | inl closed ↦ ap Cpu.cycle (csr_write-none c code v closed)
  | inr (i, open_slot) ↦ ap Cpu.cycle (csr_write-some c code i v open_slot)
]
