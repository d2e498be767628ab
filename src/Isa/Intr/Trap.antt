-- ===== src/Isa/Intr/Trap.antt =====
-- What the guest's handler finds after an interrupt (nemu/src/isa/riscv32/system/intr.c), and what
-- `mret` (nemu/src/isa/riscv32/inst.c) does about it.
use soc_fpga_bjtu_hwct.Common.{
  ℕ, zero, suc, ◌+◌, ◌-◌, ◌*◌, ◌/◌, ◌%◌, ◌^◌, ◌≡◌, refl, ap, arith, bit_and, bit_or, get_or, set,
  length, length-set, get_or-set_self, get_or-set_ne, List, ◌∙◌, ◌<◌,
}
use soc_fpga_bjtu_hwct.Common.Word.{IsWord, not32}
use soc_fpga_bjtu_hwct.Common.Bits.{
  bit_and_mask, bit_and_fields, bit_or_split, bit_or-zero, bit_and-zero, bit_or-zero_left,
}
use soc_fpga_bjtu_hwct.Isa.State.{
  Cpu, Bus, Machine, csr_pr_at, csr_read, csr_write, mtvec_csr, mepc_csr, mcause_csr, mstatus_csr,
}
use soc_fpga_bjtu_hwct.Isa.State.Valid.{HasWords, csr_pr_at-IsWord}
use soc_fpga_bjtu_hwct.Isa.Exec.{Decode, exec_mret, exec_inst}
use soc_fpga_bjtu_hwct.Isa.Inst.{mret}
use soc_fpga_bjtu_hwct.Isa.Operand.{Operands}
use soc_fpga_bjtu_hwct.Common.Outcome.{ok}
use soc_fpga_bjtu_hwct.Isa.Intr.{trap_mstatus, isa_raise_intr}

-- Bit `n` of a word.
abbrev pub bit_at : ℕ → ℕ → ℕ
bit_at n x = x / 2 ^ n % 2

bit_or_one : (b : ℕ) → b < 2 → bit_or b 1 ≡ 1
bit_or_one zero h = refl
bit_or_one (suc zero) h = refl
bit_or_one (suc (suc b)) h = absurd (omega arith)

bit_or_three : (b : ℕ) → b < 4 → bit_or b 3 ≡ 3
bit_or_three zero h = refl
bit_or_three (suc zero) h = refl
bit_or_three (suc (suc zero)) h = refl
bit_or_three (suc (suc (suc zero))) h = refl
bit_or_three (suc (suc (suc (suc b)))) h = absurd (omega arith)

clear_mie : (m : ℕ) → IsWord m → bit_and m (not32 8) ≡ m / 2 ^ 4 * 2 ^ 4 + m % 2 ^ 3
clear_mie m h = ground (
  arith,
  bit_and_fields 3 (m / 2 ^ 3) (m % 2 ^ 3) (2 ^ 29 - 2) 7 (omega arith) (omega arith),
  bit_and_mask 3 (m % 2 ^ 3),
  bit_and_fields 1 (m / 2 ^ 4) (m / 2 ^ 3 % 2) (2 ^ 28 - 1) 0 (omega arith) (omega arith),
  bit_and_mask 28 (m / 2 ^ 4),
  bit_and-zero (m / 2 ^ 3 % 2),
)

set_mpie : (x : ℕ) → bit_or x 0x80 ≡ x / 2 ^ 8 * 2 ^ 8 + 2 ^ 7 + x % 2 ^ 7
set_mpie x = ground (
  arith,
  bit_or_split 7 (x / 2 ^ 7) (x % 2 ^ 7) 1 0 (omega arith) (omega arith),
  bit_or-zero (x % 2 ^ 7),
  bit_or_split 1 (x / 2 ^ 8) (x / 2 ^ 7 % 2) 0 1 (omega arith) (omega arith),
  bit_or-zero (x / 2 ^ 8),
  bit_or_one (x / 2 ^ 7 % 2) (omega arith),
)

set_mpp : (x : ℕ) → bit_or x 0x1800 ≡ x / 2 ^ 13 * 2 ^ 13 + 3 * 2 ^ 11 + x % 2 ^ 11
set_mpp x = ground (
  arith,
  bit_or_split 11 (x / 2 ^ 11) (x % 2 ^ 11) 3 0 (omega arith) (omega arith),
  bit_or-zero (x % 2 ^ 11),
  bit_or_split 2 (x / 2 ^ 13) (x / 2 ^ 11 % 4) 0 3 (omega arith) (omega arith),
  bit_or-zero (x / 2 ^ 13),
  bit_or_three (x / 2 ^ 11 % 4) (omega arith),
)

interrupt_cause :
    (number : ℕ) → number < 128 → bit_or (2 ^ 31) (bit_and number 0x7f) ≡ 2 ^ 31 + number
interrupt_cause number h = ground (
  arith,
  bit_and_mask 7 number,
  bit_or_split 31 1 0 0 number (omega arith) (omega arith),
  bit_or-zero 1,
  bit_or-zero_left number,
)

trap_mstatus_bits :
    (m : ℕ)
    → IsWord m
    → (bit_at 3 (trap_mstatus m) ≡ 0)
      × (bit_at 7 (trap_mstatus m) ≡ 1)
      × (trap_mstatus m / 2 ^ 11 % 4 ≡ 3)
      × (trap_mstatus m % 2 ^ 3 ≡ m % 2 ^ 3)
      × (trap_mstatus m / 2 ^ 13 ≡ m / 2 ^ 13)
trap_mstatus_bits m h =
    let x = bit_and m (not32 8) in
    let e1 = clear_mie m h in
    let e2 = set_mpie x in
    let e3 = set_mpp (bit_or x 0x80) in
    (ground arith, ground arith, ground arith, ground arith, ground arith)

raised_length :
    (l : List ℕ) (epc cause status : ℕ)
    → length l ≡ 12
    → 2 < length (set (set (set l 1 epc) 3 cause) 2 status)
raised_length l epc cause status len = omega (
  arith,
  len,
  length-set l 1 epc,
  length-set (set l 1 epc) 3 cause,
  length-set (set (set l 1 epc) 3 cause) 2 status,
)

raised_csr :
    (l : List ℕ) (epc cause status : ℕ)
    → length l ≡ 12
    → (get_or (set (set (set l 1 epc) 3 cause) 2 status) 1 0 ≡ epc)
      × (get_or (set (set (set l 1 epc) 3 cause) 2 status) 3 0 ≡ cause)
      × (get_or (set (set (set l 1 epc) 3 cause) 2 status) 2 0 ≡ status)
raised_csr l epc cause status len =
    let l1 = set l 1 epc in
    let l2 = set l1 3 cause in
    let n1 : length l1 ≡ 12 = length-set l 1 epc ∙ len in
    let n2 : length l2 ≡ 12 = length-set l1 3 cause ∙ n1 in
    (
      get_or-set_ne l2 2 1 status 0 (omega arith)
          ∙ get_or-set_ne l1 3 1 cause 0 (omega arith)
          ∙ get_or-set_self l 1 epc 0 (omega arith),
      get_or-set_ne l2 2 3 status 0 (omega arith) ∙ get_or-set_self l1 3 cause 0 (omega arith),
      get_or-set_self l2 2 status 0 (omega arith),
    )

-- An interrupt below 128, on registers that hold words: the pc becomes `mtvec`, `mepc` the old pc,
-- `mcause` the number with bit 31 set; in `mstatus` MIE is cleared, MPIE set, MPP three, and the
-- bits below MIE and above MPP stay; the general registers stay.
pub isa_raise_intr-state :
    (number epc : ℕ) (c : Cpu)
    → HasWords c
    → number < 128
    → let (target, c') = isa_raise_intr number epc c in
      let status = csr_read c' mstatus_csr in
      (target ≡ csr_read c mtvec_csr)
      × (csr_read c' mepc_csr ≡ epc)
      × (csr_read c' mcause_csr ≡ 2 ^ 31 + number)
      × (bit_at 3 status ≡ 0)
      × (bit_at 7 status ≡ 1)
      × (status / 2 ^ 11 % 4 ≡ 3)
      × (status % 2 ^ 3 ≡ csr_read c mstatus_csr % 2 ^ 3)
      × (status / 2 ^ 13 ≡ csr_read c mstatus_csr / 2 ^ 13)
      × (c'.gpr ≡ c.gpr)
unfolding isa_raise_intr csr_read
isa_raise_intr-state number epc c w small =
    let m = csr_pr_at c 2 in
    let cause = bit_or (2 ^ 31) (bit_and number 0x7f) in
    let (e1, e3, e2) = raised_csr c.csr_pr epc cause (trap_mstatus m) w.csr_length in
    let (mie, mpie, mpp, low, high) = trap_mstatus_bits m (csr_pr_at-IsWord w 2) in
    (
      refl,
      e1,
      e3 ∙ interrupt_cause number small,
      rw e2 mie,
      rw e2 mpie,
      rw e2 mpp,
      rw e2 low,
      rw e2 high,
      refl,
    )

-- `mret` right after an interrupt takes the guest back to the pc of the interrupt, with interrupts
-- enabled and the general registers as they were.
pub mret-isa_raise_intr :
    {S : Type 0} (bus : Bus S) (number epc : ℕ) (o : Operands) (s : Decode) (m : Machine S)
    → HasWords m.cpu
    → (c' : Cpu) × (exec_inst bus mret o s (record m { cpu = (isa_raise_intr number epc m.cpu).1 })
        ≡ ok (record s { dnpc = epc }, record m { cpu = c' }))
      × (bit_at 3 (csr_read c' mstatus_csr) ≡ 1)
      × (c'.gpr ≡ m.cpu.gpr)
unfolding exec_inst isa_raise_intr csr_read exec_mret csr_write
mret-isa_raise_intr bus number epc o s m w =
    let mst = trap_mstatus (csr_pr_at m.cpu 2) in
    let cause = bit_or (2 ^ 31) (bit_and number 0x7f) in
    let l = set (set (set m.cpu.csr_pr 1 epc) 3 cause) 2 mst in
    let (e1, _, _) = raised_csr m.cpu.csr_pr epc cause mst w.csr_length in
    let status : get_or (set l 2 0x1888) 2 0 ≡ 0x1888 =
      get_or-set_self l 2 0x1888 0 (raised_length m.cpu.csr_pr epc cause mst w.csr_length) in
    (
      exec_mret ((isa_raise_intr number epc m.cpu).1),
      ap
          (λ a. ok (
            record s { dnpc = a },
            record m { cpu = exec_mret ((isa_raise_intr number epc m.cpu).1) },
          ))
          e1,
      rw status refl,
      refl,
    )
