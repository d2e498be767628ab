-- ===== src/Cpu/Exec/Interrupt.antt =====
-- How an interrupt is taken: the head of the loop of `execute` in nemu/src/cpu/cpu-exec.c.
use soc_fpga_bjtu_hwct.Common.{
  ℕ, ◌+◌, ◌/◌, ◌^◌, ◌≡◌, refl, arith, true, false, List, bit_and, get_or-set_ne,
}
use soc_fpga_bjtu_hwct.Common.Outcome.{ok}
use soc_fpga_bjtu_hwct.Common.Word.{not32, u64}
use soc_fpga_bjtu_hwct.Common.Bits.{bit_and_shifted, bit_and_mask, bit_and-le}
use soc_fpga_bjtu_hwct.Isa.State.{
  Cpu, csr_pr_at, set_csr_pr, csr_read, mtvec_csr, mepc_csr, mcause_csr,
}
use soc_fpga_bjtu_hwct.Isa.State.Valid.{HasWords, set_csr_pr-HasWords, csr_pr_at-IsWord}
use soc_fpga_bjtu_hwct.Isa.Exec.{Decode}
use soc_fpga_bjtu_hwct.Isa.Intr.{isa_raise_intr, isa_query_intr}
use soc_fpga_bjtu_hwct.Isa.Intr.Trap.{bit_at, isa_raise_intr-state}
use soc_fpga_bjtu_hwct.Memory.Config.{Config}
use soc_fpga_bjtu_hwct.Device.Intr.{IntrLine, dev_query_intr}
use soc_fpga_bjtu_hwct.Device.Map.{IoMap}
use soc_fpga_bjtu_hwct.Device.Board.{Callback}
use soc_fpga_bjtu_hwct.Cpu.Emulator.{Emulator, intr_line, with_line}
use soc_fpga_bjtu_hwct.Cpu.Exec.{
  intr_enabled, tick_cycle, enter_handler, take_intr, update_if_device, execute_step,
}

-- The line after the query, and the emulator with the interrupt taken.
abbrev answered : Emulator → IntrLine
answered e =
    let c = (tick_cycle e).machine.cpu in
    record { cpu = set_csr_pr c 6 (bit_and (csr_pr_at c 6) (not32 8)); timer_intr_pending = false }

abbrev interrupted : Emulator → Emulator
interrupted e = enter_handler 3 (with_line (tick_cycle e) (answered e))

answered-HasWords : (e : Emulator) → HasWords e.machine.cpu → HasWords ((answered e).cpu)
answered-HasWords e w =
    let w1 : HasWords ((tick_cycle e).machine.cpu) = record {
      gpr_length = w.gpr_length;
      gpr_words = w.gpr_words;
      csr_length = w.csr_length;
      csr_words = w.csr_words;
    } in
    let mip = csr_pr_at e.machine.cpu 6 in
    set_csr_pr-HasWords w1 6 (bit_and mip (not32 8))
      (omega (arith, bit_and-le mip (not32 8), csr_pr_at-IsWord w 6))

query-answered :
    (e : Emulator)
    → e.timer_intr_pending ≡ true
    → isa_query_intr (intr_line (tick_cycle e)) ≡ (3, answered e)
unfolding isa_query_intr dev_query_intr
query-answered e pending = rw pending refl

mie_clear : (status : ℕ) → bit_at 3 status ≡ 0 → bit_and status 8 ≡ 0
mie_clear status off =
    omega (arith, bit_and_shifted 3 status 1, bit_and_mask 1 (status / 2 ^ 3), off)

intr_enabled-off : (c : Cpu) → bit_at 3 (csr_pr_at c 2) ≡ 0 → intr_enabled c ≡ false
unfolding intr_enabled
intr_enabled-off c off = rw (mie_clear (csr_pr_at c 2) off) refl

-- A round of the loop on registers that hold words, where the machine timer interrupt is enabled
-- and pending in the control registers, and the device's flag is set: no instruction is executed;
-- before the devices are updated the pc is `mtvec`, `mepc` the old pc, `mcause` 0x80000003, the
-- flag is cleared, memory and the general registers are as they were, one more instruction is
-- counted, and the interrupt is not enabled any more.
pub execute_step-interrupt :
    (cfg : Config) (maps : List (IoMap Callback)) (s : Decode) (e : Emulator)
    → HasWords e.machine.cpu
    → intr_enabled e.machine.cpu ≡ true
    → e.timer_intr_pending ≡ true
    → (e' : Emulator) × (execute_step cfg maps s e ≡ ok (true, s, update_if_device cfg maps e'))
      × (e'.machine.cpu.pc ≡ csr_read e.machine.cpu mtvec_csr)
      × (csr_read e'.machine.cpu mepc_csr ≡ e.machine.cpu.pc)
      × (csr_read e'.machine.cpu mcause_csr ≡ 0x80000003)
      × (e'.machine.cpu.gpr ≡ e.machine.cpu.gpr)
      × (e'.machine.mem ≡ e.machine.mem)
      × (e'.timer_intr_pending ≡ false)
      × (e'.g_nr_guest_inst ≡ u64 (e.g_nr_guest_inst + 1))
      × (intr_enabled e'.machine.cpu ≡ false)
unfolding execute_step take_intr enter_handler isa_raise_intr csr_read
execute_step-interrupt cfg maps s e w enabled pending =
    let w2 = answered-HasWords e w in
    let (target, mepc, mcause, mie, _, _, _, _, same) =
      isa_raise_intr-state 3 e.machine.cpu.pc ((answered e).cpu) w2 (omega arith) in
    (
      interrupted e,
      rw (enabled, query-answered e pending) refl,
      get_or-set_ne e.machine.cpu.csr_pr 6 0 _ 0 (omega arith),
      mepc,
      mcause,
      same,
      refl,
      refl,
      refl,
      intr_enabled-off ((interrupted e).machine.cpu) mie,
    )
