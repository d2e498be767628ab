-- ===== src/Cpu/Exec.antt =====
-- The main loop: nemu/src/cpu/cpu-exec.c for RISC-V, and `is_exit_status_bad` of
-- nemu/src/utils/state.c. CONFIG_ITRACE, CONFIG_FTRACE, CONFIG_DIFFTEST and CONFIG_WATCHPOINT are
-- not set, so that `trace_and_difftest` does nothing; statistics and messages are left out.
pub mod Invariant
pub mod Interrupt
pub mod Counters
use soc_fpga_bjtu_hwct.Common.{
  ℕ, zero, suc, ◌+◌, ◌-◌, ◌^◌, Bool, true, false, not, ◌&&◌, ◌||◌, List, bit_and, ◌==◌,
  if◌then◌else◌,
}
use soc_fpga_bjtu_hwct.Common.Outcome.{Outcome, ok, ◌>>=◌}
use soc_fpga_bjtu_hwct.Common.Word.{u64}
use soc_fpga_bjtu_hwct.Isa.State.{Cpu, RunState, NemuState, Bus, Machine, csr_pr_at}
use soc_fpga_bjtu_hwct.Isa.Exec.{Decode, isa_exec_once}
use soc_fpga_bjtu_hwct.Isa.Intr.{isa_raise_intr, isa_query_intr}
use soc_fpga_bjtu_hwct.Memory.Config.{Config}
use soc_fpga_bjtu_hwct.Memory.Paddr.{Memory, vaddr_bus}
use soc_fpga_bjtu_hwct.Device.Intr.{IntrLine, intr_empty}
use soc_fpga_bjtu_hwct.Device.Map.{IoMap}
use soc_fpga_bjtu_hwct.Device.Board.{Board, Callback, call_back}
use soc_fpga_bjtu_hwct.Cpu.Emulator.{Emulator, intr_line, with_line, with_state, device_update}

module _ {S : Type 0} (bus : Bus S) where
  unfoldable pub exec_once : ℕ → Decode → Machine S → Outcome (Decode × Machine S)
  unfolding isa_exec_once
  exec_once pc s m = do
    (s', m') ← isa_exec_once bus (record s { pc = pc; snpc = pc }) m
    ok (s', record m' { cpu = record (m'.cpu) { true_pc = m'.cpu.pc; pc = s'.dnpc } })

-- MIE, MTIE and MTIP are set.
unfoldable pub intr_enabled : Cpu → Bool
intr_enabled c =
    not (bit_and (csr_pr_at c 2) 0x8 == 0)
    && not (bit_and (csr_pr_at c 5) 0x80 == 0)
    && not (bit_and (csr_pr_at c 6) 0x8 == 0)

abbrev pub count_inst : Emulator → Emulator
count_inst e = record e { g_nr_guest_inst = u64 (e.g_nr_guest_inst + 1) }

abbrev pub tick_cycle : Emulator → Emulator
tick_cycle e = record e {
  machine = record (e.machine) {
    cpu = record (e.machine.cpu) { cycle = u64 (e.machine.cpu.cycle + 1) };
  };
}

abbrev pub is_running : RunState → Bool
is_running RunState.running = true
is_running _ = false

abbrev pub is_over : RunState → Bool
is_over RunState.end = true
is_over RunState.abort = true
is_over RunState.quit = true
is_over _ = false

abbrev pub stopped : RunState → RunState
stopped RunState.running = RunState.stop
stopped s = s

-- The interrupt with this number is taken in place of an instruction.
unfoldable pub enter_handler : ℕ → Emulator → Emulator
unfolding isa_raise_intr
enter_handler intr_no e =
    let (intr_addr, c) = isa_raise_intr intr_no e.machine.cpu.pc e.machine.cpu in
    count_inst (record e { machine = record (e.machine) { cpu = record c { pc = intr_addr } } })

module _ (cfg : Config) (maps : List (IoMap Callback)) where
  unfoldable pub emulator_bus : Bus (Memory Board)
  unfolding vaddr_bus call_back
  emulator_bus = vaddr_bus cfg call_back maps

  -- `IFDEF(CONFIG_DEVICE, device_update())`
  unfoldable pub update_if_device : Emulator → Emulator
  unfolding device_update
  update_if_device e = if cfg.device then device_update e else e

  unfoldable pub take_intr : ℕ → Emulator → Emulator
  unfolding enter_handler update_if_device
  take_intr intr_no e = update_if_device (enter_handler intr_no e)

  -- The instruction at the pc; the result says if the loop goes on.
  unfoldable pub execute_inst : Decode → Emulator → Outcome (Bool × Decode × Emulator)
  unfolding exec_once update_if_device emulator_bus
  execute_inst s e = do
    (s', m) ← exec_once emulator_bus e.machine.cpu.pc s e.machine
    let e' = count_inst (record e { machine = m })
    ok (if is_running m.nemu.state then (true, s', update_if_device e') else (false, s', e'))

  -- One round of the loop of `execute`.
  unfoldable pub execute_step : Decode → Emulator → Outcome (Bool × Decode × Emulator)
  unfolding execute_inst intr_enabled isa_query_intr take_intr
  execute_step s e0 =
      let e = tick_cycle e0 in
      if intr_enabled e.machine.cpu
      then (let (intr_no, line) = isa_query_intr (intr_line e) in
          if intr_no == intr_empty
          then execute_inst s (with_line e line)
          else ok (true, s, take_intr intr_no (with_line e line)))
      else execute_inst s e

  unfoldable pub execute : ℕ → Decode → Emulator → Outcome Emulator
  unfolding execute_step
  execute zero s e = ok e
  execute (suc n) s e = do
    (again, s', e') ← execute_step s e
    elim again [ true ↦ execute n s' e' | false ↦ ok e' ]

  -- `s` is what the uninitialised `Decode` holds.
  unfoldable pub cpu_exec : ℕ → Decode → Emulator → Outcome Emulator
  unfolding execute
  cpu_exec n s e =
      if is_over e.machine.nemu.state
      then ok e
      else (execute n s (with_state e RunState.running)
          >>= (λ e'. ok (with_state e' (stopped e'.machine.nemu.state))))

abbrev pub is_end : RunState → Bool
is_end RunState.end = true
is_end _ = false

abbrev pub is_quit : RunState → Bool
is_quit RunState.quit = true
is_quit _ = false

unfoldable pub is_exit_status_bad : NemuState → Bool
is_exit_status_bad n = not (is_end n.state && n.halt_ret == 0 || is_quit n.state)
