-- ===== src/Sdb/Run.antt =====
-- The main loop with CONFIG_WATCHPOINT set: `trace_and_difftest` of nemu/src/cpu/cpu-exec.c checks the
-- watchpoints after each instruction.
pub mod Plain
pub mod Invariant
use soc_fpga_bjtu_hwct.Common.{ℕ, zero, suc, ◌+◌, Bool, true, false, List, ◌==◌, if◌then◌else◌}
use soc_fpga_bjtu_hwct.Common.Outcome.{Outcome, ok, ◌>>=◌}
use soc_fpga_bjtu_hwct.Isa.State.{Cpu, RunState}
use soc_fpga_bjtu_hwct.Isa.Exec.{Decode}
use soc_fpga_bjtu_hwct.Isa.Intr.{isa_query_intr}
use soc_fpga_bjtu_hwct.Memory.Config.{Config}
use soc_fpga_bjtu_hwct.Memory.Paddr.{Memory, paddr_read}
use soc_fpga_bjtu_hwct.Device.Intr.{intr_empty}
use soc_fpga_bjtu_hwct.Device.Map.{IoMap}
use soc_fpga_bjtu_hwct.Device.Board.{Board, Callback, call_back}
use soc_fpga_bjtu_hwct.Cpu.Emulator.{Emulator, intr_line, with_line, with_state}
use soc_fpga_bjtu_hwct.Cpu.Exec.{
  exec_once, intr_enabled, count_inst, tick_cycle, is_running, is_over, stopped, emulator_bus,
  update_if_device, take_intr,
}
use soc_fpga_bjtu_hwct.Sdb.Token.{Tokens}
use soc_fpga_bjtu_hwct.Sdb.Expr.{ExprResult, expr}
use soc_fpga_bjtu_hwct.Sdb.Watch.{WpPool, check_watch_points}

-- The emulator with the debugger's own variables.
pub record Debugger : Type 0 where
  pub emulator : Emulator
  pub tokens : Tokens
  pub wp : WpPool

abbrev pub with_emulator : Debugger → Emulator → Debugger
with_emulator d e = record d { emulator = e }

-- What the evaluation of expressions changes: the tokens, and the memory's devices.
abbrev pub Evaluation : Type 0
Evaluation = Tokens × Memory Board

abbrev pub with_evaluation : Debugger → Evaluation → Debugger
with_evaluation d s = record d {
  tokens = s.0;
  emulator = record (d.emulator) { machine = record (d.emulator.machine) { mem = s.1 } };
}

abbrev pub evaluation : Debugger → Evaluation
evaluation d = (d.tokens, d.emulator.machine.mem)

-- The state after a check with this result.
abbrev pub state_after : ℕ → RunState → RunState
state_after result state = if result == 0 then RunState.stop else state

module _ (cfg : Config) (maps : List (IoMap Callback)) where
  -- `paddr_read(addr, 4)`
  unfoldable pub read_word : ℕ → Memory Board → Outcome (ℕ × Memory Board)
  unfolding paddr_read call_back
  read_word addr m = paddr_read cfg call_back maps addr 4 m

  -- `expr`, for a watchpoint.
  unfoldable pub watch_expr : Cpu → List ℕ → Evaluation → Outcome (ℕ × Evaluation)
  unfolding expr read_word
  watch_expr c args s = do r ← expr read_word c args s.0 s.1; ok (r.value, (r.left, r.state))

  unfoldable pub trace_and_difftest : Debugger → Outcome Debugger
  unfolding check_watch_points watch_expr
  trace_and_difftest d = do
    (result, w, s) ← check_watch_points (watch_expr d.emulator.machine.cpu) d.wp (evaluation d)
    let d' = with_evaluation (record d { wp = w }) s
    ok (
        with_emulator d'
          (with_state d'.emulator (state_after result d.emulator.machine.nemu.state)))

  -- What follows an instruction: the test of the state, and the devices.
  unfoldable pub after_inst : Decode → Debugger → Bool × Decode × Debugger
  unfolding update_if_device
  after_inst s d =
      if is_running d.emulator.machine.nemu.state
      then (true, s, with_emulator d (update_if_device cfg maps d.emulator))
      else (false, s, d)

  unfoldable pub watched_inst : Decode → Debugger → Outcome (Bool × Decode × Debugger)
  unfolding exec_once emulator_bus trace_and_difftest after_inst
  watched_inst s d = do
    (s', m) ← exec_once (emulator_bus cfg maps) d.emulator.machine.cpu.pc s d.emulator.machine
    d' ← trace_and_difftest (with_emulator d (count_inst (record (d.emulator) { machine = m })))
    ok (after_inst s' d')

  -- One round of the loop of `execute`.
  unfoldable pub watched_step : Decode → Debugger → Outcome (Bool × Decode × Debugger)
  unfolding watched_inst intr_enabled isa_query_intr take_intr
  watched_step s d =
      let e = tick_cycle d.emulator in
      if intr_enabled e.machine.cpu
      then (let (intr_no, line) = isa_query_intr (intr_line e) in
          if intr_no == intr_empty
          then watched_inst s (with_emulator d (with_line e line))
          else ok (true, s, with_emulator d (take_intr cfg maps intr_no (with_line e line))))
      else watched_inst s (with_emulator d e)

  unfoldable pub watched_execute : ℕ → Decode → Debugger → Outcome Debugger
  unfolding watched_step
  watched_execute zero s d = ok d
  watched_execute (suc n) s d = do
    (again, s', d') ← watched_step s d
    elim again [ true ↦ watched_execute n s' d' | false ↦ ok d' ]

  unfoldable pub watched_cpu_exec : ℕ → Decode → Debugger → Outcome Debugger
  unfolding watched_execute
  watched_cpu_exec n s d =
      if is_over d.emulator.machine.nemu.state
      then ok d
      else (watched_execute n s (with_emulator d (with_state d.emulator RunState.running))
          >>= (λ d'.
              ok (
                with_emulator d'
                  (with_state d'.emulator (stopped d'.emulator.machine.nemu.state)))))
