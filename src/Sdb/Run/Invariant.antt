-- ===== src/Sdb/Run/Invariant.antt =====
-- The main loop of nemu/src/cpu/cpu-exec.c with watchpoints keeps the state of the emulator and of the
-- debugger well-formed.
use soc_fpga_bjtu_hwct.Common.{ℕ, zero, suc, Bool, true, false, List, ◌==◌, if_both}
use soc_fpga_bjtu_hwct.Common.Outcome.{ok, Ensures, Ensures-bind}
use soc_fpga_bjtu_hwct.Isa.State.{Cpu, RunState}
use soc_fpga_bjtu_hwct.Isa.Exec.{Decode}
use soc_fpga_bjtu_hwct.Isa.Intr.{isa_query_intr}
use soc_fpga_bjtu_hwct.Memory.Config.{Config}
use soc_fpga_bjtu_hwct.Memory.Paddr.Words.{vaddr_bus-IsWordBus}
use soc_fpga_bjtu_hwct.Device.Intr.{intr_empty}
use soc_fpga_bjtu_hwct.Device.Map.{IoMap}
use soc_fpga_bjtu_hwct.Device.Board.{Callback, call_back}
use soc_fpga_bjtu_hwct.Cpu.Emulator.{intr_line, with_line, with_state}
use soc_fpga_bjtu_hwct.Cpu.Exec.{
  exec_once, intr_enabled, count_inst, tick_cycle, is_running, is_over, emulator_bus,
}
use soc_fpga_bjtu_hwct.Cpu.Exec.Invariant.{
  IsSound, Sound, Answer, exec_once-IsSound, update_if_device-Sound, take_intr-Sound,
  dev_query_intr-IsSound, with_pc-IsSound,
}
use soc_fpga_bjtu_hwct.Sdb.Token.Scan.{IsTokens}
use soc_fpga_bjtu_hwct.Sdb.Expr.{expr}
use soc_fpga_bjtu_hwct.Sdb.Expr.Kept.{LeavesTokens, expr-IsTokens}
use soc_fpga_bjtu_hwct.Sdb.Watch.{check_watch_points}
use soc_fpga_bjtu_hwct.Sdb.Watch.Kept.{IsPool, Kept, check_watch_points-Kept}
use soc_fpga_bjtu_hwct.Sdb.Run.{
  Debugger, Evaluation, evaluation, with_emulator, read_word, watch_expr, trace_and_difftest,
  after_inst, watched_inst, watched_step, watched_execute, watched_cpu_exec,
}

-- The registers, the array of tokens and the pool of watchpoints are well-formed.
pub record IsWell (d : Debugger) : Type 0 where
  pub registers : IsSound d.emulator.machine.cpu
  pub tokens : IsTokens d.tokens
  pub pool : IsPool d.wp

abbrev pub HasTokens : Evaluation → Type 0
HasTokens s = IsTokens s.0

module _ (cfg : Config) (maps : List (IoMap Callback)) where
  pub watch_expr-HasTokens :
      (c : Cpu) (args : List ℕ) (s : Evaluation)
      → HasTokens s
      → Ensures (λ (r : ℕ × Evaluation). HasTokens r.1) (watch_expr cfg maps c args s)
  unfolding watch_expr
  watch_expr-HasTokens c args s h =
      Ensures-bind (LeavesTokens (read_word cfg maps) c) (λ (r : ℕ × Evaluation). HasTokens r.1)
        (expr (read_word cfg maps) c args s.0 s.1) _
        (expr-IsTokens (read_word cfg maps) c args s.0 s.1 h) (λ r h'. h')

  trace_and_difftest-IsWell :
      (d : Debugger) → IsWell d → Ensures IsWell (trace_and_difftest cfg maps d)
  unfolding trace_and_difftest
  trace_and_difftest-IsWell d v =
      let e = watch_expr cfg maps d.emulator.machine.cpu in
      let keeps = watch_expr-HasTokens d.emulator.machine.cpu in
      Ensures-bind (Kept e HasTokens keeps) IsWell (check_watch_points e d.wp (evaluation d)) _
        (check_watch_points-Kept e HasTokens keeps d.wp (evaluation d) v.pool v.tokens)
        (λ r h. record { registers = v.registers; tokens = h.1; pool = h.0 })

  abbrev Round : Bool × Decode × Debugger → Type 0
  Round r = IsWell r.2

  after_inst-IsWell : (s : Decode) (d : Debugger) → IsWell d → Round (after_inst cfg maps s d)
  unfolding after_inst
  after_inst-IsWell s d v =
      if_both Round (is_running d.emulator.machine.nemu.state)
        (record {
          registers = update_if_device-Sound cfg maps d.emulator v.registers;
          tokens = v.tokens;
          pool = v.pool;
        })
        v

  watched_inst-IsWell :
      (s : Decode) (d : Debugger) → IsWell d → Ensures Round (watched_inst cfg maps s d)
  unfolding watched_inst
  watched_inst-IsWell s d v =
      Ensures-bind Answer Round
        (exec_once (emulator_bus cfg maps) d.emulator.machine.cpu.pc s d.emulator.machine) _
        (exec_once-IsSound (emulator_bus cfg maps) (vaddr_bus-IsWordBus cfg call_back maps) s
          d.emulator.machine v.registers)
        (λ r h.
          Ensures-bind IsWell Round
            (trace_and_difftest cfg maps
              (with_emulator d (count_inst (record (d.emulator) { machine = r.1 }))))
            _
            (trace_and_difftest-IsWell _
              (record { registers = h; tokens = v.tokens; pool = v.pool }))
            (λ d' v'. after_inst-IsWell r.0 d' v'))

  watched_step-IsWell :
      (s : Decode) (d : Debugger) → IsWell d → Ensures Round (watched_step cfg maps s d)
  unfolding watched_step isa_query_intr
  watched_step-IsWell s d v =
      let e = tick_cycle d.emulator in
      let h1 : Sound e =
        with_pc-IsSound d.emulator.machine.cpu.pc _ _ (v.registers.0) (v.registers.1) in
      let h2 = dev_query_intr-IsSound (intr_line e) h1 in
      let r = isa_query_intr (intr_line e) in
      if_both (Ensures Round) (intr_enabled (e.machine.cpu))
        (if_both (Ensures Round) (r.0 == intr_empty)
          (watched_inst-IsWell s (with_emulator d (with_line e r.1))
            (record { registers = h2; tokens = v.tokens; pool = v.pool }))
          (record {
            registers = take_intr-Sound cfg maps r.0 (with_line e r.1) h2;
            tokens = v.tokens;
            pool = v.pool;
          }))
        (watched_inst-IsWell s (with_emulator d e)
          (record { registers = h1; tokens = v.tokens; pool = v.pool }))

  watched_execute-IsWell :
      (n : ℕ) (s : Decode) (d : Debugger)
      → IsWell d
      → Ensures IsWell (watched_execute cfg maps n s d)
  unfolding watched_execute
  watched_execute-IsWell zero s d v = v
  watched_execute-IsWell (suc n) s d v =
      Ensures-bind Round IsWell (watched_step cfg maps s d) _ (watched_step-IsWell s d v)
        (λ (again, s', d') v'.
          elim again
            as (λ b.
              Ensures IsWell (elim b [ true ↦ watched_execute cfg maps n s' d' | false ↦ ok d' ])) [
                | true ↦ watched_execute-IsWell n s' d' v'
                | false ↦ v'
              ])

  pub watched_cpu_exec-IsWell :
      (n : ℕ) (s : Decode) (d : Debugger)
      → IsWell d
      → Ensures IsWell (watched_cpu_exec cfg maps n s d)
  unfolding watched_cpu_exec
  watched_cpu_exec-IsWell n s d v =
      if_both (Ensures IsWell) (is_over d.emulator.machine.nemu.state) v (
        Ensures-bind IsWell IsWell
          (watched_execute cfg maps n s (with_emulator d (with_state d.emulator RunState.running)))
          _
          (watched_execute-IsWell n s _
            (record { registers = v.registers; tokens = v.tokens; pool = v.pool }))
          (λ d' v'. record { registers = v'.registers; tokens = v'.tokens; pool = v'.pool }))
