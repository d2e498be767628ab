-- ===== src/Sdb/Run/Plain.antt =====
-- Without watchpoints the debugger's main loop is that of nemu/src/cpu/cpu-exec.c with
-- CONFIG_WATCHPOINT not set.
use soc_fpga_bjtu_hwct.Common.{
  ℕ, zero, suc, ◌≡◌, ◌∙◌, refl, ap, Bool, true, false, none, List, ◌==◌, if◌then◌else◌, inl, inr,
  Bool-cases,
}
use soc_fpga_bjtu_hwct.Common.Outcome.{Outcome, ok, failed, fault, ◌>>=◌}
use soc_fpga_bjtu_hwct.Isa.State.{RunState, Machine}
use soc_fpga_bjtu_hwct.Isa.Exec.{Decode}
use soc_fpga_bjtu_hwct.Isa.Intr.{isa_query_intr}
use soc_fpga_bjtu_hwct.Memory.Config.{Config}
use soc_fpga_bjtu_hwct.Memory.Paddr.{Memory}
use soc_fpga_bjtu_hwct.Device.Intr.{intr_empty}
use soc_fpga_bjtu_hwct.Device.Map.{IoMap}
use soc_fpga_bjtu_hwct.Device.Board.{Board, Callback}
use soc_fpga_bjtu_hwct.Cpu.Emulator.{Emulator, intr_line, with_line, with_state}
use soc_fpga_bjtu_hwct.Cpu.Exec.{
  exec_once, intr_enabled, count_inst, tick_cycle, is_running, is_over, stopped, emulator_bus,
  update_if_device, take_intr, execute_inst, execute_step, execute, cpu_exec,
}
use soc_fpga_bjtu_hwct.Sdb.Watch.{WpPool, check_from, check_watch_points, nr_wp}
use soc_fpga_bjtu_hwct.Sdb.Run.{
  Debugger, Evaluation, evaluation, with_emulator, trace_and_difftest, after_inst, watched_inst,
  watched_step, watched_execute, watched_cpu_exec, watch_expr,
}

module _ (cfg : Config) (maps : List (IoMap Callback)) where
  check_plain :
      (expr : List ℕ → Evaluation → Outcome (ℕ × Evaluation)) (w : WpPool) (s : Evaluation)
      → w.head ≡ none
      → check_watch_points expr w s ≡ ok (1, w, s)
  unfolding check_watch_points check_from
  check_plain expr w s h = ap (λ p. check_from expr (suc nr_wp) p w s) h

  trace_plain : (d : Debugger) → d.wp.head ≡ none → trace_and_difftest cfg maps d ≡ ok d
  unfolding trace_and_difftest
  trace_plain d h =
      rw (check_plain (watch_expr cfg maps d.emulator.machine.cpu) d.wp (evaluation d) h)

  -- The result of the plain loop, with the debugger's variables beside it.
  abbrev beside : Debugger → Outcome (Bool × Decode × Emulator) → Outcome (Bool × Decode × Debugger)
  beside d m = m >>= (λ r. ok (r.0, r.1, with_emulator d r.2))

  abbrev plain_end : Debugger → Decode × Machine (Memory Board) → Bool × Decode × Emulator
  plain_end d (s, m) =
      let e = count_inst (record (d.emulator) { machine = m }) in
      if is_running m.nemu.state then (true, s, update_if_device cfg maps e) else (false, s, e)

  abbrev watched_end :
      Debugger → Decode × Machine (Memory Board) → Outcome (Bool × Decode × Debugger)
  watched_end d (s, m) =
      trace_and_difftest cfg maps
        (with_emulator d (count_inst (record (d.emulator) { machine = m })))
      >>= (λ d'. ok (after_inst cfg maps s d'))

  end_plain :
      (d : Debugger) (s : Decode) (m : Machine (Memory Board))
      → d.wp.head ≡ none
      → watched_end d (s, m) ≡ beside d (ok (plain_end d (s, m)))
  unfolding after_inst
  end_plain d s m h =
      ap (λ (o : Outcome Debugger). o >>= (λ d'. ok (after_inst cfg maps s d')))
        (trace_plain (with_emulator d (count_inst (record (d.emulator) { machine = m }))) h)
      ∙ elim (Bool-cases (is_running m.nemu.state)) [ inl runs ↦ rw runs | inr ends ↦ rw ends ]

  ends_plain :
      (d : Debugger) (o : Outcome (Decode × Machine (Memory Board)))
      → d.wp.head ≡ none
      → (o >>= watched_end d) ≡ beside d (o >>= (λ r. ok (plain_end d r)))
  ends_plain d (ok (s, m)) h = end_plain d s m h
  ends_plain d failed h = refl
  ends_plain d fault h = refl

  inst_plain :
      (s : Decode) (d : Debugger)
      → d.wp.head ≡ none
      → watched_inst cfg maps s d ≡ beside d (execute_inst cfg maps s d.emulator)
  unfolding watched_inst execute_inst after_inst
  inst_plain s d h =
      ends_plain d
        (exec_once (emulator_bus cfg maps) d.emulator.machine.cpu.pc s d.emulator.machine) h

  both_branches :
      (d : Debugger) (b1 b2 : Bool) (x y z : Outcome (Bool × Decode × Emulator))
      {x' y' z' : Outcome (Bool × Decode × Debugger)}
      → x' ≡ beside d x
      → y' ≡ beside d y
      → z' ≡ beside d z
      → (if b1 then (if b2 then x' else y') else z')
        ≡ beside d (if b1 then (if b2 then x else y) else z)
  both_branches d true true x y z hx hy hz = hx
  both_branches d true false x y z hx hy hz = hy
  both_branches d false b2 x y z hx hy hz = hz

  step_plain :
      (s : Decode) (d : Debugger)
      → d.wp.head ≡ none
      → watched_step cfg maps s d ≡ beside d (execute_step cfg maps s d.emulator)
  unfolding watched_step execute_step
  step_plain s d h =
      let e = tick_cycle d.emulator in
      let line = (isa_query_intr (intr_line e)).1 in
      both_branches d (intr_enabled e.machine.cpu) ((isa_query_intr (intr_line e)).0 == intr_empty)
        (execute_inst cfg maps s (with_line e line))
        (ok (true, s, take_intr cfg maps (isa_query_intr (intr_line e)).0 (with_line e line)))
        (execute_inst cfg maps s e) (inst_plain s (with_emulator d (with_line e line)) h) refl
        (inst_plain s (with_emulator d e) h)

  abbrev beside_end : Debugger → Outcome Emulator → Outcome Debugger
  beside_end d m = m >>= (λ e. ok (with_emulator d e))

  rounds_plain :
      (n : ℕ) (d : Debugger) (o : Outcome (Bool × Decode × Emulator))
      → ((s : Decode) (e : Emulator)
          → watched_execute cfg maps n s (with_emulator d e)
            ≡ beside_end d (execute cfg maps n s e))
      → (beside d o
          >>= (λ r. elim (r.0) [ true ↦ watched_execute cfg maps n r.1 r.2 | false ↦ ok r.2 ]))
        ≡ beside_end d
            (o >>= (λ r. elim (r.0) [ true ↦ execute cfg maps n r.1 r.2 | false ↦ ok r.2 ]))
  rounds_plain n d (ok (true, s, e)) rest = rest s e
  rounds_plain n d (ok (false, s, e)) rest = refl
  rounds_plain n d failed rest = refl
  rounds_plain n d fault rest = refl

  execute_plain :
      (n : ℕ) (s : Decode) (d : Debugger)
      → d.wp.head ≡ none
      → watched_execute cfg maps n s d ≡ beside_end d (execute cfg maps n s d.emulator)
  unfolding watched_execute execute
  execute_plain zero s d h = refl
  execute_plain (suc n) s d h =
      ap
        (λ o.
          o >>= (λ r. elim (r.0) [ true ↦ watched_execute cfg maps n r.1 r.2 | false ↦ ok r.2 ]))
        (step_plain s d h)
      ∙ rounds_plain n d (execute_step cfg maps s d.emulator)
          (λ s' e. execute_plain n s' (with_emulator d e) h)

  finish_plain :
      (d : Debugger) (o : Outcome Emulator)
      → (beside_end d o >>= (λ d'.
          ok (with_emulator d' (with_state d'.emulator (stopped d'.emulator.machine.nemu.state)))))
        ≡ beside_end d (o >>= (λ e. ok (with_state e (stopped e.machine.nemu.state))))
  finish_plain d (ok e) = refl
  finish_plain d failed = refl
  finish_plain d fault = refl

  over_plain :
      (d : Debugger) (b : Bool) (o : Outcome Emulator) {o' : Outcome Debugger}
      → o' ≡ beside_end d o
      → (if b then ok d else o') ≡ beside_end d (if b then ok d.emulator else o)
  over_plain d true o h = refl
  over_plain d false o h = h

  -- With no watchpoint set, `cpu_exec` with CONFIG_WATCHPOINT has the outcome of `cpu_exec` without
  -- it, for any number of rounds, and leaves the tokens and the pool of watchpoints as they were.
  pub watched_cpu_exec-cpu_exec :
      (n : ℕ) (s : Decode) (d : Debugger)
      → d.wp.head ≡ none
      → watched_cpu_exec cfg maps n s d
        ≡ (cpu_exec cfg maps n s d.emulator >>= (λ e. ok (with_emulator d e)))
  unfolding watched_cpu_exec cpu_exec
  watched_cpu_exec-cpu_exec n s d h =
      let start = with_emulator d (with_state d.emulator RunState.running) in
      over_plain d (is_over d.emulator.machine.nemu.state) _ (
        ap
          (λ o. o >>= (λ d'.
            ok
              (with_emulator d' (with_state d'.emulator (stopped d'.emulator.machine.nemu.state)))))
          (execute_plain n s start h)
        ∙ finish_plain d (execute cfg maps n s start.emulator))
