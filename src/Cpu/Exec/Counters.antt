-- ===== src/Cpu/Exec/Counters.antt =====
-- The two counters of nemu/src/cpu/cpu-exec.c, of cycles and of instructions, go together.
use soc_fpga_bjtu_hwct.Common.{
  ℕ, zero, suc, ◌+◌, ◌-◌, ◌/◌, ◌^◌, ◌≡◌, refl, arith, Bool, true, false, List, [], ◌∷◌, if_both,
  ◌==◌, ltb,
}
use soc_fpga_bjtu_hwct.Common.Outcome.{ok, Ensures, Ensures-bind, Ensures-elim}
use soc_fpga_bjtu_hwct.Common.Word.{u32, u64}
use soc_fpga_bjtu_hwct.Isa.State.{RunState, Bus, Machine}
use soc_fpga_bjtu_hwct.Isa.Exec.{Decode, isa_exec_once}
use soc_fpga_bjtu_hwct.Isa.Exec.Cycle.{CountsAfter, isa_exec_once-cycle}
use soc_fpga_bjtu_hwct.Isa.Intr.{isa_raise_intr, isa_query_intr}
use soc_fpga_bjtu_hwct.Memory.Config.{Config}
use soc_fpga_bjtu_hwct.Device.Intr.{IntrLine, dev_raise_intr, dev_query_intr, intr_empty}
use soc_fpga_bjtu_hwct.Device.Map.{IoMap}
use soc_fpga_bjtu_hwct.Device.HwdevTimer.{HwTimer, is_enabled, hwdev_timer_update}
use soc_fpga_bjtu_hwct.Device.Board.{Callback}
use soc_fpga_bjtu_hwct.Cpu.Emulator.{
  HostTick, Emulator, timer_hz, intr_line, with_line, with_state, update_devices, device_tick,
  device_update_on, device_update,
}
use soc_fpga_bjtu_hwct.Cpu.Exec.{
  exec_once, intr_enabled, count_inst, tick_cycle, is_running, is_over, enter_handler, emulator_bus,
  update_if_device, take_intr, execute_inst, execute_step, execute, cpu_exec,
}

dev_query_intr-cycle : (i : IntrLine) → (dev_query_intr i).1.cpu.cycle ≡ i.cpu.cycle
unfolding dev_query_intr
dev_query_intr-cycle i =
    if_both (λ (r : ℕ × IntrLine). r.1.cpu.cycle ≡ i.cpu.cycle) i.timer_intr_pending refl refl

hwdev_timer_update-cycle :
    (t : HwTimer) (i : IntrLine) → (hwdev_timer_update t i).1.cpu.cycle ≡ i.cpu.cycle
unfolding hwdev_timer_update dev_raise_intr
hwdev_timer_update-cycle t i =
    let P : HwTimer × IntrLine → Type 0 = λ r. r.1.cpu.cycle ≡ i.cpu.cycle in
    if_both P (is_enabled t.cr)
      (if_both P (ltb t.psc (u32 (t.clk_cnt + 1))) (if_both P (t.count == 0) refl refl) refl) refl

-- Both counters of the second are those of the first.
abbrev SameCounters : Emulator → Emulator → Type 0
SameCounters e e' =
    (e'.machine.cpu.cycle ≡ e.machine.cpu.cycle) × (e'.g_nr_guest_inst ≡ e.g_nr_guest_inst)

update_devices-SameCounters : (e : Emulator) → SameCounters e (update_devices e)
unfolding update_devices
update_devices-SameCounters e =
    (hwdev_timer_update-cycle e.machine.mem.io.dev.timer (intr_line e), refl)

device_tick-SameCounters : (t : HostTick) (e : Emulator) → SameCounters e (device_tick t e)
unfolding device_tick
device_tick-SameCounters t e =
    let h = update_devices-SameCounters (record e { last = t.now }) in
    if_both (SameCounters e) (ltb (u64 (t.now + 2 ^ 64 - e.last)) (1000000 / timer_hz)) (refl, refl)
      (if_both (SameCounters e) t.sdl_quit h h)

device_update_on-SameCounters :
    (host : List HostTick) (e : Emulator) → SameCounters e (device_update_on host e)
unfolding device_update_on
device_update_on-SameCounters [] e = (refl, refl)
device_update_on-SameCounters (t ∷ host) e = device_tick-SameCounters t (record e { host = host })

exec_once-cycle :
    {S : Type 0} (bus : Bus S) (cycle pc : ℕ) (s : Decode) (m : Machine S)
    → m.cpu.cycle ≡ cycle
    → Ensures (CountsAfter bus cycle) (exec_once bus pc s m)
unfolding exec_once
exec_once-cycle bus cycle pc s m h =
    let s1 = record s { pc = pc; snpc = pc } in
    Ensures-bind (CountsAfter bus cycle) (CountsAfter bus cycle) (isa_exec_once bus s1 m) _
      (isa_exec_once-cycle bus cycle s1 m h) (λ r h'. h')

-- Since the counters were `cycle` and `inst`, as many cycles as instructions were counted; and one
-- cycle more.
abbrev pub InStep : ℕ → ℕ → Emulator → Type 0
InStep cycle inst e = u64 (e.machine.cpu.cycle + inst) ≡ u64 (cycle + e.g_nr_guest_inst)

abbrev Ahead : ℕ → ℕ → Emulator → Type 0
Ahead cycle inst e = u64 (e.machine.cpu.cycle + inst) ≡ u64 (cycle + e.g_nr_guest_inst + 1)

module _ (cfg : Config) (maps : List (IoMap Callback)) (cycle inst : ℕ) where
  SameCounters-InStep :
      (e e' : Emulator) → SameCounters e e' → InStep cycle inst e → InStep cycle inst e'
  SameCounters-InStep e e' same h = omega (arith, same.0, same.1, h)

  update_if_device-InStep :
      (e : Emulator) → InStep cycle inst e → InStep cycle inst (update_if_device cfg maps e)
  unfolding update_if_device device_update
  update_if_device-InStep e h =
      if_both (InStep cycle inst) cfg.device
        (SameCounters-InStep e (device_update_on e.host e) (device_update_on-SameCounters e.host e)
          h)
        h

  take_intr-InStep :
      (number : ℕ) (e : Emulator)
      → Ahead cycle inst e
      → InStep cycle inst (take_intr cfg maps number e)
  unfolding take_intr enter_handler isa_raise_intr
  take_intr-InStep number e h = update_if_device-InStep (enter_handler number e) (omega (arith, h))

  abbrev Round : Bool × Decode × Emulator → Type 0
  Round r = InStep cycle inst (r.2)

  execute_inst-InStep :
      (s : Decode) (e : Emulator) → Ahead cycle inst e → Ensures Round (execute_inst cfg maps s e)
  unfolding execute_inst
  execute_inst-InStep s e h =
      let bus = emulator_bus cfg maps in
      let now = e.machine.cpu.cycle in
      let after = exec_once-cycle bus now e.machine.cpu.pc s e.machine refl in
      Ensures-bind (CountsAfter bus now) Round (exec_once bus e.machine.cpu.pc s e.machine) _ after
        (λ (s', m) same.
          let e' = count_inst (record e { machine = m }) in
          let h' : InStep cycle inst e' = omega (arith, h, same) in
          if_both Round (is_running m.nemu.state) (update_if_device-InStep e' h') h')

  execute_step-InStep :
      (s : Decode) (e : Emulator) → InStep cycle inst e → Ensures Round (execute_step cfg maps s e)
  unfolding execute_step isa_query_intr
  execute_step-InStep s e h =
      let e1 = tick_cycle e in
      let h1 : Ahead cycle inst e1 = omega (arith, h) in
      let (number, line) = isa_query_intr (intr_line e1) in
      let h2 : Ahead cycle inst (with_line e1 line) =
        omega (arith, dev_query_intr-cycle (intr_line e1), h1) in
      if_both (Ensures Round) (intr_enabled (e1.machine.cpu))
        (if_both (Ensures Round) (number == intr_empty)
          (execute_inst-InStep s (with_line e1 line) h2)
          (take_intr-InStep number (with_line e1 line) h2))
        (execute_inst-InStep s e1 h1)

  execute-InStep :
      (n : ℕ) (s : Decode) (e : Emulator)
      → InStep cycle inst e
      → Ensures (InStep cycle inst) (execute cfg maps n s e)
  unfolding execute
  execute-InStep zero s e h = h
  execute-InStep (suc n) s e h =
      Ensures-bind Round (InStep cycle inst) (execute_step cfg maps s e) _
        (execute_step-InStep s e h)
        (λ (again, s', e') h'.
          elim again
            as (λ b.
              Ensures (InStep cycle inst)
                (elim b [ true ↦ execute cfg maps n s' e' | false ↦ ok e' ])) [
                  | true ↦ execute-InStep n s' e' h'
                  | false ↦ h'
                ])

-- A run of the main loop that ends normally has counted as many cycles as instructions, modulo
-- 2^64, interrupts taken and instructions executed alike; no instruction, interrupt or device
-- changes the cycle counter otherwise.
pub cpu_exec-counters :
    (cfg : Config) (maps : List (IoMap Callback)) (n : ℕ) (s : Decode) (e : Emulator)
    {e' : Emulator}
    → cpu_exec cfg maps n s e ≡ ok e'
    → u64 (e'.machine.cpu.cycle + e.g_nr_guest_inst)
      ≡ u64 (e.machine.cpu.cycle + e'.g_nr_guest_inst)
unfolding cpu_exec
cpu_exec-counters cfg maps n s e run =
    let P = InStep e.machine.cpu.cycle e.g_nr_guest_inst in
    Ensures-elim P (cpu_exec cfg maps n s e)
      (if_both (Ensures P) (is_over e.machine.nemu.state) refl (
        Ensures-bind P P (execute cfg maps n s (with_state e RunState.running)) _
          (execute-InStep cfg maps e.machine.cpu.cycle e.g_nr_guest_inst n s
            (with_state e RunState.running) refl)
          (λ e' h. h)))
      run
