-- ===== src/Cpu/Exec/Invariant.antt =====
-- The main loop of nemu/src/cpu/cpu-exec.c keeps the registers well-formed, interrupts and devices
-- included, and never stops in the running state.
use soc_fpga_bjtu_hwct.Common.{
  ℕ, zero, suc, ◌+◌, ◌-◌, ◌/◌, ◌^◌, ◌≡◌, ◌≢◌, arith, Bool, true, false, List, [], ◌∷◌, bit_and,
  bit_or, if_both, if_cases, ◌==◌, ltb,
}
use soc_fpga_bjtu_hwct.Common.Outcome.{ok, Ensures, Ensures-elim, Ensures-intro, Ensures-bind}
use soc_fpga_bjtu_hwct.Common.Word.{IsWord, not32, u32, u64}
use soc_fpga_bjtu_hwct.Common.Bits.{bit_or-lt, bit_and-le, bit_and_mask}
use soc_fpga_bjtu_hwct.Isa.State.{Cpu, RunState, Bus, Machine, csr_pr_at, set_csr_pr}
use soc_fpga_bjtu_hwct.Isa.State.Valid.{IsValid, csr_pr_at-IsWord, set_csr_pr-HasWords}
use soc_fpga_bjtu_hwct.Isa.Exec.{Decode, isa_exec_once}
use soc_fpga_bjtu_hwct.Isa.Exec.Invariant.{IsWordBus, isa_exec_once-IsValid}
use soc_fpga_bjtu_hwct.Isa.Intr.{isa_raise_intr, isa_query_intr, trap_mstatus}
use soc_fpga_bjtu_hwct.Memory.Config.{Config}
use soc_fpga_bjtu_hwct.Memory.Paddr.Words.{vaddr_bus-IsWordBus}
use soc_fpga_bjtu_hwct.Device.Intr.{IntrLine, dev_raise_intr, dev_query_intr, intr_empty}
use soc_fpga_bjtu_hwct.Device.Map.{IoMap}
use soc_fpga_bjtu_hwct.Device.HwdevTimer.{HwTimer, is_enabled, hwdev_timer_update}
use soc_fpga_bjtu_hwct.Device.Board.{Callback, call_back}
use soc_fpga_bjtu_hwct.Cpu.Emulator.{
  HostTick, Emulator, timer_hz, intr_line, with_state, with_line, update_devices, device_tick,
  device_update_on, device_update,
}
use soc_fpga_bjtu_hwct.Cpu.Exec.{
  exec_once, intr_enabled, update_if_device, take_intr, enter_handler, count_inst, tick_cycle,
  emulator_bus, execute_inst, execute_step, execute, cpu_exec, is_running, is_over, stopped,
}

-- Valid registers and a pc that is a word.
abbrev pub IsSound : Cpu → Type 0
IsSound c = IsValid c × IsWord c.pc

pub with_pc-IsSound :
    {c : Cpu} (pc true_pc cycle : ℕ)
    → IsValid c
    → IsWord pc
    → IsSound (record c { pc = pc; true_pc = true_pc; cycle = cycle })
with_pc-IsSound pc true_pc cycle v w = (
  record {
    words = record {
      gpr_length = v.words.gpr_length;
      gpr_words = v.words.gpr_words;
      csr_length = v.words.csr_length;
      csr_words = v.words.csr_words;
    };
    zero_reg = v.zero_reg;
  },
  w,
)

set_csr_pr-IsSound : {c : Cpu} (i v : ℕ) → IsSound c → IsWord v → IsSound (set_csr_pr c i v)
set_csr_pr-IsSound i v h w =
    (record { words = set_csr_pr-HasWords (h.0.words) i v w; zero_reg = h.0.zero_reg }, h.1)

dev_raise_intr-IsSound : (i : IntrLine) → IsSound i.cpu → IsSound ((dev_raise_intr i).cpu)
unfolding dev_raise_intr
dev_raise_intr-IsSound i h =
    set_csr_pr-IsSound 6 _ h
      (bit_or-lt 32 (csr_pr_at i.cpu 6) 8 (csr_pr_at-IsWord (h.0.words) 6) (omega arith))

pub dev_query_intr-IsSound : (i : IntrLine) → IsSound i.cpu → IsSound ((dev_query_intr i).1.cpu)
unfolding dev_query_intr
dev_query_intr-IsSound i h =
    if_both (λ (r : ℕ × IntrLine). IsSound (r.1.cpu)) i.timer_intr_pending
      (set_csr_pr-IsSound 6 _ h
        (omega (arith, bit_and-le (csr_pr_at i.cpu 6) (not32 8), csr_pr_at-IsWord (h.0.words) 6)))
      h

hwdev_timer_update-IsSound :
    (t : HwTimer) (i : IntrLine) → IsSound i.cpu → IsSound ((hwdev_timer_update t i).1.cpu)
unfolding hwdev_timer_update
hwdev_timer_update-IsSound t i h =
    let P : HwTimer × IntrLine → Type 0 = λ r. IsSound (r.1.cpu) in
    if_both P (is_enabled t.cr)
      (if_both P (ltb t.psc (u32 (t.clk_cnt + 1)))
        (if_both P (t.count == 0) (dev_raise_intr-IsSound i h) h) h)
      h

trap_mstatus-IsWord : (m : ℕ) → IsWord m → IsWord (trap_mstatus m)
trap_mstatus-IsWord m h =
    let x = bit_and m (not32 8) in
    let hx : IsWord x = omega (arith, bit_and-le m (not32 8)) in
    bit_or-lt 32 (bit_or x 0x80) 0x1800 (bit_or-lt 32 x 0x80 hx (omega arith)) (omega arith)

isa_raise_intr-IsSound :
    (number : ℕ) (c : Cpu)
    → IsSound c
    → let (target, c') = isa_raise_intr number c.pc c in IsSound (record c' { pc = target })
unfolding isa_raise_intr
isa_raise_intr-IsSound number c h =
    let m = csr_pr_at c 2 in
    let cause_word : IsWord (bit_or (2 ^ 31) (bit_and number 0x7f)) =
      bit_or-lt 32 (2 ^ 31) (bit_and number 0x7f) (omega arith)
        (omega (arith, bit_and_mask 7 number)) in
    let h1 = set_csr_pr-IsSound 1 c.pc h (h.1) in
    let h2 = set_csr_pr-IsSound 3 (bit_or (2 ^ 31) (bit_and number 0x7f)) h1 cause_word in
    let h3 =
      set_csr_pr-IsSound 2 (trap_mstatus m) h2
        (trap_mstatus-IsWord m (csr_pr_at-IsWord (h.0.words) 2)) in
    with_pc-IsSound (csr_pr_at c 0) _ _ (h3.0) (csr_pr_at-IsWord (h.0.words) 0)

abbrev pub Sound : Emulator → Type 0
Sound e = IsSound e.machine.cpu

update_devices-Sound : (e : Emulator) → Sound e → Sound (update_devices e)
unfolding update_devices
update_devices-Sound e h = hwdev_timer_update-IsSound e.machine.mem.io.dev.timer (intr_line e) h

device_tick-Sound : (t : HostTick) (e : Emulator) → Sound e → Sound (device_tick t e)
unfolding device_tick
device_tick-Sound t e h =
    let h' = update_devices-Sound (record e { last = t.now }) h in
    if_both Sound (ltb (u64 (t.now + 2 ^ 64 - e.last)) (1000000 / timer_hz)) h
      (if_both Sound t.sdl_quit h' h')

device_update_on-Sound :
    (host : List HostTick) (e : Emulator) → Sound e → Sound (device_update_on host e)
unfolding device_update_on
device_update_on-Sound [] e h = h
device_update_on-Sound (t ∷ host) e h = device_tick-Sound t (record e { host = host }) h

abbrev pub Answer : {S : Type 0} → Decode × Machine S → Type 0
Answer r = IsSound (r.1.cpu)

pub exec_once-IsSound :
    {S : Type 0} (bus : Bus S)
    → IsWordBus bus
    → (s : Decode) (m : Machine S) → IsSound m.cpu
    → Ensures Answer (exec_once bus m.cpu.pc s m)
unfolding exec_once
exec_once-IsSound bus wb s m h =
    let s1 = record s { pc = m.cpu.pc; snpc = m.cpu.pc } in
    let Done : Decode × Machine _ → Type 0 = λ r. IsValid (r.1.cpu) × IsWord (r.0.dnpc) in
    Ensures-bind Done Answer (isa_exec_once bus s1 m) _
      (Ensures-intro Done (isa_exec_once bus s1 m)
        (λ (s', m') e. isa_exec_once-IsValid wb s1 m (h.0) (h.1) e))
      (λ (s', m') d. with_pc-IsSound s'.dnpc _ _ (d.0) (d.1))

module _ (cfg : Config) (maps : List (IoMap Callback)) where
  pub update_if_device-Sound : (e : Emulator) → Sound e → Sound (update_if_device cfg maps e)
  unfolding update_if_device device_update
  update_if_device-Sound e h = if_both Sound cfg.device (device_update_on-Sound e.host e h) h

  pub take_intr-Sound : (number : ℕ) (e : Emulator) → Sound e → Sound (take_intr cfg maps number e)
  unfolding take_intr enter_handler
  take_intr-Sound number e h =
      update_if_device-Sound (enter_handler number e)
        (isa_raise_intr-IsSound number e.machine.cpu h)

  abbrev Round : Bool × Decode × Emulator → Type 0
  Round r = Sound (r.2)

  execute_inst-Sound :
      (s : Decode) (e : Emulator) → Sound e → Ensures Round (execute_inst cfg maps s e)
  unfolding execute_inst
  execute_inst-Sound s e h =
      Ensures-bind Answer Round (exec_once (emulator_bus cfg maps) e.machine.cpu.pc s e.machine) _
        (exec_once-IsSound (emulator_bus cfg maps) (vaddr_bus-IsWordBus cfg call_back maps) s
          e.machine h)
        (λ (s', m) h'.
          if_both Round (is_running m.nemu.state)
            (update_if_device-Sound (count_inst (record e { machine = m })) h') h')

  execute_step-Sound :
      (s : Decode) (e : Emulator) → Sound e → Ensures Round (execute_step cfg maps s e)
  unfolding execute_step isa_query_intr
  execute_step-Sound s e h =
      let e1 = tick_cycle e in
      let h1 : Sound e1 = with_pc-IsSound e.machine.cpu.pc _ _ (h.0) (h.1) in
      let h2 = dev_query_intr-IsSound (intr_line e1) h1 in
      let (number, line) = isa_query_intr (intr_line e1) in
      if_both (Ensures Round) (intr_enabled (e1.machine.cpu))
        (if_both (Ensures Round) (number == intr_empty)
          (execute_inst-Sound s (with_line e1 line) h2)
          (take_intr-Sound number (with_line e1 line) h2))
        (execute_inst-Sound s e1 h1)

  execute-Sound :
      (n : ℕ) (s : Decode) (e : Emulator) → Sound e → Ensures Sound (execute cfg maps n s e)
  unfolding execute
  execute-Sound zero s e h = h
  execute-Sound (suc n) s e h =
      Ensures-bind Round Sound (execute_step cfg maps s e) _ (execute_step-Sound s e h)
        (λ (again, s', e') h'.
          elim again
            as (λ b. Ensures Sound (elim b [ true ↦ execute cfg maps n s' e' | false ↦ ok e' ])) [
              | true ↦ execute-Sound n s' e' h'
              | false ↦ h'
            ])

  abbrev Final : Emulator → Type 0
  Final e = Sound e × (e.machine.nemu.state ≢ RunState.running)

  stopped-not_running : (r : RunState) → stopped r ≢ RunState.running
  stopped-not_running RunState.running = λ e. cc e
  stopped-not_running RunState.stop = λ e. cc e
  stopped-not_running RunState.end = λ e. cc e
  stopped-not_running RunState.abort = λ e. cc e
  stopped-not_running RunState.quit = λ e. cc e

  over-not_running : (r : RunState) → is_over r ≡ true → r ≢ RunState.running
  over-not_running RunState.running h = λ e. cc h
  over-not_running RunState.stop h = λ e. cc e
  over-not_running RunState.end h = λ e. cc e
  over-not_running RunState.abort h = λ e. cc e
  over-not_running RunState.quit h = λ e. cc e

  -- Running any number of rounds, with interrupts, devices and every input of the host, from
  -- well-formed registers: if the run ends normally, the registers are well-formed and the emulator
  -- is not in the running state.
  pub cpu_exec-IsSound :
      (n : ℕ) (s : Decode) (e : Emulator) {e' : Emulator}
      → IsSound e.machine.cpu
      → cpu_exec cfg maps n s e ≡ ok e'
      → IsSound e'.machine.cpu × (e'.machine.nemu.state ≢ RunState.running)
  unfolding cpu_exec
  cpu_exec-IsSound n s e h r =
      Ensures-elim Final (cpu_exec cfg maps n s e)
        (if_cases (Ensures Final) (is_over e.machine.nemu.state)
          (λ over. (h, over-not_running e.machine.nemu.state over))
          (λ _.
            Ensures-bind Sound Final (execute cfg maps n s (with_state e RunState.running)) _
              (execute-Sound n s (with_state e RunState.running) h)
              (λ e' h'. (h', stopped-not_running e'.machine.nemu.state))))
        r
