-- ===== src/Cpu/Emulator.antt =====
-- The state of the emulator as a whole, and `device_update` of nemu/src/device/device.c with
-- CONFIG_HAS_HWDEV_TIMER and CONFIG_HAS_HWDEV_UART set, CONFIG_HAS_VGA and CONFIG_HAS_KEYBOARD not.
use soc_fpga_bjtu_hwct.Common.{ℕ, ◌+◌, ◌-◌, ◌/◌, ◌^◌, Bool, List, [], ◌∷◌, ltb, if◌then◌else◌}
use soc_fpga_bjtu_hwct.Common.Word.{u64}
use soc_fpga_bjtu_hwct.Isa.State.{RunState, Machine}
use soc_fpga_bjtu_hwct.Memory.Paddr.{Memory}
use soc_fpga_bjtu_hwct.Device.Intr.{IntrLine}
use soc_fpga_bjtu_hwct.Device.HwdevTimer.{hwdev_timer_update}
use soc_fpga_bjtu_hwct.Device.HwdevUart.{hwdev_uart_update}
use soc_fpga_bjtu_hwct.Device.Board.{Board}

-- What the host gives to one `device_update`: the time, and whether the window was closed.
pub record HostTick : Type 0 where
  pub now : ℕ
  pub sdl_quit : Bool

-- The host's part is a list with an element for each update; when it ends, time stands still.
pub record Emulator : Type 0 where
  pub machine : Machine (Memory Board)
  pub timer_intr_pending : Bool
  pub last : ℕ
  pub host : List HostTick
  pub g_nr_guest_inst : ℕ

abbrev pub timer_hz : ℕ
timer_hz = 60

abbrev pub intr_line : Emulator → IntrLine
intr_line e = record { cpu = e.machine.cpu; timer_intr_pending = e.timer_intr_pending }

abbrev pub with_line : Emulator → IntrLine → Emulator
with_line e i = record e {
  machine = record (e.machine) { cpu = i.cpu };
  timer_intr_pending = i.timer_intr_pending;
}

abbrev pub with_state : Emulator → RunState → Emulator
with_state e s = record e {
  machine = record (e.machine) { nemu = record (e.machine.nemu) { state = s } };
}

-- The two devices.
unfoldable pub update_devices : Emulator → Emulator
unfolding hwdev_timer_update hwdev_uart_update
update_devices e =
    let io = e.machine.mem.io in
    let (timer, line) = hwdev_timer_update io.dev.timer (intr_line e) in
    let e' = with_line e line in
    record e' {
      machine = record (e'.machine) {
        mem = record (e'.machine.mem) {
          io = record io {
            dev = record (io.dev) { timer = timer; terminal = hwdev_uart_update io.dev.terminal };
          };
        };
      };
    }

unfoldable pub device_tick : HostTick → Emulator → Emulator
unfolding update_devices
device_tick t e =
    if ltb (u64 (t.now + 2 ^ 64 - e.last)) (1000000 / timer_hz)
    then e
    else let e' = update_devices (record e { last = t.now }) in
      if t.sdl_quit then with_state e' RunState.quit else e'

unfoldable pub device_update_on : List HostTick → Emulator → Emulator
unfolding device_tick
device_update_on [] e = e
device_update_on (t ∷ host) e = device_tick t (record e { host = host })

unfoldable pub device_update : Emulator → Emulator
unfolding device_update_on
device_update e = device_update_on e.host e
