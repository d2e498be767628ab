-- ===== src/Device/Board.antt =====
-- The devices together: the callbacks and the start of nemu/src/device/hwdev_timer.c and
-- nemu/src/device/hwdev_uart.c on their registers in device memory.
use soc_fpga_bjtu_hwct.Common.{ℕ, Bool, List, some}
use soc_fpga_bjtu_hwct.Common.Outcome.{Outcome, ok, ◌>>=◌}
use soc_fpga_bjtu_hwct.Memory.Config.{Config}
use soc_fpga_bjtu_hwct.Device.Map.{Io, IoMap, new_space}
use soc_fpga_bjtu_hwct.Device.Mmio.{add_mmio_map}
use soc_fpga_bjtu_hwct.Device.HwdevTimer.{HwTimer, new_hwdev_timer, hwdev_timer_io_handler}
use soc_fpga_bjtu_hwct.Device.HwdevUart.{Terminal, new_hwdev_uart, hwdev_uart_io_handler}

-- The callbacks that are registered.
pub data Callback : Type 0 where
  hwdev_timer hwdev_uart : Callback

pub record Board : Type 0 where
  pub timer : HwTimer
  pub timer_base : ℕ
  pub terminal : Terminal
  pub uart_base : ℕ

abbrev pub with_timer : Io Board → HwTimer → List ℕ → Io Board
with_timer io t space = record io { io_space = space; dev = record (io.dev) { timer = t } }

abbrev pub with_terminal : Io Board → Terminal → List ℕ → Io Board
with_terminal io t space = record io { io_space = space; dev = record (io.dev) { terminal = t } }

unfoldable pub call_back : Callback → ℕ → ℕ → Bool → Io Board → Outcome (Io Board)
unfolding hwdev_timer_io_handler hwdev_uart_io_handler
call_back Callback.hwdev_timer offset len is_write io = do
  (t, space) ← hwdev_timer_io_handler io.dev.timer_base offset len is_write io.dev.timer io.io_space
  ok (with_timer io t space)
call_back Callback.hwdev_uart offset len is_write io = do
  (t, space) ←
      hwdev_uart_io_handler io.dev.uart_base offset len is_write io.dev.terminal io.io_space
  ok (with_terminal io t space)

module _ (cfg : Config) where
  -- `mmio` is CONFIG_HWDEV_TIMER_MMIO.
  unfoldable pub init_hwdev_timer :
      ℕ → Io Board → List (IoMap Callback) → Outcome (Io Board × List (IoMap Callback))
  unfolding new_space add_mmio_map
  init_hwdev_timer mmio io maps = do
    (base, io') ← new_space 20 io
    maps' ← add_mmio_map cfg mmio base 20 (some Callback.hwdev_timer) maps
    ok (record io' { dev = record (io'.dev) { timer = new_hwdev_timer; timer_base = base } }, maps')

  -- `mmio` is CONFIG_HWDEV_UART_MMIO.
  unfoldable pub init_hwdev_uart :
      ℕ → Io Board → List (IoMap Callback) → Outcome (Io Board × List (IoMap Callback))
  unfolding new_space add_mmio_map
  init_hwdev_uart mmio io maps = do
    (base, io') ← new_space 20 io
    maps' ← add_mmio_map cfg mmio base 20 (some Callback.hwdev_uart) maps
    ok (
      record io' {
        dev = record (io'.dev) {
          terminal = record (io'.dev.terminal) { uart = new_hwdev_uart };
          uart_base = base;
        };
      },
      maps',
    )
