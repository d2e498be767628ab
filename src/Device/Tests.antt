-- ===== src/Device/Tests.antt =====
-- The theorems on devices at concrete inputs.
use soc_fpga_bjtu_hwct.Common.{
  ℕ, ◌+◌, ◌*◌, ◌%◌, ◌<◌, ◌≤◌, ◌≡◌, refl, arith, inl, true, false, List, [], ◌∷◌, ◌++◌, none, some,
  replicate,
}
use soc_fpga_bjtu_hwct.Common.Outcome.{ok}
use soc_fpga_bjtu_hwct.Memory.Config.{Config, in_pmem}
use soc_fpga_bjtu_hwct.Memory.Host.{load_bytes}
use soc_fpga_bjtu_hwct.Device.Intr.{IntrLine, dev_raise_intr}
use soc_fpga_bjtu_hwct.Device.Map.{Io, IoMap, page_size, io_space_max, new_space, map_inside}
use soc_fpga_bjtu_hwct.Device.Map.Spaces.{new_space-ok}
use soc_fpga_bjtu_hwct.Device.Mmio.{add_mmio_map, fetch_mmio_map}
use soc_fpga_bjtu_hwct.Device.Mmio.Registry.{
  IsRegistry, add_mmio_map-IsRegistry, fetch_mmio_map_unique,
}
use soc_fpga_bjtu_hwct.Device.HwdevTimer.{HwTimer, hwdev_timer_update, get_word}
use soc_fpga_bjtu_hwct.Device.HwdevTimer.Period.{
  IsRunning, time_left, updates, reloaded, hwdev_timer_update_period,
}
use soc_fpga_bjtu_hwct.Device.HwdevUart.{HwUart, Terminal, hwdev_uart_io_handler}
use soc_fpga_bjtu_hwct.Device.HwdevUart.Queue.{
  to_receive, sent, left_in_place, hwdev_uart_io_handler-queue,
}

abbrev io0 : Io ℕ
io0 = record { io_space = []; p_space = 4096; dev = 0 }

abbrev io1 : Io ℕ
io1 = record { io_space = []; p_space = 8192; dev = 0 }

new_space_run : new_space 20 io0 ≡ ok (4096, io1)
unfolding new_space
new_space_run = refl

new_space-ok_example :
    (4096 ≡ io0.p_space)
    × (4096 + 20 ≤ io1.p_space)
    × (io1.p_space < io_space_max)
    × (io1.p_space % page_size ≡ 0)
    × (io1.io_space ≡ io0.io_space)
    × (io1.dev ≡ io0.dev)
new_space-ok_example = new_space-ok 20 4096 io0 io1 (omega arith) refl new_space_run

abbrev board_config : Config
board_config = record { mbase = 0x80000000; msize = 0x8000000; pc_reset_offset = 0; device = true }

abbrev timer_map : IoMap ℕ
timer_map = record { low = 0x1000; high = 0x1013; space = 0; callback = some 0 }

abbrev uart_map : IoMap ℕ
uart_map = record { low = 0x2000; high = 0x2013; space = 4096; callback = some 1 }

one_map-IsRegistry : IsRegistry board_config (timer_map ∷ [])
unfolding in_pmem
one_map-IsRegistry = record {
  fits = omega arith;
  apart = (tt, tt);
  outside = ((inl (omega arith), inl (omega arith)), tt);
}

add_uart_run :
    add_mmio_map board_config 0x2000 4096 20 (some 1) (timer_map ∷ [])
    ≡ ok (timer_map ∷ uart_map ∷ [])
unfolding add_mmio_map
add_uart_run = refl

add_mmio_map-IsRegistry_example : IsRegistry board_config (timer_map ∷ uart_map ∷ [])
add_mmio_map-IsRegistry_example =
    add_mmio_map-IsRegistry board_config (timer_map ∷ []) (timer_map ∷ uart_map ∷ []) 0x2000 4096 20
      (some 1) (omega arith) one_map-IsRegistry add_uart_run

inside_run : map_inside timer_map 0x1004 ≡ true
unfolding map_inside
inside_run = refl

fetch_mmio_map_unique_example : fetch_mmio_map (timer_map ∷ []) 0x1004 ≡ some timer_map
fetch_mmio_map_unique_example =
    fetch_mmio_map_unique board_config (timer_map ∷ []) 0 0x1004 timer_map one_map-IsRegistry refl
      inside_run

abbrev line0 : IntrLine
line0 = record {
  cpu = record { gpr = []; pc = 0; true_pc = 0; csr_pr = replicate 12 0; cycle = 0 };
  timer_intr_pending = false;
}

-- A timer with the prescaler 1, that counts from 2 down.
abbrev timer0 : HwTimer
timer0 = record { cr = 1; sr = 0; psc = 1; load = 2; count = 2; clk_cnt = 0 }

timer0-IsRunning : IsRunning timer0
timer0-IsRunning = record { enabled = refl; in_period = omega arith; psc_small = omega arith }

time_left_run : 6 ≡ time_left timer0
unfolding time_left
time_left_run = refl

hwdev_timer_update_period_example :
    (t' : HwTimer) × (updates 5 timer0 line0 ≡ (t', line0))
    × (hwdev_timer_update t' line0 ≡ (reloaded timer0, dev_raise_intr line0))
    × IsRunning (reloaded timer0)
    × (time_left (reloaded timer0) ≡ (2 + 1) * (1 + 1))
hwdev_timer_update_period_example =
    hwdev_timer_update_period 5 timer0 line0 timer0-IsRunning time_left_run

abbrev uart0 : HwUart
uart0 = record { cr = 3; sr = 2; baud = 115200; rxd = 0x41; txd = 0; has_data = true }

abbrev terminal0 : Terminal
terminal0 = record { uart = uart0; input = none ∷ some 0x42 ∷ []; output = [] }

-- Device memory with the word 0x43 in the register TXD.
abbrev space0 : List ℕ
space0 = replicate 16 0 ++ (0x43 ∷ 0 ∷ 0 ∷ 0 ∷ [])

abbrev terminal1 : Terminal
terminal1 = record terminal0 { uart = record uart0 { txd = 0x43; sr = 3 }; output = 0x43 ∷ [] }

send_run : hwdev_uart_io_handler 0 0x10 4 true terminal0 space0 ≡ ok (terminal1, space0)
unfolding hwdev_uart_io_handler load_bytes
send_run = refl

hwdev_uart_io_handler-queue_example :
    (to_receive terminal0 ≡ to_receive terminal1)
    × (get_word 0 0x10 space0 ≡ left_in_place true 0x10 terminal0 (get_word 0 0x10 space0))
    × ((v : ℕ)
        → get_word 0 0x10 space0 ≡ ok v
        → terminal1.output ≡ terminal0.output ++ sent 0x10 v terminal0)
hwdev_uart_io_handler-queue_example =
    hwdev_uart_io_handler-queue 0 0x10 4 true terminal0 space0 terminal1 space0 (omega arith)
      send_run
