-- ===== src/Device/HwdevUart.antt =====
-- The serial port: nemu/src/device/hwdev_uart.c. Its registers in device memory are the words from
-- `base` (`uart_base`) on. What the host's terminal gives is a list with one element for each time
-- that it is asked, `none` when no key waits; what is sent to it is the list `output`.
pub mod Queue
use soc_fpga_bjtu_hwct.Common.{
  ℕ, zero, suc, ◌+◌, ◌-◌, ◌*◌, ◌/◌, ◌%◌, ◌^◌, Bool, true, false, List, [], ◌∷◌, ◌++◌, Option, none,
  some, bit_and, bit_or, ◌==◌, if◌then◌else◌,
}
use soc_fpga_bjtu_hwct.Common.Outcome.{Outcome, ok, failed, assert, ◌>>=◌}
use soc_fpga_bjtu_hwct.Common.Word.{not32}
use soc_fpga_bjtu_hwct.Device.HwdevTimer.{get_word, put_word}

pub record HwUart : Type 0 where
  pub cr : ℕ
  pub sr : ℕ
  pub baud : ℕ
  pub rxd : ℕ
  pub txd : ℕ
  pub has_data : Bool

pub record Terminal : Type 0 where
  pub uart : HwUart
  pub input : List (Option ℕ)
  pub output : List ℕ

-- The uart of `init_hwdev_uart`.
abbrev pub new_hwdev_uart : HwUart
new_hwdev_uart = record { cr = 3; sr = 0; baud = 115200; rxd = 0; txd = 0; has_data = false }

abbrev pub sr_tx_flag : ℕ
sr_tx_flag = 1

abbrev pub sr_rx_flag : ℕ
sr_rx_flag = 2

unfoldable pub try_read_keyboard : List (Option ℕ) → Option ℕ × List (Option ℕ)
try_read_keyboard [] = (none, [])
try_read_keyboard (ch ∷ input) = (ch, input)

-- A character was read, or none.
unfoldable pub receive : Option ℕ → HwUart → HwUart
receive none u = u
receive (some ch) u = record u { rxd = ch % 2 ^ 8; has_data = true; sr = bit_or u.sr sr_rx_flag }

unfoldable pub hwdev_uart_update : Terminal → Terminal
unfolding try_read_keyboard receive
hwdev_uart_update t =
    if bit_and t.uart.cr 2 == 0
    then t
    else if t.uart.has_data
    then t
    else let (ch, input) = try_read_keyboard t.input in
      record t { uart = receive ch t.uart; input = input }

-- The word `v` was written to a register.
unfoldable pub write_register : ℕ → ℕ → Terminal → Outcome Terminal
write_register offset v t =
    if offset == 0x00
    then ok (record t { uart = record (t.uart) { cr = v } })
    else if offset == 0x04
    then ok (record t {
      uart = record (t.uart) {
        sr = bit_and t.uart.sr (not32 (bit_and v (bit_or sr_tx_flag sr_rx_flag)));
      };
    })
    else if offset == 0x08
    then ok t
    else if offset == 0x0c
    then ok t
    else if offset == 0x10
    then (if bit_and t.uart.cr 1 == 1
        then ok (record t {
          uart = record (t.uart) { txd = bit_and v 0xff; sr = bit_or t.uart.sr sr_tx_flag };
          output = t.output ++ (bit_and v 0xff ∷ []);
        })
        else ok (record t { uart = record (t.uart) { txd = bit_and v 0xff } }))
    else failed

-- The word that a read leaves in a register's place, if it writes one, and the new state.
unfoldable pub read_register : ℕ → Terminal → Outcome (Option ℕ × Terminal)
read_register offset t =
    if offset == 0x04
    then ok (some t.uart.sr, t)
    else if offset == 0x08
    then ok (some t.uart.baud, t)
    else if offset == 0x0c
    then (if t.uart.has_data
        then ok (
          some t.uart.rxd,
          record t {
            uart = record (t.uart) { sr = bit_and t.uart.sr (not32 sr_rx_flag); has_data = false };
          },
        )
        else ok (some 0, t))
    else if offset == 0x00
    then ok (none, t)
    else if offset == 0x10
    then ok (none, t)
    else failed

unfoldable pub put_register : ℕ → ℕ → Option ℕ → List ℕ → Outcome (List ℕ)
put_register base offset none space = ok space
put_register base offset (some v) space = put_word base offset v space

-- A write to the baud rate's register puts the rate back.
unfoldable pub handle_write : ℕ → ℕ → Terminal → List ℕ → Outcome (Terminal × List ℕ)
unfolding write_register put_register
handle_write base offset t space = do
  v ← get_word base offset space
  t' ← write_register offset v t
  space' ← put_register base offset (if offset == 0x08 then some t.uart.baud else none) space
  ok (t', space')

unfoldable pub handle_read : ℕ → ℕ → Terminal → List ℕ → Outcome (Terminal × List ℕ)
unfolding read_register put_register
handle_read base offset t space = do
  (v, t') ← read_register offset t
  space' ← put_register base offset v space
  ok (t', space')

unfoldable pub hwdev_uart_io_handler :
    ℕ → ℕ → ℕ → Bool → Terminal → List ℕ → Outcome (Terminal × List ℕ)
unfolding handle_write handle_read
hwdev_uart_io_handler base offset len is_write t space = do
  _ ← assert (len == 4)
  if is_write then handle_write base offset t space else handle_read base offset t space
