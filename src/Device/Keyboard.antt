-- ===== src/Device/Keyboard.antt =====
-- The keyboard: nemu/src/device/keyboard.c with CONFIG_TARGET_AM not set. `keymap`, which
-- `init_keymap` fills from the scancodes of SDL, is a parameter.
pub mod Fifo
use soc_fpga_bjtu_hwct.Common.{
  ℕ, ◌+◌, ◌%◌, Bool, true, false, not, ◌&&◌, List, bit_or, get_or, set, replicate, ◌==◌,
  if◌then◌else◌, some,
}
use soc_fpga_bjtu_hwct.Common.Outcome.{Outcome, ok, failed, assert, ◌>>=◌}
use soc_fpga_bjtu_hwct.Isa.State.{RunState}
use soc_fpga_bjtu_hwct.Cpu.Exec.{is_running}
use soc_fpga_bjtu_hwct.Memory.Host.{store_bytes}

abbrev pub keydown_mask : ℕ
keydown_mask = 0x8000

abbrev pub key_none : ℕ
key_none = 0

abbrev pub key_queue_len : ℕ
key_queue_len = 1024

pub record Keys : Type 0 where
  pub key_queue : List ℕ
  pub key_f : ℕ
  pub key_r : ℕ

abbrev pub no_keys : Keys
no_keys = record { key_queue = replicate key_queue_len 0; key_f = 0; key_r = 0 }

unfoldable pub key_enqueue : ℕ → Keys → Outcome Keys
key_enqueue am_scancode k =
    let r = (k.key_r + 1) % key_queue_len in
    if r == k.key_f
    then failed
    else ok (record k { key_queue = set k.key_queue k.key_r am_scancode; key_r = r })

unfoldable pub key_dequeue : Keys → ℕ × Keys
key_dequeue k =
    if k.key_f == k.key_r
    then (key_none, k)
    else (get_or k.key_queue k.key_f 0, record k { key_f = (k.key_f + 1) % key_queue_len })

-- A key is kept while the emulator runs, and if it has a code.
unfoldable pub send_key : List ℕ → RunState → ℕ → Bool → Keys → Outcome Keys
unfolding key_enqueue
send_key keymap state scancode is_keydown k =
    let code = get_or keymap scancode key_none in
    if is_running state && not (code == key_none)
    then key_enqueue (bit_or code (if is_keydown then keydown_mask else 0)) k
    else ok k

-- `base` is the index of `i8042_data_port_base` in the device memory.
unfoldable pub i8042_data_io_handler : ℕ → ℕ → ℕ → Bool → Keys → List ℕ → Outcome (Keys × List ℕ)
unfolding key_dequeue store_bytes
i8042_data_io_handler base offset len is_write k space = do
  _ ← assert (not is_write)
  _ ← assert (offset == 0)
  space' ← store_bytes space base 4 (key_dequeue k).0
  ok ((key_dequeue k).1, space')
