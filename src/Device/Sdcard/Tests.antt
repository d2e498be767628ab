-- ===== src/Device/Sdcard/Tests.antt =====
-- The sdcard and the keyboard of nemu/src/device at concrete inputs.
use soc_fpga_bjtu_hwct.Common.{ℕ, ◌≡◌, refl, arith, false, List, [], ◌∷◌, some, length, replicate}
use soc_fpga_bjtu_hwct.Common.Outcome.{ok}
use soc_fpga_bjtu_hwct.Device.Sdcard.{File, Sdcard}
use soc_fpga_bjtu_hwct.Device.Sdcard.Blocks.{write_blocks, read_blocks, read_blocks-write_blocks}
use soc_fpga_bjtu_hwct.Device.Keyboard.{no_keys}
use soc_fpga_bjtu_hwct.Device.Keyboard.Fifo.{Enqueues, Dequeues, IsKeys, keys-Enqueues-Dequeues}

abbrev image : File
image = record { bytes = 1 ∷ 2 ∷ 3 ∷ []; position = 3 }

abbrev card : Sdcard
card = record {
  fp = some image;
  base = replicate 32 0;
  blkcnt = 0;
  blk_addr = 7;
  addr = 4;
  write_cmd = false;
  read_ext_csd = false;
}

abbrev words : List ℕ
words = 0xdeadbeef ∷ 0x01020304 ∷ []

read_blocks-write_blocks_example :
    (c' : Sdcard) × (write_blocks 2 words card ≡ ok c')
    × (read_blocks 2 (length words) c' ≡ ok words)
read_blocks-write_blocks_example =
    read_blocks-write_blocks 2 words image card refl refl refl (omega arith, (omega arith, tt))

no_keys-IsKeys : IsKeys no_keys
no_keys-IsKeys = record { size = refl; front = omega arith; rear = omega arith }

keys-Enqueues-Dequeues_example : Enqueues 65 no_keys × Dequeues no_keys
keys-Enqueues-Dequeues_example = keys-Enqueues-Dequeues 65 no_keys no_keys-IsKeys
