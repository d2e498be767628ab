-- ===== src/Device/HwdevTimer.antt =====
-- The hardware timer: nemu/src/device/hwdev_timer.c. Its registers in device memory are the words
-- from `base` (`timer_base`) on.
pub mod Period
use soc_fpga_bjtu_hwct.Common.{
  ℕ, zero, suc, ◌+◌, ◌-◌, ◌*◌, ◌/◌, ◌^◌, Bool, List, Option, none, bit_and, bit_or, ◌==◌, ltb,
  if◌then◌else◌,
}
use soc_fpga_bjtu_hwct.Common.Outcome.{Outcome, ok, failed, assert, ◌>>=◌}
use soc_fpga_bjtu_hwct.Common.Word.{u32}
use soc_fpga_bjtu_hwct.Memory.Host.{load_bytes, store_bytes}
use soc_fpga_bjtu_hwct.Device.Intr.{IntrLine, dev_raise_intr}

pub record HwTimer : Type 0 where
  pub cr : ℕ
  pub sr : ℕ
  pub psc : ℕ
  pub load : ℕ
  pub count : ℕ
  pub clk_cnt : ℕ

-- The timer of `init_hwdev_timer`.
abbrev pub new_hwdev_timer : HwTimer
new_hwdev_timer = record { cr = 0; sr = 0; psc = 0; load = 0; count = 0; clk_cnt = 0 }

abbrev pub is_enabled : ℕ → Bool
is_enabled cr = bit_and cr 1 == 1

unfoldable pub hwdev_timer_update : HwTimer → IntrLine → HwTimer × IntrLine
unfolding dev_raise_intr
hwdev_timer_update t i =
    if is_enabled t.cr
    then (if ltb t.psc (u32 (t.clk_cnt + 1))
        then (if t.count == 0
            then (record t { clk_cnt = 0; count = t.load; sr = bit_or t.sr 1 }, dev_raise_intr i)
            else (record t { clk_cnt = 0; count = t.count - 1 }, i))
        else (record t { clk_cnt = u32 (t.clk_cnt + 1) }, i))
    else (t, i)

-- `timer_base[offset / 4]`
abbrev pub get_word : ℕ → ℕ → List ℕ → Outcome ℕ
get_word base offset space = load_bytes space (base + offset / 4 * 4) 4

abbrev pub put_word : ℕ → ℕ → ℕ → List ℕ → Outcome (List ℕ)
put_word base offset v space = store_bytes space (base + offset / 4 * 4) 4 v

-- The word `v` was written to a register.
unfoldable pub write_register : ℕ → ℕ → ℕ → HwTimer → List ℕ → Outcome (HwTimer × List ℕ)
write_register base offset v t space =
    if offset == 0x00
    then (if is_enabled v
        then ok (record t { cr = v }, space)
        else ok (record t { cr = v; clk_cnt = 0; count = 0 }, space))
    else if offset == 0x04
    then (if bit_and v 1 == 1
        then (put_word base offset 0 space >>= (λ space'. ok (record t { sr = 0 }, space')))
        else ok (t, space))
    else if offset == 0x08
    then ok (record t { psc = v }, space)
    else if offset == 0x0c
    then ok (record t { load = v }, space)
    else if offset == 0x10
    then ok (record t { count = v; clk_cnt = 0 }, space)
    else failed

-- The bytes that a read finds.
unfoldable pub read_register : ℕ → ℕ → HwTimer → List ℕ → Outcome (HwTimer × List ℕ)
read_register base offset t space =
    if offset == 0x04
    then (put_word base offset t.sr space >>= (λ space'. ok (t, space')))
    else if offset == 0x10
    then (put_word base offset t.count space >>= (λ space'. ok (t, space')))
    else if offset == 0x00
    then ok (t, space)
    else if offset == 0x08
    then ok (t, space)
    else if offset == 0x0c
    then ok (t, space)
    else failed

unfoldable pub hwdev_timer_io_handler :
    ℕ → ℕ → ℕ → Bool → HwTimer → List ℕ → Outcome (HwTimer × List ℕ)
unfolding write_register read_register
hwdev_timer_io_handler base offset len is_write t space = do
  _ ← assert (len == 4)
  if is_write
      then (get_word base offset space >>= (λ v. write_register base offset v t space))
      else read_register base offset t space
