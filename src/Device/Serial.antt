-- ===== src/Device/Serial.antt =====
-- The 16550 port and the clock: nemu/src/device/serial.c and timer.c, with CONFIG_TARGET_AM not set.
-- The host's `stderr` is a list of characters, the host's clock an argument.
use soc_fpga_bjtu_hwct.Common.{
  ℕ, ◌+◌, ◌*◌, ◌/◌, ◌^◌, ◌<◌, ◌≤◌, ◌≡◌, ◌∙◌, ap, inl, length, arith, Bool, false, not, ◌&&◌, ◌||◌,
  List, [], ◌∷◌, ◌++◌, ◌==◌, if◌then◌else◌,
}
use soc_fpga_bjtu_hwct.Common.Outcome.{Outcome, ok, assert, ◌>>=◌}
use soc_fpga_bjtu_hwct.Common.Word.{u32}
use soc_fpga_bjtu_hwct.Memory.Host.{load_byte, load_bytes, store_bytes}
use soc_fpga_bjtu_hwct.Memory.Host.Access.{
  stored, length-stored, store_bytes-stored, get_elem?-stored, load_bytes-stored, load_bytes_cong,
}

abbrev pub ch_offset : ℕ
ch_offset = 0

unfoldable pub serial_putc : ℕ → List ℕ → List ℕ
serial_putc ch stderr = stderr ++ (ch ∷ [])

-- `base` is the index of `serial_base` in the device memory.
unfoldable pub serial_io_handler : ℕ → ℕ → ℕ → Bool → List ℕ → List ℕ → Outcome (List ℕ)
unfolding serial_putc
serial_io_handler base offset len is_write stderr space = do
  _ ← assert (len == 1)
  _ ← assert (offset == ch_offset && is_write)
  ch ← load_byte space base
  ok (serial_putc ch stderr)

-- `us` is what `get_time` answers.
unfoldable pub rtc_io_handler : ℕ → ℕ → ℕ → ℕ → Bool → List ℕ → Outcome (List ℕ)
unfolding store_bytes
rtc_io_handler base us offset len is_write space = do
  _ ← assert (offset == 0 || offset == 4)
  (if not is_write && offset == 4
      then store_bytes space base 4 (u32 us)
        >>= (λ space'. store_bytes space' (base + 4) 4 (u32 (us / 2 ^ 32)))
      else ok space)

-- A read of the upper word takes the time: the two words are then the two halves of what the clock
-- says.
pub rtc_io_handler-time :
    (base us len : ℕ) (space : List ℕ)
    → base + 8 ≤ length space
    → us < 2 ^ 64
    → (space' : List ℕ) × (low : ℕ) × (high : ℕ) × (rtc_io_handler base us 4 len false space
        ≡ ok space')
      × (load_bytes space' base 4 ≡ ok low)
      × (load_bytes space' (base + 4) 4 ≡ ok high)
      × (low + high * 2 ^ 32 ≡ us)
unfolding rtc_io_handler
rtc_io_handler-time base us len space room small =
    let first = stored space base 4 (u32 us) in
    let len1 = length-stored space base 4 (u32 us) in
    let v = u32 (us / 2 ^ 32) in
    let second = stored first (base + 4) 4 v in
    (
      second,
      u32 us,
      v,
      ap (λ r. r >>= (λ s. store_bytes s (base + 4) 4 v))
            (store_bytes-stored space base 4 (u32 us) (omega arith))
          ∙ store_bytes-stored first (base + 4) 4 v (omega (arith, len1)),
      load_bytes_cong second first base 4 (λ k lo hi.
            get_elem?-stored first (base + 4) 4 v k (omega (arith, len1)) (inl (omega arith)))
          ∙ load_bytes-stored space base 4 (u32 us) (omega arith)
          ∙ ap ok (omega arith),
      load_bytes-stored first (base + 4) 4 v (omega (arith, len1)) ∙ ap ok (omega arith),
      omega arith,
    )
