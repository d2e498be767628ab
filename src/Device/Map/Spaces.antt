-- ===== src/Device/Map/Spaces.antt =====
-- The spaces of the devices (`new_space` of nemu/src/device/io/map.c) do not meet.
use soc_fpga_bjtu_hwct.Common.{
  ℕ, ◌+◌, ◌-◌, ◌*◌, ◌/◌, ◌%◌, ◌^◌, ◌≤◌, ◌<◌, ◌≡◌, ◌∙◌, ap, arith, bit_and,
}
use soc_fpga_bjtu_hwct.Common.Outcome.{ok}
use soc_fpga_bjtu_hwct.Common.Int.{pos, signed32}
use soc_fpga_bjtu_hwct.Common.Word.{u32}
use soc_fpga_bjtu_hwct.Common.Bits.{bit_and_shifted, bit_and_mask}
use soc_fpga_bjtu_hwct.Device.Map.{Io, page_size, io_space_max, page_aligned, advance, new_space}

abbrev rounded : ℕ → ℕ
rounded size = (size + (page_size - 1)) / page_size * page_size

and_pages :
    (size : ℕ)
    → size < 2 ^ 31
    → bit_and (size + (page_size - 1)) (2 ^ 64 - page_size) ≡ rounded size
and_pages size h = ground (
  arith,
  bit_and_shifted 12 (size + (page_size - 1)) (2 ^ 52 - 1),
  bit_and_mask 52 ((size + (page_size - 1)) / page_size),
)

signed32_small : (x : ℕ) → x < 2 ^ 31 → signed32 (u32 x) ≡ pos x
signed32_small x h = ground arith

page_aligned_lem : (size : ℕ) → size ≤ 2 ^ 31 - page_size → page_aligned size ≡ pos (rounded size)
unfolding page_aligned
page_aligned_lem size h =
    ap (λ x. signed32 (u32 x)) (and_pages size (omega arith))
    ∙ signed32_small (rounded size) (omega arith)

-- For a size of at most 2^31 - 2^12, a space that `new_space` gives starts where the last one ended,
-- is as long as asked for, ends inside the block, and the next one starts on a page boundary again.
pub new_space-ok :
    {D : Type 0} (size p : ℕ) (io io' : Io D)
    → size ≤ 2 ^ 31 - page_size
    → io.p_space % page_size ≡ 0
    → new_space size io ≡ ok (p, io')
    → (p ≡ io.p_space)
      × (p + size ≤ io'.p_space)
      × (io'.p_space < io_space_max)
      × (io'.p_space % page_size ≡ 0)
      × (io'.io_space ≡ io.io_space)
      × (io'.dev ≡ io.dev)
unfolding new_space advance
new_space-ok size p io io' small aligned e = ground (arith, page_aligned_lem size small)
