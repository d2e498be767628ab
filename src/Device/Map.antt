-- ===== src/Device/Map.antt =====
-- Device memory: nemu/src/device/io/map.c and nemu/include/device/map.h. The one block of memory
-- that holds the spaces of all devices is a list of bytes, and a pointer into it is an index. The
-- name of a map is used for messages only and left out. Callbacks are called by their names, a
-- type `C`, and `D` is the state that they work on.
pub mod Spaces
use soc_fpga_bjtu_hwct.Common.{
  ℕ, suc, ◌+◌, ◌-◌, ◌*◌, ◌^◌, Bool, true, false, ◌&&◌, List, [], ◌∷◌, Option, none, some, bit_and,
  ltb, leb, replicate, if◌then◌else◌,
}
use mathlib.Core.Option.{map}
use soc_fpga_bjtu_hwct.Common.Outcome.{Outcome, ok, failed, fault, assert, ◌>>=◌}
use soc_fpga_bjtu_hwct.Common.Int.{ℤ, pos, negsuc, signed32}
use soc_fpga_bjtu_hwct.Common.Word.{u32}
use soc_fpga_bjtu_hwct.Memory.Host.{host_read, host_write}

pub record Io (D : Type 0) : Type 0 where
  pub io_space : List ℕ
  pub p_space : ℕ
  pub dev : D

pub record IoMap (C : Type 0) : Type 0 where
  pub low : ℕ
  pub high : ℕ
  pub space : ℕ
  pub callback : Option C

abbrev pub page_size : ℕ
page_size = 2 ^ 12

abbrev pub io_space_max : ℕ
io_space_max = 32 * 1024 * 1024

-- The size, rounded up to pages: the type of `PAGE_SIZE` makes the sum a 64-bit one, which the
-- assignment to `size` converts to `int`.
unfoldable pub page_aligned : ℕ → ℤ
page_aligned size = signed32 (u32 (bit_and (size + (page_size - 1)) (2 ^ 64 - page_size)))

-- `p_space += size`; a pointer in front of the block is undefined.
unfoldable pub advance : ℕ → ℤ → Outcome ℕ
advance p (pos n) = ok (p + n)
advance p (negsuc n) = if ltb n p then ok (p - suc n) else fault

abbrev pub init_map : {D : Type 0} → D → Io D
init_map d = record { io_space = replicate io_space_max 0; p_space = 0; dev = d }

unfoldable pub new_space : {D : Type 0} → ℕ → Io D → Outcome (ℕ × Io D)
unfolding page_aligned advance
new_space size io = do
  p ← advance io.p_space (page_aligned size)
  _ ← assert (ltb p io_space_max)
  ok (io.p_space, record io { p_space = p })

module _ {C : Type 0} where
  unfoldable pub map_inside : IoMap C → ℕ → Bool
  map_inside m addr = leb m.low addr && leb addr m.high

  -- -1 is `none`.
  unfoldable pub find_mapid_by_addr : List (IoMap C) → ℕ → Option ℕ
  unfolding map_inside
  find_mapid_by_addr [] addr = none
  find_mapid_by_addr (m ∷ maps) addr =
      if map_inside m addr then some 0 else map suc (find_mapid_by_addr maps addr)

  -- The NULL map fails.
  unfoldable pub check_bound : Option (IoMap C) → ℕ → Outcome (IoMap C)
  check_bound none addr = failed
  check_bound (some m) addr = if leb addr m.high && leb m.low addr then ok m else failed

module _ {C D : Type 0} (call : C → ℕ → ℕ → Bool → Io D → Outcome (Io D)) where
  unfoldable pub invoke_callback : Option C → ℕ → ℕ → Bool → Io D → Outcome (Io D)
  invoke_callback none offset len is_write io = ok io
  invoke_callback (some c) offset len is_write io = call c offset len is_write io

  unfoldable pub map_read : ℕ → ℕ → Option (IoMap C) → Io D → Outcome (ℕ × Io D)
  unfolding check_bound invoke_callback host_read
  map_read addr len map io = do
    _ ← assert (leb 1 len && leb len 8)
    m ← check_bound map addr
    io' ← invoke_callback m.callback (u32 (addr - m.low)) len false io
    v ← host_read io'.io_space (m.space + u32 (addr - m.low)) len
    ok (v, io')

  unfoldable pub map_write : ℕ → ℕ → ℕ → Option (IoMap C) → Io D → Outcome (Io D)
  unfolding check_bound invoke_callback host_write
  map_write addr len data_word map io = do
    _ ← assert (leb 1 len && leb len 8)
    m ← check_bound map addr
    bytes ← host_write io.io_space (m.space + u32 (addr - m.low)) len data_word
    invoke_callback m.callback (u32 (addr - m.low)) len true (record io { io_space = bytes })
