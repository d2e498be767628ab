-- ===== src/Device/Mmio.antt =====
-- Memory-mapped devices: nemu/src/device/io/mmio.c. The maps in use are a list, whose length is
-- `nr_map`.
pub mod Registry
use soc_fpga_bjtu_hwct.Common.{
  ℕ, ◌+◌, ◌-◌, ◌^◌, Bool, false, true, not, ◌&&◌, ◌||◌, List, [], ◌∷◌, ◌++◌, Option, none, some,
  ltb, leb, length, get_elem?, if◌then◌else◌,
}
use soc_fpga_bjtu_hwct.Common.Outcome.{Outcome, ok, failed, assert, ◌>>=◌}
use soc_fpga_bjtu_hwct.Common.Word.{u32}
use soc_fpga_bjtu_hwct.Memory.Config.{Config, in_pmem}
use soc_fpga_bjtu_hwct.Device.Map.{Io, IoMap, find_mapid_by_addr, map_read, map_write}

abbrev pub nr_map_max : ℕ
nr_map_max = 16

module _ {C : Type 0} where
  -- The test of the loop of `add_mmio_map`.
  unfoldable pub overlaps : ℕ → ℕ → IoMap C → Bool
  overlaps left right m = leb left m.high && leb m.low right

  unfoldable pub overlaps_any : ℕ → ℕ → List (IoMap C) → Bool
  unfolding overlaps
  overlaps_any left right [] = false
  overlaps_any left right (m ∷ maps) = overlaps left right m || overlaps_any left right maps

  -- The sum is a `uint32_t`; an overlap is a panic.
  unfoldable pub add_mmio_map :
      Config → ℕ → ℕ → ℕ → Option C → List (IoMap C) → Outcome (List (IoMap C))
  unfolding in_pmem overlaps_any
  add_mmio_map cfg addr space len callback maps =
      let right = u32 (addr + len + (2 ^ 32 - 1)) in
      do
        _ ← assert (ltb (length maps) nr_map_max)
        _ ← assert (not (in_pmem cfg addr || in_pmem cfg right))
        _ ← assert (not (overlaps_any addr right maps))
        ok (maps ++ (record { low = addr; high = right; space = space; callback = callback } ∷ []))

  -- NULL is `none`.
  unfoldable pub fetch_mmio_map : List (IoMap C) → ℕ → Option (IoMap C)
  unfolding find_mapid_by_addr
  fetch_mmio_map maps addr = elim (find_mapid_by_addr maps addr) [
    | none ↦ none
    | some mapid ↦ get_elem? maps mapid
  ]

module _ {C D : Type 0} (call : C → ℕ → ℕ → Bool → Io D → Outcome (Io D))
    (maps : List (IoMap C)) where
  unfoldable pub mmio_read : ℕ → ℕ → Io D → Outcome (ℕ × Io D)
  unfolding fetch_mmio_map map_read
  mmio_read addr len io = map_read call addr len (fetch_mmio_map maps addr) io

  unfoldable pub mmio_write : ℕ → ℕ → ℕ → Io D → Outcome (Io D)
  unfolding fetch_mmio_map map_write
  mmio_write addr len data_word io = map_write call addr len data_word (fetch_mmio_map maps addr) io
