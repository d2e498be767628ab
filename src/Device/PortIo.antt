-- ===== src/Device/PortIo.antt =====
-- Devices behind ports: nemu/src/device/io/port-io.c. The maps in use are a list, whose length is
-- `nr_map`; a port number is a `uint16_t`.
use soc_fpga_bjtu_hwct.Common.{
  ℕ, ◌+◌, ◌-◌, ◌^◌, Bool, List, [], ◌∷◌, ◌++◌, Option, none, some, ltb, leb, length, get_elem?,
}
use soc_fpga_bjtu_hwct.Common.Outcome.{Outcome, ok, failed, assert, ◌>>=◌}
use soc_fpga_bjtu_hwct.Common.Word.{u32}
use soc_fpga_bjtu_hwct.Device.Map.{Io, IoMap, find_mapid_by_addr, map_read, map_write}
use soc_fpga_bjtu_hwct.Device.Mmio.{nr_map_max}

abbrev pub port_io_space_max : ℕ
port_io_space_max = 65535

unfoldable pub add_pio_map :
    {C : Type 0} → ℕ → ℕ → ℕ → Option C → List (IoMap C) → Outcome (List (IoMap C))
add_pio_map addr space len callback maps =
    let high = u32 (addr + len + (2 ^ 32 - 1)) in
    do
      _ ← assert (ltb (length maps) nr_map_max)
      _ ← assert (leb (u32 (addr + len)) port_io_space_max)
      ok (maps ++ (record { low = addr; high = high; space = space; callback = callback } ∷ []))

module _ {C D : Type 0} (call : C → ℕ → ℕ → Bool → Io D → Outcome (Io D))
    (maps : List (IoMap C)) where
  -- The assertion is on `addr + len - 1`, an `int`.
  unfoldable pub pio_read : ℕ → ℕ → Io D → Outcome (ℕ × Io D)
  unfolding find_mapid_by_addr map_read
  pio_read addr len io = do
    _ ← assert (leb (addr + len) port_io_space_max)
    elim (find_mapid_by_addr maps addr) [
      | none ↦ failed
      | some mapid ↦ map_read call addr len (get_elem? maps mapid) io
    ]

  unfoldable pub pio_write : ℕ → ℕ → ℕ → Io D → Outcome (Io D)
  unfolding find_mapid_by_addr map_write
  pio_write addr len data_word io = do
    _ ← assert (leb (addr + len) port_io_space_max)
    elim (find_mapid_by_addr maps addr) [
      | none ↦ failed
      | some mapid ↦ map_write call addr len data_word (get_elem? maps mapid) io
    ]
