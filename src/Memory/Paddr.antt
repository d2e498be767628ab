-- ===== src/Memory/Paddr.antt =====
-- Physical and virtual addresses: nemu/src/memory/paddr.c and nemu/src/memory/vaddr.c. The memory
-- `pmem` is a list of bytes; a pointer into it is an index, and one in front of it is undefined.
pub mod Access
pub mod Words
use soc_fpga_bjtu_hwct.Common.{ℕ, ◌+◌, ◌-◌, Bool, List, leb, if◌then◌else◌}
use soc_fpga_bjtu_hwct.Common.Outcome.{Outcome, ok, failed, fault, ◌>>=◌}
use soc_fpga_bjtu_hwct.Isa.State.{Bus}
use soc_fpga_bjtu_hwct.Memory.Config.{Config, in_pmem}
use soc_fpga_bjtu_hwct.Memory.Host.{host_read, host_write}
use soc_fpga_bjtu_hwct.Device.Map.{Io, IoMap}
use soc_fpga_bjtu_hwct.Device.Mmio.{mmio_read, mmio_write}

pub record Memory (D : Type 0) : Type 0 where
  pub pmem : List ℕ
  pub io : Io D

unfoldable pub guest_to_host : Config → ℕ → Outcome ℕ
guest_to_host cfg paddr = if leb cfg.mbase paddr then ok (paddr - cfg.mbase) else fault

unfoldable pub pmem_read : Config → ℕ → ℕ → List ℕ → Outcome ℕ
unfolding guest_to_host host_read
pmem_read cfg addr len pmem = do i ← guest_to_host cfg addr; host_read pmem i len

unfoldable pub pmem_write : Config → ℕ → ℕ → ℕ → List ℕ → Outcome (List ℕ)
unfolding guest_to_host host_write
pmem_write cfg addr len data_word pmem = do
  i ← guest_to_host cfg addr
  host_write pmem i len data_word

-- `out_of_bound` is a panic.
module _ {C D : Type 0} (cfg : Config) (call : C → ℕ → ℕ → Bool → Io D → Outcome (Io D))
    (maps : List (IoMap C)) where
  unfoldable pub paddr_read : ℕ → ℕ → Memory D → Outcome (ℕ × Memory D)
  unfolding in_pmem pmem_read mmio_read
  paddr_read addr len m =
      if in_pmem cfg addr
      then (pmem_read cfg addr len m.pmem >>= (λ v. ok (v, m)))
      else if cfg.device
      then (mmio_read call maps addr len m.io >>= (λ r. ok (r.0, record m { io = r.1 })))
      else failed

  unfoldable pub paddr_write : ℕ → ℕ → ℕ → Memory D → Outcome (Memory D)
  unfolding in_pmem pmem_write mmio_write
  paddr_write addr len data_word m =
      if in_pmem cfg addr
      then (pmem_write cfg addr len data_word m.pmem >>= (λ pmem. ok (record m { pmem = pmem })))
      else if cfg.device
      then (mmio_write call maps addr len data_word m.io >>= (λ io. ok (record m { io = io })))
      else failed

  unfoldable pub vaddr_ifetch : ℕ → ℕ → Memory D → Outcome (ℕ × Memory D)
  unfolding paddr_read
  vaddr_ifetch addr len m = paddr_read addr len m

  unfoldable pub vaddr_read : ℕ → ℕ → Memory D → Outcome (ℕ × Memory D)
  unfolding paddr_read
  vaddr_read addr len m = paddr_read addr len m

  unfoldable pub vaddr_write : ℕ → ℕ → ℕ → Memory D → Outcome (Memory D)
  unfolding paddr_write
  vaddr_write addr len data_word m = paddr_write addr len data_word m

  -- What the instructions see. A fetch and a load are the same here.
  unfoldable pub vaddr_bus : Bus (Memory D)
  unfolding vaddr_read vaddr_write
  vaddr_bus = record { read = vaddr_read; write = vaddr_write }
