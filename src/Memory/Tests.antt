-- ===== src/Memory/Tests.antt =====
-- The theorems on memory at concrete inputs.
use soc_fpga_bjtu_hwct.Common.{ℕ, ◌+◌, ◌≤◌, ◌≡◌, ◌⊎◌, refl, arith, Bool, true, false, [], replicate}
use soc_fpga_bjtu_hwct.Common.Outcome.{Outcome, ok, fault}
use soc_fpga_bjtu_hwct.Memory.Config.{Config}
use soc_fpga_bjtu_hwct.Memory.Host.Access.{is_access_len}
use soc_fpga_bjtu_hwct.Memory.Paddr.{Memory, pmem_read, paddr_read, paddr_write}
use soc_fpga_bjtu_hwct.Memory.Paddr.Access.{HasMemory, paddr_read-paddr_write, paddr_read-edge}
use soc_fpga_bjtu_hwct.Device.Map.{Io}

-- Eight bytes of memory at the usual base, no devices.
abbrev small_config : Config
small_config = record { mbase = 0x80000000; msize = 8; pc_reset_offset = 0; device = false }

abbrev no_call : ℕ → ℕ → ℕ → Bool → Io ℕ → Outcome (Io ℕ)
no_call c offset len is_write io = ok io

abbrev memory0 : Memory ℕ
memory0 = record { pmem = replicate 8 1; io = record { io_space = []; p_space = 0; dev = 0 } }

memory0-HasMemory : HasMemory small_config memory0
memory0-HasMemory = record { in_range = omega arith; sized = refl }

four_known : is_access_len 4 ≡ true
unfolding is_access_len
four_known = refl

paddr_read-paddr_write_example :
    (m' : Memory ℕ) × (paddr_write small_config no_call [] 0x80000004 4 0xdeadbeef memory0 ≡ ok m')
    × HasMemory small_config m'
    × (m'.io ≡ memory0.io)
    × (paddr_read small_config no_call [] 0x80000004 4 m' ≡ ok (0xdeadbeef, m'))
    × ((a n : ℕ)
        → is_access_len n ≡ true
        → 0x80000000 ≤ a
        → (a + n ≤ 0x80000004) ⊎ (0x80000008 ≤ a)
        → pmem_read small_config a n m'.pmem ≡ pmem_read small_config a n (replicate 8 1))
paddr_read-paddr_write_example =
    paddr_read-paddr_write small_config no_call [] 0x80000004 4 0xdeadbeef memory0 memory0-HasMemory
      four_known (omega arith) (omega arith)

paddr_read-edge_example : paddr_read small_config no_call [] 0x80000007 4 memory0 ≡ fault
paddr_read-edge_example =
    paddr_read-edge small_config no_call [] memory0 memory0-HasMemory (omega arith)
