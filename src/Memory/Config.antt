-- ===== src/Memory/Config.antt =====
-- The values of nemu/include/generated/autoconf.h that the memory code uses (a file that the build
-- generates), and `in_pmem` of nemu/include/memory/paddr.h.
use soc_fpga_bjtu_hwct.Common.{ℕ, ◌+◌, ◌-◌, ◌^◌, Bool, ltb}
use soc_fpga_bjtu_hwct.Common.Word.{u32}

pub record Config : Type 0 where
  pub mbase : ℕ
  pub msize : ℕ
  pub pc_reset_offset : ℕ
  pub device : Bool

-- RESET_VECTOR
abbrev pub reset_vector : Config → ℕ
reset_vector cfg = u32 (cfg.mbase + cfg.pc_reset_offset)

-- An address is a `uint32_t`, and so is the difference.
unfoldable pub in_pmem : Config → ℕ → Bool
in_pmem cfg addr = ltb (u32 (addr + 2 ^ 32 - cfg.mbase)) cfg.msize
