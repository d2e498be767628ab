-- ===== src/Memory/Paddr/Access.antt =====
-- The emulated memory answers a read with what was written last: `paddr_read` and `paddr_write` of
-- nemu/src/memory/paddr.c.
use soc_fpga_bjtu_hwct.Common.{
  ℕ, ◌+◌, ◌-◌, ◌*◌, ◌%◌, ◌^◌, ◌<◌, ◌≤◌, ◌≡◌, ◌⊎◌, refl, ◌∙◌, arith, Bool, true, List, length, leb,
}
use soc_fpga_bjtu_hwct.Common.Outcome.{Outcome, ok, fault, ◌>>=◌}
use soc_fpga_bjtu_hwct.Memory.Config.{Config, in_pmem}
use soc_fpga_bjtu_hwct.Memory.Host.{host_read, host_write}
use soc_fpga_bjtu_hwct.Memory.Host.Access.{
  is_access_len, is_access_len-positive, host_read-host_write, host_read-past,
}
use soc_fpga_bjtu_hwct.Device.Map.{Io, IoMap}
use soc_fpga_bjtu_hwct.Memory.Paddr.{Memory, pmem_read, pmem_write, paddr_read, paddr_write}

-- The memory lies within the 32-bit addresses, and has its size.
pub record HasMemory {D : Type 0} (cfg : Config) (m : Memory D) : Type 0 where
  pub in_range : cfg.mbase + cfg.msize ≤ 2 ^ 32
  pub sized : length m.pmem ≡ cfg.msize

in_pmem-inside :
    (cfg : Config) (addr : ℕ)
    → cfg.mbase + cfg.msize ≤ 2 ^ 32
    → cfg.mbase ≤ addr
    → addr < cfg.mbase + cfg.msize
    → in_pmem cfg addr ≡ true
unfolding in_pmem
in_pmem-inside cfg addr range lo hi = ground arith

ge : (a b : ℕ) → a ≤ b → leb a b ≡ true
ge a b h = ground arith

pmem_read-inside :
    (cfg : Config) (addr len : ℕ) (pmem : List ℕ)
    → cfg.mbase ≤ addr
    → pmem_read cfg addr len pmem ≡ host_read pmem (addr - cfg.mbase) len
unfolding pmem_read
pmem_read-inside cfg addr len pmem lo = rw (ge cfg.mbase addr lo, pmem_read) refl

pmem_write-inside :
    (cfg : Config) (addr len v : ℕ) (pmem : List ℕ)
    → cfg.mbase ≤ addr
    → pmem_write cfg addr len v pmem ≡ host_write pmem (addr - cfg.mbase) len v
unfolding pmem_write
pmem_write-inside cfg addr len v pmem lo = rw (ge cfg.mbase addr lo, pmem_write) refl

module _ {C D : Type 0} (cfg : Config) (call : C → ℕ → ℕ → Bool → Io D → Outcome (Io D))
    (maps : List (IoMap C)) where
  paddr_read-inside :
      (addr len : ℕ) (m : Memory D)
      → in_pmem cfg addr ≡ true
      → paddr_read cfg call maps addr len m ≡ (pmem_read cfg addr len m.pmem >>= (λ v. ok (v, m)))
  unfolding paddr_read
  paddr_read-inside addr len m inside = rw inside refl

  paddr_write-inside :
      (addr len v : ℕ) (m : Memory D)
      → in_pmem cfg addr ≡ true
      → paddr_write cfg call maps addr len v m
        ≡ (pmem_write cfg addr len v m.pmem >>= (λ pmem. ok (record m { pmem = pmem })))
  unfolding paddr_write
  paddr_write-inside addr len v m inside = rw inside refl

  -- In a memory of its size, within the 32-bit addresses, a write of one, two or four bytes that
  -- lies inside succeeds, leaves the memory of its size and the devices as they were, is read back
  -- modulo `2 ^ (8 * len)`, and no read of bytes apart from these notices it.
  pub paddr_read-paddr_write :
      (addr len v : ℕ) (m : Memory D)
      → HasMemory cfg m
      → is_access_len len ≡ true
      → cfg.mbase ≤ addr
      → addr + len ≤ cfg.mbase + cfg.msize
      → (m' : Memory D) × (paddr_write cfg call maps addr len v m ≡ ok m')
        × HasMemory cfg m'
        × (m'.io ≡ m.io)
        × (paddr_read cfg call maps addr len m' ≡ ok (v % 2 ^ (8 * len), m'))
        × ((a n : ℕ)
            → is_access_len n ≡ true
            → cfg.mbase ≤ a
            → (a + n ≤ addr) ⊎ (addr + len ≤ a)
            → pmem_read cfg a n m'.pmem ≡ pmem_read cfg a n m.pmem)
  paddr_read-paddr_write addr len v m has known lo hi =
      let positive = is_access_len-positive len known in
      let inside = in_pmem-inside cfg addr has.in_range lo (omega arith) in
      let (pmem, written, kept, back, frame) =
        host_read-host_write m.pmem (addr - cfg.mbase) len v known (omega (arith, has.sized)) in
      (
        record m { pmem = pmem },
        rw
            (
              paddr_write-inside addr len v m inside,
              pmem_write-inside cfg addr len v m.pmem lo,
              written,
            )
            refl,
        record { in_range = has.in_range; sized = kept ∙ has.sized },
        refl,
        rw
            (
              paddr_read-inside addr len (record m { pmem = pmem }) inside,
              pmem_read-inside cfg addr len pmem lo,
              back,
            )
            refl,
        λ a n known' lo' apart.
            rw (pmem_read-inside cfg a n pmem lo', pmem_read-inside cfg a n m.pmem lo')
              (frame (a - cfg.mbase) n known' (ground arith)),
      )

  -- The guard looks at the first byte only: a read of four bytes at the last byte of the memory
  -- leaves the array.
  pub paddr_read-edge :
      (m : Memory D)
      → HasMemory cfg m
      → 0 < cfg.msize
      → paddr_read cfg call maps (cfg.mbase + cfg.msize - 1) 4 m ≡ fault
  paddr_read-edge m has some_bytes =
      let addr = cfg.mbase + cfg.msize - 1 in
      rw
        (
          paddr_read-inside addr 4 m
              (in_pmem-inside cfg addr has.in_range (omega arith) (omega arith)),
          pmem_read-inside cfg addr 4 m.pmem (omega arith),
          host_read-past m.pmem (addr - cfg.mbase) (omega (arith, has.sized)),
        )
        refl
