-- ===== src/Device/Mmio/Registry.antt =====
-- The table of maps of nemu/src/device/io/mmio.c: `add_mmio_map` keeps the regions apart, so that
-- the map of an address is the only one that holds it.
use soc_fpga_bjtu_hwct.Common.{
  ℕ, zero, suc, ◌+◌, ◌-◌, ◌^◌, ◌≤◌, ◌<◌, ◌≡◌, ◌⊎◌, arith, true, false, List, [], ◌∷◌, ◌++◌, Option,
  some, get_elem?, All, ltb, ◌||◌, length, length-append, not,
}
use mathlib.Core.Path.{subst}
use soc_fpga_bjtu_hwct.Common.Outcome.{ok, assert-bind}
use soc_fpga_bjtu_hwct.Common.Word.{u32, IsWord}
use soc_fpga_bjtu_hwct.Memory.Config.{Config, in_pmem}
use soc_fpga_bjtu_hwct.Device.Map.{IoMap, map_inside, find_mapid_by_addr}
use soc_fpga_bjtu_hwct.Device.Mmio.{
  nr_map_max, overlaps, overlaps_any, add_mmio_map, fetch_mmio_map,
}

-- An address that is not one of the memory's.
abbrev pub Outside : Config → ℕ → Type 0
Outside cfg addr = (addr < cfg.mbase) ⊎ (cfg.mbase + cfg.msize ≤ addr)

in_pmem-Outside :
    (cfg : Config) (addr : ℕ) → IsWord addr → in_pmem cfg addr ≡ false → Outside cfg addr
unfolding in_pmem
in_pmem-Outside cfg addr word out = ground arith

module _ {C : Type 0} where
  -- Two regions that do not meet: one ends before the other starts.
  abbrev pub Apart : IoMap C → IoMap C → Type 0
  Apart m m' = (m.high < m'.low) ⊎ (m'.high < m.low)

  abbrev pub Pairwise : List (IoMap C) → Type 0
  Pairwise [] = Unit
  Pairwise (m ∷ maps) = All (Apart m) maps × Pairwise maps

  abbrev pub EndsOutside : Config → IoMap C → Type 0
  EndsOutside cfg m = Outside cfg m.low × Outside cfg m.high

  pub record IsRegistry (cfg : Config) (maps : List (IoMap C)) : Type 0 where
    pub fits : length maps ≤ nr_map_max
    pub apart : Pairwise maps
    pub outside : All (EndsOutside cfg) maps

  All-append :
      (P : IoMap C → Type 0) (xs : List (IoMap C)) (x : IoMap C)
      → All P xs
      → P x
      → All P (xs ++ (x ∷ []))
  All-append P [] x h p = (p, tt)
  All-append P (y ∷ xs) x h p = (h.0, All-append P xs x h.1 p)

  Pairwise-append :
      (maps : List (IoMap C)) (m : IoMap C)
      → Pairwise maps
      → overlaps_any m.low m.high maps ≡ false
      → Pairwise (maps ++ (m ∷ []))
  unfolding overlaps_any overlaps
  Pairwise-append [] m apart free = (tt, tt)
  Pairwise-append (x ∷ maps) m apart free = (
    All-append (Apart x) maps m apart.0 (ground (arith, free)),
    Pairwise-append maps m apart.1 (ground (arith, free)),
  )

  -- Adding a region at a 32-bit address to a table keeps it a table of at most 16 regions, of which
  -- any two lie one behind the other, and whose first and last addresses are not the memory's.
  pub add_mmio_map-IsRegistry :
      (cfg : Config) (maps maps' : List (IoMap C)) (addr space len : ℕ) (callback : Option C)
      → IsWord addr
      → IsRegistry cfg maps
      → add_mmio_map cfg addr space len callback maps ≡ ok maps'
      → IsRegistry cfg maps'
  unfolding add_mmio_map
  add_mmio_map-IsRegistry cfg maps maps' addr space len callback word r e =
      let right = u32 (addr + len + (2 ^ 32 - 1)) in
      let m : IoMap C = record { low = addr; high = right; space = space; callback = callback } in
      let (small, e1) = assert-bind (ltb (length maps) nr_map_max) _ e in
      let (ends, e2) = assert-bind (not (in_pmem cfg addr || in_pmem cfg right)) _ e1 in
      let (free, e3) =
        assert-bind (not (overlaps_any addr right maps)) (ok (maps ++ (m ∷ []))) e2 in
      let done : maps ++ (m ∷ []) ≡ maps' = cc e3 in
      subst (IsRegistry cfg) done (record {
        fits = ground (arith, length-append maps (m ∷ []), small, r.fits);
        apart = Pairwise-append maps m r.apart (ground (arith, free));
        outside = All-append (EndsOutside cfg) maps m r.outside (
          in_pmem-Outside cfg addr word (ground (arith, ends)),
          in_pmem-Outside cfg right (omega arith) (ground (arith, ends)),
        );
      })

  All-get_elem? :
      (P : IoMap C → Type 0) (xs : List (IoMap C)) (i : ℕ) {x : IoMap C}
      → All P xs
      → get_elem? xs i ≡ some x
      → P x
  All-get_elem? P [] i h e = absurd (cc e)
  All-get_elem? P (y ∷ xs) zero h e = subst P (cc e) h.0
  All-get_elem? P (y ∷ xs) (suc i) h e = All-get_elem? P xs i h.1 e

  find_mapid_by_addr_unique :
      (maps : List (IoMap C)) (i addr : ℕ) (m : IoMap C)
      → Pairwise maps
      → get_elem? maps i ≡ some m
      → map_inside m addr ≡ true
      → find_mapid_by_addr maps addr ≡ some i
  unfolding find_mapid_by_addr
  find_mapid_by_addr_unique [] i addr m apart e inside = absurd (cc e)
  find_mapid_by_addr_unique (x ∷ maps) zero addr m apart e inside = ground (arith, e, inside)
  find_mapid_by_addr_unique (x ∷ maps) (suc i) addr m apart e inside = ground (
    arith,
    All-get_elem? (Apart x) maps i apart.0 e,
    inside,
    find_mapid_by_addr_unique maps i addr m apart.1 e inside,
  )

  -- Where an address lies in a region of the table, the search returns this region and no other.
  pub fetch_mmio_map_unique :
      (cfg : Config) (maps : List (IoMap C)) (i addr : ℕ) (m : IoMap C)
      → IsRegistry cfg maps
      → get_elem? maps i ≡ some m
      → map_inside m addr ≡ true
      → fetch_mmio_map maps addr ≡ some m
  unfolding fetch_mmio_map
  fetch_mmio_map_unique cfg maps i addr m r e inside =
      ground (arith, find_mapid_by_addr_unique maps i addr m r.apart e inside, e)
