-- ===== src/Memory/Paddr/Words.antt =====
-- Memory answers every read with a word, devices included, so that the emulator with the memory
-- system of nemu/src/memory keeps its registers well-formed.
use soc_fpga_bjtu_hwct.Common.{
  ℕ, zero, suc, ◌+◌, ◌-◌, ◌*◌, ◌%◌, ◌^◌, ◌<◌, ◌≤◌, arith, Bool, false, List, Option, none, some,
  get_elem?, ◌==◌, leb, ◌&&◌, if_both,
}
use native.Mathlib.Nat.{pow-le-pow_right}
use soc_fpga_bjtu_hwct.Common.Outcome.{
  Outcome, ok, fault, assert, Ensures, Ensures-weaken, Ensures-bind, Ensures-then, Ensures-elim,
}
use soc_fpga_bjtu_hwct.Common.Word.{IsWord, u32}
use soc_fpga_bjtu_hwct.Isa.Exec.Invariant.{IsWordBus}
use soc_fpga_bjtu_hwct.Memory.Config.{Config, in_pmem}
use soc_fpga_bjtu_hwct.Memory.Host.{load_byte, load_bytes, host_read}
use soc_fpga_bjtu_hwct.Memory.Host.Access.{two_pow_bytes}
use soc_fpga_bjtu_hwct.Device.Map.{Io, IoMap, check_bound, invoke_callback, map_read}
use soc_fpga_bjtu_hwct.Device.Mmio.{fetch_mmio_map, mmio_read}
use soc_fpga_bjtu_hwct.Memory.Paddr.{Memory, guest_to_host, pmem_read, paddr_read, vaddr_bus}

load_byte-fits : (space : List ℕ) (i : ℕ) → Ensures (λ v. v < 2 ^ 8) (load_byte space i)
load_byte-fits space i =
    elim (get_elem? space i)
      as (λ o. Ensures (λ v. v < 2 ^ 8) (elim o [ none ↦ fault | some b ↦ ok (b % 2 ^ 8) ])) [
        | none ↦ tt
        | some b ↦ omega arith
      ]

load_bytes-fits : (space : List ℕ) (i n : ℕ) → Ensures (λ v. v < 2 ^ (8 * n)) (load_bytes space i n)
unfolding load_bytes
load_bytes-fits space i zero = omega arith
load_bytes-fits space i (suc n) =
    Ensures-bind (λ b. b < 2 ^ 8) (λ v. v < 2 ^ (8 * suc n)) (load_byte space i) _
      (load_byte-fits space i)
      (λ b hb.
        Ensures-bind (λ high. high < 2 ^ (8 * n)) (λ v. v < 2 ^ (8 * suc n))
          (load_bytes space (i + 1) n) _ (load_bytes-fits space (i + 1) n)
          (λ high hh. omega (arith, two_pow_bytes n)))

host_read-IsWord : (space : List ℕ) (i len : ℕ) → Ensures IsWord (host_read space i len)
unfolding host_read
host_read-IsWord space i len =
    let narrow : (n : ℕ) → n ≤ 4 → Ensures IsWord (load_bytes space i n) = λ n h.
      Ensures-weaken (λ v. v < 2 ^ (8 * n)) IsWord (load_bytes space i n)
        (load_bytes-fits space i n)
        (λ v small.
          omega
            (arith, pow-le-pow_right {n = 2} (omega arith) {i = 8 * n} {j = 32} (omega arith))) in
    if_both (Ensures IsWord) (len == 1) (narrow 1 (omega arith)) (
      if_both (Ensures IsWord) (len == 2) (narrow 2 (omega arith))
        (if_both (Ensures IsWord) (len == 4) (narrow 4 (omega arith)) tt))

pmem_read-IsWord :
    (cfg : Config) (addr len : ℕ) (pmem : List ℕ) → Ensures IsWord (pmem_read cfg addr len pmem)
unfolding pmem_read
pmem_read-IsWord cfg addr len pmem =
    Ensures-then IsWord (guest_to_host cfg addr) (λ i. host_read pmem i len)
      (λ i. host_read-IsWord pmem i len)

-- An answer and the state behind it.
abbrev Answers : {S : Type 0} → ℕ × S → Type 0
Answers r = IsWord (r.0)

module _ {C D : Type 0} (cfg : Config) (call : C → ℕ → ℕ → Bool → Io D → Outcome (Io D))
    (maps : List (IoMap C)) where
  map_read-IsWord :
      (addr len : ℕ) (map : Option (IoMap C)) (io : Io D)
      → Ensures Answers (map_read call addr len map io)
  unfolding map_read
  map_read-IsWord addr len map io = Ensures-then Answers (assert (leb 1 len && leb len 8)) _ (λ _.
      Ensures-then Answers (check_bound map addr) _ (λ m.
        Ensures-then Answers (invoke_callback call m.callback (u32 (addr - m.low)) len false io) _
          (λ io'.
            let at = m.space + u32 (addr - m.low) in
            Ensures-bind IsWord Answers (host_read io'.io_space at len) _
              (host_read-IsWord io'.io_space at len) (λ v h. h))))

  paddr_read-IsWord :
      (addr len : ℕ) (m : Memory D) → Ensures Answers (paddr_read cfg call maps addr len m)
  unfolding paddr_read mmio_read
  paddr_read-IsWord addr len m =
      if_both (Ensures Answers) (in_pmem cfg addr)
        (Ensures-bind IsWord Answers (pmem_read cfg addr len m.pmem) (λ v. ok (v, m))
          (pmem_read-IsWord cfg addr len m.pmem) (λ v h. h))
        (if_both (Ensures Answers) cfg.device
          (Ensures-bind Answers Answers (mmio_read call maps addr len m.io)
            (λ r. ok (r.0, record m { io = r.1 }))
            (map_read-IsWord addr len (fetch_mmio_map maps addr) m.io) (λ _ h. h))
          tt)

  -- Every word that memory or a device answers is a 32-bit word, whatever the callbacks do.
  pub vaddr_bus-IsWordBus : IsWordBus (vaddr_bus cfg call maps)
  unfolding vaddr_bus
  vaddr_bus-IsWordBus = record {
    read_word = λ addr len s v s' e.
        Ensures-elim Answers (paddr_read cfg call maps addr len s) (paddr_read-IsWord addr len s) e;
  }
