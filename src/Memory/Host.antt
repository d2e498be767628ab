-- ===== src/Memory/Host.antt =====
-- Accesses to host memory: nemu/include/memory/host.h, on a little-endian host, with
-- CONFIG_RT_CHECK set and CONFIG_ISA64 not. A space is an array of `uint8_t`.
pub mod Access
use soc_fpga_bjtu_hwct.Common.{
  ℕ, zero, suc, ◌+◌, ◌*◌, ◌/◌, ◌%◌, ◌^◌, List, Option, none, some, ◌==◌, if◌then◌else◌, get_elem?,
  set,
}
use soc_fpga_bjtu_hwct.Common.Outcome.{Outcome, ok, failed, fault, ◌>>=◌}

-- One `uint8_t` of a space; outside of it the access is undefined.
abbrev pub load_byte : List ℕ → ℕ → Outcome ℕ
load_byte space i = elim (get_elem? space i) [ none ↦ fault | some b ↦ ok (b % 2 ^ 8) ]

abbrev pub store_byte : List ℕ → ℕ → ℕ → Outcome (List ℕ)
store_byte space i b = elim (get_elem? space i) [ none ↦ fault | some _ ↦ ok (set space i b) ]

-- `n` bytes from `i` on, the lowest first.
unfoldable pub load_bytes : List ℕ → ℕ → ℕ → Outcome ℕ
load_bytes space i zero = ok 0
load_bytes space i (suc n) = do
  b ← load_byte space i
  high ← load_bytes space (i + 1) n
  ok (b + 2 ^ 8 * high)

unfoldable pub store_bytes : List ℕ → ℕ → ℕ → ℕ → Outcome (List ℕ)
store_bytes space i zero v = ok space
store_bytes space i (suc n) v = do
  space' ← store_byte space i (v % 2 ^ 8)
  store_bytes space' (i + 1) n (v / 2 ^ 8)

unfoldable pub host_read : List ℕ → ℕ → ℕ → Outcome ℕ
unfolding load_bytes
host_read space i len =
    if len == 1
    then load_bytes space i 1
    else if len == 2
    then load_bytes space i 2
    else if len == 4
    then load_bytes space i 4
    else failed

unfoldable pub host_write : List ℕ → ℕ → ℕ → ℕ → Outcome (List ℕ)
unfolding store_bytes
host_write space i len v =
    if len == 1
    then store_bytes space i 1 v
    else if len == 2
    then store_bytes space i 2 v
    else if len == 4
    then store_bytes space i 4 v
    else failed
