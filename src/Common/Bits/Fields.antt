-- ===== src/Common/Bits/Fields.antt =====
-- The macros BITS and SEXT of nemu/include/macro.h as arithmetic.
use Prim.Native.Nat.{ℕ, ◌+◌, ◌-◌, ◌/◌, ◌%◌, ◌^◌, ◌≤◌}
use mathlib.Core.Path.{◌≡◌}
use native.Mathlib.Nat.{one-le-pow, pow-le-pow_right}
use native.Mathlib.Omega.{arith}
use soc_fpga_bjtu_hwct.Common.Word.{bits}
use soc_fpga_bjtu_hwct.Common.Bits.{bit_and_mask}

-- `BITS` is a quotient and a remainder, for at most 64 bits.
pub bits_lem : (w hi lo n : ℕ) → hi - lo + 1 ≡ n → n ≤ 64 → bits w hi lo ≡ w / 2 ^ lo % 2 ^ n
unfolding bits
bits_lem w hi lo n e h = ground (
  arith,
  one-le-pow n 2,
  pow-le-pow_right {n = 2} (omega arith) {i = n} {j = 64} h,
  bit_and_mask n (w / 2 ^ lo),
)
