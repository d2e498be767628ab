-- ===== src/Common/Word.antt =====
-- Machine words as native numbers: casts to the fixed widths, shifts, and the bit macros of
-- nemu/include/macro.h (BITMASK, BITS, SEXT), which work on uint64_t.
use Prim.Native.Nat.{ℕ, ◌+◌, ◌-◌, ◌*◌, ◌/◌, ◌%◌, ◌^◌, ◌<◌, bit_and}
use soc_fpga_bjtu_hwct.Common.Tests.{ltb, if◌then◌else◌}

abbrev pub u32 : ℕ → ℕ
u32 n = n % 2 ^ 32

abbrev pub u64 : ℕ → ℕ
u64 n = n % 2 ^ 64

infixl 75 ◌>>>◌
abbrev pub ◌>>>◌ : ℕ → ℕ → ℕ
x >>> k = x / 2 ^ k

-- `uint32_t` and `uint64_t` shifts to the left.
abbrev pub shl32 : ℕ → ℕ → ℕ
shl32 x k = u32 (x * 2 ^ k)

abbrev pub shl64 : ℕ → ℕ → ℕ
shl64 x k = u64 (x * 2 ^ k)

-- `~x` on 32 bits.
abbrev pub not32 : ℕ → ℕ
not32 x = 2 ^ 32 - 1 - x

abbrev pub IsWord : ℕ → Type 0
IsWord x = x < 2 ^ 32

unfoldable pub bitmask : ℕ → ℕ
bitmask n = u64 (2 ^ n - 1)

unfoldable pub bits : ℕ → ℕ → ℕ → ℕ
unfolding bitmask
bits x hi lo = bit_and (x >>> lo) (bitmask (hi - lo + 1))

-- A signed bit-field of `len` bits, widened to 64.
unfoldable pub sext : ℕ → ℕ → ℕ
sext x len =
    let low = x % 2 ^ len in if ltb low (2 ^ (len - 1)) then low else low + (2 ^ 64 - 2 ^ len)
