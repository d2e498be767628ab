-- ===== src/Common/Bits.antt =====
-- `|`, `&` and `^` as recursions on binary digits, and what follows for masks and fields.
pub mod Step
pub mod Fields
use Step.{bit_and_step, bit_or_step, bit_xor_step}
use Prim.Native.Nat.{ℕ, zero, suc, ◌+◌, ◌-◌, ◌*◌, ◌/◌, ◌%◌, ◌^◌, ◌≤◌, ◌<◌, bit_and, bit_or, bit_xor}
use Prim.Native.Nat.{bit_and-bitwise, bit_or-bitwise, differ}
use mathlib.Core.Path.{◌≡◌, refl, ap}
use mathlib.Core.WellFounded
use native.Mathlib.Nat.{pow-suc, one-le-pow}
use native.Mathlib.Omega.{arith}
use soc_fpga_bjtu_hwct.Common.Order.{lt_wf}

-- A property of 0 that goes from `n / 2` to `n` holds of every number.
binary_induction : (P : ℕ → Type 0) → P 0 → ((n : ℕ) → P (suc n / 2) → P (suc n)) → (n : ℕ) → P n
binary_induction P base next n = WellFounded.induction lt_wf n (λ m smaller. by_cases m smaller)
  where
    by_cases : (m : ℕ) → ((j : ℕ) → j < m → P j) → P m
    by_cases zero smaller = base
    by_cases (suc m) smaller = next m (smaller (suc m / 2) (omega arith))

pub bit_or-zero : (x : ℕ) → bit_or x 0 ≡ x
bit_or-zero =
    binary_induction (λ x. bit_or x 0 ≡ x) refl
      (λ n half. omega (arith, bit_or_step (suc n) 0, half))

pub bit_and-zero : (x : ℕ) → bit_and x 0 ≡ 0
bit_and-zero =
    binary_induction (λ x. bit_and x 0 ≡ 0) refl
      (λ n half. omega (arith, bit_and_step (suc n) 0, half))

pub bit_or-zero_left : (y : ℕ) → bit_or 0 y ≡ y
bit_or-zero_left y = bit_or-bitwise 0 y

double_pow : (x k : ℕ) → x * 2 ^ suc k ≡ 2 * (x * 2 ^ k)
double_pow x k = let twice = pow-suc 2 k in omega (arith, ap (λ (scale : ℕ). x * scale) twice)

-- `&` works on the digits below and above `k` separately, and so does `|`.
pub bit_and_fields :
    (k hi lo hi' lo' : ℕ)
    → lo < 2 ^ k
    → lo' < 2 ^ k
    → bit_and (hi * 2 ^ k + lo) (hi' * 2 ^ k + lo') ≡ bit_and hi hi' * 2 ^ k + bit_and lo lo'
bit_and_fields zero hi lo hi' lo' fit fit' = ground (arith, bit_and-zero lo)
bit_and_fields (suc k) hi lo hi' lo' fit fit' =
    let rest = bit_and_fields k hi (lo / 2) hi' (lo' / 2) (omega arith) (omega arith) in
    ground (
      arith,
      rest,
      bit_and_step (hi * 2 ^ suc k + lo) (hi' * 2 ^ suc k + lo'),
      bit_and_step lo lo',
      double_pow hi k,
      double_pow hi' k,
      double_pow (bit_and hi hi') k,
    )

pub bit_or_split :
    (k hi lo hi' lo' : ℕ)
    → lo < 2 ^ k
    → lo' < 2 ^ k
    → bit_or (hi * 2 ^ k + lo) (hi' * 2 ^ k + lo') ≡ bit_or hi hi' * 2 ^ k + bit_or lo lo'
bit_or_split zero hi lo hi' lo' fit fit' = ground (arith, bit_or-zero 0)
bit_or_split (suc k) hi lo hi' lo' fit fit' =
    let rest = bit_or_split k hi (lo / 2) hi' (lo' / 2) (omega arith) (omega arith) in
    ground (
      arith,
      rest,
      bit_or_step (hi * 2 ^ suc k + lo) (hi' * 2 ^ suc k + lo'),
      bit_or_step lo lo',
      double_pow hi k,
      double_pow hi' k,
      double_pow (bit_or hi hi') k,
    )

-- `(x << k) | y` is a sum when `y` fits `k` bits.
pub bit_or_fields : (k x y : ℕ) → y < 2 ^ k → bit_or (x * 2 ^ k) y ≡ x * 2 ^ k + y
bit_or_fields k x y small =
    ground (arith, bit_or_split k x 0 0 y (omega arith) small, bit_or-zero x, bit_or-zero_left y)

bit_and_low : (k r : ℕ) → r < 2 ^ k → bit_and r (2 ^ k - 1) ≡ r
bit_and_low zero r fits = ground (arith, bit_and-zero r)
bit_and_low (suc k) r fits = ground (
  arith,
  bit_and_step r (2 ^ suc k - 1),
  pow-suc 2 k,
  one-le-pow k 2,
  bit_and_low k (r / 2) (omega (arith, pow-suc 2 k)),
)

-- A mask of `k` low bits is the remainder by `2 ^ k`.
pub bit_and_mask : (k a : ℕ) → bit_and a (2 ^ k - 1) ≡ a % 2 ^ k
bit_and_mask k a = ground (
  arith,
  one-le-pow k 2,
  bit_and_fields k (a / 2 ^ k) (a % 2 ^ k) 0 (2 ^ k - 1),
  bit_and-zero (a / 2 ^ k),
  bit_and_low k (a % 2 ^ k),
)

-- A mask whose low `k` bits are clear reads the digits above `k` alone.
pub bit_and_shifted : (k v m : ℕ) → bit_and v (m * 2 ^ k) ≡ bit_and (v / 2 ^ k) m * 2 ^ k
bit_and_shifted k v m =
    ground (
      arith,
      bit_and_fields k (v / 2 ^ k) (v % 2 ^ k) m 0,
      bit_and-zero (v % 2 ^ k),
      one-le-pow k 2,
    )

bit_and-zero_left : (b : ℕ) → bit_and 0 b ≡ 0
bit_and-zero_left b = bit_and-bitwise 0 b

pub bit_and-le : (x y : ℕ) → bit_and x y ≤ x
bit_and-le =
    binary_induction (λ x. (y : ℕ) → bit_and x y ≤ x) (λ y. omega (arith, bit_and-zero_left y))
      (λ n half y. omega (arith, bit_and_step (suc n) y, half (y / 2)))

pub bit_or-lt : (k a b : ℕ) → a < 2 ^ k → b < 2 ^ k → bit_or a b < 2 ^ k
bit_or-lt zero a b h g = ground (arith, bit_or-zero a)
bit_or-lt (suc k) a b h g = ground (
  arith,
  bit_or_step a b,
  pow-suc 2 k,
  bit_or-lt k (a / 2) (b / 2) (omega (arith, pow-suc 2 k)) (omega (arith, pow-suc 2 k)),
)

differ-lt : (a b : ℕ) → a < 2 → b < 2 → differ a b < 2
differ-lt zero b h g = g
differ-lt (suc zero) zero h g = omega arith
differ-lt (suc zero) (suc zero) h g = omega arith
differ-lt (suc zero) (suc (suc b)) h g = absurd (omega arith)
differ-lt (suc (suc a)) b h g = absurd (omega arith)

pub bit_xor-lt : (k a b : ℕ) → a < 2 ^ k → b < 2 ^ k → bit_xor a b < 2 ^ k
bit_xor-lt zero a b h g = let (e, f) = zeros in rw (e, f) (omega arith)
  where
    zeros : (a ≡ 0) × (b ≡ 0)
    zeros = omega arith
bit_xor-lt (suc k) a b h g = ground (
  arith,
  bit_xor_step a b,
  pow-suc 2 k,
  differ-lt (a % 2) (b % 2),
  bit_xor-lt k (a / 2) (b / 2) (omega (arith, pow-suc 2 k)) (omega (arith, pow-suc 2 k)),
)
