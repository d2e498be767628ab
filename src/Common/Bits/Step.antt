-- ===== src/Common/Bits/Step.antt =====
-- One binary digit at a time: the native operations are defined by a recursion on digits that
-- spends fuel, and what is shown here no longer mentions it.
use Prim.Native.Nat.{ℕ, zero, suc, ◌+◌, ◌*◌, ◌/◌, ◌%◌, ◌≤◌, min, max, differ}
use Prim.Native.Nat.{bit_and, bit_or, bit_xor, digits, bitwise}
use Prim.Native.Nat.{bit_and-bitwise, bit_or-bitwise, bit_xor-bitwise}
use mathlib.Core.Path.{◌≡◌, refl, ap}
use native.Mathlib.Omega.{arith}

module _ (at_zero : ℕ → ℕ) (on_digit : ℕ → ℕ → ℕ) where
  -- Two amounts of fuel that both suffice for `x` give the same number.
  same_digits :
      {k l : ℕ} (x y : ℕ)
      → x ≤ k
      → x ≤ l
      → digits at_zero on_digit k x y ≡ digits at_zero on_digit l x y
  same_digits {k = zero} {l = zero} x y _ _ = refl
  same_digits {k = zero} {l = suc l} zero y _ _ = refl
  same_digits {k = zero} {l = suc l} (suc x) y below _ = absurd (omega arith)
  same_digits {k = suc k} {l = zero} zero y _ _ = refl
  same_digits {k = suc k} {l = zero} (suc x) y _ below = absurd (omega arith)
  same_digits {k = suc k} {l = suc l} zero y _ _ = refl
  same_digits {k = suc k} {l = suc l} (suc x) y fits also_fits =
      ap (λ high. high * 2 + on_digit (suc x % 2) (y % 2))
        (same_digits {k = k} {l = l} (suc x / 2) (y / 2) (omega arith) (omega arith))

  lowest_digit :
      (x y : ℕ)
      → bitwise at_zero on_digit (suc x) y
        ≡ bitwise at_zero on_digit (suc x / 2) (y / 2) * 2 + on_digit (suc x % 2) (y % 2)
  lowest_digit x y =
      ap (λ high. high * 2 + on_digit (suc x % 2) (y % 2))
        (same_digits {k = x} {l = suc x / 2} (suc x / 2) (y / 2) (omega arith) (omega arith))

pub bit_xor_step : (x y : ℕ) → bit_xor x y ≡ bit_xor (x / 2) (y / 2) * 2 + differ (x % 2) (y % 2)
bit_xor_step zero y =
    let same : differ 0 (y % 2) ≡ y % 2 = refl in simp bit_xor-bitwise (omega (arith, same))
bit_xor_step (suc x) y = simp bit_xor-bitwise (lowest_digit (λ rest. rest) differ x y)

pub bit_and_step : (x y : ℕ) → bit_and x y ≡ bit_and (x / 2) (y / 2) * 2 + min (x % 2) (y % 2)
bit_and_step (suc x) y = simp bit_and-bitwise (lowest_digit (λ rest. 0) min x y)
bit_and_step zero y = simp bit_and-bitwise (omega arith)

pub bit_or_step : (x y : ℕ) → bit_or x y ≡ bit_or (x / 2) (y / 2) * 2 + max (x % 2) (y % 2)
bit_or_step (suc x) y = simp bit_or-bitwise (lowest_digit (λ rest. rest) max x y)
bit_or_step zero y = simp bit_or-bitwise (omega arith)
