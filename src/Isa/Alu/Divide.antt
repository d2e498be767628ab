-- ===== src/Isa/Alu/Divide.antt =====
-- The divisions and the arithmetic shift of nemu/src/isa/riscv32/inst.c against the integers.
use soc_fpga_bjtu_hwct.Common.{
  ℕ, zero, suc, ◌+◌, ◌-◌, ◌*◌, ◌/◌, ◌%◌, ◌^◌, ◌≤◌, ◌<◌, ◌≡◌, ◌≢◌, refl, arith, Bool, true, false,
  ◌&&◌, ◌==◌, ne→==_false,
}
use native.Mathlib.Decide.{dec_lt}
use native.Mathlib.Nat.{one-le-pow, div-add-mod', div-le_self, mod-lt, div-lt_self}
use soc_fpga_bjtu_hwct.Common.Int.{ℤ, pos, pos_part, neg_part, signed32, ◌+ℤ◌, ◌*ℤ◌, ◌≤ℤ◌, int_laws}
use soc_fpga_bjtu_hwct.Common.Word.{u32, IsWord}
use soc_fpga_bjtu_hwct.Isa.Alu.{
  eq_ℤ, int_min, minus_one, is_neg, magnitude, neg32, quot_signed, rem_signed, div_value, rem_value,
  divu_value, remu_value, sar,
}
use soc_fpga_bjtu_hwct.Isa.Alu.Signed.{minus, minus_mul, mul_minus, minus-minus, pos_mul}
use soc_fpga_bjtu_hwct.Isa.Alu.Multiply.{SignOf, plus, negative, sign_of}

-- The one signed division whose quotient fits no word.
abbrev pub overflows : ℕ → ℕ → Bool
overflows a b = (a == 2 ^ 31) && (b == 2 ^ 32 - 1)

overflow_test :
    (a b : ℕ)
    → IsWord a
    → IsWord b
    → (eq_ℤ (signed32 a) int_min && eq_ℤ (signed32 b) minus_one) ≡ overflows a b
unfolding eq_ℤ
overflow_test a b wa wb = ground arith

neg32-minus : (q : ℕ) → q ≤ 2 ^ 31 → signed32 (neg32 q) ≡ minus q
unfolding neg32
neg32-minus q h = ground arith

quotient_facts : (n k : ℕ) → 0 < k → (n / k * k + n % k ≡ n) × (n / k ≤ n) × (n % k < k)
quotient_facts n k h = (div-add-mod' n k, div-le_self n k, mod-lt n h)

plus_sum : (x r : ℕ) → pos x +ℤ pos r ≡ pos (x + r)
unfolding ◌+ℤ◌
plus_sum x r = ground arith

minus_sum : (x r : ℕ) → minus x +ℤ minus r ≡ minus (x + r)
unfolding ◌+ℤ◌
minus_sum x r = ground arith

-- `q` and `r` are quotient and remainder of `a` by `b`, rounded towards zero: the remainder is
-- smaller than the divisor, and lies between zero and the dividend.
abbrev pub IsDivision : ℤ → ℤ → ℤ → ℤ → Type 0
IsDivision a b q r =
    (q *ℤ b +ℤ r ≡ a)
    × (pos_part r + neg_part r < pos_part b + neg_part b)
    × (pos_part r ≤ pos_part a)
    × (neg_part r ≤ neg_part a)

magnitude-plus : (a : ℕ) → a < 2 ^ 31 → (magnitude a ≡ a) × (is_neg a ≡ false)
unfolding magnitude
magnitude-plus a h = ground arith

magnitude-negative :
    (a n : ℕ) → a + n ≡ 2 ^ 32 → n ≤ 2 ^ 31 → 0 < n → (magnitude a ≡ n) × (is_neg a ≡ true)
unfolding magnitude
magnitude-negative a n e h p = ground arith

-- The division of magnitudes with the signs put on again.
pp-IsDivision : (n k : ℕ) → 0 < k → IsDivision (pos n) (pos k) (pos (n / k)) (pos (n % k))
pp-IsDivision n k h =
    let f = quotient_facts n k h in
    (
      ground (arith, pos_mul (n / k) k, plus_sum (n / k * k) (n % k)),
      ground arith,
      ground arith,
      ground arith,
    )

np-IsDivision : (n k : ℕ) → 0 < k → IsDivision (minus n) (pos k) (minus (n / k)) (minus (n % k))
np-IsDivision n k h =
    let f = quotient_facts n k h in
    (
      ground (arith, minus_mul (n / k) k, minus_sum (n / k * k) (n % k)),
      ground arith,
      ground arith,
      ground arith,
    )

pn-IsDivision : (n k : ℕ) → 0 < k → IsDivision (pos n) (minus k) (minus (n / k)) (pos (n % k))
pn-IsDivision n k h =
    let f = quotient_facts n k h in
    (
      ground (arith, minus-minus (n / k) k, plus_sum (n / k * k) (n % k)),
      ground arith,
      ground arith,
      ground arith,
    )

nn-IsDivision : (n k : ℕ) → 0 < k → IsDivision (minus n) (minus k) (pos (n / k)) (minus (n % k))
nn-IsDivision n k h =
    let f = quotient_facts n k h in
    (
      ground (arith, mul_minus (n / k) k, minus_sum (n / k * k) (n % k)),
      ground arith,
      ground arith,
      ground arith,
    )

IsDivision-of :
    {a b q r a' b' q' r' : ℤ}
    → a ≡ a'
    → b ≡ b'
    → q ≡ q'
    → r ≡ r'
    → IsDivision a' b' q' r'
    → IsDivision a b q r
IsDivision-of ea eb eq er h = ground arith

-- A signed word again, from a magnitude below 2 ^ 31.
signed_small : (x : ℕ) → x < 2 ^ 31 → signed32 x ≡ pos x
signed_small x h = ground arith

-- The two functions by the signs of their arguments.
quot_same : (a b : ℕ) → a < 2 ^ 31 → b < 2 ^ 31 → quot_signed a b ≡ u32 (a / b)
unfolding quot_signed
quot_same a b ha hb = ground arith

quot_np : (a b n : ℕ) → n ≡ 2 ^ 32 - a → 2 ^ 31 ≤ a → b < 2 ^ 31 → quot_signed a b ≡ neg32 (n / b)
unfolding quot_signed
quot_np a b n e ha hb = rw e (ground arith)

quot_pn : (a b k : ℕ) → k ≡ 2 ^ 32 - b → a < 2 ^ 31 → 2 ^ 31 ≤ b → quot_signed a b ≡ neg32 (a / k)
unfolding quot_signed
quot_pn a b k e ha hb = rw e (ground arith)

quot_nn :
    (a b n k : ℕ)
    → n ≡ 2 ^ 32 - a
    → k ≡ 2 ^ 32 - b
    → 2 ^ 31 ≤ a
    → 2 ^ 31 ≤ b
    → quot_signed a b ≡ u32 (n / k)
unfolding quot_signed
quot_nn a b n k e f ha hb = rw (e, f) (ground arith)

rem_p : (a b k : ℕ) → a < 2 ^ 31 → magnitude b ≡ k → rem_signed a b ≡ a % k
unfolding rem_signed
rem_p a b k ha e = rw (← e) (ground arith)

rem_n :
    (a b n k : ℕ) → n ≡ 2 ^ 32 - a → 2 ^ 31 ≤ a → magnitude b ≡ k → rem_signed a b ≡ neg32 (n % k)
unfolding rem_signed
rem_n a b n k e ha f = rw (e, ← f) (ground arith)

quotient_fits :
    (a b n k : ℕ)
    → a + n ≡ 2 ^ 32
    → b + k ≡ 2 ^ 32
    → n ≤ 2 ^ 31
    → 0 < n
    → overflows a b ≡ false
    → n / k < 2 ^ 31
quotient_fits a b n zero e f h p o = omega arith
quotient_fits a b n (suc zero) e f h p o = let other : n ≢ 2 ^ 31 = ground arith in omega arith
quotient_fits a b n (suc (suc k)) e f h p o =
    omega (arith, div-lt_self {n = n} {k = suc (suc k)} p (omega arith))

signed-IsDivision :
    {a b : ℕ}
    → SignOf a
    → SignOf b
    → b ≢ 0
    → overflows a b ≡ false
    → IsDivision (signed32 a) (signed32 b) (signed32 (quot_signed a b)) (signed32 (rem_signed a b))
signed-IsDivision {a} {b} (plus ha sa ea) (plus hb sb eb) ne o =
    let f = quotient_facts a b (omega arith) in
    let small : u32 (a / b) ≡ a / b = omega arith in
    IsDivision-of sa sb (rw (quot_same a b ha hb, small) (signed_small (a / b) (omega arith)))
      (rw (rem_p a b b ha (magnitude-plus b hb).0) (signed_small (a % b) (omega arith)))
      (pp-IsDivision a b (omega arith))
signed-IsDivision {a} {b} (negative n e hn pn sa ea) (plus hb sb eb) ne o =
    let f = quotient_facts n b (omega arith) in
    IsDivision-of sa sb
      (rw (quot_np a b n (omega arith) (omega arith) hb) (neg32-minus (n / b) (omega arith)))
      (rw (rem_n a b n b (omega arith) (omega arith) (magnitude-plus b hb).0)
        (neg32-minus (n % b) (omega arith)))
      (np-IsDivision n b (omega arith))
signed-IsDivision {a} {b} (plus ha sa ea) (negative k e hk pk sb eb) ne o =
    let f = quotient_facts a k (omega arith) in
    IsDivision-of sa sb
      (rw (quot_pn a b k (omega arith) ha (omega arith)) (neg32-minus (a / k) (omega arith)))
      (rw (rem_p a b k ha (magnitude-negative b k e hk pk).0) (signed_small (a % k) (omega arith)))
      (pn-IsDivision a k (omega arith))
signed-IsDivision {a} {b} (negative n e hn pn sa ea) (negative k e' hk pk sb eb) ne o =
    let f = quotient_facts n k (omega arith) in
    let fits = quotient_fits a b n k e e' hn pn o in
    let small : u32 (n / k) ≡ n / k = omega arith in
    IsDivision-of sa sb
      (rw (quot_nn a b n k (omega arith) (omega arith) (omega arith) (omega arith), small)
        (signed_small (n / k) fits))
      (rw (rem_n a b n k (omega arith) (omega arith) (magnitude-negative b k e' hk pk).0)
        (neg32-minus (n % k) (omega arith)))
      (nn-IsDivision n k (omega arith))

-- `_div_` and `rem`, where the divisor is not zero and the quotient fits a word: they are the
-- quotient and the remainder of the signed integers, rounded towards zero.
pub div-rem :
    (a b : ℕ)
    → IsWord a
    → IsWord b
    → b ≢ 0
    → overflows a b ≡ false
    → IsDivision (signed32 a) (signed32 b) (signed32 (div_value a b)) (signed32 (rem_value a b))
unfolding div_value rem_value
div-rem a b wa wb ne fits =
    rw (ne→==_false b 0 ne, overflow_test a b wa wb, fits)
      (signed-IsDivision (sign_of a wa) (sign_of b wb) ne fits)

-- `divu` and `remu` are the division of natural numbers for every divisor but zero, where both give
-- the dividend; `_div_` by zero gives all ones and `rem` the dividend, and where the quotient fits no
-- word they give the dividend and zero.
pub divu-remu :
    (a b : ℕ)
    → IsWord a
    → (divu_value a (suc b) * suc b + remu_value a (suc b) ≡ a)
      × (remu_value a (suc b) < suc b)
      × (divu_value a 0 ≡ a)
      × (remu_value a 0 ≡ a)
      × (div_value a 0 ≡ 2 ^ 32 - 1)
      × (rem_value a 0 ≡ a)
      × (div_value (2 ^ 31) (2 ^ 32 - 1) ≡ 2 ^ 31)
      × (rem_value (2 ^ 31) (2 ^ 32 - 1) ≡ 0)
unfolding divu_value remu_value div_value rem_value
divu-remu a b w =
    let f = quotient_facts a (suc b) (omega arith) in
    (ground arith, ground arith, refl, refl, refl, refl, refl, refl)

sar-plus : (x k : ℕ) → x < 2 ^ 31 → signed32 (sar x k) ≡ pos (x / 2 ^ k)
unfolding sar
sar-plus x k h = ground (arith, div-le_self x (2 ^ k))

sar-negative :
    (x k : ℕ) → IsWord x → 2 ^ 31 ≤ x → signed32 (sar x k) ≡ minus (suc ((2 ^ 32 - 1 - x) / 2 ^ k))
unfolding sar
sar-negative x k w h = ground (arith, div-le_self (2 ^ 32 - 1 - x) (2 ^ k))

minus_parts : (n : ℕ) → (pos_part (minus n) ≡ 0) × (neg_part (minus n) ≡ n)
minus_parts n = ground arith

-- `sra` and `srai` divide the signed integer by a power of two and round down.
pub sar_floor :
    (x k : ℕ)
    → IsWord x
    → (signed32 (sar x k) *ℤ pos (2 ^ k) ≤ℤ signed32 x)
      × (signed32 x +ℤ pos 1 ≤ℤ signed32 (sar x k) *ℤ pos (2 ^ k) +ℤ pos (2 ^ k))
sar_floor x k w =
    let pow = one-le-pow k 2 (omega arith) in
    elim (dec_lt x (2 ^ 31)) [
      | yes h ↦
          let f = quotient_facts x (2 ^ k) pow in
          rw (sar-plus x k h, pos_mul (x / 2 ^ k) (2 ^ k), signed_small x h) (omega int_laws)
      | no h ↦
          let y = 2 ^ 32 - 1 - x in
          let f = quotient_facts y (2 ^ k) pow in
          let s : signed32 x ≡ minus (suc y) = ground arith in
          rw (sar-negative x k w (omega arith), minus_mul (suc (y / 2 ^ k)) (2 ^ k), s)
            (omega (int_laws, minus_parts (suc y), minus_parts (suc (y / 2 ^ k) * 2 ^ k)))
    ]
