-- ===== src/Isa/Alu/Multiply.antt =====
-- The multiplications of nemu/src/isa/riscv32/inst.c are the high and the low word of the product
-- of the integers.
use soc_fpga_bjtu_hwct.Common.{ℕ, ◌+◌, ◌-◌, ◌*◌, ◌%◌, ◌^◌, ◌≤◌, ◌<◌, ◌≡◌, ◌∙◌, arith}
use native.Mathlib.Decide.{dec_lt}
use native.Mathlib.Nat.{mul_comm}
use soc_fpga_bjtu_hwct.Common.Int.{pos, signed32, ◌+ℤ◌, ◌*ℤ◌}
use soc_fpga_bjtu_hwct.Common.Word.{u64, sext, IsWord}
use soc_fpga_bjtu_hwct.Isa.Alu.{mul_value, mulh_value, mulhsu_value}
use soc_fpga_bjtu_hwct.Isa.Alu.Signed.{
  minus, signed64, product-le, sub_mul-add, mul_sub-add, u64_neg, u64_neg_neg, sext-pos, sext-neg,
  mul-mod, minus_mul, mul_minus, minus-minus, pos_mul, signed32-neg, signed64_join,
}

-- A word by its sign and magnitude.
pub data SignOf (a : ℕ) : Type 0 where
  plus : a < 2 ^ 31 → signed32 a ≡ pos a → sext a 32 ≡ a → SignOf a
  negative :
      (n : ℕ)
      → a + n ≡ 2 ^ 32
      → n ≤ 2 ^ 31
      → 0 < n
      → signed32 a ≡ minus n
      → sext a 32 ≡ 2 ^ 64 - n
      → SignOf a

pub sign_of : (a : ℕ) → IsWord a → SignOf a
sign_of a w = elim (dec_lt a (2 ^ 31)) [
  | yes h ↦ plus h (ground arith) (sext-pos a h)
  | no h ↦
      negative (2 ^ 32 - a) (omega arith) (omega arith) (omega arith)
        (signed32-neg a w (omega arith)) (sext-neg a w (omega arith))
]

-- The 64-bit product that `mulh` takes its word from, and its low word.
abbrev IsProduct : ℕ → ℕ → ℕ → Type 0
IsProduct x a b = (signed64 x ≡ signed32 a *ℤ signed32 b) × (x % 2 ^ 32 ≡ a * b % 2 ^ 32)

plus_plus :
    (a b : ℕ)
    → a < 2 ^ 31
    → b < 2 ^ 31
    → (signed64 (u64 (a * b)) ≡ pos (a * b)) × (u64 (a * b) ≡ a * b)
plus_plus a b ha hb = ground (arith, product-le (2 ^ 31) a b (omega arith) (omega arith))

negative_plus :
    (n b : ℕ)
    → n ≤ 2 ^ 31
    → b < 2 ^ 31
    → (signed64 (u64 ((2 ^ 64 - n) * b)) ≡ minus (n * b))
      × (u64 ((2 ^ 64 - n) * b) % 2 ^ 32 ≡ (2 ^ 32 - n) * b % 2 ^ 32)
negative_plus n b hn hb = ground (
  arith,
  u64_neg n b (omega arith) (omega arith),
  sub_mul-add (2 ^ 32) n b (omega arith),
  product-le (2 ^ 31) n b hn (omega arith),
)

negative_negative :
    (n k : ℕ)
    → n ≤ 2 ^ 31
    → k ≤ 2 ^ 31
    → (signed64 (u64 ((2 ^ 64 - n) * (2 ^ 64 - k))) ≡ pos (n * k))
      × (u64 ((2 ^ 64 - n) * (2 ^ 64 - k)) % 2 ^ 32 ≡ (2 ^ 32 - n) * (2 ^ 32 - k) % 2 ^ 32)
negative_negative n k hn hk = ground (
  arith,
  u64_neg_neg n k (omega arith) (omega arith),
  sub_mul-add (2 ^ 32) n (2 ^ 32 - k) (omega arith),
  mul_sub-add (2 ^ 32) k n (omega arith),
  product-le (2 ^ 31) n k hn hk,
)

IsProduct-of :
    {a b : ℕ}
    → IsWord a
    → IsWord b
    → SignOf a
    → SignOf b
    → IsProduct (u64 (sext a 32 * sext b 32)) a b
IsProduct-of {a} {b} wa wb (plus ha sa ea) (plus hb sb eb) =
    let p = plus_plus a b ha hb in (cc (p.0, pos_mul a b), ground arith)
IsProduct-of {a} {b} wa wb (negative n e hn pn sa ea) (plus hb sb eb) =
    let p = negative_plus n b hn hb in
    let a' : a ≡ 2 ^ 32 - n = omega arith in (cc (p.0, minus_mul n b), cc (p.1))
IsProduct-of {a} {b} wa wb (plus ha sa ea) (negative k e hk pk sb eb) =
    let p = negative_plus k a hk ha in
    let b' : b ≡ 2 ^ 32 - k = omega arith in
    (
      cc (p.0, mul_minus a k, mul_comm a k, mul_comm a (2 ^ 64 - k)),
      cc (p.1, mul_comm a (2 ^ 64 - k), mul_comm a (2 ^ 32 - k)),
    )
IsProduct-of {a} {b} wa wb (negative n e hn pn sa ea) (negative k f hk pk sb eb) =
    let p = negative_negative n k hn hk in
    let a' : a ≡ 2 ^ 32 - n = omega arith in
    let b' : b ≡ 2 ^ 32 - k = omega arith in (cc (p.0, minus-minus n k), cc (p.1))

-- `mulh` and `mul` of two words are the high and the low word of the product of the signed
-- integers that the words stand for.
pub mulh-mul :
    (a b : ℕ)
    → IsWord a
    → IsWord b
    → signed32 (mulh_value a b) *ℤ pos (2 ^ 32) +ℤ pos (mul_value a b) ≡ signed32 a *ℤ signed32 b
unfolding mulh_value
mulh-mul a b wa wb =
    let (whole, low) = IsProduct-of wa wb (sign_of a wa) (sign_of b wb) in
    rw (mul-mod a b, ← low) (signed64_join (u64 (sext a 32 * sext b 32)) (omega arith) ∙ whole)

product-le_of : (n m a b : ℕ) → a ≤ n → b ≤ m → a * b ≤ n * m
product-le_of n m a b ha hb = grind arith

-- `mulhsu` of a signed and an unsigned word.
plus_word :
    (a b : ℕ)
    → a < 2 ^ 31
    → IsWord b
    → (signed64 (u64 (a * b)) ≡ pos (a * b)) × (u64 (a * b) ≡ a * b)
plus_word a b ha hb =
    ground (arith, product-le_of (2 ^ 31 - 1) (2 ^ 32) a b (omega arith) (omega arith))

negative_word :
    (n b : ℕ)
    → n ≤ 2 ^ 31
    → IsWord b
    → (signed64 (u64 ((2 ^ 64 - n) * b)) ≡ minus (n * b))
      × (u64 ((2 ^ 64 - n) * b) % 2 ^ 32 ≡ (2 ^ 32 - n) * b % 2 ^ 32)
negative_word n b hn hb = ground (
  arith,
  u64_neg n b (omega arith) (omega arith),
  sub_mul-add (2 ^ 32) n b (omega arith),
  product-le_of (2 ^ 31) (2 ^ 32) n b hn (omega arith),
)

word_product_of :
    {a b : ℕ}
    → IsWord a
    → IsWord b
    → SignOf a
    → (signed64 (u64 (sext a 32 * b)) ≡ signed32 a *ℤ pos b)
      × (u64 (sext a 32 * b) % 2 ^ 32 ≡ a * b % 2 ^ 32)
word_product_of {a} {b} wa wb (plus ha sa ea) =
    let p = plus_word a b ha wb in (cc (p.0, pos_mul a b), ground arith)
word_product_of {a} {b} wa wb (negative n e hn pn sa ea) =
    let p = negative_word n b hn wb in
    let a' : a ≡ 2 ^ 32 - n = omega arith in (cc (p.0, minus_mul n b), cc (p.1))

-- `mulhsu` and `mul` of two words are the high and the low word of the product of the first, read
-- as a signed integer, and the second, read as an unsigned one.
pub mulhsu-mul :
    (a b : ℕ)
    → IsWord a
    → IsWord b
    → signed32 (mulhsu_value a b) *ℤ pos (2 ^ 32) +ℤ pos (mul_value a b) ≡ signed32 a *ℤ pos b
unfolding mulhsu_value
mulhsu-mul a b wa wb =
    let (whole, low) = word_product_of wa wb (sign_of a wa) in
    rw (mul-mod a b, ← low) (signed64_join (u64 (sext a 32 * b)) (omega arith) ∙ whole)
