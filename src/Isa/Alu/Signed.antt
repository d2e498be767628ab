-- ===== src/Isa/Alu/Signed.antt =====
-- The signed arithmetic of nemu/src/isa/riscv32/inst.c against the integers.
use soc_fpga_bjtu_hwct.Common.{
  ℕ, ◌+◌, ◌-◌, ◌*◌, ◌%◌, ◌^◌, ◌≤◌, ◌<◌, ◌≡◌, refl, ap, ◌∙◌, arith, ltb, if◌then◌else◌, suc,
}
use soc_fpga_bjtu_hwct.Common.Int.{ℤ, pos, negsuc, signed32, sub_ℕ, ◌+ℤ◌, ◌*ℤ◌}
use soc_fpga_bjtu_hwct.Common.Word.{u32, u64, bits, sext, IsWord}
use soc_fpga_bjtu_hwct.Common.Bits.Fields.{bits_lem}
use soc_fpga_bjtu_hwct.Isa.Alu.{mul_value, mulhu_value}

pub product-lt : (n a b : ℕ) → a < n → b < n → a * b < n * n
product-lt n a b ha hb = grind arith

-- The high and the low word of an unsigned product are the product.
pub mulhu-mul : (a b : ℕ) → IsWord a → IsWord b → mulhu_value a b * 2 ^ 32 + mul_value a b ≡ a * b
unfolding mulhu_value mul_value sext
mulhu-mul a b ha hb = ground (
  arith,
  bits_lem (u64 (a * b)) 63 32 32 refl (omega arith),
  bits_lem (sext (u32 (a * b)) 32) 31 0 32 refl (omega arith),
  product-lt (2 ^ 32) a b ha hb,
)

zero_mul : (b : ℕ) → 0 * b ≡ 0
zero_mul b = omega arith

mul_zero : (b : ℕ) → b * 0 ≡ 0
mul_zero b = omega arith

pub product-le : (n a b : ℕ) → a ≤ n → b ≤ n → a * b ≤ n * n
product-le n a b ha hb = grind arith

add_mul : (c a b : ℕ) → c * b + a * b ≡ (c + a) * b
add_mul c a b = omega arith

mul_add : (c a b : ℕ) → b * c + b * a ≡ b * (c + a)
mul_add c a b = omega arith

pub sub_mul-add : (n a b : ℕ) → a ≤ n → (n - a) * b + a * b ≡ n * b
sub_mul-add n a b h =
    let back : n - a + a ≡ n = omega arith in add_mul (n - a) a b ∙ ap (λ (t : ℕ). t * b) back

pub mul_sub-add : (n a b : ℕ) → a ≤ n → b * (n - a) + b * a ≡ b * n
mul_sub-add n a b h =
    let back : n - a + a ≡ n = omega arith in mul_add (n - a) a b ∙ ap (λ (t : ℕ). b * t) back

-- Products modulo 2 ^ 64 of numbers given by their negatives.
pub u64_neg : (a b : ℕ) → a ≤ 2 ^ 32 → b ≤ 2 ^ 32 → u64 ((2 ^ 64 - a) * b) ≡ u64 (2 ^ 64 - a * b)
u64_neg a b ha hb =
    let whole : (2 ^ 64 - a) * b + a * b ≡ 2 ^ 64 * b = sub_mul-add (2 ^ 64) a b (omega arith) in
    omega (arith, whole, product-le (2 ^ 32) a b ha hb)

pub u64_neg_neg :
    (a b : ℕ) → a ≤ 2 ^ 32 → b ≤ 2 ^ 32 → u64 ((2 ^ 64 - a) * (2 ^ 64 - b)) ≡ u64 (a * b)
u64_neg_neg a b ha hb =
    let whole : (2 ^ 64 - a) * (2 ^ 64 - b) + (2 ^ 64 - a) * b ≡ (2 ^ 64 - a) * 2 ^ 64 =
      mul_sub-add (2 ^ 64) b (2 ^ 64 - a) (omega arith) in
    omega (arith, whole, u64_neg a b ha hb, product-le (2 ^ 32) a b ha hb)

split_word : (x hi lo : ℕ) → x < 2 ^ 64 → bits x 63 32 * 2 ^ 32 + x % 2 ^ 32 ≡ x
split_word x hi lo h = omega (arith, bits_lem x 63 32 32 refl (omega arith))

pub sext-pos : (a : ℕ) → a < 2 ^ 31 → sext a 32 ≡ a
unfolding sext
sext-pos a h = ground arith

pub sext-neg : (a : ℕ) → IsWord a → 2 ^ 31 ≤ a → sext a 32 ≡ 2 ^ 64 - (2 ^ 32 - a)
unfolding sext
sext-neg a w h = ground arith

pub mul-mod : (a b : ℕ) → mul_value a b ≡ u32 (a * b)
unfolding mul_value sext
mul-mod a b = ground (arith, bits_lem (sext (u32 (a * b)) 32) 31 0 32 refl (omega arith))

-- -n as an integer, and products of such.
abbrev pub minus : ℕ → ℤ
minus n = sub_ℕ 0 n

minus-suc : (n : ℕ) → minus (suc n) ≡ negsuc n
minus-suc n = ground arith

pub minus_mul : (a b : ℕ) → minus a *ℤ pos b ≡ minus (a * b)
unfolding ◌*ℤ◌
minus_mul a b = ground (arith, zero_mul b)

pub mul_minus : (a b : ℕ) → pos a *ℤ minus b ≡ minus (a * b)
unfolding ◌*ℤ◌
mul_minus a b = ground (arith, mul_zero a)

pub minus-minus : (a b : ℕ) → minus a *ℤ minus b ≡ pos (a * b)
unfolding ◌*ℤ◌
minus-minus a b = ground (arith, zero_mul b, mul_zero a)

pub pos_mul : (a b : ℕ) → pos a *ℤ pos b ≡ pos (a * b)
unfolding ◌*ℤ◌
pos_mul a b = ground arith

pub signed32-neg : (a : ℕ) → IsWord a → 2 ^ 31 ≤ a → signed32 a ≡ minus (2 ^ 32 - a)
signed32-neg a w h = ground arith

-- The `int64_t` with the bits `x`.
abbrev pub signed64 : ℕ → ℤ
signed64 x = if ltb x (2 ^ 63) then pos x else minus (2 ^ 64 - x)

pub signed64_join :
    (x : ℕ) → x < 2 ^ 64 → signed32 (bits x 63 32) *ℤ pos (2 ^ 32) +ℤ pos (x % 2 ^ 32) ≡ signed64 x
unfolding ◌*ℤ◌ ◌+ℤ◌
signed64_join x h = ground (arith, bits_lem x 63 32 32 refl (omega arith))
