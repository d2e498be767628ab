-- ===== src/Isa/Pattern/Match.antt =====
-- What a pattern of nemu/include/cpu/decode.h means, character by character.
use Prim.Native.String.{String}
use native.Mathlib.Nat.{pow-suc, one-le-pow, mul-div-mul_right, mul-div_cancel, pow-le-pow_right}
use soc_fpga_bjtu_hwct.Common.{ℕ, zero, suc, ◌+◌, ◌*◌, ◌/◌, ◌%◌, ◌^◌, ◌≤◌, ◌<◌, ◌≡◌, sym, ap, ◌∙◌}
use mathlib.Core.Path.{ap₂}
use soc_fpga_bjtu_hwct.Common.{Bool, true, ◌&&◌, ◌||◌, List, [], ◌∷◌, bit_and}
use soc_fpga_bjtu_hwct.Common.{
  ◌==◌, ==_iff, Bool-cases, inl, inr, if◌then◌else◌, arith, length, All,
}
use soc_fpga_bjtu_hwct.Common.Outcome.{ok, >>=-eq-ok}
use soc_fpga_bjtu_hwct.Common.Bits.{bit_or_fields, bit_and-zero, bit_and_shifted}
use soc_fpga_bjtu_hwct.Common.Bits.Step.{bit_and_step}
use soc_fpga_bjtu_hwct.Isa.Pattern.{Pattern, start, codes, is_pattern_char, step, scan, finish}
use soc_fpga_bjtu_hwct.Isa.Pattern.{pattern_decode, matches}

-- The characters that are no spaces, the last one first, in front of `rs`.
unfoldable pub digits_onto : List ℕ → List ℕ → List ℕ
digits_onto [] rs = rs
digits_onto (c ∷ cs) rs = digits_onto cs (if c == b' ' then rs else c ∷ rs)

-- The meaning of a pattern: read from its end, each character is a `?` or the bit at its place.
unfoldable pub agrees : List ℕ → ℕ → Bool
agrees [] w = true
agrees (c ∷ cs) w = (c == b'?' || w % 2 == (if c == b'1' then 1 else 0)) && agrees cs (w / 2)

-- What the loop holds after the characters `rs`, the last one first.
built : List ℕ → Pattern
built [] = start
built (c ∷ rs) = step (built rs) c

abbrev IsDigits : List ℕ → Type 0
IsDigits = All (λ c. is_pattern_char c ≡ true)

-- Key and mask fit the characters read, and are clear below `shift`.
record IsBuilt (n : ℕ) (p : Pattern) : Type 0 where
  key_fits : p.key < 2 ^ n
  mask_fits : p.mask < 2 ^ n
  key_clear : p.key / 2 ^ p.shift * 2 ^ p.shift ≡ p.key
  mask_clear : p.mask / 2 ^ p.shift * 2 ^ p.shift ≡ p.mask

clear-suc : (s k : ℕ) → k / 2 ^ s * 2 ^ s ≡ k → k * 2 / 2 ^ suc s * 2 ^ suc s ≡ k * 2
clear-suc s k h =
    rw (pow-suc 2 s, mul-div-mul_right {m = 2} k (2 ^ s) (omega arith))
      (omega (arith, ap (λ (t : ℕ). t * 2) h))

module _ {n : ℕ} {p : Pattern} (b : IsBuilt n p) (room : n < 64) where
  no_overflow : 2 * 2 ^ n ≤ 2 ^ 64
  no_overflow = omega (
    arith,
    pow-suc 2 n,
    pow-le-pow_right {n = 2} (omega arith) {i = suc n} {j = 64} (omega arith),
  )

  step_key : (c : ℕ) → (step p c).key ≡ p.key * 2 + (if c == b'1' then 1 else 0)
  unfolding step
  step_key c =
      ground (arith, no_overflow, b.key_fits, bit_or_fields 1 p.key (if c == b'1' then 1 else 0))

  step_mask : (c : ℕ) → (step p c).mask ≡ p.mask * 2 + (if c == b'?' then 0 else 1)
  unfolding step
  step_mask c =
      ground (arith, no_overflow, b.mask_fits, bit_or_fields 1 p.mask (if c == b'?' then 0 else 1))

  step-IsBuilt : (c : ℕ) → is_pattern_char c ≡ true → IsBuilt (suc n) (step p c)
  unfolding step
  step-IsBuilt c valid = record {
    key_fits = ground (arith, step_key c, b.key_fits, pow-suc 2 n);
    mask_fits = ground (arith, step_mask c, b.mask_fits, pow-suc 2 n);
    key_clear = ground (arith, step_key c, clear-suc p.shift p.key b.key_clear);
    mask_clear = ground (arith, step_mask c, clear-suc p.shift p.mask b.mask_clear);
  }

built-IsBuilt : (rs : List ℕ) → IsDigits rs → length rs ≤ 64 → IsBuilt (length rs) (built rs)
unfolding built
built-IsBuilt [] d h = omega arith
built-IsBuilt (c ∷ rs) d h = step-IsBuilt (built-IsBuilt rs d.1 (omega arith)) (omega arith) c d.0

-- The comparison before key and mask are shifted down.
built-agrees :
    (rs : List ℕ) (w : ℕ)
    → IsDigits rs
    → length rs ≤ 64
    → (bit_and w (built rs).mask == (built rs).key) ≡ agrees rs w
unfolding built agrees
built-agrees [] w d h = rw bit_and-zero
built-agrees (c ∷ rs) w d h =
    let b = built-IsBuilt rs d.1 (omega arith) in
    ground (
      arith,
      d.0,
      step_key b (omega arith) c,
      step_mask b (omega arith) c,
      bit_and_step w (step (built rs) c).mask,
      built-agrees rs (w / 2) d.1 (omega arith),
    )

scale-eq : (p a b : ℕ) → 0 < p → (a * p == b * p) ≡ (a == b)
scale-eq p a b h = elim (Bool-cases (a == b)) [
  | inl e ↦ ground (arith, ap (λ (t : ℕ). t * p) ((==_iff a b).0 e))
  | inr e ↦ ground (arith, mul-div_cancel a h, mul-div_cancel b h)
]

finish-matches :
    (p : Pattern) (w : ℕ)
    → p.key / 2 ^ p.shift * 2 ^ p.shift ≡ p.key
    → p.mask / 2 ^ p.shift * 2 ^ p.shift ≡ p.mask
    → matches (finish p) w ≡ (bit_and w p.mask == p.key)
unfolding finish matches
finish-matches p w k m =
    let scale = 2 ^ p.shift in
    let shifted = bit_and (w / scale) (p.mask / scale) in
    let whole : shifted * scale ≡ bit_and w p.mask =
      sym (bit_and_shifted p.shift w (p.mask / scale)) ∙ ap (bit_and w) m in
    sym (scale-eq scale shifted (p.key / scale) (one-le-pow p.shift 2 (omega arith)))
    ∙ ap₂ (λ a b. a == b) whole k

-- The loop builds what `built` describes, if it ends well.
scan-built :
    (room : ℕ) (cs rs : List ℕ) {q : Pattern}
    → IsDigits rs
    → room + length rs ≤ 64
    → scan room cs (built rs) ≡ ok q
    → (q ≡ built (digits_onto cs rs))
      × IsDigits (digits_onto cs rs)
      × (length (digits_onto cs rs) ≤ 64)
unfolding scan digits_onto built step
scan-built zero cs rs d h e = cc
scan-built (suc room) [] rs d h e = (ground arith, d, omega arith)
scan-built (suc room) (c ∷ cs) rs d h e = elim (Bool-cases (c == b' ')) [
  | inl space ↦ rw space (scan-built room cs rs d (omega arith) (rw space at e))
  | inr other ↦ elim (Bool-cases (is_pattern_char c)) [
    | inl valid ↦
        rw other (scan-built room cs (c ∷ rs) (valid, d) (omega arith) (rw (other, valid) at e))
    | inr bad ↦ cc (rw (other, bad) at e)
  ]
]

-- The characters of a pattern string that count, the last one first.
unfoldable pub digits : String → List ℕ
digits str = digits_onto (codes str) []

-- A pattern string that `pattern_decode` accepts matches exactly the words that have its digits:
-- the test of `INSTPAT` on the decoded key, mask and shift says whether each character, from the
-- last one on, is a `?` or the bit at its place.
pub matches-pattern_decode :
    (str : String) (p : Pattern) (inst : ℕ)
    → pattern_decode str ≡ ok p
    → matches p inst ≡ agrees (digits str) inst
unfolding pattern_decode digits built
matches-pattern_decode str p inst e =
    let (q, scanned, same) = >>=-eq-ok (scan 64 (codes str) start) (λ q. ok (finish q)) e in
    let (eq, valid, short) = scan-built 64 (codes str) [] tt (omega arith) scanned in
    let ds = digits_onto (codes str) [] in
    let b = built-IsBuilt ds valid short in
    let whole : p ≡ finish (built ds) = cc in
    rw whole
      (finish-matches (built ds) inst b.key_clear b.mask_clear ∙ built-agrees ds inst valid short)
