-- ===== src/Memory/Host/Access.antt =====
-- What host memory promises: a store inside of a space succeeds, is read back, and leaves the
-- other bytes alone.
use soc_fpga_bjtu_hwct.Common.{
  ℕ, zero, suc, ◌+◌, ◌*◌, ◌/◌, ◌%◌, ◌^◌, ◌≤◌, ◌<◌, ◌≡◌, ◌⊎◌, inl, refl, ap, sym, ◌∙◌, Bool, true,
  arith, List, [], ◌∷◌, none, some, get_elem?, set, length, length-set, ◌==◌, if◌then◌else◌, ◌||◌,
}
use native.Mathlib.Nat.{pow-suc, div-div-eq-div-mul, div-add-mod}
use soc_fpga_bjtu_hwct.Common.Outcome.{ok, fault}
use soc_fpga_bjtu_hwct.Memory.Host.{load_bytes, store_bytes, host_read, host_write}

get_elem?-some : (xs : List ℕ) (i : ℕ) → i < length xs → (b : ℕ) × (get_elem? xs i ≡ some b)
get_elem?-some [] i h = absurd (omega arith)
get_elem?-some (x ∷ xs) zero h = (x, refl)
get_elem?-some (x ∷ xs) (suc i) h = get_elem?-some xs i (omega arith)

get_elem?-set :
    (xs : List ℕ) (i j v : ℕ)
    → i < length xs
    → get_elem? (set xs i v) j ≡ (if i == j then some v else get_elem? xs j)
get_elem?-set [] i j v h = absurd (omega arith)
get_elem?-set (x ∷ xs) zero zero v h = refl
get_elem?-set (x ∷ xs) zero (suc j) v h = ground arith
get_elem?-set (x ∷ xs) (suc i) zero v h = ground arith
get_elem?-set (x ∷ xs) (suc i) (suc j) v h = ground (arith, get_elem?-set xs i j v (omega arith))

-- The bytes of `v`, put into a space of bytes.
unfoldable pub stored : List ℕ → ℕ → ℕ → ℕ → List ℕ
stored space i zero v = space
stored space i (suc n) v = stored (set space i (v % 2 ^ 8)) (i + 1) n (v / 2 ^ 8)

pub length-stored : (space : List ℕ) (i n v : ℕ) → length (stored space i n v) ≡ length space
unfolding stored
length-stored space i zero v = refl
length-stored space i (suc n) v =
    length-stored (set space i (v % 2 ^ 8)) (i + 1) n (v / 2 ^ 8) ∙ length-set space i (v % 2 ^ 8)

pub store_bytes-stored :
    (space : List ℕ) (i n v : ℕ)
    → i + n ≤ length space
    → store_bytes space i n v ≡ ok (stored space i n v)
unfolding store_bytes stored
store_bytes-stored space i zero v h = refl
store_bytes-stored space i (suc n) v h =
    let (b, e) = get_elem?-some space i (omega arith) in
    ground (
      arith,
      e,
      store_bytes-stored (set space i (v % 2 ^ 8)) (i + 1) n (v / 2 ^ 8)
          (omega (arith, length-set space i (v % 2 ^ 8))),
    )

-- A byte outside of the range that is stored stays.
pub get_elem?-stored :
    (space : List ℕ) (i n v j : ℕ)
    → i + n ≤ length space
    → (j < i) ⊎ (i + n ≤ j)
    → get_elem? (stored space i n v) j ≡ get_elem? space j
unfolding stored
get_elem?-stored space i zero v j h out = refl
get_elem?-stored space i (suc n) v j h out =
    let len = length-set space i (v % 2 ^ 8) in
    get_elem?-stored (set space i (v % 2 ^ 8)) (i + 1) n (v / 2 ^ 8) j (omega arith) (ground arith)
    ∙ ground (arith, get_elem?-set space i j (v % 2 ^ 8) (omega arith))

-- A load depends on the bytes of its range alone.
pub load_bytes_cong :
    (xs ys : List ℕ) (i n : ℕ)
    → ((j : ℕ) → i ≤ j → j < i + n → get_elem? xs j ≡ get_elem? ys j)
    → load_bytes xs i n ≡ load_bytes ys i n
unfolding load_bytes
load_bytes_cong xs ys i zero same = refl
load_bytes_cong xs ys i (suc n) same = ground (
  arith,
  same i (omega arith) (omega arith),
  load_bytes_cong xs ys (i + 1) n (λ j lo hi. same j (omega arith) (omega arith)),
)

mod_mul : (v k : ℕ) → v % (2 ^ 8 * k) ≡ v % 2 ^ 8 + 2 ^ 8 * (v / 2 ^ 8 % k)
mod_mul v k = omega (
  arith,
  div-div-eq-div-mul v (2 ^ 8) k,
  div-add-mod v (2 ^ 8 * k),
  div-add-mod v (2 ^ 8),
  div-add-mod (v / 2 ^ 8) k,
  ap (λ (q : ℕ). k * q) (div-div-eq-div-mul v (2 ^ 8) k),
)

two_pow_byte : (m : ℕ) → 2 ^ (8 + m) ≡ 2 ^ 8 * 2 ^ m
two_pow_byte zero = omega arith
two_pow_byte (suc m) =
    let e : 8 + suc m ≡ suc (8 + m) = omega arith in
    omega (arith, ap (λ (k : ℕ). 2 ^ k) e, pow-suc 2 (8 + m), pow-suc 2 m, two_pow_byte m)

pub two_pow_bytes : (n : ℕ) → 2 ^ (8 * suc n) ≡ 2 ^ 8 * 2 ^ (8 * n)
two_pow_bytes n =
    let e : 8 * suc n ≡ 8 + 8 * n = omega arith in ap (λ (k : ℕ). 2 ^ k) e ∙ two_pow_byte (8 * n)

mod_suc : (v n : ℕ) → v % 2 ^ (8 * suc n) ≡ v % 2 ^ 8 + 2 ^ 8 * (v / 2 ^ 8 % 2 ^ (8 * n))
mod_suc v n = rw (two_pow_bytes n) (mod_mul v (2 ^ (8 * n)))

pub load_bytes-stored :
    (space : List ℕ) (i n v : ℕ)
    → i + n ≤ length space
    → load_bytes (stored space i n v) i n ≡ ok (v % 2 ^ (8 * n))
unfolding load_bytes stored
load_bytes-stored space i zero v h = ground arith
load_bytes-stored space i (suc n) v h =
    let len = length-set space i (v % 2 ^ 8) in
    let first : get_elem? (stored space i (suc n) v) i ≡ some (v % 2 ^ 8) =
      get_elem?-stored (set space i (v % 2 ^ 8)) (i + 1) n (v / 2 ^ 8) i (omega arith)
        (inl (omega arith))
      ∙ ground (arith, get_elem?-set space i i (v % 2 ^ 8) (omega arith)) in
    let tail : load_bytes (stored space i (suc n) v) (i + 1) n ≡ ok (v / 2 ^ 8 % 2 ^ (8 * n)) =
      load_bytes-stored (set space i (v % 2 ^ 8)) (i + 1) n (v / 2 ^ 8) (omega arith) in
    ground (arith, first, tail, mod_suc v n)

-- An access of a size that the emulator knows.
unfoldable pub is_access_len : ℕ → Bool
is_access_len len = len == 1 || len == 2 || len == 4

by_len : (P : ℕ → Type 0) → P 1 → P 2 → P 4 → (len : ℕ) → is_access_len len ≡ true → P len
unfolding is_access_len
by_len P one two four (suc zero) known = one
by_len P one two four (suc (suc zero)) known = two
by_len P one two four (suc (suc (suc (suc zero)))) known = four
by_len P one two four zero known = absurd (ground arith)
by_len P one two four (suc (suc (suc zero))) known = absurd (ground arith)
by_len P one two four (suc (suc (suc (suc (suc n))))) known = absurd (ground arith)

pub is_access_len-positive : (len : ℕ) → is_access_len len ≡ true → 0 < len
unfolding is_access_len
is_access_len-positive len known = ground (arith, known)

get_elem?-none : (xs : List ℕ) (i : ℕ) → length xs ≤ i → get_elem? xs i ≡ none
get_elem?-none [] i h = refl
get_elem?-none (x ∷ xs) zero h = absurd (omega arith)
get_elem?-none (x ∷ xs) (suc i) h = get_elem?-none xs i (omega arith)

-- Four bytes from the last byte of a space on leave it.
pub host_read-past : (space : List ℕ) (i : ℕ) → i + 1 ≡ length space → host_read space i 4 ≡ fault
unfolding host_read
host_read-past space i last =
    let (b, e) = get_elem?-some space i (omega arith) in
    let outside = get_elem?-none space (i + 1) (omega arith) in ground (arith, e, outside)

-- A store inside of a space succeeds.
pub host_write-stored :
    (space : List ℕ) (i len v : ℕ)
    → is_access_len len ≡ true
    → i + len ≤ length space
    → host_write space i len v ≡ ok (stored space i len v)
unfolding host_write
host_write-stored space i len v known h =
    by_len (λ n. (i + n ≤ length space) → host_write space i n v ≡ ok (stored space i n v))
      (store_bytes-stored space i 1 v) (store_bytes-stored space i 2 v)
      (store_bytes-stored space i 4 v) len known h

pub host_read_known :
    (space : List ℕ) (i len : ℕ)
    → is_access_len len ≡ true
    → host_read space i len ≡ load_bytes space i len
unfolding host_read
host_read_known space i len known =
    by_len (λ n. host_read space i n ≡ load_bytes space i n) refl refl refl len known

-- Writing `len` bytes inside of a space, for a length of one, two or four, succeeds and keeps the
-- size of the space; reading them back gives the value modulo `2 ^ (8 * len)`; and a read of a
-- known length from any bytes apart from these gives what it gave before.
pub host_read-host_write :
    (space : List ℕ) (i len v : ℕ)
    → is_access_len len ≡ true
    → i + len ≤ length space
    → (space' : List ℕ) × (host_write space i len v ≡ ok space')
      × (length space' ≡ length space)
      × (host_read space' i len ≡ ok (v % 2 ^ (8 * len)))
      × ((j n : ℕ)
          → is_access_len n ≡ true
          → (j + n ≤ i) ⊎ (i + len ≤ j)
          → host_read space' j n ≡ host_read space j n)
host_read-host_write space i len v known h = (
  stored space i len v,
  host_write-stored space i len v known h,
  length-stored space i len v,
  host_read_known (stored space i len v) i len known ∙ load_bytes-stored space i len v h,
  λ j n known' apart.
      host_read_known (stored space i len v) j n known'
      ∙ load_bytes_cong (stored space i len v) space j n
          (λ k lo hi. get_elem?-stored space i len v k h (ground arith))
      ∙ sym (host_read_known space j n known'),
)
