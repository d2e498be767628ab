-- ===== src/Common/Outcome.antt =====
-- The outcome of a run of C code.
use mathlib.Core.Path.{◌≡◌, refl, subst}
use mathlib.Core.Bool.{Bool, true, false}

-- `failed` is a failed assertion or a panic, which stops the emulator. `fault` is what C leaves
-- undefined, such as an access outside of an array.
pub data Outcome {ℓ} (A : Type ℓ) : Type ℓ where
  ok : A → Outcome A
  failed fault : Outcome A

-- `assert` of C.
abbrev pub assert : Bool → Outcome {0} Unit
assert true = ok tt
assert false = failed

infixl 5 ◌>>=◌
abbrev pub ◌>>=◌ {ℓ κ} : {A : Type ℓ} {B : Type κ} → Outcome A → (A → Outcome B) → Outcome B
ok a >>= f = f a
failed >>= f = failed
fault >>= f = fault

-- A sequence that ends normally did so in both of its parts.
pub >>=-eq-ok {ℓ κ} :
    {A : Type ℓ} {B : Type κ} (first : Outcome A) (next : A → Outcome B) {end : B}
    → (first >>= next) ≡ ok end
    → (a : A) × (first ≡ ok a) × (next a ≡ ok end)
>>=-eq-ok failed next run = cc
>>=-eq-ok fault next run = cc
>>=-eq-ok (ok a) next run = (a, refl, run)

pub assert-bind {ℓ} :
    {A : Type ℓ} (b : Bool) (m : Outcome A) {a : A}
    → (assert b >>= (λ _. m)) ≡ ok a
    → (b ≡ true) × (m ≡ ok a)
assert-bind true m h = (refl, h)
assert-bind false m h = absurd (cc h)

-- A run that ends normally ends with `P`.
abbrev pub Ensures {ℓ κ} : {A : Type ℓ} → (A → Type κ) → Outcome A → Type κ
Ensures P (ok a) = P a
Ensures P failed = Unit
Ensures P fault = Unit

module _ {ℓ κ} {A : Type ℓ} (P : A → Type κ) where
  pub Ensures-intro : (m : Outcome A) → ((a : A) → m ≡ ok a → P a) → Ensures P m
  Ensures-intro (ok a) h = h a refl
  Ensures-intro failed h = tt
  Ensures-intro fault h = tt

  pub Ensures-elim : (m : Outcome A) {a : A} → Ensures P m → m ≡ ok a → P a
  Ensures-elim (ok b) h e = subst P (cc) h
  Ensures-elim failed h e = cc
  Ensures-elim fault h e = cc

  pub Ensures-weaken {κ'} :
      (Q : A → Type κ') (m : Outcome A) → Ensures P m → ((a : A) → P a → Q a) → Ensures Q m
  Ensures-weaken Q (ok a) h k = k a h
  Ensures-weaken Q failed h k = tt
  Ensures-weaken Q fault h k = tt

  pub Ensures-bind {ℓ' κ'} :
      {B : Type ℓ'} (Q : B → Type κ') (m : Outcome A) (f : A → Outcome B)
      → Ensures P m
      → ((a : A) → P a → Ensures Q (f a))
      → Ensures Q (m >>= f)
  Ensures-bind Q (ok a) f h k = k a h
  Ensures-bind Q failed f h k = tt
  Ensures-bind Q fault f h k = tt

-- What holds after every continuation holds after the sequence.
pub Ensures-then {ℓ κ ι} :
    {A : Type ℓ} {B : Type κ} (Q : B → Type ι) (m : Outcome A) (f : A → Outcome B)
    → ((a : A) → Ensures Q (f a))
    → Ensures Q (m >>= f)
Ensures-then Q (ok a) f k = k a
Ensures-then Q failed f k = tt
Ensures-then Q fault f k = tt

-- The run ends normally.
abbrev pub Returns {ℓ} : {A : Type ℓ} → Outcome A → Type ℓ
Returns {A} m = (a : A) × (m ≡ ok a)

pub Returns-bind {ℓ κ} :
    {A : Type ℓ} {B : Type κ} (m : Outcome A) (f : A → Outcome B)
    → Returns m
    → ((a : A) → m ≡ ok a → Returns (f a))
    → Returns (m >>= f)
Returns-bind (ok a) f r k = k a refl
Returns-bind failed f r k = cc (r.1)
Returns-bind fault f r k = cc (r.1)
