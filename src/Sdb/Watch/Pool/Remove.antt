-- ===== src/Sdb/Watch/Pool/Remove.antt =====
-- Setting and deleting a watchpoint of nemu/src/monitor/sdb/watchpoint.c keep the two lists of the
-- pool.
use soc_fpga_bjtu_hwct.Common.{
  ℕ, zero, suc, ◌+◌, ◌≤◌, ◌<◌, ◌≡◌, ◌≢◌, ◌∙◌, refl, ap, sym, arith, Option, some, List, [], ◌∷◌,
  length, get_or, set, length-set, get_or-set_self, get_or-set_ne, ◌==◌, if◌then◌else◌, Bool-cases,
  inl, inr,
}
use mathlib.Core.Path.{subst}
use soc_fpga_bjtu_hwct.Common.Outcome.{ok}
use soc_fpga_bjtu_hwct.Sdb.Watch.{Wp, zero_wp, find_previous}
use soc_fpga_bjtu_hwct.Sdb.Watch.Pool.{count, Chain, Chain-set}

-- The list without the first `wp`.
unfoldable pub remove : ℕ → List ℕ → List ℕ
remove wp [] = []
remove wp (i ∷ xs) = if wp == i then xs else i ∷ remove wp xs

pub count-remove :
    (wp k : ℕ) (xs : List ℕ)
    → count wp xs ≡ 1
    → count k xs ≡ count k (remove wp xs) + (if k == wp then 1 else 0)
unfolding count remove
count-remove wp k [] h = absurd (omega arith)
count-remove wp k (i ∷ xs) h = ground (arith, count-remove wp k xs)

pub length-remove :
    (wp : ℕ) (xs : List ℕ) → count wp xs ≡ 1 → length xs ≡ suc (length (remove wp xs))
unfolding count remove
length-remove wp [] h = absurd (omega arith)
length-remove wp (i ∷ xs) h = ground (arith, length-remove wp xs)

abbrev pub next_at : List Wp → ℕ → Option ℕ
next_at pool i = (get_or pool i zero_wp).next

-- The element in front of `wp` in a chain that starts at another element `i`: it is found, and the
-- chain without `wp` is what its new pointer gives.
pub record Unlinked (pool : List Wp) (fuel : ℕ) (previous : Option ℕ) (i wp : ℕ) (xs : List ℕ)
    : Type 0 where
  pub at : ℕ
  pub found : find_previous pool fuel previous (some i) wp ≡ ok (some at)
  pub inside : count at (i ∷ xs) ≡ 1
  pub other : at ≢ wp
  pub chain :
      Chain
        (set pool at (record (get_or pool at zero_wp) { next = next_at pool wp }))
        (some i)
        (i ∷ remove wp xs)

find_here :
    (pool : List Wp) (fuel : ℕ) (previous : Option ℕ) (wp : ℕ)
    → find_previous pool (suc fuel) previous (some wp) wp ≡ ok previous
unfolding find_previous
find_here pool fuel previous wp = ground arith

find_step :
    (pool : List Wp) (fuel : ℕ) (previous : Option ℕ) (i wp : ℕ)
    → i ≢ wp
    → find_previous pool (suc fuel) previous (some i) wp
      ≡ find_previous pool fuel (some i) (next_at pool i) wp
unfolding find_previous
find_step pool fuel previous i wp ne = ground arith

pub remove_head : (wp : ℕ) (xs : List ℕ) → remove wp (wp ∷ xs) ≡ xs
unfolding remove
remove_head wp xs = ground arith

pub remove_tail : (wp i : ℕ) (xs : List ℕ) → i ≢ wp → remove wp (i ∷ xs) ≡ i ∷ remove wp xs
unfolding remove
remove_tail wp i xs ne = ground arith

-- The element behind `i` is the one that is looked for.
Unlinked-next :
    (pool : List Wp) (fuel : ℕ) (previous : Option ℕ) (i wp : ℕ) (ys : List ℕ)
    → i ≢ wp
    → ((k : ℕ) → count k (i ∷ wp ∷ ys) ≤ 1)
    → Chain pool (some i) (i ∷ wp ∷ ys)
    → Unlinked pool (suc (suc fuel)) previous i wp (wp ∷ ys)
unfolding count
Unlinked-next pool fuel previous i wp ys ne distinct h =
    let v = record (get_or pool i zero_wp) { next = next_at pool wp } in
    record {
      at = i;
      found =
          find_step pool (suc fuel) previous i wp ne
          ∙ ap (λ p. find_previous pool (suc fuel) (some i) p wp) h.2.0
          ∙ find_here pool fuel (some i) wp;
      inside = ground (arith, distinct i);
      other = ne;
      chain = (
        refl,
        rw (length-set pool i v) h.1,
        rw (remove_head wp ys) (
            subst (λ p. Chain (set pool i v) p ys)
              (ap (λ x. x.next) (sym (get_or-set_self pool i v zero_wp h.1)))
              (Chain-set pool _ ys i v (ground (arith, distinct i)) h.2.2)),
      );
    }

-- It lies further behind.
Unlinked-later :
    (pool : List Wp) (fuel : ℕ) (previous : Option ℕ) (i j wp : ℕ) (ys : List ℕ)
    → i ≢ wp
    → j ≢ wp
    → ((k : ℕ) → count k (i ∷ j ∷ ys) ≤ 1)
    → Chain pool (some i) (i ∷ j ∷ ys)
    → Unlinked pool fuel (some i) j wp ys
    → Unlinked pool (suc fuel) previous i wp (j ∷ ys)
unfolding count
Unlinked-later pool fuel previous i j wp ys ne nj distinct h r =
    let v = record (get_or pool r.at zero_wp) { next = next_at pool wp } in
    let apart : r.at ≢ i = λ e. ground (arith, e, distinct r.at, r.inside) in
    let kept = get_or-set_ne pool r.at i v zero_wp apart in
    record {
      at = r.at;
      found =
          find_step pool fuel previous i wp ne
          ∙ ap (λ p. find_previous pool fuel (some i) p wp) h.2.0
          ∙ r.found;
      inside = ground (arith, distinct r.at, r.inside);
      other = r.other;
      chain = (
        refl,
        rw (length-set pool r.at v) h.1,
        rw (remove_tail wp j ys nj) (
            subst (λ p. Chain (set pool r.at v) p (j ∷ remove wp ys))
              (sym (ap (λ x. x.next) kept ∙ h.2.0)) r.chain),
      );
    }

pub find_previous-Unlinked :
    (pool : List Wp) (fuel : ℕ) (previous : Option ℕ) (i wp : ℕ) (xs : List ℕ)
    → length xs < fuel
    → i ≢ wp
    → count wp xs ≡ 1
    → ((k : ℕ) → count k (i ∷ xs) ≤ 1)
    → Chain pool (some i) (i ∷ xs)
    → Unlinked pool fuel previous i wp xs
unfolding count
find_previous-Unlinked pool fuel previous i wp [] le ne one distinct h = absurd (omega arith)
find_previous-Unlinked pool zero previous i wp (j ∷ ys) le ne one distinct h = absurd (omega arith)
find_previous-Unlinked pool (suc zero) previous i wp (j ∷ ys) le ne one distinct h =
    absurd (omega arith)
find_previous-Unlinked pool (suc (suc fuel)) previous i wp (j ∷ ys) le ne one distinct h =
    elim (Bool-cases (wp == j)) [
      | inl here ↦
          let e : wp ≡ j = ground arith in
          subst
            (λ k.
              ((m : ℕ) → count m (i ∷ k ∷ ys) ≤ 1)
              → Chain pool (some i) (i ∷ k ∷ ys)
              → Unlinked pool (suc (suc fuel)) previous i wp (k ∷ ys))
            e (Unlinked-next pool fuel previous i wp ys ne) distinct h
      | inr later ↦
          let nj : j ≢ wp = λ e. ground (arith, e) in
          Unlinked-later pool (suc fuel) previous i j wp ys ne nj distinct h (
            find_previous-Unlinked pool (suc fuel) (some i) j wp ys (omega arith) nj (ground arith)
              (λ k. omega (arith, distinct k)) (refl, h.2.1, h.2.2))
    ]
