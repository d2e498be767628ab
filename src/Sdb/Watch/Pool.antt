-- ===== src/Sdb/Watch/Pool.antt =====
-- The two lists of the pool of nemu/src/monitor/sdb/watchpoint.c: the watchpoints that are set and
-- the free elements share the array, and each element is in one of them, once.
pub mod Remove
pub mod Change
use soc_fpga_bjtu_hwct.Common.{
  ℕ, zero, suc, ◌+◌, ◌-◌, ◌≤◌, ◌<◌, ◌≡◌, ◌≢◌, ◌∙◌, refl, ap, sym, arith, Bool, true, false, not,
  Option, none, some, List, [], ◌∷◌, length, get_or, set, length-set, get_or-set_self,
  get_or-set_ne, ◌==◌, if◌then◌else◌,
}
use mathlib.Core.Path.{subst}
use soc_fpga_bjtu_hwct.Sdb.Watch.{
  Wp, WpPool, zero_wp, wp_at, nr_wp, initial_wp, init_loop, init_wp_pool,
}

-- How often `i` occurs.
unfoldable pub count : ℕ → List ℕ → ℕ
count i [] = 0
count i (j ∷ xs) = (if i == j then 1 else 0) + count i xs

-- The pointers lead from `start` through `xs` to NULL.
abbrev pub Chain : List Wp → Option ℕ → List ℕ → Type 0
Chain pool start [] = start ≡ none
Chain pool start (i ∷ xs) =
    (start ≡ some i) × (i < length pool) × Chain pool (get_or pool i zero_wp).next xs

pub record Holds (w : WpPool) (active free : List ℕ) : Type 0 where
  pub size : length w.pool ≡ nr_wp
  pub active_chain : Chain w.pool w.head active
  pub free_chain : Chain w.pool w.free free
  pub lengths : length active + length free ≡ nr_wp
  pub once : (i : ℕ) → i < nr_wp → count i active + count i free ≡ 1
  pub flags : (i : ℕ) → i < nr_wp → (wp_at w i).used ≡ not (count i active == 0)
  pub numbers : (i : ℕ) → i < nr_wp → (wp_at w i).number ≡ i

-- A write outside of a chain leaves it.
pub Chain-set :
    (pool : List Wp) (start : Option ℕ) (xs : List ℕ) (j : ℕ) (v : Wp)
    → count j xs ≡ 0
    → Chain pool start xs
    → Chain (set pool j v) start xs
unfolding count
Chain-set pool start [] j v out h = h
Chain-set pool start (i ∷ xs) j v out h =
    let apart : j ≢ i = λ e. ground (arith, e) in
    let kept = get_or-set_ne pool j i v zero_wp apart in
    (
      h.0,
      rw (length-set pool j v) h.1,
      subst (λ p. Chain (set pool j v) p xs) (ap (λ x. x.next) (sym kept))
          (Chain-set pool _ xs j v (ground arith) h.2),
    )

-- A field that a write keeps is the same everywhere.
pub field-set {ℓ} :
    {A : Type ℓ} (f : Wp → A) (pool : List Wp) (j i : ℕ) (v : Wp)
    → f v ≡ f (get_or pool j zero_wp)
    → f (get_or (set pool j v) i zero_wp) ≡ f (get_or pool i zero_wp)
field-set f [] j i v e = refl
field-set f (x ∷ pool) zero zero v e = e
field-set f (x ∷ pool) zero (suc i) v e = refl
field-set f (x ∷ pool) (suc j) zero v e = refl
field-set f (x ∷ pool) (suc j) (suc i) v e = field-set f pool j i v e

-- The numbers from `i` on.
unfoldable pub range : ℕ → ℕ → List ℕ
range zero i = []
range (suc n) i = i ∷ range n (i + 1)

count-range_below : (n i k : ℕ) → k < i → count k (range n i) ≡ 0
unfolding count range
count-range_below zero i k lt = refl
count-range_below (suc n) i k lt = ground (arith, count-range_below n (i + 1) k)

count-range : (n i k : ℕ) → i ≤ k → k < i + n → count k (range n i) ≡ 1
unfolding count range
count-range zero i k lo hi = absurd (omega arith)
count-range (suc n) i k lo hi =
    ground (arith, count-range n (i + 1) k, count-range_below n (i + 1) k)

get_or-init_loop : (n i j : ℕ) → j < n → get_or (init_loop n i) j zero_wp ≡ initial_wp (i + j)
unfolding init_loop
get_or-init_loop zero i j lt = absurd (omega arith)
get_or-init_loop (suc n) i zero lt = ap initial_wp (omega arith)
get_or-init_loop (suc n) i (suc j) lt =
    get_or-init_loop n (i + 1) j (omega arith) ∙ ap initial_wp (omega arith)

length-range : (n i : ℕ) → length (range n i) ≡ n
unfolding range
length-range zero i = refl
length-range (suc n) i = ap suc (length-range n (i + 1))

init_wp_pool-Chain : Chain init_wp_pool.pool init_wp_pool.free (range nr_wp 0)
unfolding init_wp_pool init_loop initial_wp range
init_wp_pool-Chain = ground arith

-- At the start no watchpoint is set, and the free list holds the whole pool in order.
pub init_wp_pool-Holds : Holds init_wp_pool [] (range nr_wp 0)
unfolding init_wp_pool initial_wp count
init_wp_pool-Holds = record {
  size = refl;
  active_chain = refl;
  free_chain = init_wp_pool-Chain;
  lengths = omega (arith, length-range nr_wp 0);
  once = λ i lt. omega (arith, count-range nr_wp 0 i);
  flags = λ i lt. ap (λ x. x.used) (get_or-init_loop nr_wp 0 i lt);
  numbers = λ i lt. ap (λ x. x.number) (get_or-init_loop nr_wp 0 i lt) ∙ omega arith;
}
