-- ===== src/Sdb/Watch/Pool/Change.antt =====
-- The operations of nemu/src/monitor/sdb/watchpoint.c on the two lists of the pool.
use soc_fpga_bjtu_hwct.Common.{
  ℕ, suc, ◌≤◌, ◌<◌, ◌≡◌, ◌≢◌, ◌∙◌, refl, ap, sym, arith, true, false, not, Option, none, some, List,
  [], ◌∷◌, length, get_or, set, length-set, get_or-set_self, get_or-set_ne, ltb, ◌==◌, Bool-cases,
  inl, inr,
}
use mathlib.Core.Path.{subst}
use soc_fpga_bjtu_hwct.Common.Outcome.{Outcome, ok, ◌>>=◌}
use soc_fpga_bjtu_hwct.Sdb.Watch.{
  Wp, WpPool, zero_wp, wp_at, set_wp, nr_wp, find_previous, unlink, is_at, take_out, give_back,
}
use soc_fpga_bjtu_hwct.Sdb.Watch.Pool.{count, Chain, Holds, Chain-set, field-set}
use soc_fpga_bjtu_hwct.Sdb.Watch.Pool.Remove.{
  remove, count-remove, length-remove, remove_head, remove_tail, next_at, Unlinked,
  find_previous-Unlinked,
}

-- The pool with `wp` out of both lists, before it is given back.
pub record TakenOut (w : WpPool) (active free : List ℕ) (wp : ℕ) : Type 0 where
  pub after : WpPool
  pub run : take_out wp w ≡ ok after
  size : length after.pool ≡ nr_wp
  active_chain : Chain after.pool after.head (remove wp active)
  free_chain : Chain after.pool after.free free
  flags : (i : ℕ) → (wp_at after i).used ≡ (wp_at w i).used
  numbers : (i : ℕ) → (wp_at after i).number ≡ (wp_at w i).number

pub Chain-bound :
    (pool : List Wp) (start : Option ℕ) (xs : List ℕ) (k : ℕ)
    → Chain pool start xs
    → 0 < count k xs
    → k < length pool
unfolding count
Chain-bound pool start [] k h one = absurd (omega arith)
Chain-bound pool start (i ∷ xs) k h one =
    ground (arith, h.1, Chain-bound pool (next_at pool i) xs k h.2)

take_out_run_head :
    (w : WpPool) (wp : ℕ)
    → w.head ≡ some wp
    → take_out wp w ≡ ok (record w { head = next_at w.pool wp })
unfolding take_out
take_out_run_head w wp e =
    let same : (wp == wp) ≡ true = ground arith in
    let here : is_at w.head wp ≡ true = ap (λ h. is_at h wp) e ∙ same in rw here

take_out_run_tail :
    (w : WpPool) (j wp at : ℕ)
    → j ≢ wp
    → w.head ≡ some j
    → find_previous w.pool (suc nr_wp) none (some j) wp ≡ ok (some at)
    → take_out wp w
      ≡ ok (set_wp at (record (get_or w.pool at zero_wp) { next = next_at w.pool wp }) w)
unfolding take_out unlink
take_out_run_tail w j wp at ne e found =
    let differ : (j == wp) ≡ false = ground arith in
    let other : is_at w.head wp ≡ false = ap (λ h. is_at h wp) e ∙ differ in
    let run = λ (m : Outcome (Option ℕ)). m >>= (λ previous. unlink previous wp w) in
    rw other (ap (λ h. run (find_previous w.pool (suc nr_wp) none h wp)) e ∙ ap run found)

take_out_head :
    (w : WpPool) (xs free : List ℕ) (wp : ℕ) → Holds w (wp ∷ xs) free → TakenOut w (wp ∷ xs) free wp
unfolding take_out
take_out_head w xs free wp v = record {
  after = record w { head = next_at w.pool wp };
  run = take_out_run_head w wp v.active_chain.0;
  size = v.size;
  active_chain = rw (remove_head wp xs) v.active_chain.2;
  free_chain = v.free_chain;
  flags = λ i. refl;
  numbers = λ i. refl;
}

take_out_tail :
    (w : WpPool) (j wp : ℕ) (xs free : List ℕ)
    → wp < nr_wp
    → j ≢ wp
    → count wp xs ≡ 1
    → Holds w (j ∷ xs) free
    → Unlinked w.pool (suc nr_wp) none j wp xs
    → TakenOut w (j ∷ xs) free wp
unfolding take_out unlink count
take_out_tail w j wp xs free lt ne one v r =
    let changed = record (get_or w.pool r.at zero_wp) { next = next_at w.pool wp } in
    record {
      after = set_wp r.at changed w;
      run = take_out_run_tail w j wp r.at ne v.active_chain.0 r.found;
      size = length-set w.pool r.at changed ∙ v.size;
      active_chain =
          subst (λ h. Chain (set w.pool r.at changed) h (remove wp (j ∷ xs))) (sym v.active_chain.0)
            (rw (remove_tail wp j xs ne) r.chain);
      free_chain =
          Chain-set w.pool _ free r.at changed
            (omega (
              arith,
              v.once r.at (
                  rw (← v.size) (
                    Chain-bound w.pool w.head (j ∷ xs) r.at v.active_chain
                      (omega (arith, r.inside)))),
              r.inside,
            ))
            v.free_chain;
      flags = λ i. field-set (λ x. x.used) w.pool r.at i changed refl;
      numbers = λ i. field-set (λ x. x.number) w.pool r.at i changed refl;
    }

Holds-distinct :
    (w : WpPool) (active free : List ℕ) (k : ℕ) → Holds w active free → count k active ≤ 1
Holds-distinct w active free k v = elim (Bool-cases (ltb k nr_wp)) [
  | inl small ↦ omega (arith, v.once k (ground arith))
  | inr big ↦ elim (Bool-cases (count k active == 0)) [
    | inl zero_times ↦ ground arith
    | inr some_times ↦
        let lt = Chain-bound w.pool w.head active k v.active_chain (ground arith) in
        absurd (ground (arith, lt, v.size))
  ]
]

pub take_out-TakenOut :
    (w : WpPool) (active free : List ℕ) (wp : ℕ)
    → wp < nr_wp
    → count wp active ≡ 1
    → Holds w active free
    → TakenOut w active free wp
unfolding count
take_out-TakenOut w [] free wp lt one v = absurd (omega arith)
take_out-TakenOut w (j ∷ xs) free wp lt one v = elim (Bool-cases (wp == j)) [
  | inl here ↦
      let e : wp ≡ j = ground arith in
      subst (λ k. Holds w (k ∷ xs) free → TakenOut w (k ∷ xs) free wp) e
        (take_out_head w xs free wp) v
  | inr later ↦
      let ne : j ≢ wp = λ e. ground (arith, e) in
      let rest : count wp xs ≡ 1 = ground arith in
      take_out_tail w j wp xs free lt ne rest v (
        find_previous-Unlinked w.pool (suc nr_wp) none j wp xs (omega (arith, v.lengths)) ne rest
          (λ k. Holds-distinct w (j ∷ xs) free k v) (refl, v.active_chain.1, v.active_chain.2))
]

pub give_back-Holds :
    (w : WpPool) (active free : List ℕ) (wp : ℕ)
    → wp < nr_wp
    → count wp active ≡ 1
    → Holds w active free
    → (t : TakenOut w active free wp) → Holds (give_back wp t.after) (remove wp active) (wp ∷ free)
unfolding give_back count
give_back-Holds w active free wp lt one v t =
    let gone : count wp (remove wp active) ≡ 0 = ground (arith, count-remove wp wp active one) in
    let freed = record (wp_at t.after wp) { used = false; next = t.after.free } in
    let inside : wp < length t.after.pool = rw t.size lt in
    let self = get_or-set_self t.after.pool wp freed zero_wp inside in
    record {
      size = length-set t.after.pool wp freed ∙ t.size;
      active_chain = Chain-set t.after.pool _ (remove wp active) wp freed gone t.active_chain;
      free_chain = (
        refl,
        rw (length-set t.after.pool wp freed) inside,
        subst (λ p. Chain (set t.after.pool wp freed) p free) (ap (λ x. x.next) (sym self))
            (Chain-set t.after.pool _ free wp freed (omega (arith, v.once wp lt)) t.free_chain),
      );
      lengths = omega (arith, length-remove wp active one, v.lengths);
      once = λ i small. ground (arith, count-remove wp i active one, v.once i small);
      flags = λ i small. elim (Bool-cases (i == wp)) [
        | inl here ↦
            let e : wp ≡ i = ground arith in
            let unused : (false ≡ not (count wp (remove wp active) == 0)) = rw gone in
            subst
              (λ k.
                (get_or (set t.after.pool wp freed) k zero_wp).used
                ≡ not (count k (remove wp active) == 0))
              e (ap (λ x. x.used) self ∙ unused)
        | inr other ↦
            let ne : wp ≢ i = λ e. ground (arith, e) in
            let same : count i active ≡ count i (remove wp active) =
              ground (arith, count-remove wp i active one) in
            ap (λ x. x.used) (get_or-set_ne t.after.pool wp i freed zero_wp ne)
            ∙ t.flags i
            ∙ v.flags i small
            ∙ ap (λ n. not (n == 0)) same
      ];
      numbers = λ i small.
          field-set (λ x. x.number) t.after.pool wp i freed refl ∙ t.numbers i ∙ v.numbers i small;
    }
