-- ===== src/Sdb/Watch/Kept.antt =====
-- Whatever the expressions do, the operations of nemu/src/monitor/sdb/watchpoint.c keep the two lists
-- of the pool.
use soc_fpga_bjtu_hwct.Common.{
  ℕ, zero, suc, ◌≡◌, ◌∙◌, refl, ap, sym, arith, false, Option, none, some, List, [], ◌∷◌, length,
  get_or, set, length-set, ltb, ◌==◌, if_both, Bool-cases, inl, inr, ltb→lt,
}
use mathlib.Core.Path.{subst}
use soc_fpga_bjtu_hwct.Common.Outcome.{Outcome, fault, Ensures, Ensures-bind}
use soc_fpga_bjtu_hwct.Sdb.Watch.{
  Wp, WpPool, zero_wp, wp_at, set_wp, nr_wp, take_free, new_wp, push_head, add_wp, delete_wp,
  check_value, check_from, check_watch_points,
}
use soc_fpga_bjtu_hwct.Sdb.Watch.Pool.{Chain, Holds, field-set}
use soc_fpga_bjtu_hwct.Sdb.Watch.View.{added, added-Holds, delete_wp-Holds}

-- The pool is well-formed, with some two lists.
pub record IsPool (w : WpPool) : Type 0 where
  pub active : List ℕ
  pub others : List ℕ
  pub holds : Holds w active others

abbrev IsPool_of : {w : WpPool} {active others : List ℕ} → Holds w active others → IsPool w
IsPool_of {active = a} {others = o} h = record { active = a; others = o; holds = h }

Chain-next :
    (pool pool' : List Wp) (start : Option ℕ) (xs : List ℕ)
    → length pool' ≡ length pool
    → ((i : ℕ) → (get_or pool' i zero_wp).next ≡ (get_or pool i zero_wp).next)
    → Chain pool start xs
    → Chain pool' start xs
Chain-next pool pool' start [] size same h = h
Chain-next pool pool' start (i ∷ xs) size same h = (
  h.0,
  rw size h.1,
  subst (λ p. Chain pool' p xs) (sym (same i)) (Chain-next pool pool' _ xs size same h.2),
)

-- A new value changes no list.
set_num-Holds :
    (w : WpPool) (active others : List ℕ) (j value : ℕ)
    → Holds w active others
    → Holds (set_wp j (record (wp_at w j) { num = value }) w) active others
set_num-Holds w active others j value v =
    let changed = record (wp_at w j) { num = value } in
    let size = length-set w.pool j changed in
    let next = λ (i : ℕ). field-set (λ x. x.next) w.pool j i changed refl in
    record {
      size = size ∙ v.size;
      active_chain =
          Chain-next w.pool (set w.pool j changed) w.head active size next v.active_chain;
      free_chain = Chain-next w.pool (set w.pool j changed) w.free others size next v.free_chain;
      lengths = v.lengths;
      once = v.once;
      flags = λ i lt. field-set (λ x. x.used) w.pool j i changed refl ∙ v.flags i lt;
      numbers = λ i lt. field-set (λ x. x.number) w.pool j i changed refl ∙ v.numbers i lt;
    }

delete_wp_outside : (i : ℕ) (w : WpPool) → ltb i (length w.pool) ≡ false → delete_wp i w ≡ fault
unfolding delete_wp
delete_wp_outside i w h = rw h

pub delete_wp-IsPool : (i : ℕ) (w : WpPool) → IsPool w → Ensures IsPool (delete_wp i w)
delete_wp-IsPool i w v = elim (Bool-cases (ltb i nr_wp)) [
  | inl small ↦
      let r = delete_wp-Holds w v.active v.others i (ltb→lt _ _ small) v.holds in
      subst (Ensures IsPool) (sym r.1) (IsPool_of r.2)
  | inr big ↦
      subst (Ensures IsPool) (sym (delete_wp_outside i w (ap (ltb i) v.holds.size ∙ big))) tt
]

-- The first free element is that of the free list.
added-IsPool :
    (w : WpPool) (p : ℕ) (args : List ℕ) (value : ℕ) (active others : List ℕ)
    → Holds w active others
    → w.free ≡ some p
    → IsPool (added w p args value)
added-IsPool w p args value active [] h e = absurd (cc (h.free_chain, e))
added-IsPool w p args value active (q ∷ rest) h e =
    let same : q ≡ p = ground (arith, h.free_chain.0, e) in
    IsPool_of
      (added-Holds w p args value active rest (subst (λ k. Holds w active (k ∷ rest)) same h))

module _ {S : Type 0} (expr : List ℕ → S → Outcome (ℕ × S)) (P : S → Type 0)
    (keeps : (args : List ℕ) (s : S) → P s → Ensures (λ (r : ℕ × S). P r.1) (expr args s)) where
  abbrev pub Kept : ℕ × WpPool × S → Type 0
  Kept r = IsPool r.1 × P r.2

  check_from-Kept :
      (fuel : ℕ) (start : Option ℕ) (w : WpPool) (s : S)
      → IsPool w
      → P s
      → Ensures Kept (check_from expr fuel start w s)
  unfolding check_from check_value
  check_from-Kept zero start w s v p = tt
  check_from-Kept (suc fuel) none w s v p = (v, p)
  check_from-Kept (suc fuel) (some i) w s v p =
      Ensures-bind (λ (r : ℕ × S). P r.1) Kept (expr (wp_at w i).exprs s) _
        (keeps (wp_at w i).exprs s p)
        (λ r p'.
          if_both (Ensures Kept) ((wp_at w i).num == r.0)
            (check_from-Kept fuel (wp_at w i).next w r.1 v p')
            (IsPool_of (set_num-Holds w v.active v.others i r.0 v.holds), p'))

  pub check_watch_points-Kept :
      (w : WpPool) (s : S) → IsPool w → P s → Ensures Kept (check_watch_points expr w s)
  unfolding check_watch_points
  check_watch_points-Kept w s v p = check_from-Kept (suc nr_wp) w.head w s v p

  -- What `new_wp` hands to `add_wp`.
  abbrev Ready : Option ℕ × WpPool × S → Type 0
  Ready r = IsPool (push_head r.0 r.1).1 × P r.2

  take_free-Ready :
      (args : List ℕ) (front : Option ℕ) (w : WpPool) (s : S)
      → w.free ≡ front
      → IsPool w
      → P s
      → Ensures Ready (take_free expr args front w s)
  unfolding take_free push_head
  take_free-Ready args none w s e v p = (v, p)
  take_free-Ready args (some i) w s e v p =
      Ensures-bind (λ (r : ℕ × S). P r.1) Ready (expr args s) _ (keeps args s p)
        (λ r p'. (added-IsPool w i args r.0 v.active v.others v.holds e, p'))

  pub add_wp-Kept :
      (args : List ℕ) (w : WpPool) (s : S) → IsPool w → P s → Ensures Kept (add_wp expr args w s)
  unfolding add_wp new_wp
  add_wp-Kept args w s v p =
      Ensures-bind Ready Kept (new_wp expr args w s) _
        (Ensures-bind (λ (r : ℕ × S). P r.1) Ready (expr args s) _ (keeps args s p)
          (λ r p'. take_free-Ready args w.free w r.1 refl v p'))
        (λ r h. h)
