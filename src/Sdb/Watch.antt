-- ===== src/Sdb/Watch.antt =====
-- The watchpoints: nemu/src/monitor/sdb/watchpoint.c without CONFIG_PARALLEL_WP. A pointer into the
-- pool is an index; following NULL, or an index outside of the pool, is undefined. Messages are left
-- out, and memory for the texts never runs out.
pub mod Pool
pub mod View
pub mod Check
pub mod Kept
use soc_fpga_bjtu_hwct.Common.{
  ℕ, zero, suc, ◌+◌, ◌-◌, Bool, true, false, Option, none, some, List, [], ◌∷◌, length, get_or, set,
  ltb, ◌==◌, if◌then◌else◌,
}
use soc_fpga_bjtu_hwct.Common.Outcome.{Outcome, ok, fault, ◌>>=◌}

abbrev pub nr_wp : ℕ
nr_wp = 32

-- The fields `used`, `NO`, `next`, `exprs` and `num`.
pub record Wp : Type 0 where
  pub used : Bool
  pub number : ℕ
  pub next : Option ℕ
  pub exprs : List ℕ
  pub num : ℕ

-- `wp_pool`, `head` and `free_`.
pub record WpPool : Type 0 where
  pub pool : List Wp
  pub head : Option ℕ
  pub free : Option ℕ

abbrev pub zero_wp : Wp
zero_wp = record { used = false; number = 0; next = none; exprs = []; num = 0 }

abbrev pub wp_at : WpPool → ℕ → Wp
wp_at w i = get_or w.pool i zero_wp

abbrev pub set_wp : ℕ → Wp → WpPool → WpPool
set_wp i v w = record w { pool = set w.pool i v }

-- The element `i` of the pool after `init_wp_pool`.
unfoldable pub initial_wp : ℕ → Wp
initial_wp i = record zero_wp { number = i; next = if i == nr_wp - 1 then none else some (i + 1) }

-- The loop of `init_wp_pool` over `n` elements from `i` on; `exprs` and `num` are zero at the start.
unfoldable pub init_loop : ℕ → ℕ → List Wp
unfolding initial_wp
init_loop zero i = []
init_loop (suc n) i = initial_wp i ∷ init_loop n (i + 1)

unfoldable pub init_wp_pool : WpPool
unfolding init_loop
init_wp_pool = record { pool = init_loop nr_wp 0; head = none; free = some 0 }

-- The loop of `free_wp`: the element in front of `wp` in the list that goes on from `p`.
unfoldable pub find_previous : List Wp → ℕ → Option ℕ → Option ℕ → ℕ → Outcome (Option ℕ)
find_previous pool zero previous p wp = fault
find_previous pool (suc fuel) previous none wp = fault
find_previous pool (suc fuel) previous (some i) wp =
    let rest = find_previous pool fuel (some i) (get_or pool i zero_wp).next wp in
    if i == wp then ok previous else rest

-- `pre_p->next = p->next`, where `p` is `wp`.
unfoldable pub unlink : Option ℕ → ℕ → WpPool → Outcome WpPool
unlink none wp w = fault
unlink (some i) wp w = ok (set_wp i (record (wp_at w i) { next = (wp_at w wp).next }) w)

abbrev pub is_at : Option ℕ → ℕ → Bool
is_at none i = false
is_at (some j) i = j == i

unfoldable pub take_out : ℕ → WpPool → Outcome WpPool
unfolding find_previous unlink
take_out wp w =
    if is_at w.head wp
    then ok (record w { head = (wp_at w wp).next })
    else (find_previous w.pool (suc nr_wp) none w.head wp >>= (λ previous. unlink previous wp w))

unfoldable pub give_back : ℕ → WpPool → WpPool
give_back wp w =
    let freed = set_wp wp (record (wp_at w wp) { used = false; next = w.free }) w in
    record freed { free = some wp }

unfoldable pub free_wp : ℕ → WpPool → Outcome WpPool
unfolding take_out give_back
free_wp wp w = do w' ← take_out wp w; ok (give_back wp w')

unfoldable pub delete_wp : ℕ → WpPool → Outcome WpPool
unfolding free_wp
delete_wp index w =
    if ltb index (length w.pool)
    then (if (wp_at w index).used then free_wp index w else ok w)
    else fault

-- `p->next = mid`, and `p` becomes the head.
unfoldable pub push_head : Option ℕ → WpPool → ℕ × WpPool
push_head none w = (0, w)
push_head (some p) w =
    (1, record (set_wp p (record (wp_at w p) { next = w.head }) w) { head = some p })

-- `expr(args, &success)`: the value, and the state it leaves of tokens and devices.
module _ {S : Type 0} (expr : List ℕ → S → Outcome (ℕ × S)) where
  -- The element at the front of the free list is taken; nothing is done if there is none.
  unfoldable pub take_free : List ℕ → Option ℕ → WpPool → S → Outcome (Option ℕ × WpPool × S)
  take_free args none w s = ok (none, w, s)
  take_free args (some p) w s = do
    (value, s') ← expr args s
    ok (
      some p,
      record w {
        pool = set w.pool p (record (wp_at w p) { used = true; exprs = args; num = value });
        free = (wp_at w p).next;
      },
      s',
    )

  -- The test for an expression that is not legal compares a pointer, and never holds.
  unfoldable pub new_wp : List ℕ → WpPool → S → Outcome (Option ℕ × WpPool × S)
  unfolding take_free
  new_wp args w s = do (value, s') ← expr args s; take_free args w.free w s'

  -- The result is 1 if a watchpoint was added.
  unfoldable pub add_wp : List ℕ → WpPool → S → Outcome (ℕ × WpPool × S)
  unfolding new_wp push_head
  add_wp args w s = do
    (p, w', s') ← new_wp args w s
    let (done, w'') = push_head p w'
    ok (done, w'', s')

  -- The body of the loop of `check_watch_points`; `rec` is the rest of the loop.
  unfoldable pub check_value :
      (Option ℕ → WpPool → S → Outcome (ℕ × WpPool × S))
      → ℕ
      → WpPool
      → ℕ
      → S
      → Outcome (ℕ × WpPool × S)
  check_value rec i w value s =
      if (wp_at w i).num == value
      then rec (wp_at w i).next w s
      else ok (0, set_wp i (record (wp_at w i) { num = value }) w, s)

  -- 0 at the first value that changed, which is stored.
  unfoldable pub check_from : ℕ → Option ℕ → WpPool → S → Outcome (ℕ × WpPool × S)
  unfolding check_value
  check_from zero p w s = fault
  check_from (suc fuel) none w s = ok (1, w, s)
  check_from (suc fuel) (some i) w s =
      expr (wp_at w i).exprs s >>= (λ r. check_value (check_from fuel) i w r.0 r.1)

  unfoldable pub check_watch_points : WpPool → S → Outcome (ℕ × WpPool × S)
  unfolding check_from
  check_watch_points w s = check_from (suc nr_wp) w.head w s

-- What `display_wp` prints for each watchpoint: number, text, value.
unfoldable pub display_from : List Wp → ℕ → Option ℕ → Outcome (List (ℕ × List ℕ × ℕ))
display_from pool zero p = fault
display_from pool (suc fuel) none = ok []
display_from pool (suc fuel) (some i) =
    let p = get_or pool i zero_wp in
    (display_from pool fuel p.next >>= (λ rest. ok ((p.number, p.exprs, p.num) ∷ rest)))

unfoldable pub display_wp : WpPool → Outcome (List (ℕ × List ℕ × ℕ))
unfolding display_from
display_wp w = display_from w.pool (suc nr_wp) w.head
