-- ===== src/Sdb/Watch/View.antt =====
-- What a user sees of the pool of nemu/src/monitor/sdb/watchpoint.c: the list of the watchpoints that
-- are set, which is what `display_wp` prints.
use soc_fpga_bjtu_hwct.Common.{
  ℕ, zero, suc, ◌<◌, ◌≡◌, ◌≢◌, ◌∙◌, refl, ap, sym, arith, true, false, not, Option, none, some,
  List, [], ◌∷◌, length, set, length-set, get_or-set_self, get_or-set_ne, ◌==◌, if◌then◌else◌,
  Bool-cases, inl, inr, lt→ltb, map,
}
use mathlib.Core.Path.{subst}
use soc_fpga_bjtu_hwct.Common.Outcome.{Outcome, ok, ◌>>=◌}
use soc_fpga_bjtu_hwct.Sdb.Watch.{
  Wp, WpPool, zero_wp, wp_at, set_wp, nr_wp, take_out, give_back, free_wp, delete_wp, take_free,
  new_wp, push_head, add_wp, display_from, display_wp,
}
use soc_fpga_bjtu_hwct.Sdb.Watch.Pool.{count, Chain, Holds, Chain-set, field-set}
use soc_fpga_bjtu_hwct.Sdb.Watch.Pool.Remove.{remove}
use soc_fpga_bjtu_hwct.Sdb.Watch.Pool.Change.{take_out-TakenOut, give_back-Holds}

remove_absent : (i : ℕ) (xs : List ℕ) → count i xs ≡ 0 → remove i xs ≡ xs
unfolding count remove
remove_absent i [] h = refl
remove_absent i (j ∷ xs) h = ground (arith, remove_absent i xs)

delete_wp_unused :
    (w : WpPool) (i : ℕ) → i < length w.pool → (wp_at w i).used ≡ false → delete_wp i w ≡ ok w
unfolding delete_wp
delete_wp_unused w i lt e = rw (lt→ltb _ _ lt) (rw e)

delete_wp_used :
    (w : WpPool) (i : ℕ) → i < length w.pool → (wp_at w i).used ≡ true → delete_wp i w ≡ free_wp i w
unfolding delete_wp
delete_wp_used w i lt e = rw (lt→ltb _ _ lt) (rw e)

free_wp_after : (w u : WpPool) (i : ℕ) → take_out i w ≡ ok u → free_wp i w ≡ ok (give_back i u)
unfolding free_wp
free_wp_after w u i e = rw e

-- `delete_wp` for an index of the pool ends and keeps the two lists: a watchpoint that is set leaves
-- the list of the active ones, whose order stays, and becomes the first free element; for an element
-- that is free nothing changes.
pub delete_wp-Holds :
    (w : WpPool) (active free : List ℕ) (i : ℕ)
    → i < nr_wp
    → Holds w active free
    → (w' : WpPool) × (delete_wp i w ≡ ok w')
      × Holds w' (remove i active) (if count i active == 0 then free else i ∷ free)
      × ((count i active ≡ 0) → w' ≡ w)
delete_wp-Holds w active free i lt v = elim (Bool-cases (count i active == 0)) [
  | inl absent ↦
      let none_there : count i active ≡ 0 = ground arith in
      (
        w,
        delete_wp_unused w i (rw v.size lt) (v.flags i lt ∙ ap not absent),
        rw absent (rw (remove_absent i active none_there) v),
        λ _. refl,
      )
  | inr there ↦
      let one : count i active ≡ 1 = ground (arith, v.once i lt) in
      let t = take_out-TakenOut w active free i lt one v in
      (
        give_back i t.after,
        delete_wp_used w i (rw v.size lt) (v.flags i lt ∙ ap not there)
            ∙ free_wp_after w t.after i t.run,
        rw there (give_back-Holds w active free i lt one v t),
        λ zero_times. absurd (ground (arith, zero_times)),
      )
]

-- A watchpoint as it is displayed.
abbrev pub entry_of : WpPool → ℕ → ℕ × List ℕ × ℕ
entry_of w i = ((wp_at w i).number, (wp_at w i).exprs, (wp_at w i).num)

display_from-Chain :
    (w : WpPool) (fuel : ℕ) (start : Option ℕ) (xs : List ℕ)
    → length xs < fuel
    → Chain w.pool start xs
    → display_from w.pool fuel start ≡ ok (map (entry_of w) xs)
unfolding display_from
display_from-Chain w zero start xs lt h = absurd (omega arith)
display_from-Chain w (suc fuel) start [] lt h = rw h
display_from-Chain w (suc fuel) start (i ∷ xs) lt h =
    let rest = λ (m : Outcome (List (ℕ × List ℕ × ℕ))). m >>= (λ r. ok (entry_of w i ∷ r)) in
    ap (display_from w.pool (suc fuel)) h.0
    ∙ ap rest (display_from-Chain w fuel (wp_at w i).next xs (omega arith) h.2)

-- `display_wp` ends and prints the active watchpoints in order.
pub display_wp-Holds :
    (w : WpPool) (active free : List ℕ)
    → Holds w active free
    → display_wp w ≡ ok (map (entry_of w) active)
unfolding display_wp
display_wp-Holds w active free v =
    display_from-Chain w (suc nr_wp) w.head active (omega (arith, v.lengths)) v.active_chain

-- The element `p` after its two writes: by `new_wp`, and by `add_wp`.
abbrev pub filled : WpPool → ℕ → List ℕ → ℕ → WpPool
filled w p args value = record w {
  pool = set w.pool p (record (wp_at w p) { used = true; exprs = args; num = value });
  free = (wp_at w p).next;
}

abbrev pub pushed : WpPool → ℕ → WpPool
pushed w p = record (set_wp p (record (wp_at w p) { next = w.head }) w) { head = some p }

abbrev pub added : WpPool → ℕ → List ℕ → ℕ → WpPool
added w p args value = pushed (filled w p args value) p

abbrev pub new_element : WpPool → ℕ → List ℕ → ℕ → Wp
new_element w p args value = record (wp_at w p) {
  used = true;
  exprs = args;
  num = value;
  next = w.head;
}

pub added_self :
    (w : WpPool) (p : ℕ) (args : List ℕ) (value : ℕ)
    → p < length w.pool
    → wp_at (added w p args value) p ≡ new_element w p args value
added_self w p args value lt =
    let n1 = record (wp_at w p) { used = true; exprs = args; num = value } in
    let first = get_or-set_self w.pool p n1 zero_wp lt in
    get_or-set_self (set w.pool p n1) p _ zero_wp (rw (length-set w.pool p n1) lt)
    ∙ ap (λ (x : Wp). record x { next = w.head }) first

pub added_other :
    (w : WpPool) (p i : ℕ) (args : List ℕ) (value : ℕ)
    → p ≢ i
    → wp_at (added w p args value) i ≡ wp_at w i
added_other w p i args value ne =
    get_or-set_ne (filled w p args value).pool p i _ zero_wp ne
    ∙ get_or-set_ne w.pool p i _ zero_wp ne

pub added-Chain :
    (w : WpPool) (p : ℕ) (args : List ℕ) (value : ℕ) (start : Option ℕ) (xs : List ℕ)
    → count p xs ≡ 0
    → Chain w.pool start xs
    → Chain (added w p args value).pool start xs
added-Chain w p args value start xs out h =
    Chain-set (filled w p args value).pool start xs p _ out (Chain-set w.pool start xs p _ out h)

pub added-Holds :
    (w : WpPool) (p : ℕ) (args : List ℕ) (value : ℕ) (active free : List ℕ)
    → Holds w active (p ∷ free)
    → Holds (added w p args value) (p ∷ active) free
unfolding count
added-Holds w p args value active free v =
    let lt = v.free_chain.1 in
    let small : p < nr_wp = rw (← v.size) lt in
    let self = added_self w p args value lt in
    let size = length-set (filled w p args value).pool p _ ∙ length-set w.pool p _ ∙ v.size in
    record {
      size = size;
      active_chain = (
        refl,
        rw size small,
        subst (λ h. Chain (added w p args value).pool h active) (ap (λ x. x.next) (sym self))
            (added-Chain w p args value w.head active (ground (arith, v.once p small))
              v.active_chain),
      );
      free_chain =
          added-Chain w p args value _ free (ground (arith, v.once p small)) v.free_chain.2;
      lengths = omega (arith, v.lengths);
      once = λ i lt'. omega (arith, v.once i lt');
      flags = λ i lt'. elim (Bool-cases (i == p)) [
        | inl here ↦
            let e : p ≡ i = ground arith in
            let set_there : (true ≡ not (count p (p ∷ active) == 0)) = ground arith in
            subst (λ k. (wp_at (added w p args value) k).used ≡ not (count k (p ∷ active) == 0)) e
              (ap (λ x. x.used) self ∙ set_there)
        | inr other ↦
            let ne : p ≢ i = λ e. ground (arith, e) in
            let same : count i active ≡ count i (p ∷ active) = ground arith in
            ap (λ x. x.used) (added_other w p i args value ne)
            ∙ v.flags i lt'
            ∙ ap (λ n. not (n == 0)) same
      ];
      numbers = λ i lt'.
          field-set (λ x. x.number) (filled w p args value).pool p i _ refl
          ∙ field-set (λ x. x.number) w.pool p i _ refl
          ∙ v.numbers i lt';
    }

map-entry_of :
    (w : WpPool) (p : ℕ) (args : List ℕ) (value : ℕ) (xs : List ℕ)
    → count p xs ≡ 0
    → map (entry_of (added w p args value)) xs ≡ map (entry_of w) xs
unfolding count
map-entry_of w p args value [] out = refl
map-entry_of w p args value (i ∷ xs) out =
    let ne : p ≢ i = λ e. ground (arith, e) in
    ap (λ x. (x.number, x.exprs, x.num) ∷ map (entry_of (added w p args value)) xs)
      (added_other w p i args value ne)
    ∙ ap (λ l. entry_of w i ∷ l) (map-entry_of w p args value xs (ground arith))

module _ {S : Type 0} (expr : List ℕ → S → Outcome (ℕ × S)) where
  -- The two evaluations of the expression.
  pub record Evaluates (args : List ℕ) (s : S) : Type 0 where
    pub value1 : ℕ
    pub value2 : ℕ
    pub middle : S
    pub end : S
    pub first : expr args s ≡ ok (value1, middle)
    pub second : expr args middle ≡ ok (value2, end)

  add_wp_free :
      (w : WpPool) (p : ℕ) (args : List ℕ) (s : S) (e : Evaluates args s)
      → w.free ≡ some p
      → add_wp expr args w s ≡ ok (1, added w p args e.value2, e.end)
  unfolding add_wp new_wp take_free push_head
  add_wp_free w p args s e h = rw e.first (rw h (rw e.second))

  add_wp_full :
      (w : WpPool) (args : List ℕ) (s : S) (e : Evaluates args s)
      → w.free ≡ none
      → add_wp expr args w s ≡ ok (0, w, e.middle)
  unfolding add_wp new_wp take_free push_head
  add_wp_full w args s e h = rw e.first (rw h)

  -- What `add_wp` promises, by the list of the free elements.
  abbrev pub Adds : WpPool → List ℕ → List ℕ → (args : List ℕ) (s : S) → Evaluates args s → Type 0
  Adds w active [] args s e = add_wp expr args w s ≡ ok (0, w, e.middle)
  Adds w active (p ∷ free) args s e =
      (w' : WpPool) × (add_wp expr args w s ≡ ok (1, w', e.end))
      × Holds w' (p ∷ active) free
      × (display_wp w' ≡ ok ((p, args, e.value2) ∷ map (entry_of w) active))

  -- Where the expression can be evaluated, `add_wp` takes the first free element, puts it in front of
  -- the active ones with the text and its second value, and leaves the others as they are displayed;
  -- with no free element it answers 0 and changes nothing but what one evaluation changes.
  pub add_wp-Adds :
      (w : WpPool) (active free : List ℕ) (args : List ℕ) (s : S) (e : Evaluates args s)
      → Holds w active free
      → Adds w active free args s e
  unfolding count
  add_wp-Adds w active [] args s e v = add_wp_full w args s e v.free_chain
  add_wp-Adds w active (p ∷ free) args s e v =
      let lt = v.free_chain.1 in
      let small : p < nr_wp = rw (← v.size) lt in
      let held = added-Holds w p args e.value2 active free v in
      let self = added_self w p args e.value2 lt in
      (
        added w p args e.value2,
        add_wp_free w p args s e v.free_chain.0,
        held,
        display_wp-Holds (added w p args e.value2) (p ∷ active) free held
            ∙ ap
                (λ (x : Wp).
                  ok ((x.number, x.exprs, x.num) ∷ map (entry_of (added w p args e.value2)) active))
                self
            ∙ ap (λ n. ok ((n, args, e.value2) ∷ map (entry_of (added w p args e.value2)) active))
                (v.numbers p small)
            ∙ ap (λ l. ok ((p, args, e.value2) ∷ l))
                (map-entry_of w p args e.value2 active (ground (arith, v.once p small))),
      )
