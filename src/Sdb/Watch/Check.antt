-- ===== src/Sdb/Watch/Check.antt =====
-- The check of the watchpoints after an instruction: `check_watch_points` of
-- nemu/src/monitor/sdb/watchpoint.c.
use soc_fpga_bjtu_hwct.Common.{
  ℕ, suc, zero, ◌<◌, ◌≡◌, ◌≢◌, ◌∙◌, ap, arith, Option, none, some, List, [], ◌∷◌, length, ◌==◌,
  ==_iff, ne→==_false, true,
}
use soc_fpga_bjtu_hwct.Common.Outcome.{Outcome, ok, ◌>>=◌}
use soc_fpga_bjtu_hwct.Sdb.Watch.{
  WpPool, wp_at, set_wp, nr_wp, check_value, check_from, check_watch_points,
}
use soc_fpga_bjtu_hwct.Sdb.Watch.Pool.{Chain, Holds}

-- The answer of a check that found nothing, or the new value of a watchpoint.
abbrev pub report : {S : Type 0} → Option (ℕ × ℕ) → WpPool → S → ℕ × WpPool × S
report none w s = (1, w, s)
report (some (i, v)) w s = (0, set_wp i (record (wp_at w i) { num = v }) w, s)

module _ {S : Type 0} (expr : List ℕ → S → Outcome (ℕ × S)) (w : WpPool) where
  -- A round of evaluations: the texts of the watchpoints are evaluated in their order, each in the
  -- state that the one before has left, up to the first whose value is not the stored one.
  pub data Round : List ℕ → S → Option (ℕ × ℕ) → S → Type 0 where
    over : {s : S} → Round [] s none s
    unchanged :
        {i v : ℕ} {xs : List ℕ} {s s1 s2 : S} {found : Option (ℕ × ℕ)}
        → expr (wp_at w i).exprs s ≡ ok (v, s1)
        → (wp_at w i).num ≡ v
        → Round xs s1 found s2
        → Round (i ∷ xs) s found s2
    changed :
        {i v : ℕ} {xs : List ℕ} {s s1 : S}
        → expr (wp_at w i).exprs s ≡ ok (v, s1)
        → (wp_at w i).num ≢ v
        → Round (i ∷ xs) s (some (i, v)) s1

  check_from-report :
      (fuel : ℕ) (start : Option ℕ) {xs : List ℕ} {s s' : S} {found : Option (ℕ × ℕ)}
      → length xs < fuel
      → Chain w.pool start xs
      → Round xs s found s'
      → check_from expr fuel start w s ≡ ok (report found w s')
  unfolding check_from check_value
  check_from-report zero start lt h r = absurd (omega arith)
  check_from-report (suc fuel) start lt h over = rw h
  check_from-report (suc fuel) start lt h (unchanged {i = i} {v = v} {s = s} value same rest) =
      let met : ((wp_at w i).num == v) ≡ true = (==_iff _ _).1 same in
      ap (λ p. check_from expr (suc fuel) p w s) h.0
      ∙ ap (λ m. m >>= (λ r. check_value expr (check_from expr fuel) i w r.0 r.1)) value
      ∙ rw met (check_from-report fuel (wp_at w i).next (omega arith) h.2 rest)
  check_from-report (suc fuel) start lt h (changed {i = i} {v = v} {s = s} value differs) =
      ap (λ p. check_from expr (suc fuel) p w s) h.0
      ∙ ap (λ m. m >>= (λ r. check_value expr (check_from expr fuel) i w r.0 r.1)) value
      ∙ rw (ne→==_false _ _ differs)

  -- A round of evaluations of the active watchpoints decides what `check_watch_points` does: it
  -- answers 1 and changes nothing in the pool if every watchpoint has its stored value; otherwise it
  -- answers 0 and stores the new value of the first that changed, and of no other.
  pub check_watch_points-report :
      (active free : List ℕ) (s s' : S) (found : Option (ℕ × ℕ))
      → Holds w active free
      → Round active s found s'
      → check_watch_points expr w s ≡ ok (report found w s')
  unfolding check_watch_points
  check_watch_points-report active free s s' found v r =
      check_from-report (suc nr_wp) w.head (omega (arith, v.lengths)) v.active_chain r
