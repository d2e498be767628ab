-- ===== src/Sdb/Expr/Fuel.antt =====
-- The recursion of `eval` of nemu/src/monitor/sdb/expr.c ends: the fuel that `expr` gives is enough.
use soc_fpga_bjtu_hwct.Common.{
  ℕ, zero, suc, ◌+◌, ◌-◌, ◌≤◌, ◌<◌, ◌≡◌, ◌⊎◌, ◌∙◌, refl, sym, ap, arith, ◌&&◌, leb, ◌==◌, inl, inr,
  if_cases, if_same,
}
use mathlib.Core.Path.{fun_ext}
use soc_fpga_bjtu_hwct.Common.Outcome.{Outcome, fault}
use soc_fpga_bjtu_hwct.Common.Int.{ℤ, pos}
use soc_fpga_bjtu_hwct.Isa.State.{Cpu}
use soc_fpga_bjtu_hwct.Sdb.Token.{Tokens}
use soc_fpga_bjtu_hwct.Sdb.Expr.{
  type_at, is_zero, is_binocular_operator, takes_over, MainOp, visit, main_loop, find_main_operator,
  is_unary, check_parentheses, eval_operator, op_or_first, eval_step, eval,
}

visit_main_op :
    (t i : ℕ) (m : MainOp) → ((visit t i m).main_op ≡ m.main_op) ⊎ ((visit t i m).main_op ≡ i)
unfolding visit
visit_main_op t i m =
    if_cases (λ (m' : MainOp). (m'.main_op ≡ m.main_op) ⊎ (m'.main_op ≡ i))
      (is_zero m.paren_match && is_binocular_operator t && takes_over t m.max_priority)
      (λ _. inr refl) (λ _. inl refl)

main_loop_bounds :
    (ts : Tokens) (n i : ℕ) (m : MainOp)
    → ((main_loop ts n i m).main_op ≡ m.main_op)
      ⊎ ((i ≤ (main_loop ts n i m).main_op) × ((main_loop ts n i m).main_op < i + n))
unfolding main_loop
main_loop_bounds ts zero i m = inl refl
main_loop_bounds ts (suc n) i m = ground (
  arith,
  visit_main_op (type_at ts i) i m,
  main_loop_bounds ts n (i + 1) (visit (type_at ts i) i m),
)

-- The operator that is found, or the first token, lies in the part.
pub find_main_operator_bounds :
    (ts : Tokens) (p q : ℕ)
    → p ≤ q
    → (p ≤ op_or_first (find_main_operator ts p q) p)
      × (op_or_first (find_main_operator ts p q) p ≤ q)
unfolding find_main_operator
find_main_operator_bounds ts p q le = ground (
  arith,
  main_loop_bounds ts (q + 1 - p) p (record { main_op = 0; max_priority = 0; paren_match = pos 0 }),
)

module _ {S : Type 0} (read : ℕ → S → Outcome (ℕ × S)) (c : Cpu) (ts : Tokens) where
  eval_operator_same :
      (rec1 rec2 : ℕ → ℕ → S → Outcome (ℤ × S)) (p op end : ℕ) (s : S)
      → rec1 (op + 1) end s ≡ rec2 (op + 1) end s
      → rec1 p op s ≡ rec2 p op s
      → ((s' : S) → rec1 (op + 1) end s' ≡ rec2 (op + 1) end s')
      → eval_operator read c ts rec1 p op end s ≡ eval_operator read c ts rec2 p op end s
  unfolding eval_operator
  eval_operator_same rec1 rec2 p op end s only left right =
      if_same (is_unary (type_at ts op)) (λ _. rw only) (λ _. rw left (rw (fun_ext right)))

  -- A step calls the recursion on smaller parts only.
  eval_step_same :
      (rec1 rec2 : ℕ → ℕ → S → Outcome (ℤ × S)) (p end : ℕ)
      → ((i j : ℕ) (s : S)
          → p ≤ i
          → j ≤ end
          → j + p < end + i
          → p + 2 ≤ end
          → rec1 i j s ≡ rec2 i j s)
      → (s : S) → eval_step read c ts rec1 p end s ≡ eval_step read c ts rec2 p end s
  unfolding eval_step
  eval_step_same rec1 rec2 p end same s =
      if_same (leb end p) (λ _. refl)
        (λ wide.
          if_same (end == p + 1) (λ _. refl)
            (λ more.
              let two : p + 2 ≤ end = ground arith in
              let bounds = find_main_operator_bounds ts p (end - 1) (ground arith) in
              if_same (check_parentheses ts p (end - 1))
                (λ _. same (p + 1) (end - 1) s (omega arith) (omega arith) (ground arith) two)
                (λ _.
                  eval_operator_same rec1 rec2 p _ end s
                    (same _ end s (omega (arith, bounds)) (omega arith) (omega (arith, bounds)) two)
                    (same p _ s (omega arith) (ground (arith, bounds)) (ground (arith, bounds)) two)
                    (λ s'.
                      same _ end s' (omega (arith, bounds)) (omega arith) (omega (arith, bounds))
                        two))))

  -- The recursion of `eval`, with `out` for the outcome of a call that has no fuel left.
  unfoldable pub eval_or : (ℕ → ℕ → S → Outcome (ℤ × S)) → ℕ → ℕ → ℕ → S → Outcome (ℤ × S)
  eval_or out zero p end s = out p end s
  eval_or out (suc fuel) p end s = eval_step read c ts (eval_or out fuel) p end s

  eval_or_same :
      (out1 out2 : ℕ → ℕ → S → Outcome (ℤ × S)) (fuel more p end : ℕ) (s : S)
      → end < p + fuel
      → 0 < fuel
      → eval_or out1 (fuel + more) p end s ≡ eval_or out2 fuel p end s
  unfolding eval_or
  eval_or_same out1 out2 zero more p end s h some_fuel = absurd (omega arith)
  eval_or_same out1 out2 (suc fuel) more p end s h some_fuel =
      let e : suc fuel + more ≡ suc (fuel + more) = omega arith in
      ap (λ n. eval_or out1 n p end s) e
      ∙ eval_step_same (eval_or out1 (fuel + more)) (eval_or out2 fuel) p end
          (λ i j s' lo hi less two.
            eval_or_same out1 out2 fuel more i j s' (omega arith) (omega arith))
          s

  eval-eval_or :
      (fuel p end : ℕ) (s : S) → eval read c ts fuel p end s ≡ eval_or (λ _ _ _. fault) fuel p end s
  unfolding eval eval_or
  eval-eval_or zero p end s = refl
  eval-eval_or (suc fuel) p end s =
      ap (λ rec. eval_step read c ts rec p end s)
        (fun_ext (λ i. fun_ext (λ j. fun_ext (λ s'. eval-eval_or fuel i j s'))))

  -- With more fuel than the part has tokens, `eval` has the outcome of the recursion that has more
  -- fuel still, and whatever is put in the place of a call without fuel: no such call is made, so
  -- the recursion of `eval` ends.
  pub eval_fuel :
      (out : ℕ → ℕ → S → Outcome (ℤ × S)) (fuel more p end : ℕ) (s : S)
      → end < p + fuel
      → 0 < fuel
      → eval read c ts fuel p end s ≡ eval_or out (fuel + more) p end s
  eval_fuel out fuel more p end s h some_fuel =
      eval-eval_or fuel p end s
      ∙ sym (eval_or_same out (λ _ _ _. fault) fuel more p end s h some_fuel)
