-- ===== src/Sdb/Expr/Tree/Chain.antt =====
-- Two operators without parentheses: which one `eval` of nemu/src/monitor/sdb/expr.c applies first.
use soc_fpga_bjtu_hwct.Common.{
  ℕ, suc, ◌+◌, ◌-◌, ◌≤◌, ◌≡◌, ◌≢◌, ◌∙◌, refl, ap, arith, Bool, true, false, ◌∷◌, ◌++◌,
  if◌then◌else◌, inl, inr, Bool-cases, not, ◌&&◌, ◌||◌, ltb, ◌==◌,
}
use soc_fpga_bjtu_hwct.Common.Outcome.{Outcome}
use soc_fpga_bjtu_hwct.Isa.State.{Cpu}
use soc_fpga_bjtu_hwct.Sdb.Token.{
  Tokens, tk_add, tk_sub, tk_mul, tk_div, tk_lgand, tk_lgor, tk_lgxor,
}
use soc_fpga_bjtu_hwct.Sdb.Expr.{
  type_at, is_binocular_operator, is_zero, match_token, priority, takes_over, MainOp, visit,
  check_parentheses, find_main_operator, eval_operator, op_or_first, eval,
}
use soc_fpga_bjtu_hwct.Sdb.Expr.Types.{types, main_list, no_operator, find_main_operator-types}
use soc_fpga_bjtu_hwct.Sdb.Expr.Tree.{
  Tree, binary, width, IsTree, Stands, print, denote, width_pos, types-operation, types-print,
  search_at, pass, main_list-print,
}
use soc_fpga_bjtu_hwct.Sdb.Expr.Tree.Eval.{
  check_parentheses-print, visit_first, eval_step_open, eval_parts, eval_operation, eval-denote,
}

-- The operators stand between the three trees, from `p` on.
pub record Chain (ts : Tokens) (p t1 t2 : ℕ) (x y z : Tree) : Type 0 where
  pub first_op : is_binocular_operator t1 ≡ true
  pub second_op : is_binocular_operator t2 ≡ true
  pub first_tree : IsTree x
  pub second_tree : IsTree y
  pub third_tree : IsTree z
  pub first : Stands ts p x
  pub first_at : type_at ts (p + width x) ≡ t1
  pub second : Stands ts (p + width x + 1) y
  pub second_at : type_at ts (p + width x + 1 + width y) ≡ t2
  pub third : Stands ts (p + width x + 1 + width y + 1) z

visit_second :
    (t i j x : ℕ)
    → is_binocular_operator t ≡ true
    → visit t j (search_at i x 0)
      ≡ (if takes_over t x then search_at j (priority t) 0 else search_at i x 0)
unfolding visit match_token is_zero is_binocular_operator
visit_second t i j x h = ground arith

module _ (ts : Tokens) (p t1 t2 : ℕ) (x y z : Tree) (ch : Chain ts p t1 t2 x y z) where
  search-chain :
      (m : MainOp)
      → visit t2 (p + width x + 1 + width y) (search_at (p + width x) (priority t1) 0) ≡ m
      → main_list (print z) (p + width x + 1 + width y + 1) m ≡ m
      → find_main_operator ts p (p + (width x + suc (width y + width z))) ≡ m.main_op
  unfolding types main_list
  search-chain m e keeps =
      let count : suc (width x + suc (width y + width z))
          ≡ width x + suc (width y + suc (width z)) =
        omega arith in
      find_main_operator-types ts p (width x + suc (width y + width z))
      ∙ ap (λ m. m.main_op)
          (ap (λ n. main_list (types ts p n) p no_operator) count
            ∙ ap (λ l. main_list l p no_operator)
                (types-operation ts p x y t1 (t2 ∷ print z) (suc (width z)) ch.first_at
                  (types-print ts p x ch.first) (types-print ts (p + width x + 1) y ch.second)
                  (ap (λ t. t ∷ types ts (p + width x + 1 + width y + 1) (width z)) ch.second_at
                    ∙ ap (λ l. t2 ∷ l) (types-print ts (p + width x + 1 + width y + 1) z ch.third)))
            ∙ pass x (t1 ∷ (print y ++ (t2 ∷ print z))) p no_operator
                (main_list-print x p 0 0 0 ch.first_tree)
            ∙ ap (main_list (print y ++ (t2 ∷ print z)) (p + width x + 1))
                (visit_first t1 (p + width x) ch.first_op)
            ∙ pass y (t2 ∷ print z) (p + width x + 1) (search_at (p + width x) (priority t1) 0)
                (main_list-print y (p + width x + 1) (p + width x) (priority t1) 0 ch.second_tree)
            ∙ ap (main_list (print z) (p + width x + 1 + width y + 1)) e
            ∙ keeps)

  find_main_operator_chain :
      (takes : Bool)
      → takes_over t2 (priority t1) ≡ takes
      → find_main_operator ts p (p + (width x + suc (width y + width z)))
        ≡ (if takes then p + width x + 1 + width y else p + width x)
  find_main_operator_chain true e =
      search-chain (search_at (p + width x + 1 + width y) (priority t2) 0)
        (visit_second t2 (p + width x) _ (priority t1) ch.second_op ∙ rw e)
        (main_list-print z _ _ _ 0 ch.third_tree)
  find_main_operator_chain false e =
      search-chain (search_at (p + width x) (priority t1) 0)
        (visit_second t2 (p + width x) _ (priority t1) ch.second_op ∙ rw e)
        (main_list-print z _ _ _ 0 ch.third_tree)

-- The four kinds of operators: `+ -`, `* /`, `&& || ^`, and the comparisons.
pub data Kind : Type 0 where
  additive multiplicative logical comparison : Kind

abbrev pub kind_of : ℕ → Kind
kind_of t =
    if t == tk_add || t == tk_sub
    then Kind.additive
    else if t == tk_mul || t == tk_div
    then Kind.multiplicative
    else if t == tk_lgand || t == tk_lgor || t == tk_lgxor
    then Kind.logical
    else Kind.comparison

-- If `x first y second z` is `(x first y) second z`, by the kinds of the operators.
abbrev pub groups_left : Kind → Kind → Bool
groups_left _ Kind.additive = true
groups_left Kind.additive Kind.multiplicative = false
groups_left Kind.multiplicative Kind.multiplicative = false
groups_left Kind.logical Kind.multiplicative = true
groups_left Kind.comparison Kind.multiplicative = true
groups_left Kind.additive Kind.logical = false
groups_left Kind.multiplicative Kind.logical = false
groups_left Kind.logical Kind.logical = true
groups_left Kind.comparison Kind.logical = true
groups_left Kind.comparison Kind.comparison = true
groups_left _ Kind.comparison = false

-- The tree that stands for `x t1 y t2 z`.
abbrev pub grouped : ℕ → ℕ → Tree → Tree → Tree → Tree
grouped t1 t2 x y z =
    if groups_left (kind_of t1) (kind_of t2)
    then binary t2 (binary t1 x y) z
    else binary t1 x (binary t2 y z)

level : Kind → ℕ
level Kind.additive = 3
level Kind.multiplicative = 2
level Kind.logical = 1
level Kind.comparison = 0

is_multiplicative : Kind → Bool
is_multiplicative Kind.multiplicative = true
is_multiplicative _ = false

priority-level : (t : ℕ) → priority t ≡ level (kind_of t)
unfolding priority level
priority-level t = ground arith

multiplicative_kind :
    (t : ℕ) → (not (t == tk_mul) && not (t == tk_div)) ≡ not (is_multiplicative (kind_of t))
unfolding is_multiplicative
multiplicative_kind t = ground arith

groups_left-level :
    (k1 k2 : Kind)
    → (ltb (level k1) (level k2) || (level k2 == level k1 && not (is_multiplicative k2)))
      ≡ groups_left k1 k2
unfolding level is_multiplicative
groups_left-level Kind.additive Kind.additive = refl
groups_left-level Kind.additive Kind.multiplicative = refl
groups_left-level Kind.additive Kind.logical = refl
groups_left-level Kind.additive Kind.comparison = refl
groups_left-level Kind.multiplicative Kind.additive = refl
groups_left-level Kind.multiplicative Kind.multiplicative = refl
groups_left-level Kind.multiplicative Kind.logical = refl
groups_left-level Kind.multiplicative Kind.comparison = refl
groups_left-level Kind.logical Kind.additive = refl
groups_left-level Kind.logical Kind.multiplicative = refl
groups_left-level Kind.logical Kind.logical = refl
groups_left-level Kind.logical Kind.comparison = refl
groups_left-level Kind.comparison Kind.additive = refl
groups_left-level Kind.comparison Kind.multiplicative = refl
groups_left-level Kind.comparison Kind.logical = refl
groups_left-level Kind.comparison Kind.comparison = refl

and_assoc : (a b c : Bool) → (a && b && c) ≡ (a && (b && c))
and_assoc true b c = refl
and_assoc false b c = refl

takes_over-groups_left :
    (t1 t2 : ℕ) → takes_over t2 (priority t1) ≡ groups_left (kind_of t1) (kind_of t2)
unfolding takes_over
takes_over-groups_left t1 t2 =
    ap (λ b. ltb (priority t1) (priority t2) || b)
      (and_assoc (priority t2 == priority t1) (not (t2 == tk_mul)) (not (t2 == tk_div)))
    ∙ ap (λ b. ltb (priority t1) (priority t2) || (priority t2 == priority t1 && b))
        (multiplicative_kind t2)
    ∙ ap (λ n. ltb n (priority t2) || (priority t2 == n && not (is_multiplicative (kind_of t2))))
        (priority-level t1)
    ∙ ap
        (λ n.
          ltb (level (kind_of t1)) n
          || (n == level (kind_of t1) && not (is_multiplicative (kind_of t2))))
        (priority-level t2)
    ∙ groups_left-level (kind_of t1) (kind_of t2)

module _ {S : Type 0} (read : ℕ → S → Outcome (ℕ × S)) (c : Cpu) (ts : Tokens) (p t1 t2 : ℕ)
    (x y z : Tree) (ch : Chain ts p t1 t2 x y z) (fuel : ℕ)
    (enough : width x + width y + width z ≤ fuel) where
  -- The step at the operator that is found.
  eval_chain_at :
      (op : ℕ) (t : ℕ) (a b : Tree) (s : S)
      → (end : ℕ) → end ≡ p + width x + 1 + width y + 1 + width z
      → op ≢ 0
      → find_main_operator ts p (p + (width x + suc (width y + width z))) ≡ op
      → type_at ts op ≡ t
      → is_binocular_operator t ≡ true
      → ((s : S) → eval read c ts (suc fuel) p op s ≡ denote read c a s)
      → ((s : S) → eval read c ts (suc fuel) (op + 1) end s ≡ denote read c b s)
      → eval read c ts (suc (suc fuel)) p end s ≡ denote read c (binary t a b) s
  unfolding eval
  eval_chain_at op t a b s end e ne found h ht run_a run_b =
      let whole : end - 1 ≡ p + width x + suc (width y + width z) = omega arith in
      let last : end - 1 ≡ p + (width x + suc (width y + width z)) = omega arith in
      let later : op_or_first op p ≡ op = ground arith in
      eval_step_open read c ts (eval read c ts (suc fuel)) p end op s (omega (arith, width_pos x))
        (ap (check_parentheses ts p) whole
          ∙ check_parentheses-print ts p (suc (width y + width z)) x ch.first_tree ch.first)
        (ap (find_main_operator ts p) last ∙ found)
      ∙ ap (λ o. eval_operator read c ts (eval read c ts (suc fuel)) p o end s) later
      ∙ eval_parts read c ts (eval read c ts (suc fuel)) p op end t a b s h ht run_a run_b

  -- `x t1 y t2 z` without parentheses has the value of `(x t1 y) t2 z` if the second operator is
  -- additive, or not additive and the first is a comparison, or both are logical, or the first is
  -- logical and the second `*` or `/`; otherwise that of `x t1 (y t2 z)`, so that a / b / c is
  -- a / (b / c).
  pub eval-grouped :
      (s : S)
      → eval read c ts (suc (suc fuel)) p (p + width x + 1 + width y + 1 + width z) s
        ≡ denote read c (grouped t1 t2 x y z) s
  eval-grouped s = elim (Bool-cases (groups_left (kind_of t1) (kind_of t2))) [
    | inl takes ↦ rw takes (
        eval_chain_at (p + width x + 1 + width y) t2 (binary t1 x y) z s _ refl (omega arith)
          (find_main_operator_chain ts p t1 t2 x y z ch true (takes_over-groups_left t1 t2 ∙ takes))
          ch.second_at ch.second_op
          (λ s'.
            eval_operation read c ts fuel p t1 x y s' (ch.first_op, ch.first_tree, ch.second_tree)
              ch.first ch.first_at ch.second
              (λ u. eval-denote read c ts x fuel p u (omega arith) ch.first_tree ch.first)
              (λ u.
                eval-denote read c ts y fuel (p + width x + 1) u (omega arith) ch.second_tree
                  ch.second))
          (λ s'. eval-denote read c ts z (suc fuel) _ s' (omega arith) ch.third_tree ch.third))
    | inr stays ↦ rw stays (
        eval_chain_at (p + width x) t1 x (binary t2 y z) s _ refl (omega (arith, width_pos x))
          (find_main_operator_chain ts p t1 t2 x y z ch false
            (takes_over-groups_left t1 t2 ∙ stays))
          ch.first_at ch.first_op
          (λ s'. eval-denote read c ts x (suc fuel) p s' (omega arith) ch.first_tree ch.first)
          (λ s'.
            eval_operation read c ts fuel (p + width x + 1) t2 y z s'
              (ch.second_op, ch.second_tree, ch.third_tree) ch.second ch.second_at ch.third
              (λ u.
                eval-denote read c ts y fuel (p + width x + 1) u (omega arith) ch.second_tree
                  ch.second)
              (λ u. eval-denote read c ts z fuel _ u (omega arith) ch.third_tree ch.third)))
  ]
