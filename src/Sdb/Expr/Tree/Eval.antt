-- ===== src/Sdb/Expr/Tree/Eval.antt =====
-- `eval` of nemu/src/monitor/sdb/expr.c computes the meaning of an expression with parentheses.
use soc_fpga_bjtu_hwct.Common.{
  ℕ, zero, suc, ◌+◌, ◌-◌, ◌≤◌, ◌<◌, ◌≡◌, ◌∙◌, refl, ap, sym, arith, true, false, [], ◌∷◌, ◌++◌,
  ◌==◌, inl, inr, Bool-cases,
}
use mathlib.Core.Path.{fun_ext}
use soc_fpga_bjtu_hwct.Common.Outcome.{Outcome, ok, ◌>>=◌}
use soc_fpga_bjtu_hwct.Common.Int.{ℤ, pos}
use soc_fpga_bjtu_hwct.Isa.State.{Cpu}
use soc_fpga_bjtu_hwct.Sdb.Token.{Tokens, token_at, tk_rparen}
use soc_fpga_bjtu_hwct.Sdb.Expr.{
  type_at, is_binocular_operator, is_zero, is_negative, decr, match_token, priority, takes_over,
  visit, is_unary, single_token, apply_unary, apply_binary, check_parentheses, find_main_operator,
  eval_operator, op_or_first, eval_step, eval,
}
use soc_fpga_bjtu_hwct.Sdb.Expr.Types.{
  types, check_list, check_parentheses_first, check_parentheses_last, check_parentheses-types,
  main_list, no_operator, find_main_operator-types,
}
use soc_fpga_bjtu_hwct.Sdb.Expr.Parens.{check_list_negative}
use soc_fpga_bjtu_hwct.Sdb.Expr.Tree.{
  Tree, leaf, unary, binary, width, IsTree, Stands, print, denote, width_pos, leaf_type,
  types-operation, types-print, search_at, pass, main_list-print, check_list-print, unary_facts,
  binary_facts, match_other,
}

-- The parentheses that close the tree come before the last token.
check_parentheses-print_binary :
    (ts : Tokens) (p k : ℕ) (a b : Tree) (t : ℕ)
    → IsTree (binary t a b)
    → Stands ts p (binary t a b)
    → type_at ts (p + width (binary t a b) + k) ≡ tk_rparen
    → check_parentheses ts p (p + width (binary t a b) + k) ≡ false
unfolding width types check_list match_token is_negative decr
check_parentheses-print_binary ts p k a b t v h shuts =
    let facts = binary_facts t v.0 in
    let count : p + suc (width a + suc (width b + 1)) + k - (p + 1)
        ≡ width a + suc (width b + suc k) =
      omega arith in
    let later = types ts (p + 1 + width a + 1 + width b + 1) k in
    check_parentheses-types ts p _ h.0 shuts (omega arith)
    ∙ ap (λ n. check_list (types ts (p + 1) n) (pos 0)) count
    ∙ ap (λ l. check_list l (pos 0))
        (types-operation ts (p + 1) a b t (tk_rparen ∷ later) (suc k) h.2
          (types-print ts (p + 1) a h.1) (types-print ts (p + 1 + width a + 1) b h.3)
          (ap (λ x. x ∷ later) h.4))
    ∙ check_list-print a (t ∷ (print b ++ (tk_rparen ∷ later))) 0 v.1
    ∙ ap (check_list (print b ++ (tk_rparen ∷ later))) (match_other t (pos 0) facts.1 facts.2)
    ∙ check_list-print b (tk_rparen ∷ later) 0 v.2
    ∙ check_list_negative later 0

-- What starts with a tree and goes on behind it is not in parentheses as a whole.
pub check_parentheses-print :
    (ts : Tokens) (p k : ℕ) (a : Tree)
    → IsTree a
    → Stands ts p a
    → check_parentheses ts p (p + width a + k) ≡ false
unfolding width
check_parentheses-print ts p k (leaf x) v h =
    check_parentheses_first ts p _ (omega arith) (λ e. ground (arith, leaf_type ts p x h))
check_parentheses-print ts p k (unary t a) v h =
    check_parentheses_first ts p _ (omega arith) (λ e. (unary_facts t v.0).1 (sym h.0 ∙ e))
check_parentheses-print ts p k (binary t a b) v h =
    elim (Bool-cases (type_at ts (p + width (binary t a b) + k) == tk_rparen)) [
      | inr other ↦ check_parentheses_last ts p _ (omega arith) (λ e. ground (arith, e))
      | inl shuts ↦ check_parentheses-print_binary ts p k a b t v h (ground arith)
    ]

module _ {S : Type 0} (read : ℕ → S → Outcome (ℕ × S)) (c : Cpu) (ts : Tokens)
    (rec : ℕ → ℕ → S → Outcome (ℤ × S)) where
  eval_step_single :
      (p : ℕ) (s : S)
      → eval_step read c ts rec p (p + 1) s ≡ (single_token (token_at ts p) c >>= (λ v. ok (v, s)))
  unfolding eval_step
  eval_step_single p s = ground arith

  eval_step_enclosed :
      (p end : ℕ) (s : S)
      → p + 1 < end
      → check_parentheses ts p (end - 1) ≡ true
      → eval_step read c ts rec p end s ≡ rec (p + 1) (end - 1) s
  unfolding eval_step
  eval_step_enclosed p end s lt h = ground arith

  pub eval_step_open :
      (p end op : ℕ) (s : S)
      → p + 1 < end
      → check_parentheses ts p (end - 1) ≡ false
      → find_main_operator ts p (end - 1) ≡ op
      → eval_step read c ts rec p end s ≡ eval_operator read c ts rec p (op_or_first op p) end s
  unfolding eval_step
  eval_step_open p end op s lt h e = ground arith

-- The first operator of a part takes over, whatever its priority.
pub visit_first :
    (t i : ℕ) → is_binocular_operator t ≡ true → visit t i no_operator ≡ search_at i (priority t) 0
unfolding visit takes_over priority match_token is_binocular_operator is_zero
visit_first t i h = ground arith

pub find_main_operator_binary :
    (ts : Tokens) (p t : ℕ) (a b : Tree)
    → is_binocular_operator t ≡ true
    → IsTree a
    → IsTree b
    → Stands ts p a
    → type_at ts (p + width a) ≡ t
    → Stands ts (p + width a + 1) b
    → find_main_operator ts p (p + (width a + width b)) ≡ p + width a
unfolding types main_list
find_main_operator_binary ts p t a b ht va vb ha h hb =
    let count : suc (width a + width b) ≡ width a + suc (width b + 0) = omega arith in
    let found = search_at (p + width a) (priority t) 0 in
    find_main_operator-types ts p (width a + width b)
    ∙ ap (λ m. m.main_op)
        (ap (λ n. main_list (types ts p n) p no_operator) count
          ∙ ap (λ l. main_list l p no_operator)
              (types-operation ts p a b t [] 0 h (types-print ts p a ha)
                (types-print ts (p + width a + 1) b hb) refl)
          ∙ pass a (t ∷ (print b ++ [])) p no_operator (main_list-print a p 0 0 0 va)
          ∙ ap (main_list (print b ++ []) (p + width a + 1)) (visit_first t (p + width a) ht)
          ∙ pass b [] (p + width a + 1) found
              (main_list-print b (p + width a + 1) (p + width a) (priority t) 0 vb))

find_main_operator_none :
    (ts : Tokens) (p n : ℕ) (a : Tree)
    → IsTree a
    → Stands ts p a
    → suc n ≡ width a
    → find_main_operator ts p (p + n) ≡ 0
find_main_operator_none ts p n a v h e =
    find_main_operator-types ts p n
    ∙ ap (λ m. m.main_op)
        (ap (λ k. main_list (types ts p k) p no_operator) e
          ∙ ap (λ l. main_list l p no_operator) (types-print ts p a h)
          ∙ main_list-print a p 0 0 0 v)

-- An operation in parentheses is recognised.
check_parentheses_binary :
    (ts : Tokens) (p : ℕ) (a b : Tree) (t : ℕ)
    → IsTree (binary t a b)
    → Stands ts p (binary t a b)
    → check_parentheses ts p (p + 1 + width a + 1 + width b) ≡ true
unfolding types check_list match_token is_negative is_zero
check_parentheses_binary ts p a b t v h =
    let facts = binary_facts t v.0 in
    let count : p + 1 + width a + 1 + width b - (p + 1) ≡ width a + suc (width b + 0) =
      omega arith in
    check_parentheses-types ts p _ h.0 h.4 (omega arith)
    ∙ ap (λ n. check_list (types ts (p + 1) n) (pos 0)) count
    ∙ ap (λ l. check_list l (pos 0))
        (types-operation ts (p + 1) a b t [] 0 h.2 (types-print ts (p + 1) a h.1)
          (types-print ts (p + 1 + width a + 1) b h.3) refl)
    ∙ check_list-print a (t ∷ (print b ++ [])) 0 v.1
    ∙ ap (check_list (print b ++ [])) (match_other t (pos 0) facts.1 facts.2)
    ∙ check_list-print b [] 0 v.2

module _ {S : Type 0} (read : ℕ → S → Outcome (ℕ × S)) (c : Cpu) (ts : Tokens) where
  pub eval_operator_binary :
      (rec : ℕ → ℕ → S → Outcome (ℤ × S)) (p op end t : ℕ) (s : S)
      → type_at ts op ≡ t
      → is_unary t ≡ false
      → eval_operator read c ts rec p op end s ≡ (
          rec p op s >>= (λ r1.
            rec (op + 1) end r1.1 >>= (λ r2. apply_binary t r1.0 r2.0 >>= (λ v. ok (v, r2.1)))))
  unfolding eval_operator
  eval_operator_binary rec p op end t s e h = rw e (rw h)

  eval_operator_unary :
      (rec : ℕ → ℕ → S → Outcome (ℤ × S)) (p op end t : ℕ) (s : S)
      → type_at ts op ≡ t
      → is_unary t ≡ true
      → eval_operator read c ts rec p op end s
        ≡ (rec (op + 1) end s >>= (λ r. apply_unary read c t r.0 r.1))
  unfolding eval_operator
  eval_operator_unary rec p op end t s e h = rw e (rw h)

  -- The two parts of an operator have the meanings of their trees, so the whole has.
  pub eval_parts :
      (rec : ℕ → ℕ → S → Outcome (ℤ × S)) (p op end t : ℕ) (a b : Tree) (s : S)
      → type_at ts op ≡ t
      → is_binocular_operator t ≡ true
      → ((s : S) → rec p op s ≡ denote read c a s)
      → ((s : S) → rec (op + 1) end s ≡ denote read c b s)
      → eval_operator read c ts rec p op end s ≡ denote read c (binary t a b) s
  unfolding denote
  eval_parts rec p op end t a b s e ht ha hb =
      eval_operator_binary rec p op end t s e (binary_facts t ht).0 ∙ rw (fun_ext hb) (rw (ha s))

  pub eval_operation :
      (fuel p t : ℕ) (a b : Tree) (s : S)
      → IsTree (binary t a b)
      → Stands ts p a
      → type_at ts (p + width a) ≡ t
      → Stands ts (p + width a + 1) b
      → ((s : S) → eval read c ts fuel p (p + width a) s ≡ denote read c a s)
      → ((s : S)
          → eval read c ts fuel (p + width a + 1) (p + width a + 1 + width b) s ≡ denote read c b s)
      → eval read c ts (suc fuel) p (p + width a + 1 + width b) s ≡ denote read c (binary t a b) s
  unfolding eval
  eval_operation fuel p t a b s v ha h hb run_a run_b =
      let end = p + width a + 1 + width b in
      let last : end - 1 ≡ p + (width a + width b) = omega arith in
      let whole : end - 1 ≡ p + width a + width b = omega arith in
      let found = p + width a in
      let later : op_or_first found p ≡ found = ground (arith, width_pos a) in
      eval_step_open read c ts (eval read c ts fuel) p end found s
        (omega (arith, width_pos a, width_pos b))
        (ap (check_parentheses ts p) whole ∙ check_parentheses-print ts p (width b) a v.1 ha)
        (ap (find_main_operator ts p) last
          ∙ find_main_operator_binary ts p t a b v.0 v.1 v.2 ha h hb)
      ∙ ap (λ op. eval_operator read c ts (eval read c ts fuel) p op end s) later
      ∙ eval_parts (eval read c ts fuel) p found end t a b s h v.0 run_a run_b

  eval_prefix :
      (fuel p t : ℕ) (a : Tree) (s : S)
      → IsTree (unary t a)
      → Stands ts p (unary t a)
      → ((s : S) → eval read c ts fuel (p + 1) (p + 1 + width a) s ≡ denote read c a s)
      → eval read c ts (suc fuel) p (p + suc (width a)) s ≡ denote read c (unary t a) s
  unfolding eval denote width
  eval_prefix fuel p t a s v h run_a =
      let last : p + suc (width a) - 1 ≡ p + width a = omega arith in
      let end : p + suc (width a) ≡ p + 1 + width a = omega arith in
      eval_step_open read c ts (eval read c ts fuel) p _ 0 s (omega (arith, width_pos a))
        (check_parentheses_first ts p _ (omega (arith, width_pos a))
          (λ e. (unary_facts t v.0).1 (sym h.0 ∙ e)))
        (ap (find_main_operator ts p) last
          ∙ find_main_operator_none ts p (width a) (unary t a) v h refl)
      ∙ eval_operator_unary (eval read c ts fuel) p p (p + suc (width a)) t s h.0 v.0
      ∙ ap (λ m. m >>= (λ r. apply_unary read c t r.0 r.1))
          (ap (λ e. eval read c ts fuel (p + 1) e s) end ∙ run_a s)

  -- On the tokens of an expression with parentheses, `eval` has the outcome that its meaning gives,
  -- errors included, as soon as the fuel is the number of its tokens.
  pub eval-denote :
      (a : Tree) (fuel p : ℕ) (s : S)
      → width a ≤ fuel
      → IsTree a
      → Stands ts p a
      → eval read c ts fuel p (p + width a) s ≡ denote read c a s
  unfolding eval denote width
  eval-denote a zero p s le v h = absurd (omega (arith, width_pos a))
  eval-denote (leaf k) (suc fuel) p s le v h =
      eval_step_single read c ts (eval read c ts fuel) p s ∙ rw h
  eval-denote (unary t a) (suc fuel) p s le v h =
      eval_prefix fuel p t a s v h (λ s'. eval-denote a fuel (p + 1) s' (omega arith) v.1 h.1)
  eval-denote (binary t a b) (suc zero) p s le v h = absurd (omega (arith, width_pos a))
  eval-denote (binary t a b) (suc (suc fuel)) p s le v h =
      let last : p + suc (width a + suc (width b + 1)) - 1 ≡ p + 1 + width a + 1 + width b =
        omega arith in
      eval_step_enclosed read c ts (eval read c ts (suc fuel)) p _ s (omega arith)
        (ap (check_parentheses ts p) last ∙ check_parentheses_binary ts p a b t v h)
      ∙ ap (λ end. eval read c ts (suc fuel) (p + 1) end s) last
      ∙ eval_operation fuel (p + 1) t a b s v h.1 h.2 h.3
          (λ s'. eval-denote a fuel (p + 1) s' (omega (arith, width_pos b)) v.1 h.1)
          (λ s'. eval-denote b fuel (p + 1 + width a + 1) s' (omega (arith, width_pos a)) v.2 h.3)
