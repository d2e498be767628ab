-- ===== src/Sdb/Expr/Types.antt =====
-- The loops of `check_parentheses` and `find_main_operator` of nemu/src/monitor/sdb/expr.c, read over
-- the list of the types of the tokens that they pass.
use soc_fpga_bjtu_hwct.Common.{
  ℕ, zero, suc, ◌+◌, ◌-◌, ◌<◌, ◌≡◌, ◌≢◌, ◌∙◌, refl, ap, arith, Bool, true, false, not, ◌||◌, List,
  [], ◌∷◌, ◌++◌, length, ◌==◌, if◌then◌else◌, if_cases, Bool-cases, inl, inr,
}
use soc_fpga_bjtu_hwct.Common.Int.{ℤ, pos}
use soc_fpga_bjtu_hwct.Sdb.Token.{Tokens, tk_lparen, tk_rparen}
use soc_fpga_bjtu_hwct.Sdb.Expr.{
  is_zero, is_negative, match_token, type_at, check_loop, check_parentheses, MainOp, visit,
  main_loop, find_main_operator,
}

-- The types of the `n` tokens from `i` on.
unfoldable pub types : Tokens → ℕ → ℕ → List ℕ
unfolding type_at
types ts i zero = []
types ts i (suc n) = type_at ts i ∷ types ts (i + 1) n

pub types-add : (ts : Tokens) (i m n : ℕ) → types ts i (m + n) ≡ types ts i m ++ types ts (i + m) n
unfolding types
types-add ts i zero n = ground arith
types-add ts i (suc m) n =
    let e : i + 1 + m ≡ i + suc m = omega arith in
    let shift : suc m + n ≡ suc (m + n) = omega arith in
    ap (types ts i) shift
    ∙ ap (λ l. type_at ts i ∷ l)
        (types-add ts (i + 1) m n ∙ ap (λ j. types ts (i + 1) m ++ types ts j n) e)

unfoldable pub check_list : List ℕ → ℤ → Bool
check_list [] depth = is_zero depth
check_list (t ∷ rest) depth =
    if is_negative depth then false else check_list rest (match_token t depth)

pub check_loop-types :
    (ts : Tokens) (p q n i : ℕ) (depth : ℤ)
    → type_at ts p ≡ tk_lparen
    → type_at ts q ≡ tk_rparen
    → check_loop ts p q n i depth ≡ check_list (types ts i n) depth
unfolding check_loop check_list types
check_loop-types ts p q zero i depth hp hq = refl
check_loop-types ts p q (suc n) i depth hp hq =
    ground (arith, check_loop-types ts p q n (i + 1) (match_token (type_at ts i) depth) hp hq)

-- Without a parenthesis at both ends the loop gives up at once.
check_loop_ends :
    (ts : Tokens) (p q n i : ℕ) (depth : ℤ)
    → (type_at ts p ≡ tk_lparen → type_at ts q ≡ tk_rparen → ⊥)
    → 0 < n
    → check_loop ts p q n i depth ≡ false
unfolding check_loop
check_loop_ends ts p q zero i depth ne lt = absurd (omega arith)
check_loop_ends ts p q (suc n) i depth ne lt =
    if_cases (λ b. b ≡ false) (not (type_at ts p == tk_lparen) || not (type_at ts q == tk_rparen))
      (λ _. refl) (λ both. absurd (ne (ground arith) (ground arith)))

-- A part whose first token is no parenthesis is not taken apart.
pub check_parentheses_first :
    (ts : Tokens) (p q : ℕ) → p < q → type_at ts p ≢ tk_lparen → check_parentheses ts p q ≡ false
unfolding check_parentheses
check_parentheses_first ts p q lt ne =
    ground (arith, check_loop_ends ts p q (q - (p + 1)) (p + 1) (pos 0) (λ a b. ne a))

pub check_parentheses_last :
    (ts : Tokens) (p q : ℕ) → p < q → type_at ts q ≢ tk_rparen → check_parentheses ts p q ≡ false
unfolding check_parentheses
check_parentheses_last ts p q lt ne =
    ground (arith, check_loop_ends ts p q (q - (p + 1)) (p + 1) (pos 0) (λ a b. ne b))

check_parentheses_wide :
    (ts : Tokens) (p q : ℕ) → p < q → check_parentheses ts p q ≡ true → p + 1 < q
unfolding check_parentheses
check_parentheses_wide ts p q lt h = ground arith

-- A part that is accepted has its two parentheses, and something between them.
pub check_parentheses_ends :
    (ts : Tokens) (p q : ℕ)
    → p < q
    → check_parentheses ts p q ≡ true
    → (type_at ts p ≡ tk_lparen) × (type_at ts q ≡ tk_rparen) × (p + 1 < q)
check_parentheses_ends ts p q lt h = elim (Bool-cases (type_at ts p == tk_lparen)) [
  | inr no_open ↦ absurd (cc (h, check_parentheses_first ts p q lt (λ e. ground (arith, e))))
  | inl opens ↦ elim (Bool-cases (type_at ts q == tk_rparen)) [
    | inr no_shut ↦ absurd (cc (h, check_parentheses_last ts p q lt (λ e. ground (arith, e))))
    | inl shuts ↦ (ground arith, ground arith, check_parentheses_wide ts p q lt h)
  ]
]

-- Between its two parentheses a part is read as a list.
pub check_parentheses-types :
    (ts : Tokens) (p q : ℕ)
    → type_at ts p ≡ tk_lparen
    → type_at ts q ≡ tk_rparen
    → p + 1 < q
    → check_parentheses ts p q ≡ check_list (types ts (p + 1) (q - (p + 1))) (pos 0)
unfolding check_parentheses
check_parentheses-types ts p q hp hq wide =
    let differ : (p + 1 == q) ≡ false = ground arith in
    rw differ (check_loop-types ts p q (q - (p + 1)) (p + 1) (pos 0) hp hq)

unfoldable pub main_list : List ℕ → ℕ → MainOp → MainOp
main_list [] i m = m
main_list (t ∷ rest) i m = main_list rest (i + 1) (visit t i m)

pub main_loop-types :
    (ts : Tokens) (n i : ℕ) (m : MainOp) → main_loop ts n i m ≡ main_list (types ts i n) i m
unfolding main_loop main_list types
main_loop-types ts zero i m = refl
main_loop-types ts (suc n) i m = main_loop-types ts n (i + 1) _

pub main_list-append :
    (xs ys : List ℕ) (i : ℕ) (m : MainOp)
    → main_list (xs ++ ys) i m ≡ main_list ys (i + length xs) (main_list xs i m)
unfolding main_list
main_list-append [] ys i m = ground arith
main_list-append (t ∷ xs) ys i m =
    let e : i + 1 + length xs ≡ i + suc (length xs) = omega arith in
    main_list-append xs ys (i + 1) (visit t i m)
    ∙ ap (λ j. main_list ys j (main_list xs (i + 1) (visit t i m))) e

-- `find_main_operator` starts with no operator found.
abbrev pub no_operator : MainOp
no_operator = record { main_op = 0; max_priority = 0; paren_match = pos 0 }

pub find_main_operator-types :
    (ts : Tokens) (p n : ℕ)
    → find_main_operator ts p (p + n) ≡ (main_list (types ts p (suc n)) p no_operator).main_op
unfolding find_main_operator
find_main_operator-types ts p n =
    let count : p + n + 1 - p ≡ suc n = omega arith in
    ap (λ k. (main_loop ts k p no_operator).main_op) count
    ∙ ap (λ m. m.main_op) (main_loop-types ts (suc n) p no_operator)
