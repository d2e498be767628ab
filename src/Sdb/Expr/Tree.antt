-- ===== src/Sdb/Expr/Tree.antt =====
-- The meaning of expressions with parentheses, and `eval` of nemu/src/monitor/sdb/expr.c on them.
pub mod Eval
pub mod Chain
use soc_fpga_bjtu_hwct.Common.{
  ℕ, zero, suc, ◌+◌, ◌-◌, ◌≤◌, ◌<◌, ◌≡◌, ◌≢◌, ◌∙◌, refl, ap, sym, arith, Bool, true, false, not,
  ◌&&◌, ◌||◌, List, [], ◌∷◌, ◌++◌, length, length-append, ltb, leb, ◌==◌, if◌then◌else◌, inl, inr,
  Bool-cases,
}
use mathlib.Core.Path.{subst}
use mathlib.Core.List.{append_assoc}
use soc_fpga_bjtu_hwct.Common.Outcome.{Outcome, ok, failed, fault, ◌>>=◌}
use soc_fpga_bjtu_hwct.Common.Int.{ℤ, pos, negsuc}
use soc_fpga_bjtu_hwct.Isa.State.{Cpu}
use soc_fpga_bjtu_hwct.Sdb.Token.{Token, Tokens, token_at, tk_lparen, tk_rparen, tk_mul, tk_div}
use soc_fpga_bjtu_hwct.Sdb.Expr.{
  incr, decr, is_zero, is_negative, match_token, type_at, is_binocular_operator, priority,
  takes_over, MainOp, visit, is_unary, single_token, apply_unary, apply_binary, check_parentheses,
  find_main_operator, eval_operator, op_or_first, eval_step, eval,
}
use soc_fpga_bjtu_hwct.Sdb.Expr.Types.{
  types, types-add, check_list, check_parentheses_first, check_parentheses_last,
  check_parentheses-types, main_list, main_list-append, no_operator, find_main_operator-types,
}

-- A leaf is a token that stands for a value; an operator is given by its type. A binary operator
-- stands in parentheses with its two operands.
pub data Tree : Type 0 where
  leaf : Token → Tree
  unary : ℕ → Tree → Tree
  binary : ℕ → Tree → Tree → Tree

-- The number of tokens.
unfoldable pub width : Tree → ℕ
width (leaf k) = 1
width (unary t a) = suc (width a)
width (binary t a b) = suc (width a + suc (width b + 1))

abbrev pub is_operand : ℕ → Bool
is_operand t =
    not (t == tk_lparen)
    && not (t == tk_rparen)
    && not (is_unary t)
    && not (is_binocular_operator t)

abbrev pub IsTree : Tree → Type 0
IsTree (leaf k) = is_operand k.type ≡ true
IsTree (unary t a) = (is_unary t ≡ true) × IsTree a
IsTree (binary t a b) = (is_binocular_operator t ≡ true) × IsTree a × IsTree b

-- The tokens from `p` on are those of the tree.
abbrev pub Stands : Tokens → ℕ → Tree → Type 0
Stands ts p (leaf k) = token_at ts p ≡ k
Stands ts p (unary t a) = (type_at ts p ≡ t) × Stands ts (p + 1) a
Stands ts p (binary t a b) =
    (type_at ts p ≡ tk_lparen)
    × Stands ts (p + 1) a
    × (type_at ts (p + 1 + width a) ≡ t)
    × Stands ts (p + 1 + width a + 1) b
    × (type_at ts (p + 1 + width a + 1 + width b) ≡ tk_rparen)

-- The types of the tokens.
unfoldable pub print : Tree → List ℕ
print (leaf k) = k.type ∷ []
print (unary t a) = t ∷ print a
print (binary t a b) = tk_lparen ∷ (print a ++ (t ∷ (print b ++ (tk_rparen ∷ []))))

-- The value, operands from left to right, with what the accesses do to the devices.
module _ {S : Type 0} (read : ℕ → S → Outcome (ℕ × S)) (c : Cpu) where
  unfoldable pub denote : Tree → S → Outcome (ℤ × S)
  denote (leaf k) s = single_token k c >>= (λ v. ok (v, s))
  denote (unary t a) s = denote a s >>= (λ r. apply_unary read c t r.0 r.1)
  denote (binary t a b) s =
      denote a s
      >>= (λ r1. denote b r1.1 >>= (λ r2. apply_binary t r1.0 r2.0 >>= (λ v. ok (v, r2.1))))

pub width_pos : (a : Tree) → 0 < width a
unfolding width
width_pos (leaf k) = omega arith
width_pos (unary t a) = omega arith
width_pos (binary t a b) = omega arith

pub length-print : (a : Tree) → length (print a) ≡ width a
unfolding print width
length-print (leaf k) = refl
length-print (unary t a) = ap suc (length-print a)
length-print (binary t a b) = omega (
  arith,
  length-append (print a) (t ∷ (print b ++ (tk_rparen ∷ []))),
  length-append (print b) (tk_rparen ∷ []),
  length-print a,
  length-print b,
)

pub leaf_type : (ts : Tokens) (p : ℕ) (k : Token) → token_at ts p ≡ k → type_at ts p ≡ k.type
unfolding type_at
leaf_type ts p k h = ap (λ x. x.type) h

-- Two operands with the operator between them, and what follows.
pub types-operation :
    (ts : Tokens) (p : ℕ) (a b : Tree) (t : ℕ) (rest : List ℕ) (n : ℕ)
    → type_at ts (p + width a) ≡ t
    → types ts p (width a) ≡ print a
    → types ts (p + width a + 1) (width b) ≡ print b
    → types ts (p + width a + 1 + width b) n ≡ rest
    → types ts p (width a + suc (width b + n)) ≡ print a ++ (t ∷ (print b ++ rest))
unfolding types
types-operation ts p a b t rest n ht ha hb hr =
    cc (types-add ts p (width a) (suc (width b + n)), types-add ts (p + width a + 1) (width b) n)

pub types-print : (ts : Tokens) (p : ℕ) (a : Tree) → Stands ts p a → types ts p (width a) ≡ print a
unfolding types print width
types-print ts p (leaf k) h = ap (λ x. x ∷ []) (leaf_type ts p k h)
types-print ts p (unary t a) h = ground (arith, types-print ts (p + 1) a h.1)
types-print ts p (binary t a b) h =
    ap (λ x. x ∷ types ts (p + 1) (width a + suc (width b + 1))) h.0
    ∙ ap (λ l. tk_lparen ∷ l)
        (types-operation ts (p + 1) a b t (tk_rparen ∷ []) 1 h.2 (types-print ts (p + 1) a h.1)
          (types-print ts (p + 1 + width a + 1) b h.3) (ap (λ x. x ∷ []) h.4))

abbrev pub search_at : ℕ → ℕ → ℕ → MainOp
search_at op max_priority depth = record {
  main_op = op;
  max_priority = max_priority;
  paren_match = pos depth;
}

-- What does not count: a token that is neither a parenthesis nor a binary operator, and an operator
-- between parentheses.
pub visit_other :
    (t i : ℕ) (m : MainOp)
    → is_binocular_operator t ≡ false
    → t ≢ tk_lparen
    → t ≢ tk_rparen
    → visit t i m ≡ m
unfolding visit match_token
visit_other t i m nb nl nr = ground arith

visit_inside :
    (t i op x d : ℕ)
    → is_binocular_operator t ≡ true
    → visit t i (search_at op x (suc d)) ≡ search_at op x (suc d)
unfolding visit match_token is_zero is_binocular_operator
visit_inside t i op x d b = ground arith

visit_open : (i op x d : ℕ) → visit tk_lparen i (search_at op x d) ≡ search_at op x (suc d)
unfolding visit match_token incr is_binocular_operator
visit_open i op x d = ground arith

visit_close : (i op x d : ℕ) → visit tk_rparen i (search_at op x (suc d)) ≡ search_at op x d
unfolding visit match_token decr is_binocular_operator
visit_close i op x d = ground arith

pub unary_facts :
    (t : ℕ)
    → is_unary t ≡ true
    → (is_binocular_operator t ≡ false) × (t ≢ tk_lparen) × (t ≢ tk_rparen)
unfolding is_binocular_operator
unary_facts t h = (ground arith, ground arith, ground arith)

visit_unary : (t i : ℕ) (m : MainOp) → is_unary t ≡ true → visit t i m ≡ m
visit_unary t i m h = let facts = unary_facts t h in visit_other t i m facts.0 facts.1 facts.2

-- Past a tree that leaves the search as it was.
pub pass :
    (a : Tree) (rest : List ℕ) (i : ℕ) (m : MainOp)
    → main_list (print a) i m ≡ m
    → main_list (print a ++ rest) i m ≡ main_list rest (i + width a) m
pass a rest i m h =
    main_list-append (print a) rest i m
    ∙ ap (main_list rest (i + length (print a))) h
    ∙ ap (λ n. main_list rest (i + n) m) (length-print a)

-- A tree leaves the search for the main operator as it was.
pub main_list-print :
    (a : Tree) (i op x d : ℕ)
    → IsTree a
    → main_list (print a) i (search_at op x d) ≡ search_at op x d
unfolding print main_list
main_list-print (leaf k) i op x d v =
    visit_other k.type i _ (ground arith) (ground arith) (ground arith)
main_list-print (unary t a) i op x d v =
    ap (main_list (print a) (i + 1)) (visit_unary t i (search_at op x d) v.0)
    ∙ main_list-print a (i + 1) op x d v.1
main_list-print (binary t a b) i op x d v =
    let after_a = i + 1 + width a in
    let after_b = after_a + 1 + width b in
    ap (main_list (print a ++ (t ∷ (print b ++ (tk_rparen ∷ [])))) (i + 1)) (visit_open i op x d)
    ∙ pass a (t ∷ (print b ++ (tk_rparen ∷ []))) (i + 1) (search_at op x (suc d))
        (main_list-print a (i + 1) op x (suc d) v.1)
    ∙ ap (main_list (print b ++ (tk_rparen ∷ [])) (after_a + 1)) (visit_inside t after_a op x d v.0)
    ∙ pass b (tk_rparen ∷ []) (after_a + 1) (search_at op x (suc d))
        (main_list-print b (after_a + 1) op x (suc d) v.2)
    ∙ visit_close after_b op x d

pub match_other : (t : ℕ) (depth : ℤ) → t ≢ tk_lparen → t ≢ tk_rparen → match_token t depth ≡ depth
unfolding match_token
match_other t depth nl nr = ground arith

pub print-append :
    (a b : Tree) (t : ℕ) (rest : List ℕ)
    → print (binary t a b) ++ rest ≡ tk_lparen ∷ (print a ++ (t ∷ (print b ++ (tk_rparen ∷ rest))))
unfolding print
print-append a b t rest =
    ap (λ l. tk_lparen ∷ l)
      (append_assoc (print a) (t ∷ (print b ++ (tk_rparen ∷ []))) rest
        ∙ ap (λ l. print a ++ (t ∷ l)) (append_assoc (print b) (tk_rparen ∷ []) rest))

pub binary_facts :
    (t : ℕ)
    → is_binocular_operator t ≡ true
    → (is_unary t ≡ false) × (t ≢ tk_lparen) × (t ≢ tk_rparen)
unfolding is_binocular_operator
binary_facts t h = (ground arith, ground arith, ground arith)

-- The parentheses of a tree match.
pub check_list-print :
    (a : Tree) (rest : List ℕ) (d : ℕ)
    → IsTree a
    → check_list (print a ++ rest) (pos d) ≡ check_list rest (pos d)
unfolding print check_list is_negative match_token incr decr
check_list-print (leaf k) rest d v =
    ap (check_list rest) (match_other k.type (pos d) (ground arith) (ground arith))
check_list-print (unary t a) rest d v =
    let facts = unary_facts t v.0 in
    ap (check_list (print a ++ rest)) (match_other t (pos d) facts.1 facts.2)
    ∙ check_list-print a rest d v.1
check_list-print (binary t a b) rest d v =
    let facts = binary_facts t v.0 in
    ap (λ l. check_list l (pos d)) (print-append a b t rest)
    ∙ check_list-print a (t ∷ (print b ++ (tk_rparen ∷ rest))) (suc d) v.1
    ∙ ap (check_list (print b ++ (tk_rparen ∷ rest))) (match_other t (pos (suc d)) facts.1 facts.2)
    ∙ check_list-print b (tk_rparen ∷ rest) (suc d) v.2
