-- ===== src/Sdb/Expr/Parens.antt =====
-- `check_parentheses` of nemu/src/monitor/sdb/expr.c against a grammar of balanced parentheses.
use soc_fpga_bjtu_hwct.Common.{
  ℕ, zero, suc, ◌+◌, ◌-◌, ◌<◌, ◌≡◌, ◌≢◌, ◌↔◌, ◌∙◌, refl, ap, sym, arith, true, false, inl, inr,
  List, [], ◌∷◌, ◌++◌, ◌==◌, Bool-cases, append_nil,
}
use mathlib.Core.Path.{subst}
use mathlib.Core.List.{append_assoc}
use soc_fpga_bjtu_hwct.Common.Int.{pos, negsuc}
use soc_fpga_bjtu_hwct.Sdb.Token.{Tokens, tk_lparen, tk_rparen}
use soc_fpga_bjtu_hwct.Sdb.Expr.{
  incr, decr, is_zero, is_negative, match_token, type_at, check_parentheses,
}
use soc_fpga_bjtu_hwct.Sdb.Expr.Types.{
  types, check_list, check_parentheses_ends, check_parentheses-types,
}

-- Lists of token types whose parentheses match.
pub data Balanced : List ℕ → Type 0 where
  done : Balanced []
  plain :
      {t : ℕ} {rest : List ℕ} → t ≢ tk_lparen → t ≢ tk_rparen → Balanced rest → Balanced (t ∷ rest)
  nest :
      {inner rest w : List ℕ}
      → Balanced inner
      → Balanced rest
      → w ≡ tk_lparen ∷ (inner ++ (tk_rparen ∷ rest))
      → Balanced w

-- A balanced part leaves the depth as it was.
pub check_list-Balanced :
    {w : List ℕ} (b : Balanced w) (tail : List ℕ) (n : ℕ)
    → check_list (w ++ tail) (pos n) ≡ check_list tail (pos n)
unfolding check_list match_token incr decr is_negative
check_list-Balanced done tail n = refl
check_list-Balanced (plain {t} {rest} nl nr b) tail n = ground (arith, check_list-Balanced b tail n)
check_list-Balanced (nest {inner} {rest} {w} bi br e) tail n =
    let lists : (w ++ tail) ≡ tk_lparen ∷ (inner ++ (tk_rparen ∷ (rest ++ tail))) =
      ap (λ l. l ++ tail) e
      ∙ ap (λ l. tk_lparen ∷ l) (append_assoc inner (tk_rparen ∷ rest) tail) in
    rw lists
      (check_list-Balanced bi (tk_rparen ∷ (rest ++ tail)) (suc n) ∙ check_list-Balanced br tail n)

-- `n` parentheses are closed one after the other, with balanced parts between.
data Closes : ℕ → List ℕ → Type 0 where
  last : {w : List ℕ} → Balanced w → Closes 0 w
  close :
      {n : ℕ} {inner rest w : List ℕ}
      → Balanced inner
      → Closes n rest
      → w ≡ inner ++ (tk_rparen ∷ rest)
      → Closes (suc n) w

Closes-plain :
    {n t : ℕ} {w : List ℕ} → t ≢ tk_lparen → t ≢ tk_rparen → Closes n w → Closes n (t ∷ w)
Closes-plain nl nr (last b) = last (plain nl nr b)
Closes-plain {n} {t} nl nr (close {inner} {rest} b c e) =
    close (plain nl nr b) c (ap (λ l. t ∷ l) e)

nested_append :
    (inner first others : List ℕ) {rest : List ℕ}
    → rest ≡ first ++ (tk_rparen ∷ others)
    → ◌≡◌ {A = List ℕ}
        (tk_lparen ∷ (inner ++ (tk_rparen ∷ rest)))
        ((tk_lparen ∷ (inner ++ (tk_rparen ∷ first))) ++ (tk_rparen ∷ others))
nested_append inner first others e =
    ap (λ l. tk_lparen ∷ (inner ++ (tk_rparen ∷ l))) e
    ∙ sym (ap (λ l. tk_lparen ∷ l) (append_assoc inner (tk_rparen ∷ first) (tk_rparen ∷ others)))

Closes-nest :
    {n : ℕ} {inner rest : List ℕ}
    → Balanced inner
    → Closes n rest
    → Closes n (tk_lparen ∷ (inner ++ (tk_rparen ∷ rest)))
Closes-nest b (last c) = last (nest b c refl)
Closes-nest {inner = inner} b (close {inner = first} {rest = others} c d e) =
    close (nest b c refl) d (nested_append inner first others e)

Closes-open : {n : ℕ} {w : List ℕ} → Closes (suc n) w → Closes n (tk_lparen ∷ w)
Closes-open {n} (close b c e) = subst (λ w. Closes n (tk_lparen ∷ w)) (sym e) (Closes-nest b c)

-- A closing parenthesis too many is never made good.
pub check_list_negative : (w : List ℕ) (k : ℕ) → check_list w (negsuc k) ≡ false
unfolding check_list is_zero is_negative
check_list_negative [] k = refl
check_list_negative (t ∷ w) k = refl

Closes-shut :
    (n : ℕ) (w : List ℕ)
    → check_list w (decr (pos n)) ≡ true
    → ((m : ℕ) → check_list w (pos m) ≡ true → Closes m w)
    → Closes n (tk_rparen ∷ w)
unfolding decr
Closes-shut zero w h rest = absurd (cc (h, check_list_negative w 0))
Closes-shut (suc n) w h rest = close done (rest n h) refl

-- A part that is accepted at depth `n` closes `n` parentheses.
check_list-Closes : (w : List ℕ) (n : ℕ) → check_list w (pos n) ≡ true → Closes n w
unfolding check_list is_zero is_negative match_token incr decr
check_list-Closes [] zero h = last done
check_list-Closes [] (suc n) h = absurd (cc h)
check_list-Closes (t ∷ w) n h = elim (Bool-cases (t == tk_lparen)) [
  | inl opens ↦
      let e : t ≡ tk_lparen = ground arith in
      subst (λ u. Closes n (u ∷ w)) (sym e)
        (Closes-open (check_list-Closes w (suc n) (rw opens at h)))
  | inr no_open ↦ elim (Bool-cases (t == tk_rparen)) [
    | inl shuts ↦
        let e : t ≡ tk_rparen = ground arith in
        subst (λ u. Closes n (u ∷ w)) (sym e)
          (Closes-shut n w (rw (no_open, shuts) at h) (λ m. check_list-Closes w m))
    | inr no_shut ↦
        Closes-plain (ground arith) (ground arith)
          (check_list-Closes w n (rw (no_open, no_shut) at h))
  ]
]

Closes-Balanced : {w : List ℕ} → Closes 0 w → Balanced w
Closes-Balanced (last b) = b

check_list_iff : (w : List ℕ) → (check_list w (pos 0) ≡ true) ↔ Balanced w
unfolding check_list is_zero
check_list_iff w = (
  λ h. Closes-Balanced (check_list-Closes w 0 h),
  λ b. subst (λ l. check_list l (pos 0) ≡ true) (append_nil w) (check_list-Balanced b [] 0),
)

-- `check_parentheses(p, q)` for `p < q` is true exactly when token `p` opens, token `q` closes, and
-- the tokens between them, one at least, are balanced by the grammar.
pub check_parentheses-Balanced :
    (ts : Tokens) (p q : ℕ)
    → p < q
    → (check_parentheses ts p q ≡ true) ↔ (
        (type_at ts p ≡ tk_lparen)
        × (type_at ts q ≡ tk_rparen)
        × (p + 1 < q)
        × Balanced (types ts (p + 1) (q - (p + 1))))
check_parentheses-Balanced ts p q lt = (
  λ h.
      let ends = check_parentheses_ends ts p q lt h in
      (
        ends.0,
        ends.1,
        ends.2,
        (check_list_iff _).0 (sym (check_parentheses-types ts p q ends.0 ends.1 ends.2) ∙ h),
      ),
  λ k. check_parentheses-types ts p q k.0 k.1 k.2 ∙ (check_list_iff _).1 k.3,
)
