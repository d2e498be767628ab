-- ===== src/Sdb/Expr/Kept.antt =====
-- `expr` of nemu/src/monitor/sdb/expr.c leaves the array of tokens well-formed.
use soc_fpga_bjtu_hwct.Common.{
  ℕ, zero, suc, ◌+◌, ◌-◌, ◌∙◌, refl, Bool, ◌&&◌, List, length-set, All-set, All-get_or, ◌==◌,
  if_both,
}
use soc_fpga_bjtu_hwct.Common.Outcome.{
  Outcome, ok, failed, fault, Ensures, Ensures-bind, Ensures-then,
}
use soc_fpga_bjtu_hwct.Isa.State.{Cpu}
use soc_fpga_bjtu_hwct.Sdb.Token.{
  Tokens, zero_token, make_token, tk_mul, tk_sub, tk_deref, tk_minus,
}
use soc_fpga_bjtu_hwct.Sdb.Token.Scan.{IsToken, IsTokens, Scans, make_token-Scans}
use soc_fpga_bjtu_hwct.Sdb.Expr.{
  type_at, set_type, is_prefix, mark, mark_loop, eval, ExprResult, eval_tokens, expr,
}

set_type-IsTokens : (i t : ℕ) (ts : Tokens) → IsTokens ts → IsTokens (set_type i t ts)
unfolding set_type
set_type-IsTokens i t ts v = record {
  size = length-set ts.tokens i _ ∙ v.size;
  texts =
      All-set IsToken ts.tokens i _ v.texts
        (All-get_or IsToken ts.tokens i zero_token v.texts refl);
  within = v.within;
}

mark-IsTokens : (i : ℕ) (ts : Tokens) → IsTokens ts → IsTokens (mark i ts)
unfolding mark
mark-IsTokens i ts v =
    if_both IsTokens (type_at ts i == tk_mul && is_prefix ts i) (set_type-IsTokens i tk_deref ts v)
      (if_both IsTokens (type_at ts i == tk_sub && is_prefix ts i)
        (set_type-IsTokens i tk_minus ts v) v)

mark_loop-IsTokens : (n i : ℕ) (ts : Tokens) → IsTokens ts → IsTokens (mark_loop n i ts)
unfolding mark_loop
mark_loop-IsTokens zero i ts v = v
mark_loop-IsTokens (suc n) i ts v = mark_loop-IsTokens n (i + 1) (mark i ts) (mark-IsTokens i ts v)

Scans-Ensures :
    (m : Outcome (Bool × Tokens)) → Scans m → Ensures (λ (r : Bool × Tokens). IsTokens r.1) m
Scans-Ensures (ok r) h = h
Scans-Ensures failed h = tt
Scans-Ensures fault h = tt

module _ {S : Type 0} (read : ℕ → S → Outcome (ℕ × S)) (c : Cpu) where
  abbrev pub LeavesTokens : ExprResult S → Type 0
  LeavesTokens r = IsTokens r.left

  eval_tokens-IsTokens :
      (ts : Tokens) (s : S) → IsTokens ts → Ensures LeavesTokens (eval_tokens read c ts s)
  unfolding eval_tokens
  eval_tokens-IsTokens ts s v =
      let ts' = mark_loop (ts.nr_token - 1) 0 ts in
      Ensures-then LeavesTokens (eval read c ts' (suc ts'.nr_token) 0 ts'.nr_token s) _
        (λ r. mark_loop-IsTokens (ts.nr_token - 1) 0 ts v)

  pub expr-IsTokens :
      (e : List ℕ) (ts : Tokens) (s : S) → IsTokens ts → Ensures LeavesTokens (expr read c e ts s)
  unfolding expr
  expr-IsTokens e ts s v =
      Ensures-bind (λ (r : Bool × Tokens). IsTokens r.1) LeavesTokens (make_token e ts) _
        (Scans-Ensures (make_token e ts) (make_token-Scans e ts v))
        (λ r v'. if_both (Ensures LeavesTokens) r.0 (eval_tokens-IsTokens r.1 s v') v')
