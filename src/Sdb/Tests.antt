-- ===== src/Sdb/Tests.antt =====
-- Runs of the debugger, and the theorems about it at concrete inputs.
use soc_fpga_bjtu_hwct.Common.{
  ℕ, ◌+◌, ◌<◌, ◌≡◌, ◌↔◌, refl, arith, Bool, List, ◌∷◌, [], ◌++◌, Option, none, some, true, false,
  replicate, All-replicate, ◌==◌, if◌then◌else◌,
}
use soc_fpga_bjtu_hwct.Common.Outcome.{Outcome, ok, ◌>>=◌}
use soc_fpga_bjtu_hwct.Common.Int.{ℤ, pos}
use soc_fpga_bjtu_hwct.Isa.Pattern.{codes}
use soc_fpga_bjtu_hwct.Isa.State.{Cpu}
use soc_fpga_bjtu_hwct.Sdb.CString.{c_string}
use soc_fpga_bjtu_hwct.Sdb.Token.{
  rules, Token, Tokens, zero_token, tokens_len, initial_tokens, token_at, match_success, make_token,
  drop, tk_lparen, tk_rparen, tk_number, tk_add, tk_div,
}
use soc_fpga_bjtu_hwct.Sdb.Token.Scan.{
  IsToken, IsTokens, Scans, make_token-Scans, match_success-str,
}
use soc_fpga_bjtu_hwct.Sdb.Expr.{
  expr, ExprResult, eval, type_at, check_parentheses, is_binocular_operator,
}
use soc_fpga_bjtu_hwct.Sdb.Expr.Types.{types}
use soc_fpga_bjtu_hwct.Sdb.Expr.Parens.{Balanced, check_parentheses-Balanced}
use soc_fpga_bjtu_hwct.Sdb.Expr.Fuel.{eval_or, eval_fuel}
use soc_fpga_bjtu_hwct.Sdb.Expr.Tree.{Tree, leaf, binary, width, IsTree, Stands, denote}
use soc_fpga_bjtu_hwct.Sdb.Expr.Tree.Eval.{eval-denote}
use soc_fpga_bjtu_hwct.Sdb.Expr.Tree.Chain.{Chain, grouped, eval-grouped}
use soc_fpga_bjtu_hwct.Sdb.Watch.{WpPool, nr_wp, init_wp_pool, delete_wp}
use soc_fpga_bjtu_hwct.Sdb.Watch.Pool.{count, Holds, range, init_wp_pool-Holds}
use soc_fpga_bjtu_hwct.Sdb.Watch.Pool.Remove.{remove}
use soc_fpga_bjtu_hwct.Sdb.Watch.View.{
  added, added-Holds, delete_wp-Holds, Evaluates, Adds, add_wp-Adds,
}

-- Every word of the memory holds its own address.
abbrev own_address : ℕ → Unit {0} → Outcome (ℕ × Unit {0})
own_address addr s = ok (addr, s)

abbrev cpu0 : Cpu
cpu0 = record {
  gpr = 0 ∷ 5 ∷ replicate 30 9;
  pc = 0x80000000;
  true_pc = 0x80000000;
  csr_pr = replicate 12 0;
  cycle = 0;
}

abbrev value_of : Outcome (ExprResult (Unit {0})) → Option (ℕ × Bool)
value_of (ok r) = some (r.value, r.success)
value_of _ = none

calc : List ℕ → Option (ℕ × Bool)
unfolding expr
calc e = value_of (expr own_address cpu0 e initial_tokens tt)

after : List ℕ → List ℕ → Option (ℕ × Bool)
unfolding expr
after e1 e2 =
    value_of
      (expr own_address cpu0 e1 initial_tokens tt >>= (λ r. expr own_address cpu0 e2 r.left tt))

grouping : calc (codes "(1 + 2) * 3") ≡ some (9, true)
unfolding calc rules
grouping = refl

-- 8 / (2 / 2), where C has (8 / 2) / 2.
divisions : calc (codes "8/2/2") ≡ some (8, true)
unfolding calc rules
divisions = refl

-- The text of the first expression shows through.
stale_digits : after (codes "123") (codes "4") ≡ some (423, true)
unfolding after rules
stale_digits = refl

no_rule : calc (codes "3 % 2") ≡ some (0, false)
unfolding calc rules
no_rule = refl

pub initial-IsTokens : IsTokens initial_tokens
initial-IsTokens = record {
  size = refl;
  texts = All-replicate IsToken tokens_len zero_token refl;
  within = omega arith;
}

make_token-Scans_example : Scans (make_token (codes "(1 + 2)") initial_tokens)
make_token-Scans_example = make_token-Scans (codes "(1 + 2)") initial_tokens initial-IsTokens

abbrev number_token : List ℕ → Token
number_token digits = record { type = tk_number; str = digits ++ (0 ∷ []) }

abbrev sign : ℕ → Token
sign t = record { type = t; str = 0 ∷ [] }

abbrev used_token : Token
used_token = record { type = tk_number; str = codes "123" ++ replicate 61 0 }

abbrev used_tokens : Tokens
used_tokens = record { tokens = used_token ∷ replicate 63 zero_token; nr_token = 0 }

used-IsTokens : IsTokens used_tokens
used-IsTokens = record {
  size = refl;
  texts = (refl, All-replicate IsToken 63 zero_token refl);
  within = omega arith;
}

match_success-str_example :
    (t' : Tokens) × (match_success (codes "4") tk_number used_tokens ≡ ok t')
    × (c_string (token_at t' 0).str ≡ codes "4" ++ c_string (drop 1 (token_at used_tokens 0).str))
match_success-str_example =
    match_success-str (codes "4") tk_number used_tokens used-IsTokens (omega arith)
      (omega arith, tt) (omega arith)

-- (1 + 2)
abbrev sum_tokens : Tokens
sum_tokens = record {
  tokens =
      sign tk_lparen
      ∷ number_token (codes "1")
      ∷ sign tk_add
      ∷ number_token (codes "2")
      ∷ sign tk_rparen
      ∷ [];
  nr_token = 5;
}

check_parentheses-Balanced_example : (check_parentheses sum_tokens 0 4 ≡ true) ↔ (
    (type_at sum_tokens 0 ≡ tk_lparen)
    × (type_at sum_tokens 4 ≡ tk_rparen)
    × (1 < 4)
    × Balanced (types sum_tokens 1 3))
check_parentheses-Balanced_example = check_parentheses-Balanced sum_tokens 0 4 (omega arith)

abbrev sum_tree : Tree
sum_tree = binary tk_add (leaf (number_token (codes "1"))) (leaf (number_token (codes "2")))

sum_tree-IsTree : IsTree sum_tree
unfolding is_binocular_operator
sum_tree-IsTree = (refl, refl, refl)

sum_tree-Stands : Stands sum_tokens 0 sum_tree
unfolding type_at width
sum_tree-Stands = (refl, refl, refl, refl, refl)

eval-denote_example :
    eval own_address cpu0 sum_tokens 9 0 5 tt ≡ denote own_address cpu0 sum_tree tt
unfolding width
eval-denote_example =
    eval-denote own_address cpu0 sum_tokens sum_tree 9 0 tt (omega arith) sum_tree-IsTree
      sum_tree-Stands

-- A call without fuel has the value 77.
abbrev ok_77 : ℕ → ℕ → Unit {0} → Outcome (ℤ × Unit {0})
ok_77 p end s = ok (pos 77, s)

eval_fuel_example :
    eval own_address cpu0 sum_tokens 6 0 5 tt
    ≡ eval_or own_address cpu0 sum_tokens ok_77 (6 + 20) 0 5 tt
eval_fuel_example =
    eval_fuel own_address cpu0 sum_tokens ok_77 6 20 0 5 tt (omega arith) (omega arith)

-- 8 / 2 / 2
abbrev quotient_tokens : Tokens
quotient_tokens = record {
  tokens =
      number_token (codes "8")
      ∷ sign tk_div
      ∷ number_token (codes "2")
      ∷ sign tk_div
      ∷ number_token (codes "2")
      ∷ [];
  nr_token = 5;
}

abbrev eight : Tree
eight = leaf (number_token (codes "8"))

abbrev two : Tree
two = leaf (number_token (codes "2"))

quotient-Chain : Chain quotient_tokens 0 tk_div tk_div eight two two
unfolding type_at width is_binocular_operator
quotient-Chain = record {
  first_op = refl;
  second_op = refl;
  first_tree = refl;
  second_tree = refl;
  third_tree = refl;
  first = refl;
  first_at = refl;
  second = refl;
  second_at = refl;
  third = refl;
}

eval-grouped_example :
    eval own_address cpu0 quotient_tokens 5 0 5 tt
    ≡ denote own_address cpu0 (grouped tk_div tk_div eight two two) tt
unfolding width
eval-grouped_example =
    eval-grouped own_address cpu0 quotient_tokens 0 tk_div tk_div eight two two quotient-Chain 3
      (omega arith) tt

-- Every expression has the value 7.
abbrev always_7 : List ℕ → Unit {0} → Outcome (ℕ × Unit {0})
always_7 args s = ok (7, s)

abbrev evaluates_7 : Evaluates always_7 (codes "ra") tt
evaluates_7 = record { value1 = 7; value2 = 7; middle = tt; end = tt; first = refl; second = refl }

add_wp-Adds_example : Adds always_7 init_wp_pool [] (range nr_wp 0) (codes "ra") tt evaluates_7
add_wp-Adds_example =
    add_wp-Adds always_7 init_wp_pool [] (range nr_wp 0) (codes "ra") tt evaluates_7
      init_wp_pool-Holds

-- One watchpoint, with an old value.
abbrev pub watched : WpPool
watched = added init_wp_pool 0 (codes "ra") 3

pub watched-Holds : Holds watched (0 ∷ []) (range 31 1)
unfolding range
watched-Holds = added-Holds init_wp_pool 0 (codes "ra") 3 [] (range 31 1) init_wp_pool-Holds

delete_wp-Holds_example :
    (w' : WpPool) × (delete_wp 0 watched ≡ ok w')
    × Holds w' (remove 0 (0 ∷ [])) (if count 0 (0 ∷ []) == 0 then range 31 1 else 0 ∷ range 31 1)
    × ((count 0 (0 ∷ []) ≡ 0) → w' ≡ watched)
delete_wp-Holds_example =
    delete_wp-Holds watched (0 ∷ []) (range 31 1) 0 (omega arith) watched-Holds
