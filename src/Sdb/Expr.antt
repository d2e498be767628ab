-- ===== src/Sdb/Expr.antt =====
-- The evaluation of an expression: nemu/src/monitor/sdb/expr.c from `check_parentheses` on. An `int`
-- is the integer that it stands for; a sum that leaves the range of `int` is undefined in C. The
-- last position `q` of a part is given by the position behind it, `q + 1`, which is never negative.
pub mod Types
pub mod Parens
pub mod Kept
pub mod Tree
pub mod Fuel
use soc_fpga_bjtu_hwct.Common.{
  ℕ, zero, suc, ◌+◌, ◌-◌, ◌/◌, ◌%◌, ◌^◌, Bool, true, false, not, ◌&&◌, ◌||◌, List, ltb, leb, ◌==◌,
  if◌then◌else◌, set, bit_xor,
}
use soc_fpga_bjtu_hwct.Common.Outcome.{Outcome, ok, failed, fault, ◌>>=◌}
use soc_fpga_bjtu_hwct.Common.Int.{
  ℤ, pos, negsuc, pos_part, neg_part, sub_ℕ, ◌+ℤ◌, ◌-ℤ◌, ◌*ℤ◌, ltb_ℤ, signed32,
}
use soc_fpga_bjtu_hwct.Isa.Pattern.{codes}
use soc_fpga_bjtu_hwct.Isa.State.{Cpu}
use soc_fpga_bjtu_hwct.Isa.RegName.{isa_reg_str2val}
use soc_fpga_bjtu_hwct.Sdb.CString.{c_string, str_eq, atoi, strtol_0}
use soc_fpga_bjtu_hwct.Sdb.Token.{
  Token, Tokens, token_at, make_token, tk_eq, tk_regs_name, tk_sub, tk_mul, tk_lparen, tk_rparen,
  tk_div, tk_number, tk_hex, tk_add, tk_deref, tk_minus, tk_eqorlgt, tk_eqorlst, tk_lgand, tk_lgor,
  tk_lgxor, tk_neq,
}

unfoldable pub is_binocular_operator : ℕ → Bool
is_binocular_operator t =
    t == tk_add
    || t == tk_div
    || t == tk_mul
    || t == tk_sub
    || t == tk_eq
    || t == tk_eqorlgt
    || t == tk_eqorlst
    || t == tk_lgand
    || t == tk_lgor
    || t == tk_lgxor
    || t == tk_neq

-- `paren_match++` and `paren_match--`
unfoldable pub incr : ℤ → ℤ
incr (pos n) = pos (suc n)
incr (negsuc zero) = pos 0
incr (negsuc (suc n)) = negsuc n

unfoldable pub decr : ℤ → ℤ
decr (pos zero) = negsuc 0
decr (pos (suc n)) = pos n
decr (negsuc n) = negsuc (suc n)

unfoldable pub is_zero : ℤ → Bool
is_zero (pos zero) = true
is_zero (pos (suc n)) = false
is_zero (negsuc n) = false

unfoldable pub is_negative : ℤ → Bool
is_negative (pos n) = false
is_negative (negsuc n) = true

-- The change of `paren_match` at a token.
unfoldable pub match_token : ℕ → ℤ → ℤ
unfolding incr decr
match_token t depth =
    if t == tk_lparen then incr depth else if t == tk_rparen then decr depth else depth

unfoldable pub type_at : Tokens → ℕ → ℕ
type_at ts i = (token_at ts i).type

-- The loop of `check_parentheses` over `n` tokens from `i` on.
unfoldable pub check_loop : Tokens → ℕ → ℕ → ℕ → ℕ → ℤ → Bool
unfolding type_at is_zero is_negative match_token
check_loop ts p q zero i depth = is_zero depth
check_loop ts p q (suc n) i depth =
    if not (type_at ts p == tk_lparen) || not (type_at ts q == tk_rparen)
    then false
    else if is_negative depth
    then false
    else check_loop ts p q n (i + 1) (match_token (type_at ts i) depth)

unfoldable pub check_parentheses : Tokens → ℕ → ℕ → Bool
unfolding check_loop
check_parentheses ts p q =
    if p + 1 == q then false else check_loop ts p q (q - (p + 1)) (p + 1) (pos 0)

unfoldable pub priority : ℕ → ℕ
priority t =
    if t == tk_add || t == tk_sub
    then 3
    else if t == tk_mul || t == tk_div
    then 2
    else if t == tk_lgand || t == tk_lgor || t == tk_lgxor
    then 1
    else 0

-- The variables of the loop of `find_main_operator`.
pub record MainOp : Type 0 where
  pub main_op : ℕ
  pub max_priority : ℕ
  pub paren_match : ℤ

-- The test that makes an operator the main one so far.
unfoldable pub takes_over : ℕ → ℕ → Bool
unfolding priority
takes_over t max_priority =
    ltb max_priority (priority t)
    || (priority t == max_priority && not (t == tk_mul) && not (t == tk_div))

unfoldable pub visit : ℕ → ℕ → MainOp → MainOp
unfolding takes_over is_binocular_operator is_zero match_token
visit t i m =
    let m' =
      if is_zero m.paren_match && is_binocular_operator t && takes_over t m.max_priority
      then record m { main_op = i; max_priority = priority t }
      else m in
    record m' { paren_match = match_token t m.paren_match }

unfoldable pub main_loop : Tokens → ℕ → ℕ → MainOp → MainOp
unfolding type_at visit
main_loop ts zero i m = m
main_loop ts (suc n) i m = main_loop ts n (i + 1) (visit (type_at ts i) i m)

unfoldable pub find_main_operator : Tokens → ℕ → ℕ → ℕ
unfolding main_loop
find_main_operator ts p q =
    (main_loop ts (q + 1 - p) p
      (record { main_op = 0; max_priority = 0; paren_match = pos 0 })).main_op

-- A result of type `int`.
unfoldable pub int_result : ℤ → Outcome ℤ
int_result z = if leb (pos_part z) (2 ^ 31 - 1) && leb (neg_part z) (2 ^ 31) then ok z else fault

-- `(uint32_t)z`
unfoldable pub word_of : ℤ → ℕ
word_of (pos n) = n % 2 ^ 32
word_of (negsuc n) = 2 ^ 32 - 1 - n % 2 ^ 32

abbrev int_of_bool : Bool → ℤ
int_of_bool true = pos 1
int_of_bool false = pos 0

abbrev magnitude_of : ℤ → ℕ
magnitude_of z = pos_part z + neg_part z

-- `/` of C, which rounds towards zero.
unfoldable quot : ℤ → ℤ → Outcome ℤ
unfolding is_zero is_negative int_result
quot a b =
    let q = magnitude_of a / magnitude_of b in
    if is_zero b
    then fault
    else int_result (
        if is_negative a && not (is_negative b) || not (is_negative a) && is_negative b
        then sub_ℕ 0 q
        else pos q)

-- The `switch` on a binary operator.
unfoldable pub apply_binary : ℕ → ℤ → ℤ → Outcome ℤ
unfolding int_result quot ◌+ℤ◌ ◌-ℤ◌ ◌*ℤ◌ is_zero word_of
apply_binary t val1 val2 =
    if t == tk_add
    then int_result (val1 +ℤ val2)
    else if t == tk_sub
    then int_result (val1 -ℤ val2)
    else if t == tk_mul
    then int_result (val1 *ℤ val2)
    else if t == tk_div
    then quot val1 val2
    else if t == tk_eq
    then ok (int_of_bool (not (ltb_ℤ val1 val2) && not (ltb_ℤ val2 val1)))
    else if t == tk_eqorlgt
    then ok (int_of_bool (not (ltb_ℤ val1 val2)))
    else if t == tk_eqorlst
    then ok (int_of_bool (not (ltb_ℤ val2 val1)))
    else if t == tk_lgand
    then ok (int_of_bool (not (is_zero val1) && not (is_zero val2)))
    else if t == tk_lgor
    then ok (int_of_bool (not (is_zero val1) || not (is_zero val2)))
    else if t == tk_lgxor
    then ok (signed32 (bit_xor (word_of val1) (word_of val2)))
    else if t == tk_neq
    then ok (int_of_bool (ltb_ℤ val1 val2 || ltb_ℤ val2 val1))
    else failed

-- A name is "pc", or that of a general register.
unfoldable pub register_value : List ℕ → Cpu → Outcome ℤ
unfolding isa_reg_str2val str_eq
register_value name c =
    let (value, success) = isa_reg_str2val name c in
    if str_eq name (codes "pc")
    then ok (signed32 c.pc)
    else if success
    then ok (signed32 value)
    else failed

unfoldable pub single_token : Token → Cpu → Outcome ℤ
unfolding c_string atoi strtol_0 register_value
single_token k c =
    if k.type == tk_number
    then ok (atoi (c_string k.str))
    else if k.type == tk_regs_name
    then register_value (c_string k.str) c
    else if k.type == tk_hex
    then ok (strtol_0 (c_string k.str))
    else ok (negsuc 0)

abbrev pub is_unary : ℕ → Bool
is_unary t = t == tk_deref || t == tk_minus

-- Where no operator is found, the first token is taken.
abbrev pub op_or_first : ℕ → ℕ → ℕ
op_or_first op p = if op == 0 then p else op

-- `read` is `paddr_read(addr, 4)`, which may change the state `S` of the devices.
module _ {S : Type 0} (read : ℕ → S → Outcome (ℕ × S)) (c : Cpu) where
  unfoldable pub apply_unary : ℕ → ℤ → S → Outcome (ℤ × S)
  unfolding int_result word_of
  apply_unary t val3 s =
      if t == tk_deref
      then (read (word_of val3) s >>= (λ r. ok (signed32 r.0, r.1)))
      else (int_result (pos 0 -ℤ val3) >>= (λ v. ok (v, s)))

  module _ (ts : Tokens) where
    -- The operator at `op` and its operands; `rec` is the recursive call.
    unfoldable pub eval_operator : (ℕ → ℕ → S → Outcome (ℤ × S)) → ℕ → ℕ → ℕ → S → Outcome (ℤ × S)
    unfolding type_at apply_unary apply_binary
    eval_operator rec p op end s =
        if is_unary (type_at ts op)
        then (rec (op + 1) end s >>= (λ r. apply_unary (type_at ts op) r.0 r.1))
        else (rec p op s >>= (λ r1.
            rec (op + 1) end r1.1
            >>= (λ r2. apply_binary (type_at ts op) r1.0 r2.0 >>= (λ v. ok (v, r2.1)))))

    unfoldable pub eval_step : (ℕ → ℕ → S → Outcome (ℤ × S)) → ℕ → ℕ → S → Outcome (ℤ × S)
    unfolding single_token check_parentheses find_main_operator eval_operator
    eval_step rec p end s =
        if leb end p
        then failed
        else if end == p + 1
        then (single_token (token_at ts p) c >>= (λ v. ok (v, s)))
        else if check_parentheses ts p (end - 1)
        then rec (p + 1) (end - 1) s
        else eval_operator rec p (op_or_first (find_main_operator ts p (end - 1)) p) end s

    -- `eval(p, end - 1)`. Without fuel it faults; an empty part is a failed assertion.
    unfoldable pub eval : ℕ → ℕ → ℕ → S → Outcome (ℤ × S)
    unfolding eval_step
    eval zero p end s = fault
    eval (suc fuel) p end s = eval_step (eval fuel) p end s

unfoldable pub set_type : ℕ → ℕ → Tokens → Tokens
set_type i t ts = record ts { tokens = set ts.tokens i (record (token_at ts i) { type = t }) }

-- An operator at `i` stands in front of its only operand.
unfoldable pub is_prefix : Tokens → ℕ → Bool
unfolding type_at is_binocular_operator
is_prefix ts i = i == 0 || is_binocular_operator (type_at ts (i - 1))

unfoldable pub mark : ℕ → Tokens → Tokens
unfolding type_at is_prefix set_type
mark i ts =
    if type_at ts i == tk_mul && is_prefix ts i
    then set_type i tk_deref ts
    else if type_at ts i == tk_sub && is_prefix ts i
    then set_type i tk_minus ts
    else ts

-- The loop of `expr` over `n` tokens from `i` on.
unfoldable pub mark_loop : ℕ → ℕ → Tokens → Tokens
unfolding mark
mark_loop zero i ts = ts
mark_loop (suc n) i ts = mark_loop n (i + 1) (mark i ts)

-- The value, what is put into `*success`, the tokens that stay behind, and the devices.
pub record ExprResult (S : Type 0) : Type 0 where
  pub value : ℕ
  pub success : Bool
  pub left : Tokens
  pub state : S

module _ {S : Type 0} (read : ℕ → S → Outcome (ℕ × S)) (c : Cpu) where
  unfoldable pub eval_tokens : Tokens → S → Outcome (ExprResult S)
  unfolding mark_loop eval word_of
  eval_tokens ts s =
      let ts' = mark_loop (ts.nr_token - 1) 0 ts in
      (eval read c ts' (suc ts'.nr_token) 0 ts'.nr_token s
        >>= (λ r. ok (record { value = word_of r.0; success = true; left = ts'; state = r.1 })))

  unfoldable pub expr : List ℕ → Tokens → S → Outcome (ExprResult S)
  unfolding make_token eval_tokens
  expr e ts s = make_token e ts >>= (λ r.
      if r.0
      then eval_tokens r.1 s
      else ok (record { value = 0; success = false; left = r.1; state = s }))
