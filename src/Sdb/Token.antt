-- ===== src/Sdb/Token.antt =====
-- The tokens of an expression: the rules and `make_token` of nemu/src/monitor/sdb/expr.c. A token's
-- type is the number that the `enum` gives it.
pub mod Scan
use soc_fpga_bjtu_hwct.Common.{
  ℕ, zero, suc, ◌+◌, Bool, true, false, not, ◌&&◌, ◌||◌, Option, none, some, List, [], ◌∷◌, ◌++◌,
  map, ltb, ◌==◌, if◌then◌else◌, length, get_or, set, replicate,
}
use soc_fpga_bjtu_hwct.Common.Outcome.{Outcome, ok, failed, fault, assert, ◌>>=◌}
use soc_fpga_bjtu_hwct.Isa.Pattern.{codes}
use soc_fpga_bjtu_hwct.Sdb.Regex.{Regex, byte, range, alt, seq, plus, literal, match_length}

abbrev pub tk_notype : ℕ
tk_notype = 256

abbrev pub tk_eq : ℕ
tk_eq = 257

abbrev pub tk_regs_name : ℕ
tk_regs_name = 258

abbrev pub tk_sub : ℕ
tk_sub = 259

abbrev pub tk_mul : ℕ
tk_mul = 260

abbrev pub tk_lparen : ℕ
tk_lparen = 261

abbrev pub tk_rparen : ℕ
tk_rparen = 262

abbrev pub tk_div : ℕ
tk_div = 263

abbrev pub tk_number : ℕ
tk_number = 264

abbrev pub tk_hex : ℕ
tk_hex = 265

abbrev pub tk_add : ℕ
tk_add = 266

abbrev pub tk_deref : ℕ
tk_deref = 267

abbrev pub tk_minus : ℕ
tk_minus = 268

abbrev pub tk_eqorlgt : ℕ
tk_eqorlgt = 269

abbrev pub tk_eqorlst : ℕ
tk_eqorlst = 270

abbrev pub tk_lgand : ℕ
tk_lgand = 271

abbrev pub tk_lgor : ℕ
tk_lgor = 272

abbrev pub tk_lgxor : ℕ
tk_lgxor = 273

abbrev pub tk_neq : ℕ
tk_neq = 274

abbrev digit : Regex
digit = range b'0' b'9'

abbrev any_of : Regex → List Regex → Regex
any_of r [] = r
any_of r (s ∷ rest) = alt r (any_of s rest)

-- `(\$0|ra|sp|gp|tp|pc|t[0-9]|t[0-9]|s[0-9]|s[1][0-1]|a[0-7])`
unfoldable register_name : Regex
unfolding literal
register_name = any_of (literal (codes "$0")) (
    literal (codes "ra")
    ∷ literal (codes "sp")
    ∷ literal (codes "gp")
    ∷ literal (codes "tp")
    ∷ literal (codes "pc")
    ∷ seq (byte b't') digit
    ∷ seq (byte b't') digit
    ∷ seq (byte b's') digit
    ∷ seq (byte b's') (seq (byte b'1') (range b'0' b'1'))
    ∷ seq (byte b'a') (range b'0' b'7')
    ∷ [])

-- `0[xX][0-9a-fA-F]+`
unfoldable hex_number : Regex
hex_number =
    seq (byte b'0') (
      seq (alt (byte b'x') (byte b'X'))
        (plus (alt digit (alt (range b'a' b'f') (range b'A' b'F')))))

pub record Rule : Type 0 where
  pub regex : Regex
  pub token_type : ℕ

abbrev rule : Regex → ℕ → Rule
rule r t = record { regex = r; token_type = t }

unfoldable pub rules : List Rule
unfolding literal register_name hex_number
rules =
    rule (literal (codes "!=")) tk_neq
    ∷ rule (literal (codes "||")) tk_lgor
    ∷ rule (literal (codes "&&")) tk_lgand
    ∷ rule (literal (codes "^")) tk_lgxor
    ∷ rule (literal (codes ">=")) tk_eqorlgt
    ∷ rule (literal (codes "<=")) tk_eqorlst
    ∷ rule (plus (byte b' ')) tk_notype
    ∷ rule (literal (codes "+")) tk_add
    ∷ rule (literal (codes "==")) tk_eq
    ∷ rule (literal (codes "-")) tk_sub
    ∷ rule (literal (codes "*")) tk_mul
    ∷ rule (literal (codes "/")) tk_div
    ∷ rule (literal (codes "(")) tk_lparen
    ∷ rule (literal (codes ")")) tk_rparen
    ∷ rule hex_number tk_hex
    ∷ rule (plus digit) tk_number
    ∷ rule register_name tk_regs_name
    ∷ []

abbrev pub tokens_len : ℕ
tokens_len = 64

-- `str` has `tokens_len` bytes.
pub record Token : Type 0 where
  pub type : ℕ
  pub str : List ℕ

abbrev pub zero_token : Token
zero_token = record { type = 0; str = replicate tokens_len 0 }

-- The static array and its counter; they outlive a call.
pub record Tokens : Type 0 where
  pub tokens : List Token
  pub nr_token : ℕ

abbrev pub initial_tokens : Tokens
initial_tokens = record { tokens = replicate tokens_len zero_token; nr_token = 0 }

abbrev pub token_at : Tokens → ℕ → Token
token_at t i = get_or t.tokens i zero_token

-- `memcpy` over the front of an array: what lies behind stays. Past its end it is undefined.
unfoldable pub copy_over : List ℕ → List ℕ → Outcome (List ℕ)
copy_over [] old = ok old
copy_over (c ∷ cs) [] = fault
copy_over (c ∷ cs) (d ∷ ds) = copy_over cs ds >>= (λ rest. ok (c ∷ rest))

unfoldable pub take : ℕ → List ℕ → List ℕ
take zero s = []
take (suc n) [] = []
take (suc n) (c ∷ cs) = c ∷ take n cs

unfoldable pub drop : ℕ → List ℕ → List ℕ
drop zero s = s
drop (suc n) [] = []
drop (suc n) (c ∷ cs) = drop n cs

-- The array with the new token.
abbrev pub with_token : Token → Tokens → Tokens
with_token k t = record { tokens = set t.tokens t.nr_token k; nr_token = t.nr_token + 1 }

unfoldable pub match_success : List ℕ → ℕ → Tokens → Outcome Tokens
unfolding copy_over
match_success lexeme token_type t = do
  str ← copy_over lexeme (token_at t t.nr_token).str
  ok (with_token (record { type = token_type; str = str }) t)

-- The first rule that matches at the start of the text, with the length of its match.
unfoldable pub first_rule : List Rule → List ℕ → Option (ℕ × Rule)
unfolding match_length
first_rule [] text = none
first_rule (r ∷ rest) text = elim (match_length r.regex text) [
  | some n ↦ some (n, r)
  | none ↦ first_rule rest text
]

-- The types that the `switch` stores.
unfoldable pub is_stored : ℕ → Bool
is_stored t =
    t == tk_number
    || t == tk_add
    || t == tk_sub
    || t == tk_div
    || t == tk_mul
    || t == tk_lparen
    || t == tk_rparen
    || t == tk_regs_name
    || t == tk_hex
    || t == tk_lgand
    || t == tk_lgor
    || t == tk_lgxor
    || t == tk_eq
    || t == tk_eqorlgt
    || t == tk_eqorlst
    || t == tk_neq

-- The `switch` on the type of a match.
unfoldable pub store_match : ℕ → List ℕ → Tokens → Outcome Tokens
unfolding match_success is_stored
store_match token_type lexeme t =
    if is_stored token_type
    then match_success lexeme token_type t
    else if token_type == tk_notype
    then ok t
    else failed

-- What is done about a match: the assertions, and the `switch`.
unfoldable pub record_match : ℕ → Rule → List ℕ → Tokens → Outcome Tokens
unfolding store_match take
record_match len r text t = do
  _ ← assert (ltb len tokens_len)
  _ ← assert (ltb t.nr_token tokens_len)
  store_match r.token_type (take len text) t

-- The loop on the text that is left; the fuel runs out only if a rule matches the empty text.
unfoldable pub make_tokens : ℕ → List ℕ → Tokens → Outcome (Bool × Tokens)
unfolding first_rule record_match drop
make_tokens fuel [] t = ok (true, t)
make_tokens zero (c ∷ cs) t = fault
make_tokens (suc fuel) (c ∷ cs) t = elim (first_rule rules (c ∷ cs)) [
  | some (len, r) ↦ record_match len r (c ∷ cs) t >>= make_tokens fuel (drop len (c ∷ cs))
  | none ↦ ok (false, t)
]

unfoldable pub make_token : List ℕ → Tokens → Outcome (Bool × Tokens)
unfolding make_tokens
make_token e t = make_tokens (length e) e (record t { nr_token = 0 })
