-- ===== src/Sdb/Token/Scan.antt =====
-- What the scanner of nemu/src/monitor/sdb/expr.c ensures: it ends, and it keeps to its arrays.
use soc_fpga_bjtu_hwct.Common.{
  ℕ, zero, suc, ◌-◌, ◌≤◌, ◌<◌, ◌≡◌, ◌≢◌, ◌∙◌, refl, arith, Bool, true, false, Option, none, some,
  List, [], ◌∷◌, ◌++◌, ap, ltb, ltb→lt, length, length-set, All, All-set, All-get_or,
  get_or-set_self, if_cases, ◌==◌,
}
use mathlib.Core.Path.{subst, sym}
use soc_fpga_bjtu_hwct.Common.Outcome.{Outcome, ok, failed, fault, assert, ◌>>=◌}
use soc_fpga_bjtu_hwct.Sdb.CString.{c_string}
use soc_fpga_bjtu_hwct.Sdb.Regex.{nullable, match_length, match_length_pos}
use soc_fpga_bjtu_hwct.Sdb.Token.{
  Rule, rules, Token, zero_token, Tokens, tokens_len, token_at, copy_over, take, drop, with_token,
  match_success, first_rule, is_stored, store_match, record_match, make_tokens, make_token,
  tk_notype,
}

-- Every rule matches one byte at least.
abbrev IsProper : Rule → Type 0
IsProper r = nullable r.regex ≡ false

rules-IsProper : All IsProper rules
unfolding rules nullable
rules-IsProper = (
  refl,
  (
    refl,
    (
      refl,
      (
        refl,
        (
          refl,
          (
            refl,
            (
              refl,
              (refl, (refl, (refl, (refl, (refl, (refl, (refl, (refl, (refl, (refl, tt)))))))))),
            ),
          ),
        ),
      ),
    ),
  ),
)

abbrev Positive : Option (ℕ × Rule) → Type 0
Positive none = Unit
Positive (some (n, r)) = 0 < n

first_rule-Positive :
    (rs : List Rule) (text : List ℕ) → All IsProper rs → Positive (first_rule rs text)
unfolding first_rule
first_rule-Positive [] text h = tt
first_rule-Positive (r ∷ rs) text h =
    elim (match_length r.regex text)
        as (λ found.
          ((n : ℕ) → found ≡ some n → 0 < n)
          → Positive (elim found [ some n ↦ some (n, r) | none ↦ first_rule rs text ])) [
            | some n ↦ λ pos. pos n refl
            | none ↦ λ _. first_rule-Positive rs text h.1
          ]
      (λ n. match_length_pos r.regex text h.0)

length-drop : (n : ℕ) (s : List ℕ) → length (drop n s) ≡ length s - n
unfolding drop
length-drop zero s = omega arith
length-drop (suc n) [] = omega arith
length-drop (suc n) (c ∷ cs) = omega (arith, length-drop n cs)

length-take : (n : ℕ) (s : List ℕ) → length (take n s) ≤ n
unfolding take
length-take zero s = omega arith
length-take (suc n) [] = omega arith
length-take (suc n) (c ∷ cs) = omega (arith, length-take n cs)

-- An array after a copy that fits.
unfoldable overwritten : List ℕ → List ℕ → List ℕ
overwritten [] old = old
overwritten (c ∷ cs) [] = []
overwritten (c ∷ cs) (d ∷ ds) = c ∷ overwritten cs ds

copy_over-overwritten :
    (lexeme old : List ℕ)
    → length lexeme ≤ length old
    → copy_over lexeme old ≡ ok (overwritten lexeme old)
unfolding copy_over overwritten
copy_over-overwritten [] old le = refl
copy_over-overwritten (c ∷ cs) [] le = absurd (omega arith)
copy_over-overwritten (c ∷ cs) (d ∷ ds) le = rw (copy_over-overwritten cs ds (omega arith))

length-overwritten : (lexeme old : List ℕ) → length (overwritten lexeme old) ≡ length old
unfolding overwritten
length-overwritten [] old = refl
length-overwritten (c ∷ cs) [] = refl
length-overwritten (c ∷ cs) (d ∷ ds) = ap suc (length-overwritten cs ds)

abbrev pub IsToken : Token → Type 0
IsToken k = length k.str ≡ tokens_len

-- The arrays have their sizes, and the counter stays inside of them.
pub record IsTokens (t : Tokens) : Type 0 where
  pub size : length t.tokens ≡ tokens_len
  pub texts : All IsToken t.tokens
  pub within : t.nr_token ≤ tokens_len

-- The scanner ends: by an assertion of the code, or with its arrays well-formed.
abbrev pub Scans : Outcome (Bool × Tokens) → Type 0
Scans (ok r) = IsTokens r.1
Scans failed = Unit
Scans fault = ⊥

abbrev Kept : Outcome Tokens → Type 0
Kept (ok t) = IsTokens t
Kept failed = Unit
Kept fault = ⊥

text_at-IsToken : (t : Tokens) → IsTokens t → length (token_at t t.nr_token).str ≡ tokens_len
text_at-IsToken t v = All-get_or IsToken t.tokens t.nr_token zero_token v.texts refl

-- A lexeme that fits is stored.
match_success-with_token :
    (lexeme : List ℕ) (token_type : ℕ) (t : Tokens)
    → length lexeme < tokens_len
    → IsTokens t
    → match_success lexeme token_type t
      ≡ ok (
          with_token
            (record { type = token_type; str = overwritten lexeme (token_at t t.nr_token).str })
            t)
unfolding match_success
match_success-with_token lexeme token_type t short v =
    ap (λ m. m >>= (λ str. ok (with_token (record { type = token_type; str = str }) t)))
      (copy_over-overwritten lexeme _ (rw (text_at-IsToken t v) (omega arith)))

with_token-IsTokens :
    (k : Token) (t : Tokens)
    → t.nr_token < tokens_len
    → IsToken k
    → IsTokens t
    → IsTokens (with_token k t)
with_token-IsTokens k t room fits v = record {
  size = length-set t.tokens t.nr_token k ∙ v.size;
  texts = All-set IsToken t.tokens t.nr_token k v.texts fits;
  within = omega arith;
}

match_success-Kept :
    (lexeme : List ℕ) (token_type : ℕ) (t : Tokens)
    → length lexeme < tokens_len
    → t.nr_token < tokens_len
    → IsTokens t
    → Kept (match_success lexeme token_type t)
match_success-Kept lexeme token_type t short room v =
    subst Kept (sym (match_success-with_token lexeme token_type t short v))
      (with_token-IsTokens _ t room (length-overwritten lexeme _ ∙ text_at-IsToken t v) v)

store_match-Kept :
    (token_type : ℕ) (lexeme : List ℕ) (t : Tokens)
    → length lexeme < tokens_len
    → t.nr_token < tokens_len
    → IsTokens t
    → Kept (store_match token_type lexeme t)
unfolding store_match
store_match-Kept token_type lexeme t short room v =
    if_cases Kept (is_stored token_type) (λ _. match_success-Kept lexeme token_type t short room v)
      (λ _. if_cases Kept (token_type == tk_notype) (λ _. v) (λ _. tt))

assert-Kept : (b : Bool) (m : Outcome Tokens) → (b ≡ true → Kept m) → Kept (assert b >>= (λ _. m))
assert-Kept true m h = h refl
assert-Kept false m h = tt

record_match-Kept :
    (len : ℕ) (r : Rule) (text : List ℕ) (t : Tokens)
    → IsTokens t
    → Kept (record_match len r text t)
unfolding record_match
record_match-Kept len r text t v = assert-Kept (ltb len tokens_len) _ (λ short.
    assert-Kept (ltb t.nr_token tokens_len) _ (λ room.
      store_match-Kept r.token_type (take len text) t
        (omega (arith, length-take len text, ltb→lt len tokens_len short)) (ltb→lt _ _ room) v))

Scans-bind :
    (m : Outcome Tokens) (f : Tokens → Outcome (Bool × Tokens))
    → Kept m
    → ((t : Tokens) → IsTokens t → Scans (f t))
    → Scans (m >>= f)
Scans-bind (ok t) f h k = k t h
Scans-bind failed f h k = tt
Scans-bind fault f h k = h

make_tokens-Scans :
    (fuel : ℕ) (text : List ℕ) (t : Tokens)
    → length text ≤ fuel
    → IsTokens t
    → Scans (make_tokens fuel text t)
unfolding make_tokens
make_tokens-Scans fuel [] t h v = v
make_tokens-Scans zero (c ∷ cs) t h v = absurd (omega arith)
make_tokens-Scans (suc fuel) (c ∷ cs) t h v =
    let positive : Positive (first_rule rules (c ∷ cs)) =
      first_rule-Positive rules (c ∷ cs) rules-IsProper in
    elim (first_rule rules (c ∷ cs))
        as (λ found.
          Positive found
          → Scans (elim found [
            | some (len, r) ↦ record_match len r (c ∷ cs) t >>= make_tokens fuel (drop len (c ∷ cs))
            | none ↦ ok (false, t)
          ])) [
            | none ↦ λ _. v
            | some (len, r) ↦ λ long.
                Scans-bind (record_match len r (c ∷ cs) t) _ (record_match-Kept len r (c ∷ cs) t v)
                  (λ t' v'.
                    make_tokens-Scans fuel (drop len (c ∷ cs)) t'
                      (omega (arith, length-drop len (c ∷ cs))) v')
          ]
      positive

-- `make_token` ends on every text, by one of its assertions or with a result; it copies no text past
-- the end of a token's 64 bytes, and leaves at most 64 tokens in the array of 64.
pub make_token-Scans : (e : List ℕ) (t : Tokens) → IsTokens t → Scans (make_token e t)
unfolding make_token
make_token-Scans e t v =
    make_tokens-Scans (length e) e _ (omega arith)
      (record { size = v.size; texts = v.texts; within = omega arith })

abbrev pub HasNoZero : List ℕ → Type 0
HasNoZero s = All (λ c. c ≢ 0) s

c_string-overwritten :
    (lexeme old : List ℕ)
    → HasNoZero lexeme
    → length lexeme ≤ length old
    → c_string (overwritten lexeme old) ≡ lexeme ++ c_string (drop (length lexeme) old)
unfolding overwritten c_string drop
c_string-overwritten [] old h le = refl
c_string-overwritten (c ∷ cs) [] h le = absurd (omega arith)
c_string-overwritten (c ∷ cs) (d ∷ ds) h le = ground (arith, h.0, c_string-overwritten cs ds h.1)

-- `match_success` writes no final zero: the text that the new token is read by is the lexeme,
-- followed by what an earlier expression has left behind it in the array.
pub match_success-str :
    (lexeme : List ℕ) (token_type : ℕ) (t : Tokens)
    → IsTokens t
    → t.nr_token < tokens_len
    → HasNoZero lexeme
    → length lexeme < tokens_len
    → (t' : Tokens) × (match_success lexeme token_type t ≡ ok t')
      × (c_string (token_at t' t.nr_token).str
          ≡ lexeme ++ c_string (drop (length lexeme) (token_at t t.nr_token).str))
match_success-str lexeme token_type t v room text short = (
  _,
  match_success-with_token lexeme token_type t short v,
  rw
      (get_or-set_self t.tokens t.nr_token
        (record { type = token_type; str = overwritten lexeme (token_at t t.nr_token).str })
        zero_token (rw v.size room))
      (c_string-overwritten lexeme _ text (rw (text_at-IsToken t v) (omega arith))),
)
