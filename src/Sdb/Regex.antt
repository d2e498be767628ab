-- ===== src/Sdb/Regex.antt =====
-- POSIX regular expressions, as regcomp and regexec of the C library give them: the longest match
-- that starts at the first byte. An expression is read by its derivatives.
use soc_fpga_bjtu_hwct.Common.{
  ℕ, suc, ◌<◌, ◌≡◌, arith, Bool, true, false, ◌&&◌, ◌||◌, Option, none, some, List, [], ◌∷◌, leb,
  if◌then◌else◌,
}

pub data Regex : Type 0 where
  nothing : Regex
  empty : Regex
  range : ℕ → ℕ → Regex
  alt : Regex → Regex → Regex
  seq : Regex → Regex → Regex
  star : Regex → Regex

abbrev pub byte : ℕ → Regex
byte c = range c c

-- `r+`
abbrev pub plus : Regex → Regex
plus r = seq r (star r)

-- The bytes of a text, one after the other.
unfoldable pub literal : List ℕ → Regex
literal [] = empty
literal (c ∷ cs) = seq (byte c) (literal cs)

unfoldable pub nullable : Regex → Bool
nullable nothing = false
nullable empty = true
nullable (range lo hi) = false
nullable (alt r s) = nullable r || nullable s
nullable (seq r s) = nullable r && nullable s
nullable (star r) = true

unfoldable pub alternative : Regex → Regex → Regex
alternative nothing s = s
alternative r s = alt r s

unfoldable pub sequence : Regex → Regex → Regex
sequence nothing s = nothing
sequence empty s = s
sequence r s = seq r s

-- What may follow the byte `c`.
unfoldable pub derive : ℕ → Regex → Regex
unfolding alternative sequence nullable
derive c nothing = nothing
derive c empty = nothing
derive c (range lo hi) = if leb lo c && leb c hi then empty else nothing
derive c (alt r s) = alternative (derive c r) (derive c s)
derive c (seq r s) =
    let skipped = alternative (sequence (derive c r) s) (derive c s) in
    if nullable r then skipped else sequence (derive c r) s
derive c (star r) = sequence (derive c r) (star r)

abbrev pub or_here : Bool → Option ℕ → Option ℕ
or_here stops (some n) = some (suc n)
or_here stops none = if stops then some 0 else none

-- The length of the longest match at the start of the text.
unfoldable pub match_length : Regex → List ℕ → Option ℕ
unfolding nullable derive
match_length r [] = if nullable r then some 0 else none
match_length r (c ∷ cs) = or_here (nullable r) (match_length (derive c r) cs)

-- An expression that does not match the empty text matches at least one byte.
pub match_length_pos :
    (r : Regex) (s : List ℕ) {n : ℕ} → nullable r ≡ false → match_length r s ≡ some n → 0 < n
unfolding match_length
match_length_pos r [] proper h = ground arith
match_length_pos r (c ∷ cs) proper h = ground arith
