-- ===== src/Sdb/CString.antt =====
-- The functions of the C library on strings that the debugger calls: strcmp, strlen, atoi, strtol.
-- A string is the list of its bytes; in an array it ends at the first zero.
use soc_fpga_bjtu_hwct.Common.{
  ℕ, ◌+◌, ◌-◌, ◌*◌, ◌%◌, ◌^◌, Bool, true, false, ◌&&◌, ◌||◌, List, [], ◌∷◌, ltb, leb, ◌==◌,
  if◌then◌else◌,
}
use soc_fpga_bjtu_hwct.Common.Int.{ℤ, pos, signed32}

-- The string that an array of bytes holds.
unfoldable pub c_string : List ℕ → List ℕ
c_string [] = []
c_string (c ∷ cs) = let rest = c ∷ c_string cs in if c == 0 then [] else rest

-- `strcmp(a, b) == 0` for strings without zeros.
unfoldable pub str_eq : List ℕ → List ℕ → Bool
str_eq [] [] = true
str_eq [] (d ∷ ds) = false
str_eq (c ∷ cs) [] = false
str_eq (c ∷ cs) (d ∷ ds) = (c == d) && str_eq cs ds

abbrev pub is_space : ℕ → Bool
is_space c = c == 32 || leb 9 c && leb c 13

unfoldable pub skip_spaces : List ℕ → List ℕ
skip_spaces [] = []
skip_spaces (c ∷ cs) = let rest = skip_spaces cs in if is_space c then rest else c ∷ cs

-- The value of a digit or a letter, 36 for any other byte.
unfoldable pub digit_value : ℕ → ℕ
digit_value c =
    if leb b'0' c && leb c b'9'
    then c - b'0'
    else if leb b'a' c && leb c b'z'
    then c - b'a' + 10
    else if leb b'A' c && leb c b'Z'
    then c - b'A' + 10
    else 36

-- The digits in front, read from the value `n` on.
unfoldable pub read_digits : ℕ → ℕ → List ℕ → ℕ
unfolding digit_value
read_digits base n [] = n
read_digits base n (c ∷ cs) =
    let rest = read_digits base (n * base + digit_value c) cs in
    if ltb (digit_value c) base then rest else n

-- `(int)strtol(...)` for a magnitude: `long` has 64 bits and saturates, the cast keeps 32 bits.
unfoldable pub int_of_long : Bool → ℕ → ℤ
int_of_long false n = signed32 ((if ltb n (2 ^ 63) then n else 2 ^ 63 - 1) % 2 ^ 32)
int_of_long true n = signed32 ((2 ^ 64 - (if ltb n (2 ^ 63) then n else 2 ^ 63)) % 2 ^ 32)

-- With base 0 the prefix of the digits says which base they have.
unfoldable pub read_base_0 : List ℕ → ℕ
unfolding read_digits digit_value
read_base_0 [] = 0
read_base_0 (c ∷ []) = read_digits 10 0 (c ∷ [])
read_base_0 (c ∷ x ∷ []) =
    if c == b'0' then read_digits 8 0 (x ∷ []) else read_digits 10 0 (c ∷ x ∷ [])
read_base_0 (c ∷ x ∷ d ∷ ds) =
    if c == b'0'
    then (if (x == b'x' || x == b'X') && ltb (digit_value d) 16
        then read_digits 16 0 (d ∷ ds)
        else read_digits 8 0 (x ∷ d ∷ ds))
    else read_digits 10 0 (c ∷ x ∷ d ∷ ds)

-- The sign in front of the digits.
unfoldable pub with_sign : (List ℕ → ℕ) → List ℕ → ℤ
unfolding int_of_long
with_sign magnitude [] = pos 0
with_sign magnitude (c ∷ cs) =
    if c == b'-'
    then int_of_long true (magnitude cs)
    else if c == b'+'
    then int_of_long false (magnitude cs)
    else int_of_long false (magnitude (c ∷ cs))

unfoldable pub atoi : List ℕ → ℤ
unfolding read_digits skip_spaces with_sign
atoi s = with_sign (read_digits 10 0) (skip_spaces s)

-- `(int)strtol(s, &endptr, 0)`
unfoldable pub strtol_0 : List ℕ → ℤ
unfolding read_base_0 skip_spaces with_sign
strtol_0 s = with_sign read_base_0 (skip_spaces s)
