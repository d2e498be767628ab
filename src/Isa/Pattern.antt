-- ===== src/Isa/Pattern.antt =====
-- The instruction patterns of nemu/include/cpu/decode.h: `pattern_decode` and the test of `INSTPAT`.
pub mod Match
use Prim.Native.Char.{code}
use Prim.Native.String
use Prim.Native.String.{String}
use soc_fpga_bjtu_hwct.Common.{ℕ, zero, suc, ◌+◌, Bool, ◌||◌, List, [], ◌∷◌, bit_and, bit_or}
use soc_fpga_bjtu_hwct.Common.{◌==◌, if◌then◌else◌}
use soc_fpga_bjtu_hwct.Common.Outcome.{Outcome, ok, failed, ◌>>=◌}
use soc_fpga_bjtu_hwct.Common.Word.{◌>>>◌, shl64}

pub record Pattern : Type 0 where
  pub key : ℕ
  pub mask : ℕ
  pub shift : ℕ

abbrev pub start : Pattern
start = record { key = 0; mask = 0; shift = 0 }

-- The bytes of a pattern string, which is ASCII.
abbrev pub codes : String → List ℕ
codes String.[] = []
codes (String.◌∷◌ c s) = code c ∷ codes s

-- The assertion on a character of a pattern.
abbrev pub is_pattern_char : ℕ → Bool
is_pattern_char c = c == b'0' || c == b'1' || c == b'?'

unfoldable pub step : Pattern → ℕ → Pattern
step p c = record {
  key = bit_or (shl64 p.key 1) (if c == b'1' then 1 else 0);
  mask = bit_or (shl64 p.mask 1) (if c == b'?' then 0 else 1);
  shift = if c == b'?' then p.shift + 1 else 0;
}

-- `macro64(0)`: at most 64 characters are looked at, and the end has to be seen among them.
unfoldable pub scan : ℕ → List ℕ → Pattern → Outcome Pattern
scan zero cs p = failed
scan (suc room) [] p = ok p
scan (suc room) (c ∷ cs) p =
    let rest = scan room cs (if c == b' ' then p else step p c) in
    if c == b' ' || is_pattern_char c then rest else failed

unfoldable pub finish : Pattern → Pattern
finish p = record p { key = p.key >>> p.shift; mask = p.mask >>> p.shift }

unfoldable pub pattern_decode : String → Outcome Pattern
unfolding step scan finish
pattern_decode str = do p ← scan 64 (codes str) start; ok (finish p)

-- `(((uint64_t)inst >> shift) & mask) == key`
unfoldable pub matches : Pattern → ℕ → Bool
matches p inst = bit_and (inst >>> p.shift) p.mask == p.key
