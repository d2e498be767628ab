-- ===== src/Device/Sdcard/Stream.antt =====
-- The stream of nemu/src/device/sdcard.c: what is written is read back.
use soc_fpga_bjtu_hwct.Common.{
  ℕ, zero, suc, ◌+◌, ◌<◌, ◌≡◌, refl, ap, arith, List, [], ◌∷◌, some, length, get_elem?,
}
use soc_fpga_bjtu_hwct.Common.Word.{IsWord}
use soc_fpga_bjtu_hwct.Device.Sdcard.{
  File, put_byte, put_bytes, get_bytes, word_bytes, bytes_word, fread,
}

put_byte_self : (xs : List ℕ) (p b : ℕ) → get_elem? (put_byte xs p b) p ≡ some b
unfolding put_byte
put_byte_self [] zero b = refl
put_byte_self [] (suc p) b = put_byte_self [] p b
put_byte_self (x ∷ xs) zero b = refl
put_byte_self (x ∷ xs) (suc p) b = put_byte_self xs p b

put_byte_ne :
    (xs : List ℕ) (p q b w : ℕ)
    → get_elem? xs p ≡ some w
    → p < q
    → get_elem? (put_byte xs q b) p ≡ some w
unfolding put_byte
put_byte_ne [] p q b w e lt = cc
put_byte_ne (x ∷ xs) zero zero b w e lt = absurd (omega arith)
put_byte_ne (x ∷ xs) zero (suc q) b w e lt = e
put_byte_ne (x ∷ xs) (suc p) zero b w e lt = absurd (omega arith)
put_byte_ne (x ∷ xs) (suc p) (suc q) b w e lt = put_byte_ne xs p q b w e (omega arith)

put_bytes_before :
    (bs xs : List ℕ) (p q w : ℕ)
    → get_elem? xs p ≡ some w
    → p < q
    → get_elem? (put_bytes xs q bs) p ≡ some w
unfolding put_bytes
put_bytes_before [] xs p q w e lt = e
put_bytes_before (b ∷ bs) xs p q w e lt =
    put_bytes_before bs (put_byte xs q b) p (q + 1) w (put_byte_ne xs p q b w e lt) (omega arith)

-- The file has these bytes from `p` on.
abbrev pub Stored : List ℕ → ℕ → List ℕ → Type 0
Stored xs p [] = Unit
Stored xs p (b ∷ bs) = (get_elem? xs p ≡ some b) × Stored xs (p + 1) bs

pub put_bytes-Stored : (bs xs : List ℕ) (p : ℕ) → Stored (put_bytes xs p bs) p bs
unfolding put_bytes
put_bytes-Stored [] xs p = tt
put_bytes-Stored (b ∷ bs) xs p = (
  put_bytes_before bs (put_byte xs p b) p (p + 1) b (put_byte_self xs p b) (omega arith),
  put_bytes-Stored bs (put_byte xs p b) (p + 1),
)

pub Stored-before :
    (bs xs more : List ℕ) (p q : ℕ)
    → Stored xs p bs
    → p + length bs < q + 1
    → Stored (put_bytes xs q more) p bs
Stored-before [] xs more p q s le = tt
Stored-before (b ∷ bs) xs more p q s le = (
  put_bytes_before more xs p q b s.0 (omega arith),
  Stored-before bs xs more (p + 1) q s.1 (omega arith),
)

pub get_bytes-Stored :
    (bs buffer xs : List ℕ) (p : ℕ)
    → length buffer ≡ length bs
    → Stored xs p bs
    → get_bytes xs p buffer ≡ (bs, p + length bs)
unfolding get_bytes
get_bytes-Stored [] [] xs p e s = ap (λ n. ([], n)) (omega arith)
get_bytes-Stored (b ∷ bs) [] xs p e s = absurd (omega arith)
get_bytes-Stored [] (o ∷ buffer) xs p e s = absurd (omega arith)
get_bytes-Stored (b ∷ bs) (o ∷ buffer) xs p e s =
    let rest = get_bytes-Stored bs buffer xs (p + 1) (omega arith) s.1 in
    let at : p + 1 + length bs ≡ p + suc (length bs) = omega arith in rw (get_bytes, s.0, rest, at)

pub bytes_word-word_bytes : (v : ℕ) → IsWord v → bytes_word (word_bytes v) ≡ v
unfolding bytes_word
bytes_word-word_bytes v h = omega arith

-- A read at a stored word gives it.
pub fread-Stored :
    (v old : ℕ) (f : File)
    → IsWord v
    → Stored f.bytes f.position (word_bytes v)
    → fread old f ≡ (v, record f { position = f.position + 4 })
unfolding fread
fread-Stored v old f h s = rw (
  get_bytes-Stored (word_bytes v) (word_bytes old) f.bytes f.position refl s,
  bytes_word-word_bytes v h,
)

-- The file has these words from `p` on.
abbrev pub StoredWords : List ℕ → ℕ → List ℕ → Type 0
StoredWords xs p [] = Unit
StoredWords xs p (w ∷ ws) = Stored xs p (word_bytes w) × StoredWords xs (p + 4) ws

-- The bytes of a file after words were written from `p` on.
unfoldable pub put_words : List ℕ → ℕ → List ℕ → List ℕ
put_words xs p [] = xs
put_words xs p (w ∷ ws) = put_words (put_bytes xs p (word_bytes w)) (p + 4) ws

put_words-Stored :
    (ws xs bs : List ℕ) (p q : ℕ)
    → Stored xs p bs
    → p + length bs < q + 1
    → Stored (put_words xs q ws) p bs
unfolding put_words
put_words-Stored [] xs bs p q s le = s
put_words-Stored (w ∷ ws) xs bs p q s le =
    put_words-Stored ws (put_bytes xs q (word_bytes w)) bs p (q + 4)
      (Stored-before bs xs (word_bytes w) p q s le) (omega arith)

pub put_words-StoredWords : (ws xs : List ℕ) (p : ℕ) → StoredWords (put_words xs p ws) p ws
unfolding put_words
put_words-StoredWords [] xs p = tt
put_words-StoredWords (w ∷ ws) xs p = (
  put_words-Stored ws (put_bytes xs p (word_bytes w)) (word_bytes w) p (p + 4)
      (put_bytes-Stored (word_bytes w) xs p) (omega arith),
  put_words-StoredWords ws (put_bytes xs p (word_bytes w)) (p + 4),
)
