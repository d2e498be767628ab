-- ===== src/Device/Keyboard/Fifo.antt =====
-- The ring buffer of nemu/src/device/keyboard.c is a queue of at most 1023 keys.
use soc_fpga_bjtu_hwct.Common.{
  ℕ, zero, suc, ◌+◌, ◌-◌, ◌%◌, ◌<◌, ◌≡◌, ◌≢◌, ◌∙◌, sym, ap, arith, true, false, List, [], ◌∷◌, ◌++◌,
  length, length-set, get_or, set, get_or-set_self, get_or-set_ne, ◌==◌, ltb, Bool-cases, inl, inr,
  ◌⊎◌, ==_iff, ne→==_false, ltb→lt,
}
use mathlib.Core.Path.{subst}
use soc_fpga_bjtu_hwct.Common.Outcome.{ok, failed}
use soc_fpga_bjtu_hwct.Device.Keyboard.{Keys, key_queue_len, key_none, key_enqueue, key_dequeue}

pub record IsKeys (k : Keys) : Type 0 where
  pub size : length k.key_queue ≡ key_queue_len
  pub front : k.key_f < key_queue_len
  pub rear : k.key_r < key_queue_len

-- The number of keys that wait.
abbrev pub waiting : Keys → ℕ
waiting k = (k.key_r + key_queue_len - k.key_f) % key_queue_len

-- `n` elements of the ring, from `f` on.
unfoldable pub ring : ℕ → ℕ → List ℕ → List ℕ
ring zero f queue = []
ring (suc n) f queue = get_or queue f 0 ∷ ring n ((f + 1) % key_queue_len) queue

-- The keys that wait, the oldest first.
unfoldable pub contents : Keys → List ℕ
contents k = ring (waiting k) k.key_f k.key_queue

ring-set :
    (n f : ℕ) (queue : List ℕ) (v : ℕ)
    → length queue ≡ key_queue_len
    → f < key_queue_len
    → n < key_queue_len
    → ring (suc n) f (set queue ((f + n) % key_queue_len) v) ≡ ring n f queue ++ (v ∷ [])
unfolding ring
ring-set zero f queue v size hf hn =
    let here : (f + 0) % key_queue_len ≡ f = omega arith in
    ap (λ x. x ∷ [])
      (ap (λ j. get_or (set queue j v) f 0) here ∙ get_or-set_self queue f v 0 (rw size hf))
ring-set (suc n) f queue v size hf hn =
    let g = (f + 1) % key_queue_len in
    let at : (f + suc n) % key_queue_len ≡ (g + n) % key_queue_len = omega arith in
    let apart : (f + suc n) % key_queue_len ≢ f = λ e. omega (arith, e) in
    ap (λ x. x ∷ ring (suc n) g (set queue ((f + suc n) % key_queue_len) v))
      (get_or-set_ne queue ((f + suc n) % key_queue_len) f v 0 apart)
    ∙ ap (λ j. get_or queue f 0 ∷ ring (suc n) g (set queue j v)) at
    ∙ ap (λ l. get_or queue f 0 ∷ l) (ring-set n g queue v size (omega arith) (omega arith))

-- What `key_enqueue` does to the queue: with 1023 keys waiting its assertion fails, otherwise the key
-- is the last.
abbrev pub Enqueues : ℕ → Keys → Type 0
Enqueues key k =
    ((waiting k ≡ 1023) × (key_enqueue key k ≡ failed))
    ⊎ ((waiting k < 1023)
        × ((k' : Keys) × (key_enqueue key k ≡ ok k')
            × IsKeys k'
            × (contents k' ≡ contents k ++ (key ∷ []))))

-- What `key_dequeue` does: with no key waiting it answers 0 and changes nothing, otherwise it takes
-- the first.
abbrev pub Dequeues : Keys → Type 0
Dequeues k =
    ((contents k ≡ []) × (key_dequeue k ≡ (key_none, k)))
    ⊎ (IsKeys (key_dequeue k).1 × (contents k ≡ (key_dequeue k).0 ∷ contents (key_dequeue k).1))

key_enqueue_full : (key : ℕ) (k : Keys) → IsKeys k → waiting k ≡ 1023 → key_enqueue key k ≡ failed
unfolding key_enqueue
key_enqueue_full key k v full =
    let meets : ((k.key_r + 1) % key_queue_len == k.key_f) ≡ true =
      (==_iff _ _).1 (omega (arith, v.front, v.rear, full)) in
    rw meets

key_enqueue_room :
    (key : ℕ) (k : Keys)
    → IsKeys k
    → waiting k < 1023
    → key_enqueue key k
      ≡ ok (record k {
        key_queue = set k.key_queue k.key_r key;
        key_r = (k.key_r + 1) % key_queue_len;
      })
unfolding key_enqueue
key_enqueue_room key k v room =
    let apart : (k.key_r + 1) % key_queue_len ≢ k.key_f =
      λ e. omega (arith, v.front, v.rear, room, e) in
    rw (ne→==_false _ _ apart)

key_enqueue-contents :
    (key : ℕ) (k : Keys)
    → IsKeys k
    → waiting k < 1023
    → contents (record k {
      key_queue = set k.key_queue k.key_r key;
      key_r = (k.key_r + 1) % key_queue_len;
    })
      ≡ contents k ++ (key ∷ [])
unfolding contents
key_enqueue-contents key k v room =
    let more : ((k.key_r + 1) % key_queue_len + key_queue_len - k.key_f) % key_queue_len
        ≡ suc (waiting k) =
      omega (arith, v.front, v.rear, room) in
    let at : k.key_r ≡ (k.key_f + waiting k) % key_queue_len = omega (arith, v.front, v.rear) in
    ap (λ n. ring n k.key_f (set k.key_queue k.key_r key)) more
    ∙ ap (λ j. ring (suc (waiting k)) k.key_f (set k.key_queue j key)) at
    ∙ ring-set (waiting k) k.key_f k.key_queue key v.size v.front (omega arith)

at_limit_of : (n : ℕ) → ltb n 1023 ≡ false → n < 1024 → n ≡ 1023
at_limit_of n full below = ground arith

enqueues : (key : ℕ) (k : Keys) → IsKeys k → Enqueues key k
enqueues key k v = elim (Bool-cases (ltb (waiting k) 1023)) [
  | inr full ↦
      let at_limit : waiting k ≡ 1023 = at_limit_of (waiting k) full (omega arith) in
      inl (at_limit, key_enqueue_full key k v at_limit)
  | inl room ↦
      let lt : waiting k < 1023 = ltb→lt _ _ room in
      inr (
        lt,
        (
          _,
          key_enqueue_room key k v lt,
          record {
            size = length-set k.key_queue k.key_r key ∙ v.size;
            front = v.front;
            rear = omega arith;
          },
          key_enqueue-contents key k v lt,
        ),
      )
]

key_dequeue_empty : (k : Keys) → (k.key_f == k.key_r) ≡ true → key_dequeue k ≡ (key_none, k)
unfolding key_dequeue
key_dequeue_empty k empty = rw empty

contents_empty : (k : Keys) → IsKeys k → (k.key_f == k.key_r) ≡ true → contents k ≡ []
unfolding contents ring
contents_empty k v empty =
    let same : k.key_f ≡ k.key_r = (==_iff _ _).0 empty in
    let none : waiting k ≡ zero = omega (arith, v.front, v.rear, same) in
    ap (λ n. ring n k.key_f k.key_queue) none

-- What is left when the oldest key is taken.
abbrev rest_of : Keys → Keys
rest_of k = record k { key_f = (k.key_f + 1) % key_queue_len }

key_dequeue_some :
    (k : Keys)
    → (k.key_f == k.key_r) ≡ false
    → key_dequeue k ≡ (get_or k.key_queue k.key_f 0, rest_of k)
unfolding key_dequeue
key_dequeue_some k some_key = rw some_key

==_false→ne : (a b : ℕ) → (a == b) ≡ false → a ≢ b
==_false→ne a b h = ground arith

contents_some :
    (k : Keys)
    → IsKeys k
    → (k.key_f == k.key_r) ≡ false
    → contents k ≡ get_or k.key_queue k.key_f 0 ∷ contents (rest_of k)
unfolding contents ring
contents_some k v some_key =
    let apart : k.key_f ≢ k.key_r = ==_false→ne _ _ some_key in
    let more : waiting k ≡ suc (waiting (rest_of k)) = omega (arith, v.front, v.rear, apart) in
    ap (λ n. ring n k.key_f k.key_queue) more

dequeues : (k : Keys) → IsKeys k → Dequeues k
dequeues k v = elim (Bool-cases (k.key_f == k.key_r)) [
  | inl empty ↦ inl (contents_empty k v empty, key_dequeue_empty k empty)
  | inr some_key ↦
      let kept : IsKeys (rest_of k) = record {
        size = v.size;
        front = omega arith;
        rear = v.rear;
      } in
      inr (
        subst (λ r. IsKeys r.1 × (contents k ≡ r.0 ∷ contents r.1))
          (sym (key_dequeue_some k some_key)) (kept, contents_some k v some_key))
]

-- The ring buffer of a well-formed state is a queue: `key_enqueue` and `key_dequeue` act on the list
-- of the waiting keys as on a queue of at most 1023 elements, and keep the state well-formed.
pub keys-Enqueues-Dequeues : (key : ℕ) (k : Keys) → IsKeys k → Enqueues key k × Dequeues k
keys-Enqueues-Dequeues key k v = (enqueues key k v, dequeues k v)
