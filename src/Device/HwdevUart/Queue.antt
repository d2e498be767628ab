-- ===== src/Device/HwdevUart/Queue.antt =====
-- The receiver of nemu/src/device/hwdev_uart.c is a queue: no character is lost or reordered.
use soc_fpga_bjtu_hwct.Common.{
  ℕ, ◌+◌, ◌%◌, ◌^◌, ◌≡◌, refl, ap, sym, ◌∙◌, ◌<◌, ◌≤◌, length, arith, Bool, true, false, List, [],
  ◌∷◌, ◌++◌, Option, none, some, if◌then◌else◌, ◌==◌, bit_and, ◌&&◌, if_both, if_cases, append_nil,
  Bool-cases, inl, inr, ◌*◌, ◌/◌,
}
use soc_fpga_bjtu_hwct.Common.Outcome.{Outcome, ok, assert-bind, >>=-eq-ok}
use soc_fpga_bjtu_hwct.Common.Word.{not32}
use soc_fpga_bjtu_hwct.Memory.Host.Access.{stored, store_bytes-stored, load_bytes-stored}
use soc_fpga_bjtu_hwct.Device.HwdevTimer.{get_word}
use soc_fpga_bjtu_hwct.Device.HwdevUart.{
  HwUart, Terminal, receive, try_read_keyboard, hwdev_uart_update, hwdev_uart_io_handler,
  handle_read, handle_write, read_register, write_register, put_register,
}

ok-injective {ℓ} : {A : Type ℓ} {a b : A} → ok a ≡ ok b → a ≡ b
ok-injective e = cc

-- The characters of the input, in order, as bytes.
unfoldable pub typed : List (Option ℕ) → List ℕ
typed [] = []
typed (none ∷ input) = typed input
typed (some ch ∷ input) = (ch % 2 ^ 8) ∷ typed input

-- What the guest has yet to receive: the character in the buffer, then what is not read yet.
unfoldable pub to_receive : Terminal → List ℕ
unfolding typed
to_receive t = if t.uart.has_data then t.uart.rxd ∷ typed t.input else typed t.input

abbrev Unchanged : Terminal → Terminal → Type 0
Unchanged t t' =
    (to_receive t' ≡ to_receive t) × (t'.output ≡ t.output) × (t'.uart.baud ≡ t.uart.baud)

fill-to_receive :
    (u : HwUart) (input : List (Option ℕ)) (output : List ℕ)
    → u.has_data ≡ false
    → Unchanged
        (record { uart = u; input = input; output = output })
        (record {
          uart = receive ((try_read_keyboard input).0) u;
          input = (try_read_keyboard input).1;
          output = output;
        })
unfolding try_read_keyboard receive to_receive
fill-to_receive u [] output h = (refl, refl, refl)
fill-to_receive u (none ∷ input) output h = (rw h refl, refl, refl)
fill-to_receive u (some ch ∷ input) output h = (rw h refl, refl, refl)

-- An update moves a character from the terminal to the buffer at most: what the guest has yet to
-- receive stays, and so do the output and the baud rate.
pub hwdev_uart_update-to_receive :
    (t : Terminal)
    → (to_receive (hwdev_uart_update t) ≡ to_receive t)
      × ((hwdev_uart_update t).output ≡ t.output)
      × ((hwdev_uart_update t).uart.baud ≡ t.uart.baud)
unfolding hwdev_uart_update
hwdev_uart_update-to_receive t =
    if_both (Unchanged t) (bit_and t.uart.cr 2 == 0) (refl, refl, refl)
      (if_cases (Unchanged t) t.uart.has_data (λ _. (refl, refl, refl))
        (fill-to_receive t.uart t.input t.output))

-- The characters that an access hands to the guest, and the one that a write of `v` sends.
unfoldable pub delivered : ℕ → Terminal → List ℕ
delivered offset t =
    if offset == 0x0c then (if t.uart.has_data then t.uart.rxd ∷ [] else []) else []

unfoldable pub sent : ℕ → ℕ → Terminal → List ℕ
sent offset v t = if offset == 0x10 && bit_and t.uart.cr 1 == 1 then bit_and v 0xff ∷ [] else []

-- The word in the register's place after an access: a read of SR, BAUD or RXD puts the register's
-- value there, RXD being 0 with no character; a write of BAUD puts the baud rate back.
unfoldable pub left_in_place : Bool → ℕ → Terminal → Outcome ℕ → Outcome ℕ
left_in_place true offset t before = if offset == 0x08 then ok (t.uart.baud % 2 ^ 32) else before
left_in_place false offset t before =
    if offset == 0x04
    then ok (t.uart.sr % 2 ^ 32)
    else if offset == 0x08
    then ok (t.uart.baud % 2 ^ 32)
    else if offset == 0x0c
    then ok ((if t.uart.has_data then t.uart.rxd else 0) % 2 ^ 32)
    else before

unfoldable placed : Option ℕ → Outcome ℕ → Outcome ℕ
placed none before = before
placed (some v) before = ok (v % 2 ^ 32)

put_register-placed :
    (base offset : ℕ) (o : Option ℕ) (space : List ℕ) {space' : List ℕ}
    → base + 20 ≤ length space
    → offset < 20
    → put_register base offset o space ≡ ok space'
    → get_word base offset space' ≡ placed o (get_word base offset space)
unfolding put_register placed
put_register-placed base offset none space inside small e =
    ap (get_word base offset) (sym (ok-injective e))
put_register-placed base offset (some v) space inside small e =
    let at = base + offset / 4 * 4 in
    let fit : at + 4 ≤ length space = omega arith in
    ap (get_word base offset) (sym (ok-injective (sym (store_bytes-stored space at 4 v fit) ∙ e)))
    ∙ load_bytes-stored space at 4 v fit

read_register-placed :
    (offset : ℕ) (t : Terminal) (before : Outcome ℕ) {v : Option ℕ} {t' : Terminal}
    → read_register offset t ≡ ok (v, t')
    → (offset < 20) × (placed v before ≡ left_in_place false offset t before)
unfolding read_register placed left_in_place
read_register-placed offset t before {v = none} e = ground arith
read_register-placed offset t before {v = some x} e = ground arith

write_register_small :
    (offset v : ℕ) (t : Terminal) {t' : Terminal} → write_register offset v t ≡ ok t' → offset < 20
unfolding write_register
write_register_small offset v t e = ground arith

baud-placed :
    (offset : ℕ) (t : Terminal) (before : Outcome ℕ)
    → placed (if offset == 0x08 then some t.uart.baud else none) before
      ≡ left_in_place true offset t before
unfolding placed left_in_place
baud-placed offset t before = elim (Bool-cases (offset == 0x08)) [
  | inl hit ↦ rw hit
  | inr miss ↦ rw miss
]

read_register-queue :
    (offset : ℕ) (t : Terminal) {v : Option ℕ} {t' : Terminal}
    → read_register offset t ≡ ok (v, t')
    → (to_receive t ≡ delivered offset t ++ to_receive t') × (t'.output ≡ t.output)
unfolding read_register delivered to_receive
read_register-queue offset t e = ground arith

write_register-queue :
    (offset v : ℕ) (t : Terminal) {t' : Terminal}
    → write_register offset v t ≡ ok t'
    → (to_receive t ≡ to_receive t') × (t'.output ≡ t.output ++ sent offset v t)
unfolding write_register sent to_receive
write_register-queue offset v t e = ground (arith, append_nil t.output)

-- An access that succeeds: a read of RXD takes the character in the buffer, if there is one, off
-- the front of what the guest has yet to receive and leaves it in the register's place for the
-- guest; every other access takes nothing, and leaves the status, the baud rate or the word that was
-- there; a write of TXD with the transmitter enabled appends the low byte of the word to the output, every other
-- access leaves the output as it is.
pub hwdev_uart_io_handler-queue :
    (base offset len : ℕ) (is_write : Bool) (t : Terminal) (space : List ℕ) (t' : Terminal)
    (space' : List ℕ)
    → base + 20 ≤ length space
    → hwdev_uart_io_handler base offset len is_write t space ≡ ok (t', space')
    → (to_receive t ≡ (if is_write then [] else delivered offset t) ++ to_receive t')
      × (get_word base offset space' ≡ left_in_place is_write offset t (get_word base offset space))
      × ((v : ℕ)
          → get_word base offset space ≡ ok v
          → t'.output ≡ t.output ++ (if is_write then sent offset v t else []))
unfolding hwdev_uart_io_handler handle_write handle_read
hwdev_uart_io_handler-queue base offset len true t space t' space' inside e =
    let (_, e1) = assert-bind (len == 4) (handle_write base offset t space) e in
    let (w, got, e2) = >>=-eq-ok (get_word base offset space) _ e1 in
    let (t1, wrote, e3) = >>=-eq-ok (write_register offset w t) _ e2 in
    let (s1, put, e4) =
      >>=-eq-ok (put_register base offset (if offset == 0x08 then some t.uart.baud else none) space)
        (λ s. ok (t1, s)) e3 in
    let (kept, out) = write_register-queue offset w t wrote in
    let same : t1 ≡ t' = cc e4 in
    let there : s1 ≡ space' = cc e4 in
    (
      kept ∙ ap to_receive same,
      ap (get_word base offset) (sym there)
          ∙ put_register-placed base offset _ space inside (write_register_small offset w t wrote)
              put
          ∙ baud-placed offset t (get_word base offset space),
      λ v has.
          sym (ap Terminal.output same)
          ∙ out
          ∙ ap (λ x. t.output ++ sent offset x t) (cc (got, has)),
    )
hwdev_uart_io_handler-queue base offset len false t space t' space' inside e =
    let (_, e1) = assert-bind (len == 4) (handle_read base offset t space) e in
    let (r, read, e2) = >>=-eq-ok (read_register offset t) _ e1 in
    let (s1, put, e3) = >>=-eq-ok (put_register base offset (r.0) space) (λ s. ok (r.1, s)) e2 in
    let (front, out) = read_register-queue offset t read in
    let same : r.1 ≡ t' = cc e3 in
    let there : s1 ≡ space' = cc e3 in
    let (small, word) = read_register-placed offset t (get_word base offset space) read in
    (
      front ∙ ap (λ x. delivered offset t ++ to_receive x) same,
      ap (get_word base offset) (sym there)
          ∙ put_register-placed base offset (r.0) space inside small put
          ∙ word,
      λ v has. sym (ap Terminal.output same) ∙ out ∙ sym (append_nil t.output),
    )

read_rxd_full :
    (t : Terminal)
    → t.uart.has_data ≡ true
    → read_register 0x0c t
      ≡ ok (
        some t.uart.rxd,
        record t { uart = record (t.uart) { sr = bit_and t.uart.sr (not32 2); has_data = false } },
      )
unfolding read_register
read_rxd_full t full = ground (arith, full)

-- With a character in the buffer and registers inside of device memory, the guest's read of RXD
-- succeeds, leaves that character in the register's place, clears the flag of the receiver, frees
-- the buffer, and takes the character off the front of what is to be received.
pub hwdev_uart_read_rxd :
    (base : ℕ) (t : Terminal) (space : List ℕ)
    → base + 20 ≤ length space
    → t.uart.has_data ≡ true
    → t.uart.rxd < 2 ^ 32
    → (t' : Terminal) × (space' : List ℕ) × (hwdev_uart_io_handler base 0x0c 4 false t space
        ≡ ok (t', space'))
      × (get_word base 0x0c space' ≡ ok t.uart.rxd)
      × (to_receive t ≡ t.uart.rxd ∷ to_receive t')
      × (t'.uart.has_data ≡ false)
      × (t'.uart.sr ≡ bit_and t.uart.sr (not32 2))
unfolding hwdev_uart_io_handler handle_read put_register to_receive
hwdev_uart_read_rxd base t space inside full fits =
    let fit : base + 12 + 4 ≤ length space = omega arith in
    let put = store_bytes-stored space (base + 12) 4 t.uart.rxd fit in
    let back = load_bytes-stored space (base + 12) 4 t.uart.rxd fit in
    (
      record t { uart = record (t.uart) { sr = bit_and t.uart.sr (not32 2); has_data = false } },
      stored space (base + 12) 4 t.uart.rxd,
      rw (read_rxd_full t full, put) refl,
      back ∙ ap ok (omega arith),
      rw full refl,
      refl,
      refl,
    )
