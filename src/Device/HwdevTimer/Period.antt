-- ===== src/Device/HwdevTimer/Period.antt =====
-- When the timer of nemu/src/device/hwdev_timer.c raises its interrupt.
use soc_fpga_bjtu_hwct.Common.{
  ℕ, zero, suc, ◌+◌, ◌-◌, ◌*◌, ◌^◌, ◌<◌, ◌≤◌, ◌≡◌, refl, ap, ◌∙◌, arith, true, ltb, bit_or,
  Bool-cases, inl, inr,
}
use native.Mathlib.Nat.{suc-mul}
use soc_fpga_bjtu_hwct.Common.Word.{u32}
use soc_fpga_bjtu_hwct.Device.Intr.{IntrLine, dev_raise_intr}
use soc_fpga_bjtu_hwct.Device.HwdevTimer.{HwTimer, is_enabled, hwdev_timer_update}

-- An enabled timer whose prescaler has not run over; with a prescaler of 2^32 - 1 it never would.
pub record IsRunning (t : HwTimer) : Type 0 where
  pub enabled : is_enabled t.cr ≡ true
  pub in_period : t.clk_cnt ≤ t.psc
  pub psc_small : t.psc < 2 ^ 32 - 1

-- The updates up to the next interrupt, that one included.
unfoldable pub time_left : HwTimer → ℕ
time_left t = t.count * (t.psc + 1) + (t.psc - t.clk_cnt) + 1

unfoldable pub updates : ℕ → HwTimer → IntrLine → HwTimer × IntrLine
unfolding hwdev_timer_update
updates zero t i = (t, i)
updates (suc n) t i = let (t', i') = hwdev_timer_update t i in updates n t' i'

abbrev pub reloaded : HwTimer → HwTimer
reloaded t = record t { clk_cnt = 0; count = t.load; sr = bit_or t.sr 1 }

pred_mul : (c k : ℕ) → 0 < c → (c - 1) * k + k ≡ c * k
pred_mul zero k h = absurd (omega arith)
pred_mul (suc c) k h = let e : suc c - 1 ≡ c = omega arith in rw (e, suc-mul) refl

update_last :
    (t : HwTimer) (i : IntrLine)
    → IsRunning t
    → time_left t ≡ 1
    → hwdev_timer_update t i ≡ (reloaded t, dev_raise_intr i)
unfolding hwdev_timer_update time_left
update_last t i r e = ground arith

update_before :
    (t : HwTimer) (i : IntrLine)
    → IsRunning t
    → 1 < time_left t
    → (t' : HwTimer) × (hwdev_timer_update t i ≡ (t', i))
      × IsRunning t'
      × (time_left t' + 1 ≡ time_left t)
      × (reloaded t' ≡ reloaded t)
unfolding hwdev_timer_update time_left
update_before t i r h = elim (Bool-cases (ltb t.psc (u32 (t.clk_cnt + 1)))) [
  | inl carry ↦
      let full : t.clk_cnt ≡ t.psc = ground arith in
      let some_left : 0 < t.count = ground arith in
      (
        record t { clk_cnt = 0; count = t.count - 1 },
        ground arith,
        record { enabled = r.enabled; in_period = ground arith; psc_small = r.psc_small },
        omega (arith, pred_mul t.count (t.psc + 1) some_left),
        refl,
      )
  | inr below ↦ (
    record t { clk_cnt = t.clk_cnt + 1 },
    ground arith,
    record { enabled = r.enabled; in_period = ground arith; psc_small = r.psc_small },
    ground arith,
    refl,
  )
]

-- For an enabled timer with a prescaler below 2^32 - 1 and a prescale counter within it: as many
-- updates as `count * (psc + 1) + (psc - clk_cnt)` raise no interrupt, and the next one reloads the
-- counter, sets the flag and raises it. From a full counter this is every
-- `(load + 1) * (psc + 1)` updates.
pub hwdev_timer_update_period :
    (n : ℕ) (t : HwTimer) (i : IntrLine)
    → IsRunning t
    → n + 1 ≡ time_left t
    → (t' : HwTimer) × (updates n t i ≡ (t', i))
      × (hwdev_timer_update t' i ≡ (reloaded t, dev_raise_intr i))
      × IsRunning (reloaded t)
      × (time_left (reloaded t) ≡ (t.load + 1) * (t.psc + 1))
unfolding updates time_left
hwdev_timer_update_period zero t i r e = (
  t,
  refl,
  update_last t i r (omega arith),
  record { enabled = r.enabled; in_period = omega arith; psc_small = r.psc_small },
  omega arith,
)
hwdev_timer_update_period (suc n) t i r e =
    let (t1, step, r1, less, same) = update_before t i r (omega arith) in
    let (t', run, last, r', left) = hwdev_timer_update_period n t1 i r1 (omega arith) in
    (
      t',
      rw step run,
      last ∙ ap (λ u. (u, dev_raise_intr i)) same,
      record { enabled = r.enabled; in_period = omega arith; psc_small = r.psc_small },
      omega arith,
    )
