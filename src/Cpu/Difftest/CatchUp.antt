-- ===== src/Cpu/Difftest/CatchUp.antt =====
-- What `difftest_skip_dut` of nemu/src/cpu/difftest/dut.c promises: the emulator has `nr_dut`
-- instructions to reach the pc of the reference.
use soc_fpga_bjtu_hwct.Common.{
  ℕ, zero, suc, ◌+◌, ◌-◌, ◌<◌, ◌≡◌, ◌≢◌, ◌∙◌, ap, arith, true, false, List, [], ◌∷◌, ◌++◌, All,
  length, ◌==◌, if◌then◌else◌, ne→==_false, ==_iff,
}
use soc_fpga_bjtu_hwct.Common.Outcome.{Outcome, ok, failed, ◌>>=◌}
use soc_fpga_bjtu_hwct.Isa.State.{Cpu, NemuState}
use soc_fpga_bjtu_hwct.Cpu.Difftest.{
  Reference, Difftest, checkregs, catch_up, difftest_step, difftest_skip_dut,
}
use soc_fpga_bjtu_hwct.Cpu.Difftest.Lockstep.{checkregs_same}

not_zero : (n : ℕ) → (suc n == 0) ≡ false
not_zero n = ne→==_false (suc n) 0 (λ e. omega (arith, e))

less_one : (n : ℕ) → suc n - 1 ≡ n
less_one n = omega arith

module _ {R : Type 0} (r : Reference R) where
  -- `difftest_step` after each instruction; the list has the registers after it.
  unfoldable pub followed : ℕ → List Cpu → NemuState → Difftest R → Outcome (NemuState × Difftest R)
  unfolding difftest_step
  followed pc [] n d = ok (n, d)
  followed pc (c ∷ cs) n d = difftest_step r pc c.pc c n d >>= (λ (n', d'). followed c.pc cs n' d')

  abbrev pub with_left : ℕ → Difftest R → Difftest R
  with_left left d = record d { skip_dut_nr_inst = left }

  step-catch_up :
      (left pc npc : ℕ) (c : Cpu) (n : NemuState) (d : Difftest R)
      → difftest_step r pc npc c n (with_left (suc left) d)
        ≡ catch_up r left npc c n (with_left (suc left) d)
  unfolding difftest_step
  step-catch_up left pc npc c n d = rw (not_zero left, less_one left)

  catch_up_behind :
      (left : ℕ) (c : Cpu) (n : NemuState) (d : Difftest R)
      → (r.to_dut d.ref).pc ≢ c.pc
      → catch_up r (suc left) c.pc c n (with_left (suc (suc left)) d)
        ≡ ok (n, with_left (suc left) d)
  unfolding catch_up
  catch_up_behind left c n d apart = rw (ne→==_false _ _ apart, not_zero left)

  catch_up_late :
      (c : Cpu) (n : NemuState) (d : Difftest R)
      → (r.to_dut d.ref).pc ≢ c.pc
      → catch_up r zero c.pc c n (with_left 1 d) ≡ failed
  unfolding catch_up
  catch_up_late c n d apart = rw (ne→==_false _ _ apart)

  catch_up_reached :
      (left : ℕ) (c : Cpu) (n : NemuState) (d : Difftest R)
      → r.to_dut d.ref ≡ c
      → catch_up r left c.pc c n (with_left (suc left) d) ≡ ok (n, with_left 0 d)
  unfolding catch_up
  catch_up_reached left c n d there =
      let met : ((r.to_dut d.ref).pc == c.pc) ≡ true = (==_iff _ _).1 (ap (λ x. x.pc) there) in
      let answer : Cpu → Outcome (NemuState × Difftest R) =
        λ x. ok (checkregs x c.pc c n, with_left 0 d) in
      let waits : Outcome (NemuState × Difftest R) =
        if left == 0 then failed else ok (n, with_left left d) in
      ap (λ b. if b then answer (r.to_dut d.ref) else waits) met
      ∙ ap answer there
      ∙ ap {B = Outcome (NemuState × Difftest R)} (λ n'. ok (n', with_left 0 d))
          (checkregs_same c c.pc n)

  -- The registers after instructions that do not reach the pc of the reference.
  abbrev pub AllBehind : Difftest R → List Cpu → Type 0
  AllBehind d cs = All (λ c. (r.to_dut d.ref).pc ≢ c.pc) cs

  followed_reached :
      (cs : List Cpu) (pc left : ℕ) (c : Cpu) (n : NemuState) (d : Difftest R)
      → AllBehind d cs
      → length cs < suc left
      → r.to_dut d.ref ≡ c
      → followed pc (cs ++ (c ∷ [])) n (with_left (suc left) d) ≡ ok (n, with_left 0 d)
  unfolding followed
  followed_reached [] pc left c n d behind room there =
      ap (λ o. o >>= (λ (n', d'). followed c.pc [] n' d'))
        (step-catch_up left pc c.pc c n d ∙ catch_up_reached left c n d there)
  followed_reached (b ∷ cs) pc zero c n d behind room there = absurd (omega arith)
  followed_reached (b ∷ cs) pc (suc left) c n d behind room there =
      ap (λ o. o >>= (λ (n', d'). followed b.pc (cs ++ (c ∷ [])) n' d'))
        (step-catch_up (suc left) pc b.pc b n d ∙ catch_up_behind left b n d behind.0)
      ∙ followed_reached cs b.pc left c n d behind.1 (omega arith) there

  followed_late :
      (cs : List Cpu) (pc : ℕ) (c : Cpu) (n : NemuState) (d : Difftest R)
      → AllBehind d (c ∷ cs)
      → followed pc (c ∷ cs) n (with_left (suc (length cs)) d) ≡ failed
  unfolding followed
  followed_late [] pc c n d behind =
      ap (λ o. o >>= (λ (n', d'). followed c.pc [] n' d'))
        (step-catch_up zero pc c.pc c n d ∙ catch_up_late c n d behind.0)
  followed_late (b ∷ cs) pc c n d behind =
      ap (λ o. o >>= (λ (n', d'). followed c.pc (b ∷ cs) n' d'))
        (step-catch_up (suc (length cs)) pc c.pc c n d ∙ catch_up_behind (length cs) c n d behind.0)
      ∙ followed_late cs c.pc b n d behind.1

  -- After `difftest_skip_dut` the emulator may run up to `nr_dut` instructions: if the last of them
  -- is where the reference is, the comparison accepts and the skip is over.
  pub difftest_skip_dut-reached :
      (pc nr_ref nr_dut : ℕ) (cs : List Cpu) (c : Cpu) (n : NemuState) (d : Difftest R)
      → d.skip_dut_nr_inst ≡ 0
      → AllBehind (difftest_skip_dut r nr_ref nr_dut d) cs
      → length cs < nr_dut
      → r.to_dut (difftest_skip_dut r nr_ref nr_dut d).ref ≡ c
      → followed pc (cs ++ (c ∷ [])) n (difftest_skip_dut r nr_ref nr_dut d)
        ≡ ok (n, with_left 0 (difftest_skip_dut r nr_ref nr_dut d))
  unfolding difftest_skip_dut
  difftest_skip_dut-reached pc nr_ref zero cs c n d idle behind room there = absurd (omega arith)
  difftest_skip_dut-reached pc nr_ref (suc left) cs c n d idle behind room there =
      let at : d.skip_dut_nr_inst + suc left ≡ suc left = omega (arith, idle) in
      let d1 = difftest_skip_dut r nr_ref (suc left) d in
      ap (λ k. followed pc (cs ++ (c ∷ [])) n (with_left k d1)) at
      ∙ followed_reached cs pc left c n d1 behind room there

  -- If none of `nr_dut` instructions after `difftest_skip_dut` is where the reference is, the
  -- emulator panics.
  pub difftest_skip_dut-late :
      (pc nr_ref : ℕ) (cs : List Cpu) (c : Cpu) (n : NemuState) (d : Difftest R)
      → d.skip_dut_nr_inst ≡ 0
      → AllBehind (difftest_skip_dut r nr_ref (suc (length cs)) d) (c ∷ cs)
      → followed pc (c ∷ cs) n (difftest_skip_dut r nr_ref (suc (length cs)) d) ≡ failed
  unfolding difftest_skip_dut
  difftest_skip_dut-late pc nr_ref cs c n d idle behind =
      let at : d.skip_dut_nr_inst + suc (length cs) ≡ suc (length cs) = omega (arith, idle) in
      let d1 = difftest_skip_dut r nr_ref (suc (length cs)) d in
      ap (λ k. followed pc (c ∷ cs) n (with_left k d1)) at ∙ followed_late cs pc c n d1 behind
