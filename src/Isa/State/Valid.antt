-- ===== src/Isa/State/Valid.antt =====
-- The well-formed CPU states: arrays of their lengths, filled with words.
use soc_fpga_bjtu_hwct.Common.{
  ℕ, ◌≡◌, ◌∙◌, arith, All, length, length-set, All-set, All-get_or, get_or-set_self, if_both,
}
use soc_fpga_bjtu_hwct.Common.Word.{IsWord}
use soc_fpga_bjtu_hwct.Isa.State.{Cpu, reg, set_reg, csr_pr_at, set_csr_pr, csr_read, csr_write}

pub record HasWords (c : Cpu) : Type 0 where
  pub gpr_length : length c.gpr ≡ 32
  pub gpr_words : All IsWord c.gpr
  pub csr_length : length c.csr_pr ≡ 12
  pub csr_words : All IsWord c.csr_pr

-- Between two instructions register 0 holds 0 too.
pub record IsValid (c : Cpu) : Type 0 where
  pub words : HasWords c
  pub zero_reg : reg c 0 ≡ 0

module _ {c : Cpu} (w : HasWords c) where
  pub reg-IsWord : (i : ℕ) → IsWord (reg c i)
  reg-IsWord i = All-get_or IsWord c.gpr i 0 w.gpr_words (omega arith)

  pub csr_pr_at-IsWord : (i : ℕ) → IsWord (csr_pr_at c i)
  csr_pr_at-IsWord i = All-get_or IsWord c.csr_pr i 0 w.csr_words (omega arith)

  pub set_reg-HasWords : (i v : ℕ) → IsWord v → HasWords (set_reg c i v)
  set_reg-HasWords i v h = record {
    gpr_length = length-set c.gpr i v ∙ w.gpr_length;
    gpr_words = All-set IsWord c.gpr i v w.gpr_words h;
    csr_length = w.csr_length;
    csr_words = w.csr_words;
  }

  pub set_csr_pr-HasWords : (i v : ℕ) → IsWord v → HasWords (set_csr_pr c i v)
  set_csr_pr-HasWords i v h = record {
    gpr_length = w.gpr_length;
    gpr_words = w.gpr_words;
    csr_length = length-set c.csr_pr i v ∙ w.csr_length;
    csr_words = All-set IsWord c.csr_pr i v w.csr_words h;
  }

  -- `Reg(0) = 0` makes a state valid.
  pub set_reg_zero-IsValid : IsValid (set_reg c 0 0)
  set_reg_zero-IsValid = record {
    words = set_reg-HasWords 0 0 (omega arith);
    zero_reg = get_or-set_self c.gpr 0 0 0 (rw w.gpr_length (omega arith));
  }

  pub csr_read-IsWord : (code : ℕ) → IsWord (csr_read c code)
  unfolding csr_read
  csr_read-IsWord code = ground (
    arith,
    csr_pr_at-IsWord 0,
    csr_pr_at-IsWord 1,
    csr_pr_at-IsWord 2,
    csr_pr_at-IsWord 3,
    csr_pr_at-IsWord 4,
    csr_pr_at-IsWord 5,
    csr_pr_at-IsWord 6,
    csr_pr_at-IsWord 7,
  )

  pub csr_write-HasWords : (code v : ℕ) → IsWord v → HasWords (csr_write c code v)
  unfolding csr_write
  csr_write-HasWords code v h = if_both HasWords _ (set_csr_pr-HasWords 0 v h) (
      if_both HasWords _ (set_csr_pr-HasWords 1 v h) (
        if_both HasWords _ (set_csr_pr-HasWords 2 v h) (
          if_both HasWords _ (set_csr_pr-HasWords 3 v h) (
            if_both HasWords _ (set_csr_pr-HasWords 4 v h) (
              if_both HasWords _ (set_csr_pr-HasWords 5 v h) (
                if_both HasWords _ (set_csr_pr-HasWords 6 v h)
                  (if_both HasWords _ (set_csr_pr-HasWords 7 v h) w)))))))
