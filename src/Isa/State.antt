-- ===== src/Isa/State.antt =====
-- The state of the emulated CPU (nemu/src/isa/riscv32/include/isa-def.h, local-include/reg.h) and
-- of the emulator (nemu/include/utils.h), and the registers' accessors of riscv32/inst.c.
pub mod Valid
pub mod Csr
use soc_fpga_bjtu_hwct.Common.{ℕ, ◌%◌, ◌^◌, ◌-◌, List}
use soc_fpga_bjtu_hwct.Common.{◌==◌, if◌then◌else◌, get_or, set}
use soc_fpga_bjtu_hwct.Common.Outcome.{Outcome}
use soc_fpga_bjtu_hwct.Common.Word.{◌>>>◌}

-- `word_t gpr[32]` and `word_t csr_pr[12]` are lists; `cycle` is a `uint64_t`.
pub record Cpu : Type 0 where
  pub gpr : List ℕ
  pub pc : ℕ
  pub true_pc : ℕ
  pub csr_pr : List ℕ
  pub cycle : ℕ

-- The states of the emulator, in the order of the `enum`.
pub data RunState : Type 0 where
  running stop end abort quit : RunState

pub record NemuState : Type 0 where
  pub state : RunState
  pub halt_pc : ℕ
  pub halt_ret : ℕ

-- What the instructions need of the memory system: an access may stop the emulator, and may
-- change the state `S` of memory and devices.
pub record Bus (S : Type 0) : Type 0 where
  pub read : ℕ → ℕ → S → Outcome (ℕ × S)
  pub write : ℕ → ℕ → ℕ → S → Outcome S

pub record Machine (S : Type 0) : Type 0 where
  pub cpu : Cpu
  pub nemu : NemuState
  pub mem : S

-- `gpr(idx)`: every index is five bits wide, so the check of `check_reg_idx` holds.
abbrev pub reg : Cpu → ℕ → ℕ
reg c i = get_or c.gpr i 0

abbrev pub set_reg : Cpu → ℕ → ℕ → Cpu
set_reg c i v = record c { gpr = set c.gpr i v }

abbrev pub csr_pr_at : Cpu → ℕ → ℕ
csr_pr_at c i = get_or c.csr_pr i 0

abbrev pub set_csr_pr : Cpu → ℕ → ℕ → Cpu
set_csr_pr c i v = record c { csr_pr = set c.csr_pr i v }

-- The numbers of the control and status registers.
abbrev pub mtvec_csr : ℕ
mtvec_csr = 0x305

abbrev pub mepc_csr : ℕ
mepc_csr = 0x341

abbrev pub mstatus_csr : ℕ
mstatus_csr = 0x300

abbrev pub mcause_csr : ℕ
mcause_csr = 0x342

abbrev pub mscratch_csr : ℕ
mscratch_csr = 0x340

abbrev pub mie_csr : ℕ
mie_csr = 0x304

abbrev pub mip_csr : ℕ
mip_csr = 0x344

abbrev pub mtval_csr : ℕ
mtval_csr = 0x343

abbrev pub cycle_csr : ℕ
cycle_csr = 0xc00

abbrev pub cycleh_csr : ℕ
cycleh_csr = 0xc80

-- `CSR_read`; -1 for a number that is not known.
unfoldable pub csr_read : Cpu → ℕ → ℕ
csr_read c code =
    if code == mtvec_csr
    then csr_pr_at c 0
    else if code == mepc_csr
    then csr_pr_at c 1
    else if code == mstatus_csr
    then csr_pr_at c 2
    else if code == mcause_csr
    then csr_pr_at c 3
    else if code == mscratch_csr
    then csr_pr_at c 4
    else if code == mie_csr
    then csr_pr_at c 5
    else if code == mip_csr
    then csr_pr_at c 6
    else if code == mtval_csr
    then csr_pr_at c 7
    else if code == cycle_csr
    then c.cycle % 2 ^ 32
    else if code == cycleh_csr
    then (c.cycle >>> 32) % 2 ^ 32
    else 2 ^ 32 - 1

-- `CSR_write`; the counters and an unknown number are left alone.
unfoldable pub csr_write : Cpu → ℕ → ℕ → Cpu
csr_write c code data_word =
    if code == mtvec_csr
    then set_csr_pr c 0 data_word
    else if code == mepc_csr
    then set_csr_pr c 1 data_word
    else if code == mstatus_csr
    then set_csr_pr c 2 data_word
    else if code == mcause_csr
    then set_csr_pr c 3 data_word
    else if code == mscratch_csr
    then set_csr_pr c 4 data_word
    else if code == mie_csr
    then set_csr_pr c 5 data_word
    else if code == mip_csr
    then set_csr_pr c 6 data_word
    else if code == mtval_csr
    then set_csr_pr c 7 data_word
    else c
