-- ===== src/Isa/RegName.antt =====
-- The names of the registers: `regs` and `isa_reg_str2val` of nemu/src/isa/riscv32/reg.c.
use soc_fpga_bjtu_hwct.Common.{
  ℕ, ◌+◌, Bool, true, false, Option, none, some, List, [], ◌∷◌, if◌then◌else◌,
}
use soc_fpga_bjtu_hwct.Isa.Pattern.{codes}
use soc_fpga_bjtu_hwct.Isa.State.{Cpu, reg}
use soc_fpga_bjtu_hwct.Sdb.CString.{str_eq}

-- The general registers; the last name of the array, "pc", is not looked for.
unfoldable pub regs : List (List ℕ)
regs =
    codes "$0"
    ∷ codes "ra"
    ∷ codes "sp"
    ∷ codes "gp"
    ∷ codes "tp"
    ∷ codes "t0"
    ∷ codes "t1"
    ∷ codes "t2"
    ∷ codes "s0"
    ∷ codes "s1"
    ∷ codes "a0"
    ∷ codes "a1"
    ∷ codes "a2"
    ∷ codes "a3"
    ∷ codes "a4"
    ∷ codes "a5"
    ∷ codes "a6"
    ∷ codes "a7"
    ∷ codes "s2"
    ∷ codes "s3"
    ∷ codes "s4"
    ∷ codes "s5"
    ∷ codes "s6"
    ∷ codes "s7"
    ∷ codes "s8"
    ∷ codes "s9"
    ∷ codes "s10"
    ∷ codes "s11"
    ∷ codes "t3"
    ∷ codes "t4"
    ∷ codes "t5"
    ∷ codes "t6"
    ∷ []

unfoldable pub find_name : List ℕ → List (List ℕ) → ℕ → Option ℕ
unfolding str_eq
find_name s [] i = none
find_name s (name ∷ names) i =
    let rest = find_name s names (i + 1) in if str_eq s name then some i else rest

-- The value, and what is put into `*su`.
unfoldable pub isa_reg_str2val : List ℕ → Cpu → ℕ × Bool
unfolding find_name regs
isa_reg_str2val s c = elim (find_name s regs 0) [ some i ↦ (reg c i, true) | none ↦ (0, false) ]
