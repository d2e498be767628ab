-- ===== src/Isa/Inst/Fields.antt =====
-- The lines of the table by the fields that they test, and that the table of patterns of
-- nemu/src/isa/riscv32/inst.c tests these.
use soc_fpga_bjtu_hwct.Common.{
  ℕ, ◌+◌, ◌-◌, ◌*◌, ◌/◌, ◌%◌, ◌^◌, ◌<◌, ◌≡◌, Bool, true, ◌&&◌, List, [], ◌∷◌, Option, none, some,
  ◌==◌, if◌then◌else◌, arith, bit_and,
}
use soc_fpga_bjtu_hwct.Common.Outcome.{ok}
use soc_fpga_bjtu_hwct.Common.Bits.{bit_and_mask, bit_and_fields, bit_and-zero}
use soc_fpga_bjtu_hwct.Isa.Pattern.{Pattern, pattern_decode, matches}
use soc_fpga_bjtu_hwct.Isa.Operand.{Format}
use soc_fpga_bjtu_hwct.Isa.Inst.{
  AluOp, BranchOp, StoreOp, LoadOp, CsrOp, Inst, Entry, alu, branch, store, load, csr_op, jal, jalr,
  ebreak, ecall, mret, inv,
}

-- The fields of an instruction word that choose the instruction.
abbrev pub opcode : ℕ → ℕ
opcode w = w % 2 ^ 7

abbrev pub funct3 : ℕ → ℕ
funct3 w = w / 2 ^ 12 % 2 ^ 3

abbrev pub funct7 : ℕ → ℕ
funct7 w = w / 2 ^ 25

-- How an instruction is recognised.
pub data Fields : Type 0 where
  opcode_is : ℕ → Fields
  funct3_is : ℕ → ℕ → Fields
  funct7_is : ℕ → ℕ → ℕ → Fields
  whole : ℕ → Fields
  any_word : Fields

abbrev pub has_fields : Fields → ℕ → Bool
has_fields (opcode_is o) w = opcode w == o
has_fields (funct3_is o f) w = (opcode w == o) && (funct3 w == f)
has_fields (funct7_is o f g) w = (opcode w == o) && (funct3 w == f) && (funct7 w == g)
has_fields (whole k) w = w == k
has_fields any_word w = true

abbrev pub Row : Type 0
Row = Inst × Format × Fields

abbrev pub opcode_map : List Row
opcode_map =
    ((alu AluOp.lui), Format.u, opcode_is 0x37)
    ∷ ((alu AluOp.auipc), Format.u, opcode_is 0x17)
    ∷ ((branch BranchOp.beq), Format.b, funct3_is 0x63 0)
    ∷ ((branch BranchOp.bne), Format.b, funct3_is 0x63 1)
    ∷ ((branch BranchOp.blt), Format.b, funct3_is 0x63 4)
    ∷ ((branch BranchOp.bge), Format.b, funct3_is 0x63 5)
    ∷ ((branch BranchOp.bltu), Format.b, funct3_is 0x63 6)
    ∷ ((branch BranchOp.bgeu), Format.b, funct3_is 0x63 7)
    ∷ ((store StoreOp.sb), Format.s, funct3_is 0x23 0)
    ∷ ((store StoreOp.sw), Format.s, funct3_is 0x23 2)
    ∷ ((store StoreOp.sh), Format.s, funct3_is 0x23 1)
    ∷ (jal, Format.j, opcode_is 0x6f)
    ∷ (jalr, Format.i, funct3_is 0x67 0)
    ∷ (ebreak, Format.n, whole 0x100073)
    ∷ (ecall, Format.n, whole 0x73)
    ∷ ((csr_op CsrOp.csrrw), Format.csr, funct3_is 0x73 1)
    ∷ ((csr_op CsrOp.csrrs), Format.csr, funct3_is 0x73 2)
    ∷ ((csr_op CsrOp.csrrc), Format.csr, funct3_is 0x73 3)
    ∷ ((csr_op CsrOp.csrrwi), Format.csr, funct3_is 0x73 5)
    ∷ ((csr_op CsrOp.csrrsi), Format.csr, funct3_is 0x73 6)
    ∷ ((csr_op CsrOp.csrrci), Format.csr, funct3_is 0x73 7)
    ∷ (mret, Format.n, whole 0x30200073)
    ∷ ((alu AluOp.addi), Format.i, funct3_is 0x13 0)
    ∷ ((alu AluOp.slti), Format.i, funct3_is 0x13 2)
    ∷ ((alu AluOp.sltiu), Format.i, funct3_is 0x13 3)
    ∷ ((alu AluOp.xori), Format.i, funct3_is 0x13 4)
    ∷ ((alu AluOp.ori), Format.i, funct3_is 0x13 6)
    ∷ ((alu AluOp.andi), Format.i, funct3_is 0x13 7)
    ∷ ((alu AluOp.slli), Format.is, funct7_is 0x13 1 0x0)
    ∷ ((alu AluOp.srli), Format.is, funct7_is 0x13 5 0x0)
    ∷ ((alu AluOp.srai), Format.is, funct7_is 0x13 5 0x20)
    ∷ ((load LoadOp.lb), Format.i, funct3_is 0x3 0)
    ∷ ((load LoadOp.lh), Format.i, funct3_is 0x3 1)
    ∷ ((load LoadOp.lw), Format.i, funct3_is 0x3 2)
    ∷ ((load LoadOp.lbu), Format.i, funct3_is 0x3 4)
    ∷ ((load LoadOp.lhu), Format.i, funct3_is 0x3 5)
    ∷ ((alu AluOp.add), Format.r, funct7_is 0x33 0 0x0)
    ∷ ((alu AluOp.sub), Format.r, funct7_is 0x33 0 0x20)
    ∷ ((alu AluOp.sll), Format.r, funct7_is 0x33 1 0x0)
    ∷ ((alu AluOp.slt), Format.r, funct7_is 0x33 2 0x0)
    ∷ ((alu AluOp.sltu), Format.r, funct7_is 0x33 3 0x0)
    ∷ ((alu AluOp.xor), Format.r, funct7_is 0x33 4 0x0)
    ∷ ((alu AluOp.srl), Format.r, funct7_is 0x33 5 0x0)
    ∷ ((alu AluOp.sra), Format.r, funct7_is 0x33 5 0x20)
    ∷ ((alu AluOp.or), Format.r, funct7_is 0x33 6 0x0)
    ∷ ((alu AluOp.and), Format.r, funct7_is 0x33 7 0x0)
    ∷ ((alu AluOp.mul), Format.r, funct7_is 0x33 0 0x1)
    ∷ ((alu AluOp.mulh), Format.r, funct7_is 0x33 1 0x1)
    ∷ ((alu AluOp.mulhsu), Format.r, funct7_is 0x33 2 0x1)
    ∷ ((alu AluOp.mulhu), Format.r, funct7_is 0x33 3 0x1)
    ∷ ((alu AluOp.div), Format.r, funct7_is 0x33 4 0x1)
    ∷ ((alu AluOp.divu), Format.r, funct7_is 0x33 5 0x1)
    ∷ ((alu AluOp.rem), Format.r, funct7_is 0x33 6 0x1)
    ∷ ((alu AluOp.remu), Format.r, funct7_is 0x33 7 0x1)
    ∷ (inv, Format.n, any_word)
    ∷ []

-- The first row of a map whose fields a word has.
abbrev pub look_up : List Row → ℕ → Option (Inst × Format)
look_up [] w = none
look_up ((i, f, p) ∷ rows) w = if has_fields p w then some (i, f) else look_up rows w

abbrev pub at : ℕ → ℕ → Pattern
at key mask = record { key = key; mask = mask; shift = 0 }

pub opcode-matches :
    (o : ℕ) → o < 2 ^ 7 → (w : ℕ) → w < 2 ^ 32 → matches (at o 0x7f) w ≡ has_fields (opcode_is o) w
unfolding matches
opcode-matches o h w fits = ground (arith, bit_and_mask 7 w)

funct3_mask : (w : ℕ) → bit_and w 0x707f ≡ funct3 w * 2 ^ 12 + opcode w
funct3_mask w = ground (
  arith,
  bit_and_fields 12 (w / 2 ^ 12) (w % 2 ^ 12) 7 0x7f (omega arith) (omega arith),
  bit_and_mask 3 (w / 2 ^ 12),
  bit_and_mask 7 (w % 2 ^ 12),
)

pub funct3-matches :
    (o f : ℕ)
    → (o < 2 ^ 7) × (f < 2 ^ 3)
    → (w : ℕ) → w < 2 ^ 32
    → matches (at (f * 2 ^ 12 + o) 0x707f) w ≡ has_fields (funct3_is o f) w
unfolding matches
funct3-matches o f h w fits = ground (arith, funct3_mask w)

funct7_mask :
    (w : ℕ) → w < 2 ^ 32 → bit_and w 0xfe00707f ≡ funct7 w * 2 ^ 25 + (funct3 w * 2 ^ 12 + opcode w)
funct7_mask w fits = ground (
  arith,
  bit_and_fields 25 (w / 2 ^ 25) (w % 2 ^ 25) 0x7f 0x707f (omega arith) (omega arith),
  bit_and_mask 7 (w / 2 ^ 25),
  funct3_mask (w % 2 ^ 25),
)

pub funct7-matches :
    (o f g : ℕ)
    → (o < 2 ^ 7) × (f < 2 ^ 3) × (g < 2 ^ 7)
    → (w : ℕ) → w < 2 ^ 32
    → matches (at (g * 2 ^ 25 + (f * 2 ^ 12 + o)) 0xfe00707f) w ≡ has_fields (funct7_is o f g) w
unfolding matches
funct7-matches o f g h w fits = ground (arith, funct7_mask w fits)

pub whole-matches : (k w : ℕ) → w < 2 ^ 32 → matches (at k (2 ^ 32 - 1)) w ≡ has_fields (whole k) w
unfolding matches
whole-matches k w fits = ground (arith, bit_and_mask 32 w)

pub any-matches : (w : ℕ) → w < 2 ^ 32 → matches (record { key = 0; mask = 0; shift = 32 }) w ≡ true
unfolding matches
any-matches w fits = rw bit_and-zero

-- A list of patterns is a map, row by row.
pub data IsMap : List Entry → List Row → Type 0 where
  nil : IsMap [] []
  row :
      {e : Entry} {f : Fields} {es : List Entry} {rows : List Row} (p : Pattern)
      → pattern_decode e.pattern_string ≡ ok p
      → ((w : ℕ) → w < 2 ^ 32 → matches p w ≡ has_fields f w)
      → IsMap es rows
      → IsMap (e ∷ es) ((e.inst, e.format, f) ∷ rows)
