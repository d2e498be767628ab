-- ===== src/Isa/Inst/Manual.antt =====
-- The instruction listing of the RISC-V manual (RV32I, M, Zicsr and MRET), opcode by opcode.
pub mod Agree
use soc_fpga_bjtu_hwct.Common.{ℕ, Bool, Option, some, ◌==◌, if◌then◌else◌}
use soc_fpga_bjtu_hwct.Isa.Operand.{Format}
use soc_fpga_bjtu_hwct.Isa.Inst.{
  AluOp, BranchOp, StoreOp, LoadOp, CsrOp, Inst, alu, branch, store, load, csr_op, jal, jalr,
  ebreak, ecall, mret, inv,
}
use soc_fpga_bjtu_hwct.Isa.Inst.Fields.{opcode, funct3, funct7}

-- What a word is, by the manual.
pub data Meaning : Type 0 where
  known : Inst → Format → Meaning
  fence illegal : Meaning

abbrev pub load_of : ℕ → Meaning
load_of f3 =
    if f3 == 0
    then known (load LoadOp.lb) Format.i
    else if f3 == 1
    then known (load LoadOp.lh) Format.i
    else if f3 == 2
    then known (load LoadOp.lw) Format.i
    else if f3 == 4
    then known (load LoadOp.lbu) Format.i
    else if f3 == 5
    then known (load LoadOp.lhu) Format.i
    else illegal

abbrev pub store_of : ℕ → Meaning
store_of f3 =
    if f3 == 0
    then known (store StoreOp.sb) Format.s
    else if f3 == 1
    then known (store StoreOp.sh) Format.s
    else if f3 == 2
    then known (store StoreOp.sw) Format.s
    else illegal

abbrev pub branch_of : ℕ → Meaning
branch_of f3 =
    if f3 == 0
    then known (branch BranchOp.beq) Format.b
    else if f3 == 1
    then known (branch BranchOp.bne) Format.b
    else if f3 == 4
    then known (branch BranchOp.blt) Format.b
    else if f3 == 5
    then known (branch BranchOp.bge) Format.b
    else if f3 == 6
    then known (branch BranchOp.bltu) Format.b
    else if f3 == 7
    then known (branch BranchOp.bgeu) Format.b
    else illegal

-- OP-IMM: only the shifts have a funct7.
abbrev pub op_imm_of : ℕ → ℕ → Meaning
op_imm_of f3 f7 =
    if f3 == 0
    then known (alu AluOp.addi) Format.i
    else if f3 == 1
    then (if f7 == 0 then known (alu AluOp.slli) Format.is else illegal)
    else if f3 == 2
    then known (alu AluOp.slti) Format.i
    else if f3 == 3
    then known (alu AluOp.sltiu) Format.i
    else if f3 == 4
    then known (alu AluOp.xori) Format.i
    else if f3 == 5
    then (if f7 == 0
        then known (alu AluOp.srli) Format.is
        else if f7 == 0x20
        then known (alu AluOp.srai) Format.is
        else illegal)
    else if f3 == 6
    then known (alu AluOp.ori) Format.i
    else if f3 == 7
    then known (alu AluOp.andi) Format.i
    else illegal

-- By funct3, with the instructions of funct7 0, 0x20 and 1 (M).
abbrev three : ℕ → AluOp → Meaning → AluOp → Meaning
three f7 base alternate m =
    if f7 == 0
    then known (alu base) Format.r
    else if f7 == 0x20
    then alternate
    else if f7 == 1
    then known (alu m) Format.r
    else illegal

abbrev pub op_of : ℕ → ℕ → Meaning
op_of f3 f7 =
    if f3 == 0
    then three f7 AluOp.add (known (alu AluOp.sub) Format.r) AluOp.mul
    else if f3 == 1
    then three f7 AluOp.sll illegal AluOp.mulh
    else if f3 == 2
    then three f7 AluOp.slt illegal AluOp.mulhsu
    else if f3 == 3
    then three f7 AluOp.sltu illegal AluOp.mulhu
    else if f3 == 4
    then three f7 AluOp.xor illegal AluOp.div
    else if f3 == 5
    then three f7 AluOp.srl (known (alu AluOp.sra) Format.r) AluOp.divu
    else if f3 == 6
    then three f7 AluOp.or illegal AluOp.rem
    else if f3 == 7
    then three f7 AluOp.and illegal AluOp.remu
    else illegal

-- SYSTEM: with funct3 0 the whole word counts.
abbrev pub system_of : ℕ → (ℕ → Bool) → Meaning
system_of f3 is_word =
    if f3 == 0
    then (if is_word 0x00000073
        then known ecall Format.n
        else if is_word 0x00100073
        then known ebreak Format.n
        else if is_word 0x30200073
        then known mret Format.n
        else illegal)
    else if f3 == 1
    then known (csr_op CsrOp.csrrw) Format.csr
    else if f3 == 2
    then known (csr_op CsrOp.csrrs) Format.csr
    else if f3 == 3
    then known (csr_op CsrOp.csrrc) Format.csr
    else if f3 == 5
    then known (csr_op CsrOp.csrrwi) Format.csr
    else if f3 == 6
    then known (csr_op CsrOp.csrrsi) Format.csr
    else if f3 == 7
    then known (csr_op CsrOp.csrrci) Format.csr
    else illegal

abbrev pub major : ℕ → ℕ → ℕ → (ℕ → Bool) → Meaning
major op f3 f7 is_word =
    if op == 0x03
    then load_of f3
    else if op == 0x0f
    then (if f3 == 0 then fence else illegal)
    else if op == 0x13
    then op_imm_of f3 f7
    else if op == 0x17
    then known (alu AluOp.auipc) Format.u
    else if op == 0x23
    then store_of f3
    else if op == 0x33
    then op_of f3 f7
    else if op == 0x37
    then known (alu AluOp.lui) Format.u
    else if op == 0x63
    then branch_of f3
    else if op == 0x67
    then (if f3 == 0 then known jalr Format.i else illegal)
    else if op == 0x6f
    then known jal Format.j
    else if op == 0x73
    then system_of f3 is_word
    else illegal

abbrev pub manual : ℕ → Meaning
manual w = major (opcode w) (funct3 w) (funct7 w) (λ k. w == k)

-- What the emulator does with a word of this meaning: it takes FENCE for an invalid instruction.
abbrev pub executed_as : Meaning → Option (Inst × Format)
executed_as (known i f) = some (i, f)
executed_as fence = some (inv, Format.n)
executed_as illegal = some (inv, Format.n)
