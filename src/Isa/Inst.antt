-- ===== src/Isa/Inst.antt =====
-- The instructions that nemu/src/isa/riscv32/inst.c knows, and its table of patterns.
pub mod Fields
pub mod Decode
pub mod Manual
use Prim.Native.String.{String}
use soc_fpga_bjtu_hwct.Common.{ℕ, List, [], ◌∷◌, Option, none, some, if◌then◌else◌}
use soc_fpga_bjtu_hwct.Common.Outcome.{Outcome, ok, ◌>>=◌}
use soc_fpga_bjtu_hwct.Isa.Pattern.{pattern_decode, matches}
use soc_fpga_bjtu_hwct.Isa.Operand.{Format}

-- Instructions whose body is `Reg(rd) = …` over the operands and the pc.
pub data AluOp : Type 0 where
  lui auipc : AluOp
  addi slti sltiu xori ori andi slli srli srai : AluOp
  add sub sll slt sltu xor srl sra or and : AluOp
  mul mulh mulhsu mulhu div divu rem remu : AluOp

pub data BranchOp : Type 0 where
  beq bne blt bge bltu bgeu : BranchOp

pub data StoreOp : Type 0 where
  sb sw sh : StoreOp

pub data LoadOp : Type 0 where
  lb lh lw lbu lhu : LoadOp

pub data CsrOp : Type 0 where
  csrrw csrrs csrrc csrrwi csrrsi csrrci : CsrOp

pub data Inst : Type 0 where
  alu : AluOp → Inst
  branch : BranchOp → Inst
  store : StoreOp → Inst
  load : LoadOp → Inst
  csr_op : CsrOp → Inst
  jal jalr ebreak ecall mret inv : Inst

-- One line `INSTPAT(pattern, name, type, …)`.
pub record Entry : Type 0 where
  pub pattern_string : String
  pub inst : Inst
  pub format : Format

abbrev pub entry : String → Inst → Format → Entry
entry p i f = record { pattern_string = p; inst = i; format = f }

-- The table of `decode_exec`, in its order.
abbrev pub table : List Entry
table =
    entry "??????? ????? ????? ??? ????? 01101 11" (alu AluOp.lui) Format.u
    ∷ entry "??????? ????? ????? ??? ????? 00101 11" (alu AluOp.auipc) Format.u
    ∷ entry "??????? ????? ????? 000 ????? 11000 11" (branch BranchOp.beq) Format.b
    ∷ entry "??????? ????? ????? 001 ????? 11000 11" (branch BranchOp.bne) Format.b
    ∷ entry "??????? ????? ????? 100 ????? 11000 11" (branch BranchOp.blt) Format.b
    ∷ entry "??????? ????? ????? 101 ????? 11000 11" (branch BranchOp.bge) Format.b
    ∷ entry "??????? ????? ????? 110 ????? 11000 11" (branch BranchOp.bltu) Format.b
    ∷ entry "??????? ????? ????? 111 ????? 11000 11" (branch BranchOp.bgeu) Format.b
    ∷ entry "??????? ????? ????? 000 ????? 01000 11" (store StoreOp.sb) Format.s
    ∷ entry "??????? ????? ????? 010 ????? 01000 11" (store StoreOp.sw) Format.s
    ∷ entry "??????? ????? ????? 001 ????? 01000 11" (store StoreOp.sh) Format.s
    ∷ entry "??????? ????? ????? ??? ????? 11011 11" jal Format.j
    ∷ entry "??????? ????? ????? 000 ????? 11001 11" jalr Format.i
    ∷ entry "0000000 00001 00000 000 00000 11100 11" ebreak Format.n
    ∷ entry "0000000 00000 00000 000 00000 11100 11" ecall Format.n
    ∷ entry "??????? ????? ????? 001 ????? 11100 11" (csr_op CsrOp.csrrw) Format.csr
    ∷ entry "??????? ????? ????? 010 ????? 11100 11" (csr_op CsrOp.csrrs) Format.csr
    ∷ entry "??????? ????? ????? 011 ????? 11100 11" (csr_op CsrOp.csrrc) Format.csr
    ∷ entry "??????? ????? ????? 101 ????? 11100 11" (csr_op CsrOp.csrrwi) Format.csr
    ∷ entry "??????? ????? ????? 110 ????? 11100 11" (csr_op CsrOp.csrrsi) Format.csr
    ∷ entry "??????? ????? ????? 111 ????? 11100 11" (csr_op CsrOp.csrrci) Format.csr
    ∷ entry "0011000 00010 00000 000 00000 11100 11" mret Format.n
    ∷ entry "??????? ????? ????? 000 ????? 00100 11" (alu AluOp.addi) Format.i
    ∷ entry "??????? ????? ????? 010 ????? 00100 11" (alu AluOp.slti) Format.i
    ∷ entry "??????? ????? ????? 011 ????? 00100 11" (alu AluOp.sltiu) Format.i
    ∷ entry "??????? ????? ????? 100 ????? 00100 11" (alu AluOp.xori) Format.i
    ∷ entry "??????? ????? ????? 110 ????? 00100 11" (alu AluOp.ori) Format.i
    ∷ entry "??????? ????? ????? 111 ????? 00100 11" (alu AluOp.andi) Format.i
    ∷ entry "0000000 ????? ????? 001 ????? 00100 11" (alu AluOp.slli) Format.is
    ∷ entry "0000000 ????? ????? 101 ????? 00100 11" (alu AluOp.srli) Format.is
    ∷ entry "0100000 ????? ????? 101 ????? 00100 11" (alu AluOp.srai) Format.is
    ∷ entry "??????? ????? ????? 000 ????? 00000 11" (load LoadOp.lb) Format.i
    ∷ entry "??????? ????? ????? 001 ????? 00000 11" (load LoadOp.lh) Format.i
    ∷ entry "??????? ????? ????? 010 ????? 00000 11" (load LoadOp.lw) Format.i
    ∷ entry "??????? ????? ????? 100 ????? 00000 11" (load LoadOp.lbu) Format.i
    ∷ entry "??????? ????? ????? 101 ????? 00000 11" (load LoadOp.lhu) Format.i
    ∷ entry "0000000 ????? ????? 000 ????? 01100 11" (alu AluOp.add) Format.r
    ∷ entry "0100000 ????? ????? 000 ????? 01100 11" (alu AluOp.sub) Format.r
    ∷ entry "0000000 ????? ????? 001 ????? 01100 11" (alu AluOp.sll) Format.r
    ∷ entry "0000000 ????? ????? 010 ????? 01100 11" (alu AluOp.slt) Format.r
    ∷ entry "0000000 ????? ????? 011 ????? 01100 11" (alu AluOp.sltu) Format.r
    ∷ entry "0000000 ????? ????? 100 ????? 01100 11" (alu AluOp.xor) Format.r
    ∷ entry "0000000 ????? ????? 101 ????? 01100 11" (alu AluOp.srl) Format.r
    ∷ entry "0100000 ????? ????? 101 ????? 01100 11" (alu AluOp.sra) Format.r
    ∷ entry "0000000 ????? ????? 110 ????? 01100 11" (alu AluOp.or) Format.r
    ∷ entry "0000000 ????? ????? 111 ????? 01100 11" (alu AluOp.and) Format.r
    ∷ entry "0000001 ????? ????? 000 ????? 01100 11" (alu AluOp.mul) Format.r
    ∷ entry "0000001 ????? ????? 001 ????? 01100 11" (alu AluOp.mulh) Format.r
    ∷ entry "0000001 ????? ????? 010 ????? 01100 11" (alu AluOp.mulhsu) Format.r
    ∷ entry "0000001 ????? ????? 011 ????? 01100 11" (alu AluOp.mulhu) Format.r
    ∷ entry "0000001 ????? ????? 100 ????? 01100 11" (alu AluOp.div) Format.r
    ∷ entry "0000001 ????? ????? 101 ????? 01100 11" (alu AluOp.divu) Format.r
    ∷ entry "0000001 ????? ????? 110 ????? 01100 11" (alu AluOp.rem) Format.r
    ∷ entry "0000001 ????? ????? 111 ????? 01100 11" (alu AluOp.remu) Format.r
    ∷ entry "??????? ????? ????? ??? ????? ????? ??" inv Format.n
    ∷ []

-- The first line whose pattern matches; `none` if the end of the table is reached.
unfoldable pub select : List Entry → ℕ → Outcome (Option Entry)
unfolding pattern_decode matches
select [] w = ok none
select (e ∷ es) w = do
  p ← pattern_decode e.pattern_string
  let rest = select es w
  if matches p w then ok (some e) else rest

unfoldable pub decode : ℕ → Outcome (Option Entry)
unfolding select
decode w = select table w
