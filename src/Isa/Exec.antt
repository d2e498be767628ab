-- ===== src/Isa/Exec.antt =====
-- One instruction: `inst_fetch` (nemu/include/cpu/ifetch.h), `decode_exec` and `isa_exec_once`
-- (nemu/src/isa/riscv32/inst.c), `set_nemu_state` and `invalid_inst`
-- (nemu/src/engine/interpreter/hostcall.c). Messages are left out.
pub mod Invariant
pub mod Progress
pub mod Cycle
use soc_fpga_bjtu_hwct.Common.{ℕ, ◌+◌, ◌-◌, ◌^◌, Option, none, some, bit_and, bit_or, if◌then◌else◌}
use soc_fpga_bjtu_hwct.Common.Outcome.{Outcome, ok, ◌>>=◌}
use soc_fpga_bjtu_hwct.Common.Word.{u32, not32, bits, sext}
use soc_fpga_bjtu_hwct.Isa.State.{
  Cpu, RunState, Bus, Machine, reg, set_reg, csr_read, csr_write, mtvec_csr, mepc_csr, mstatus_csr,
  mcause_csr,
}
use soc_fpga_bjtu_hwct.Isa.Inst.{
  StoreOp, LoadOp, CsrOp, Inst, Entry, alu, branch, store, load, csr_op, jal, jalr, ebreak, ecall,
  mret, inv, decode,
}
use soc_fpga_bjtu_hwct.Isa.Operand.{Operands, decode_operand}
use soc_fpga_bjtu_hwct.Isa.Alu.{alu_value, branch_taken}

-- `Decode`, less the text of the trace.
pub record Decode : Type 0 where
  pub pc : ℕ
  pub snpc : ℕ
  pub dnpc : ℕ
  pub inst : ℕ

abbrev pub store_len : StoreOp → ℕ
store_len StoreOp.sb = 1
store_len StoreOp.sw = 4
store_len StoreOp.sh = 2

abbrev pub load_len : LoadOp → ℕ
load_len LoadOp.lb = 1
load_len LoadOp.lh = 2
load_len LoadOp.lw = 4
load_len LoadOp.lbu = 1
load_len LoadOp.lhu = 2

-- What a load puts into `rd`, from what the memory returns.
unfoldable pub load_value : LoadOp → ℕ → ℕ
load_value LoadOp.lb v = u32 (sext v 8)
load_value LoadOp.lh v = u32 (sext v 16)
load_value LoadOp.lw v = v
load_value LoadOp.lbu v = bits v 7 0
load_value LoadOp.lhu v = bits v 15 0

-- The body of a CSR instruction on the registers, in the order of its two statements.
unfoldable pub exec_csr : CsrOp → Operands → Cpu → Cpu
exec_csr CsrOp.csrrw o c = set_reg (csr_write c o.csr o.src1) o.rd o.csr_value
exec_csr CsrOp.csrrs o c = csr_write (set_reg c o.rd o.csr_value) o.csr (bit_or o.csr_value o.src1)
exec_csr CsrOp.csrrc o c =
    csr_write (set_reg c o.rd o.csr_value) o.csr (bit_and o.csr_value (not32 o.src1))
exec_csr CsrOp.csrrwi o c = set_reg (csr_write c o.csr o.imm) o.rd o.csr_value
exec_csr CsrOp.csrrsi o c = csr_write (set_reg c o.rd o.csr_value) o.csr (bit_or o.csr_value o.imm)
exec_csr CsrOp.csrrci o c =
    csr_write (set_reg c o.rd o.csr_value) o.csr (bit_and o.csr_value (not32 o.imm))

-- The registers after `ecall`, and after `mret`.
unfoldable pub exec_ecall : ℕ → Cpu → Cpu
exec_ecall pc c = csr_write (csr_write (csr_write c mepc_csr pc) mcause_csr 11) mstatus_csr 0x1800

unfoldable pub exec_mret : Cpu → Cpu
exec_mret c = csr_write c mstatus_csr 0x1888

module _ {S : Type 0} where
  unfoldable pub set_nemu_state : RunState → ℕ → ℕ → Machine S → Machine S
  set_nemu_state state pc halt_ret m = record m {
    nemu = record { state = state; halt_pc = pc; halt_ret = halt_ret };
  }

  abbrev pub with_cpu : Machine S → Cpu → Machine S
  with_cpu m c = record m { cpu = c }

module _ {S : Type 0} (bus : Bus S) where
  -- The word at the pc, the pc behind it and the machine.
  unfoldable pub inst_fetch : ℕ → ℕ → Machine S → Outcome (ℕ × ℕ × Machine S)
  inst_fetch pc len m = do
    (inst, mem) ← bus.read pc len m.mem
    ok (inst, u32 (pc + len), record m { mem = mem })

  -- It reads two words for its message.
  unfoldable pub invalid_inst : ℕ → Machine S → Outcome (Machine S)
  unfolding inst_fetch set_nemu_state
  invalid_inst thispc m = do
    (first, pc, m1) ← inst_fetch thispc 4 m
    (second, pc2, m2) ← inst_fetch pc 4 m1
    ok (set_nemu_state RunState.abort thispc (2 ^ 32 - 1) m2)

  -- The bodies of the table.
  unfoldable pub exec_inst : Inst → Operands → Decode → Machine S → Outcome (Decode × Machine S)
  unfolding load_value exec_csr exec_ecall exec_mret set_nemu_state invalid_inst
  exec_inst (alu op) o s m = ok (s, with_cpu m (set_reg m.cpu o.rd (alu_value op s.pc o)))
  exec_inst (branch op) o s m =
      let target = if branch_taken op o.src1 o.src2 then u32 (s.pc + o.imm) else u32 (s.pc + 4) in
      ok (record s { dnpc = target }, m)
  exec_inst (store op) o s m = do
    mem ← bus.write (u32 (o.src1 + o.imm)) (store_len op) o.src2 m.mem
    ok (s, record m { mem = mem })
  exec_inst (load op) o s m = do
    (v, mem) ← bus.read (u32 (o.src1 + o.imm)) (load_len op) m.mem
    ok (s, record m { mem = mem; cpu = set_reg m.cpu o.rd (load_value op v) })
  exec_inst (csr_op op) o s m = ok (s, with_cpu m (exec_csr op o m.cpu))
  exec_inst jal o s m =
      ok (record s { dnpc = u32 (s.pc + o.imm) }, with_cpu m (set_reg m.cpu o.rd (u32 (s.pc + 4))))
  exec_inst jalr o s m =
      ok
        (record s { dnpc = u32 (o.src1 + o.imm) }, with_cpu m (set_reg m.cpu o.rd (u32 (s.pc + 4))))
  exec_inst ebreak o s m = ok (s, set_nemu_state RunState.end s.pc (reg m.cpu 10) m)
  exec_inst ecall o s m =
      let c = exec_ecall s.pc m.cpu in ok (record s { dnpc = csr_read c mtvec_csr }, with_cpu m c)
  exec_inst mret o s m =
      ok (record s { dnpc = csr_read m.cpu mepc_csr }, with_cpu m (exec_mret m.cpu))
  exec_inst inv o s m = do m' ← invalid_inst s.pc m; ok (s, m')

  -- The line of the table that was selected, if any.
  unfoldable pub exec_entry : Option Entry → Decode → Machine S → Outcome (Decode × Machine S)
  unfolding exec_inst
  exec_entry none s m = ok (s, m)
  exec_entry (some e) s m = do o ← decode_operand m.cpu s.inst e.format; exec_inst e.inst o s m

  unfoldable pub decode_exec : Decode → Machine S → Outcome (Decode × Machine S)
  unfolding exec_entry
  decode_exec s m = do
    e ← decode s.inst
    (s', m') ← exec_entry e (record s { dnpc = s.snpc }) m
    ok (s', with_cpu m' (set_reg m'.cpu 0 0))

  unfoldable pub isa_exec_once : Decode → Machine S → Outcome (Decode × Machine S)
  unfolding inst_fetch decode_exec
  isa_exec_once s m = do
    (inst, snpc, m') ← inst_fetch s.snpc 4 m
    decode_exec (record s { inst = inst; snpc = snpc }) m'
