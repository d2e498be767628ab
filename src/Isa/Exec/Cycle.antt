-- ===== src/Isa/Exec/Cycle.antt =====
-- No instruction of nemu/src/isa/riscv32/inst.c writes the cycle counter.
use soc_fpga_bjtu_hwct.Common.{ℕ, ◌+◌, ◌≡◌, ◌∙◌, Option, none, some}
use soc_fpga_bjtu_hwct.Common.Outcome.{Ensures, Ensures-then, Ensures-bind}
use soc_fpga_bjtu_hwct.Common.Word.{u32}
use soc_fpga_bjtu_hwct.Isa.State.{Cpu, Bus, Machine, set_reg}
use soc_fpga_bjtu_hwct.Isa.State.Csr.{csr_write-cycle}
use soc_fpga_bjtu_hwct.Isa.Inst.{
  CsrOp, Inst, Entry, alu, branch, store, load, csr_op, jal, jalr, ebreak, ecall, mret, inv, decode,
}
use soc_fpga_bjtu_hwct.Isa.Operand.{Operands, decode_operand}
use soc_fpga_bjtu_hwct.Isa.Exec.{
  Decode, store_len, load_len, exec_csr, exec_ecall, exec_mret, set_nemu_state, inst_fetch,
  invalid_inst, exec_inst, exec_entry, decode_exec, isa_exec_once,
}

exec_csr-cycle : (op : CsrOp) (o : Operands) (c : Cpu) → (exec_csr op o c).cycle ≡ c.cycle
unfolding exec_csr
exec_csr-cycle CsrOp.csrrw o c = csr_write-cycle c o.csr o.src1
exec_csr-cycle CsrOp.csrrwi o c = csr_write-cycle c o.csr o.imm
exec_csr-cycle CsrOp.csrrs o c = csr_write-cycle (set_reg c o.rd o.csr_value) o.csr _
exec_csr-cycle CsrOp.csrrc o c = csr_write-cycle (set_reg c o.rd o.csr_value) o.csr _
exec_csr-cycle CsrOp.csrrsi o c = csr_write-cycle (set_reg c o.rd o.csr_value) o.csr _
exec_csr-cycle CsrOp.csrrci o c = csr_write-cycle (set_reg c o.rd o.csr_value) o.csr _

exec_ecall-cycle : (pc : ℕ) (c : Cpu) → (exec_ecall pc c).cycle ≡ c.cycle
unfolding exec_ecall
exec_ecall-cycle pc c = csr_write-cycle _ _ 0x1800 ∙ csr_write-cycle _ _ 11 ∙ csr_write-cycle c _ pc

exec_mret-cycle : (c : Cpu) → (exec_mret c).cycle ≡ c.cycle
unfolding exec_mret
exec_mret-cycle c = csr_write-cycle c _ 0x1888

module _ {S : Type 0} (bus : Bus S) (cycle : ℕ) where
  abbrev Counts : Machine S → Type 0
  Counts m = m.cpu.cycle ≡ cycle

  abbrev pub CountsAfter : Decode × Machine S → Type 0
  CountsAfter r = Counts (r.1)

  abbrev CountsFetched : ℕ × ℕ × Machine S → Type 0
  CountsFetched r = Counts (r.2)

  inst_fetch-cycle :
      (pc len : ℕ) (m : Machine S) → Counts m → Ensures CountsFetched (inst_fetch bus pc len m)
  unfolding inst_fetch
  inst_fetch-cycle pc len m h = Ensures-then CountsFetched (bus.read pc len m.mem) _ (λ r. h)

  invalid_inst-cycle : (pc : ℕ) (m : Machine S) → Counts m → Ensures Counts (invalid_inst bus pc m)
  unfolding invalid_inst set_nemu_state
  invalid_inst-cycle pc m h =
      Ensures-bind CountsFetched Counts (inst_fetch bus pc 4 m) _ (inst_fetch-cycle pc 4 m h)
        (λ (v, next, m1) h1.
          Ensures-bind CountsFetched Counts (inst_fetch bus next 4 m1) _
            (inst_fetch-cycle next 4 m1 h1) (λ r h2. h2))

  exec_inst-cycle :
      (i : Inst) (o : Operands) (s : Decode) (m : Machine S)
      → Counts m
      → Ensures CountsAfter (exec_inst bus i o s m)
  unfolding exec_inst set_nemu_state
  exec_inst-cycle (alu op) o s m h = h
  exec_inst-cycle (branch op) o s m h = h
  exec_inst-cycle (store op) o s m h =
      Ensures-then CountsAfter (bus.write (u32 (o.src1 + o.imm)) (store_len op) o.src2 m.mem) _
        (λ mem. h)
  exec_inst-cycle (load op) o s m h =
      Ensures-then CountsAfter (bus.read (u32 (o.src1 + o.imm)) (load_len op) m.mem) _ (λ r. h)
  exec_inst-cycle (csr_op op) o s m h = exec_csr-cycle op o m.cpu ∙ h
  exec_inst-cycle jal o s m h = h
  exec_inst-cycle jalr o s m h = h
  exec_inst-cycle ebreak o s m h = h
  exec_inst-cycle ecall o s m h = exec_ecall-cycle s.pc m.cpu ∙ h
  exec_inst-cycle mret o s m h = exec_mret-cycle m.cpu ∙ h
  exec_inst-cycle inv o s m h =
      Ensures-bind Counts CountsAfter (invalid_inst bus s.pc m) _ (invalid_inst-cycle s.pc m h)
        (λ m' h'. h')

  exec_entry-cycle :
      (e : Option Entry) (s : Decode) (m : Machine S)
      → Counts m
      → Ensures CountsAfter (exec_entry bus e s m)
  unfolding exec_entry
  exec_entry-cycle none s m h = h
  exec_entry-cycle (some e) s m h =
      Ensures-then CountsAfter (decode_operand m.cpu s.inst e.format) _
        (λ o. exec_inst-cycle e.inst o s m h)

  decode_exec-cycle :
      (s : Decode) (m : Machine S) → Counts m → Ensures CountsAfter (decode_exec bus s m)
  unfolding decode_exec
  decode_exec-cycle s m h = Ensures-then CountsAfter (decode s.inst) _ (λ e.
      Ensures-bind CountsAfter CountsAfter (exec_entry bus e (record s { dnpc = s.snpc }) m) _
        (exec_entry-cycle e (record s { dnpc = s.snpc }) m h) (λ r h'. h'))

  pub isa_exec_once-cycle :
      (s : Decode) (m : Machine S) → Counts m → Ensures CountsAfter (isa_exec_once bus s m)
  unfolding isa_exec_once
  isa_exec_once-cycle s m h =
      Ensures-bind CountsFetched CountsAfter (inst_fetch bus s.snpc 4 m) _
        (inst_fetch-cycle s.snpc 4 m h)
        (λ (inst, next, m1) h1. decode_exec-cycle (record s { inst = inst; snpc = next }) m1 h1)
