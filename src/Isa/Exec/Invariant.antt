-- ===== src/Isa/Exec/Invariant.antt =====
-- Every instruction of nemu/src/isa/riscv32/inst.c keeps the registers well-formed.
use soc_fpga_bjtu_hwct.Common.{
  ℕ, ◌+◌, ◌≡◌, refl, sym, ◌∙◌, arith, Option, none, some, if_both, bit_and,
}
use mathlib.Core.Path.{subst}
use soc_fpga_bjtu_hwct.Common.Outcome.{ok, Ensures, Ensures-intro, Ensures-elim, Ensures-bind}
use soc_fpga_bjtu_hwct.Common.Word.{u32, IsWord}
use soc_fpga_bjtu_hwct.Common.Bits.{bit_and-le, bit_or-lt}
use soc_fpga_bjtu_hwct.Common.Bits.Fields.{bits_lem}
use soc_fpga_bjtu_hwct.Isa.State.{Cpu, Bus, Machine}
use soc_fpga_bjtu_hwct.Isa.State.Valid.{
  HasWords, IsValid, set_reg-HasWords, set_reg_zero-IsValid, csr_read-IsWord, csr_write-HasWords,
}
use soc_fpga_bjtu_hwct.Isa.Inst.{
  LoadOp, CsrOp, Inst, Entry, decode, alu, branch, store, load, csr_op, jal, jalr, ebreak, ecall,
  mret, inv,
}
use soc_fpga_bjtu_hwct.Isa.Operand.{Operands, decode_operand}
use soc_fpga_bjtu_hwct.Isa.Operand.Words.{decode_operand-words}
use soc_fpga_bjtu_hwct.Isa.Alu.{branch_taken}
use soc_fpga_bjtu_hwct.Isa.Alu.Words.{HasWordOperands, alu_value-IsWord}
use soc_fpga_bjtu_hwct.Isa.Exec.{
  Decode, store_len, load_len, load_value, exec_csr, exec_ecall, exec_mret, set_nemu_state,
  inst_fetch, invalid_inst, exec_inst, exec_entry, decode_exec, isa_exec_once,
}

-- A memory system that returns words.
pub record IsWordBus {S : Type 0} (bus : Bus S) : Type 0 where
  pub read_word :
      (addr len : ℕ) (s : S) (v : ℕ) (s' : S) → bus.read addr len s ≡ ok (v, s') → IsWord v

load_value-IsWord : (op : LoadOp) (v : ℕ) → IsWord v → IsWord (load_value op v)
unfolding load_value
load_value-IsWord LoadOp.lw v h = h
load_value-IsWord LoadOp.lbu v h = omega (arith, bits_lem v 7 0 8 refl (omega arith))
load_value-IsWord LoadOp.lhu v h = omega (arith, bits_lem v 15 0 16 refl (omega arith))
load_value-IsWord _ v h = omega arith

u32-IsWord : (x : ℕ) → IsWord (u32 x)
u32-IsWord x = omega arith

and_IsWord : (a b : ℕ) → IsWord a → IsWord (bit_and a b)
and_IsWord a b h = omega (arith, bit_and-le a b)

exec_csr-HasWords :
    {c : Cpu} (op : CsrOp) (o : Operands)
    → HasWords c
    → HasWordOperands o
    → HasWords (exec_csr op o c)
unfolding exec_csr
exec_csr-HasWords CsrOp.csrrw o w h =
    set_reg-HasWords (csr_write-HasWords w o.csr o.src1 h.src1_word) o.rd o.csr_value
      h.csr_value_word
exec_csr-HasWords CsrOp.csrrwi o w h =
    set_reg-HasWords (csr_write-HasWords w o.csr o.imm h.imm_word) o.rd o.csr_value h.csr_value_word
exec_csr-HasWords CsrOp.csrrs o w h =
    csr_write-HasWords (set_reg-HasWords w o.rd o.csr_value h.csr_value_word) o.csr _
      (bit_or-lt 32 o.csr_value o.src1 h.csr_value_word h.src1_word)
exec_csr-HasWords CsrOp.csrrsi o w h =
    csr_write-HasWords (set_reg-HasWords w o.rd o.csr_value h.csr_value_word) o.csr _
      (bit_or-lt 32 o.csr_value o.imm h.csr_value_word h.imm_word)
exec_csr-HasWords CsrOp.csrrc o w h =
    csr_write-HasWords (set_reg-HasWords w o.rd o.csr_value h.csr_value_word) o.csr _
      (and_IsWord o.csr_value _ h.csr_value_word)
exec_csr-HasWords CsrOp.csrrci o w h =
    csr_write-HasWords (set_reg-HasWords w o.rd o.csr_value h.csr_value_word) o.csr _
      (and_IsWord o.csr_value _ h.csr_value_word)

exec_ecall-HasWords : {c : Cpu} (pc : ℕ) → HasWords c → IsWord pc → HasWords (exec_ecall pc c)
unfolding exec_ecall
exec_ecall-HasWords pc w h =
    csr_write-HasWords (csr_write-HasWords (csr_write-HasWords w _ pc h) _ 11 (omega arith)) _
      0x1800 (omega arith)

exec_mret-HasWords : {c : Cpu} → HasWords c → HasWords (exec_mret c)
unfolding exec_mret
exec_mret-HasWords w = csr_write-HasWords w _ 0x1888 (omega arith)

module _ {S : Type 0} {bus : Bus S} (wb : IsWordBus bus) where
  abbrev Kept : Decode × Machine S → Type 0
  Kept (s, m) = HasWords m.cpu × IsWord s.dnpc

  abbrev pub KeptCpu : Machine S → Machine S → Type 0
  KeptCpu m m' = m'.cpu ≡ m.cpu

  IsRead : ℕ × S → Type 0
  IsRead (v, s) = IsWord v

  read-IsRead : (addr len : ℕ) (s : S) → Ensures IsRead (bus.read addr len s)
  unfolding IsRead
  read-IsRead addr len s =
      Ensures-intro IsRead (bus.read addr len s) (λ (v, s') e. wb.read_word addr len s v s' e)

  unfoldable pub IsFetch : Machine S → ℕ × ℕ × Machine S → Type 0
  IsFetch m (inst, next, m') = IsWord inst × IsWord next × KeptCpu m m'

  pub inst_fetch-IsFetch :
      (pc len : ℕ) (m : Machine S) → Ensures (IsFetch m) (inst_fetch bus pc len m)
  unfolding inst_fetch IsFetch IsRead
  inst_fetch-IsFetch pc len m =
      Ensures-bind IsRead (IsFetch m) (bus.read pc len m.mem) _ (read-IsRead pc len m.mem)
        (λ (v, s) h. (h, omega arith, refl))

  invalid_inst-cpu : (pc : ℕ) (m : Machine S) → Ensures (KeptCpu m) (invalid_inst bus pc m)
  unfolding invalid_inst IsFetch set_nemu_state
  invalid_inst-cpu pc m =
      Ensures-bind (IsFetch m) (KeptCpu m) (inst_fetch bus pc 4 m) _ (inst_fetch-IsFetch pc 4 m)
        (λ (v, next, m1) h.
          Ensures-bind (IsFetch m1) (KeptCpu m) (inst_fetch bus next 4 m1) _
            (inst_fetch-IsFetch next 4 m1) (λ (v', next', m2) h'. h'.2 ∙ h.2))

  exec_inst-Kept :
      (i : Inst) (o : Operands) (s : Decode) (m : Machine S)
      → HasWords m.cpu
      → HasWordOperands o
      → IsWord s.pc
      → IsWord s.dnpc
      → Ensures Kept (exec_inst bus i o s m)
  unfolding exec_inst IsRead
  exec_inst-Kept (alu op) o s m w h p d =
      (set_reg-HasWords w o.rd _ (alu_value-IsWord op s.pc o h), d)
  exec_inst-Kept (branch op) o s m w h p d =
      (w, if_both IsWord (branch_taken op o.src1 o.src2) (u32-IsWord _) (u32-IsWord _))
  exec_inst-Kept (store op) o s m w h p d =
      Ensures-bind (λ _. Unit {0}) Kept
        (bus.write (u32 (o.src1 + o.imm)) (store_len op) o.src2 m.mem) _
        (Ensures-intro _ _ (λ _ _. tt)) (λ mem _. (w, d))
  exec_inst-Kept (load op) o s m w h p d =
      Ensures-bind IsRead Kept (bus.read (u32 (o.src1 + o.imm)) (load_len op) m.mem) _
        (read-IsRead (u32 (o.src1 + o.imm)) (load_len op) m.mem)
        (λ (v, mem) r. (set_reg-HasWords w o.rd _ (load_value-IsWord op v r), d))
  exec_inst-Kept (csr_op op) o s m w h p d = (exec_csr-HasWords op o w h, d)
  exec_inst-Kept jal o s m w h p d = (set_reg-HasWords w o.rd _ (u32-IsWord _), u32-IsWord _)
  exec_inst-Kept jalr o s m w h p d = (set_reg-HasWords w o.rd _ (u32-IsWord _), u32-IsWord _)
  exec_inst-Kept ebreak o s m w h p d = (w, d)
  exec_inst-Kept ecall o s m w h p d =
      let w' = exec_ecall-HasWords s.pc w p in (w', csr_read-IsWord w' _)
  exec_inst-Kept mret o s m w h p d = (exec_mret-HasWords w, csr_read-IsWord w _)
  exec_inst-Kept inv o s m w h p d =
      Ensures-bind (KeptCpu m) Kept (invalid_inst bus s.pc m) _ (invalid_inst-cpu s.pc m)
        (λ m' same. (subst HasWords (sym same) w, d))

  exec_entry-Kept :
      (e : Option Entry) (s : Decode) (m : Machine S)
      → HasWords m.cpu
      → IsWord s.pc
      → IsWord s.dnpc
      → Ensures Kept (exec_entry bus e s m)
  unfolding exec_entry
  exec_entry-Kept none s m w p d = (w, d)
  exec_entry-Kept (some e) s m w p d =
      Ensures-bind HasWordOperands Kept (decode_operand m.cpu s.inst e.format) _
        (Ensures-intro HasWordOperands _ (λ o h. (decode_operand-words s.inst e.format w h).0))
        (λ o h. exec_inst-Kept e.inst o s m w h p d)

  IsDone : Decode × Machine S → Type 0
  IsDone (s, m) = IsValid m.cpu × IsWord s.dnpc

  decode_exec-IsDone :
      (s : Decode) (m : Machine S)
      → HasWords m.cpu
      → IsWord s.pc
      → IsWord s.snpc
      → Ensures IsDone (decode_exec bus s m)
  unfolding decode_exec IsDone
  decode_exec-IsDone s m w p d =
      Ensures-bind (λ _. Unit {0}) IsDone (decode s.inst) _ (Ensures-intro _ _ (λ _ _. tt))
        (λ e _.
          Ensures-bind Kept IsDone (exec_entry bus e (record s { dnpc = s.snpc }) m) _
            (exec_entry-Kept e (record s { dnpc = s.snpc }) m w p d)
            (λ (s', m') k. (set_reg_zero-IsValid k.0, k.1)))

  -- An instruction that runs to its end, whichever word is fetched and whatever it does, leaves
  -- well-formed registers: 32 general and 12 control registers that hold 32-bit words, register 0
  -- zero again, and a next pc that is a word.
  pub isa_exec_once-IsValid :
      (s : Decode) (m : Machine S) {s' : Decode} {m' : Machine S}
      → IsValid m.cpu
      → IsWord s.pc
      → isa_exec_once bus s m ≡ ok (s', m')
      → IsValid m'.cpu × IsWord s'.dnpc
  unfolding isa_exec_once IsDone IsFetch
  isa_exec_once-IsValid s m v p e =
      Ensures-elim IsDone (isa_exec_once bus s m)
        (Ensures-bind (IsFetch m) IsDone (inst_fetch bus s.snpc 4 m) _
          (inst_fetch-IsFetch s.snpc 4 m)
          (λ (inst, next, m1) h.
            decode_exec-IsDone (record s { inst = inst; snpc = next }) m1
              (subst HasWords (sym h.2) v.words) p h.1))
        e
