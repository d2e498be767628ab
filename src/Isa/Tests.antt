-- ===== src/Isa/Tests.antt =====
-- The theorems on nemu/src/isa/riscv32 at concrete inputs.
use soc_fpga_bjtu_hwct.Common.{◌&&◌, ◌==◌, if◌then◌else◌}
use soc_fpga_bjtu_hwct.Common.{
  ◌+◌, ◌*◌, ◌/◌, ◌%◌, ◌^◌, ◌≡◌, refl, arith, false, ◌∷◌, Option, replicate, All-replicate,
}
use mathlib.Core.Path.{subst}
use soc_fpga_bjtu_hwct.Common.Outcome.{ok}
use soc_fpga_bjtu_hwct.Common.Word.{IsWord, bits, sext}
use soc_fpga_bjtu_hwct.Common.Int.{signed32}
use soc_fpga_bjtu_hwct.Isa.State.{
  Cpu, RunState, Bus, Machine, set_reg, csr_read, csr_write, mtvec_csr, mepc_csr, mcause_csr,
  mstatus_csr, mie_csr, mip_csr,
}
use soc_fpga_bjtu_hwct.Isa.State.Csr.{is_writable, csr_read-csr_write}
use soc_fpga_bjtu_hwct.Isa.State.Valid.{HasWords, IsValid}
use soc_fpga_bjtu_hwct.Isa.Pattern.{pattern_decode, matches}
use soc_fpga_bjtu_hwct.Isa.Pattern.Match.{agrees, digits, matches-pattern_decode}
use soc_fpga_bjtu_hwct.Isa.Operand.{Operands, imm_i, imm_u, imm_s, imm_b, imm_j, decode_operand}
use soc_fpga_bjtu_hwct.Isa.Operand.Immediate.{signed_bits, field_s, field_b, field_j, immediates}
use soc_fpga_bjtu_hwct.Isa.Inst.{Entry, mret, decode}
use soc_fpga_bjtu_hwct.Isa.Inst.Decode.{chosen}
use soc_fpga_bjtu_hwct.Isa.Inst.Manual.{executed_as, manual}
use soc_fpga_bjtu_hwct.Isa.Inst.Manual.Agree.{decode-manual}
use soc_fpga_bjtu_hwct.Isa.Alu.{alu_value}
use soc_fpga_bjtu_hwct.Isa.Exec.{Decode, exec_inst, isa_exec_once}
use soc_fpga_bjtu_hwct.Isa.Exec.Invariant.{IsWordBus, isa_exec_once-IsValid}
use soc_fpga_bjtu_hwct.Isa.Intr.{isa_raise_intr, restart}
use soc_fpga_bjtu_hwct.Isa.Intr.Reset.{restart-IsValid}
use soc_fpga_bjtu_hwct.Memory.Config.{Config}
use soc_fpga_bjtu_hwct.Isa.Intr.Trap.{bit_at, isa_raise_intr-state, mret-isa_raise_intr}

-- Registers that hold zero, with a handler at 0x80000100 and interrupts enabled.
abbrev cpu0 : Cpu
cpu0 = record {
  gpr = replicate 32 0;
  pc = 0x80000000;
  true_pc = 0;
  csr_pr = 0x80000100 ∷ 0 ∷ 0x1808 ∷ replicate 9 0;
  cycle = 0;
}

cpu0-HasWords : HasWords cpu0
cpu0-HasWords = record {
  gpr_length = refl;
  gpr_words = All-replicate IsWord 32 0 (omega arith);
  csr_length = refl;
  csr_words = (omega arith, (omega arith, (omega arith, All-replicate IsWord 9 0 (omega arith))));
}

cpu0-IsValid : IsValid cpu0
cpu0-IsValid = record { words = cpu0-HasWords; zero_reg = refl }

-- A memory that holds `addi x1, x0, 5` everywhere.
abbrev addi_bus : Bus (Unit {0})
addi_bus = record { read = λ addr len s. ok (0x00500093, s); write = λ addr len v s. ok s }

addi-IsWord : IsWord 0x00500093
addi-IsWord = omega arith

addi_bus-IsWordBus : IsWordBus addi_bus
addi_bus-IsWordBus = record { read_word = λ addr len s v s' e. subst IsWord (cc e) addi-IsWord }

abbrev decode0 : Decode
decode0 = record { pc = 0x80000000; snpc = 0x80000000; dnpc = 0; inst = 0 }

abbrev machine0 : Machine (Unit {0})
machine0 = record {
  cpu = cpu0;
  nemu = record { state = RunState.running; halt_pc = 0; halt_ret = 0 };
  mem = tt;
}

abbrev decode1 : Decode
decode1 = record { pc = 0x80000000; snpc = 0x80000004; dnpc = 0x80000004; inst = 0x00500093 }

abbrev machine1 : Machine (Unit {0})
machine1 = record machine0 { cpu = set_reg (set_reg cpu0 1 5) 0 0 }

addi_run : isa_exec_once addi_bus decode0 machine0 ≡ ok (decode1, machine1)
unfolding isa_exec_once decode decode_operand bits alu_value imm_i sext
addi_run = refl

isa_exec_once-IsValid_example : IsValid (set_reg (set_reg cpu0 1 5) 0 0) × IsWord 0x80000004
isa_exec_once-IsValid_example =
    isa_exec_once-IsValid addi_bus-IsWordBus decode0 machine0 cpu0-IsValid (omega arith) addi_run

-- FENCE.
decode-manual_example :
    (o : Option Entry) × (decode 0x0ff0000f ≡ ok o) × (chosen o ≡ executed_as (manual 0x0ff0000f))
decode-manual_example = decode-manual 0x0ff0000f (omega arith)

pattern_run : pattern_decode "? 01?" ≡ ok (record { key = 1; mask = 3; shift = 1 })
unfolding pattern_decode
pattern_run = refl

matches-pattern_decode_example :
    matches (record { key = 1; mask = 3; shift = 1 }) 0xb ≡ agrees (digits "? 01?") 0xb
matches-pattern_decode_example =
    matches-pattern_decode "? 01?" (record { key = 1; mask = 3; shift = 1 }) 0xb pattern_run

immediates_example :
    (signed32 (imm_i 0xfff10093) ≡ signed_bits 12 (0xfff10093 / 2 ^ 20))
    × (signed32 (imm_s 0xfff10093) ≡ signed_bits 12 (field_s 0xfff10093))
    × (signed32 (imm_b 0xfff10093) ≡ signed_bits 13 (field_b 0xfff10093))
    × (signed32 (imm_j 0xfff10093) ≡ signed_bits 21 (field_j 0xfff10093))
    × (imm_u 0xfff10093 ≡ 0xfff10093 / 2 ^ 12 * 2 ^ 12)
immediates_example = immediates 0xfff10093 (omega arith)

isa_raise_intr-state_example :
    let (target, c') = isa_raise_intr 3 0x80000010 cpu0 in
    let status = csr_read c' mstatus_csr in
    (target ≡ csr_read cpu0 mtvec_csr)
    × (csr_read c' mepc_csr ≡ 0x80000010)
    × (csr_read c' mcause_csr ≡ 2 ^ 31 + 3)
    × (bit_at 3 status ≡ 0)
    × (bit_at 7 status ≡ 1)
    × (status / 2 ^ 11 % 4 ≡ 3)
    × (status % 2 ^ 3 ≡ csr_read cpu0 mstatus_csr % 2 ^ 3)
    × (status / 2 ^ 13 ≡ csr_read cpu0 mstatus_csr / 2 ^ 13)
    × (c'.gpr ≡ cpu0.gpr)
isa_raise_intr-state_example = isa_raise_intr-state 3 0x80000010 cpu0 cpu0-HasWords (omega arith)

abbrev no_operands : Operands
no_operands = record { rd = 0; src1 = 0; src2 = 0; imm = 0; shamt_num = 0; csr_value = 0; csr = 0 }

mret-isa_raise_intr_example :
    (c' : Cpu) × (exec_inst addi_bus mret no_operands decode0
        (record machine0 { cpu = (isa_raise_intr 3 0x80000010 cpu0).1 })
      ≡ ok (record decode0 { dnpc = 0x80000010 }, record machine0 { cpu = c' }))
    × (bit_at 3 (csr_read c' mstatus_csr) ≡ 1)
    × (c'.gpr ≡ cpu0.gpr)
mret-isa_raise_intr_example =
    mret-isa_raise_intr addi_bus 3 0x80000010 no_operands decode0 machine0 cpu0-HasWords

csr_read-csr_write_example :
    (csr_read (csr_write cpu0 mepc_csr 7) mepc_csr
      ≡ (if is_writable mepc_csr && (mepc_csr == mepc_csr) then 7 else csr_read cpu0 mepc_csr))
    × ((csr_write cpu0 mepc_csr 7).gpr ≡ cpu0.gpr)
    × ((csr_write cpu0 mepc_csr 7).pc ≡ cpu0.pc)
    × ((csr_write cpu0 mepc_csr 7).cycle ≡ 0)
csr_read-csr_write_example = csr_read-csr_write cpu0 mepc_csr mepc_csr 7 refl

abbrev reset_config : Config
reset_config = record { mbase = 0x80000000; msize = 8; pc_reset_offset = 0; device = false }

restart-IsValid_example :
    IsValid (restart reset_config cpu0)
    × ((restart reset_config cpu0).pc ≡ 0x80000000)
    × ((restart reset_config cpu0).cycle ≡ 0)
    × (csr_read (restart reset_config cpu0) mstatus_csr ≡ 0x1800)
    × (csr_read (restart reset_config cpu0) mie_csr ≡ 0x80)
    × (csr_read (restart reset_config cpu0) mip_csr ≡ 0)
restart-IsValid_example = restart-IsValid reset_config cpu0 cpu0-HasWords
