-- ===== src/Cpu/Tests.antt =====
-- The theorems on the main loop at concrete inputs.
use soc_fpga_bjtu_hwct.Common.{
  ◌⊎◌, ℕ, ◌+◌, ◌≡◌, ◌≢◌, refl, arith, true, false, [], ◌∷◌, replicate, All-replicate, set,
}
use soc_fpga_bjtu_hwct.Common.Outcome.{ok, Returns}
use soc_fpga_bjtu_hwct.Common.Word.{IsWord, bits, sext, u64}
use soc_fpga_bjtu_hwct.Isa.State.{Bus, Cpu, RunState, csr_read, mtvec_csr, mepc_csr, mcause_csr}
use soc_fpga_bjtu_hwct.Isa.State.Valid.{HasWords}
use soc_fpga_bjtu_hwct.Isa.Inst.{decode}
use soc_fpga_bjtu_hwct.Isa.Operand.{decode_operand, imm_i}
use soc_fpga_bjtu_hwct.Isa.Alu.{alu_value}
use soc_fpga_bjtu_hwct.Isa.Exec.{Decode, isa_exec_once}
use soc_fpga_bjtu_hwct.Isa.Exec.Progress.{IsRefused, isa_exec_once-Returns}
use soc_fpga_bjtu_hwct.Memory.Config.{Config}
use soc_fpga_bjtu_hwct.Memory.Paddr.{Memory, vaddr_bus}
use soc_fpga_bjtu_hwct.Memory.Paddr.Words.{vaddr_bus-IsWordBus}
use soc_fpga_bjtu_hwct.Device.HwdevTimer.{new_hwdev_timer}
use soc_fpga_bjtu_hwct.Device.HwdevUart.{new_hwdev_uart}
use soc_fpga_bjtu_hwct.Device.Board.{Board, call_back}
use soc_fpga_bjtu_hwct.Cpu.Emulator.{Emulator}
use soc_fpga_bjtu_hwct.Cpu.Exec.{intr_enabled, update_if_device, execute_step, cpu_exec}
use soc_fpga_bjtu_hwct.Cpu.Exec.Invariant.{IsSound, cpu_exec-IsSound}
use soc_fpga_bjtu_hwct.Cpu.Exec.Counters.{cpu_exec-counters}
use soc_fpga_bjtu_hwct.Cpu.Exec.Interrupt.{execute_step-interrupt}

abbrev pub config0 : Config
config0 = record { mbase = 0x80000000; msize = 8; pc_reset_offset = 0; device = false }

-- `addi x1, x0, 5`, and the timer's interrupt enabled and pending.
abbrev pub cpu1 : Cpu
cpu1 = record {
  gpr = replicate 32 0;
  pc = 0x80000000;
  true_pc = 0;
  csr_pr = 0x80000100 ∷ 0 ∷ 0x1808 ∷ 0 ∷ 0 ∷ 0x80 ∷ 8 ∷ replicate 5 0;
  cycle = 0;
}

abbrev pub board0 : Board
board0 = record {
  timer = new_hwdev_timer;
  timer_base = 0;
  terminal = record { uart = new_hwdev_uart; input = []; output = [] };
  uart_base = 4096;
}

abbrev pub emulator0 : Emulator
emulator0 = record {
  machine = record {
    cpu = cpu1;
    nemu = record { state = RunState.stop; halt_pc = 0; halt_ret = 0 };
    mem = record {
      pmem = 0x93 ∷ 0 ∷ 0x50 ∷ 0 ∷ replicate 4 0;
      io = record { io_space = []; p_space = 0; dev = board0 };
    };
  };
  timer_intr_pending = true;
  last = 0;
  host = [];
  g_nr_guest_inst = 0;
}

abbrev pub decode2 : Decode
decode2 = record { pc = 0; snpc = 0; dnpc = 0; inst = 0 }

cpu1-HasWords : HasWords cpu1
cpu1-HasWords = record {
  gpr_length = refl;
  gpr_words = All-replicate IsWord 32 0 (omega arith);
  csr_length = refl;
  csr_words = (
    omega arith,
    (
      omega arith,
      (
        omega arith,
        (
          omega arith,
          (omega arith, (omega arith, (omega arith, All-replicate IsWord 5 0 (omega arith)))),
        ),
      ),
    ),
  );
}

enabled_run : intr_enabled cpu1 ≡ true
unfolding intr_enabled
enabled_run = refl

execute_step-interrupt_example :
    (e' : Emulator) × (execute_step config0 [] decode2 emulator0
      ≡ ok (true, decode2, update_if_device config0 [] e'))
    × (e'.machine.cpu.pc ≡ csr_read cpu1 mtvec_csr)
    × (csr_read e'.machine.cpu mepc_csr ≡ 0x80000000)
    × (csr_read e'.machine.cpu mcause_csr ≡ 0x80000003)
    × (e'.machine.cpu.gpr ≡ replicate 32 0)
    × (e'.machine.mem ≡ emulator0.machine.mem)
    × (e'.timer_intr_pending ≡ false)
    × (e'.g_nr_guest_inst ≡ u64 (0 + 1))
    × (intr_enabled e'.machine.cpu ≡ false)
execute_step-interrupt_example =
    execute_step-interrupt config0 [] decode2 emulator0 cpu1-HasWords enabled_run refl

-- The same with no interrupt pending: one instruction is executed.
abbrev pub emulator1 : Emulator
emulator1 = record emulator0 {
  machine = record (emulator0.machine) { cpu = record cpu1 { csr_pr = set cpu1.csr_pr 6 0 } };
  timer_intr_pending = false;
}

abbrev emulator2 : Emulator
emulator2 = record emulator1 {
  machine = record (emulator1.machine) {
    cpu = record (emulator1.machine.cpu) {
      gpr = set (replicate 32 0) 1 5;
      pc = 0x80000004;
      true_pc = 0x80000000;
      cycle = 1;
    };
  };
  g_nr_guest_inst = 1;
}

cpu_exec_run : cpu_exec config0 [] 1 decode2 emulator1 ≡ ok emulator2
unfolding cpu_exec decode decode_operand bits alu_value imm_i sext
cpu_exec_run = refl

pub emulator1-IsSound : IsSound emulator1.machine.cpu
emulator1-IsSound = (
  record {
    words = record {
      gpr_length = refl;
      gpr_words = All-replicate IsWord 32 0 (omega arith);
      csr_length = refl;
      csr_words = (
        omega arith,
        (
          omega arith,
          (
            omega arith,
            (
              omega arith,
              (omega arith, (omega arith, (omega arith, All-replicate IsWord 5 0 (omega arith)))),
            ),
          ),
        ),
      );
    };
    zero_reg = refl;
  },
  omega arith,
)

cpu_exec-IsSound_example : IsSound emulator2.machine.cpu × (RunState.stop ≢ RunState.running)
cpu_exec-IsSound_example =
    cpu_exec-IsSound config0 [] 1 decode2 emulator1 emulator1-IsSound cpu_exec_run

cpu_exec-counters_example :
    u64 (emulator2.machine.cpu.cycle + emulator1.g_nr_guest_inst)
    ≡ u64 (emulator1.machine.cpu.cycle + emulator2.g_nr_guest_inst)
cpu_exec-counters_example = cpu_exec-counters config0 [] 1 decode2 emulator1 cpu_exec_run

-- The memory system of the program.
abbrev program_bus : Bus (Memory Board)
program_bus = vaddr_bus config0 call_back []

isa_exec_once-Returns_example :
    (¬ Returns (program_bus.read decode2.snpc 4 emulator1.machine.mem))
    ⊎ ((w : ℕ) × (mem : Memory Board) × (program_bus.read decode2.snpc 4 emulator1.machine.mem
          ≡ ok (w, mem))
        × (Returns (isa_exec_once program_bus decode2 emulator1.machine)
            ⊎ IsRefused program_bus w decode2.pc emulator1.machine.cpu mem))
isa_exec_once-Returns_example =
    isa_exec_once-Returns program_bus (vaddr_bus-IsWordBus config0 call_back []) decode2
      emulator1.machine
