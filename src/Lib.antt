-- ===== src/Lib.antt =====
-- Verification of NEMU, the emulator of the SoC-FPGA RISC-V project.
--
-- The program interprets RISC-V machine code. `cpu_exec` runs a loop: each round counts a cycle,
-- takes the timer's interrupt if it is enabled and pending, or else fetches, decodes and executes
-- one instruction, and then polls the devices. Instructions reach memory and devices through
-- `vaddr_read` and `vaddr_write`; an address outside of the memory is looked up in a table of
-- regions, and the access is done on the device's bytes around a call of the device's handler.
--
-- The parts, and the code that they model:
-- - Common: helpers. Outcome is the result of C code that may stop at a failed assertion or a panic
--   (`failed`) or do what C leaves undefined (`fault`); Word has the casts, shifts and bit macros of
--   nemu/include/macro.h; Bits, Int and Lists are the arithmetic below them.
-- - Isa: nemu/src/isa/riscv32. Pattern is the pattern language of nemu/include/cpu/decode.h; Inst
--   the table of `decode_exec`, and Inst.Manual the listing it is compared with; Operand
--   `decode_operand`; Alu the values that the bodies compute; Exec the bodies and
--   `isa_exec_once`, with `inst_fetch` of nemu/include/cpu/ifetch.h and
--   `invalid_inst` of nemu/src/engine/interpreter/hostcall.c; State the registers and their
--   accessors; Intr is system/intr.c and the reset of init.c; Difftest is difftest/dut.c.
-- - Memory: Host is nemu/include/memory/host.h, Paddr is nemu/src/memory/paddr.c and vaddr.c, and
--   Config the generated configuration and nemu/include/memory/paddr.h.
-- - Device: Map is nemu/src/device/io/map.c with nemu/include/device/map.h; Mmio is io/mmio.c;
--   PortIo is io/port-io.c; Intr is nemu/src/device/intr.c; HwdevTimer and HwdevUart are
--   nemu/src/device/hwdev_timer.c and hwdev_uart.c; Board puts the two on the bus. Keyboard, Sdcard
--   and Serial are keyboard.c, sdcard.c, serial.c and timer.c: handlers on states of their own.
-- - Cpu: Emulator is the whole state and `device_update` of nemu/src/device/device.c; Exec is
--   nemu/src/cpu/cpu-exec.c and nemu/src/utils/state.c; Difftest is nemu/src/cpu/difftest/dut.c with
--   the reference as a parameter, apart from the main loop.
-- - Sdb: nemu/src/monitor/sdb. Token is the scanner of expr.c, with the regular expressions of
--   Regex and the string functions of CString in place of the C library; Expr is its evaluator, and
--   Expr.Tree the meaning of an expression; Watch is watchpoint.c, a pool of list elements that
--   point into one array; Run is the main loop with watchpoints, and Command the table of commands
--   and the loop over the user's lines of sdb.c. Isa.RegName is nemu/src/isa/riscv32/reg.c.
-- The modules named Tests apply the theorems at concrete inputs.
--
-- Numbers are natural numbers; a 32-bit or 64-bit value keeps its wrap-around. Arrays are lists, and
-- pointers into one array are indices. State is passed explicitly: `Cpu` is the global `cpu`,
-- `Machine` adds `nemu_state` and the state of memory and devices, `Emulator` the main loop's
-- variables. Every loop is a structural recursion: over the pattern's characters with the 64 steps
-- that the macros unroll to, over the table, over the number of bytes, registers or rounds; there no
-- fuel is involved, and a run is cut short only where the code stops. In Sdb three loops take fuel:
-- the scanner's, as much as the text is long; the evaluator's, one more than the number of tokens;
-- and those along the lists of the pool, one more than the pool has elements. Theorems say that this
-- is enough.
--
-- Parameters: the values of the generated configuration (record Config and the addresses of the two
-- devices); the reference of Difftest; the scancodes of SDL; the host's clock and window events, the
-- terminal's input and the lines for the debugger, each as a list with one element for each time that
-- the code asks. The options that the model takes as set or not set are named in the files' comments:
-- the 32-bit RISC-V build with run-time checks, and the main loop with tracing, difftest, screen and
-- keyboard off; watchpoints are off in Cpu.Exec, and on in Sdb.
--
-- Not modelled: messages and statistics; the check of watchpoints by threads; the other instruction
-- sets; screen, sound, disk and alarm; what registers the devices of Keyboard, Sdcard and Serial; the
-- copies of RT-Thread, CoreMark, kconfig, fixdep and xprintf; hardware descriptions and assembly.
pub mod Common
pub mod Isa
pub mod Memory
pub mod Device
pub mod Cpu
pub mod Sdb
