-- ===== src/Cpu.antt =====
-- The main loop of NEMU: nemu/src/cpu/cpu-exec.c, nemu/src/utils/state.c, `device_update` of
-- nemu/src/device/device.c, and nemu/src/cpu/difftest/dut.c.
pub mod Emulator
pub mod Exec
pub mod Difftest
pub mod Tests
