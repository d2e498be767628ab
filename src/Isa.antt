-- ===== src/Isa.antt =====
-- The RISC-V part of NEMU: nemu/src/isa/riscv32 and the decoder of nemu/include/cpu/decode.h.
pub mod Pattern
pub mod State
pub mod RegName
pub mod Alu
pub mod Inst
pub mod Operand
pub mod Exec
pub mod Intr
pub mod Difftest
pub mod Tests
