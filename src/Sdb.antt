-- ===== src/Sdb.antt =====
-- The simple debugger of the monitor: nemu/src/monitor/sdb, and the register names of
-- nemu/src/isa/riscv32/reg.c.
pub mod CString
pub mod Regex
pub mod Token
pub mod Expr
pub mod Tests
pub mod Watch
pub mod Run
pub mod Command
