-- ===== src/Memory.antt =====
-- The memory of NEMU: nemu/include/memory/host.h, nemu/src/memory/paddr.c and vaddr.c.
pub mod Config
pub mod Host
pub mod Paddr
pub mod Tests
