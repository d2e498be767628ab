-- ===== src/Device.antt =====
-- The devices of NEMU: nemu/src/device.
pub mod Map
pub mod Mmio
pub mod PortIo
pub mod Intr
pub mod HwdevTimer
pub mod HwdevUart
pub mod Board
pub mod Keyboard
pub mod Sdcard
pub mod Serial
pub mod Tests
