-- ===== src/Drivers.antt =====
-- The device drivers: src/drivers.
pub mod Vga
pub mod Keyboard
pub mod Ports
pub mod Rtc
pub mod Pci
pub mod Timer
