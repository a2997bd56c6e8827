-- ===== src/Drivers.antt =====
-- src/drivers: the devices behind ports.
pub mod Rtc
pub mod Pci
pub mod Ata
pub mod Keyboard
