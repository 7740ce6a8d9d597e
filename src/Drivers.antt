-- ===== src/Drivers.antt =====
-- drivers/: the keyboard and the screen.
pub mod Keyboard
pub mod Screen
pub mod Ata
