-- ===== src/Boot.antt =====
-- The bootloader.
pub mod Paging
pub mod Start
pub mod Elf
pub mod Firmware
pub mod Allocator
pub mod Files
pub mod Segments
pub mod Main
