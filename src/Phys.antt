-- ===== src/Phys.antt =====
-- The physical memory manager, kernel/src/memory/phys_manager.rs.
pub mod Storage
pub mod Order
pub mod Bitmap
pub mod FreeList
pub mod Buddy
pub mod Manager
pub mod Tests
pub mod Inline
pub mod Init
pub mod Testing
