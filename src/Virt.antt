-- ===== src/Virt.antt =====
-- Addresses of physical memory in the higher half: kernel/src/memory/virt_manager.rs. The static
-- `HIGH_MEM_BASE` is the first argument of the functions that read it.
pub mod Arch
pub mod Laws
use simple_os_rs.Common.{ℕ, bit_and, bit_or}
use simple_os_rs.Common.Bits.{complement}

unfoldable pub phys_to_virt : ℕ → ℕ → ℕ
phys_to_virt high_mem_base phys = bit_or phys high_mem_base

unfoldable pub virt_to_phys : ℕ → ℕ → ℕ
virt_to_phys high_mem_base virt = bit_and virt (complement 64 high_mem_base)
