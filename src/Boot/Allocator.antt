-- ===== src/Boot/Allocator.antt =====
-- The calls of the firmware's page allocator, bootloader/src/allocator.rs.
use simple_os_rs.Common.{ℕ, ◌+◌, ◌/◌, ◌%◌, ◌^◌, Option}
use simple_os_rs.Common.Outcome.{Outcome, ok, ◌>>=◌}
use simple_os_rs.Boot.Start.{MemoryType}
use simple_os_rs.Boot.Firmware.{Firmware, any_pages, max_address, expect}

-- A size in pages, rounded up in 64 bits.
abbrev pub pages_of : ℕ → ℕ
pages_of size = (size + 4095) % 2 ^ 64 / 4096

module _ (F : Firmware) where
  unfoldable pub allocate : ℕ → MemoryType → F.Machine → Outcome (ℕ × F.Machine)
  allocate size memory_type m = expect (F.allocate_pages any_pages memory_type (pages_of size) m)

  -- `size` is the size of the type of the object.
  unfoldable pub allocate_object : ℕ → MemoryType → F.Machine → Outcome (ℕ × F.Machine)
  unfolding allocate
  allocate_object size memory_type m = allocate size memory_type m

  unfoldable pub free : ℕ → ℕ → F.Machine → Outcome F.Machine
  free block size m = do (_, m') ← expect (F.free_pages block (pages_of size) m); ok m'

  unfoldable pub allocate_below : ℕ → ℕ → MemoryType → F.Machine → Option ℕ × F.Machine
  allocate_below address num_pages memory_type m =
      F.allocate_pages (max_address address) memory_type num_pages m
