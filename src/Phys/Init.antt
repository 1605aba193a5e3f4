-- ===== src/Phys/Init.antt =====
-- The construction of the physical memory manager, kernel/src/memory/phys_manager.rs: `new`, and
-- `InlineStorage::new`, which takes the pages of the bitmap from the memory map.
pub mod Segments
pub mod Laws
pub mod Counting
use simple_os_rs.Common.{
  ℕ, ◌+◌, ◌-◌, ◌*◌, ◌/◌, ◌%◌, ◌^◌, List, [], ◌∷◌, Bool, true, false, ◌&&◌, leb, max, if◌then◌else◌,
}
use simple_os_rs.Common.Outcome.{Outcome, ok, panic, expect_failed, ◌>>=◌}
use simple_os_rs.Phys.Storage.{null, PhysManagerStorage}
use simple_os_rs.Phys.Bitmap.{Bitmap}
use simple_os_rs.Phys.FreeList.{Mem}
use simple_os_rs.Phys.Buddy.{Manager}
use simple_os_rs.Phys.Manager.{page_of, add_region}

pub data MemorySegmentState : Type 0 where
  free occupied : MemorySegmentState

pub record MemorySegment : Type 0 where
  pub start : ℕ
  pub page_count : ℕ
  pub state : MemorySegmentState

abbrev pub is_free : MemorySegment → Bool
is_free entry = elim entry.state [ free ↦ true | occupied ↦ false ]

-- `entry.start + entry.page_count * 4096`
abbrev pub end_of : MemorySegment → ℕ
end_of entry = (entry.start + entry.page_count * 4096) % 2 ^ 64

-- The largest end, from the one given on.
abbrev pub max_from : ℕ → List MemorySegment → ℕ
max_from m [] = m
max_from m (entry ∷ rest) = max_from (max m (end_of entry)) rest

unfoldable pub max_address : List MemorySegment → Outcome ℕ
max_address [] = panic expect_failed
max_address (entry ∷ rest) = ok (max_from (end_of entry) rest)

-- Takes `pages` pages from the start of the first segment that is free and has so many. The result
-- is their address and the map that is left.
unfoldable pub reserve : ℕ → List MemorySegment → Outcome (ℕ × List MemorySegment)
reserve pages [] = panic expect_failed
reserve pages (entry ∷ rest) =
    let found = record entry {
      start = (entry.start + pages * 4096) % 2 ^ 64;
      page_count = entry.page_count - pages;
    } in
    let later = reserve pages rest >>= λ r. ok (r.0, entry ∷ r.1) in
    if is_free entry && leb pages entry.page_count then ok (entry.start, found ∷ rest) else later

abbrev pub num_entries : ℕ → ℕ
num_entries num_pages = (num_pages + 63) % 2 ^ 64 / 64

abbrev pub num_storage_pages : ℕ → ℕ
num_storage_pages num_pages = (num_entries num_pages * 8 + 4095) / 4096

-- `InlineStorage::new`: the bitmap, cleared, its address, and the map that is left.
pub record Placed : Type 0 where
  pub buddy_map : Bitmap
  pub addr : ℕ
  pub memory_map : List MemorySegment

unfoldable pub new_inline_storage : ℕ → List MemorySegment → Outcome Placed
unfolding reserve
new_inline_storage num_pages memory_map = do
  (addr, memory_map') ← reserve (num_storage_pages num_pages) memory_map
  ok (record {
    buddy_map = record { word = λ entry. 0; len = num_entries num_pages };
    addr = addr;
    memory_map = memory_map';
  })

module _ (storage : PhysManagerStorage) where
  -- The loop of `new` over the free segments.
  unfoldable pub add_segments : Manager → List MemorySegment → Outcome Manager
  unfolding add_region
  add_segments m [] = ok m
  add_segments m (entry ∷ rest) = do
    m' ←
        if is_free entry
        then add_region storage entry.page_count m (page_of entry.start) entry.page_count
        else ok m
    add_segments m' rest

  -- `PhysMemoryManager::new`, from whatever the memory holds. `create` is `Storage::new`.
  unfoldable pub new_with :
      (ℕ → List MemorySegment → Outcome Placed)
      → Mem
      → List MemorySegment
      → Outcome (Manager × Placed)
  unfolding max_address add_segments
  new_with create mem memory_map = do
    addr ← max_address memory_map
    placed ← create (page_of addr) memory_map
    m ←
        add_segments
          (record { mem = mem; free_lists = λ order. null; buddy_map = placed.buddy_map })
          placed.memory_map
    ok (m, placed)

  -- With the inline storage.
  unfoldable pub new : Mem → List MemorySegment → Outcome (Manager × Placed)
  unfolding new_with new_inline_storage
  new = new_with new_inline_storage
