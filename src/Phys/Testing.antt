-- ===== src/Phys/Testing.antt =====
-- The unit tests of kernel/src/memory/phys_manager.rs: `TestStorage`, a second backend of the
-- manager, and the bodies of the tests, which end with whether all of their assertions hold. Bytes of
-- the vector are read as free entries, which are entered before they are read.
pub mod Laws
pub mod Runs
use simple_os_rs.Common.{
  ℕ, ◌+◌, ◌-◌, ◌*◌, ◌/◌, ◌%◌, ◌^◌, ◌<◌, ◌≤◌, ◌≡◌, List, [], ◌∷◌, Bool, ◌==◌, ◌&&◌, not, bit_and,
  arith,
}
use simple_os_rs.Common.Bits.{shl_one}
use simple_os_rs.Common.Outcome.{Outcome, ok, ◌>>=◌}
use simple_os_rs.Phys.Storage.{null, PhysManagerStorage}
use simple_os_rs.Phys.Order.{max_order, get_size_order}
use simple_os_rs.Phys.Bitmap.{word_at}
use simple_os_rs.Phys.FreeList.{FreeEntry, new_entry}
use simple_os_rs.Phys.Buddy.{Manager}
use simple_os_rs.Phys.Manager.{free_page, free_linear_pages, alloc_page}
use simple_os_rs.Phys.Init.{
  MemorySegment, MemorySegmentState, free, occupied, num_entries, Placed, new_with,
}

-- A vector of `pages` pages at `memory`, whose address is not null.
pub record IsVec (memory pages : ℕ) : Type 0 where
  pub not_null : 1 ≤ memory
  pub fits : memory + pages * 4096 < 2 ^ 64

unfoldable pub get_entry : ℕ → ℕ → ℕ
get_entry memory index = (memory + index * 4096 % 2 ^ 64) % 2 ^ 64

unfoldable pub get_index : ℕ → ℕ → ℕ
get_index memory entry = (entry + 2 ^ 64 - memory) % 2 ^ 64 / 4096

module _ (memory pages : ℕ) (v : IsVec memory pages) where
  pub get_index-get_entry : (i : ℕ) → i < pages → get_index memory (get_entry memory i) ≡ i
  unfolding get_index get_entry
  get_index-get_entry i lt = omega (arith, v.fits, v.not_null)

  pub get_entry_ne : (i : ℕ) → i < pages → ¬ (get_entry memory i ≡ null)
  unfolding get_entry
  get_entry_ne i lt e = omega (arith, v.fits, v.not_null, e)

  -- The storage meets what the manager asks of one, too.
  abbrev pub test_storage : PhysManagerStorage
  test_storage = record {
    get_entry = get_entry memory;
    get_index = get_index memory;
    limit = pages;
    limit_fits = omega (arith, v.fits);
    get_index-get_entry = get_index-get_entry;
    get_entry_ne = get_entry_ne;
  }

-- `TestStorage::new`. The vector of the bitmap lies at `buddy_map`.
unfoldable pub new_test_storage : ℕ → ℕ → List MemorySegment → Outcome Placed
new_test_storage buddy_map num_pages memory_map = ok (record {
  buddy_map = record { word = λ entry. 0; len = num_entries num_pages };
  addr = buddy_map;
  memory_map = memory_map;
})

-- `get_buddy_map()[index / 64] & (1 << index % 64) != 0`
unfoldable pub is_set : Manager → ℕ → Outcome Bool
unfolding word_at
is_set m index = do
  word ← word_at m.buddy_map (index / 64)
  ok (not (bit_and word (shl_one (index % 64)) == 0))

-- The assertions on a list that holds one entry.
abbrev pub single : Manager → ℕ → Bool
single m order =
    let head = m.free_lists order in
    let entry = m.mem head in
    ((not (head == null) && (entry.next == null)) && (entry.prev == null)) && (entry.order == order)

abbrev pub empty : Manager → ℕ → Bool
empty m order = m.free_lists order == null

-- A segment of the tests.
abbrev pub map_segment : ℕ → ℕ → MemorySegmentState → MemorySegment
map_segment start page_count state = record {
  start = start;
  page_count = page_count;
  state = state;
}

unfoldable pub count_to_order : Bool
unfolding get_size_order
count_to_order =
    (((get_size_order 1 == 0) && (get_size_order 2 == 1)) && (get_size_order 3 == 2))
    && ((get_size_order 4 == 2) && (get_size_order 13 == 4))

module _ (storage : PhysManagerStorage) (buddy_map : ℕ) where
  -- `PhysMemoryManager::<TestStorage>::new(mmap)`, with a vector of zeros.
  unfoldable pub new_test : List MemorySegment → Outcome Manager
  unfolding new_with new_test_storage
  new_test mmap = do
    (m, placed) ← new_with storage (new_test_storage buddy_map) (λ p. new_entry 0) mmap
    ok m

  unfoldable pub free_single : Outcome Bool
  unfolding new_test free_page is_set
  free_single = do
    m₀ ← new_test (map_segment 0 30 occupied ∷ [])
    m ← free_page storage m₀ (7 * 4096)
    b₇ ← is_set m 7
    ok (b₇ && single m 0)

  -- The tests that merge two pages, in either order.
  unfoldable pub free_merge : ℕ → ℕ → Outcome Bool
  unfolding new_test free_page is_set
  free_merge first second = do
    m₀ ← new_test (map_segment 0 30 occupied ∷ [])
    m₁ ← free_page storage m₀ (first * 4096)
    m ← free_page storage m₁ (second * 4096)
    b₆ ← is_set m 6
    b₇ ← is_set m 7
    ok (((b₆ && not b₇) && empty m 0) && single m 1)

  abbrev pub free_merge_forward : Outcome Bool
  free_merge_forward = free_merge 6 7

  abbrev pub free_merge_backward : Outcome Bool
  free_merge_backward = free_merge 7 6

  unfoldable pub free_dont_merge_different_orders : Outcome Bool
  unfolding new_test free_linear_pages is_set
  free_dont_merge_different_orders = do
    m₀ ← new_test (map_segment 0 1 free ∷ map_segment 1 3 occupied ∷ [])
    m ← free_linear_pages storage m₀ (2 * 4096) 2
    b₀ ← is_set m 0
    b₁ ← is_set m 1
    b₂ ← is_set m 2
    b₃ ← is_set m 3
    ok (((b₀ && not b₁) && (b₂ && not b₃)) && (single m 0 && single m 1))

  unfoldable pub init_dont_merge_max_order : Outcome Bool
  unfolding new_test is_set
  init_dont_merge_max_order = do
    m ← new_test (map_segment 0 (2 ^ max_order * 2) free ∷ [])
    b₀ ← is_set m 0
    b ← is_set m (2 ^ max_order)
    let head = m.free_lists max_order
    let entry = m.mem head
    ok (
        (b₀ && b)
        && (((not (head == null) && not (entry.next == null)) && (entry.prev == null))
            && (entry.order == max_order)))

  unfoldable pub alloc_single : Outcome Bool
  unfolding new_test alloc_page is_set
  alloc_single = do
    m₀ ← new_test (map_segment 0 1 free ∷ [])
    (m, page) ← alloc_page storage m₀
    b₀ ← is_set m 0
    ok (((page == 0) && not b₀) && empty m 0)

  unfoldable pub alloc_split : Outcome Bool
  unfolding new_test alloc_page is_set
  alloc_split = do
    m₀ ← new_test (map_segment 0 2 free ∷ [])
    (m, page) ← alloc_page storage m₀
    b₀ ← is_set m 0
    b₁ ← is_set m 1
    ok ((((page == 0) && not b₀) && b₁) && (not (empty m 0) && empty m 1))

  unfoldable pub init_free_regions : Outcome Bool
  unfolding new_test is_set
  init_free_regions = do
    m ← new_test (map_segment (68 * 4096) 2 free ∷ map_segment (70 * 4096) 2 free ∷ [])
    b₄ ← is_set m 68
    b₆ ← is_set m 70
    m' ← new_test (map_segment (68 * 4096) 2 free ∷ map_segment (70 * 4096) 1 free ∷ [])
    b₄' ← is_set m' 68
    b₆' ← is_set m' 70
    ok (
        ((b₄ && not b₆) && ((empty m 0 && empty m 1) && single m 2))
        && ((b₄' && b₆') && ((single m' 0 && single m' 1) && empty m' 2)))
