-- ===== src/Phys/Manager.antt =====
-- The calls of the physical memory manager in kernel/src/memory/phys_manager.rs that other code
-- makes, and `add_region`. Each of them holds the manager's lock from its first line to its end, so
-- it is a function of the manager's state.
pub mod Serves
pub mod Calls
pub mod Linear
pub mod Region
use simple_os_rs.Common.{
  ℕ, zero, suc, ◌+◌, ◌-◌, ◌*◌, ◌/◌, ◌%◌, ◌^◌, min, List, [], ◌∷◌, ◌==◌, if◌then◌else◌,
}
use simple_os_rs.Common.Bits.{shl_one}
use simple_os_rs.Common.Outcome.{Outcome, ok, out_of_fuel, ◌>>=◌}
use simple_os_rs.Phys.Storage.{PhysManagerStorage}
use simple_os_rs.Phys.Order.{max_order, leading_zeros, trailing_zeros, get_size_order}
use simple_os_rs.Phys.Buddy.{Manager, free_block, alloc_block}

-- Fuel for one call for each order.
abbrev pub calls : ℕ
calls = max_order + 1

-- `addr >> 12`
abbrev pub page_of : ℕ → ℕ
page_of addr = addr / 4096

-- `index << 12`, on 64 bits
abbrev pub address_of : ℕ → ℕ
address_of index = index * 4096 % 2 ^ 64

-- The largest order that alignment, the pages left and `max_order` allow.
unfoldable pub region_order : ℕ → ℕ → ℕ
region_order index page_count =
    let index_order = trailing_zeros index in
    let count_order = 63 - leading_zeros page_count in min (min index_order count_order) max_order

module _ (storage : PhysManagerStorage) where
  -- The loop of `add_region`, with fuel for a round for each page that is left.
  unfoldable pub add_region : ℕ → Manager → ℕ → ℕ → Outcome Manager
  add_region zero m index page_count = if page_count == 0 then ok m else out_of_fuel
  add_region (suc fuel) m index page_count =
      let order = region_order index page_count in
      let round = free_block storage calls m index order >>= λ m'.
      add_region fuel m' (index + shl_one order) (page_count - shl_one order) in
      if page_count == 0 then ok m else round

  unfoldable pub free_page : Manager → ℕ → Outcome Manager
  free_page m addr = free_block storage calls m (page_of addr) 0

  unfoldable pub free_linear_pages : Manager → ℕ → ℕ → Outcome Manager
  free_linear_pages m addr count = free_block storage calls m (page_of addr) (get_size_order count)

  unfoldable pub free_pages : Manager → List ℕ → Outcome Manager
  free_pages m [] = ok m
  free_pages m (addr ∷ addresses) = do
    m' ← free_block storage calls m (page_of addr) 0
    free_pages m' addresses

  unfoldable pub alloc_page : Manager → Outcome (Manager × ℕ)
  alloc_page m = do (m', index) ← alloc_block storage calls m 0; ok (m', address_of index)

  unfoldable pub alloc_linear_pages : Manager → ℕ → Outcome (Manager × ℕ)
  alloc_linear_pages m count = do
    (m', index) ← alloc_block storage calls m (get_size_order count)
    ok (m', address_of index)

  -- The slice is given by its length, and comes back filled.
  unfoldable pub alloc_pages : Manager → ℕ → Outcome (Manager × List ℕ)
  alloc_pages m zero = ok (m, [])
  alloc_pages m (suc len) = do
    (m', index) ← alloc_block storage calls m 0
    (m'', rest) ← alloc_pages m' len
    ok (m'', address_of index ∷ rest)
