-- ===== src/Phys/Buddy.antt =====
-- `free_block` and `alloc_block` of kernel/src/memory/phys_manager.rs. Both recur at most once for
-- each order, so fuel for `max_order + 1` calls is enough.
pub mod Pages
pub mod Repr
pub mod Freeing
pub mod Allocating
pub mod Fit
pub mod Bounds
use simple_os_rs.Common.{
  update, ℕ, zero, suc, ◌+◌, ◌/◌, ◌%◌, ltb, ◌==◌, if◌then◌else◌, not, ◌&&◌, bit_and, Bool, true,
  false,
}
use simple_os_rs.Common.Bits.{shl_one}
use simple_os_rs.Common.Outcome.{
  Outcome, ok, panic, out_of_fuel, index_out_of_bounds, out_of_physical_memory, ◌>>=◌,
}
use simple_os_rs.Phys.Storage.{Ptr, null, PhysManagerStorage}
use simple_os_rs.Phys.Order.{max_order, get_buddy_index, get_combined_index}
use simple_os_rs.Phys.Bitmap.{Bitmap, word_at, set_bit, clear_bit}
use simple_os_rs.Phys.FreeList.{
  Mem, Lists, new_entry, remove_buddy_list_entry, push_buddy_list_entry, pop_buddy_list_entry,
}

-- `free_lists` is an array of `max_order + 1` heads.
pub record Manager : Type 0 where
  pub mem : Mem
  pub free_lists : ℕ → Ptr
  pub buddy_map : Bitmap

-- `&mut free_lists[order]`, with its bounds check
unfoldable pub head_at : Manager → ℕ → Outcome Ptr
head_at m order =
    if ltb order (max_order + 1) then ok (m.free_lists order) else panic index_out_of_bounds

abbrev pub put : Manager → ℕ → Lists → Manager
put m order l = record m { mem = l.mem; free_lists = update m.free_lists order l.head }

module _ (storage : PhysManagerStorage) where
  open storage use {get_entry, get_index}

  -- The condition of `free_block`, whose parts are evaluated from left to right.
  unfoldable pub can_merge : Manager → ℕ → ℕ → Outcome Bool
  unfolding word_at
  can_merge m buddy_index order = if not (ltb order max_order) then ok false else do
    w ← word_at m.buddy_map (buddy_index / 64)
    ok (
        not (bit_and w (shl_one (buddy_index % 64)) == 0)
        && ((m.mem (get_entry buddy_index)).order == order))

  -- Takes the neighbour at `buddy_index` off its list.
  unfoldable pub take_buddy : Manager → ℕ → ℕ → Outcome Manager
  unfolding clear_bit head_at remove_buddy_list_entry
  take_buddy m buddy_index order = do
    map ← clear_bit m.buddy_map buddy_index
    head ← head_at m order
    ok (
        put (record m { buddy_map = map }) order
          (remove_buddy_list_entry m.mem head (get_entry buddy_index)))

  -- Enters the block at `index` as free.
  unfoldable pub add_block : Manager → ℕ → ℕ → Outcome Manager
  unfolding set_bit head_at push_buddy_list_entry
  add_block m index order = do
    map ← set_bit m.buddy_map index
    let mem = update m.mem (get_entry index) (new_entry order)
    head ← head_at m order
    ok (put (record m { buddy_map = map }) order (push_buddy_list_entry mem head (get_entry index)))

  unfoldable pub free_block : ℕ → Manager → ℕ → ℕ → Outcome Manager
  unfolding can_merge take_buddy add_block get_buddy_index get_combined_index
  free_block zero m index order = out_of_fuel
  free_block (suc fuel) m index order =
      let buddy_index = get_buddy_index index order in
      do
        merge ← can_merge m buddy_index order
        elim merge [
          | true ↦ take_buddy m buddy_index order >>= λ m'.
              free_block fuel m' (get_combined_index index order) (order + 1)
          | false ↦ add_block m index order
        ]

  -- Pops a block off the list of `order`; null where that is empty.
  unfoldable pub pop_block : Manager → ℕ → Outcome (Manager × Ptr)
  unfolding head_at pop_buddy_list_entry
  pop_block m order = do
    head ← head_at m order
    let (l, entry) = pop_buddy_list_entry m.mem head
    ok (put m order l, entry)

  -- The new state and the index of the block.
  unfoldable pub alloc_block : ℕ → Manager → ℕ → Outcome (Manager × ℕ)
  unfolding pop_block clear_bit add_block get_buddy_index
  alloc_block zero m order = out_of_fuel
  alloc_block (suc fuel) m order = do
    (m₁, entry) ← pop_block m order
    let split = if order == max_order then panic out_of_physical_memory else do
      (m₂, higher_block) ← alloc_block fuel m₁ (order + 1)
      m₃ ← add_block m₂ (get_buddy_index higher_block order) order
      ok (m₃, higher_block)
    if entry == null then split else do
      map ← clear_bit m₁.buddy_map (get_index entry)
      ok (record m₁ { buddy_map = map }, get_index entry)
