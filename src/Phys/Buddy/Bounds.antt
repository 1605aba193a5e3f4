-- ===== src/Phys/Buddy/Bounds.antt =====
-- Where `free_block` reads the bitmap of a manager past its end.
use simple_os_rs.Common.{ℕ, suc, ◌/◌, ◌<◌, ◌≤◌, ◌≡◌, lt→ltb}
use simple_os_rs.Common.Outcome.{panic, index_out_of_bounds}
use simple_os_rs.Phys.Storage.{PhysManagerStorage}
use simple_os_rs.Phys.Order.{max_order, get_buddy_index}
use simple_os_rs.Phys.Bitmap.Laws.{word_at-out}
use simple_os_rs.Phys.Buddy.{Manager, can_merge, free_block}

-- `free_block`, with fuel, of a block below the largest order panics with an index out of bounds
-- where the word of its buddy lies behind the bitmap, whatever else the state holds.
pub free_block-panic :
    (storage : PhysManagerStorage) (fuel : ℕ) (m : Manager) (i k : ℕ)
    → k < max_order
    → m.buddy_map.len ≤ get_buddy_index i k / 64
    → free_block storage (suc fuel) m i k ≡ panic index_out_of_bounds
unfolding free_block can_merge
free_block-panic storage fuel m i k lt out =
    rw (lt→ltb k 8 lt, word_at-out m.buddy_map (get_buddy_index i k / 64) out)
