-- ===== src/Phys/Testing/Runs.antt =====
-- The unit tests pass in the model.
use simple_os_rs.Common.{◌≡◌, refl, true, arith}
use simple_os_rs.Common.Outcome.{ok}
use simple_os_rs.Phys.Storage.{PhysManagerStorage}
use simple_os_rs.Phys.Order.{bit_length, leading_zeros, low_zeros, trailing_zeros, get_size_order}
use simple_os_rs.Phys.Buddy.{free_block, alloc_block}
use simple_os_rs.Phys.Manager.{region_order}
use simple_os_rs.Phys.Testing.{
  IsVec, get_entry, get_index, test_storage, count_to_order, free_single, free_merge,
  free_merge_forward, free_merge_backward, free_dont_merge_different_orders,
  init_dont_merge_max_order, alloc_single, alloc_split, init_free_regions,
}

vector : IsVec 4194304 512
vector = record { not_null = omega arith; fits = omega arith }

abbrev storage : PhysManagerStorage
storage = test_storage 4194304 512 vector

count_to_order_passes : count_to_order ≡ true
unfolding count_to_order leading_zeros bit_length
count_to_order_passes = refl

free_single_passes : free_single storage 8388608 ≡ ok true
unfolding free_single free_block get_entry
free_single_passes = refl

free_merge_forward_passes : free_merge_forward storage 8388608 ≡ ok true
unfolding free_merge free_block get_entry
free_merge_forward_passes = refl

free_merge_backward_passes : free_merge_backward storage 8388608 ≡ ok true
unfolding free_merge free_block get_entry
free_merge_backward_passes = refl

free_dont_merge_different_orders_passes : free_dont_merge_different_orders storage 8388608 ≡ ok true
unfolding free_dont_merge_different_orders free_block region_order trailing_zeros low_zeros
    leading_zeros bit_length get_size_order get_entry
free_dont_merge_different_orders_passes = refl

init_dont_merge_max_order_passes : init_dont_merge_max_order storage 8388608 ≡ ok true
unfolding init_dont_merge_max_order free_block region_order trailing_zeros low_zeros leading_zeros
    bit_length get_entry
init_dont_merge_max_order_passes = refl

alloc_single_passes : alloc_single storage 8388608 ≡ ok true
unfolding alloc_single free_block region_order trailing_zeros low_zeros leading_zeros bit_length
    alloc_block get_entry get_index
alloc_single_passes = refl

alloc_split_passes : alloc_split storage 8388608 ≡ ok true
unfolding alloc_split free_block region_order trailing_zeros low_zeros leading_zeros bit_length
    alloc_block get_entry get_index
alloc_split_passes = refl

init_free_regions_passes : init_free_regions storage 8388608 ≡ ok true
unfolding init_free_regions free_block region_order trailing_zeros low_zeros leading_zeros
    bit_length get_entry
init_free_regions_passes = refl
