-- ===== src/Phys/Tests/Examples.antt =====
-- The calls of the physical memory manager on a manager of 256 pages, of which 6 to 15 are free.
use simple_os_rs.Common.{ℕ, ◌%◌, ◌^◌, ◌≡◌, ◌⊎◌, inl, inr, refl, arith}
use simple_os_rs.Common.Outcome.{
  Outcome, ok, panic, out_of_fuel, index_out_of_bounds, out_of_physical_memory,
}
use simple_os_rs.Phys.Order.{get_size_order, bit_length, leading_zeros, low_zeros, trailing_zeros}
use simple_os_rs.Phys.Order.Size.{LeastOrder, get_size_order-LeastOrder}
use simple_os_rs.Phys.Buddy.{Manager, free_block, alloc_block}
use simple_os_rs.Phys.Buddy.Pages.{In}
use simple_os_rs.Phys.Manager.{
  calls, region_order, add_region, free_page, alloc_page, alloc_linear_pages, free_linear_pages,
}
use simple_os_rs.Phys.Manager.Serves.{Serves, free_block-Serves, Took, alloc_block-cases}
use simple_os_rs.Phys.Manager.Calls.{
  PageTaken, alloc_page-PageTaken, alloc_page-panic, free_page-Serves,
}
use simple_os_rs.Phys.Manager.Linear.{
  LinearCases, alloc_linear_pages-cases, free_linear_pages-alloc_linear_pages,
  alloc_linear_pages-large, alloc_linear_pages-zero,
}
use simple_os_rs.Phys.Manager.Region.{
  InRegion, RoundFits, region_order-RoundFits, add_region-Serves,
}
use simple_os_rs.Phys.Tests.{
  kernel_storage, blank, no_page, blank-Serves, ten_pages, six_to_fifteen, ten_pages-Serves,
}

add_region-Serves_example :
    (m' : Manager) × (add_region kernel_storage 10 blank 6 10 ≡ ok m')
    × Serves kernel_storage 256 m' (λ p. no_page p ⊎ InRegion p 6 10)
add_region-Serves_example =
    add_region-Serves kernel_storage 256 10 blank no_page 6 10 blank-Serves (omega arith)
      (omega arith) λ p h f. f

six_to_ten : RoundFits 6 10 (region_order 6 10)
six_to_ten = region_order-RoundFits 6 10 (omega arith) (omega arith)

alloc_linear_pages-cases_example : LinearCases kernel_storage 256 ten_pages six_to_fifteen 3
alloc_linear_pages-cases_example =
    alloc_linear_pages-cases kernel_storage 256 ten_pages six_to_fifteen 3 ten_pages-Serves
      (omega arith) (omega arith)

abbrev after_alloc : Outcome (Manager × ℕ) → Manager
after_alloc (ok (m, addr)) = m
after_alloc (panic e) = blank
after_alloc out_of_fuel = blank

-- Pages 8 to 11 are taken.
abbrev six_pages : Manager
unfolding alloc_linear_pages
six_pages = after_alloc (alloc_linear_pages kernel_storage ten_pages 3)

six_pages_lem : alloc_linear_pages kernel_storage ten_pages 3 ≡ ok (six_pages, 32768)
unfolding six_pages ten_pages alloc_linear_pages add_region free_block alloc_block region_order
    get_size_order leading_zeros bit_length trailing_zeros low_zeros
six_pages_lem = refl

free_linear_pages-alloc_linear_pages_example :
    (m' : Manager) × (free_linear_pages kernel_storage six_pages 32768 3 ≡ ok m')
    × Serves kernel_storage 256 m' six_to_fifteen
free_linear_pages-alloc_linear_pages_example =
    free_linear_pages-alloc_linear_pages kernel_storage 256 ten_pages six_pages six_to_fifteen 3
      32768 ten_pages-Serves (omega arith) (omega arith) six_pages_lem

alloc_page-PageTaken_example : PageTaken kernel_storage 256 ten_pages six_to_fifteen
alloc_page-PageTaken_example =
    alloc_page-PageTaken kernel_storage 256 ten_pages six_to_fifteen ten_pages-Serves 7
      (inr (omega arith, omega arith))

no_page_left : alloc_page kernel_storage blank ≡ panic out_of_physical_memory
no_page_left = alloc_page-panic kernel_storage 256 blank no_page blank-Serves λ p f. f

free_page-Serves_example :
    (m' : Manager) × (free_page kernel_storage ten_pages 20480 ≡ ok m')
    × Serves kernel_storage 256 m' (λ q. six_to_fifteen q ⊎ (q ≡ 5))
free_page-Serves_example =
    free_page-Serves kernel_storage 256 ten_pages six_to_fifteen ten_pages-Serves 20480
      (omega arith) λ f. elim f [ inl e ↦ e | inr h ↦ omega arith ]

free_block-Serves_example :
    (m' : Manager) × (free_block kernel_storage calls ten_pages 4 1 ≡ ok m')
    × Serves kernel_storage 256 m' (λ p. six_to_fifteen p ⊎ In p 4 1)
free_block-Serves_example =
    free_block-Serves kernel_storage calls 256 ten_pages six_to_fifteen 4 1 ten_pages-Serves
      (omega arith) (omega arith) (omega arith)
      (λ p h f. elim f [ inl e ↦ e | inr g ↦ omega arith ]) (omega arith)

alloc_block-cases_example :
    Took kernel_storage calls 256 ten_pages six_to_fifteen 3
    ⊎ ((alloc_block kernel_storage calls ten_pages 3 ≡ panic out_of_physical_memory)
        × ((i : ℕ) → i % 2 ^ 3 ≡ 0 → ¬ ((p : ℕ) → In p i 3 → six_to_fifteen p)))
alloc_block-cases_example =
    alloc_block-cases kernel_storage calls 256 ten_pages six_to_fifteen 3 ten_pages-Serves
      (omega arith) (omega arith)

large_run : alloc_linear_pages kernel_storage blank 257 ≡ panic index_out_of_bounds
large_run = alloc_linear_pages-large kernel_storage blank 257 (omega arith) (omega arith)

no_pages_lem : alloc_linear_pages kernel_storage blank 0 ≡ panic index_out_of_bounds
no_pages_lem = alloc_linear_pages-zero kernel_storage blank

get_size_order-LeastOrder_example : LeastOrder 13 (get_size_order 13)
get_size_order-LeastOrder_example = get_size_order-LeastOrder 13 (omega arith) (omega arith)
