-- ===== src/Boot/Paging/Tests.antt =====
-- The page table of a machine with 2 GB, and of one with a little over 1 TB.
use simple_os_rs.Common.{ℕ, ◌+◌, ◌^◌, ◌≤◌, ◌≡◌, refl, arith, bit_and, Option, some, List, [], ◌∷◌}
use simple_os_rs.Common.Outcome.{ok}
use simple_os_rs.Boot.Paging.{
  Buffer, high_mem_base, ptr_to_kernelspace, Paging, init, Descriptor, init_from_map,
}
use simple_os_rs.Boot.Paging.Mapping.{Maps, init-Maps}
use simple_os_rs.Virt.Arch
use simple_os_rs.Boot.Paging.Handover.{MapsHigh, init-MapsHigh}
use simple_os_rs.Boot.Paging.Mirror.{
  InMap, init_from_map-Maps, ptr_to_kernelspace-add, ptr_to_kernelspace-clash,
}

abbrev firmware : ℕ → Option (ℕ × Buffer)
firmware pages = some (1048576, λ (i : ℕ). 7)

abbrev two_gb : List Descriptor
two_gb =
    record { phys_start = 0; page_count = 160 }
    ∷ record { phys_start = 1048576; page_count = 524032 }
    ∷ []

init_two_gb :
    (paging : Paging) × (init firmware 2147483648 ≡ ok paging)
    × ((phys : ℕ) → phys ≤ 2147483648 → Maps paging phys)
init_two_gb =
    init-Maps firmware 2147483648 1048576 (λ (i : ℕ). 7) (omega arith) refl refl (omega arith)

init_from_map-Maps_example :
    (paging : Paging) × (init_from_map firmware two_gb ≡ ok paging)
    × ((a : ℕ) → InMap two_gb a → Maps paging a)
init_from_map-Maps_example =
    init_from_map-Maps firmware two_gb 1048576 (λ (i : ℕ). 7) (omega arith) (omega arith) refl refl
      (omega arith)

page_one_lem :
    (bit_and 4096 (high_mem_base 1) ≡ 0)
    × (ptr_to_kernelspace (high_mem_base 1) 4096 ≡ high_mem_base 1 + 4096)
page_one_lem =
    ptr_to_kernelspace-add 2147483648 0 4096 (omega arith) (omega arith) refl (omega arith)

ptr_to_kernelspace-clash_example :
    ptr_to_kernelspace (high_mem_base 3) (2 ^ 39) ≡ ptr_to_kernelspace (high_mem_base 3) 0
ptr_to_kernelspace-clash_example =
    ptr_to_kernelspace-clash 1099511627776 (omega arith) (omega arith) refl

init-MapsHigh_example :
    (paging : Paging) × (init_from_map firmware two_gb ≡ ok paging)
    × ((a : ℕ)
        → InMap two_gb a
        → MapsHigh (Arch.init paging.base paging.paging_info paging.table) paging.base a)
init-MapsHigh_example =
    init-MapsHigh firmware two_gb 1048576 (λ (i : ℕ). 7) (omega arith) (omega arith) refl refl
      (omega arith) refl
