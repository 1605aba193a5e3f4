-- ===== src/Phys/Tests/Construction.antt =====
-- The construction of the manager on a machine with 768 pages, of which 256 to 767 are free.
use simple_os_rs.Common.{◌≡◌, inl, inr, refl, arith, [], ◌∷◌}
use simple_os_rs.Common.Bits.Disjoint.{multiple_apart}
use simple_os_rs.Common.Outcome.{ok, panic, expect_failed, index_out_of_bounds}
use simple_os_rs.Virt.{phys_to_virt, virt_to_phys}
use simple_os_rs.Virt.Laws.{virt_to_phys-phys_to_virt}
use simple_os_rs.Phys.Storage.{PhysManagerStorage}
use simple_os_rs.Phys.FreeList.{new_entry}
use simple_os_rs.Phys.Inline.{IsHighBase, inline_storage}
use simple_os_rs.Phys.Init.{MemorySegment, free, occupied, new}
use simple_os_rs.Phys.Testing.{IsVec, test_storage, new_test}
use simple_os_rs.Phys.Testing.Laws.{new_test-Serves, free_linear_pages-new_test}
use simple_os_rs.Phys.Manager.{free_linear_pages}
use simple_os_rs.Phys.Buddy.{Manager}
use simple_os_rs.Phys.Manager.Serves.{Serves}
use simple_os_rs.Phys.Init.Segments.{FreeIn, Reserved, reserve-Reserved}
use simple_os_rs.Phys.Init.Laws.{new-panic}
use simple_os_rs.Phys.Tests.{high_mem_base}

pub high_mem_base-IsHighBase : IsHighBase high_mem_base 134217728
high_mem_base-IsHighBase = record {
  pages_fit = omega arith;
  base_fits = omega arith;
  base_ne = omega arith;
  apart = λ phys lt. multiple_apart 39 33554431 phys (omega arith);
}

abbrev pub storage : PhysManagerStorage
storage = inline_storage high_mem_base 134217728 high_mem_base-IsHighBase

abbrev pub low : MemorySegment
low = record { start = 0; page_count = 256; state = occupied }

abbrev pub high : MemorySegment
high = record { start = 1048576; page_count = 512; state = free }

abbrev small : MemorySegment
small = record { start = 0; page_count = 1; state = occupied }

vector : IsVec 4194304 768
vector = record { not_null = omega arith; fits = omega arith }

low_bitmap : Reserved 1 768 (low ∷ high ∷ [])
low_bitmap =
    reserve-Reserved 1 768 (omega arith) (low ∷ high ∷ []) (inr (inl refl))
      ((λ p h f. cc (h.0)), ((λ p h f. f), tt)) (λ e. cc, (λ e. omega arith, tt))

new-panic_example :
    (new storage (λ p. new_entry 0) [] ≡ panic expect_failed)
    × (new storage (λ p. new_entry 0) (small ∷ []) ≡ panic expect_failed)
new-panic_example =
    new-panic storage (λ p. new_entry 0) small [] λ r. elim r [ inl h ↦ cc | inr h ↦ h ]

address_back : virt_to_phys high_mem_base (phys_to_virt high_mem_base 753664) ≡ 753664
address_back = virt_to_phys-phys_to_virt high_mem_base 753664 (omega arith) (omega arith) refl

new_test-Serves_example :
    (m : Manager) × (new_test (test_storage 4194304 768 vector) 8388608 (low ∷ high ∷ []) ≡ ok m)
    × Serves (test_storage 4194304 768 vector) 768 m (FreeIn (low ∷ high ∷ []))
new_test-Serves_example =
    new_test-Serves 4194304 8388608 low (high ∷ []) vector (omega arith)
      ((λ p h f. cc (h.0)), ((λ p h f. f), tt)) refl

abbrev used : MemorySegment
used = record { start = 0; page_count = 192; state = occupied }

used_vector : IsVec 4194304 192
used_vector = record { not_null = omega arith; fits = omega arith }

free_linear_pages-new_test_example :
    (m : Manager) × (new_test (test_storage 4194304 192 used_vector) 8388608 (used ∷ []) ≡ ok m)
    × (free_linear_pages (test_storage 4194304 192 used_vector) m 524288 64
        ≡ panic index_out_of_bounds)
free_linear_pages-new_test_example =
    free_linear_pages-new_test 4194304 8388608 used [] used_vector (refl, tt) refl
