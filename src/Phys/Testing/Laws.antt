-- ===== src/Phys/Testing/Laws.antt =====
-- The manager of the unit tests: `new` on `TestStorage`.
use simple_os_rs.Common.{
  ℕ, false, ◌-◌, ◌*◌, ◌/◌, ◌%◌, ◌^◌, ◌<◌, ◌≤◌, ◌≡◌, ◌⊎◌, inl, inr, refl, List, [], ◌∷◌, arith,
}
use simple_os_rs.Common.Outcome.{ok, panic, index_out_of_bounds}
use simple_os_rs.Phys.Storage.{null, PhysManagerStorage}
use simple_os_rs.Phys.Order.{get_buddy_index, get_size_order, leading_zeros, bit_length}
use simple_os_rs.Phys.Order.Neighbours.{get_buddy_index-half}
use simple_os_rs.Phys.Buddy.Bounds.{free_block-panic}
use simple_os_rs.Phys.Manager.{page_of, free_linear_pages}
use simple_os_rs.Phys.FreeList.{new_entry}
use simple_os_rs.Phys.Buddy.{Manager}
use simple_os_rs.Phys.Manager.Serves.{Serves}
use simple_os_rs.Phys.Manager.Calls.{Serves-same}
use simple_os_rs.Phys.Init.{
  MemorySegment, is_free, end_of, max_address, add_segments, num_entries, new_with,
}
use simple_os_rs.Phys.Init.Segments.{FreeIn, Separate, Inside}
use simple_os_rs.Phys.Init.Laws.{
  NoWrap, num_pages, max_from-le, max_from-lt, max_from-Inside, cleared-Serves, add_segments-Serves,
}
use simple_os_rs.Phys.Testing.{IsVec, test_storage, new_test_storage, new_test}

-- For a map of segments that do not wrap and whose free segments are apart, on a number of pages
-- that is a multiple of 256, and a vector of so many pages, `new` with the storage of the unit
-- tests returns, and the manager is well-formed and serves the pages of the free segments.
pub new_test-Serves :
    (memory buddy_map : ℕ) (e : MemorySegment) (es : List MemorySegment)
    → (v : IsVec memory (num_pages e es)) → NoWrap (e ∷ es)
    → Separate (e ∷ es)
    → num_pages e es % 256 ≡ 0
    → (m : Manager) × (new_test (test_storage memory (num_pages e es) v) buddy_map (e ∷ es) ≡ ok m)
      × Serves (test_storage memory (num_pages e es) v) (num_pages e es) m (FreeIn (e ∷ es))
unfolding new_test new_with max_address new_test_storage
new_test-Serves memory buddy_map e es v wrap sep whole =
    let np = num_pages e es in
    let storage = test_storage memory np v in
    let top = max_from-lt (end_of e) es (omega arith) in
    let size : 64 * num_entries np ≡ np = omega (arith, top) in
    let ins : Inside np (e ∷ es) = (
      λ _. omega (arith, max_from-le (end_of e) es, wrap.0),
      max_from-Inside (end_of e) np es wrap.1 (omega arith),
    ) in
    let (m, done, s) =
      add_segments-Serves storage np (e ∷ es) _ (λ p. ⊥)
        (cleared-Serves storage np (λ p. new_entry 0) (num_entries np) size (omega arith) whole) sep
        ins (λ p h f. f) in
    (
      m,
      rw done refl,
      Serves-same storage np m (λ p. ⊥ ⊎ FreeIn (e ∷ es) p) s (λ p. FreeIn (e ∷ es) p)
          λ p. (λ f. elim f [ inl none ↦ absurd none | inr h ↦ h ], λ f. inr f),
    )

-- No segment is free.
abbrev pub AllOccupied : List MemorySegment → Type 0
AllOccupied [] = Unit
AllOccupied (e ∷ es) = (is_free e ≡ false) × AllOccupied es

add_segments-AllOccupied :
    (storage : PhysManagerStorage) (m : Manager) (es : List MemorySegment)
    → AllOccupied es
    → add_segments storage m es ≡ ok m
unfolding add_segments
add_segments-AllOccupied storage m [] occupied = refl
add_segments-AllOccupied storage m (e ∷ es) (here, rest) =
    rw here (add_segments-AllOccupied storage m es rest)

-- The buddy of the last 64 pages lies behind a bitmap with an odd number of words.
last-buddy :
    (words : ℕ) → words % 2 ≡ 1 → words < 2 ^ 58 → words ≤ get_buddy_index ((words - 1) * 64) 6 / 64
last-buddy words odd small =
    let even : (words - 1) * 64 % 128 ≡ 0 = omega (arith, odd) in
    let (after, aligned) = get_buddy_index-half 6 ((words - 1) * 64) (omega arith) even in
    omega (arith, after)

sixty_four : get_size_order 64 ≡ 6
unfolding get_size_order leading_zeros bit_length
sixty_four = refl

-- For a memory map with no free segment, on an odd multiple of 64 pages, and a vector of so many
-- pages, `new` with the storage of the unit tests returns, and to free the last 64 pages, which
-- are in range and not free, then panics with an index out of bounds.
pub free_linear_pages-new_test :
    (memory buddy_map : ℕ) (e : MemorySegment) (es : List MemorySegment)
    → (v : IsVec memory (num_pages e es)) → AllOccupied (e ∷ es)
    → num_pages e es % 128 ≡ 64
    → (m : Manager) × (new_test (test_storage memory (num_pages e es) v) buddy_map (e ∷ es) ≡ ok m)
      × (free_linear_pages
            (test_storage memory (num_pages e es) v)
            m
            ((num_pages e es - 64) * 4096)
            64
          ≡ panic index_out_of_bounds)
unfolding new_test new_with max_address new_test_storage free_linear_pages
free_linear_pages-new_test memory buddy_map e es v occupied odd =
    let np = num_pages e es in
    let storage = test_storage memory np v in
    let words = num_entries np in
    let top = max_from-lt (end_of e) es (omega arith) in
    let count : words * 64 ≡ np = omega (arith, top, odd) in
    let m : Manager = record {
      mem = λ p. new_entry 0;
      free_lists = λ order. null;
      buddy_map = record { word = λ entry. 0; len = words };
    } in
    let index : page_of ((np - 64) * 4096) ≡ (words - 1) * 64 = omega (arith, count) in
    (
      m,
      rw (add_segments-AllOccupied storage m (e ∷ es) occupied) refl,
      rw (index, sixty_four)
          (free_block-panic storage 8 m ((words - 1) * 64) 6 (omega arith)
            (last-buddy words (omega (arith, count, odd)) (omega (arith, count, top)))),
    )
