-- ===== src/Phys/Manager/Calls.antt =====
-- The calls of the physical memory manager against the set of free pages that it serves.
use simple_os_rs.Common.{ℕ, ◌%◌, ◌^◌, ◌<◌, ◌≤◌, ◌≡◌, ◌≢◌, ◌⊎◌, inl, inr, subst, arith}
use simple_os_rs.Common.Outcome.{ok, panic, out_of_physical_memory}
use simple_os_rs.Phys.Storage.{PhysManagerStorage}
use simple_os_rs.Phys.Order.{max_order, get_size_order}
use simple_os_rs.Phys.Order.Size.{get_size_order-LeastOrder}
use simple_os_rs.Phys.Buddy.{Manager}
use simple_os_rs.Phys.Buddy.Pages.{In}
use simple_os_rs.Phys.Manager.{calls, page_of, address_of, free_page, alloc_page}
use simple_os_rs.Phys.Manager.Serves.{Pages, Serves, free_block-Serves, run-Took, alloc_block-cases}

pub size_order_fits : (count : ℕ) → 1 ≤ count → count ≤ 256 → get_size_order count ≤ max_order
size_order_fits count h le = (get_size_order-LeastOrder count h (omega arith)).least 8 le

module _ (storage : PhysManagerStorage) (n : ℕ) where
  pub index_fits : (m : Manager) (F : Pages) → Serves storage n m F → n ≤ 2 ^ 52
  index_fits m F s = omega (arith, s.repr.fits, s.size, storage.limit_fits)

  pub page_of-address_of : (i : ℕ) → i < 2 ^ 52 → page_of (address_of i) ≡ i
  page_of-address_of i h = omega arith

  -- The abstract set may be given by any predicate that holds of the same pages.
  pub Serves-same :
      (m : Manager) (F : Pages) (s : Serves storage n m F) (G : Pages)
      → ((p : ℕ) → (F p → G p) × (G p → F p))
      → Serves storage n m G
  Serves-same m F s G same = record {
    view = s.view;
    repr = s.repr;
    valid = s.valid;
    size = s.size;
    whole = s.whole;
    free = λ p. (λ c. (same p).0 ((s.free p).0 c), λ g. (s.free p).1 ((same p).1 g));
  }

  -- What `alloc_page` gives: a page that was free, by its address, and a state without it.
  pub record PageTaken (m : Manager) (F : Pages) : Type 0 where
    pub after : Manager
    pub addr : ℕ
    pub returns : alloc_page storage m ≡ ok (after, addr)
    pub aligned : addr % 4096 ≡ 0
    pub below : page_of addr < n
    pub was_free : F (page_of addr)
    pub serves : Serves storage n after (λ q. F q × (q ≢ page_of addr))

  module _ (m : Manager) (F : Pages) (s : Serves storage n m F) where
    -- On a well-formed manager with a free page `alloc_page` returns the page-aligned address of
    -- a page in range that was free, and the free pages are then those from before without that
    -- page.
    pub alloc_page-PageTaken : (p : ℕ) → F p → PageTaken m F
    unfolding alloc_page
    alloc_page-PageTaken p free =
        let one : (q : ℕ) → In q p 0 → F q = λ q h. let e : p ≡ q = omega arith in subst F e free in
        let t = run-Took storage calls n m F 0 p s (omega arith) (omega arith) one (omega arith) in
        let i = t.index in
        let fits : i < 2 ^ 52 = omega (arith, t.inside, index_fits m F s) in
        let back : page_of (address_of i) ≡ i = page_of-address_of i fits in
        record {
          after = t.after;
          addr = address_of i;
          returns = rw t.returns;
          aligned = omega arith;
          below = omega (arith, back, t.inside);
          was_free = rw back (t.were_free i (omega arith));
          serves = rw back (
              Serves-same t.after (λ q. F q × ¬ In q i 0) t.serves (λ q. F q × (q ≢ i))
                λ q. (λ f. (f.0, λ e. f.1 (omega arith)), λ f. (f.0, λ h. f.1 (omega arith))));
        }

    -- On a well-formed manager without a free page `alloc_page` panics with out of physical
    -- memory.
    pub alloc_page-panic : ((p : ℕ) → ¬ F p) → alloc_page storage m ≡ panic out_of_physical_memory
    unfolding alloc_page
    alloc_page-panic none_free =
        elim (alloc_block-cases storage calls n m F 0 s (omega arith) (omega arith)) [
          | inl t ↦ absurd (none_free t.index (t.were_free t.index (omega arith)))
          | inr (e, _) ↦ rw e
        ]

    -- On a well-formed manager `free_page` of a page in range that is not free returns, and the
    -- free pages are those from before and that page.
    pub free_page-Serves :
        (addr : ℕ)
        → page_of addr < n
        → ¬ F (page_of addr)
        → (m' : Manager) × (free_page storage m addr ≡ ok m')
          × Serves storage n m' (λ q. F q ⊎ (q ≡ page_of addr))
    unfolding free_page
    free_page-Serves addr below used =
        let i = page_of addr in
        let apart : (q : ℕ) → In q i 0 → ¬ F q =
          λ q h f. let e : q ≡ i = omega arith in used (subst F e f) in
        let (m', done, s') =
          free_block-Serves storage calls n m F i 0 s (omega arith) below (omega arith) apart
            (omega arith) in
        (
          m',
          done,
          Serves-same m' (λ q. F q ⊎ In q i 0) s' (λ q. F q ⊎ (q ≡ i))
              λ q. (
                λ f. elim f [ inl old ↦ inl old | inr here ↦ inr (omega arith) ],
                λ f. elim f [ inl old ↦ inl old | inr here ↦ inr (omega arith) ],
              ),
        )
