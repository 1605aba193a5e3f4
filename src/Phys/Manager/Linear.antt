-- ===== src/Phys/Manager/Linear.antt =====
-- `alloc_linear_pages` and `free_linear_pages`: runs of pages.
use simple_os_rs.Common.{
  ℕ, ◌+◌, ◌%◌, ◌^◌, ◌<◌, ◌≤◌, ◌≡◌, ◌⊎◌, inl, inr, refl, subst₂, arith, dec_lt, le→not-ltb,
}
use native.Mathlib.Nat.{pow-le-pow_right}
use simple_os_rs.Common.Outcome.{ok, panic, index_out_of_bounds, out_of_physical_memory}
use simple_os_rs.Common.Bits.{two-pow_pos}
use simple_os_rs.Phys.Storage.{PhysManagerStorage}
use simple_os_rs.Phys.Order.{max_order, bit_length, leading_zeros, get_size_order}
use simple_os_rs.Phys.Order.Size.{get_size_order-LeastOrder}
use simple_os_rs.Phys.Buddy.{Manager, head_at, pop_block, alloc_block}
use simple_os_rs.Phys.Buddy.Pages.{In}
use simple_os_rs.Phys.Manager.{calls, page_of, address_of, free_linear_pages, alloc_linear_pages}
use simple_os_rs.Phys.Manager.Serves.{Pages, Serves, free_block-Serves, alloc_block-cases}
use simple_os_rs.Phys.Manager.Calls.{size_order_fits, index_fits, page_of-address_of, Serves-same}

module _ (storage : PhysManagerStorage) (n : ℕ) where
  -- What `alloc_linear_pages` gives: the address of an aligned block in range that holds `count`
  -- pages, was free, and is not free after.
  pub record RunTaken (m : Manager) (F : Pages) (count : ℕ) (after : Manager) (addr : ℕ)
      : Type 0 where
    pub page_aligned : addr % 4096 ≡ 0
    pub aligned : page_of addr % 2 ^ get_size_order count ≡ 0
    pub inside : page_of addr + 2 ^ get_size_order count ≤ n
    pub holds : count ≤ 2 ^ get_size_order count
    pub were_free : (p : ℕ) → In p (page_of addr) (get_size_order count) → F p
    pub serves : Serves storage n after (λ p. F p × ¬ In p (page_of addr) (get_size_order count))

  -- No aligned run of the size that `count` pages need is free.
  abbrev pub NoRun : Pages → ℕ → Type 0
  NoRun F count =
      (i : ℕ) → i % 2 ^ get_size_order count ≡ 0 → ¬ ((p : ℕ) → In p i (get_size_order count) → F p)

  -- `alloc_linear_pages` takes a run, or panics where there is none.
  pub data LinearCases (m : Manager) (F : Pages) (count : ℕ) : Type 0 where
    taken :
        (after : Manager) (addr : ℕ)
        → alloc_linear_pages storage m count ≡ ok (after, addr)
        → RunTaken m F count after addr
        → LinearCases m F count
    refused :
        alloc_linear_pages storage m count ≡ panic out_of_physical_memory
        → NoRun F count
        → LinearCases m F count

  -- On a well-formed manager and for 1 to 256 pages `alloc_linear_pages` returns the address of
  -- an aligned run in range that holds the pages, was free and is no longer, with all other pages
  -- as before; or it panics with out of physical memory, and then no aligned run of that size is
  -- free.
  pub alloc_linear_pages-cases :
      (m : Manager) (F : Pages) (count : ℕ)
      → Serves storage n m F
      → 1 ≤ count
      → count ≤ 256
      → LinearCases m F count
  unfolding alloc_linear_pages
  alloc_linear_pages-cases m F count s pos small =
      let k = get_size_order count in
      let hk = size_order_fits count pos small in
      elim (alloc_block-cases storage calls n m F k s hk (omega arith)) [
        | inl t ↦
            let i = t.index in
            let below : i < 2 ^ 52 =
              omega (arith, t.inside, two-pow_pos k, index_fits storage n m F s) in
            let back = page_of-address_of storage n i below in
            taken t.after (address_of i) (rw t.returns refl) (record {
              page_aligned = omega arith;
              aligned = rw back t.aligned;
              inside = rw back t.inside;
              holds = (get_size_order-LeastOrder count pos (omega arith)).holds;
              were_free = rw back t.were_free;
              serves = rw back t.serves;
            })
        | inr (e, no_run) ↦ refused (rw e) no_run
      ]

  In-cases : (p i k : ℕ) → In p i k ⊎ ¬ In p i k
  In-cases p i k = elim (dec_lt p i) [
    | yes before ↦ inr λ h. omega arith
    | no start ↦ elim (dec_lt p (i + 2 ^ k)) [
      | yes end ↦ inl (omega arith)
      | no behind ↦ inr λ h. omega arith
    ]
  ]

  -- Freeing what was taken gives the free pages from before.
  pub free_linear_pages-Serves :
      (m m' : Manager) (F : Pages) (count addr : ℕ)
      → RunTaken m F count m' addr
      → 1 ≤ count
      → count ≤ 256
      → (m'' : Manager) × (free_linear_pages storage m' addr count ≡ ok m'')
        × Serves storage n m'' F
  unfolding free_linear_pages
  free_linear_pages-Serves m m' F count addr t pos small =
      let k = get_size_order count in
      let i = page_of addr in
      let below : i < n = omega (arith, t.inside, two-pow_pos k) in
      let (m'', done, s') =
        free_block-Serves storage calls n m' (λ p. F p × ¬ In p i k) i k t.serves
          (size_order_fits count pos small) below t.aligned (λ p h f. f.1 h) (omega arith) in
      (
        m'',
        done,
        Serves-same storage n m'' (λ p. (F p × ¬ In p i k) ⊎ In p i k) s' F
            λ p. (
              λ f. elim f [ inl old ↦ old.0 | inr here ↦ t.were_free p here ],
              λ f. elim (In-cases p i k) [ inl here ↦ inr here | inr out ↦ inl (f, out) ],
            ),
      )

  -- On a well-formed manager what `alloc_linear_pages` returned for 1 to 256 pages can be given
  -- to `free_linear_pages` with the same count, which returns, and the free pages are those from
  -- before.
  pub free_linear_pages-alloc_linear_pages :
      (m m' : Manager) (F : Pages) (count addr : ℕ)
      → Serves storage n m F
      → 1 ≤ count
      → count ≤ 256
      → alloc_linear_pages storage m count ≡ ok (m', addr)
      → (m'' : Manager) × (free_linear_pages storage m' addr count ≡ ok m'')
        × Serves storage n m'' F
  free_linear_pages-alloc_linear_pages m m' F count addr s pos small e =
      go (alloc_linear_pages-cases m F count s pos small)
    where
      go :
          LinearCases m F count
          → (m'' : Manager) × (free_linear_pages storage m' addr count ≡ ok m'')
            × Serves storage n m'' F
      go (taken after a done t) =
          let same_state : after ≡ m' = cc in
          let same_addr : a ≡ addr = cc in
          free_linear_pages-Serves m m' F count addr
            (subst₂ (RunTaken m F count) same_state same_addr t) pos small
      go (refused done no_run) = absurd (cc)

-- A count that needs an order above `max_order`, and 0, whose order wraps round.
pub size_order_large : (count : ℕ) → 256 < count → count < 2 ^ 64 → max_order < get_size_order count
size_order_large count large lt = elim (dec_lt max_order (get_size_order count)) [
  | yes over ↦ over
  | no fits ↦ absurd (
      omega (
        arith,
        (get_size_order-LeastOrder count (omega arith) lt).holds,
        pow_small (get_size_order count) (omega arith),
      ))
]
  where
    pow_small : (k : ℕ) → k ≤ 8 → 2 ^ k ≤ 256
    pow_small k h = pow-le-pow_right (omega arith) h

pub size_order_zero : max_order < get_size_order 0
unfolding get_size_order leading_zeros bit_length
size_order_zero = omega arith

module _ (storage : PhysManagerStorage) (m : Manager) where
  head_at-panic : (k : ℕ) → max_order < k → head_at m k ≡ panic index_out_of_bounds
  unfolding head_at
  head_at-panic k h = rw (le→not-ltb k 9 h)

  -- For more than 256 pages, fewer than 2^64, `alloc_linear_pages` panics with an index out of
  -- bounds, whatever the state.
  pub alloc_linear_pages-large :
      (count : ℕ)
      → 256 < count
      → count < 2 ^ 64
      → alloc_linear_pages storage m count ≡ panic index_out_of_bounds
  unfolding alloc_linear_pages alloc_block pop_block
  alloc_linear_pages-large count large lt =
      rw (head_at-panic (get_size_order count) (size_order_large count large lt))

  -- For no page `alloc_linear_pages` of a release build panics with an index out of bounds,
  -- whatever the state.
  pub alloc_linear_pages-zero : alloc_linear_pages storage m 0 ≡ panic index_out_of_bounds
  unfolding alloc_linear_pages alloc_block pop_block
  alloc_linear_pages-zero = rw (head_at-panic (get_size_order 0) size_order_zero)
