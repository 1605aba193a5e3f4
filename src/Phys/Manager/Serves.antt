-- ===== src/Phys/Manager/Serves.antt =====
-- What a manager promises: it serves a set of free pages. Freeing a block adds its pages to the
-- set, and allocating one takes them out.
use simple_os_rs.Common.{
  ℕ, zero, suc, ◌+◌, ◌-◌, ◌%◌, ◌^◌, ◌<◌, ◌≤◌, ◌≡◌, ◌≢◌, ◌↔◌, ◌⊎◌, inl, inr, ap, arith, List-cases,
  has, has_self,
}
use simple_os_rs.Common.Outcome.{ok, panic, out_of_physical_memory}
use simple_os_rs.Phys.Storage.{PhysManagerStorage}
use simple_os_rs.Phys.Order.{max_order}
use simple_os_rs.Phys.Buddy.{Manager, free_block, alloc_block}
use simple_os_rs.Phys.Buddy.Pages.{Blocks, In, Covered, Valid}
use simple_os_rs.Phys.Buddy.Repr.{Repr, pages_of}
use simple_os_rs.Phys.Buddy.Freeing.{free_block-Freed}
use simple_os_rs.Phys.Buddy.Fit.{run-Available}
use simple_os_rs.Phys.Buddy.Allocating.{Available, alloc_block-Allocated, alloc_block-panic}

-- A set of pages.
abbrev pub Pages : Type 1
Pages = ℕ → Type 0

-- The manager `m` is well-formed, over a bitmap of `n` pages in whole blocks of the largest order,
-- and its free pages are those of `F`.
pub record Serves (storage : PhysManagerStorage) (n : ℕ) (m : Manager) (F : Pages) : Type 0 where
  pub view : Blocks
  pub repr : Repr storage m view
  pub valid : Valid view n
  pub size : pages_of m ≡ n
  pub whole : n % 256 ≡ 0
  pub free : (p : ℕ) → Covered view p ↔ F p

module _ (storage : PhysManagerStorage) where
  -- On a well-formed manager `free_block`, with fuel for the orders above, of an aligned block in
  -- range whose pages are not free returns a well-formed manager whose free pages are those from
  -- before and the block's.
  pub free_block-Serves :
      (fuel n : ℕ) (m : Manager) (F : Pages) (i k : ℕ)
      → Serves storage n m F
      → k ≤ max_order
      → i < n
      → i % 2 ^ k ≡ 0
      → ((p : ℕ) → In p i k → ¬ F p)
      → max_order < fuel + k
      → (m' : Manager) × (free_block storage fuel m i k ≡ ok m')
        × Serves storage n m' (λ p. F p ⊎ In p i k)
  free_block-Serves fuel n m F i k s hk lt al apart enough =
      let d =
        free_block-Freed storage fuel m s.view i k s.repr (rw s.size s.valid) (rw s.size s.whole)
          (record {
            order_fits = hk;
            below = rw s.size lt;
            aligned = al;
            disjoint = λ p h c. apart p h ((s.free p).0 c);
          })
          enough in
      (
        d.after,
        d.returns,
        record {
          view = d.view;
          repr = d.repr;
          valid = rw (← s.size) d.valid;
          size = rw (d.same_pages, s.size);
          whole = s.whole;
          free = λ p. (
            λ c. elim ((d.pages p).0 c) [ inl old ↦ inl ((s.free p).0 old) | inr new ↦ inr new ],
            λ f. elim f [
              | inl old ↦ (d.pages p).1 (inl ((s.free p).1 old))
              | inr new ↦ (d.pages p).1 (inr new)
            ],
          );
        },
      )

  -- What an allocation of a block of order `k` comes to: the first page, and the state after.
  pub record Took (fuel n : ℕ) (m : Manager) (F : Pages) (k : ℕ) : Type 0 where
    pub after : Manager
    pub index : ℕ
    pub returns : alloc_block storage fuel m k ≡ ok (after, index)
    pub aligned : index % 2 ^ k ≡ 0
    pub inside : index + 2 ^ k ≤ n
    pub were_free : (p : ℕ) → In p index k → F p
    pub serves : Serves storage n after (λ p. F p × ¬ In p index k)

  pub alloc-Took :
      (fuel n : ℕ) (m : Manager) (F : Pages) (k : ℕ) (s : Serves storage n m F)
      → Available s.view k
      → max_order < fuel + k
      → Took fuel n m F k
  alloc-Took fuel n m F k s av enough =
      let a = alloc_block-Allocated storage fuel m s.view k s.repr (rw s.size s.valid) av enough in
      record {
        after = a.after;
        index = a.index;
        returns = a.returns;
        aligned = a.aligned;
        inside = rw (← s.size) a.inside;
        were_free = λ p h. (s.free p).0 ((a.pages p).1 (inr h));
        serves = record {
          view = a.view;
          repr = a.repr;
          valid = rw (← s.size) a.valid;
          size = rw (a.same_pages, s.size);
          whole = s.whole;
          free = λ p. (
            λ c. ((s.free p).0 ((a.pages p).1 (inl c)), λ h. a.taken p h c),
            λ f. elim ((a.pages p).0 ((s.free p).1 f.0)) [ inl c ↦ c | inr h ↦ absurd (f.1 h) ],
          );
        };
      }

  -- An aligned run of free pages makes an allocation of its size succeed.
  pub run-Took :
      (fuel n : ℕ) (m : Manager) (F : Pages) (k i : ℕ)
      → Serves storage n m F
      → k ≤ max_order
      → i % 2 ^ k ≡ 0
      → ((p : ℕ) → In p i k → F p)
      → max_order < fuel + k
      → Took fuel n m F k
  run-Took fuel n m F k i s hk hi all enough =
      alloc-Took fuel n m F k s
        (run-Available s.view n s.valid k i hk hi λ p h. (s.free p).1 (all p h)) enough

  Available-cases : (rounds k : ℕ) (L : Blocks) → rounds + k ≡ 9 → Available L k ⊎ ¬ Available L k
  Available-cases zero k L e = inr λ a. omega (arith, a.large, a.free.0)
  Available-cases (suc rounds) k L e = elim (List-cases (L k)) [
    | inr (i, is, here) ↦ inl (record {
      order = k;
      index = i;
      large = omega arith;
      free = (omega arith, rw here (has_self i is));
    })
    | inl empty ↦ elim (Available-cases rounds (k + 1) L (omega arith)) [
      | inl a ↦ inl (record {
        order = a.order;
        index = a.index;
        large = omega (arith, a.large);
        free = a.free;
      })
      | inr none_left ↦ inr λ a.
          let ne : k ≢ a.order =
            λ o. cc (a.free.1, ap (λ x. has a.index (L x)) o, ap (has a.index) empty) in
          none_left (record {
            order = a.order;
            index = a.index;
            large = omega (arith, ne, a.large);
            free = a.free;
          })
    ]
  ]

  -- On a well-formed manager `alloc_block`, with fuel for the orders above, returns an aligned
  -- block in range that was free and leaves the other free pages, or panics with out of physical
  -- memory; then no aligned run of the size is free.
  pub alloc_block-cases :
      (fuel n : ℕ) (m : Manager) (F : Pages) (k : ℕ)
      → Serves storage n m F
      → k ≤ max_order
      → max_order < fuel + k
      → Took fuel n m F k
        ⊎ ((alloc_block storage fuel m k ≡ panic out_of_physical_memory)
            × ((i : ℕ) → i % 2 ^ k ≡ 0 → ¬ ((p : ℕ) → In p i k → F p)))
  alloc_block-cases fuel n m F k s hk enough =
      elim (Available-cases (9 - k) k s.view (omega arith)) [
        | inl a ↦ inl (alloc-Took fuel n m F k s a enough)
        | inr none_left ↦ inr (
          alloc_block-panic storage fuel m s.view k s.repr hk none_left enough,
          λ i hi all.
              none_left (run-Available s.view n s.valid k i hk hi λ p h. (s.free p).1 (all p h)),
        )
      ]
