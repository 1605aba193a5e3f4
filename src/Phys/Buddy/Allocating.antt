-- ===== src/Phys/Buddy/Allocating.antt =====
-- `alloc_block` of kernel/src/memory/phys_manager.rs: what it makes of the free pages.
use simple_os_rs.Common.{
  ℕ, zero, suc, ◌+◌, ◌%◌, ◌^◌, ◌<◌, ◌≤◌, ◌≡◌, ◌≢◌, ◌↔◌, ◌⊎◌, inl, inr, sym, ap, subst, subst₂, ◌∙◌,
  List, [], ◌∷◌, true, false, ◌==◌, arith, has, has_self, Bool-cases, ==_iff, List-cases,
}
use native.Mathlib.Numerals.{add-one}
use simple_os_rs.Common.Bits.{two-pow_pos, two-pow-suc}
use simple_os_rs.Common.Outcome.{ok, panic, out_of_physical_memory}
use simple_os_rs.Phys.Storage.{PhysManagerStorage, null}
use simple_os_rs.Phys.Order.{max_order, get_buddy_index}
use simple_os_rs.Phys.Order.Neighbours.{aligned_down, get_buddy_index-half, get_buddy_index_twice}
use simple_os_rs.Phys.Buddy.{Manager, alloc_block}
use simple_os_rs.Phys.Buddy.Pages.{Blocks, In, Free, Covered, Disjoint, Valid}
use simple_os_rs.Phys.Buddy.Repr.{
  Repr, pages_of, one_order, without, without_kept, without_back, with_block, add_block-Repr,
  pop_block-empty, pop_block-First,
}
use simple_os_rs.Phys.Buddy.Freeing.{
  Freeable, unused_of_Disjoint, with_block-Valid, with_block-Covered, without-Valid,
}

-- A free block of order `k` or larger.
pub record Available (L : Blocks) (k : ℕ) : Type 0 where
  pub order : ℕ
  pub index : ℕ
  pub large : k ≤ order
  pub free : Free L order index

module _ (storage : PhysManagerStorage) where
  open storage use {get_entry, get_index}

  -- `alloc_block` returns the first page of an aligned block in range, whose pages were free before
  -- and are not after; no other page changes.
  pub record Allocated (fuel : ℕ) (m : Manager) (L : Blocks) (k : ℕ) : Type 0 where
    pub after : Manager
    pub view : Blocks
    pub index : ℕ
    pub returns : alloc_block storage fuel m k ≡ ok (after, index)
    pub repr : Repr storage after view
    pub valid : Valid view (pages_of m)
    pub same_pages : pages_of after ≡ pages_of m
    pub aligned : index % 2 ^ k ≡ 0
    pub inside : index + 2 ^ k ≤ pages_of m
    pub taken : Disjoint view index k
    pub pages : (p : ℕ) → Covered L p ↔ (Covered view p ⊎ In p index k)

  module _ (m : Manager) (L : Blocks) (r : Repr storage m L) (v : Valid L (pages_of m)) where
    taken_off : (k b : ℕ) → Free L k b → Disjoint (without storage m L r k b) b k
    taken_off k b f p here c =
        let (old, ne) = without_back storage m L r k b c.order c.index f.0 c.free.0 f.1 c.free.1 in
        ne (v.apart k b c.order c.index p f (c.free.0, old) here c.within).1

    split_off :
        (k b p : ℕ) → Free L k b → Covered L p ↔ (Covered (without storage m L r k b) p ⊎ In p b k)
    split_off k b p f = (
      λ c. elim (Bool-cases (b == c.index)) [
        | inl hit ↦
            let e : b ≡ c.index = (==_iff b c.index).0 hit in
            let o : k ≡ c.order =
              one_order storage m L r k c.order c.index f.0 c.free.0
                (ap (λ x. has x (L k)) (sym e) ∙ f.1) c.free.1 in
            inr (subst₂ (λ x y. In p x y) (sym e) (sym o) c.within)
        | inr miss ↦ inl (record {
          order = c.order;
          index = c.index;
          free = (c.free.0, without_kept storage m L r k b c.order c.index c.free.1 (ground arith));
          within = c.within;
        })
      ],
      λ d. elim d [
        | inl c ↦
            let (old, ne) =
              without_back storage m L r k b c.order c.index f.0 c.free.0 f.1 c.free.1 in
            record { order = c.order; index = c.index; free = (c.free.0, old); within = c.within }
        | inr here ↦ record { order = k; index = b; free = f; within = here }
      ],
    )

    -- The branch of `alloc_block` that takes the first block of the list.
    first-Allocated :
        (fuel k i : ℕ) (is : List ℕ) → k ≤ max_order → L k ≡ i ∷ is → Allocated (suc fuel) m L k
    unfolding alloc_block
    first-Allocated fuel k i is hk e =
        let f = pop_block-First storage m L r k i is hk e in
        let free : has i (L k) ≡ true = rw e (has_self i is) in
        let il : i < storage.limit = omega (arith, r.in_range k i hk free, r.fits) in
        let used : (get_entry i == null) ≡ false = ground (arith, storage.get_entry_ne i il) in
        record {
          after = record f.popped { buddy_map = f.map };
          view = without storage m L r k i;
          index = i;
          returns = rw f.pops (rw (used, storage.get_index-get_entry i il, f.clears));
          repr = f.view;
          valid = without-Valid storage m L r v k i hk free;
          same_pages = f.same_pages;
          aligned = v.aligned k i (hk, free);
          inside = v.inside k i (hk, free);
          taken = taken_off k i (hk, free);
          pages = λ p. split_off k i p (hk, free);
        }

    -- What the call for the next larger order gives, with the order written as a successor.
    record Found (fuel k : ℕ) (m₂ : Manager) (L₂ : Blocks) (h : ℕ) : Type 0 where
      returns : alloc_block storage fuel m (k + 1) ≡ ok (m₂, h)
      repr : Repr storage m₂ L₂
      valid : Valid L₂ (pages_of m₂)
      same_pages : pages_of m₂ ≡ pages_of m
      aligned : h % 2 ^ suc k ≡ 0
      inside : h + 2 ^ suc k ≤ pages_of m₂
      taken : Disjoint L₂ h (suc k)
      pages : (p : ℕ) → Covered L p ↔ (Covered L₂ p ⊎ In p h (suc k))

    found : (fuel k : ℕ) (a : Allocated fuel m L (k + 1)) → Found fuel k a.after a.view a.index
    found fuel k a = record {
      returns = a.returns;
      repr = a.repr;
      valid = rw a.same_pages a.valid;
      same_pages = a.same_pages;
      aligned = subst (λ o. a.index % 2 ^ o ≡ 0) (add-one k) a.aligned;
      inside = rw a.same_pages (subst (λ o. a.index + 2 ^ o ≤ pages_of m) (add-one k) a.inside);
      taken = subst (Disjoint a.view a.index) (add-one k) a.taken;
      pages = λ p.
          subst (λ o. Covered L p ↔ (Covered a.view p ⊎ In p a.index o)) (add-one k) (a.pages p);
    }

    -- The branch of `alloc_block` that splits a larger block, given the call that finds it.
    module _ (fuel k : ℕ) (lt : k < max_order) (m₂ : Manager) (L₂ : Blocks) (h : ℕ)
        (f : Found fuel k m₂ L₂ h) where
      abbrev half : ℕ
      half = h + 2 ^ k

      halves : (p : ℕ) → In p h (suc k) → In p h k ⊎ In p half k
      halves p here = omega (arith, two-pow-suc k)

      half_is : get_buddy_index h k ≡ half
      half_is = (get_buddy_index-half k h lt f.aligned).0

      half-Freeable : Freeable L₂ (pages_of m₂) half k
      half-Freeable = record {
        order_fits = omega arith;
        below = omega (arith, f.inside, two-pow-suc k, two-pow_pos k);
        aligned = (get_buddy_index-half k h lt f.aligned).1;
        disjoint = λ p here. f.taken p (omega (arith, two-pow-suc k));
      }

      lower_gone : has (get_buddy_index half k) (L₂ k) ≡ false
      lower_gone =
          let back : get_buddy_index half k ≡ h =
            ap (λ x. get_buddy_index x k) (sym half_is) ∙ get_buddy_index_twice k h (omega arith) in
          rw back
            (unused_of_Disjoint storage m₂ L₂ f.repr f.valid h (suc k) f.taken k (omega arith))

      half_pages :
          (p : ℕ) → Covered L p ↔ (Covered (with_block storage m₂ L₂ f.repr k half) p ⊎ In p h k)
      half_pages p =
          let whole = f.pages p in
          let entered = with_block-Covered storage m₂ L₂ f.repr f.valid half k p (omega arith) in
          (
            λ c. elim (whole.0 c) [
              | inl old ↦ inl (entered.1 (inl old))
              | inr here ↦ elim (halves p here) [
                | inl low ↦ inr low
                | inr high ↦ inl (entered.1 (inr high))
              ]
            ],
            λ d. elim d [
              | inl c ↦ elim (entered.0 c) [
                | inl old ↦ whole.1 (inl old)
                | inr high ↦ whole.1 (inr (omega (arith, two-pow-suc k)))
              ]
              | inr low ↦ whole.1 (inr (omega (arith, two-pow-suc k)))
            ],
          )

      split-Allocated : L k ≡ [] → Allocated (suc fuel) m L k
      unfolding alloc_block
      split-Allocated e =
          let ok_half = half-Freeable in
          let fresh = unused_of_Disjoint storage m₂ L₂ f.repr f.valid half k ok_half.disjoint in
          let (m₃, added, repr, same) =
            add_block-Repr storage m₂ L₂ f.repr k half ok_half.order_fits ok_half.below fresh in
          let small : (k == max_order) ≡ false = ground arith in
          record {
            after = m₃;
            view = with_block storage m₂ L₂ f.repr k half;
            index = h;
            returns =
                rw (pop_block-empty storage m L r k ok_half.order_fits e)
                  (rw (small, f.returns, half_is, added));
            repr = repr;
            valid = rw (← f.same_pages) (
                with_block-Valid storage m₂ L₂ f.repr f.valid half k ok_half
                  (omega (arith, f.inside, two-pow-suc k)) (λ _. lower_gone));
            same_pages = same ∙ f.same_pages;
            aligned = aligned_down k h lt f.aligned;
            inside = rw (← f.same_pages) (omega (arith, f.inside, two-pow-suc k));
            taken = λ p here c.
                elim ((with_block-Covered storage m₂ L₂ f.repr f.valid half k p
                    ok_half.order_fits).0
                  c) [
                    | inl old ↦ f.taken p (omega (arith, two-pow-suc k)) old
                    | inr there ↦ omega arith
                  ];
            pages = half_pages;
          }

    larger_order : (k : ℕ) → L k ≡ [] → (a : Available L k) → suc k ≤ a.order
    larger_order k e a =
        let ne : k ≢ a.order =
          λ o. cc (a.free.1, ap (λ x. has a.index (L x)) o, ap (has a.index) e) in
        omega (arith, ne, a.large)

  pub alloc_block-Allocated :
      (fuel : ℕ) (m : Manager) (L : Blocks) (k : ℕ)
      → Repr storage m L
      → Valid L (pages_of m)
      → Available L k
      → max_order < fuel + k
      → Allocated fuel m L k
  alloc_block-Allocated zero m L k r v a enough = absurd (omega (arith, a.large, a.free.0))
  alloc_block-Allocated (suc fuel) m L k r v a enough = elim (List-cases (L k)) [
    | inr (i, is, e) ↦ first-Allocated m L r v fuel k i is (omega (arith, a.large, a.free.0)) e
    | inl e ↦
        let larger : suc k ≤ a.order = larger_order m L r v k e a in
        let rest =
          alloc_block-Allocated fuel m L (k + 1) r v
            (record { order = a.order; index = a.index; large = omega arith; free = a.free })
            (omega arith) in
        split-Allocated m L r v fuel k (omega (arith, a.free.0)) rest.after rest.view rest.index
          (found m L r v fuel k rest) e
  ]

  -- With no free block of the order or a larger one, `alloc_block` panics.
  pub alloc_block-panic :
      (fuel : ℕ) (m : Manager) (L : Blocks) (k : ℕ)
      → Repr storage m L
      → k ≤ max_order
      → ¬ Available L k
      → max_order < fuel + k
      → alloc_block storage fuel m k ≡ panic out_of_physical_memory
  unfolding alloc_block
  alloc_block-panic zero m L k r hk none_left enough = absurd (omega arith)
  alloc_block-panic (suc fuel) m L k r hk none_left enough = elim (List-cases (L k)) [
    | inr (i, is, e) ↦ absurd (
        none_left
          (record { order = k; index = i; large = omega arith; free = (hk, rw e (has_self i is)) }))
    | inl e ↦ elim (Bool-cases (k == max_order)) [
      | inl top ↦ rw (pop_block-empty storage m L r k hk e) (rw top)
      | inr low ↦
          let rest =
            alloc_block-panic fuel m L (k + 1) r (ground arith)
              (λ a. none_left (record {
                order = a.order;
                index = a.index;
                large = omega (arith, a.large);
                free = a.free;
              }))
              (omega arith) in
          rw (pop_block-empty storage m L r k hk e) (rw (low, rest))
    ]
  ]
