-- ===== src/Phys/Buddy/Freeing.antt =====
-- `free_block` of kernel/src/memory/phys_manager.rs: what it makes of the free pages.
use simple_os_rs.Common.{
  ℕ, zero, suc, ◌+◌, ◌%◌, ◌^◌, ◌<◌, ◌≤◌, ◌≡◌, ◌≢◌, ◌↔◌, ◌⊎◌, inl, inr, sym, ap, ap₂, subst, subst₂,
  ltb→lt, ◌∙◌, true, false, ltb, ◌==◌, arith, has, Bool-cases, ==_iff, le→not-ltb, not-ltb→le,
}
use simple_os_rs.Common.Bits.{two-pow_pos, two-pow-suc}
use native.Mathlib.Numerals.{add-one}
use simple_os_rs.Common.Outcome.{ok}
use simple_os_rs.Phys.Storage.{PhysManagerStorage}
use simple_os_rs.Phys.Order.{max_order, get_buddy_index, get_combined_index}
use simple_os_rs.Phys.Order.Neighbours.{
  Neighbours, buddy-Neighbours, get_buddy_index_twice, aligned_inside,
}
use simple_os_rs.Phys.Buddy.{Manager, can_merge, free_block}
use simple_os_rs.Phys.Buddy.Pages.{
  Blocks, In, Free, Covered, Disjoint, Valid, In-first, In-combined,
}
use simple_os_rs.Phys.Buddy.Repr.{
  Repr, pages_of, one_order, can_merge-has, without, without_kept, without_back, take_buddy-Repr,
  with_block, with_kept, with_back, with_self, add_block-Repr,
}

-- Taking blocks away keeps the rules.
pub Valid-sub :
    (L L' : Blocks) (n : ℕ) → ((k i : ℕ) → Free L' k i → Free L k i) → Valid L n → Valid L' n
Valid-sub L L' n sub v = record {
  aligned = λ k i f. v.aligned k i (sub k i f);
  inside = λ k i f. v.inside k i (sub k i f);
  apart = λ k i j a p f g. v.apart k i j a p (sub k i f) (sub j a g);
  merged = λ k i lt f. elim (Bool-cases (has (get_buddy_index i k) (L' k))) [
    | inl there ↦
        let both = sub k (get_buddy_index i k) (omega arith, there) in
        cc (v.merged k i lt (sub k i f), both.1)
    | inr gone ↦ gone
  ];
}

-- The block may be entered beside the free blocks of the view.
pub record Freeable (L : Blocks) (n i k : ℕ) : Type 0 where
  pub order_fits : k ≤ max_order
  pub below : i < n
  pub aligned : i % 2 ^ k ≡ 0
  pub disjoint : Disjoint L i k

module _ (storage : PhysManagerStorage) where
  -- After `free_block`, which returns, the free pages are those from before and the block's.
  pub record Freed (fuel : ℕ) (m : Manager) (L : Blocks) (i k : ℕ) : Type 0 where
    pub after : Manager
    pub view : Blocks
    pub returns : free_block storage fuel m i k ≡ ok after
    pub repr : Repr storage after view
    pub valid : Valid view (pages_of m)
    pub same_pages : pages_of after ≡ pages_of m
    pub pages : (p : ℕ) → Covered view p ↔ (Covered L p ⊎ In p i k)

  module _ (m : Manager) (L : Blocks) (r : Repr storage m L) (v : Valid L (pages_of m)) where
    pub unused_of_Disjoint :
        (i k : ℕ) → Disjoint L i k → (j : ℕ) → j ≤ max_order → has i (L j) ≡ false
    unused_of_Disjoint i k d j hj = elim (Bool-cases (has i (L j))) [
      | inl used ↦ absurd (
          d i (In-first i k)
            (record { order = j; index = i; free = (hj, used); within = In-first i j }))
      | inr out ↦ out
    ]

    pub index_fits : (i : ℕ) → i < pages_of m → i < 2 ^ 64
    index_fits i h = omega (arith, r.fits, storage.limit_fits)

    buddy_ne : (k i : ℕ) → k < max_order → i < pages_of m → i % 2 ^ k ≡ 0 → get_buddy_index i k ≢ i
    buddy_ne k i lt below h =
        let nb = buddy-Neighbours k i lt (index_fits i below) h in
        λ e. elim nb.side [
          | inl s ↦ omega (arith, s.0, two-pow_pos k)
          | inr s ↦ omega (arith, s.0, two-pow_pos k)
        ]

    new_old_apart :
        (i k : ℕ) (k' i' j a p : ℕ)
        → Disjoint L i k
        → (k ≡ k') × (i ≡ i')
        → Free L j a
        → In p i' k'
        → In p a j
        → ⊥
    new_old_apart i k k' i' j a p d new old here there =
        d p (subst₂ (λ x y. In p x y) (sym new.1) (sym new.0) here)
          (record { order = j; index = a; free = old; within = there })

    with_block-apart :
        (i k : ℕ)
        → Disjoint L i k
        → (k' i' j a p : ℕ) → Free (with_block storage m L r k i) k' i'
        → Free (with_block storage m L r k i) j a
        → In p i' k'
        → In p a j
        → (k' ≡ j) × (i' ≡ a)
    with_block-apart i k d k' i' j a p f g here there =
        elim (with_back storage m L r k i k' i' f.1) [
          | inl new ↦ elim (with_back storage m L r k i j a g.1) [
            | inl new' ↦ omega arith
            | inr old' ↦ absurd (new_old_apart i k k' i' j a p d new (g.0, old') here there)
          ]
          | inr old ↦ elim (with_back storage m L r k i j a g.1) [
            | inl new' ↦ absurd (new_old_apart i k j a k' i' p d new' (f.0, old) there here)
            | inr old' ↦ v.apart k' i' j a p (f.0, old) (g.0, old') here there
          ]
        ]

    -- A block at `i` of order `k` whose neighbour is free or itself is no neighbour of the new one.
    with_block-merged :
        (i k : ℕ)
        → Freeable L (pages_of m) i k
        → (k < max_order → has (get_buddy_index i k) (L k) ≡ false)
        → (k' i' : ℕ) → k' < max_order
        → Free (with_block storage m L r k i) k' i'
        → ¬ (has (get_buddy_index i' k') (with_block storage m L r k i k') ≡ true)
    with_block-merged i k f alone k' i' lt g there = elim (with_back storage m L r k i k' i' g.1) [
      | inl new ↦
          let low : k < max_order = rw new.0 lt in
          elim (with_back storage m L r k i k' (get_buddy_index i' k') there) [
            | inl both ↦
                buddy_ne k i low f.below f.aligned (ap₂ get_buddy_index new.1 new.0 ∙ sym both.1)
            | inr old ↦
                cc (alone low, old, ap₂ (λ x y. has (get_buddy_index x y) (L y)) new.1 new.0)
          ]
      | inr old ↦ elim (with_back storage m L r k i k' (get_buddy_index i' k') there) [
        | inl new ↦
            let low : k < max_order = rw new.0 lt in
            let back : get_buddy_index i k ≡ i' =
              ap₂ get_buddy_index new.1 new.0 ∙ get_buddy_index_twice k' i' (omega arith) in
            cc (alone low, old, ap₂ (λ x y. has x (L y)) back new.0)
        | inr both ↦ cc (v.merged k' i' lt (g.0, old), both)
      ]
    ]

    -- Entering a block whose neighbour is not free keeps the rules.
    pub with_block-Valid :
        (i k : ℕ)
        → Freeable L (pages_of m) i k
        → i + 2 ^ k ≤ pages_of m
        → (k < max_order → has (get_buddy_index i k) (L k) ≡ false)
        → Valid (with_block storage m L r k i) (pages_of m)
    with_block-Valid i k f fits alone = record {
      aligned = λ j a h. elim (with_back storage m L r k i j a h.1) [
        | inl new ↦ rw (← new.0, ← new.1) f.aligned
        | inr old ↦ v.aligned j a (h.0, old)
      ];
      inside = λ j a h. elim (with_back storage m L r k i j a h.1) [
        | inl new ↦ rw (← new.0, ← new.1) fits
        | inr old ↦ v.inside j a (h.0, old)
      ];
      apart = with_block-apart i k f.disjoint;
      merged = λ k' i' lt g.
          elim (Bool-cases (has (get_buddy_index i' k') (with_block storage m L r k i k'))) [
            | inl there ↦ absurd (with_block-merged i k f alone k' i' lt g there)
            | inr gone ↦ gone
          ];
    }

    pub with_block-Covered :
        (i k p : ℕ)
        → k ≤ max_order
        → Covered (with_block storage m L r k i) p ↔ (Covered L p ⊎ In p i k)
    with_block-Covered i k p hk = (
      λ c. elim (with_back storage m L r k i c.order c.index c.free.1) [
        | inl new ↦ inr (subst₂ (λ x y. In p x y) (sym new.1) (sym new.0) c.within)
        | inr old ↦
            inl (record {
              order = c.order;
              index = c.index;
              free = (c.free.0, old);
              within = c.within;
            })
      ],
      λ d. elim d [
        | inl c ↦ record {
          order = c.order;
          index = c.index;
          free = (c.free.0, with_kept storage m L r k i c.order c.index c.free.1);
          within = c.within;
        }
        | inr new ↦ record {
          order = k;
          index = i;
          free = (hk, with_self storage m L r k i);
          within = new;
        }
      ],
    )

    -- The branch of `free_block` that enters the block.
    add-Freed :
        (fuel i k : ℕ)
        → Freeable L (pages_of m) i k
        → pages_of m % 256 ≡ 0
        → can_merge storage m (get_buddy_index i k) k ≡ ok false
        → (k < max_order → has (get_buddy_index i k) (L k) ≡ false)
        → Freed (suc fuel) m L i k
    unfolding free_block
    add-Freed fuel i k f whole no_merge alone =
        let (m', added, repr, same) =
          add_block-Repr storage m L r k i f.order_fits f.below
            (unused_of_Disjoint i k f.disjoint) in
        let fits = aligned_inside k i (pages_of m) f.order_fits whole f.aligned f.below in
        record {
          after = m';
          view = with_block storage m L r k i;
          returns = rw (no_merge, added);
          repr = repr;
          valid = with_block-Valid i k f fits alone;
          same_pages = same;
          pages = λ p. with_block-Covered i k p f.order_fits;
        }

    -- Without its neighbour on the list, the combined block may be freed.
    without-Freeable :
        (i k : ℕ)
        → k < max_order
        → Freeable L (pages_of m) i k
        → has (get_buddy_index i k) (L k) ≡ true
        → Freeable
            (without storage m L r k (get_buddy_index i k))
            (pages_of m)
            (get_combined_index i k)
            (suc k)
    without-Freeable i k lt f free =
        let nb = buddy-Neighbours k i lt (index_fits i f.below) f.aligned in
        let b = get_buddy_index i k in
        record {
          order_fits = lt;
          below = elim nb.side [
            | inl s ↦ rw s.1 f.below
            | inr s ↦ omega (arith, s.0, s.1, f.below)
          ];
          aligned = nb.combined;
          disjoint = λ p h c.
              let (old, ne) =
                without_back storage m L r k b c.order c.index f.order_fits c.free.0 free
                  c.free.1 in
              elim ((In-combined p i k b (get_combined_index i k) nb).0 h) [
                | inl here ↦ f.disjoint p here (record {
                  order = c.order;
                  index = c.index;
                  free = (c.free.0, old);
                  within = c.within;
                })
                | inr there ↦
                    ne
                      (v.apart k b c.order c.index p (f.order_fits, free) (c.free.0, old) there
                        c.within).1
              ];
        }

    without-Covered :
        (i k p : ℕ)
        → k < max_order
        → Freeable L (pages_of m) i k
        → has (get_buddy_index i k) (L k) ≡ true
        → (Covered (without storage m L r k (get_buddy_index i k)) p
            ⊎ In p (get_combined_index i k) (suc k))
          ↔ (Covered L p ⊎ In p i k)
    without-Covered i k p lt f free =
        let b = get_buddy_index i k in
        let nb = buddy-Neighbours k i lt (index_fits i f.below) f.aligned in
        let buddy : In p b k → Covered L p =
          λ h. record { order = k; index = b; free = (f.order_fits, free); within = h } in
        (
          λ d. elim d [
            | inl c ↦
                let (old, ne) =
                  without_back storage m L r k b c.order c.index f.order_fits c.free.0 free
                    c.free.1 in
                inl (record {
                  order = c.order;
                  index = c.index;
                  free = (c.free.0, old);
                  within = c.within;
                })
            | inr h ↦ elim ((In-combined p i k b (get_combined_index i k) nb).0 h) [
              | inl here ↦ inr here
              | inr there ↦ inl (buddy there)
            ]
          ],
          λ d. elim d [
            | inl c ↦ elim (Bool-cases (b == c.index)) [
              | inl hit ↦
                  let e : b ≡ c.index = (==_iff b c.index).0 hit in
                  let o : k ≡ c.order =
                    one_order storage m L r k c.order c.index f.order_fits c.free.0
                      (ap (λ x. has x (L k)) (sym e) ∙ free) c.free.1 in
                  inr (
                    (In-combined p i k b (get_combined_index i k) nb).1
                      (inr (subst₂ (λ x y. In p x y) (sym e) (sym o) c.within)))
              | inr miss ↦ inl (record {
                order = c.order;
                index = c.index;
                free = (
                  c.free.0,
                  without_kept storage m L r k b c.order c.index c.free.1 (ground arith),
                );
                within = c.within;
              })
            ]
            | inr here ↦ inr ((In-combined p i k b (get_combined_index i k) nb).1 (inl here))
          ],
        )

    pub without-Valid :
        (k b : ℕ)
        → k ≤ max_order
        → has b (L k) ≡ true
        → Valid (without storage m L r k b) (pages_of m)
    without-Valid k b hk free =
        Valid-sub L (without storage m L r k b) (pages_of m)
          (λ j i g. (g.0, (without_back storage m L r k b j i hk g.0 free g.1).0)) v

    -- The branch of `free_block` that merges, given the call that it ends in.
    merge-Freed :
        (fuel i k : ℕ)
        → k < max_order
        → Freeable L (pages_of m) i k
        → (free : has (get_buddy_index i k) (L k) ≡ true)
        → can_merge storage m (get_buddy_index i k) k ≡ ok true
        → ((m₁ : Manager)
            → Repr storage m₁ (without storage m L r k (get_buddy_index i k))
            → pages_of m₁ ≡ pages_of m
            → Freed fuel m₁
                (without storage m L r k (get_buddy_index i k))
                (get_combined_index i k)
                (k + 1))
        → Freed (suc fuel) m L i k
    unfolding free_block
    merge-Freed fuel i k lt f free merges rec =
        let (m₁, taken, repr, same) =
          take_buddy-Repr storage m L r k (get_buddy_index i k) f.order_fits free in
        let d = rec m₁ repr same in
        record {
          after = d.after;
          view = d.view;
          returns = rw (merges, taken) d.returns;
          repr = d.repr;
          valid = rw (← same) d.valid;
          same_pages = d.same_pages ∙ same;
          pages = λ p.
              let iff =
                subst
                  (λ o. Covered d.view p ↔ (
                    Covered (without storage m L r k (get_buddy_index i k)) p
                    ⊎ In p (get_combined_index i k) o))
                  (add-one k) (d.pages p) in
              let iff' = without-Covered i k p lt f free in
              (λ c. iff'.0 (iff.0 c), λ c. iff.1 (iff'.1 c));
        }

  -- Among whole blocks of the largest order the neighbour is in range too.
  neighbour_below :
      (i k b c n : ℕ) → k < max_order → n % 256 ≡ 0 → Neighbours i k b c → i < n → b < n
  neighbour_below i k b c n lt whole nb h = elim nb.side [
    | inl s ↦
        let end = aligned_inside (suc k) i n lt whole (rw s.1 at nb.combined) h in
        omega (arith, s.0, two-pow-suc k, two-pow_pos k)
    | inr s ↦ omega (arith, s.0)
  ]

  can_merge-top : (m : Manager) (b k : ℕ) → max_order ≤ k → can_merge storage m b k ≡ ok false
  unfolding can_merge
  can_merge-top m b k h = rw (le→not-ltb k 8 h)

  -- With the block aligned, in range and disjoint from the free pages, and a bitmap of whole
  -- blocks of the largest order, `free_block` returns, and adds the block's pages and no other.
  pub free_block-Freed :
      (fuel : ℕ) (m : Manager) (L : Blocks) (i k : ℕ)
      → Repr storage m L
      → Valid L (pages_of m)
      → pages_of m % 256 ≡ 0
      → Freeable L (pages_of m) i k
      → max_order < fuel + k
      → Freed fuel m L i k
  free_block-Freed zero m L i k r v whole f enough = absurd (omega (arith, f.order_fits))
  free_block-Freed (suc fuel) m L i k r v whole f enough = elim (Bool-cases (ltb k max_order)) [
    | inr top ↦
        add-Freed m L r v fuel i k f whole
          (can_merge-top m (get_buddy_index i k) k (not-ltb→le k 8 top))
          (λ lt. absurd (omega (arith, not-ltb→le k 8 top)))
    | inl low ↦
        let lt : k < max_order = ltb→lt k 8 low in
        let nb = buddy-Neighbours k i lt (index_fits m L r v i f.below) f.aligned in
        let b = get_buddy_index i k in
        let here = aligned_inside k i (pages_of m) f.order_fits whole f.aligned f.below in
        let b_below =
          neighbour_below i k b (get_combined_index i k) (pages_of m) lt whole nb f.below in
        let test = can_merge-has storage m L r k b f.order_fits b_below in
        elim (Bool-cases (has b (L k))) [
          | inl free ↦ merge-Freed m L r v fuel i k lt f free (test ∙ rw (low, free)) λ m₁ r₁ same.
              free_block-Freed fuel m₁ (without storage m L r k b) (get_combined_index i k) (k + 1)
                r₁ (rw same (without-Valid m L r v k b f.order_fits free)) (rw same whole)
                (rw (same, add-one) (without-Freeable m L r v i k lt f free)) (omega arith)
          | inr busy ↦ add-Freed m L r v fuel i k f whole (test ∙ rw (low, busy)) (λ _. busy)
        ]
  ]
