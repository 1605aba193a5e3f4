-- ===== src/Phys/Init/Laws.antt =====
-- After `new` the manager serves the pages of the free segments, without those of its bitmap.
use simple_os_rs.Common.{
  ℕ, ◌+◌, ◌*◌, ◌%◌, ◌^◌, ◌<◌, ◌≤◌, ◌≡◌, ◌⊎◌, inl, inr, refl, List, [], ◌∷◌, max, arith, Bool-cases,
}
use simple_os_rs.Common.Bits.{bit-zero}
use simple_os_rs.Common.Outcome.{ok, panic, expect_failed}
use simple_os_rs.Phys.Storage.{null, PhysManagerStorage}
use simple_os_rs.Phys.FreeList.{Mem}
use simple_os_rs.Phys.Buddy.{Manager}
use simple_os_rs.Phys.Manager.{page_of}
use simple_os_rs.Phys.Manager.Serves.{Pages, Serves}
use simple_os_rs.Phys.Manager.Calls.{Serves-same}
use simple_os_rs.Phys.Manager.Region.{InRegion, add_region-Serves}
use simple_os_rs.Phys.Init.{
  MemorySegment, is_free, end_of, max_from, max_address, num_entries, num_storage_pages, Placed,
  new_inline_storage, add_segments, new_with, new,
}
use simple_os_rs.Phys.Init.Segments.{
  FreeIn, Separate, Inside, Roomy, reserve-Reserved, reserve-panic,
}

-- No segment runs past the end of the 64-bit addresses.
abbrev pub NoWrap : List MemorySegment → Type 0
NoWrap [] = Unit
NoWrap (e ∷ es) = (e.start + e.page_count * 4096 < 2 ^ 64) × NoWrap es

pub max_from-le : (m : ℕ) (es : List MemorySegment) → m ≤ max_from m es
max_from-le m [] = omega arith
max_from-le m (e ∷ es) = omega (arith, max_from-le (max m (end_of e)) es)

pub max_from-lt : (m : ℕ) (es : List MemorySegment) → m < 2 ^ 64 → max_from m es < 2 ^ 64
max_from-lt m [] h = h
max_from-lt m (e ∷ es) h = max_from-lt (max m (end_of e)) es (omega arith)

pub max_from-Inside :
    (m n : ℕ) (es : List MemorySegment) → NoWrap es → page_of (max_from m es) ≤ n → Inside n es
max_from-Inside m n [] w h = tt
max_from-Inside m n (e ∷ es) w h = (
  λ _. omega (arith, max_from-le (max m (end_of e)) es, w.0),
  max_from-Inside (max m (end_of e)) n es w.1 h,
)

module _ (storage : PhysManagerStorage) (n : ℕ) where
  -- Before the loop: a cleared bitmap and empty lists serve no page.
  pub cleared-Serves :
      (mem : Mem) (len : ℕ)
      → 64 * len ≡ n
      → n ≤ storage.limit
      → n % 256 ≡ 0
      → Serves storage n
          (record {
            mem = mem;
            free_lists = λ order. null;
            buddy_map = record { word = λ entry. 0; len = len };
          })
          (λ p. ⊥)
  cleared-Serves mem len size fits whole = record {
    view = λ k. [];
    repr = record {
      fits = omega arith;
      chain = λ k h. refl;
      in_range = λ k i h f. cc;
      set = λ k i h f. cc;
      only = λ i h b. absurd (omega (arith, b, bit-zero (i % 64)));
    };
    valid = record {
      aligned = λ k i f. absurd (cc (f.1));
      inside = λ k i f. absurd (cc (f.1));
      apart = λ k i j a p f g x y. absurd (cc (f.1));
      merged = λ k i lt f. refl;
    };
    size = size;
    whole = whole;
    free = λ p. (λ c. cc (c.free.1), λ e. absurd e);
  }

  -- The loop over the segments adds the pages of the free ones.
  pub add_segments-Serves :
      (es : List MemorySegment) (m : Manager) (F : Pages)
      → Serves storage n m F
      → Separate es
      → Inside n es
      → ((p : ℕ) → FreeIn es p → ¬ F p)
      → (m' : Manager) × (add_segments storage m es ≡ ok m')
        × Serves storage n m' (λ p. F p ⊎ FreeIn es p)
  unfolding add_segments
  add_segments-Serves [] m F s sep ins apart = (
    m,
    refl,
    Serves-same storage n m F s (λ p. F p ⊎ ⊥)
        λ p. (λ f. inl f, λ f. elim f [ inl old ↦ old | inr none ↦ absurd none ]),
  )
  add_segments-Serves (e ∷ es) m F s sep ins apart = elim (Bool-cases (is_free e)) [
    | inl is ↦
        let (m₁, done, s₁) =
          add_region-Serves storage n e.page_count m F (page_of e.start) e.page_count s
            (omega arith) (ins.0 is) (λ p h. apart p (inl (is, h))) in
        let (m', rest, s') =
          add_segments-Serves es m₁ (λ p. F p ⊎ InRegion p (page_of e.start) e.page_count) s₁ sep.1
            ins.1
            (λ p h f. elim f [ inl old ↦ apart p (inr h) old | inr here ↦ sep.0 p (is, here) h ]) in
        (
          m',
          rw (is, done) rest,
          Serves-same storage n m'
              (λ p. (F p ⊎ InRegion p (page_of e.start) e.page_count) ⊎ FreeIn es p) s'
              (λ p. F p ⊎ FreeIn (e ∷ es) p)
              λ p. (
                λ f. elim f [
                  | inl early ↦ elim early [ inl old ↦ inl old | inr here ↦ inr (inl (is, here)) ]
                  | inr late ↦ inr (inr late)
                ],
                λ f. elim f [
                  | inl old ↦ inl (inl old)
                  | inr new ↦ elim new [ inl here ↦ inl (inr here.1) | inr late ↦ inr late ]
                ],
              ),
        )
    | inr not ↦
        let (m', rest, s') = add_segments-Serves es m F s sep.1 ins.1 (λ p h. apart p (inr h)) in
        (
          m',
          rw not rest,
          Serves-same storage n m' (λ p. F p ⊎ FreeIn es p) s' (λ p. F p ⊎ FreeIn (e ∷ es) p)
              λ p. (
                λ f. elim f [ inl old ↦ inl old | inr late ↦ inr (inr late) ],
                λ f. elim f [
                  | inl old ↦ inl old
                  | inr new ↦ elim new [ inl here ↦ absurd (cc (here.0)) | inr late ↦ inr late ]
                ],
              ),
        )
  ]

pub Inside-le : (k n : ℕ) (es : List MemorySegment) → k ≤ n → Inside k es → Inside n es
Inside-le k n [] h i = tt
Inside-le k n (e ∷ es) h i = (
  λ is. let below : page_of e.start + e.page_count ≤ k = i.0 is in omega arith,
  Inside-le k n es h i.1,
)

-- The number of pages up to the largest end, for a map whose first segment is `e`.
abbrev pub num_pages : MemorySegment → List MemorySegment → ℕ
num_pages e es = page_of (max_from (end_of e) es)

-- What `new` gives for a map: the manager serves the free pages but those of the bitmap, which were
-- free.
pub record Constructed (storage : PhysManagerStorage) (mem : Mem) (e : MemorySegment)
    (es : List MemorySegment) : Type 0 where
  pub manager : Manager
  pub placed : Placed
  pub returns : new storage mem (e ∷ es) ≡ ok (manager, placed)
  pub bitmap_was_free :
      (p : ℕ)
      → InRegion p (page_of placed.addr) (num_storage_pages (num_pages e es))
      → FreeIn (e ∷ es) p
  pub serves : Serves storage (64 * num_entries (num_pages e es)) manager (λ p.
      FreeIn (e ∷ es) p × ¬ InRegion p (page_of placed.addr) (num_storage_pages (num_pages e es)))

module _ (storage : PhysManagerStorage) (mem : Mem) (e : MemorySegment)
    (es : List MemorySegment) where
  pub new-Constructed :
      NoWrap (e ∷ es)
      → Separate (e ∷ es)
      → Roomy (num_storage_pages (num_pages e es)) (e ∷ es)
      → 64 * num_entries (num_pages e es) ≤ storage.limit
      → 64 * num_entries (num_pages e es) % 256 ≡ 0
      → Constructed storage mem e es
  unfolding new new_with max_address new_inline_storage
  new-Constructed wrap sep room fits whole =
      let top = max_from-lt (end_of e) es (omega arith) in
      let np = num_pages e es in
      let n = 64 * num_entries np in
      let le : np ≤ n = omega (arith, top) in
      let ins : Inside np (e ∷ es) = (
        λ _. omega (arith, max_from-le (end_of e) es, wrap.0),
        max_from-Inside (end_of e) np es wrap.1 (omega arith),
      ) in
      let r =
        reserve-Reserved (num_storage_pages np) np (omega (arith, top)) (e ∷ es) room sep ins in
      let (m, done, s) =
        add_segments-Serves storage n r.left _ (λ p. ⊥)
          (cleared-Serves storage n mem (num_entries np) refl fits whole) r.separate
          (Inside-le np n r.left le r.inside) (λ p h f. f) in
      record {
        manager = m;
        placed = record {
          buddy_map = record { word = λ entry. 0; len = num_entries np };
          addr = r.addr;
          memory_map = r.left;
        };
        returns = rw (r.returns, done);
        bitmap_was_free = r.were_free;
        serves =
            Serves-same storage n m (λ p. ⊥ ⊎ FreeIn r.left p) s
              (λ p. FreeIn (e ∷ es) p × ¬ InRegion p (page_of r.addr) (num_storage_pages np))
              λ p. (
                λ f. elim f [ inl none ↦ absurd none | inr h ↦ r.keeps p h ],
                λ f. elim (r.splits p f.0) [ inl h ↦ inr h | inr taken ↦ absurd (f.1 taken) ],
              );
      }

  -- `new` panics for an empty map, and for a map of which no free segment has the pages of the
  -- bitmap.
  pub new-panic :
      ¬ Roomy (num_storage_pages (num_pages e es)) (e ∷ es)
      → (new storage mem [] ≡ panic expect_failed)
        × (new storage mem (e ∷ es) ≡ panic expect_failed)
  unfolding new new_with max_address new_inline_storage
  new-panic none_fits =
      (refl, rw (reserve-panic (num_storage_pages (num_pages e es)) (e ∷ es) none_fits))
