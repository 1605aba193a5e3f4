-- ===== src/Phys/Buddy/Repr.antt =====
-- What a manager's memory, list heads and bitmap stand for: for each order a list of free blocks.
-- The parts of `free_block` and `alloc_block` change that view as they say.
use simple_os_rs.Common.{
  update, ℕ, ◌*◌, ◌/◌, ◌<◌, ◌≤◌, ◌≡◌, ◌≢◌, refl, sym, ap, ◌∙◌, subst, List, [], ◌∷◌, true, false,
  ◌&&◌, ltb, ◌==◌, arith, has, erase, has-erase_ne, has_self, erase_self, fun_ext, ap₂, Bool-cases,
  inl, inr, ==_iff, lt→ltb, ◌⊎◌,
}
use simple_os_rs.Common.Outcome.{ok}
use simple_os_rs.Phys.Storage.{Ptr, null, PhysManagerStorage}
use simple_os_rs.Phys.Order.{max_order}
use simple_os_rs.Phys.Bitmap.{Bitmap, bit_at, clear_bit}
use simple_os_rs.Phys.Bitmap.Laws.{With, set_bit-With, clear_bit-With, word_at-in, test_bit}
use simple_os_rs.Phys.FreeList.{
  Mem, Lists, new_entry, remove_buddy_list_entry, push_buddy_list_entry, pop_buddy_list_entry,
}
use simple_os_rs.Phys.FreeList.Chain.{
  Chain, SameOff, frame, frame-update, update_other, push-Chain, remove-Chain, pop-Chain,
}
use simple_os_rs.Phys.Buddy.Pages.{Blocks}
use simple_os_rs.Phys.Buddy.{Manager, head_at, put, can_merge, take_buddy, add_block, pop_block}

abbrev pub pages_of : Manager → ℕ
pages_of m = 64 * m.buddy_map.len

module _ (storage : PhysManagerStorage) where
  open storage use {get_entry, limit}

  pub record Repr (m : Manager) (L : Blocks) : Type 0 where
    pub fits : pages_of m ≤ limit
    pub chain : (k : ℕ) → k ≤ max_order → Chain storage m.mem k null (m.free_lists k) (L k)
    pub in_range : (k i : ℕ) → k ≤ max_order → has i (L k) ≡ true → i < pages_of m
    pub set : (k i : ℕ) → k ≤ max_order → has i (L k) ≡ true → bit_at m.buddy_map i ≡ 1
    pub only :
        (i : ℕ)
        → i < pages_of m
        → bit_at m.buddy_map i ≡ 1
        → (k : ℕ) × (k ≤ max_order) × (has i (L k) ≡ true)

  -- An entry of a chain has the order of the chain.
  order_of_has :
      (mem : Mem) (o : ℕ) (before p : Ptr) (is : List ℕ) (i : ℕ)
      → has i is ≡ true
      → Chain storage mem o before p is
      → (mem (get_entry i)).order ≡ o
  order_of_has mem o before p [] i h c = cc
  order_of_has mem o before p (j ∷ js) i h c = elim (Bool-cases (i == j)) [
    | inl hit ↦ ap (λ x. (mem (get_entry x)).order) ((==_iff i j).0 hit) ∙ c.3
    | inr miss ↦ order_of_has mem o (get_entry j) (mem (get_entry j)).next js i (ground arith) c.5
  ]

  -- The indices of a chain are distinct.
  erased :
      (mem : Mem) (o : ℕ) (before p : Ptr) (is : List ℕ) (i : ℕ)
      → Chain storage mem o before p is
      → has i (erase i is) ≡ false
  erased mem o before p [] i c = refl
  erased mem o before p (j ∷ js) i c = elim (Bool-cases (i == j)) [
    | inl hit ↦ rw hit (rw ((==_iff i j).0 hit) c.2)
    | inr miss ↦ rw (miss, miss) (erased mem o (get_entry j) (mem (get_entry j)).next js i c.5)
  ]

  head_at-ok : (m : Manager) (k : ℕ) → k ≤ max_order → head_at m k ≡ ok (m.free_lists k)
  unfolding head_at
  head_at-ok m k h = rw (lt→ltb k 9 (omega arith))

  module _ (m : Manager) (L : Blocks) (r : Repr m L) where
    order_lem : (k i : ℕ) → k ≤ max_order → has i (L k) ≡ true → (m.mem (get_entry i)).order ≡ k
    order_lem k i hk h = order_of_has m.mem k null (m.free_lists k) (L k) i h (r.chain k hk)

    -- No page starts free blocks of two orders.
    pub one_order :
        (k j i : ℕ)
        → k ≤ max_order
        → j ≤ max_order
        → has i (L k) ≡ true
        → has i (L j) ≡ true
        → k ≡ j
    one_order k j i hk hj p q = sym (order_lem k i hk p) ∙ order_lem j i hj q

    -- The two tests of `free_block` on the neighbour say that it is a free block of this order.
    merge_test :
        (k b : ℕ)
        → k ≤ max_order
        → b < pages_of m
        → ((bit_at m.buddy_map b == 1) && ((m.mem (get_entry b)).order == k)) ≡ has b (L k)
    merge_test k b hk hb = elim (Bool-cases (has b (L k))) [
      | inl free ↦ rw (free, r.set k b hk free, order_lem k b hk free) (ground arith)
      | inr none_here ↦ elim (Bool-cases (bit_at m.buddy_map b == 1)) [
        | inl one ↦
            let (j, hj, free) = r.only b hb ((==_iff _ 1).0 one) in
            let ne : j ≢ k = λ (e : j ≡ k). cc (none_here, free, ap (λ x. has b (L x)) e) in
            rw (none_here, one, order_lem j b hj free) (ground arith)
        | inr zero_here ↦ rw (none_here, zero_here)
      ]
    ]

    pub can_merge-has :
        (k b : ℕ)
        → k ≤ max_order
        → b < pages_of m
        → can_merge storage m b k ≡ ok (ltb k max_order && has b (L k))
    unfolding can_merge
    can_merge-has k b hk hb = elim (Bool-cases (ltb k max_order)) [
      | inl low ↦
          rw
            (
              low,
              word_at-in m.buddy_map (b / 64) (omega arith),
              test_bit (m.buddy_map.word (b / 64)) b,
            )
            (ap ok (merge_test k b hk hb))
      | inr top ↦ rw top
    ]

    -- The chains of the other orders stand where only entries of this order were written.
    update-Chain :
        (k : ℕ) (mem' : Mem) (head : Ptr) (is : List ℕ)
        → Chain storage mem' k null head is
        → ((j : ℕ) → j ≤ max_order → k ≢ j → Chain storage mem' j null (m.free_lists j) (L j))
        → (j : ℕ) → j ≤ max_order
        → Chain storage mem' j null (update m.free_lists k head j) (update L k is j)
    update-Chain k mem' head is c others j hj = elim (Bool-cases (k == j)) [
      | inl hit ↦ rw (hit) (subst (λ x. Chain storage mem' x null head is) ((==_iff k j).0 hit) c)
      | inr miss ↦ rw (miss) (others j hj (ground arith))
    ]

    others-Chain :
        (k : ℕ) (mem' : Mem)
        → k ≤ max_order
        → ((i : ℕ) → i < limit → has i (L k) ≡ false → mem' (get_entry i) ≡ m.mem (get_entry i))
        → (j : ℕ) → j ≤ max_order
        → k ≢ j
        → Chain storage mem' j null (m.free_lists j) (L j)
    others-Chain k mem' hk same j hj ne =
        frame storage m.mem mem' j null (m.free_lists j) (L j) (r.chain j hj) λ i lt h.
          same i lt (elim (Bool-cases (has i (L k))) [
            | inl both ↦ absurd (ne (one_order k j i hk hj both h))
            | inr out ↦ out
          ])

    -- The view without the free block `b` of order `k`.
    abbrev pub without : ℕ → ℕ → Blocks
    without k b = update L k (erase b (L k))

    pub without_kept : (k b j i : ℕ) → has i (L j) ≡ true → b ≢ i → has i (without k b j) ≡ true
    without_kept k b j i h ne = elim (Bool-cases (k == j)) [
      | inl hit ↦
          rw hit (has-erase_ne b i (L k) ne ∙ ap (λ x. has i (L x)) ((==_iff k j).0 hit) ∙ h)
      | inr miss ↦ rw miss h
    ]

    pub without_back :
        (k b j i : ℕ)
        → k ≤ max_order
        → j ≤ max_order
        → has b (L k) ≡ true
        → has i (without k b j) ≡ true
        → (has i (L j) ≡ true) × (b ≢ i)
    without_back k b j i hk hj hb h = elim (Bool-cases (k == j)) [
      | inl hit ↦
          let h' : has i (erase b (L k)) ≡ true = rw hit at h in
          let ne : b ≢ i = λ e. cc (
            h',
            erased m.mem k null (m.free_lists k) (L k) b (r.chain k hk),
            ap (λ x. has x (erase b (L k))) e,
          ) in
          (
            sym (ap (λ x. has i (L x)) ((==_iff k j).0 hit)) ∙ sym (has-erase_ne b i (L k) ne) ∙ h',
            ne,
          )
      | inr miss ↦
          let h' : has i (L j) ≡ true = rw miss at h in
          (
            h',
            λ e.
                absurd
                  (ground (arith, miss, one_order k j b hk hj hb (ap (λ x. has x (L j)) e ∙ h'))),
          )
    ]

    pub removed-Repr :
        (k b : ℕ) (l : Lists) (map' : Bitmap)
        → k ≤ max_order
        → has b (L k) ≡ true
        → Chain storage l.mem k null l.head (erase b (L k))
        → SameOff storage (L k) m.mem l.mem
        → With 0 b m.buddy_map map'
        → Repr (put (record m { buddy_map = map' }) k l) (without k b)
    removed-Repr k b l map' hk hb chain' off w =
        let same_pages : 64 * map'.len ≡ pages_of m = ap (λ x. 64 * x) w.same_len in
        record {
          fits = rw same_pages r.fits;
          chain = update-Chain k l.mem l.head (erase b (L k)) chain' (others-Chain k l.mem hk off);
          in_range =
              λ j i hj h. rw same_pages (r.in_range j i hj (without_back k b j i hk hj hb h).0);
          set = λ j i hj h.
              let (old, ne) = without_back k b j i hk hj hb h in
              ground (arith, w.bits i, r.set j i hj old);
          only = λ i lt one.
              let ne : b ≢ i = λ e. ground (arith, w.bits i, one, e) in
              let (j, hj, old) = r.only i (rw same_pages at lt) (ground (arith, w.bits i, one)) in
              (j, hj, without_kept k b j i old ne);
        }

    -- The neighbour comes off its list and off the bitmap.
    pub take_buddy-Repr :
        (k b : ℕ)
        → k ≤ max_order
        → has b (L k) ≡ true
        → (m' : Manager) × (take_buddy storage m b k ≡ ok m')
          × Repr m' (without k b)
          × (pages_of m' ≡ pages_of m)
    unfolding take_buddy
    take_buddy-Repr k b hk h =
        let (map', cleared, w) =
          clear_bit-With m.buddy_map b (omega (arith, r.in_range k b hk h)) in
        let l = remove_buddy_list_entry m.mem (m.free_lists k) (get_entry b) in
        let (chain', off) =
          remove-Chain storage m.mem k (m.free_lists k) (L k) b h (r.chain k hk) in
        (
          put (record m { buddy_map = map' }) k l,
          rw (cleared, head_at-ok m k hk),
          removed-Repr k b l map' hk h chain' off w,
          ap (λ x. 64 * x) w.same_len,
        )

    -- The view with one more free block.
    abbrev pub with_block : ℕ → ℕ → Blocks
    with_block k i = update L k (i ∷ L k)

    pub with_kept : (k i j a : ℕ) → has a (L j) ≡ true → has a (with_block k i j) ≡ true
    with_kept k i j a h = elim (Bool-cases (k == j)) [
      | inl hit ↦ rw hit (ground (arith, ap (λ x. has a (L x)) ((==_iff k j).0 hit), h))
      | inr miss ↦ rw miss h
    ]

    pub with_back :
        (k i j a : ℕ) → has a (with_block k i j) ≡ true → ((k ≡ j) × (i ≡ a)) ⊎ (has a (L j) ≡ true)
    with_back k i j a h = elim (Bool-cases (k == j)) [
      | inl hit ↦
          let h' : has a (i ∷ L k) ≡ true = rw hit at h in
          ground (arith, hit, h', ap (λ x. has a (L x)) ((==_iff k j).0 hit))
      | inr miss ↦ inr (rw miss at h)
    ]

    pub with_self : (k i : ℕ) → has i (with_block k i k) ≡ true
    with_self k i = ground arith

    abbrev pub Unused : ℕ → Type 0
    Unused i = (j : ℕ) → j ≤ max_order → has i (L j) ≡ false

    added_out :
        (k i j a : ℕ)
        → k ≤ max_order
        → j ≤ max_order
        → Unused i
        → k ≢ j
        → has a (L j) ≡ true
        → has a (i ∷ L k) ≡ false
    added_out k i j a hk hj fresh ne h = elim (Bool-cases (has a (L k))) [
      | inl both ↦ absurd (ne (one_order k j a hk hj both h))
      | inr out ↦ ground (arith, fresh j hj, ap (λ x. has x (L j)) {x = a} {y = i})
    ]

    added-Repr :
        (k i : ℕ) (l : Lists) (map' : Bitmap)
        → k ≤ max_order
        → i < pages_of m
        → Unused i
        → Chain storage l.mem k null l.head (i ∷ L k)
        → SameOff storage (i ∷ L k) m.mem l.mem
        → With 1 i m.buddy_map map'
        → Repr (put (record m { buddy_map = map' }) k l) (with_block k i)
    added-Repr k i l map' hk lt fresh chain' off w =
        let same_pages : 64 * map'.len ≡ pages_of m = ap (λ x. 64 * x) w.same_len in
        record {
          fits = rw same_pages r.fits;
          chain = update-Chain k l.mem l.head (i ∷ L k) chain' λ j hj ne.
              frame storage m.mem l.mem j null (m.free_lists j) (L j) (r.chain j hj)
                λ a la h. off a la (added_out k i j a hk hj fresh ne h);
          in_range = λ j a hj h. elim (with_back k i j a h) [
            | inl new ↦ rw (same_pages, ← new.1) lt
            | inr old ↦ rw same_pages (r.in_range j a hj old)
          ];
          set = λ j a hj h. elim (with_back k i j a h) [
            | inl new ↦ ground (arith, w.bits a, new.1)
            | inr old ↦ ground (arith, w.bits a, r.set j a hj old)
          ];
          only = λ a la one. elim (Bool-cases (i == a)) [
            | inl hit ↦ (k, hk, rw (← (==_iff i a).0 hit) (with_self k i))
            | inr miss ↦
                let (j, hj, old) = r.only a (rw same_pages at la) (ground (arith, w.bits a, one)) in
                (j, hj, with_kept k i j a old)
          ];
        }

    -- A block whose first page starts no free block is entered on list and bitmap.
    pub add_block-Repr :
        (k i : ℕ)
        → k ≤ max_order
        → i < pages_of m
        → Unused i
        → (m' : Manager) × (add_block storage m i k ≡ ok m')
          × Repr m' (with_block k i)
          × (pages_of m' ≡ pages_of m)
    unfolding add_block
    add_block-Repr k i hk lt fresh =
        let (map', done, w) = set_bit-With m.buddy_map i (omega arith) in
        let il : i < limit = omega (arith, r.fits) in
        let mem₁ = update m.mem (get_entry i) (new_entry k) in
        let l = push_buddy_list_entry mem₁ (m.free_lists k) (get_entry i) in
        let (chain', off) =
          push-Chain storage mem₁ k (m.free_lists k) (L k) i il (fresh k hk) (ground arith) (
            frame-update storage m.mem k null (m.free_lists k) (L k) i (new_entry k) il (fresh k hk)
              (r.chain k hk)) in
        (
          put (record m { buddy_map = map' }) k l,
          rw (done, head_at-ok m k hk),
          added-Repr k i l map' hk lt fresh chain'
              (λ a la h.
                off a la h ∙ update_other storage m.mem i a (new_entry k) il la (ground arith))
              w,
          ap (λ x. 64 * x) w.same_len,
        )

    put_same : (k : ℕ) → put m k (record { mem = m.mem; head = m.free_lists k }) ≡ m
    put_same k =
        ap (λ f. record m { free_lists = f })
          (fun_ext λ j. ground (arith, ap m.free_lists {x = k} {y = j}))

    -- An empty list gives null and changes nothing.
    pub pop_block-empty : (k : ℕ) → k ≤ max_order → L k ≡ [] → pop_block storage m k ≡ ok (m, null)
    unfolding pop_block
    pop_block-empty k hk e =
        let c : m.free_lists k ≡ null =
          subst (Chain storage m.mem k null (m.free_lists k)) e (r.chain k hk) in
        let (entry, rest) = pop-Chain storage m.mem k (m.free_lists k) [] c in
        rw (head_at-ok m k hk)
          (ap₂ (λ l x. ok (put m k l, x)) rest entry ∙ ap (λ x. ok (x, null)) (put_same k))

    -- The first block of a list comes off the list, and then off the bitmap.
    pub record First (k i : ℕ) : Type 0 where
      pub popped : Manager
      pub map : Bitmap
      pub pops : pop_block storage m k ≡ ok (popped, get_entry i)
      pub clears : clear_bit popped.buddy_map i ≡ ok map
      pub view : Repr (record popped { buddy_map = map }) (without k i)
      pub same_pages : 64 * map.len ≡ pages_of m

    pub pop_block-First : (k i : ℕ) (is : List ℕ) → k ≤ max_order → L k ≡ i ∷ is → First k i
    unfolding pop_block
    pop_block-First k i is hk e =
        let free : has i (L k) ≡ true = rw e (has_self i is) in
        let (map', cleared, w) =
          clear_bit-With m.buddy_map i (omega (arith, r.in_range k i hk free)) in
        let c : Chain storage m.mem k null (m.free_lists k) (i ∷ is) =
          subst (Chain storage m.mem k null (m.free_lists k)) e (r.chain k hk) in
        let (entry, chain', off) = pop-Chain storage m.mem k (m.free_lists k) (i ∷ is) c in
        let l = (pop_buddy_list_entry m.mem (m.free_lists k)).0 in
        let rest : erase i (L k) ≡ is = rw e (erase_self i is) in
        record {
          popped = put m k l;
          map = map';
          pops = rw (head_at-ok m k hk) (ap (λ x. ok (put m k l, x)) entry);
          clears = cleared;
          view = removed-Repr k i l map' hk free (rw rest chain') (rw e off) w;
          same_pages = ap (λ x. 64 * x) w.same_len;
        }
