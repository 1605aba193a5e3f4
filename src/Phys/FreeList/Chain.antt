-- ===== src/Phys/FreeList/Chain.antt =====
-- A free list of page indices, as a chain of entries in memory, and the three list operations.
use simple_os_rs.Common.{
  update, ℕ, ◌<◌, ◌≡◌, ◌≢◌, refl, sym, ap, ◌∙◌, subst, subst₂, ==_iff, List, [], ◌∷◌, true, false,
  arith, ◌==◌, if◌then◌else◌, has, erase, has-erase_le, erase_self, Bool-cases, inl, inr,
}
use simple_os_rs.Phys.Storage.{Ptr, null, PhysManagerStorage}
use simple_os_rs.Phys.FreeList.{
  FreeEntry, Mem, set_next, set_prev, new_entry, Lists, remove_buddy_list_entry,
  push_buddy_list_entry, pop_buddy_list_entry,
}

module _ (storage : PhysManagerStorage) where
  open storage use {get_entry, get_index, limit, get_index-get_entry, get_entry_ne}

  -- From `p` the `next` pointers lead through the distinct entries of the indices to null, and the
  -- `prev` pointers lead back to `before`; every entry has the order of the list.
  abbrev pub Chain : Mem → ℕ → Ptr → Ptr → List ℕ → Type 0
  Chain mem order before p [] = p ≡ null
  Chain mem order before p (i ∷ is) =
      (p ≡ get_entry i)
      × (i < limit)
      × (has i is ≡ false)
      × ((mem (get_entry i)).order ≡ order)
      × ((mem (get_entry i)).prev ≡ before)
      × Chain mem order (get_entry i) (mem (get_entry i)).next is

  -- Two memories agree on the entries of the indices that are not among `is`.
  abbrev pub SameOff : List ℕ → Mem → Mem → Type 0
  SameOff is mem mem' =
      (a : ℕ) → a < limit → has a is ≡ false → mem' (get_entry a) ≡ mem (get_entry a)

  pub get_entry_inj : (i j : ℕ) → i < limit → j < limit → get_entry i ≡ get_entry j → i ≡ j
  get_entry_inj i j hi hj e =
      sym (get_index-get_entry i hi) ∙ ap get_index e ∙ get_index-get_entry j hj

  pub frame :
      (mem mem' : Mem) (o : ℕ) (before p : Ptr) (is : List ℕ)
      → Chain mem o before p is
      → ((a : ℕ) → a < limit → has a is ≡ true → mem' (get_entry a) ≡ mem (get_entry a))
      → Chain mem' o before p is
  frame mem mem' o before p [] c same = c
  frame mem mem' o before p (i ∷ is) (e, lt, new, eo, ep, c) same =
      let here : mem' (get_entry i) ≡ mem (get_entry i) = same i lt (ground arith) in
      (
        e,
        lt,
        new,
        rw here eo,
        rw here ep,
        rw here (
            frame mem mem' o (get_entry i) (mem (get_entry i)).next is c
              λ a la ha. same a la (ground arith)),
      )

  -- Writes at the entry of `i` are not seen at those of other indices.
  pub update_other :
      (mem : Mem) (i a : ℕ) (v : FreeEntry)
      → i < limit
      → a < limit
      → i ≢ a
      → update mem (get_entry i) v (get_entry a) ≡ mem (get_entry a)
  update_other mem i a v hi ha ne =
      ground (arith, λ (e : get_entry i ≡ get_entry a). ne (get_entry_inj i a hi ha e))

  ne_of_has : (i a : ℕ) (is : List ℕ) → has i is ≡ false → has a is ≡ true → i ≢ a
  ne_of_has i a is out inside e = cc (ap (λ x. has x is) e)

  pub frame-update :
      (mem : Mem) (o : ℕ) (before p : Ptr) (is : List ℕ) (i : ℕ) (v : FreeEntry)
      → i < limit
      → has i is ≡ false
      → Chain mem o before p is
      → Chain (update mem (get_entry i) v) o before p is
  frame-update mem o before p is i v lt new c =
      frame mem (update mem (get_entry i) v) o before p is c
        λ a la ha. update_other mem i a v lt la (ne_of_has i a is new ha)

  update_self : (mem : Mem) (p : Ptr) (v : FreeEntry) → update mem p v p ≡ v
  update_self mem p v = ground arith

  cons-Chain :
      (mem : Mem) (o : ℕ) (before : Ptr) (i : ℕ) (is : List ℕ) (v : FreeEntry)
      → mem (get_entry i) ≡ v
      → i < limit
      → has i is ≡ false
      → v.order ≡ o
      → v.prev ≡ before
      → Chain mem o (get_entry i) v.next is
      → Chain mem o before (get_entry i) (i ∷ is)
  cons-Chain mem o before i is v e lt new eo ep c = (refl, lt, new, rw e eo, rw e ep, rw e c)

  -- The first entry is given another predecessor.
  pub relink : Mem → Ptr → Ptr → Mem
  relink mem p q = if p == null then mem else set_prev mem p q

  relink_entry :
      (mem : Mem) (p q : Ptr) (i : ℕ)
      → i < limit
      → p ≡ get_entry i
      → relink mem p q ≡ set_prev mem (get_entry i) q
  unfolding relink
  relink_entry mem p q i lt e =
      let used : (get_entry i == null) ≡ false = ground (arith, get_entry_ne i lt) in rw (e, used)

  pub relink-Chain :
      (mem : Mem) (o : ℕ) (before p q : Ptr) (is : List ℕ)
      → Chain mem o before p is
      → Chain (relink mem p q) o q p is × SameOff is mem (relink mem p q)
  relink-Chain mem o before p q [] c = (c, λ a la ha. unfold relink in rw c)
  relink-Chain mem o before p q (i ∷ is) (e, lt, new, eo, ep, c) =
      let v = record (mem (get_entry i)) { prev = q } in
      subst (λ m. Chain m o q p (i ∷ is) × SameOff (i ∷ is) mem m)
        (sym (relink_entry mem p q i lt e))
        (
          rw e (
              cons-Chain (update mem (get_entry i) v) o q i is v (update_self mem (get_entry i) v)
                lt new eo refl
                (frame-update mem o (get_entry i) (mem (get_entry i)).next is i v lt new c)),
          λ a la ha. update_other mem i a v lt la (ground arith),
        )

  -- The head of a chain is not the entry of an index that is not in it.
  head_ne :
      (mem : Mem) (o : ℕ) (before p : Ptr) (is : List ℕ) (a : ℕ)
      → a < limit
      → has a is ≡ false
      → Chain mem o before p is
      → p ≢ get_entry a
  head_ne mem o before p [] a la out c = λ e. get_entry_ne a la (sym e ∙ c)
  head_ne mem o before p (i ∷ is) a la out c =
      λ e. let same : i ≡ a = get_entry_inj i a c.1 la (sym c.0 ∙ e) in ground (arith, same)

  push_linked :
      (mem : Mem) (head : Ptr) (i j : ℕ)
      → j < limit
      → head ≡ get_entry j
      → (push_buddy_list_entry mem head (get_entry i)).mem
        ≡ relink (set_next mem (get_entry i) head) head (get_entry i)
  unfolding push_buddy_list_entry relink
  push_linked mem head i j lt e =
      let used : (get_entry j == null) ≡ false = ground (arith, get_entry_ne j lt) in rw (e, used)

  -- The front of the list is the pushed entry, and the rest is as it was.
  pub push-Chain :
      (mem : Mem) (o : ℕ) (head : Ptr) (is : List ℕ) (i : ℕ)
      → i < limit
      → has i is ≡ false
      → mem (get_entry i) ≡ new_entry o
      → Chain mem o null head is
      → Chain (push_buddy_list_entry mem head (get_entry i)).mem o null (get_entry i) (i ∷ is)
        × SameOff (i ∷ is) mem (push_buddy_list_entry mem head (get_entry i)).mem
  push-Chain mem o head [] i lt new e c =
      unfold push_buddy_list_entry in
      rw c (cons-Chain mem o null i [] (new_entry o) e lt new refl refl refl, λ a la ha. refl)
  push-Chain mem o head (j ∷ js) i lt new e c =
      let v = record (mem (get_entry i)) { next = head } in
      let mem₁ = update mem (get_entry i) v in
      let (chain, same) =
        relink-Chain mem₁ o null head (get_entry i) (j ∷ js)
          (frame-update mem o null head (j ∷ js) i v lt new c) in
      subst (λ m. Chain m o null (get_entry i) (i ∷ j ∷ js) × SameOff (i ∷ j ∷ js) mem m)
        (sym (push_linked mem head i j c.1 c.0))
        (
          cons-Chain (relink mem₁ head (get_entry i)) o null i (j ∷ js) v
              (same i lt new ∙ update_self mem (get_entry i) v) lt new (rw e) (rw e) chain,
          λ a la ha. same a la (ground arith) ∙ update_other mem i a v lt la (ground arith),
        )

  -- Links the neighbours of an entry to one another.
  pub bypass : Mem → Ptr → Ptr → Mem
  bypass mem prv nxt = relink (set_next mem prv nxt) nxt prv

  bypass-Chain :
      (mem : Mem) (o : ℕ) (before : Ptr) (j : ℕ) (e nxt : Ptr) (ks : List ℕ)
      → j < limit
      → has j ks ≡ false
      → (mem (get_entry j)).order ≡ o
      → (mem (get_entry j)).prev ≡ before
      → Chain mem o e nxt ks
      → Chain (bypass mem (get_entry j) nxt) o before (get_entry j) (j ∷ ks)
        × SameOff (j ∷ ks) mem (bypass mem (get_entry j) nxt)
  unfolding bypass
  bypass-Chain mem o before j e nxt ks lt new eo ep c =
      let v = record (mem (get_entry j)) { next = nxt } in
      let mem₁ = update mem (get_entry j) v in
      let (chain, same) =
        relink-Chain mem₁ o e nxt (get_entry j) ks (frame-update mem o e nxt ks j v lt new c) in
      (
        cons-Chain (relink mem₁ nxt (get_entry j)) o before j ks v
            (same j lt new ∙ update_self mem (get_entry j) v) lt new eo ep chain,
        λ a la ha. same a la (ground arith) ∙ update_other mem j a v lt la (ground arith),
      )

  -- `i` is unlinked from behind the first index of the list.
  record Unlinked (mem : Mem) (o : ℕ) (before p : Ptr) (j : ℕ) (js : List ℕ) (i : ℕ) (prv nxt : Ptr)
      : Type 0 where
    chain : Chain (bypass mem prv nxt) o before p (j ∷ erase i js)
    same : SameOff (j ∷ js) mem (bypass mem prv nxt)
    prev_ne_null : prv ≢ null
    prev_ne_self : prv ≢ get_entry i

  unlink_second :
      (mem : Mem) (o : ℕ) (before p : Ptr) (j k : ℕ) (ks : List ℕ) (i : ℕ)
      → (i == k) ≡ true
      → Chain mem o before p (j ∷ k ∷ ks)
      → Unlinked mem o before p j (k ∷ ks) i (mem (get_entry i)).prev (mem (get_entry i)).next
  unlink_second mem o before p j k ks i hit (e, lt, new, eo, ep, (ek, ltk, newk, eok, epk, ck)) =
      let nxt = (mem (get_entry k)).next in
      let (chain, same) =
        bypass-Chain mem o before j (get_entry k) nxt ks lt (ground arith) eo ep ck in
      let prv : (mem (get_entry i)).prev ≡ get_entry j =
        ap (λ x. (mem (get_entry x)).prev) ((==_iff i k).0 hit) ∙ epk in
      subst₂ (λ q n. Unlinked mem o before p j (k ∷ ks) i q n) (sym prv)
        (sym (ap (λ x. (mem (get_entry x)).next) ((==_iff i k).0 hit)))
        (record {
          chain = rw (hit, e) chain;
          same = λ a la ha. same a la (ground arith);
          prev_ne_null = get_entry_ne j lt;
          prev_ne_self = λ q.
              ground
                (arith, (==_iff i k).0 hit, get_entry_inj j i lt (rw ((==_iff i k).0 hit) ltk) q);
        })

  unlink-Chain :
      (mem : Mem) (o : ℕ) (before p : Ptr) (j : ℕ) (js : List ℕ) (i : ℕ)
      → has i js ≡ true
      → Chain mem o before p (j ∷ js)
      → Unlinked mem o before p j js i (mem (get_entry i)).prev (mem (get_entry i)).next
  unlink-Chain mem o before p j [] i h c = cc
  unlink-Chain mem o before p j (k ∷ ks) i h (e, lt, new, eo, ep, c) = elim (Bool-cases (i == k)) [
    | inl hit ↦ unlink_second mem o before p j k ks i hit (e, lt, new, eo, ep, c)
    | inr miss ↦
        let rest =
          unlink-Chain mem o (get_entry j) (mem (get_entry j)).next k ks i (ground arith) c in
        let mem' = bypass mem (mem (get_entry i)).prev (mem (get_entry i)).next in
        record {
          chain =
              rw (miss, e)
                (cons-Chain mem' o before j (k ∷ erase i ks) (mem (get_entry j))
                  (rest.same j lt new) lt (ground (arith, has-erase_le i j ks)) eo ep rest.chain);
          same = λ a la ha. rest.same a la (ground arith);
          prev_ne_null = rest.prev_ne_null;
          prev_ne_self = rest.prev_ne_self;
        }
  ]

  remove_first :
      (mem : Mem) (head e : Ptr)
      → (mem e).prev ≡ null
      → remove_buddy_list_entry mem head e
        ≡ record { mem = relink mem (mem e).next (mem e).prev; head = (mem e).next }
  unfolding remove_buddy_list_entry relink
  remove_first mem head e h = let first : ((mem e).prev == null) ≡ true = ground arith in rw first

  remove_inner :
      (mem : Mem) (head e : Ptr)
      → (mem e).prev ≢ null
      → (mem e).prev ≢ e
      → remove_buddy_list_entry mem head e
        ≡ record { mem = bypass mem (mem e).prev (mem e).next; head = head }
  unfolding remove_buddy_list_entry relink bypass
  remove_inner mem head e h k =
      let inner : ((mem e).prev == null) ≡ false = ground arith in
      let here : set_next mem (mem e).prev (mem e).next e ≡ mem e = ground arith in rw (inner, here)

  abbrev Removed : Mem → ℕ → List ℕ → ℕ → Lists → Type 0
  Removed mem o is i l = Chain l.mem o null l.head (erase i is) × SameOff is mem l.mem

  -- Removing the entry of `i` leaves the chain of the other indices.
  pub remove-Chain :
      (mem : Mem) (o : ℕ) (head : Ptr) (is : List ℕ) (i : ℕ)
      → has i is ≡ true
      → Chain mem o null head is
      → Removed mem o is i (remove_buddy_list_entry mem head (get_entry i))
  remove-Chain mem o head [] i h c = cc
  remove-Chain mem o head (j ∷ js) i h c = elim (Bool-cases (i == j)) [
    | inl hit ↦
        let same : i ≡ j = (==_iff i j).0 hit in
        let prv = (mem (get_entry j)).prev in
        let (chain, off) = relink-Chain mem o (get_entry j) (mem (get_entry j)).next prv js c.5 in
        subst (λ x. Removed mem o (j ∷ js) x (remove_buddy_list_entry mem head (get_entry x)))
          (sym same)
          (subst (Removed mem o (j ∷ js) j) (sym (remove_first mem head (get_entry j) c.4)) (
            rw (erase_self j js) (
                subst
                  (λ q.
                    Chain (relink mem (mem (get_entry j)).next prv) o q (mem (get_entry j)).next js)
                  c.4 chain),
            λ a la ha. off a la (ground arith),
          ))
    | inr miss ↦
        let out = unlink-Chain mem o null head j js i (ground arith) c in
        subst (Removed mem o (j ∷ js) i)
          (sym (remove_inner mem head (get_entry i) out.prev_ne_null out.prev_ne_self))
          (rw miss out.chain, out.same)
  ]

  abbrev Popped : Mem → ℕ → Ptr → List ℕ → Lists × Ptr → Type 0
  Popped mem o head [] (l, entry) = (entry ≡ null) × (l ≡ record { mem = mem; head = head })
  Popped mem o head (i ∷ is) (l, entry) =
      (entry ≡ get_entry i) × Chain l.mem o null l.head is × SameOff (i ∷ is) mem l.mem

  pop_first :
      (mem : Mem) (head : Ptr) (i : ℕ)
      → i < limit
      → head ≡ get_entry i
      → pop_buddy_list_entry mem head
        ≡ (record { mem = relink mem (mem head).next null; head = (mem head).next }, head)
  unfolding pop_buddy_list_entry relink
  pop_first mem head i lt e =
      let used : (head == null) ≡ false = rw e (ground (arith, get_entry_ne i lt)) in rw used

  -- Popping gives the first entry and leaves the chain of the rest, or gives null for no entry.
  pub pop-Chain :
      (mem : Mem) (o : ℕ) (head : Ptr) (is : List ℕ)
      → Chain mem o null head is
      → Popped mem o head is (pop_buddy_list_entry mem head)
  pop-Chain mem o head [] c = unfold pop_buddy_list_entry in rw c (refl, refl)
  pop-Chain mem o head (i ∷ is) c =
      let (chain, off) = relink-Chain mem o (get_entry i) (mem (get_entry i)).next null is c.5 in
      subst (Popped mem o head (i ∷ is)) (sym (pop_first mem head i c.1 c.0))
        (c.0, rw c.0 chain, λ a la ha. rw c.0 (off a la (ground arith)))
