-- ===== src/Phys/Init/Counting.antt =====
-- The lists that `new` counts for its log with the feature `verbose-logging`.
use simple_os_rs.Common.{
  ℕ, zero, suc, ◌+◌, ◌≤◌, ◌≡◌, refl, ap, ◌∙◌, ◌==◌, true, false, if◌then◌else◌, List, [], ◌∷◌,
  length, arith,
}
use simple_os_rs.Common.Outcome.{Outcome, ok, out_of_fuel, ◌>>=◌}
use simple_os_rs.Phys.Storage.{Ptr, null, PhysManagerStorage}
use simple_os_rs.Phys.FreeList.{Mem}
use simple_os_rs.Phys.FreeList.Chain.{Chain}
use simple_os_rs.Phys.Buddy.{Manager}
use simple_os_rs.Phys.Buddy.Repr.{Repr}
use simple_os_rs.Phys.Order.{max_order}

-- The loop over one list, from `tmp` and `count` on, with fuel for a round for each entry.
unfoldable count_from : ℕ → Mem → Ptr → ℕ → Outcome ℕ
count_from zero mem tmp count = if tmp == null then ok count else out_of_fuel
count_from (suc fuel) mem tmp count =
    let rest = count_from fuel mem (mem tmp).next (count + 1) in
    if tmp == null then ok count else rest

-- The lists of the orders from `order` on.
unfoldable count_orders : ℕ → ℕ → Manager → ℕ → Outcome (List ℕ)
unfolding count_from
count_orders fuel zero m order = ok []
count_orders fuel (suc left) m order = do
  count ← count_from fuel m.mem (m.free_lists order) 0
  counts ← count_orders fuel left m (order + 1)
  ok (count ∷ counts)

-- The numbers of blocks of the orders from `order` on.
abbrev lengths : (ℕ → List ℕ) → ℕ → ℕ → List ℕ
lengths L zero order = []
lengths L (suc left) order = length (L order) ∷ lengths L left (order + 1)

module _ (storage : PhysManagerStorage) where
  open storage use {get_entry, get_entry_ne}

  -- The loop over a chain ends with its length.
  count_from-length :
      (is : List ℕ) (fuel order count : ℕ) (mem : Mem) (before p : Ptr)
      → Chain storage mem order before p is
      → length is ≤ fuel
      → count_from fuel mem p count ≡ ok (count + length is)
  unfolding count_from
  count_from-length [] zero order count mem before p e le =
      let here : (p == null) ≡ true = ground arith in rw here (ap ok (omega arith))
  count_from-length [] (suc fuel) order count mem before p e le =
      let here : (p == null) ≡ true = ground arith in rw here (ap ok (omega arith))
  count_from-length (i ∷ is) zero order count mem before p c le = absurd (omega arith)
  count_from-length (i ∷ is) (suc fuel) order count mem before p (e, lt, fresh, ord, prev, rest)
        le =
      let ne = get_entry_ne i lt in
      let further : (get_entry i == null) ≡ false = ground (arith, ne) in
      rw (e, further)
        (count_from-length is fuel order (count + 1) mem (get_entry i) (mem (get_entry i)).next rest
            (omega arith)
          ∙ ap ok (omega arith))

  -- For a manager with the blocks of `L`, and fuel for the longest list, the counts are the numbers
  -- of free blocks of each order.
  count_orders-lengths :
      (fuel left order : ℕ) (m : Manager) (L : ℕ → List ℕ)
      → Repr storage m L
      → order + left ≤ max_order + 1
      → ((k : ℕ) → k ≤ max_order → length (L k) ≤ fuel)
      → count_orders fuel left m order ≡ ok (lengths L left order)
  unfolding count_orders
  count_orders-lengths fuel zero order m L repr le enough = refl
  count_orders-lengths fuel (suc left) order m L repr le enough =
      let first : count_from fuel m.mem (m.free_lists order) 0 ≡ ok (length (L order)) =
        count_from-length (L order) fuel order 0 m.mem null (m.free_lists order)
          (repr.chain order (omega arith)) (enough order (omega arith))
        ∙ ap ok (omega arith) in
      let others = count_orders-lengths fuel left (order + 1) m L repr (omega arith) enough in
      rw (first, others) refl
