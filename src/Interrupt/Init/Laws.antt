-- ===== src/Interrupt/Init/Laws.antt =====
-- What `init` sets up, and what its clearing does to the physical manager.
use simple_os_rs.Common.{
  ℕ, ◌+◌, ◌*◌, ◌%◌, ◌^◌, ◌<◌, ◌≤◌, ◌≡◌, ◌≢◌, true, refl, ap, ◌∙◌, arith, List, [], ◌∷◌,
}
use simple_os_rs.Common.Outcome.{ok}
use simple_os_rs.Virt.{phys_to_virt}
use simple_os_rs.Phys.Storage.{PhysManagerStorage, null, Ptr}
use simple_os_rs.Phys.FreeList.{Mem, new_entry}
use simple_os_rs.Phys.FreeList.Chain.{Chain}
use simple_os_rs.Phys.Order.{max_order}
use simple_os_rs.Phys.Buddy.{Manager}
use simple_os_rs.Phys.Manager.{alloc_page, page_of}
use simple_os_rs.Phys.Manager.Serves.{Pages, Serves}
use simple_os_rs.Gdt.{empty_tss, size_of_tss}
use simple_os_rs.Interrupt.Table.{set_isrs}
use simple_os_rs.Interrupt.{set_entries}
use simple_os_rs.Interrupt.Laws.{offset_of}
use simple_os_rs.Interrupt.Init.{
  Structures, Table, is_cleared, clear_entries, clear_structures, empty_entry, init,
}

-- What is cleared is zero before: the structures do not change.
pub record Undisturbed (idt : ℕ) (s : Structures) : Type 0 where
  pub entries : (p : Ptr) → is_cleared idt p ≡ true → s.manager.mem p ≡ new_entry 0
  pub words : (i : ℕ) → is_cleared idt (s.bitmap + i * 8) ≡ true → s.manager.buddy_map.word i ≡ 0
  pub slots : (i : ℕ) → is_cleared idt (s.gdt.gdt_ptr + i * 8) ≡ true → s.gdt.tables.gdt i ≡ 0
  pub segments :
      (core : ℕ)
      → is_cleared idt (s.gdt.tss_ptr + core * size_of_tss) ≡ true
      → s.gdt.tables.tss core ≡ empty_tss

module _ (storage : PhysManagerStorage) (n high_mem_base : ℕ) (stub : ℕ → ℕ) (s : Structures)
    (F : Pages) where
  -- The table lies on a page that was free and no longer is, each entry leads to its stub, and the
  -- rest is as before.
  pub record Installed (after : Structures) (t : Table) : Type 0 where
    pub phys : ℕ
    pub page_aligned : phys % 4096 ≡ 0
    pub was_free : F (page_of phys)
    pub serves : Serves storage n after.manager (λ p. F p × (p ≢ page_of phys))
    pub same_gdt : after.gdt ≡ s.gdt
    pub same_bitmap : after.bitmap ≡ s.bitmap
    pub table_at : t.idt ≡ phys_to_virt high_mem_base phys
    pub entry :
        (i : ℕ)
        → i < 256
        → stub i < 2 ^ 64
        → (offset_of (t.entries i) ≡ stub i)
          × ((t.entries i).target_selector ≡ 8)
          × ((t.entries i).ist ≡ 1)

  head_order :
      (mem : Mem) (o : ℕ) (before p : Ptr) (is : List ℕ)
      → Chain storage mem o before p is
      → p ≢ null
      → (mem p).order ≡ o
  head_order mem o before p [] c ne = absurd (ne c)
  head_order mem o before p (i ∷ is) c ne = ap (λ x. (mem x).order) c.0 ∙ c.3

  -- Where `alloc_page` gives a page and the list of an order from 1 to 8 then starts at an entry
  -- that the clearing reaches, `init` returns with a manager that is not well-formed, whatever
  -- its free pages are said to be.
  pub init-not_Serves :
      (m : Manager) (phys k : ℕ)
      → alloc_page storage s.manager ≡ ok (m, phys)
      → 1 ≤ k
      → k ≤ max_order
      → m.free_lists k ≢ null
      → is_cleared (phys_to_virt high_mem_base phys) (m.free_lists k) ≡ true
      → (after : Structures) × (table : Table) × (init storage high_mem_base stub s
          ≡ ok (after, table))
        × ((G : Pages) → ¬ Serves storage n after.manager G)
  unfolding init clear_structures
  init-not_Serves m phys k e pos le ne hit =
      let idt = phys_to_virt high_mem_base phys in
      (
        clear_structures idt (record s { manager = m }),
        record { idt = idt; entries = set_entries stub (λ i. empty_entry) set_isrs },
        rw e refl,
        λ G sv.
            let order =
              head_order (clear_entries idt m.mem) k null (m.free_lists k) (sv.view k)
                (sv.repr.chain k le) ne in
            let lost : (clear_entries idt m.mem (m.free_lists k)).order ≡ 0 = rw hit in
            absurd (omega (arith, order, lost)),
      )
