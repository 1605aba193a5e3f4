-- ===== src/Interrupt/Setup.antt =====
-- `init_core` of kernel/src/arch/x86_64/interrupt/mod.rs: the interrupt stack and the table of a
-- core.
use simple_os_rs.Common.{
  ℕ, ◌+◌, ◌-◌, ◌*◌, ◌%◌, ◌^◌, ◌≡◌, ◌≢◌, ◌⊎◌, ◌==◌, inl, inr, refl, subst, false, true, arith,
}
use simple_os_rs.Common.Outcome.{Outcome, ok, panic, out_of_physical_memory, ◌>>=◌}
use simple_os_rs.Virt.{phys_to_virt}
use simple_os_rs.Phys.Storage.{PhysManagerStorage}
use simple_os_rs.Phys.Buddy.{Manager}
use simple_os_rs.Phys.Buddy.Pages.{In}
use simple_os_rs.Phys.Order.{get_size_order, leading_zeros, bit_length}
use simple_os_rs.Phys.Manager.{page_of, alloc_linear_pages}
use simple_os_rs.Phys.Manager.Serves.{Pages, Serves}
use simple_os_rs.Phys.Manager.Linear.{NoRun, taken, refused, alloc_linear_pages-cases}
use simple_os_rs.Gdt.{State, set_ist1}

-- `IDTDesc`
pub record IdtDesc : Type 0 where
  pub limit : ℕ
  pub address : ℕ

-- The tables after, and what `lidt` loads; `idt` is the static `IDT`.
unfoldable pub init_core :
    PhysManagerStorage → ℕ → Manager → State → ℕ → ℕ → Outcome (Manager × State × IdtDesc)
unfolding phys_to_virt alloc_linear_pages set_ist1
init_core storage high_mem_base m s idt core_id = do
  (m', phys) ← alloc_linear_pages storage m 4
  let int_stack = phys_to_virt high_mem_base phys
  ok (
    m',
    set_ist1 s core_id ((int_stack + 4 * 4096) % 2 ^ 64),
    record { limit = 4095; address = idt },
  )

order_of_four : get_size_order 4 ≡ 2
unfolding get_size_order leading_zeros bit_length
order_of_four = refl

module _ (storage : PhysManagerStorage) (n high_mem_base : ℕ) (m : Manager) (F : Pages) where
  -- The segment of the core has the end of four pages as its stack, which were free and no longer
  -- are; the rest of the tables is as before.
  pub record HasStack (s : State) (idt core_id : ℕ) (after : Manager) (s' : State) (desc : IdtDesc)
      : Type 0 where
    pub phys : ℕ
    pub page_aligned : phys % 4096 ≡ 0
    pub were_free : (p : ℕ) → In p (page_of phys) 2 → F p
    pub serves : Serves storage n after (λ p. F p × ¬ In p (page_of phys) 2)
    pub stack : s'.tables.tss core_id ≡ record (s.tables.tss core_id) {
      ist1 = (phys_to_virt high_mem_base phys + 16384) % 2 ^ 64;
    }
    pub others : (other : ℕ) → core_id ≢ other → s'.tables.tss other ≡ s.tables.tss other
    pub same_gdt : s'.tables.gdt ≡ s.tables.gdt
    pub table : desc ≡ record { limit = 256 * 16 - 1; address = idt }

  -- On a well-formed manager `init_core` gives the core a stack of four pages that were free and
  -- no longer are, ending at its first interrupt stack, changes nothing else in the tables, and
  -- loads a table of 256 entries; or it panics with out of physical memory, and no aligned run of
  -- that size is free.
  pub init_core-HasStack :
      (s : State) (idt core_id : ℕ)
      → Serves storage n m F
      → ((after : Manager) × (s' : State) × (desc : IdtDesc) × (init_core storage high_mem_base m s
              idt core_id
            ≡ ok (after, s', desc))
          × HasStack s idt core_id after s' desc)
        ⊎ ((init_core storage high_mem_base m s idt core_id ≡ panic out_of_physical_memory)
            × NoRun storage n F 4)
  unfolding init_core set_ist1
  init_core-HasStack s idt core_id serving =
      elim (alloc_linear_pages-cases storage n m F 4 serving (omega arith) (omega arith)) [
        | taken after addr e t ↦
            let own : (core_id == core_id) ≡ true = ground arith in
            inl (
              after,
              set_ist1 s core_id ((phys_to_virt high_mem_base addr + 4 * 4096) % 2 ^ 64),
              record { limit = 4095; address = idt },
              rw e refl,
              record {
                phys = addr;
                page_aligned = t.page_aligned;
                were_free =
                    subst (λ k. (p : ℕ) → In p (page_of addr) k → F p) order_of_four t.were_free;
                serves =
                    subst (λ k. Serves storage n after (λ p. F p × ¬ In p (page_of addr) k))
                      order_of_four t.serves;
                stack = rw own;
                others =
                    λ other ne. let apart : (core_id == other) ≡ false = ground arith in rw apart;
                same_gdt = refl;
                table = refl;
              },
            )
        | refused e no_run ↦ inr (rw e, no_run)
      ]
