-- ===== src/Gdt/Laws.antt =====
-- What `init` and `init_core` set up.
use simple_os_rs.Common.{
  ℕ, ◌+◌, ◌*◌, ◌/◌, ◌%◌, ◌^◌, ◌<◌, ◌≤◌, ◌≡◌, ◌≢◌, ◌⊎◌, inl, inr, refl, ◌∙◌, ap, subst, arith, false,
  true,
}
use simple_os_rs.Common.Outcome.{ok, panic, out_of_physical_memory}
use simple_os_rs.Virt.{phys_to_virt}
use simple_os_rs.Phys.Storage.{PhysManagerStorage}
use simple_os_rs.Phys.Buddy.{Manager}
use simple_os_rs.Phys.Manager.{page_of, alloc_linear_pages}
use simple_os_rs.Phys.Manager.Serves.{Pages, Serves}
use simple_os_rs.Phys.Manager.Linear.{taken, refused, alloc_linear_pages-cases}
use simple_os_rs.Phys.Manager.Calls.{index_fits, Serves-same}
use simple_os_rs.Phys.Order.{get_size_order, leading_zeros, bit_length}
use simple_os_rs.Phys.Buddy.Pages.{In}
use simple_os_rs.Gdt.{
  State, Tables, selector_null, selector_user_code, init_core, tss_entries, new_code, null_entry,
  low_word, tss_entry, size_of_tss, empty_tss, code_entries,
}
use simple_os_rs.Gdt.Descriptor.{Describes, tss_entry-Describes, base_of, tss_entries-Slots}

-- For two or more cores the upper half of the base in the descriptor that core 0 loads is the
-- lower half of the next core's descriptor, whatever the address of its segment.
pub tss_entries-clash :
    (num_cores tss_mem : ℕ) (t : Tables)
    → 2 ≤ num_cores
    → let gdt = (tss_entries num_cores 0 tss_mem t).gdt in
      base_of (gdt 3) (gdt 4)
      ≡ tss_mem % 2 ^ 32 + (103 + (tss_mem + size_of_tss) % 2 ^ 16 * 2 ^ 16) * 2 ^ 32
tss_entries-clash num_cores tss_mem t many =
    let slots = tss_entries-Slots num_cores 0 tss_mem t in
    let first : (tss_entries num_cores 0 tss_mem t).gdt 3 ≡ low_word (tss_entry tss_mem) =
      let start : tss_mem + 0 * size_of_tss ≡ tss_mem = omega arith in
      slots.low 0 (omega arith) (omega arith) ∙ ap (λ x. low_word (tss_entry x)) start in
    let second : (tss_entries num_cores 0 tss_mem t).gdt 4
        ≡ low_word (tss_entry (tss_mem + size_of_tss)) =
      let next : tss_mem + 1 * size_of_tss ≡ tss_mem + size_of_tss = omega arith in
      slots.low 1 (omega arith) (omega arith) ∙ ap (λ x. low_word (tss_entry x)) next in
    rw (first, second) (unfold tss_entry low_word in omega arith)

order_of_one : get_size_order 1 ≡ 0
unfolding get_size_order leading_zeros bit_length
order_of_one = refl

at_order : (p i : ℕ) → In p i (get_size_order 1) → p ≡ i
at_order p i h = let one : In p i 0 = subst (λ k. In p i k) order_of_one h in omega arith

-- One page that the manager gave away.
pub record PageGiven (storage : PhysManagerStorage) (n : ℕ) (F : Pages) (m after : Manager)
    (addr : ℕ) : Type 0 where
  pub returns : alloc_linear_pages storage m 1 ≡ ok (after, addr)
  pub page_aligned : addr % 4096 ≡ 0
  pub below : addr < 2 ^ 64
  pub was_free : F (page_of addr)
  pub serves : Serves storage n after (λ p. F p × (p ≢ page_of addr))

pub one_page :
    (storage : PhysManagerStorage) (n : ℕ) (F : Pages) (m : Manager)
    → Serves storage n m F
    → ((after : Manager) × (addr : ℕ) × PageGiven storage n F m after addr)
      ⊎ (alloc_linear_pages storage m 1 ≡ panic out_of_physical_memory)
one_page storage n F m s =
    elim (alloc_linear_pages-cases storage n m F 1 s (omega arith) (omega arith)) [
      | taken after addr e t ↦
          let i = page_of addr in
          inl (
            after,
            addr,
            record {
              returns = e;
              page_aligned = t.page_aligned;
              below = omega (arith, order_of_one, t.inside, index_fits storage n m F s);
              was_free = t.were_free i (rw order_of_one (omega arith));
              serves =
                  Serves-same storage n after (λ p. F p × ¬ In p i (get_size_order 1)) t.serves
                    (λ p. F p × (p ≢ i))
                    λ p. (
                      λ f. (f.0, λ e. f.1 (rw (order_of_one, e) (omega arith))),
                      λ f. (f.0, λ h. f.1 (at_order p i h)),
                    );
            },
          )
      | refused e no_run ↦ inr e
    ]

-- The table and the registers of a single core, for the segment at `tss`.
pub record Ready (s : State) : Type 0 where
  pub kernel_code : s.tables.gdt ((init_core s 0).cs / 8) ≡ new_code false
  pub user_code : s.tables.gdt (selector_user_code / 8) ≡ new_code true
  pub null : s.tables.gdt (selector_null / 8) ≡ null_entry
  pub task :
      Describes
        (s.tables.gdt ((init_core s 0).task / 8))
        (s.tables.gdt ((init_core s 0).task / 8 + 1))
        s.tss_ptr
  pub base : (init_core s 0).gdtr_base ≡ s.gdt_ptr
  -- The last byte of the descriptor of the segment is the last that the limit allows.
  pub limit : (init_core s 0).gdtr_limit + 1 ≡ ((init_core s 0).task / 8 + 2) * 8
  pub tss : s.tables.tss 0 ≡ empty_tss

pub tables-Ready :
    (gdt_ptr tss_ptr : ℕ) (before : Tables)
    → tss_ptr < 2 ^ 64
    → Ready (record {
      gdt_ptr = gdt_ptr;
      tss_ptr = tss_ptr;
      tables = tss_entries 1 0 tss_ptr (record { gdt = code_entries before.gdt; tss = before.tss });
    })
unfolding tss_entries init_core
tables-Ready gdt_ptr tss_ptr before fits =
    let start : tss_ptr + 0 * size_of_tss ≡ tss_ptr = omega arith in
    record {
      kernel_code = refl;
      user_code = refl;
      null = refl;
      task = rw start (tss_entry-Describes tss_ptr fits);
      base = refl;
      limit = refl;
      tss = refl;
    }

module _ (storage : PhysManagerStorage) (n high_mem_base : ℕ) (m : Manager) (F : Pages)
    (before : Tables) where
  -- What `init` for one core gives: two pages that were free, apart, and no longer free, and in them
  -- the table and the segment.
  pub record SetUp (after : Manager) (s : State) : Type 0 where
    pub gdt_phys : ℕ
    pub tss_phys : ℕ
    pub gdt_at : s.gdt_ptr ≡ phys_to_virt high_mem_base gdt_phys
    pub tss_at : s.tss_ptr ≡ phys_to_virt high_mem_base tss_phys
    pub gdt_free : F (page_of gdt_phys)
    pub tss_free : F (page_of tss_phys)
    pub apart : page_of tss_phys ≢ page_of gdt_phys
    pub serves :
        Serves storage n after (λ p. (F p × (p ≢ page_of gdt_phys)) × (p ≢ page_of tss_phys))
    pub ready : Ready s
