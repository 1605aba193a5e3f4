-- ===== src/Interrupt/Init.antt =====
-- `init` of kernel/src/arch/x86_64/interrupt/mod.rs. It clears 4096 entries of 16 bytes from the page
-- it allocates on, so that the pages behind are cleared as well; what the kernel keeps there is
-- `Structures`: the entries and the bitmap of the physical manager, and the tables of the GDT.
pub mod Laws
pub mod Tests
use simple_os_rs.Common.{
  ℕ, zero, ◌+◌, ◌-◌, ◌*◌, ◌/◌, ◌%◌, ◌^◌, ◌<◌, ◌≤◌, ◌≡◌, ◌≢◌, ◌⊎◌, Bool, true, false, ◌&&◌, leb, ltb,
  if◌then◌else◌, inl, inr, refl, sym, ap, ap₂, ◌∙◌, subst, fun_ext, arith, Bool-cases, List, [],
  ◌∷◌,
}
use simple_os_rs.Common.Outcome.{Outcome, ok, panic, out_of_physical_memory, ◌>>=◌}
use simple_os_rs.Virt.{phys_to_virt}
use simple_os_rs.Phys.Storage.{PhysManagerStorage, null, Ptr}
use simple_os_rs.Phys.FreeList.{FreeEntry, Mem, new_entry}
use simple_os_rs.Phys.FreeList.Chain.{Chain}
use simple_os_rs.Phys.Bitmap.{Bitmap}
use simple_os_rs.Phys.Order.{max_order}
use simple_os_rs.Phys.Buddy.{Manager}
use simple_os_rs.Phys.Manager.{alloc_page, page_of}
use simple_os_rs.Phys.Manager.Serves.{Pages, Serves}
use simple_os_rs.Phys.Manager.Calls.{PageTaken, alloc_page-PageTaken}
use simple_os_rs.Gdt.{State, Tables, Tss, empty_tss, size_of_tss, size_of_entry}
use simple_os_rs.Interrupt.Table.{set_isrs}
use simple_os_rs.Interrupt.{Idt, IdtEntry, set_entries}
use simple_os_rs.Interrupt.Laws.{offset_of, set_entries-set_isrs}

-- `size_of::<IDTEntry>()`
abbrev pub size_of_idt_entry : ℕ
size_of_idt_entry = 16

-- The address lies in what `idt.write_bytes(0, 4096)` clears.
abbrev pub is_cleared : ℕ → ℕ → Bool
is_cleared idt p = leb idt p && ltb p (idt + 4096 * size_of_idt_entry)

-- An array of words at `at`, after the clearing.
abbrev pub clear_words : ℕ → ℕ → (ℕ → ℕ) → ℕ → ℕ
clear_words idt at word i = if is_cleared idt (at + i * 8) then 0 else word i

-- Free entries stand at the start of pages, so that each is cleared whole or not at all.
abbrev pub clear_entries : ℕ → Mem → Mem
clear_entries idt mem p = if is_cleared idt p then new_entry 0 else mem p

abbrev pub clear_segments : ℕ → ℕ → (ℕ → Tss) → ℕ → Tss
clear_segments idt at tss core =
    if is_cleared idt (at + core * size_of_tss) then empty_tss else tss core

-- `bitmap` is the address of the manager's bitmap.
pub record Structures : Type 0 where
  pub manager : Manager
  pub bitmap : ℕ
  pub gdt : State

unfoldable pub clear_structures : ℕ → Structures → Structures
clear_structures idt s = record s {
  manager = record (s.manager) {
    mem = clear_entries idt s.manager.mem;
    buddy_map = record (s.manager.buddy_map) {
      word = clear_words idt s.bitmap s.manager.buddy_map.word;
    };
  };
  gdt = record (s.gdt) {
    tables = record {
      gdt = clear_words idt s.gdt.gdt_ptr s.gdt.tables.gdt;
      tss = clear_segments idt s.gdt.tss_ptr s.gdt.tables.tss;
    };
  };
}

abbrev pub empty_entry : IdtEntry
empty_entry = record {
  offset_low = 0;
  target_selector = 0;
  ist = 0;
  type_dpl_p = 0;
  offset_mid = 0;
  offset_high = 0;
  reserved = 0;
}

-- What `init` leaves: the static `IDT` and the entries there.
pub record Table : Type 0 where
  pub idt : ℕ
  pub entries : Idt

-- `stub` is the address of each stub.
unfoldable pub init : PhysManagerStorage → ℕ → (ℕ → ℕ) → Structures → Outcome (Structures × Table)
unfolding phys_to_virt alloc_page clear_structures set_entries
init storage high_mem_base stub s = do
  (m, phys) ← alloc_page storage s.manager
  let idt = phys_to_virt high_mem_base phys
  ok (
    clear_structures idt (record s { manager = m }),
    record { idt = idt; entries = set_entries stub (λ i. empty_entry) set_isrs },
  )
