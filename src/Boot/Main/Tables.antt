-- ===== src/Boot/Main/Tables.antt =====
-- The screen and the page tables on a firmware that works.
use simple_os_rs.Common.{
  ℕ, ◌+◌, ◌-◌, ◌*◌, ◌/◌, ◌%◌, ◌^◌, ◌<◌, ◌≤◌, ◌≡◌, inl, inr, refl, sym, ap, ◌∙◌, List, [], ◌∷◌, map,
  Option, none, some, arith, subst,
}
use simple_os_rs.Common.Outcome.{ok, assertion_failed}
use simple_os_rs.Boot.Paging.{
  Buffer, Paging, PagingInfo, init_from_map, init, physical_size, high_mem_base, pml4_entries,
  pdp_entries, pd_entries, pages_for,
}
use simple_os_rs.Boot.Paging.Mapping.{Maps, alloc_pages, filled_paging, init-Filled, init-Maps}
use simple_os_rs.Boot.Start.{VideoMode, MemoryDescriptor, loader_data}
use simple_os_rs.Boot.Start.Laws.{
  Member, Suitable, AllBelow, Widest, descriptor_of, best_from-Found,
}
use simple_os_rs.Boot.Firmware.{Firmware, any_pages}
use simple_os_rs.Boot.Main.Working.{Disk, Kept, Works}
use simple_os_rs.Boot.Main.Words.{words_at-put_words, words_at-Kept, Filled-same}
use simple_os_rs.Boot.Paging.Laws.{Filled}
use simple_os_rs.Boot.Elf.Bytes.{Memory}
use simple_os_rs.Boot.Main.Laws.{map_buffer-BufferTaken}
use simple_os_rs.Boot.Main.{words_at, put_words, table_pages, init_paging, init_screen, map_buffer}

-- A suitable mode is not below all.
not_below :
    (v : VideoMode) (modes : List VideoMode) → Member v modes → Suitable v → AllBelow 0 modes → ⊥
not_below v [] member s below = member
not_below v (m ∷ modes) (inl same) s (h, below) =
    let le : v.width ≤ 0 = subst (λ x. Suitable x → x.width ≤ 0) same h s in
    omega (arith, le, s.wide)
not_below v (m ∷ modes) (inr member) s (h, below) = not_below v modes member s below

-- The information on a table at `ptr` that maps `top` bytes.
abbrev pub info_of : ℕ → ℕ → PagingInfo
info_of top ptr =
    (filled_paging top ptr (pages_for (pdp_entries top)) (pages_for (pd_entries top))
      (λ i. 0)).paging_info

-- The levels of such a table are filled.
abbrev pub TableFilled : ℕ → ℕ → Buffer → Type 0
TableFilled top ptr b =
    Filled (ptr / 4096) (pml4_entries top) (pages_for (pdp_entries top)) (pdp_entries top)
      (pd_entries top) b

-- `init` with what it fills in the table's pages, as it is returned.
pub paging_made :
    (allocate_pages : ℕ → Option (ℕ × Buffer)) (top ptr : ℕ) (buffer : Buffer)
    → top < 2 ^ 47
    → allocate_pages (alloc_pages top) ≡ some (ptr, buffer)
    → ptr % 4096 ≡ 0
    → ptr + alloc_pages top * 4096 ≤ 2 ^ 52
    → (paging : Paging) × (init allocate_pages top ≡ ok paging)
      × ((phys : ℕ) → phys ≤ top → Maps paging phys)
      × (paging.base ≡ high_mem_base (pml4_entries top))
      × (paging.cr3 ≡ ptr)
      × (paging.paging_info.pdp_pages + paging.paging_info.pd_pages + 1 ≡ alloc_pages top)
      × (paging.paging_info ≡ info_of top ptr)
      × TableFilled top ptr paging.table
paging_made allocate_pages top ptr buffer small given aligned fits =
    let (paging, run, maps) = init-Maps allocate_pages top ptr buffer small given aligned fits in
    let (b, run', filled) = init-Filled allocate_pages top ptr buffer small given aligned fits in
    let p =
      filled_paging top (ptr / 4096 * 2 ^ 12) (pages_for (pdp_entries top))
        (pages_for (pd_entries top)) b in
    let same : p ≡ paging = cc in
    let at : ptr / 4096 * 2 ^ 12 ≡ ptr = omega arith in
    let one : pages_for (pml4_entries top) ≡ 1 = omega arith in
    (
      paging,
      run,
      maps,
      ap (λ (x : Paging). x.base) (sym same),
      ap (λ (x : Paging). x.cr3) (sym same) ∙ at,
      ap (λ (x : Paging). x.paging_info.pdp_pages + x.paging_info.pd_pages + 1) (sym same)
          ∙ omega (arith, one),
      ap (λ (x : Paging). x.paging_info) (sym same) ∙ ap (λ p. info_of top p) at,
      subst (λ (x : Paging). TableFilled top ptr x.table) same filled,
    )

module _ (F : Firmware) (bytes top : ℕ) (disk : Disk) (works : Works F bytes top disk) where
  pub init_screen-returns :
      (k : ℕ) (bs : List (ℕ × ℕ)) (m : F.Machine)
      → works.Ready k bs m
      → (mode : VideoMode) × (buffer : ℕ) × (after : F.Machine) × (init_screen F m
          ≡ ok ((mode, buffer), after))
        × Widest (F.modes m) mode
        × (F.set_mode mode m ≡ (some tt, after))
        × (buffer ≡ F.frame_buffer after)
        × works.Ready k bs after
  unfolding init_screen
  init_screen-returns k bs m ready =
      let (v, member, suits) = works.suitable k bs m ready in
      elim (best_from-Found 0 none (F.modes m)) [
        | inl (none_found, below) ↦ absurd (not_below v (F.modes m) member suits below)
        | inr (mode, found, wide, widest) ↦
            let (after, run, ready') = works.sets k bs mode m ready widest.member in
            (mode, F.frame_buffer after, after, rw (found, run) refl, widest, run, refl, ready')
      ]

  -- The table maps all of memory, at its address and at its mirror.
  pub record TablesMade (k : ℕ) (bs : List (ℕ × ℕ)) (m : F.Machine) : Type 0 where
    pub paging : Paging
    pub after : F.Machine
    pub returns : init_paging F m ≡ ok (paging, after)
    pub base : paging.base ≡ high_mem_base (pml4_entries top)
    pub maps : (phys : ℕ) → phys ≤ top → Maps paging phys
    pub left : ℕ
    pub enough : k ≤ left + ((bytes + 4095) / 4096 + 1) + alloc_pages top
    pub ptr : ℕ
    pub cr3 : paging.cr3 ≡ ptr
    pub aligned : ptr % 4096 ≡ 0
    pub below : ptr + alloc_pages top * 4096 ≤ top
    pub info : paging.paging_info ≡ info_of top ptr
    pub filled : TableFilled top ptr (words_at (F.memory after) ptr)
    pub ready : works.Ready left ((ptr, alloc_pages top) ∷ bs) after

  table_pages-some :
      (n ptr : ℕ) (m m' : F.Machine)
      → F.allocate_pages any_pages loader_data n m ≡ (some ptr, m')
      → table_pages F (F.allocate_pages any_pages loader_data n m)
        ≡ some (ptr, words_at (F.memory m') ptr)
  table_pages-some n ptr m m' run = rw run refl

  -- The machine after the table is stored and loaded.
  table_loaded : F.Machine → ℕ → ℕ → Buffer → F.Machine
  table_loaded m cr3 n table =
      let after = (F.allocate_pages any_pages loader_data n m).1 in
      F.load_cr3 cr3 (F.store (put_words (F.memory after) cr3 (n * 4096) table) after)

  abbrev pages_taken : Paging → ℕ
  pages_taken paging = paging.paging_info.pdp_pages + paging.paging_info.pd_pages + 1

  -- From the call of the table's pages up to the firmware's `free_pages`.
  table_stored :
      (k : ℕ) (bs : List (ℕ × ℕ)) (table : Buffer) (m m' : F.Machine) (ptr cr3 n : ℕ)
      → F.allocate_pages any_pages loader_data (alloc_pages top) m ≡ (some ptr, m')
      → works.Ready k ((ptr, alloc_pages top) ∷ bs) m'
      → cr3 ≡ ptr
      → n ≡ alloc_pages top
      → works.Ready k ((ptr, alloc_pages top) ∷ bs) (table_loaded m cr3 n table)
        × (F.memory (table_loaded m cr3 n table)
            ≡ put_words (F.memory m') ptr (alloc_pages top * 4096) table)
  unfolding table_loaded
  table_stored k bs table m m' ptr cr3 n given ready same pages =
      let filled = put_words (F.memory m') ptr (alloc_pages top * 4096) table in
      let stored =
        works.stores_kept k ptr (alloc_pages top) bs filled m' ready (λ a out. ground arith) in
      let run : table_loaded m ptr (alloc_pages top) table ≡ F.load_cr3 ptr (F.store filled m') =
        ap
          (λ (r : Option ℕ × F.Machine).
            F.load_cr3 ptr
              (F.store (put_words (F.memory (r.1)) ptr (alloc_pages top * 4096) table) (r.1)))
          given in
      rw (same, pages, run)
        (
          works.loads_cr3 k ptr (alloc_pages top) bs (F.store filled m') stored,
          works.cr3_memory ptr (F.store filled m') ∙ works.stores filled m',
        )

  freed_pages :
      (ptr n n' : ℕ) (m after : F.Machine)
      → n ≡ n'
      → F.free_pages ptr n m ≡ (some tt, after)
      → F.free_pages ptr n' m ≡ (some tt, after)
  freed_pages ptr n n' m after e freed = ap (λ x. F.free_pages ptr x m) (sym e) ∙ freed

  -- The table in memory after its pages are filled, while its block stays.
  table_filled :
      (bs : List (ℕ × ℕ)) (ptr : ℕ) (table : Buffer) (mem before after : Memory)
      → top < 2 ^ 47
      → ptr + alloc_pages top * 4096 ≤ top
      → before ≡ put_words mem ptr (alloc_pages top * 4096) table
      → Kept ((ptr, alloc_pages top) ∷ bs) before after
      → TableFilled top ptr table
      → TableFilled top ptr (words_at after ptr)
  table_filled bs ptr table mem before after small below stored kept filled =
      let one : pages_for (pml4_entries top) ≡ 1 = omega arith in
      Filled-same (ptr / 4096) (pml4_entries top) (pages_for (pdp_entries top)) (pdp_entries top)
        (pd_entries top) (alloc_pages top * 512) table (words_at after ptr) (omega arith)
        (omega arith) (omega (arith, one)) (omega arith)
        (λ i lt word.
          words_at-Kept bs ptr (alloc_pages top) i before after kept lt
          ∙ ap (λ (x : Memory). words_at x ptr i) stored
          ∙ words_at-put_words mem ptr (alloc_pages top * 4096) table i (omega arith) word)
        filled

  init_paging-run :
      (m m₁ m₂ after : F.Machine) (ptr pages : ℕ) (mmap : List MemoryDescriptor) (paging : Paging)
      → map_buffer F assertion_failed 1 m ≡ ok ((ptr, pages), m₁)
      → F.memory_map ptr (pages * 4096) m₁ ≡ (some mmap, m₂)
      → init_from_map
          (λ n. table_pages F (F.allocate_pages any_pages loader_data n m₂))
          (map descriptor_of mmap)
        ≡ ok paging
      → F.free_pages ptr pages (table_loaded m₂ paging.cr3 (pages_taken paging) paging.table)
        ≡ (some tt, after)
      → init_paging F m ≡ ok (paging, after)
  unfolding init_paging table_loaded
  init_paging-run m m₁ m₂ after ptr pages mmap paging e₁ e₂ e₃ e₄ = rw (e₁, e₂, e₃, e₄) refl

  from_size :
      (allocate_pages : ℕ → Option (ℕ × Buffer)) (mmap : List MemoryDescriptor) (paging : Paging)
      → physical_size 0 (map descriptor_of mmap) ≡ top
      → init allocate_pages top ≡ ok paging
      → init_from_map allocate_pages (map descriptor_of mmap) ≡ ok paging
  unfolding init_from_map
  from_size allocate_pages mmap paging size run = ap (init allocate_pages) size ∙ run

  -- From a machine with the pages for the memory map and for the table.
  pub init_paging-TablesMade :
      (k : ℕ) (bs : List (ℕ × ℕ)) (m : F.Machine)
      → top < 2 ^ 47
      → works.Ready k bs m
      → ((bytes + 4095) / 4096 + 1) + alloc_pages top ≤ k
      → TablesMade k bs m
  init_paging-TablesMade k bs m small ready enough =
      let buffer =
        map_buffer-BufferTaken F bytes top disk works assertion_failed 1 k bs m ready
          (omega arith) in
      let blocks = (buffer.ptr, buffer.pages * 1) ∷ bs in
      let few = buffer.few in
      let (mmap, m₂, mapped, ready₂, size) =
        works.maps (k - buffer.pages * 1) buffer.ptr (buffer.pages * 1) (buffer.pages * 4096) bs
          buffer.after buffer.ready (omega arith) buffer.holds in
      let (ptr, m₃, given, ready₃, grows, aligned, below, kept) =
        works.allocates (k - buffer.pages * 1) (alloc_pages top) blocks m₂ ready₂
          (omega (arith, few)) in
      let (paging, run, maps, base, cr3, pages, info, filled) =
        paging_made (λ n. table_pages F (F.allocate_pages any_pages loader_data n m₂)) top ptr
          (words_at (F.memory m₃) ptr) small (table_pages-some (alloc_pages top) ptr m₂ m₃ given)
          aligned (omega arith) in
      let left = k - buffer.pages * 1 - alloc_pages top in
      let (ready₄, stored) =
        table_stored left blocks paging.table m₂ m₃ ptr paging.cr3 (pages_taken paging) given ready₃
          cr3 pages in
      let loaded = table_loaded m₂ paging.cr3 (pages_taken paging) paging.table in
      let ready₅ =
        works.swaps left (ptr, alloc_pages top) (buffer.ptr, buffer.pages * 1) bs loaded ready₄ in
      let (after, freed, ready₆, kept₆) =
        works.frees left buffer.ptr (buffer.pages * 1) ((ptr, alloc_pages top) ∷ bs) loaded
          ready₅ in
      let once : buffer.pages * 1 ≡ buffer.pages = omega arith in
      record {
        paging = paging;
        after = after;
        returns =
            init_paging-run m buffer.after m₂ after buffer.ptr buffer.pages mmap paging
              buffer.returns mapped
              (from_size (λ n. table_pages F (F.allocate_pages any_pages loader_data n m₂)) mmap
                paging size run)
              (freed_pages buffer.ptr (buffer.pages * 1) buffer.pages loaded after once freed);
        base = base;
        maps = maps;
        left = left;
        enough = omega (arith, few);
        ptr = ptr;
        cr3 = cr3;
        aligned = aligned;
        below = below;
        info = info;
        filled =
            table_filled bs ptr paging.table (F.memory m₃) (F.memory loaded) (F.memory after) small
              below stored kept₆ filled;
        ready = ready₆;
      }
