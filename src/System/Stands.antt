-- ===== src/System/Stands.antt =====
-- What stands in memory when the kernel starts: the header, and all that it leads to.
use simple_os_rs.Common.{
  ℕ, ◌+◌, ◌*◌, ◌^◌, ◌<◌, ◌≤◌, ◌≡◌, inl, inr, sym, ap, ◌∙◌, [], ◌∷◌, length, arith,
}
use simple_os_rs.Virt.Arch
use simple_os_rs.Boot.Elf.Bytes.{Memory}
use simple_os_rs.Boot.Paging.{
  PagingInfo, pml4_entries, pdp_entries, pd_entries, pages_for, ptr_to_kernelspace,
}
use simple_os_rs.Boot.Paging.Mapping.{alloc_pages}
use simple_os_rs.Boot.Paging.Handover.{MapsHigh}
use simple_os_rs.Boot.Allocator.{pages_of}
use simple_os_rs.Boot.Start.{memory_map}
use simple_os_rs.Boot.Segments.{segments_at}
use simple_os_rs.Boot.Segments.Laws.{segments_at-same}
use simple_os_rs.Boot.Firmware.{Firmware}
use simple_os_rs.Boot.Main.{KernelHeader, words_at, header_of, kernel_stack_size}
use simple_os_rs.Boot.Main.Working.{Disk, Kept, Works}
use simple_os_rs.Boot.Main.Handover.{Off, TableFilled-Kept, TableFilled-MapsHigh}
use simple_os_rs.Boot.Main.Tables.{TableFilled}
use simple_os_rs.Boot.Main.Preparing.{mirror}
use simple_os_rs.Boot.Main.Run.{Started}
use simple_os_rs.System.Header.{
  FieldsFit, write_header, header_at, header_at-write_header, write_header-Off,
}

-- The page table stays where the header's page is off it.
table-Off :
    (mem : Memory) (at top cr3 : ℕ) (kh : KernelHeader)
    → top < 2 ^ 47
    → cr3 + alloc_pages top * 4096 ≤ top
    → Off at 1 cr3 (alloc_pages top)
    → TableFilled top cr3 (words_at mem cr3)
    → TableFilled top cr3 (words_at (write_header mem at kh) cr3)
table-Off mem at top cr3 kh small fits off filled =
    let stays : Kept ((cr3, alloc_pages top) ∷ []) mem (write_header mem at kh) =
      λ q l a owned lo hi. elim owned [
        | inl (ep, en) ↦
            write_header-Off mem at cr3 (alloc_pages top) a kh off (omega (arith, ep, lo))
              (omega (arith, ep, en, hi))
        | inr none ↦ absurd none
      ] in
    TableFilled-Kept top cr3 [] mem (write_header mem at kh) small fits stays filled

module _ (F : Firmware) (bytes top : ℕ) (disk : Disk) (works : Works F bytes top disk)
    (fuel text size img : ℕ) (m : F.Machine)
    (s : Started F bytes top disk works fuel text size img m) where
  -- The header at the jump, and memory with it.
  abbrev pub header : KernelHeader
  header =
      header_of s.paging s.mode s.frame_buffer (s.paging.base + s.entered.at)
        (length s.entered.entries)

  abbrev pub final : Memory
  final = write_header (F.memory s.entered.after) s.header_addr header

  pub record Stands : Type 0 where
    pub header_read : header_at final s.header_addr ≡ header
    pub zero : header.high_memory_base ≡ s.paging.base
    pub screen : header.screen_buffer ≡ s.paging.base + s.frame_buffer
    pub table : header.paging_info.page_buffer ≡ s.paging.base + s.paging.cr3
    pub map :
        segments_at final s.entered.at (length s.entered.entries) ≡ memory_map s.entered.entries
    pub image :
        (a : ℕ)
        → s.kernel.low ≤ a
        → a < s.kernel.low + size
        → final a ≡ s.kernel.accepted.after (s.paging.base + a)
    pub maps_high :
        (phys : ℕ)
        → phys ≤ top
        → MapsHigh
            (Arch.init s.paging.base s.paging.paging_info (words_at final s.paging.cr3))
            s.paging.base
            phys

  -- The header's page is off the pages of the memory map.
  map-Off : Off s.header_addr 1 s.entered.buffer (s.entered.pages * 2)
  map-Off a lo hi =
      works.disjoint s.entered.left s.entered.buffer (s.entered.pages * 2) s.header_addr 1 a
        ((s.entered.stack, pages_of kernel_stack_size) ∷ (s.kernel.low, pages_of size) ∷ s.blocks)
        s.entered.with_map s.entered.map_ready (inr (inr s.header_owned)) lo hi

  pub Started-Stands :
      (j : ℕ)
      → top < 2 ^ 47
      → j ≤ 8
      → pml4_entries top ≡ 2 ^ j
      → size + 4095 < 2 ^ 64
      → s.frame_buffer ≤ top
      → Stands
  unfolding header_of
  Started-Stands j small le power size_small shown =
      let base = s.paging.base in
      let mem = F.memory s.entered.after in
      let (above, below, add) = mirror top j base small le power s.based in
      let zero : ptr_to_kernelspace base 0 ≡ base = add 0 (omega arith) ∙ omega arith in
      let screen : ptr_to_kernelspace base s.frame_buffer ≡ base + s.frame_buffer =
        add s.frame_buffer shown in
      let table : s.paging.paging_info.page_buffer ≡ base + s.paging.cr3 =
        ap (λ (i : PagingInfo). i.page_buffer) s.table_info
        ∙ ap (λ b. ptr_to_kernelspace b s.paging.cr3) (sym s.based)
        ∙ add s.paging.cr3 (omega (arith, s.table_below)) in
      let pdp : s.paging.paging_info.pdp_pages ≡ pages_for (pdp_entries top) =
        ap (λ (i : PagingInfo). i.pdp_pages) s.table_info in
      let pd : s.paging.paging_info.pd_pages ≡ pages_for (pd_entries top) =
        ap (λ (i : PagingInfo). i.pd_pages) s.table_info in
      let pml4 : s.paging.paging_info.pml4_entries ≡ pml4_entries top =
        ap (λ (i : PagingInfo). i.pml4_entries) s.table_info in
      let fit : FieldsFit header = record {
        screen_buffer = omega (arith, screen, shown, below);
        screen_width = omega arith;
        screen_height = omega arith;
        screen_scanline_width = omega arith;
        page_buffer = omega (arith, table, s.table_below, below);
        pdp_pages = omega (arith, pdp);
        pd_pages = omega (arith, pd);
        pml4_entries = omega (arith, pml4);
        memory_map = omega (arith, s.entered.map_fits, s.entered.map_below, below);
        memory_map_entries = omega (arith, s.entered.map_fits, s.entered.map_below);
        high_memory_base = omega (arith, zero, below);
      } in
      record {
        header_read = header_at-write_header mem s.header_addr header fit;
        zero = zero;
        screen = screen;
        table = table;
        map =
            segments_at-same mem final s.entered.at (length s.entered.entries) (λ a lo hi.
              write_header-Off mem s.header_addr s.entered.buffer (s.entered.pages * 2) a header
                map-Off (omega (arith, s.entered.map_starts, lo))
                (omega (arith, s.entered.map_fits, hi)))
            ∙ s.entered.map_read;
        image = λ a lo hi.
            write_header-Off mem s.header_addr s.kernel.low (pages_of size) a header
              s.header_off_image lo (omega arith)
            ∙ s.image_stays a lo hi;
        maps_high =
            TableFilled-MapsHigh top s.paging.cr3 j base s.paging.paging_info
              (words_at final s.paging.cr3) small le power s.table_aligned s.table_below s.based
              s.table_info
              (table-Off mem s.header_addr top s.paging.cr3 header small s.table_below
                s.header_off_table s.table_stays);
      }
