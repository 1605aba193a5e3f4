-- ===== src/Boot/Paging/Handover.antt =====
-- The bootloader's table after the kernel has cleared the lower half.
use simple_os_rs.Common.{
  ℕ, ◌+◌, ◌-◌, ◌*◌, ◌/◌, ◌%◌, ◌^◌, ◌<◌, ◌≤◌, ◌≡◌, inr, sym, ap, ◌∙◌, arith, bit_and, Option, none,
  some, List,
}
use simple_os_rs.Common.Outcome.{ok}
use simple_os_rs.Virt.{virt_to_phys}
use simple_os_rs.Virt.Arch.{Active, clear_from, clear_from-off, clear_from-cleared}
use simple_os_rs.Virt.Arch
use simple_os_rs.Common.Bits.Disjoint.{cleared}
use simple_os_rs.Boot.Paging.{
  Buffer, Descriptor, Paging, init_from_map, physical_size, pml4_entries, pdp_entries, pd_entries,
  pages_for, high_mem_base, ptr_to_kernelspace,
}
use simple_os_rs.Boot.Paging.Walk.{translate}
use simple_os_rs.Boot.Paging.Laws.{PdpFilled, PdFilled, Filled}
use simple_os_rs.Boot.Paging.Mapping.{walk, alloc_pages, base-sum, filled_paging, init-Filled}
use simple_os_rs.Boot.Paging.Mirror.{InMap, InMap-le, NoWrap}

-- Under the kernel's table the mirror of an address leads to it, and the address itself nowhere.
pub record MapsHigh (active : Active) (base phys : ℕ) : Type 0 where
  pub mirror : translate active.cr3 active.table (base + phys) ≡ some phys
  pub unmapped : translate active.cr3 active.table phys ≡ none

no_entry :
    (q n phys : ℕ) (buffer : Buffer)
    → n ≤ 256
    → phys / 2 ^ 39 < n
    → translate (q * 2 ^ 12) (clear_from n 0 buffer) phys ≡ none
unfolding translate
no_entry q n phys buffer le lt =
    let i₄ : (q * 2 ^ 12 + phys / 2 ^ 39 % 512 * 8 - q * 2 ^ 12) / 8 ≡ phys / 2 ^ 39 =
      omega arith in
    rw (i₄, clear_from-cleared n 0 buffer (phys / 2 ^ 39) (omega arith) (omega arith))

cr3-back :
    (base ptr : ℕ)
    → base < 2 ^ 64
    → ptr < 2 ^ 64
    → bit_and ptr base ≡ 0
    → virt_to_phys base (ptr_to_kernelspace base ptr) ≡ ptr
unfolding virt_to_phys ptr_to_kernelspace
cr3-back base ptr hb hp apart = cleared 64 ptr base hp hb apart

module _ (allocate_pages : ℕ → Option (ℕ × Buffer)) where
  -- The same, for the words of a table whose levels are filled.
  pub Filled-MapsHigh :
      (size q : ℕ) (b : Buffer)
      → size < 2 ^ 47
      → q * 2 ^ 12 + alloc_pages size * 4096 ≤ 2 ^ 52
      → Filled q
          (pml4_entries size)
          (pages_for (pdp_entries size))
          (pdp_entries size)
          (pd_entries size)
          b
      → bit_and (q * 2 ^ 12) (high_mem_base (pml4_entries size)) ≡ 0
      → (phys : ℕ) → phys ≤ size
      → let p =
          filled_paging size
            (q * 2 ^ 12)
            (pages_for (pdp_entries size))
            (pages_for (pd_entries size))
            b in
        MapsHigh (Arch.init p.base p.paging_info p.table) p.base phys
  unfolding Arch.init
  Filled-MapsHigh size q b small fits filled apart phys le =
      let n = pml4_entries size in
      let np = pdp_entries size in
      let nd = pd_entries size in
      let sum = base-sum n (omega arith) (omega arith) in
      let back = cr3-back (high_mem_base n) (q * 2 ^ 12) (omega (arith, sum)) (omega arith) apart in
      let index : (high_mem_base n + phys) / 2 ^ 39 % 512 ≡ 512 - n + phys / 2 ^ 39 =
        omega (arith, sum) in
      let middle : PdpFilled q (pages_for np) np (clear_from n 0 b) =
        λ j lt. clear_from-off n 0 b (512 + j) (inr (omega arith)) ∙ filled.middle j lt in
      let bottom : PdFilled (pages_for np) nd (clear_from n 0 b) = λ j lt.
        clear_from-off n 0 b (512 + pages_for np * 512 + j) (inr (omega arith))
        ∙ filled.bottom j lt in
      let entry = filled.top (phys / 2 ^ 39) (omega arith) in
      record {
        mirror = rw back (
            walk q n (pages_for np) np nd (clear_from n 0 b) middle bottom (high_mem_base n + phys)
              phys (omega arith) (omega arith) (omega arith) (omega arith) (omega arith)
              (omega (arith, sum)) (omega arith)
              (rw index
                (clear_from-off n 0 b (512 - n + phys / 2 ^ 39) (inr (omega arith)) ∙ entry.1)));
        unmapped = rw back (no_entry q n phys b (omega arith) (omega arith));
      }

  -- For a memory map of segments that do not wrap and end below 2^47, and page-aligned pages of
  -- the firmware below 2^52 whose address shares no bit with the base, the bootloader's `init`
  -- returns; after the kernel's `init` the processor's walk finds each address of the map at the
  -- base plus itself, and not at itself.
  pub init-MapsHigh :
      (mmap : List Descriptor) (ptr : ℕ) (buffer : Buffer)
      → NoWrap mmap
      → physical_size 0 mmap < 2 ^ 47
      → allocate_pages (alloc_pages (physical_size 0 mmap)) ≡ some (ptr, buffer)
      → ptr % 4096 ≡ 0
      → ptr + alloc_pages (physical_size 0 mmap) * 4096 ≤ 2 ^ 52
      → bit_and ptr (high_mem_base (pml4_entries (physical_size 0 mmap))) ≡ 0
      → (paging : Paging) × (init_from_map allocate_pages mmap ≡ ok paging)
        × ((a : ℕ)
            → InMap mmap a
            → MapsHigh (Arch.init paging.base paging.paging_info paging.table) paging.base a)
  unfolding init_from_map
  init-MapsHigh mmap ptr buffer wrap small given aligned fits apart =
      let size = physical_size 0 mmap in
      let q = ptr / 4096 in
      let at : ptr ≡ q * 2 ^ 12 = omega arith in
      let (b, done, filled) = init-Filled allocate_pages size ptr buffer small given aligned fits in
      let apart' : bit_and (q * 2 ^ 12) (high_mem_base (pml4_entries size)) ≡ 0 =
        ap (λ p. bit_and p (high_mem_base (pml4_entries size))) (sym at) ∙ apart in
      (
        filled_paging size (q * 2 ^ 12) (pages_for (pdp_entries size)) (pages_for (pd_entries size))
            b,
        done,
        λ a h.
            Filled-MapsHigh size q b small (omega arith) filled apart' a (InMap-le 0 a mmap wrap h),
      )
