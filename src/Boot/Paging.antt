-- ===== src/Boot/Paging.antt =====
-- The initial page table, bootloader/src/paging.rs. The firmware's `allocate_pages` is a parameter:
-- the address of the pages and what they hold, in words of 64 bits.
pub mod Walk
pub mod Laws
pub mod Mapping
pub mod Mirror
pub mod Handover
pub mod Tests
use simple_os_rs.Common.{
  update, ℕ, ◌+◌, ◌-◌, ◌*◌, ◌/◌, ◌%◌, ◌^◌, Bool, true, false, ltb, ◌==◌, if◌then◌else◌, List, [],
  ◌∷◌, Option, none, some, bit_and, bit_or,
}
use simple_os_rs.Common.Outcome.{
  Outcome, ok, panic, index_out_of_bounds, expect_failed, assertion_failed, ◌>>=◌,
}
use simple_os_rs.Common.Loops.{for_range}

abbrev pub pml_p : ℕ
pml_p = 0x1

abbrev pub pml_rw : ℕ
pml_rw = 0x2

abbrev pub pml4_addr_mask : ℕ
pml4_addr_mask = 0x000F_FFFF_FFFF_F000

abbrev pub pml4_entry_base : ℕ
pml4_entry_base = bit_or pml_p pml_rw

abbrev pub pdpe_addr_mask : ℕ
pdpe_addr_mask = 0x000F_FFFF_FFFF_F000

abbrev pub pdpe_entry_base : ℕ
pdpe_entry_base = bit_or pml_p pml_rw

abbrev pub pde_addr_mask : ℕ
pde_addr_mask = 0x000F_FFFF_FFE0_0000

abbrev pub pde_entry_base : ℕ
pde_entry_base = bit_or (bit_or pml_p pml_rw) 0x80

-- The words of the page buffer.
abbrev pub Buffer : Type 0
Buffer = ℕ → ℕ

-- `page_buffer[i] = v`, where the slice has `len` words.
unfoldable pub put : ℕ → ℕ → ℕ → Buffer → Outcome Buffer
put len i v buffer = if ltb i len then ok (update buffer i v) else panic index_out_of_bounds

unfoldable pub assert : Bool → Outcome (Unit {0})
assert b = if b then ok tt else panic assertion_failed

-- The numbers of entries and pages of `init`.
abbrev pub pml4_entries : ℕ → ℕ
pml4_entries size = size / 2 ^ 39 + 1

abbrev pub pdp_entries : ℕ → ℕ
pdp_entries size = size / 2 ^ 30 + 1

abbrev pub pd_entries : ℕ → ℕ
pd_entries size = size / 2 ^ 21 + 1

abbrev pub pages_for : ℕ → ℕ
pages_for entries = (entries * 8 + 4095) / 4096

-- The bodies of the three loops; `base` is the address of the buffer and `len` the length of the
-- slice.
unfoldable pub fill_pml4 : ℕ → ℕ → ℕ → ℕ → ℕ → Buffer → Outcome Buffer
unfolding put assert
fill_pml4 base len entries pml4_pages pml4_entry buffer = do
  let entry_addr = pml4_entry * 4096 + pml4_pages * 4096 + base
  _ ← assert (bit_and entry_addr pml4_addr_mask == entry_addr)
  let entry = bit_or entry_addr pml4_entry_base
  buffer₁ ← put len pml4_entry entry buffer
  put len (512 - entries + pml4_entry) entry buffer₁

unfoldable pub fill_pdp : ℕ → ℕ → ℕ → ℕ → ℕ → Buffer → Outcome Buffer
unfolding put assert
fill_pdp base len pml4_pages pdp_pages pdp_entry buffer = do
  let entry_addr = pdp_entry * 4096 + pml4_pages * 4096 + pdp_pages * 4096 + base
  _ ← assert (bit_and entry_addr pdpe_addr_mask == entry_addr)
  put len (pml4_pages * 512 + pdp_entry) (bit_or entry_addr pdpe_entry_base) buffer

unfoldable pub fill_pd : ℕ → ℕ → ℕ → ℕ → Buffer → Outcome Buffer
unfolding put assert
fill_pd len pml4_pages pdp_pages pd_entry buffer = do
  let entry_addr = pd_entry * 2 ^ 21
  _ ← assert (bit_and entry_addr pde_addr_mask == entry_addr)
  put len (pml4_pages * 512 + pdp_pages * 512 + pd_entry) (bit_or entry_addr pde_entry_base) buffer

-- `ptr_to_kernelspace`, with the static `HIGH_MEM_BASE` as an argument.
unfoldable pub ptr_to_kernelspace : ℕ → ℕ → ℕ
ptr_to_kernelspace high_mem_base ptr = bit_or ptr high_mem_base

abbrev pub high_mem_base : ℕ → ℕ
high_mem_base entries = bit_or 0xFFFF_0000_0000_0000 ((512 - entries) * 2 ^ 39)

pub record PagingInfo : Type 0 where
  pub page_buffer : ℕ
  pub pdp_pages : ℕ
  pub pd_pages : ℕ
  pub pml4_entries : ℕ

-- What `init` leaves: the table at the address in `cr3`, the base, and the info for the kernel.
pub record Paging : Type 0 where
  pub table : Buffer
  pub cr3 : ℕ
  pub base : ℕ
  pub paging_info : PagingInfo

-- The size without the bits from 47 on.
abbrev pub mapped_size : ℕ → ℕ
mapped_size physical_size = bit_and physical_size 0x0000_7FFF_FFFF_FFFF

unfoldable pub init : (ℕ → Option (ℕ × Buffer)) → ℕ → Outcome Paging
unfolding assert fill_pml4 fill_pdp fill_pd ptr_to_kernelspace for_range
init allocate_pages physical_size = do
  let size = mapped_size physical_size
  let pml4_pages = pages_for (pml4_entries size)
  let pdp_pages = pages_for (pdp_entries size)
  let pd_pages = pages_for (pd_entries size)
  let alloc_pages = pml4_pages + pdp_pages + pd_pages
  _ ← assert (pml4_pages == 1)
  (ptr, buffer) ← elim (allocate_pages alloc_pages) [
    | some pages ↦ ok pages
    | none ↦ panic expect_failed
  ]
  let len = alloc_pages * 4096
  buffer₁ ←
      for_range (pml4_entries size) 0 (fill_pml4 ptr len (pml4_entries size) pml4_pages) buffer
  buffer₂ ← for_range (pdp_entries size) 0 (fill_pdp ptr len pml4_pages pdp_pages) buffer₁
  buffer₃ ← for_range (pd_entries size) 0 (fill_pd len pml4_pages pdp_pages) buffer₂
  let base = high_mem_base (pml4_entries size)
  ok (record {
    table = buffer₃;
    cr3 = ptr;
    base = base;
    paging_info = record {
      page_buffer = ptr_to_kernelspace base ptr;
      pdp_pages = pdp_pages;
      pd_pages = pd_pages;
      pml4_entries = pml4_entries size;
    };
  })

-- A descriptor of the firmware's memory map, as far as it is read.
pub record Descriptor : Type 0 where
  pub phys_start : ℕ
  pub page_count : ℕ

-- The loop over the memory map in the outer `init`, from the size found so far.
abbrev pub physical_size : ℕ → List Descriptor → ℕ
physical_size size [] = size
physical_size size (e ∷ rest) =
    let end = (e.phys_start + e.page_count * 4096) % 2 ^ 64 in
    physical_size (if ltb size end then end else size) rest

unfoldable pub init_from_map : (ℕ → Option (ℕ × Buffer)) → List Descriptor → Outcome Paging
unfolding init
init_from_map allocate_pages mmap = init allocate_pages (physical_size 0 mmap)
