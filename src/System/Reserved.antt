-- ===== src/System/Reserved.antt =====
-- The last memory map of the firmware, and the pages in it that the kernel never gives out.
use simple_os_rs.Common.{
  ℕ, ◌*◌, ◌/◌, ◌%◌, ◌^◌, ◌<◌, ◌≤◌, ◌≡◌, inl, inr, ap, ◌∙◌, List, [], ◌∷◌, map, ltb, if◌then◌else◌,
  some, true, bit_and, arith,
}
use simple_os_rs.Phys.Manager.{page_of}
use simple_os_rs.Phys.Manager.Region.{InRegion}
use simple_os_rs.Phys.Init.{MemorySegment, is_free, end_of, num_entries, num_storage_pages}
use simple_os_rs.Phys.Init.Segments.{FreeIn, Separate, Roomy}
use simple_os_rs.Phys.Init.Laws.{NoWrap, num_pages}
use simple_os_rs.Phys.Inline.{IsHighBase}
use simple_os_rs.Boot.Paging.{physical_size, high_mem_base, pml4_entries}
use simple_os_rs.Boot.Paging.Mirror.{ptr_to_kernelspace-add}
use simple_os_rs.Boot.Paging.Mapping.{base-sum}
use simple_os_rs.Boot.Start.{MemoryDescriptor, loader_data, segment_of, memory_map}
use simple_os_rs.Boot.Start.Laws.{descriptor_of, max_from-physical_size}
use simple_os_rs.Boot.Firmware.{Firmware}
use simple_os_rs.Boot.Main.Working.{Disk, Owned, Works}

-- Every descriptor with page `p` is of the type with which the bootloader allocates.
abbrev pub LoaderData : ℕ → List MemoryDescriptor → Type 0
LoaderData p [] = Unit
LoaderData p (d ∷ ds) =
    (InRegion p (page_of d.phys_start) d.page_count → d.ty ≡ loader_data) × LoaderData p ds

-- A map of memory that ends at `top`: its descriptors do not wrap, those of free memory are apart,
-- one of them has the pages of the kernel's bitmap, and the allocated blocks are in it under their
-- type.
pub record LastMap (top : ℕ) (bs : List (ℕ × ℕ)) (entries : List MemoryDescriptor) : Type 0 where
  pub no_wrap : NoWrap (memory_map entries)
  pub separate : Separate (memory_map entries)
  pub roomy : Roomy (num_storage_pages (top / 4096)) (memory_map entries)
  pub ends : physical_size 0 (map descriptor_of entries) ≡ top
  pub allocated : (ptr n p : ℕ) → Owned ptr n bs → InRegion p (page_of ptr) n → LoaderData p entries

-- The firmware gives such a map when its boot services end.
abbrev pub GivesLastMap :
    (F : Firmware) (bytes top : ℕ) (disk : Disk) → Works F bytes top disk → Type 0
GivesLastMap F bytes top disk works =
    (k ptr n size : ℕ) (bs : List (ℕ × ℕ)) (m m' : F.Machine) (entries : List MemoryDescriptor)
    → works.Ready k ((ptr, n) ∷ bs) m
    → F.exit_boot_services ptr size m ≡ (some entries, m')
    → LastMap top ((ptr, n) ∷ bs) entries

-- None of the pages is free.
abbrev pub Reserved : ℕ → ℕ → List MemorySegment → Type 0
Reserved ptr n segments = (p : ℕ) → InRegion p (page_of ptr) n → ¬ FreeIn segments p

not_free : (d : MemoryDescriptor) → d.ty ≡ loader_data → ¬ (is_free (segment_of d) ≡ true)
not_free d is free = cc

-- The kernel's map has what the bootloader allocated as occupied.
pub LoaderData-occupied :
    (p : ℕ) (entries : List MemoryDescriptor)
    → LoaderData p entries
    → ¬ FreeIn (memory_map entries) p
LoaderData-occupied p [] typed free = free
LoaderData-occupied p (d ∷ ds) (here, later) free = elim free [
  | inl (is, inside) ↦ not_free d (here inside) is
  | inr rest ↦ LoaderData-occupied p ds later rest
]

pub allocated-Reserved :
    (top ptr n : ℕ) (bs : List (ℕ × ℕ)) (entries : List MemoryDescriptor)
    → LastMap top bs entries
    → Owned ptr n bs
    → Reserved ptr n (memory_map entries)
allocated-Reserved top ptr n bs entries last owned p inside =
    LoaderData-occupied p entries (last.allocated ptr n p owned inside)

-- The kernel counts the pages that the bootloader maps.
pub num_pages-physical_size :
    (d : MemoryDescriptor) (ds : List MemoryDescriptor)
    → num_pages (segment_of d) (memory_map ds)
      ≡ page_of (physical_size 0 (map descriptor_of (d ∷ ds)))
num_pages-physical_size d ds =
    let end = end_of (segment_of d) in
    let first : end ≡ (if ltb 0 end then end else 0) = ground arith in
    ap page_of
      (max_from-physical_size end ds ∙ ap (λ size. physical_size size (map descriptor_of ds)) first)

-- For memory of a whole number of MB that is the size of the bitmap, too.
pub whole_pages :
    (top pages : ℕ)
    → pages ≡ top / 4096
    → top < 2 ^ 47
    → top % 2 ^ 20 ≡ 0
    → 64 * num_entries pages ≡ top / 4096
whole_pages top pages same small whole = omega arith

-- The base that the bootloader chooses serves the kernel's storage, for all of memory.
pub high_mem_base-IsHighBase :
    (top j base : ℕ)
    → top < 2 ^ 47
    → j ≤ 8
    → pml4_entries top ≡ 2 ^ j
    → base ≡ high_mem_base (pml4_entries top)
    → IsHighBase base (top / 4096)
high_mem_base-IsHighBase top j base small le power e =
    let sum = base-sum (pml4_entries top) (omega arith) (omega arith) in
    record {
      pages_fit = omega arith;
      base_fits = omega (arith, e, sum);
      base_ne = λ z. omega (arith, e, sum, z);
      apart = λ phys lt.
          ap (λ b. bit_and phys b) e
          ∙ (ptr_to_kernelspace-add top j phys small le power (omega arith)).0;
    }
