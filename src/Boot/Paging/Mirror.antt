-- ===== src/Boot/Paging/Mirror.antt =====
-- The pointers that the bootloader hands to the kernel, and the memory map that the table is for.
use simple_os_rs.Common.{
  ℕ, zero, suc, ◌+◌, ◌-◌, ◌*◌, ◌%◌, ◌^◌, ◌<◌, ◌≤◌, ◌≡◌, ◌⊎◌, inl, inr, refl, sym, ap, ◌∙◌, arith,
  bit_and, Option, some, List, [], ◌∷◌, ltb, if◌then◌else◌,
}
use simple_os_rs.Common.Outcome.{ok}
use simple_os_rs.Common.Bits.Disjoint.{
  bit_or-add-bit_and, multiple_apart, bit_or-mul-two-pow, one-bit_or, zero-bit_or,
}
use simple_os_rs.Boot.Paging.{
  Buffer, pml4_entries, high_mem_base, ptr_to_kernelspace, Paging, Descriptor, physical_size,
  init_from_map,
}
use simple_os_rs.Boot.Paging.Mapping.{alloc_pages, base-sum, Maps, init-Maps}

-- Address `a` lies in a segment of the map.
abbrev pub InMap : List Descriptor → ℕ → Type 0
InMap [] a = ⊥
InMap (e ∷ es) a = ((e.phys_start ≤ a) × (a < e.phys_start + e.page_count * 4096)) ⊎ InMap es a

-- No segment runs past the end of the 64-bit addresses.
abbrev pub NoWrap : List Descriptor → Type 0
NoWrap [] = Unit
NoWrap (e ∷ es) = (e.phys_start + e.page_count * 4096 < 2 ^ 64) × NoWrap es

physical_size-le : (size : ℕ) (es : List Descriptor) → size ≤ physical_size size es
physical_size-le size [] = omega arith
physical_size-le size (e ∷ es) =
    let end = (e.phys_start + e.page_count * 4096) % 2 ^ 64 in
    ground (arith, physical_size-le (if ltb size end then end else size) es)

pub InMap-le :
    (size a : ℕ) (es : List Descriptor) → NoWrap es → InMap es a → a ≤ physical_size size es
InMap-le size a [] w h = absurd h
InMap-le size a (e ∷ es) w h =
    let end = (e.phys_start + e.page_count * 4096) % 2 ^ 64 in
    let next = if ltb size end then end else size in
    elim h [
      | inl here ↦
          let large : end ≤ next = ground arith in
          omega (arith, w.0, here.1, large, physical_size-le next es)
      | inr later ↦ InMap-le next a es w.1 later
    ]

-- For a memory map of segments that do not wrap and end below 2^47, and page-aligned pages of the
-- firmware below 2^52, `init` returns, and the processor's walk through the table finds each
-- address of the map at itself and at the base plus itself.
pub init_from_map-Maps :
    (allocate_pages : ℕ → Option (ℕ × Buffer)) (mmap : List Descriptor) (ptr : ℕ) (buffer : Buffer)
    → NoWrap mmap
    → physical_size 0 mmap < 2 ^ 47
    → allocate_pages (alloc_pages (physical_size 0 mmap)) ≡ some (ptr, buffer)
    → ptr % 4096 ≡ 0
    → ptr + alloc_pages (physical_size 0 mmap) * 4096 ≤ 2 ^ 52
    → (paging : Paging) × (init_from_map allocate_pages mmap ≡ ok paging)
      × ((a : ℕ) → InMap mmap a → Maps paging a)
unfolding init_from_map
init_from_map-Maps allocate_pages mmap ptr buffer wrap small given aligned fits =
    let (paging, done, maps) =
      init-Maps allocate_pages (physical_size 0 mmap) ptr buffer small given aligned fits in
    (paging, done, λ a h. maps a (InMap-le 0 a mmap wrap h))

-- For a power of two the base is a multiple of the size that the entries map.
power_base : (k : ℕ) → k ≤ 8 → (q : ℕ) × (high_mem_base (2 ^ k) ≡ q * 2 ^ (39 + k))
power_base zero h = (33554431, refl)
power_base (suc zero) h = (16777215, refl)
power_base (suc (suc zero)) h = (8388607, refl)
power_base (suc (suc (suc zero))) h = (4194303, refl)
power_base (suc (suc (suc (suc zero)))) h = (2097151, refl)
power_base (suc (suc (suc (suc (suc zero))))) h = (1048575, refl)
power_base (suc (suc (suc (suc (suc (suc zero)))))) h = (524287, refl)
power_base (suc (suc (suc (suc (suc (suc (suc zero))))))) h = (262143, refl)
power_base (suc (suc (suc (suc (suc (suc (suc (suc zero)))))))) h = (131071, refl)
power_base (suc (suc (suc (suc (suc (suc (suc (suc (suc k))))))))) h = absurd (omega arith)

reach : (k : ℕ) → k ≤ 8 → 2 ^ k * 2 ^ 39 ≡ 2 ^ (39 + k)
reach zero h = refl
reach (suc zero) h = refl
reach (suc (suc zero)) h = refl
reach (suc (suc (suc zero))) h = refl
reach (suc (suc (suc (suc zero)))) h = refl
reach (suc (suc (suc (suc (suc zero))))) h = refl
reach (suc (suc (suc (suc (suc (suc zero)))))) h = refl
reach (suc (suc (suc (suc (suc (suc (suc zero))))))) h = refl
reach (suc (suc (suc (suc (suc (suc (suc (suc zero)))))))) h = refl
reach (suc (suc (suc (suc (suc (suc (suc (suc (suc k))))))))) h = absurd (omega arith)

-- For a physical size below 2^47 whose number of PML4 entries is a power of two, addresses up to
-- that size share no bit with the base, and `ptr_to_kernelspace` gives their sum with it.
pub ptr_to_kernelspace-add :
    (size k phys : ℕ)
    → size < 2 ^ 47
    → k ≤ 8
    → pml4_entries size ≡ 2 ^ k
    → phys ≤ size
    → (bit_and phys (high_mem_base (pml4_entries size)) ≡ 0)
      × (ptr_to_kernelspace (high_mem_base (pml4_entries size)) phys
          ≡ high_mem_base (pml4_entries size) + phys)
unfolding ptr_to_kernelspace
ptr_to_kernelspace-add size k phys small hk power le =
    let n = pml4_entries size in
    let (q, e) = power_base k hk in
    let multiple : high_mem_base n ≡ q * 2 ^ (39 + k) = ap high_mem_base power ∙ e in
    let below : phys < 2 ^ (39 + k) = omega (arith, reach k hk) in
    let apart : bit_and phys (high_mem_base n) ≡ 0 =
      ap (bit_and phys) multiple ∙ multiple_apart (39 + k) q phys below in
    let sum = base-sum n (omega arith) (omega arith) in
    (
      apart,
      omega (
        arith,
        apart,
        bit_or-add-bit_and 64 phys (high_mem_base n) (omega arith) (omega (arith, sum)),
      ),
    )

-- For a physical size below 2^47 with an odd number of at least three PML4 entries,
-- `ptr_to_kernelspace` gives the addresses 2^39 and 0 the same pointer.
pub ptr_to_kernelspace-clash :
    (size : ℕ)
    → size < 2 ^ 47
    → 3 ≤ pml4_entries size
    → pml4_entries size % 2 ≡ 1
    → ptr_to_kernelspace (high_mem_base (pml4_entries size)) (2 ^ 39)
      ≡ ptr_to_kernelspace (high_mem_base (pml4_entries size)) 0
unfolding ptr_to_kernelspace
ptr_to_kernelspace-clash size small several odd =
    let n = pml4_entries size in
    let b = 65535 * 512 + (512 - n) in
    let sum : high_mem_base n ≡ b * 2 ^ 39 = base-sum n (omega arith) (omega arith) in
    rw sum (
      bit_or-mul-two-pow 39 1 b
      ∙ ap (λ (x : ℕ). x * 2 ^ 39) (one-bit_or b (omega arith))
      ∙ sym (zero-bit_or (b * 2 ^ 39)))
