-- ===== src/Boot/Main/Handover.antt =====
-- The page table and the image that the kernel finds in memory.
use simple_os_rs.Common.{
  ℕ, ◌+◌, ◌*◌, ◌/◌, ◌%◌, ◌^◌, ◌<◌, ◌≤◌, ◌≡◌, ◌⊎◌, inl, inr, refl, sym, ap, ◌∙◌, subst, none, List,
  ◌∷◌, arith,
}
use simple_os_rs.Virt.Arch
use simple_os_rs.Boot.Elf.Bytes.{Memory}
use simple_os_rs.Boot.Paging.{
  Buffer, Paging, PagingInfo, high_mem_base, pml4_entries, pdp_entries, pd_entries, pages_for,
}
use simple_os_rs.Boot.Paging.Mapping.{alloc_pages}
use simple_os_rs.Boot.Paging.Mirror.{ptr_to_kernelspace-add}
use simple_os_rs.Boot.Paging.Handover.{MapsHigh, Filled-MapsHigh}
use simple_os_rs.Boot.Allocator.{pages_of}
use simple_os_rs.Boot.Main.{words_at}
use simple_os_rs.Boot.Main.Working.{Kept}
use simple_os_rs.Boot.Main.Words.{words_at-Kept, Filled-same}
use simple_os_rs.Boot.Main.Tables.{TableFilled, info_of}

-- A filled table stays one while its block stays.
pub TableFilled-Kept :
    (top ptr : ℕ) (bs : List (ℕ × ℕ)) (mem mem' : Memory)
    → top < 2 ^ 47
    → ptr + alloc_pages top * 4096 ≤ top
    → Kept ((ptr, alloc_pages top) ∷ bs) mem mem'
    → TableFilled top ptr (words_at mem ptr)
    → TableFilled top ptr (words_at mem' ptr)
TableFilled-Kept top ptr bs mem mem' small below kept filled =
    let one : pages_for (pml4_entries top) ≡ 1 = omega arith in
    Filled-same (ptr / 4096) (pml4_entries top) (pages_for (pdp_entries top)) (pdp_entries top)
      (pd_entries top) (alloc_pages top * 512) (words_at mem ptr) (words_at mem' ptr) (omega arith)
      (omega arith) (omega (arith, one)) (omega arith)
      (λ i lt word. words_at-Kept bs ptr (alloc_pages top) i mem mem' kept lt) filled

-- After the kernel's `init` such a table maps memory to the mirror, and nothing else.
pub TableFilled-MapsHigh :
    (top ptr j base : ℕ) (info : PagingInfo) (table : Buffer)
    → top < 2 ^ 47
    → j ≤ 8
    → pml4_entries top ≡ 2 ^ j
    → ptr % 4096 ≡ 0
    → ptr + alloc_pages top * 4096 ≤ top
    → base ≡ high_mem_base (pml4_entries top)
    → info ≡ info_of top ptr
    → TableFilled top ptr table
    → (phys : ℕ) → phys ≤ top
    → MapsHigh (Arch.init base info table) base phys
TableFilled-MapsHigh top ptr j base info table small le power aligned below eb ei filled phys
      in_top =
    let hb = high_mem_base (pml4_entries top) in
    let at : ptr / 4096 * 2 ^ 12 ≡ ptr = omega arith in
    let apart =
      (ptr_to_kernelspace-add top j (ptr / 4096 * 2 ^ 12) small le power (omega arith)).0 in
    let found =
      Filled-MapsHigh (λ n. none) top (ptr / 4096) table small (omega arith) filled apart phys
        in_top in
    let here = subst (λ x. MapsHigh (Arch.init hb (info_of top x) table) hb phys) at found in
    let based = subst (λ x. MapsHigh (Arch.init x (info_of top ptr) table) x phys) (sym eb) here in
    subst (λ i. MapsHigh (Arch.init base i table) base phys) (sym ei) based

-- The calls from the page table on.
pub table_through :
    (bs : List (ℕ × ℕ)) (b : ℕ × ℕ) (m m₁ m₂ m₃ m₄ : Memory)
    → Kept bs m m₁
    → Kept bs m₁ m₂
    → Kept bs m₂ m₃
    → Kept (b ∷ bs) m₃ m₄
    → Kept bs m m₄
table_through bs b m m₁ m₂ m₃ m₄ k₁ k₂ k₃ k₄ q l a owned lo hi =
    k₄ q l a (inr owned) lo hi ∙ k₃ q l a owned lo hi ∙ k₂ q l a owned lo hi ∙ k₁ q l a owned lo hi

-- No address of the first block is one of the second.
abbrev pub Off : ℕ → ℕ → ℕ → ℕ → Type 0
Off q l ptr n = (a : ℕ) → q ≤ a → a < q + l * 4096 → (a < ptr) ⊎ (ptr + n * 4096 ≤ a)

pub Off-at : (q l ptr cr3 n : ℕ) → cr3 ≡ ptr → Off q l ptr n → Off q l cr3 n
Off-at q l ptr cr3 n e off = subst (λ x. Off q l x n) (sym e) off

-- The information on the table that the kernel is given.
pub info_at :
    (top ptr : ℕ) (paging : Paging)
    → paging.paging_info ≡ info_of top ptr
    → paging.cr3 ≡ ptr
    → paging.paging_info ≡ info_of top paging.cr3
info_at top ptr paging info cr3 = info ∙ ap (λ x. info_of top x) (sym cr3)

-- The table stands at the address in `cr3`.
pub table_stands :
    (bs : List (ℕ × ℕ)) (top ptr cr3 : ℕ) (mem mem' : Memory)
    → top < 2 ^ 47
    → ptr + alloc_pages top * 4096 ≤ top
    → cr3 ≡ ptr
    → Kept ((ptr, alloc_pages top) ∷ bs) mem mem'
    → TableFilled top ptr (words_at mem ptr)
    → TableFilled top cr3 (words_at mem' cr3)
table_stands bs top ptr cr3 mem mem' small below e kept filled =
    subst (λ x. TableFilled top x (words_at mem' x)) (sym e)
      (TableFilled-Kept top ptr bs mem mem' small below kept filled)

-- The image that the kernel finds: the one that was loaded.
pub image_stands :
    (bs : List (ℕ × ℕ)) (low base size : ℕ) (loaded : Memory) (m m' : Memory)
    → size + 4095 < 2 ^ 64
    → Kept ((low, pages_of size) ∷ bs) m m'
    → ((a : ℕ) → low ≤ a → a < low + size → m a ≡ loaded (base + a))
    → (a : ℕ) → low ≤ a
    → a < low + size
    → m' a ≡ loaded (base + a)
image_stands bs low base size loaded m m' small kept placed a lo hi =
    kept low (pages_of size) a (inl (refl, refl)) lo (omega arith) ∙ placed a lo hi

-- The table that the kernel finds, at the end of these.
pub table_found :
    (bs : List (ℕ × ℕ)) (top ptr j : ℕ) (paging : Paging) (m m' : Memory)
    → top < 2 ^ 47
    → j ≤ 8
    → pml4_entries top ≡ 2 ^ j
    → ptr % 4096 ≡ 0
    → ptr + alloc_pages top * 4096 ≤ top
    → paging.base ≡ high_mem_base (pml4_entries top)
    → paging.paging_info ≡ info_of top ptr
    → paging.cr3 ≡ ptr
    → Kept ((ptr, alloc_pages top) ∷ bs) m m'
    → TableFilled top ptr (words_at m ptr)
    → (phys : ℕ) → phys ≤ top
    → MapsHigh (Arch.init paging.base paging.paging_info (words_at m' paging.cr3)) paging.base phys
table_found bs top ptr j paging m m' small le power aligned below eb ei cr3 kept filled phys
      in_top =
    subst
      (λ x. MapsHigh (Arch.init paging.base paging.paging_info (words_at m' x)) paging.base phys)
      (sym cr3)
      (TableFilled-MapsHigh top ptr j paging.base paging.paging_info (words_at m' ptr) small le
        power aligned below eb ei (TableFilled-Kept top ptr bs m m' small below kept filled) phys
        in_top)
