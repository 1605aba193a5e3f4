-- ===== src/Boot/Paging/Mapping.antt =====
-- The filled table maps physical memory in both halves.
use simple_os_rs.Common.{
  ℕ, ◌+◌, ◌-◌, ◌*◌, ◌/◌, ◌%◌, ◌^◌, ◌<◌, ◌≤◌, ◌≡◌, refl, ap, ◌∙◌, arith, bit_and, Option, some,
}
use simple_os_rs.Common.Outcome.{ok}
use simple_os_rs.Common.Loops.{for_range}
use simple_os_rs.Common.Bits.Disjoint.{bit_and-ones, bit_or-multiple}
use simple_os_rs.Boot.Paging.{
  Buffer, assert, pml4_entries, pdp_entries, pd_entries, pages_for, high_mem_base,
  ptr_to_kernelspace, Paging, init, fill_pml4, fill_pdp, fill_pd,
}
use simple_os_rs.Boot.Paging.Walk.{table_of, large_page_of, translate}
use simple_os_rs.Boot.Paging.Laws.{
  PdpFilled, PdFilled, Filled, loops-Filled, pml4_word, pdp_word, pd_word,
}

-- The three entries that an address goes through are those of its physical address.
module _ (q n pdp_pages np nd : ℕ) (buffer : Buffer) (middle : PdpFilled q pdp_pages np buffer)
    (bottom : PdFilled pdp_pages nd buffer) where
  pub walk :
      (virt phys : ℕ)
      → np + pdp_pages + q < 2 ^ 40
      → n + q < 2 ^ 40
      → nd ≤ 2 ^ 31
      → phys / 2 ^ 30 < np
      → phys / 2 ^ 21 < nd
      → virt % 2 ^ 39 ≡ phys % 2 ^ 39
      → phys / 2 ^ 39 < n
      → buffer (virt / 2 ^ 39 % 512) ≡ pml4_word q (phys / 2 ^ 39)
      → translate (q * 2 ^ 12) buffer virt ≡ some phys
  unfolding translate
  walk virt phys small small' hd in_np in_nd low in_n first =
      let j₄ = phys / 2 ^ 39 in
      let j₃ = phys / 2 ^ 30 in
      let j₂ = phys / 2 ^ 21 in
      let i₄ : (q * 2 ^ 12 + virt / 2 ^ 39 % 512 * 8 - q * 2 ^ 12) / 8 ≡ virt / 2 ^ 39 % 512 =
        omega arith in
      let t₄ : table_of (pml4_word q j₄) ≡ (j₄ + 1 + q) * 2 ^ 12 = omega arith in
      let i₃ : ((j₄ + 1 + q) * 2 ^ 12 + virt / 2 ^ 30 % 512 * 8 - q * 2 ^ 12) / 8 ≡ 512 + j₃ =
        omega arith in
      let second : buffer (512 + j₃) ≡ pdp_word q pdp_pages j₃ = middle j₃ in_np in
      let t₃ : table_of (pdp_word q pdp_pages j₃) ≡ (j₃ + 1 + pdp_pages + q) * 2 ^ 12 =
        omega arith in
      let i₂ : ((j₃ + 1 + pdp_pages + q) * 2 ^ 12 + virt / 2 ^ 21 % 512 * 8 - q * 2 ^ 12) / 8
          ≡ 512 + pdp_pages * 512 + j₂ =
        omega arith in
      let third : buffer (512 + pdp_pages * 512 + j₂) ≡ pd_word j₂ = bottom j₂ in_nd in
      let p₄ : pml4_word q j₄ % 2 ≡ 1 = omega arith in
      let p₃ : pdp_word q pdp_pages j₃ % 2 ≡ 1 = omega arith in
      let s₃ : pdp_word q pdp_pages j₃ / 128 % 2 ≡ 0 = omega arith in
      let p₂ : pd_word j₂ % 2 ≡ 1 = omega arith in
      let s₂ : pd_word j₂ / 128 % 2 ≡ 1 = omega arith in
      let page : large_page_of (pd_word j₂) + virt % 2 ^ 21 ≡ phys = omega arith in
      rw (i₄, first, t₄, i₃, second, t₃, i₂, third, p₄, p₃, s₃, p₂, s₂, page)

-- The pages that `init` asks the firmware for.
abbrev pub alloc_pages : ℕ → ℕ
alloc_pages size =
    pages_for (pml4_entries size) + pages_for (pdp_entries size) + pages_for (pd_entries size)

pub base-sum : (n : ℕ) → 1 ≤ n → n ≤ 256 → high_mem_base n ≡ (65535 * 512 + (512 - n)) * 2 ^ 39
base-sum n pos le =
    bit_or-multiple 48 65535 ((512 - n) * 2 ^ 39) (omega arith) (omega arith) (omega arith)
    ∙ omega arith

-- The processor finds the physical address at the same virtual address and at its mirror in the
-- higher half.
pub record Maps (paging : Paging) (phys : ℕ) : Type 0 where
  pub identity : translate paging.cr3 paging.table phys ≡ some phys
  pub mirror : translate paging.cr3 paging.table (paging.base + phys) ≡ some phys

abbrev pub filled_paging : ℕ → ℕ → ℕ → ℕ → Buffer → Paging
filled_paging size ptr pdp_pages pd_pages buffer = record {
  table = buffer;
  cr3 = ptr;
  base = high_mem_base (pml4_entries size);
  paging_info = record {
    page_buffer = ptr_to_kernelspace (high_mem_base (pml4_entries size)) ptr;
    pdp_pages = pdp_pages;
    pd_pages = pd_pages;
    pml4_entries = pml4_entries size;
  };
}

module _ (allocate_pages : ℕ → Option (ℕ × Buffer)) where
  -- What `init` returns, from the runs of its loops.
  init_run :
      (size ptr np nd pdp_pages pd_pages : ℕ) (buffer b₁ b₂ b₃ : Buffer)
      → bit_and size 0x0000_7FFF_FFFF_FFFF ≡ size
      → pages_for (pml4_entries size) ≡ 1
      → pdp_entries size ≡ np
      → pd_entries size ≡ nd
      → pages_for np ≡ pdp_pages
      → pages_for nd ≡ pd_pages
      → allocate_pages (1 + pdp_pages + pd_pages) ≡ some (ptr, buffer)
      → for_range
          (pml4_entries size)
          0
          (fill_pml4 ptr ((1 + pdp_pages + pd_pages) * 4096) (pml4_entries size) 1)
          buffer
        ≡ ok b₁
      → for_range np 0 (fill_pdp ptr ((1 + pdp_pages + pd_pages) * 4096) 1 pdp_pages) b₁ ≡ ok b₂
      → for_range nd 0 (fill_pd ((1 + pdp_pages + pd_pages) * 4096) 1 pdp_pages) b₂ ≡ ok b₃
      → init allocate_pages size ≡ ok (filled_paging size ptr pdp_pages pd_pages b₃)
  unfolding init assert
  init_run size ptr np nd pdp_pages pd_pages buffer b₁ b₂ b₃ masked one enp end pp pd given e₁ e₂
        e₃ =
      rw (masked, one, enp, end, pp, pd, given, e₁, e₂, e₃)

  -- `init` returns for a size below 2^47, and fills the levels.
  pub init-Filled :
      (size ptr : ℕ) (buffer : Buffer)
      → size < 2 ^ 47
      → allocate_pages (alloc_pages size) ≡ some (ptr, buffer)
      → ptr % 4096 ≡ 0
      → ptr + alloc_pages size * 4096 ≤ 2 ^ 52
      → let q = ptr / 4096 in
        let np = pdp_entries size in
        let nd = pd_entries size in
        (b : Buffer) × (init allocate_pages size
          ≡ ok (filled_paging size (q * 2 ^ 12) (pages_for np) (pages_for nd) b))
        × Filled q (pml4_entries size) (pages_for np) np nd b
  unfolding init assert
  init-Filled size ptr buffer small given aligned fits =
      let q = ptr / 4096 in
      let n = pml4_entries size in
      let np = pdp_entries size in
      let nd = pd_entries size in
      let pdp_pages = pages_for np in
      let masked : bit_and size 0x0000_7FFF_FFFF_FFFF ≡ size = bit_and-ones 47 size small in
      let one : pages_for n ≡ 1 = omega arith in
      let at : ptr ≡ q * 2 ^ 12 = omega arith in
      let pages : 1 + pdp_pages + pages_for nd ≡ alloc_pages size = omega (arith, one) in
      let given' : allocate_pages (1 + pdp_pages + pages_for nd) ≡ some (q * 2 ^ 12, buffer) =
        ap allocate_pages pages ∙ given ∙ ap (λ (p : ℕ). some (p, buffer)) at in
      let len = (1 + pdp_pages + pages_for nd) * 4096 in
      let (b₁, b₂, b₃, e₁, e₂, e₃, filled) =
        loops-Filled q n pdp_pages np nd len buffer (omega arith) (omega arith) (omega arith)
          (omega arith) (omega arith) (omega arith) in
      (
        b₃,
        init_run size (q * 2 ^ 12) np nd pdp_pages (pages_for nd) buffer b₁ b₂ b₃ masked one refl
            refl refl refl given' e₁ e₂ e₃,
        filled,
      )

  -- What it leaves maps each address up to the size.
  pub init-Maps :
      (size ptr : ℕ) (buffer : Buffer)
      → size < 2 ^ 47
      → allocate_pages (alloc_pages size) ≡ some (ptr, buffer)
      → ptr % 4096 ≡ 0
      → ptr + alloc_pages size * 4096 ≤ 2 ^ 52
      → (paging : Paging) × (init allocate_pages size ≡ ok paging)
        × ((phys : ℕ) → phys ≤ size → Maps paging phys)
  init-Maps size ptr buffer small given aligned fits =
      let q = ptr / 4096 in
      let n = pml4_entries size in
      let np = pdp_entries size in
      let nd = pd_entries size in
      let (b, done, filled) = init-Filled size ptr buffer small given aligned fits in
      (
        filled_paging size (q * 2 ^ 12) (pages_for np) (pages_for nd) b,
        done,
        λ phys le.
            let sum = base-sum n (omega arith) (omega arith) in
            let high : (high_mem_base n + phys) / 2 ^ 39 % 512 ≡ 512 - n + phys / 2 ^ 39 =
              omega (arith, sum) in
            let low : phys / 2 ^ 39 % 512 ≡ phys / 2 ^ 39 = omega arith in
            let entry = filled.top (phys / 2 ^ 39) (omega arith) in
            let walk_to = walk q n (pages_for np) np nd b filled.middle filled.bottom in
            record {
              identity =
                  walk_to phys phys (omega arith) (omega arith) (omega arith) (omega arith)
                    (omega arith) refl (omega arith) (rw low entry.0);
              mirror =
                  walk_to (high_mem_base n + phys) phys (omega arith) (omega arith) (omega arith)
                    (omega arith) (omega arith) (omega (arith, sum)) (omega arith)
                    (rw high entry.1);
            },
      )
