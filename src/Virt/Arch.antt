-- ===== src/Virt/Arch.antt =====
-- kernel/src/arch/x86_64/virt_manager.rs: the kernel leaves the lower half.
use simple_os_rs.Common.{
  update, ℕ, zero, suc, ◌+◌, ◌<◌, ◌≤◌, ◌≡◌, ◌⊎◌, inl, inr, refl, ◌∙◌, ◌==◌, false, true, arith,
  ℕ_discrete,
}
use simple_os_rs.Virt.{virt_to_phys}
use simple_os_rs.Boot.Paging.{Buffer, PagingInfo}

-- The loop over the entries, from entry `i` on.
unfoldable pub clear_from : ℕ → ℕ → Buffer → Buffer
clear_from zero i pml4 = pml4
clear_from (suc left) i pml4 = clear_from left (suc i) (update pml4 i 0)

-- The table after, and what `cr3` is loaded with.
pub record Active : Type 0 where
  pub table : Buffer
  pub cr3 : ℕ

-- `init`, with the words that `page_buffer` points to.
unfoldable pub init : ℕ → PagingInfo → Buffer → Active
unfolding virt_to_phys clear_from
init high_mem_base paging_info pml4 = record {
  table = clear_from paging_info.pml4_entries 0 pml4;
  cr3 = virt_to_phys high_mem_base paging_info.page_buffer;
}

pub clear_from-off :
    (left i : ℕ) (pml4 : Buffer) (j : ℕ)
    → (j < i) ⊎ (i + left ≤ j)
    → clear_from left i pml4 j ≡ pml4 j
unfolding clear_from
clear_from-off zero i pml4 j h = refl
clear_from-off (suc left) i pml4 j h =
    let other : (i == j) ≡ false = ground arith in
    clear_from-off left (suc i) (update pml4 i 0) j
      (elim h [ inl before ↦ inl (omega arith) | inr behind ↦ inr (omega arith) ])
    ∙ rw other

pub clear_from-cleared :
    (left i : ℕ) (pml4 : Buffer) (j : ℕ) → i ≤ j → j < i + left → clear_from left i pml4 j ≡ 0
unfolding clear_from
clear_from-cleared zero i pml4 j le lt = absurd (omega arith)
clear_from-cleared (suc left) i pml4 j le lt = elim (ℕ_discrete i j) [
  | yes e ↦
      let same : (i == j) ≡ true = ground arith in
      clear_from-off left (suc i) (update pml4 i 0) j (inl (omega arith)) ∙ rw same
  | no ne ↦ clear_from-cleared left (suc i) (update pml4 i 0) j (omega arith) (omega arith)
]
