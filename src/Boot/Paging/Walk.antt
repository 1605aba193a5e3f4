-- ===== src/Boot/Paging/Walk.antt =====
-- The processor's translation of an address through four levels of tables, as the AMD64 manual
-- (volume 2, chapter 5) describes it, for pages of 2 MB. The table is read as words from `cr3` on.
use simple_os_rs.Common.{
  ℕ, ◌+◌, ◌-◌, ◌*◌, ◌/◌, ◌%◌, ◌^◌, ◌&&◌, ◌==◌, if◌then◌else◌, Option, none, some,
}
use simple_os_rs.Boot.Paging.{Buffer}

-- Bits 12 to 51: the address of the next table.
abbrev pub table_of : ℕ → ℕ
table_of e = e / 2 ^ 12 % 2 ^ 40 * 2 ^ 12

-- Bits 21 to 51: the address of a page of 2 MB.
abbrev pub large_page_of : ℕ → ℕ
large_page_of e = e / 2 ^ 21 % 2 ^ 31 * 2 ^ 21

-- Entry `i` of the table at `address`.
abbrev pub entry_at : ℕ → Buffer → ℕ → ℕ → ℕ
entry_at cr3 buffer address i = buffer ((address + i * 8 - cr3) / 8)

unfoldable pub translate : ℕ → Buffer → ℕ → Option ℕ
translate cr3 buffer virt =
    let pml4e = entry_at cr3 buffer cr3 (virt / 2 ^ 39 % 512) in
    let pdpe = entry_at cr3 buffer (table_of pml4e) (virt / 2 ^ 30 % 512) in
    let pde = entry_at cr3 buffer (table_of pdpe) (virt / 2 ^ 21 % 512) in
    if (pml4e % 2 == 1)
      && ((pdpe % 2 == 1) && (pdpe / 128 % 2 == 0))
      && ((pde % 2 == 1) && (pde / 128 % 2 == 1))
    then some (large_page_of pde + virt % 2 ^ 21)
    else none
