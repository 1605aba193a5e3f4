-- ===== src/Phys/FreeList.antt =====
-- The free lists: doubly linked lists of `FreeEntry` structures in memory.
pub mod Chain
use simple_os_rs.Common.{update, ℕ, ◌==◌, if◌then◌else◌}
use simple_os_rs.Phys.Storage.{Ptr, null}

pub record FreeEntry : Type 0 where
  pub order : ℕ
  pub next : Ptr
  pub prev : Ptr

-- Memory, as far as it is read as free entries.
abbrev pub Mem : Type 0
Mem = Ptr → FreeEntry

abbrev pub set_next : Mem → Ptr → Ptr → Mem
set_next mem p q = update mem p (record (mem p) { next = q })

abbrev pub set_prev : Mem → Ptr → Ptr → Mem
set_prev mem p q = update mem p (record (mem p) { prev = q })

abbrev pub new_entry : ℕ → FreeEntry
new_entry order = record { order = order; next = null; prev = null }

-- Memory and the head of the list, after a call.
pub record Lists : Type 0 where
  pub mem : Mem
  pub head : Ptr

unfoldable pub remove_buddy_list_entry : Mem → Ptr → Ptr → Lists
remove_buddy_list_entry mem head entry =
    let first = (mem entry).prev == null in
    let head' = if first then (mem entry).next else head in
    let mem₁ = if first then mem else set_next mem (mem entry).prev (mem entry).next in
    let mem₂ =
      if (mem₁ entry).next == null
      then mem₁
      else set_prev mem₁ (mem₁ entry).next (mem₁ entry).prev in
    record { mem = mem₂; head = head' }

unfoldable pub push_buddy_list_entry : Mem → Ptr → Ptr → Lists
push_buddy_list_entry mem head entry =
    let mem' = if head == null then mem else set_prev (set_next mem entry head) head entry in
    record { mem = mem'; head = entry }

-- The popped entry comes with the rest; it is null where the list is empty.
unfoldable pub pop_buddy_list_entry : Mem → Ptr → Lists × Ptr
pop_buddy_list_entry mem head =
    let head' = (mem head).next in
    if head == null then (record { mem = mem; head = head }, null) else (
      record { mem = if head' == null then mem else set_prev mem head' null; head = head' },
      head,
    )
