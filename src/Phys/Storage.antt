-- ===== src/Phys/Storage.antt =====
-- Where the manager keeps its `FreeEntry` structures: the trait `PhysManagerStorage` of
-- kernel/src/memory/phys_manager.rs, as far as it maps page indices to pointers and back.
use simple_os_rs.Common.{ℕ, ◌^◌, ◌≤◌, ◌<◌, ◌≡◌, ◌≢◌}

abbrev pub Ptr : Type 0
Ptr = ℕ

abbrev pub null : Ptr
null = 0

-- `limit` bounds the page indices that a backend serves; each has an address of 64 bits.
pub record PhysManagerStorage : Type 0 where
  pub get_entry : ℕ → Ptr
  pub get_index : Ptr → ℕ
  pub limit : ℕ
  pub limit_fits : limit ≤ 2 ^ 52
  pub get_index-get_entry : (i : ℕ) → i < limit → get_index (get_entry i) ≡ i
  pub get_entry_ne : (i : ℕ) → i < limit → get_entry i ≢ null
