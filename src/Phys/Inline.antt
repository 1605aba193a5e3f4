-- ===== src/Phys/Inline.antt =====
-- `InlineStorage` of kernel/src/memory/phys_manager.rs: each entry lies in the page that it
-- describes, mapped to the higher half.
use simple_os_rs.Common.{ℕ, zero, ◌*◌, ◌/◌, ◌%◌, ◌^◌, ◌<◌, ◌≤◌, ◌≡◌, ◌≢◌, bit_and, arith}
use simple_os_rs.Virt.{phys_to_virt, virt_to_phys}
use simple_os_rs.Virt.Laws.{virt_to_phys-phys_to_virt, phys_to_virt-add}
use simple_os_rs.Phys.Storage.{PhysManagerStorage}

-- The base is not null and shares no bit with the addresses of the first `limit` pages.
pub record IsHighBase (base limit : ℕ) : Type 0 where
  pub pages_fit : limit ≤ 2 ^ 52
  pub base_fits : base < 2 ^ 64
  pub base_ne : base ≢ zero
  pub apart : (phys : ℕ) → phys < limit * 4096 → bit_and phys base ≡ 0

unfoldable pub get_entry : ℕ → ℕ → ℕ
unfolding phys_to_virt
get_entry base index = phys_to_virt base (index * 4096 % 2 ^ 64)

unfoldable pub get_index : ℕ → ℕ → ℕ
unfolding virt_to_phys
get_index base entry = virt_to_phys base entry / 4096

module _ (base limit : ℕ) (h : IsHighBase base limit) where
  pub get_index-get_entry : (i : ℕ) → i < limit → get_index base (get_entry base i) ≡ i
  unfolding get_index get_entry
  get_index-get_entry i lt =
      let small : i * 4096 % 2 ^ 64 ≡ i * 4096 = omega (arith, h.pages_fit) in
      let back : virt_to_phys base (phys_to_virt base (i * 4096)) ≡ i * 4096 =
        virt_to_phys-phys_to_virt base (i * 4096) h.base_fits (omega (arith, h.pages_fit))
          (h.apart (i * 4096) (omega arith)) in
      rw (small, back) (omega arith)

  pub get_entry_ne : (i : ℕ) → i < limit → get_entry base i ≢ zero
  unfolding get_entry
  get_entry_ne i lt e =
      let small : i * 4096 % 2 ^ 64 ≡ i * 4096 = omega (arith, h.pages_fit) in
      let sum =
        phys_to_virt-add base (i * 4096) h.base_fits (omega (arith, h.pages_fit))
          (h.apart (i * 4096) (omega arith)) in
      let null : phys_to_virt base (i * 4096) ≡ zero = rw (← small) e in
      h.base_ne (omega (arith, sum, null))

  -- The backend that the kernel uses meets what the manager asks of one.
  abbrev pub inline_storage : PhysManagerStorage
  inline_storage = record {
    get_entry = get_entry base;
    get_index = get_index base;
    limit = limit;
    limit_fits = h.pages_fit;
    get_index-get_entry = get_index-get_entry;
    get_entry_ne = get_entry_ne;
  }
