-- ===== src/Phys/Tests.antt =====
-- Runs of the physical memory manager on concrete managers, among them those of the unit tests in
-- kernel/src/memory/phys_manager.rs.
pub mod Examples
pub mod Construction
use simple_os_rs.Common.{
  ℕ, ◌+◌, ◌-◌, ◌*◌, ◌/◌, ◌%◌, ◌^◌, ◌≡◌, refl, arith, List, [], ◌∷◌, bit_and, ◌⊎◌, inr, subst, false,
  true,
}
use simple_os_rs.Common.Bits.{bit-zero}
use simple_os_rs.Common.Outcome.{Outcome, ok, panic, out_of_fuel}
use simple_os_rs.Phys.Storage.{null, PhysManagerStorage}
use simple_os_rs.Phys.Order.{get_size_order, bit_length, leading_zeros, low_zeros, trailing_zeros}
use simple_os_rs.Phys.FreeList.{new_entry}
use simple_os_rs.Phys.Buddy.{Manager, free_block}
use simple_os_rs.Phys.Manager.{region_order, add_region}
use simple_os_rs.Phys.Manager.Serves.{Pages, Serves}
use simple_os_rs.Phys.Manager.Region.{InRegion, add_region-Serves}

-- The higher half of a machine with one PML4 entry.
abbrev pub high_mem_base : ℕ
high_mem_base = 18446743523953737728

abbrev pub kernel_storage : PhysManagerStorage
kernel_storage = record {
  get_entry = λ (i : ℕ). i * 4096 + high_mem_base;
  get_index = λ (p : ℕ). (p - high_mem_base) / 4096;
  limit = 134217728;
  limit_fits = omega arith;
  get_index-get_entry = λ i h. omega arith;
  get_entry_ne = λ i h e. omega arith;
}

-- A manager of 256 pages, none of them free.
abbrev pub blank : Manager
blank = record {
  mem = λ p. new_entry 0;
  free_lists = λ order. null;
  buddy_map = record { word = λ e. 0; len = 4 };
}

abbrev pub no_page : Pages
no_page p = ⊥

pub blank-Serves : Serves kernel_storage 256 blank no_page
blank-Serves = record {
  view = λ k. [];
  repr = record {
    fits = omega arith;
    chain = λ k h. refl;
    in_range = λ k i h f. cc;
    set = λ k i h f. cc;
    only = λ i h b. absurd (omega (arith, b, bit-zero (i % 64)));
  };
  valid = record {
    aligned = λ k i f. absurd (cc (f.1));
    inside = λ k i f. absurd (cc (f.1));
    apart = λ k i j a p f g x y. absurd (cc (f.1));
    merged = λ k i lt f. refl;
  };
  size = refl;
  whole = refl;
  free = λ p. (λ c. cc (c.free.1), λ e. absurd e);
}

abbrev pub unwrap : Manager → Outcome Manager → Manager
unwrap d (ok m) = m
unwrap d (panic e) = d
unwrap d out_of_fuel = d

-- Pages 6 to 15 are free.
abbrev pub ten_pages : Manager
unfolding add_region
ten_pages = unwrap blank (add_region kernel_storage 10 blank 6 10)

ten_pages_lem : add_region kernel_storage 10 blank 6 10 ≡ ok ten_pages
unfolding add_region ten_pages free_block region_order leading_zeros bit_length trailing_zeros
    low_zeros
ten_pages_lem = refl

abbrev pub six_to_fifteen : Pages
six_to_fifteen p = ⊥ ⊎ InRegion p 6 10

pub ten_pages-Serves : Serves kernel_storage 256 ten_pages six_to_fifteen
ten_pages-Serves =
    let (m, e, s) =
      add_region-Serves kernel_storage 256 10 blank no_page 6 10 blank-Serves (omega arith)
        (omega arith) λ p h f. f in
    let done = ten_pages_lem in
    let same : m ≡ ten_pages = cc in subst (λ x. Serves kernel_storage 256 x six_to_fifteen) same s

order_of_one : get_size_order 1 ≡ 0
unfolding get_size_order leading_zeros bit_length
order_of_one = refl

order_of_three : get_size_order 3 ≡ 2
unfolding get_size_order leading_zeros bit_length
order_of_three = refl

order_of_thirteen : get_size_order 13 ≡ 4
unfolding get_size_order leading_zeros bit_length
order_of_thirteen = refl
