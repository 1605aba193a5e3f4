-- ===== src/Interrupt/Init/Tests.antt =====
-- `init` on a manager with a single free page, and on one with free blocks behind the page it takes.
use simple_os_rs.Common.{ℕ, ◌+◌, ◌*◌, ◌≡◌, ◌≢◌, ◌⊎◌, inr, refl, subst, arith}
use simple_os_rs.Common.Outcome.{Outcome, ok, panic, out_of_fuel}
use simple_os_rs.Virt.{phys_to_virt}
use simple_os_rs.Phys.Order.{bit_length, leading_zeros, low_zeros, trailing_zeros}
use simple_os_rs.Phys.Buddy.{Manager, free_block, alloc_block}
use simple_os_rs.Phys.Manager.{region_order, add_region, alloc_page, page_of}
use simple_os_rs.Phys.Manager.Serves.{Pages, Serves}
use simple_os_rs.Phys.Manager.Region.{InRegion, add_region-Serves}
use simple_os_rs.Phys.Manager.Calls.{PageTaken, alloc_page-PageTaken}
use simple_os_rs.Phys.Tests.{
  high_mem_base, kernel_storage, blank, no_page, blank-Serves, unwrap, ten_pages,
}
use simple_os_rs.Gdt.{empty_tss}
use simple_os_rs.Interrupt.Init.{Structures, Table, init}
use simple_os_rs.Interrupt.Init.Laws.{init-not_Serves}

abbrev after_of : Outcome (Manager × ℕ) → Manager
after_of (ok (m, addr)) = m
after_of (panic e) = blank
after_of out_of_fuel = blank

-- Page 6 is free.
abbrev one_free : Manager
unfolding add_region
one_free = unwrap blank (add_region kernel_storage 1 blank 6 1)

abbrev six : Pages
six p = ⊥ ⊎ InRegion p 6 1

one_free_lem : add_region kernel_storage 1 blank 6 1 ≡ ok one_free
unfolding add_region one_free free_block region_order leading_zeros bit_length trailing_zeros
    low_zeros
one_free_lem = refl

one_free-Serves : Serves kernel_storage 256 one_free six
one_free-Serves =
    let (m, e, s) =
      add_region-Serves kernel_storage 256 1 blank no_page 6 1 blank-Serves (omega arith)
        (omega arith) λ p h f. f in
    let done = one_free_lem in
    let same : m ≡ one_free = cc in subst (λ x. Serves kernel_storage 256 x six) same s

abbrev none_left : Manager
unfolding alloc_page
none_left = after_of (alloc_page kernel_storage one_free)

none_left_lem : alloc_page kernel_storage one_free ≡ ok (none_left, 24576)
unfolding none_left one_free alloc_page add_region free_block alloc_block region_order leading_zeros
    bit_length trailing_zeros low_zeros
none_left_lem = refl

page_six : PageTaken kernel_storage 256 one_free six
page_six =
    let t =
      alloc_page-PageTaken kernel_storage 256 one_free six one_free-Serves 6 (inr (omega arith)) in
    let done = t.returns in
    let done' = none_left_lem in
    let state : t.after ≡ none_left = cc in
    let addr : t.addr ≡ 24576 = cc in
    record {
      after = none_left;
      addr = 24576;
      returns = none_left_lem;
      aligned = refl;
      below = omega arith;
      was_free = inr (omega arith);
      serves =
          subst (λ a. Serves kernel_storage 256 none_left (λ q. six q × (q ≢ page_of a))) addr
            (subst (λ m. Serves kernel_storage 256 m (λ q. six q × (q ≢ page_of t.addr))) state
              t.serves);
    }

abbrev structures : Manager → Structures
structures m = record {
  manager = m;
  bitmap = 0;
  gdt = record {
    gdt_ptr = 0;
    tss_ptr = 0;
    tables = record { gdt = λ i. 0; tss = λ core. empty_tss };
  };
}

abbrev stub : ℕ → ℕ
stub i = 18446744073709486080 + i * 16

-- Page 6 is taken from the pages 6 to 15.
abbrev nine_pages : Manager
unfolding alloc_page
nine_pages = after_of (alloc_page kernel_storage ten_pages)

nine_pages_lem : alloc_page kernel_storage ten_pages ≡ ok (nine_pages, 24576)
unfolding nine_pages alloc_page add_region free_block alloc_block region_order leading_zeros
    bit_length trailing_zeros low_zeros
nine_pages_lem = refl

-- The list of the blocks of eight pages starts with page 8, which is cleared with page 6.
init-not_Serves_example :
    (after : Structures) × (table : Table) × (init kernel_storage high_mem_base stub
        (structures ten_pages)
      ≡ ok (after, table))
    × ((G : Pages) → ¬ Serves kernel_storage 256 after.manager G)
unfolding nine_pages alloc_page add_region free_block alloc_block region_order leading_zeros
    bit_length trailing_zeros low_zeros phys_to_virt
init-not_Serves_example =
    init-not_Serves kernel_storage 256 high_mem_base stub (structures ten_pages) six nine_pages
      24576 3 nine_pages_lem (omega arith) (omega arith) (omega arith) refl
