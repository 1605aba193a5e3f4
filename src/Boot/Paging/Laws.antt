-- ===== src/Boot/Paging/Laws.antt =====
-- The tables that the three loops fill.
use simple_os_rs.Common.{
  update, ℕ, suc, ◌+◌, ◌-◌, ◌*◌, ◌^◌, ◌<◌, ◌≤◌, ◌≡◌, ◌≢◌, ap, ◌∙◌, ◌==◌, arith, lt→ltb, bit_and,
  bit_or,
}
use simple_os_rs.Common.Outcome.{ok}
use simple_os_rs.Common.Loops.{for_range, for_range_inv}
use simple_os_rs.Common.Bits.Disjoint.{bit_and-ones, bit_and-mul-two-pow, bit_or-multiple}
use simple_os_rs.Boot.Paging.{
  Buffer, put, assert, fill_pml4, fill_pdp, fill_pd, pml4_addr_mask, pde_addr_mask,
}

-- A page-aligned address below 2^52 passes the mask of an address field.
page_masked : (q : ℕ) → q < 2 ^ 40 → bit_and (q * 2 ^ 12) pml4_addr_mask ≡ q * 2 ^ 12
page_masked q lt =
    bit_and-mul-two-pow 12 q (2 ^ 40 - 1) ∙ ap (λ (x : ℕ). x * 2 ^ 12) (bit_and-ones 40 q lt)

large_page_masked : (q : ℕ) → q < 2 ^ 31 → bit_and (q * 2 ^ 21) pde_addr_mask ≡ q * 2 ^ 21
large_page_masked q lt =
    bit_and-mul-two-pow 21 q (2 ^ 31 - 1) ∙ ap (λ (x : ℕ). x * 2 ^ 21) (bit_and-ones 31 q lt)

page_flags : (q : ℕ) → q < 2 ^ 40 → bit_or (q * 2 ^ 12) 3 ≡ q * 2 ^ 12 + 3
page_flags q lt = bit_or-multiple 12 q 3 (omega arith) (omega arith) (omega arith)

large_page_flags : (q : ℕ) → q < 2 ^ 31 → bit_or (q * 2 ^ 21) 131 ≡ q * 2 ^ 21 + 131
large_page_flags q lt = bit_or-multiple 21 q 131 (omega arith) (omega arith) (omega arith)

assert-ok : (a b : ℕ) → a ≡ b → assert (a == b) ≡ ok tt
unfolding assert
assert-ok a b e = ground arith

put-ok : (len i v : ℕ) (buffer : Buffer) → i < len → put len i v buffer ≡ ok (update buffer i v)
unfolding put
put-ok len i v buffer h = rw (lt→ltb i len h)

-- The words of the three levels, for a buffer at page `q`, with `n` entries in the first level and
-- `pdp_pages` pages in the second.
abbrev pub pml4_word : ℕ → ℕ → ℕ
pml4_word q j = (j + 1 + q) * 2 ^ 12 + 3

abbrev pub pdp_word : ℕ → ℕ → ℕ → ℕ
pdp_word q pdp_pages j = (j + 1 + pdp_pages + q) * 2 ^ 12 + 3

abbrev pub pd_word : ℕ → ℕ
pd_word j = j * 2 ^ 21 + 131

-- The first `i` entries of each level are filled.
abbrev pub Pml4Filled : ℕ → ℕ → ℕ → Buffer → Type 0
Pml4Filled q n i buffer =
    (j : ℕ) → j < i → (buffer j ≡ pml4_word q j) × (buffer (512 - n + j) ≡ pml4_word q j)

abbrev pub PdpFilled : ℕ → ℕ → ℕ → Buffer → Type 0
PdpFilled q pdp_pages i buffer = (j : ℕ) → j < i → buffer (512 + j) ≡ pdp_word q pdp_pages j

abbrev pub PdFilled : ℕ → ℕ → Buffer → Type 0
PdFilled pdp_pages i buffer = (j : ℕ) → j < i → buffer (512 + pdp_pages * 512 + j) ≡ pd_word j

update_eq : (f : Buffer) (i j v : ℕ) → i ≡ j → update f i v j ≡ v
update_eq f i j v e = ground arith

update_ne : (f : Buffer) (i j v : ℕ) → i ≢ j → update f i v j ≡ f j
update_ne f i j v e = ground arith

module _ (q n pdp_pages len : ℕ) (n_fits : n ≤ 256) (len_fits : 512 ≤ len) where
  fill_pml4-Pml4Filled :
      (i : ℕ) (buffer : Buffer)
      → i < n
      → n + q < 2 ^ 40
      → Pml4Filled q n i buffer
      → (buffer' : Buffer) × (fill_pml4 (q * 2 ^ 12) len n 1 i buffer ≡ ok buffer')
        × Pml4Filled q n (suc i) buffer'
  unfolding fill_pml4
  fill_pml4-Pml4Filled i buffer lt small filled =
      let addr : i * 4096 + 4096 + q * 2 ^ 12 ≡ (i + 1 + q) * 2 ^ 12 = omega arith in
      let fits : i + 1 + q < 2 ^ 40 = omega arith in
      let w = pml4_word q i in
      let buffer₁ = update buffer i w in
      (
        update buffer₁ (512 - n + i) w,
        rw (
          addr,
          assert-ok _ _ (page_masked (i + 1 + q) fits),
          page_flags (i + 1 + q) fits,
          put-ok len i w buffer (omega arith),
          put-ok len (512 - n + i) w buffer₁ (omega arith),
        ),
        λ j lj. ground (arith, filled j),
      )

  fill_pdp-PdpFilled :
      (np i : ℕ) (buffer : Buffer)
      → i < np
      → np + pdp_pages + q < 2 ^ 40
      → 512 + np ≤ len
      → Pml4Filled q n n buffer × PdpFilled q pdp_pages i buffer
      → (buffer' : Buffer) × (fill_pdp (q * 2 ^ 12) len 1 pdp_pages i buffer ≡ ok buffer')
        × (Pml4Filled q n n buffer' × PdpFilled q pdp_pages (suc i) buffer')
  unfolding fill_pdp
  fill_pdp-PdpFilled np i buffer lt small long (top, filled) =
      let addr : i * 4096 + 4096 + pdp_pages * 4096 + q * 2 ^ 12
          ≡ (i + 1 + pdp_pages + q) * 2 ^ 12 =
        omega arith in
      let fits : i + 1 + pdp_pages + q < 2 ^ 40 = omega arith in
      (
        update buffer (512 + i) (pdp_word q pdp_pages i),
        rw
            (
              addr,
              assert-ok _ _ (page_masked (i + 1 + pdp_pages + q) fits),
              page_flags (i + 1 + pdp_pages + q) fits,
            )
            (put-ok len (512 + i) _ buffer (omega arith)),
        (λ j lj. ground (arith, top j), λ j lj. ground (arith, filled j)),
      )

  fill_pd-PdFilled :
      (np nd i : ℕ) (buffer : Buffer)
      → np ≤ pdp_pages * 512
      → i < nd
      → nd ≤ 2 ^ 31
      → 512 + pdp_pages * 512 + nd ≤ len
      → (Pml4Filled q n n buffer × PdpFilled q pdp_pages np buffer) × PdFilled pdp_pages i buffer
      → (buffer' : Buffer) × (fill_pd len 1 pdp_pages i buffer ≡ ok buffer')
        × ((Pml4Filled q n n buffer' × PdpFilled q pdp_pages np buffer')
            × PdFilled pdp_pages (suc i) buffer')
  unfolding fill_pd
  fill_pd-PdFilled np nd i buffer room lt small long ((top, mid), filled) =
      let fits : i < 2 ^ 31 = omega arith in
      (
        update buffer (512 + pdp_pages * 512 + i) (pd_word i),
        rw (assert-ok _ _ (large_page_masked i fits), large_page_flags i fits)
            (put-ok len (512 + pdp_pages * 512 + i) _ buffer (omega arith)),
        (
          (λ j lj. ground (arith, top j), λ j lj. ground (arith, mid j)),
          λ j lj. ground (arith, filled j),
        ),
      )

-- All three levels are filled.
pub record Filled (q n pdp_pages np nd : ℕ) (buffer : Buffer) : Type 0 where
  pub top : Pml4Filled q n n buffer
  pub middle : PdpFilled q pdp_pages np buffer
  pub bottom : PdFilled pdp_pages nd buffer

-- The three loops return, with every index inside the slice, and fill the levels.
pub loops-Filled :
    (q n pdp_pages np nd len : ℕ) (buffer : Buffer)
    → n ≤ 256
    → np ≤ pdp_pages * 512
    → n ≤ np
    → nd ≤ 2 ^ 31
    → 512 + pdp_pages * 512 + nd ≤ len
    → np + pdp_pages + q < 2 ^ 40
    → (buffer₁ buffer₂ buffer₃ : Buffer) × (for_range n 0 (fill_pml4 (q * 2 ^ 12) len n 1) buffer
        ≡ ok buffer₁)
      × (for_range np 0 (fill_pdp (q * 2 ^ 12) len 1 pdp_pages) buffer₁ ≡ ok buffer₂)
      × (for_range nd 0 (fill_pd len 1 pdp_pages) buffer₂ ≡ ok buffer₃)
      × Filled q n pdp_pages np nd buffer₃
loops-Filled q n pdp_pages np nd len buffer hn room more hd long small =
    let (b₁, e₁, f₁) =
      for_range_inv (Pml4Filled q n) (fill_pml4 (q * 2 ^ 12) len n 1) n
        (λ i b lt f. fill_pml4-Pml4Filled q n pdp_pages len hn (omega arith) i b lt (omega arith) f)
        n 0 buffer (omega arith) (λ j lt. absurd (omega arith)) in
    let (b₂, e₂, f₂) =
      for_range_inv (λ i b. Pml4Filled q n n b × PdpFilled q pdp_pages i b)
        (fill_pdp (q * 2 ^ 12) len 1 pdp_pages) np
        (λ i b lt f.
          fill_pdp-PdpFilled q n pdp_pages len hn (omega arith) np i b lt small (omega arith) f)
        np 0 b₁ (omega arith) (f₁, λ j lt. absurd (omega arith)) in
    let (b₃, e₃, f₃) =
      for_range_inv
        (λ i b. (Pml4Filled q n n b × PdpFilled q pdp_pages np b) × PdFilled pdp_pages i b)
        (fill_pd len 1 pdp_pages) nd
        (λ i b lt f.
          fill_pd-PdFilled q n pdp_pages len hn (omega arith) np nd i b room lt hd long f)
        nd 0 b₂ (omega arith) (f₂, λ j lt. absurd (omega arith)) in
    (b₁, b₂, b₃, e₁, e₂, e₃, record { top = f₃.0.0; middle = f₃.0.1; bottom = f₃.1 })
