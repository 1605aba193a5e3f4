-- ===== src/Phys/Manager/Region.antt =====
-- `add_region`: the loop that cuts a region into aligned blocks.
use native.Mathlib.Nat.{pow-le-pow_right, le_trans}
use simple_os_rs.Common.{
  ℕ, zero, suc, true, dec_lt, ◌+◌, ◌-◌, ◌%◌, ◌^◌, ◌<◌, ◌≤◌, ◌≡◌, ◌⊎◌, inl, inr, ◌==◌, arith, min,
  Bool-cases, ==_iff, subst, sym,
}
use simple_os_rs.Common.Bits.{two-pow_pos}
use simple_os_rs.Common.Outcome.{ok}
use simple_os_rs.Phys.Storage.{PhysManagerStorage}
use simple_os_rs.Phys.Order.{max_order, leading_zeros, trailing_zeros}
use simple_os_rs.Phys.Order.Neighbours.{shl_one-pow}
use simple_os_rs.Phys.Order.Size.{trailing_zeros-aligned, leading_zeros-Highest}
use simple_os_rs.Phys.Buddy.{Manager}
use simple_os_rs.Phys.Buddy.Pages.{In}
use simple_os_rs.Phys.Manager.{calls, region_order, add_region}
use simple_os_rs.Phys.Manager.Serves.{Pages, Serves, free_block-Serves}
use simple_os_rs.Phys.Manager.Calls.{index_fits, Serves-same}

-- Page `p` is one of the `count` pages from `i`.
abbrev pub InRegion : ℕ → ℕ → ℕ → Type 0
InRegion p i count = (i ≤ p) × (p < i + count)

-- The order of a round: an aligned block that fits the pages left.
pub record RoundFits (i count k : ℕ) : Type 0 where
  pub order_fits : k ≤ max_order
  pub aligned : i % 2 ^ k ≡ 0
  pub fits : 2 ^ k ≤ count

-- For 1 to 2^64 - 1 pages the order that a round of `add_region` picks is at most the largest,
-- its block is aligned at the index and fits the pages left.
pub region_order-RoundFits :
    (i count : ℕ) → 1 ≤ count → count < 2 ^ 64 → RoundFits i count (region_order i count)
unfolding region_order
region_order-RoundFits i count pos lt =
    let (b, e, small, bf, hi) = leading_zeros-Highest count pos lt in
    let t = trailing_zeros i in
    let c = 63 - leading_zeros count in
    let k = min (min t c) max_order in
    let le_c : k ≤ b = omega arith in
    record {
      order_fits = omega arith;
      aligned = trailing_zeros-aligned i k (omega arith);
      fits = le_trans (pow-le-pow_right (omega arith) le_c) hi.above;
    }

module _ (storage : PhysManagerStorage) (n : ℕ) where
  -- On a well-formed manager, for a region in range whose pages are not free, `add_region` with a
  -- round of fuel for each page returns, and the free pages are then those from before and the
  -- region's.
  pub add_region-Serves :
      (fuel : ℕ) (m : Manager) (F : Pages) (i count : ℕ)
      → Serves storage n m F
      → count ≤ fuel
      → i + count ≤ n
      → ((p : ℕ) → InRegion p i count → ¬ F p)
      → (m' : Manager) × (add_region storage fuel m i count ≡ ok m')
        × Serves storage n m' (λ p. F p ⊎ InRegion p i count)
  unfolding add_region
  add_region-Serves zero m F i count s enough inside apart =
      let none_left : (count == 0) ≡ true = ground arith in
      (
        m,
        rw none_left,
        Serves-same storage n m F s (λ p. F p ⊎ InRegion p i count)
            λ p. (λ f. inl f, λ f. elim f [ inl old ↦ old | inr here ↦ absurd (omega arith) ]),
      )
  add_region-Serves (suc fuel) m F i count s enough inside apart = elim (Bool-cases (count == 0)) [
    | inl done ↦ (
      m,
      rw done,
      Serves-same storage n m F s (λ p. F p ⊎ InRegion p i count)
          λ p. (
            λ f. inl f,
            λ f. elim f [
              | inl old ↦ old
              | inr here ↦ absurd (omega (arith, (==_iff count 0).0 done))
            ],
          ),
    )
    | inr more ↦
        let pos : 1 ≤ count = ground (arith, more) in
        let k = region_order i count in
        let fits = region_order-RoundFits i count pos (omega (arith, index_fits storage n m F s)) in
        let size = shl_one-pow k (omega (arith, fits.order_fits)) in
        let (m₁, freed, s₁) =
          free_block-Serves storage calls n m F i k s fits.order_fits (omega arith) fits.aligned
            (λ p h. apart p (omega (arith, fits.fits))) (omega arith) in
        let (m', rest, s') =
          add_region-Serves fuel m₁ (λ p. F p ⊎ In p i k) (i + 2 ^ k) (count - 2 ^ k) s₁
            (omega (arith, two-pow_pos k)) (omega (arith, fits.fits))
            (λ p h f. elim f [
              | inl old ↦ apart p (omega (arith, fits.fits, two-pow_pos k)) old
              | inr here ↦ omega arith
            ]) in
        (
          m',
          rw (more, freed)
              (subst (λ z. add_region storage fuel m₁ (i + z) (count - z) ≡ ok m') (sym size) rest),
          Serves-same storage n m' (λ p. (F p ⊎ In p i k) ⊎ InRegion p (i + 2 ^ k) (count - 2 ^ k))
              s' (λ p. F p ⊎ InRegion p i count)
              λ p. (
                λ f. elim f [
                  | inl early ↦ elim early [
                    | inl old ↦ inl old
                    | inr here ↦ inr (omega (arith, fits.fits))
                  ]
                  | inr late ↦ inr (omega (arith, fits.fits))
                ],
                λ f. elim f [
                  | inl old ↦ inl (inl old)
                  | inr here ↦ split i count k p here fits.fits
                ],
              ),
        )
  ]
    where
      split :
          (i count k p : ℕ)
          → InRegion p i count
          → 2 ^ k ≤ count
          → (F p ⊎ In p i k) ⊎ InRegion p (i + 2 ^ k) (count - 2 ^ k)
      split i count k p here le = elim (dec_lt p (i + 2 ^ k)) [
        | yes early ↦ inl (inr (omega arith))
        | no late ↦ inr (omega arith)
      ]
