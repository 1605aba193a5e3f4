-- ===== src/Phys/Buddy/Pages.antt =====
-- The free blocks as sets of pages: what a manager's view promises, whatever stores it.
use simple_os_rs.Common.{
  ℕ, suc, ◌+◌, ◌%◌, ◌^◌, ◌<◌, ◌≤◌, ◌≡◌, ◌⊎◌, inl, inr, List, true, false, has, arith,
}
use simple_os_rs.Common.Bits.{two-pow_pos, two-pow-suc}
use simple_os_rs.Phys.Order.{max_order, get_buddy_index}
use simple_os_rs.Phys.Order.Neighbours.{Neighbours}

-- The free blocks of each order, by their first page.
abbrev pub Blocks : Type 0
Blocks = ℕ → List ℕ

-- Page `p` lies in the block of order `k` at `i`.
abbrev pub In : ℕ → ℕ → ℕ → Type 0
In p i k = (i ≤ p) × (p < i + 2 ^ k)

abbrev pub Free : Blocks → ℕ → ℕ → Type 0
Free L k i = (k ≤ max_order) × (has i (L k) ≡ true)

-- Page `p` lies in a free block.
pub record Covered (L : Blocks) (p : ℕ) : Type 0 where
  pub order : ℕ
  pub index : ℕ
  pub free : Free L order index
  pub within : In p index order

-- The block of order `k` at `i` shares no page with a free block.
abbrev pub Disjoint : Blocks → ℕ → ℕ → Type 0
Disjoint L i k = (p : ℕ) → In p i k → ¬ Covered L p

-- Free blocks are aligned to their size, lie among the `n` pages, do not overlap, and no two of
-- them could be merged.
pub record Valid (L : Blocks) (n : ℕ) : Type 0 where
  pub aligned : (k i : ℕ) → Free L k i → i % 2 ^ k ≡ 0
  pub inside : (k i : ℕ) → Free L k i → i + 2 ^ k ≤ n
  pub apart : (k i j a p : ℕ) → Free L k i → Free L j a → In p i k → In p a j → (k ≡ j) × (i ≡ a)
  pub merged : (k i : ℕ) → k < max_order → Free L k i → has (get_buddy_index i k) (L k) ≡ false

pub In-first : (i k : ℕ) → In i i k
In-first i k = omega (arith, two-pow_pos k)

-- The combined block consists of the block and its neighbour.
pub In-combined :
    (p i k b c : ℕ)
    → Neighbours i k b c
    → (In p c (suc k) → In p i k ⊎ In p b k) × (In p i k ⊎ In p b k → In p c (suc k))
In-combined p i k b c nb = elim nb.side [
  | inl s ↦ (λ h. omega (arith, two-pow-suc k), λ h. omega (arith, two-pow-suc k))
  | inr s ↦ (λ h. omega (arith, two-pow-suc k), λ h. omega (arith, two-pow-suc k))
]
