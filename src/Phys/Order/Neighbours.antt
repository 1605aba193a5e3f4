-- ===== src/Phys/Order/Neighbours.antt =====
-- Where the neighbour and the combined block of an aligned block lie.
use simple_os_rs.Common.{
  ℕ, zero, suc, ◌+◌, ◌%◌, ◌^◌, ◌<◌, ◌≤◌, ◌≡◌, ◌⊎◌, inl, inr, ap, arith, bit_xor, bit_and,
}
use simple_os_rs.Common.Bits.{
  bit, bit-le, shl_one, complement, bit_xor_clear, bit_xor_set, bit_xor-bit_xor, bit_and-complement,
}
use simple_os_rs.Phys.Order.{max_order, get_buddy_index, get_combined_index}

aligned_even : (k i : ℕ) → k < 8 → i % 2 ^ k ≡ 0 → bit i k ≡ 0 → i % 2 ^ suc k ≡ 0
aligned_even zero i lt h e = omega arith
aligned_even (suc zero) i lt h e = omega arith
aligned_even (suc (suc zero)) i lt h e = omega arith
aligned_even (suc (suc (suc zero))) i lt h e = omega arith
aligned_even (suc (suc (suc (suc zero)))) i lt h e = omega arith
aligned_even (suc (suc (suc (suc (suc zero))))) i lt h e = omega arith
aligned_even (suc (suc (suc (suc (suc (suc zero)))))) i lt h e = omega arith
aligned_even (suc (suc (suc (suc (suc (suc (suc zero))))))) i lt h e = omega arith
aligned_even (suc (suc (suc (suc (suc (suc (suc (suc k)))))))) i lt h e = absurd (omega arith)

aligned_odd : (k i b : ℕ) → k < 8 → i % 2 ^ k ≡ 0 → bit i k ≡ 1 → b + 2 ^ k ≡ i → b % 2 ^ suc k ≡ 0
aligned_odd zero i b lt h e s = omega arith
aligned_odd (suc zero) i b lt h e s = omega arith
aligned_odd (suc (suc zero)) i b lt h e s = omega arith
aligned_odd (suc (suc (suc zero))) i b lt h e s = omega arith
aligned_odd (suc (suc (suc (suc zero)))) i b lt h e s = omega arith
aligned_odd (suc (suc (suc (suc (suc zero))))) i b lt h e s = omega arith
aligned_odd (suc (suc (suc (suc (suc (suc zero)))))) i b lt h e s = omega arith
aligned_odd (suc (suc (suc (suc (suc (suc (suc zero))))))) i b lt h e s = omega arith
aligned_odd (suc (suc (suc (suc (suc (suc (suc (suc k)))))))) i b lt h e s = absurd (omega arith)

-- A block of an order up to 8 that starts below a multiple of 256 ends there at the latest.
pub aligned_inside :
    (k i n : ℕ) → k ≤ max_order → n % 256 ≡ 0 → i % 2 ^ k ≡ 0 → i < n → i + 2 ^ k ≤ n
aligned_inside zero i n lt hn h l = omega arith
aligned_inside (suc zero) i n lt hn h l = omega arith
aligned_inside (suc (suc zero)) i n lt hn h l = omega arith
aligned_inside (suc (suc (suc zero))) i n lt hn h l = omega arith
aligned_inside (suc (suc (suc (suc zero)))) i n lt hn h l = omega arith
aligned_inside (suc (suc (suc (suc (suc zero))))) i n lt hn h l = omega arith
aligned_inside (suc (suc (suc (suc (suc (suc zero)))))) i n lt hn h l = omega arith
aligned_inside (suc (suc (suc (suc (suc (suc (suc zero))))))) i n lt hn h l = omega arith
aligned_inside (suc (suc (suc (suc (suc (suc (suc (suc zero)))))))) i n lt hn h l = omega arith
aligned_inside (suc (suc (suc (suc (suc (suc (suc (suc (suc k))))))))) i n lt hn h l =
    absurd (omega arith)

pub aligned_down : (k i : ℕ) → k < 8 → i % 2 ^ suc k ≡ 0 → i % 2 ^ k ≡ 0
aligned_down zero i lt h = omega arith
aligned_down (suc zero) i lt h = omega arith
aligned_down (suc (suc zero)) i lt h = omega arith
aligned_down (suc (suc (suc zero))) i lt h = omega arith
aligned_down (suc (suc (suc (suc zero)))) i lt h = omega arith
aligned_down (suc (suc (suc (suc (suc zero))))) i lt h = omega arith
aligned_down (suc (suc (suc (suc (suc (suc zero)))))) i lt h = omega arith
aligned_down (suc (suc (suc (suc (suc (suc (suc zero))))))) i lt h = omega arith
aligned_down (suc (suc (suc (suc (suc (suc (suc (suc k)))))))) i lt h = absurd (omega arith)

aligned_up : (k i : ℕ) → k < 8 → i % 2 ^ k ≡ 0 → (i + 2 ^ k) % 2 ^ k ≡ 0
aligned_up zero i lt h = omega arith
aligned_up (suc zero) i lt h = omega arith
aligned_up (suc (suc zero)) i lt h = omega arith
aligned_up (suc (suc (suc zero))) i lt h = omega arith
aligned_up (suc (suc (suc (suc zero)))) i lt h = omega arith
aligned_up (suc (suc (suc (suc (suc zero))))) i lt h = omega arith
aligned_up (suc (suc (suc (suc (suc (suc zero)))))) i lt h = omega arith
aligned_up (suc (suc (suc (suc (suc (suc (suc zero))))))) i lt h = omega arith
aligned_up (suc (suc (suc (suc (suc (suc (suc (suc k)))))))) i lt h = absurd (omega arith)

pub shl_one-pow : (k : ℕ) → k < 64 → shl_one k ≡ 2 ^ k
shl_one-pow k h = ap (λ (x : ℕ). 2 ^ x) (omega arith)

-- The neighbour lies behind or before the block, and the combined block is the two together.
abbrev pub Behind : ℕ → ℕ → ℕ → ℕ → Type 0
Behind i k b c = (b ≡ i + 2 ^ k) × (c ≡ i)

abbrev pub Before : ℕ → ℕ → ℕ → ℕ → Type 0
Before i k b c = (b + 2 ^ k ≡ i) × (c ≡ b)

pub record Neighbours (i k b c : ℕ) : Type 0 where
  pub side : Behind i k b c ⊎ Before i k b c
  pub aligned : b % 2 ^ k ≡ 0
  pub combined : c % 2 ^ suc k ≡ 0

bit_split : (x k : ℕ) → (bit x k ≡ 0) ⊎ (bit x k ≡ 1)
bit_split x k = omega (arith, bit-le x k)

pub buddy-Neighbours :
    (k i : ℕ)
    → k < 8
    → i < 2 ^ 64
    → i % 2 ^ k ≡ 0
    → Neighbours i k (get_buddy_index i k) (get_combined_index i k)
unfolding get_buddy_index get_combined_index
buddy-Neighbours k i lt fits h = rw (shl_one-pow k (omega arith)) (elim (bit_split i k) [
  | inl even ↦
      let b = bit_xor_clear i k even in
      let c : bit_and i (complement 64 (2 ^ k)) ≡ i =
        ground (arith, even, bit_and-complement 64 i k fits (omega arith)) in
      record {
        side = inl (b, c);
        aligned = rw b (aligned_up k i lt h);
        combined = rw c (aligned_even k i lt h even);
      }
  | inr odd ↦
      let b = bit_xor_set i k odd in
      let c : bit_and i (complement 64 (2 ^ k)) ≡ bit_xor i (2 ^ k) =
        ground (arith, odd, b, bit_and-complement 64 i k fits (omega arith)) in
      let up = aligned_odd k i (bit_xor i (2 ^ k)) lt h odd b in
      record {
        side = inr (b, c);
        aligned = aligned_down k (bit_xor i (2 ^ k)) lt up;
        combined = rw c up;
      }
])

pub get_buddy_index_twice : (k i : ℕ) → k < 64 → get_buddy_index (get_buddy_index i k) k ≡ i
unfolding get_buddy_index
get_buddy_index_twice k i lt = rw (shl_one-pow k lt) (bit_xor-bit_xor i k)

even_of_aligned : (k i : ℕ) → k < 8 → i % 2 ^ suc k ≡ 0 → bit i k ≡ 0
even_of_aligned zero i lt h = omega arith
even_of_aligned (suc zero) i lt h = omega arith
even_of_aligned (suc (suc zero)) i lt h = omega arith
even_of_aligned (suc (suc (suc zero))) i lt h = omega arith
even_of_aligned (suc (suc (suc (suc zero)))) i lt h = omega arith
even_of_aligned (suc (suc (suc (suc (suc zero))))) i lt h = omega arith
even_of_aligned (suc (suc (suc (suc (suc (suc zero)))))) i lt h = omega arith
even_of_aligned (suc (suc (suc (suc (suc (suc (suc zero))))))) i lt h = omega arith
even_of_aligned (suc (suc (suc (suc (suc (suc (suc (suc k)))))))) i lt h = absurd (omega arith)

-- The neighbour of the lower half of a block is the upper half.
pub get_buddy_index-half :
    (k i : ℕ)
    → k < 8
    → i % 2 ^ suc k ≡ 0
    → (get_buddy_index i k ≡ i + 2 ^ k) × ((i + 2 ^ k) % 2 ^ k ≡ 0)
unfolding get_buddy_index
get_buddy_index-half k i lt h = (
  rw (shl_one-pow k (omega arith)) (bit_xor_clear i k (even_of_aligned k i lt h)),
  aligned_up k i lt (aligned_down k i lt h),
)
