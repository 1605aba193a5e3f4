-- ===== src/Phys/Order/Size.antt =====
-- `leading_zeros`, `trailing_zeros` and `get_size_order`: what the orders that they give mean.
use native.Mathlib.Nat.{mul-add-mod_self_left, mod-eq_of_lt, div-add-mod, mod-lt, pow-le-pow_right}
use native.Mathlib.Numerals.{add-one}
use simple_os_rs.Common.{
  ℕ, zero, suc, ◌+◌, ◌-◌, ◌*◌, ◌/◌, ◌%◌, ◌^◌, ◌<◌, ◌≤◌, ◌≡◌, ◌≢◌, inl, inr, refl, ap, ◌∙◌, arith,
  Bool-cases, false, ◌==◌, ==_iff, bit_and, dec_lt,
}
use simple_os_rs.Common.Bits.{bit, shl_one, bit_and-two-pow, two-pow-suc, two-pow_pos, two-pow_lt}
use simple_os_rs.Phys.Order.{bit_length, leading_zeros, low_zeros, trailing_zeros, get_size_order}
use simple_os_rs.Phys.Order.Neighbours.{shl_one-pow}

-- The lowest digit of a remainder by `2 * p`.
mod-double : (x p : ℕ) → 1 ≤ p → x % (2 * p) ≡ 2 * (x / 2 % p) + x % 2
mod-double x p h =
    let y = x / 2 in
    let whole : x ≡ 2 * p * (y / p) + (2 * (y % p) + x % 2) = omega (arith, div-add-mod y p) in
    ap (λ (t : ℕ). t % (2 * p)) whole
    ∙ mul-add-mod_self_left (2 * p) (y / p) (2 * (y % p) + x % 2)
    ∙ mod-eq_of_lt (omega (arith, mod-lt y h))

-- A number is a multiple of `2 ^ k` for each `k` up to the count of its low zeros.
low_zeros-aligned : (f x k : ℕ) → k ≤ low_zeros f x → x % 2 ^ k ≡ 0
unfolding low_zeros
low_zeros-aligned f x zero h = omega arith
low_zeros-aligned zero x (suc k) h = absurd (omega arith)
low_zeros-aligned (suc f) x (suc k) h = elim (Bool-cases (x % 2 == 1)) [
  | inl odd ↦ absurd (ground (arith, odd))
  | inr even ↦
      let rest = low_zeros-aligned f (x / 2) k (ground (arith, even)) in
      ap (λ (t : ℕ). x % t) (two-pow-suc k)
      ∙ mod-double x (2 ^ k) (two-pow_pos k)
      ∙ ground (arith, rest, even)
]

pub trailing_zeros-aligned : (x k : ℕ) → k ≤ trailing_zeros x → x % 2 ^ k ≡ 0
unfolding trailing_zeros
trailing_zeros-aligned x k h = low_zeros-aligned 64 x k h

-- `b` is the position of the highest one of `x`.
pub record Highest (x b : ℕ) : Type 0 where
  pub above : 2 ^ b ≤ x
  pub below : x < 2 ^ suc b

bit_length-zero : (f : ℕ) → bit_length f 0 ≡ 0
unfolding bit_length
bit_length-zero zero = refl
bit_length-zero (suc f) = refl

bit_length-Highest :
    (f x : ℕ) → 1 ≤ x → x < 2 ^ f → (b : ℕ) × (bit_length f x ≡ suc b) × (b < f) × Highest x b
unfolding bit_length
bit_length-Highest zero x h lt = absurd (omega arith)
bit_length-Highest (suc f) x h lt = elim (Bool-cases (x / 2 == 0)) [
  | inl one ↦
      let e : x / 2 ≡ 0 = (==_iff (x / 2) 0).0 one in
      let pos : (x == 0) ≡ false = ground arith in
      (
        0,
        rw (pos, e, bit_length-zero f),
        omega arith,
        record { above = omega arith; below = omega arith },
      )
  | inr more ↦
      let (b, e, bf, hi) =
        bit_length-Highest f (x / 2) (ground (arith, more)) (omega (arith, two-pow-suc f)) in
      let pos : (x == 0) ≡ false = ground arith in
      (
        suc b,
        rw (pos, e),
        omega arith,
        record {
          above = omega (arith, hi.above, two-pow-suc b);
          below = omega (arith, hi.below, two-pow-suc (suc b));
        },
      )
]

-- `63 - count.leading_zeros()` is the position of the highest one.
pub leading_zeros-Highest :
    (x : ℕ)
    → 1 ≤ x
    → x < 2 ^ 64
    → (b : ℕ) × (63 - leading_zeros x ≡ b) × (leading_zeros x ≤ 63) × (b < 64) × Highest x b
unfolding leading_zeros
leading_zeros-Highest x h lt =
    let (b, e, bf, hi) = bit_length-Highest 64 x h lt in
    (b, omega (arith, e), omega (arith, e), bf, hi)

bit-Highest : (b x : ℕ) → Highest x b → bit x b ≡ 1
bit-Highest zero x hi = omega (arith, hi.above, hi.below)
bit-Highest (suc b) x hi = bit-Highest b (x / 2) (record {
  above = omega (arith, hi.above, two-pow-suc b);
  below = omega (arith, hi.below, two-pow-suc (suc b));
})

two-pow_mono : (a b : ℕ) → a < b → 2 ^ a < 2 ^ b
two-pow_mono a b h = omega (arith, two-pow_lt a b h, two-pow_pos a)

two-pow_le : (a b : ℕ) → a ≤ b → 2 ^ a ≤ 2 ^ b
two-pow_le a b h = pow-le-pow_right (omega arith) h

-- `o` is the least order whose blocks hold `count` pages.
pub record LeastOrder (count o : ℕ) : Type 0 where
  pub holds : count ≤ 2 ^ o
  pub least : (j : ℕ) → count ≤ 2 ^ j → o ≤ j

least : (b count j : ℕ) → Highest count b → count ≤ 2 ^ j → b ≤ j
least b count j hi fits = elim (dec_lt j b) [
  | yes small ↦ absurd (omega (arith, two-pow_mono j b small, hi.above))
  | no large ↦ omega arith
]

least_over : (b count j : ℕ) → Highest count b → 2 ^ b ≢ count → count ≤ 2 ^ j → suc b ≤ j
least_over b count j hi ne fits = elim (dec_lt b j) [
  | yes large ↦ omega arith
  | no small ↦ absurd (ne (omega (arith, hi.above, two-pow_le j b (omega arith))))
]

-- For 1 to 2^64 - 1 pages `get_size_order` gives the least order whose blocks hold them.
pub get_size_order-LeastOrder :
    (count : ℕ) → 1 ≤ count → count < 2 ^ 64 → LeastOrder count (get_size_order count)
unfolding get_size_order
get_size_order-LeastOrder count h lt =
    let (b, e, small, bf, hi) = leading_zeros-Highest count h lt in
    let order : (63 + 2 ^ 32 - leading_zeros count) % 2 ^ 32 ≡ b = omega arith in
    let top : bit_and count (shl_one b) ≡ 2 ^ b =
      ap (bit_and count) (shl_one-pow b bf)
      ∙ bit_and-two-pow count b
      ∙ ap (λ (t : ℕ). t * 2 ^ b) (bit-Highest b count hi)
      ∙ omega arith in
    rw (order, top)
      (elim (Bool-cases (2 ^ b == count)) [
        | inl exact ↦
            rw exact
              (record { holds = ground (arith, exact); least = λ j fits. least b count j hi fits })
        | inr over ↦
            rw (over, add-one b)
              (record {
                holds = omega (arith, hi.below);
                least = λ j fits. least_over b count j hi (ground (arith, over)) fits;
              })
      ])
