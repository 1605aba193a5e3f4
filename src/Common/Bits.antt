-- ===== src/Common/Bits.antt =====
-- Bits of a word, and what `&`, `|`, `^`, `!` and `<<` do to them.
mod Step
pub mod Disjoint
use Step.{bit_and_step, bit_or_step, bit_xor_step}
use Prim.Native.Nat.{
  ℕ, zero, suc, ◌+◌, ◌-◌, ◌*◌, ◌/◌, ◌%◌, ◌^◌, ◌≤◌, ◌<◌, min, max, bit_and, bit_or, bit_xor,
}
use mathlib.Core.Path.{◌≡◌, refl, ap, ◌∙◌, sym}
use mathlib.Core.Logic.{◌≢◌, ◌⊎◌, inl, inr}
use native.Mathlib.Nat.{pow-suc, one-le-pow}
use native.Mathlib.Omega.{arith}

-- Bit `k` of `x`.
abbrev pub bit : ℕ → ℕ → ℕ
bit x zero = x % 2
bit x (suc k) = bit (x / 2) k

-- `1 << k` on 64 bits, as a release build shifts: by `k` modulo 64.
abbrev pub shl_one : ℕ → ℕ
shl_one k = 2 ^ (k % 64)

-- `!x` on `w` bits.
abbrev pub complement : ℕ → ℕ → ℕ
complement w x = 2 ^ w - 1 - x

pub two-pow-suc : (k : ℕ) → 2 ^ suc k ≡ 2 * 2 ^ k
two-pow-suc k = omega (arith, pow-suc 2 k)

pub two-pow_pos : (k : ℕ) → 1 ≤ 2 ^ k
two-pow_pos k = one-le-pow k 2 (omega arith)

pub bit-le : (x k : ℕ) → bit x k ≤ 1
bit-le x zero = omega arith
bit-le x (suc k) = bit-le (x / 2) k

pub bit-zero : (k : ℕ) → bit 0 k ≡ 0
bit-zero zero = refl
bit-zero (suc k) = bit-zero k

half-two-pow-suc : (k : ℕ) → 2 ^ suc k / 2 ≡ 2 ^ k
half-two-pow-suc k = omega (arith, two-pow-suc k)

half-complement : (w x : ℕ) → complement (suc w) 0 / 2 ≡ complement w 0
half-complement w x = omega (arith, two-pow-suc w, two-pow_pos w)

half-complement_one : (w : ℕ) → complement (suc w) 1 / 2 ≡ complement w 0
half-complement_one w = omega (arith, two-pow-suc w, two-pow_pos w)

half-complement_pow : (w k : ℕ) → complement (suc w) (2 ^ suc k) / 2 ≡ complement w (2 ^ k)
half-complement_pow w k = omega (arith, two-pow-suc w, two-pow-suc k, two-pow_pos w)

pub two-pow_lt : (k w : ℕ) → k < w → 2 * 2 ^ k ≤ 2 ^ w
two-pow_lt k zero h = absurd (omega arith)
two-pow_lt zero (suc w) h = omega (arith, two-pow-suc w, two-pow_pos w)
two-pow_lt (suc k) (suc w) h =
    omega (arith, two-pow-suc k, two-pow-suc w, two-pow_lt k w (omega arith))

bit_and-zero_fuel : (n x : ℕ) → x ≤ n → bit_and x 0 ≡ 0
bit_and-zero_fuel n zero h = refl
bit_and-zero_fuel zero (suc x) h = absurd (omega arith)
bit_and-zero_fuel (suc n) (suc x) h =
    omega (arith, bit_and_step (suc x) 0, bit_and-zero_fuel n (suc x / 2) (omega arith))

bit_xor-zero_fuel : (n x : ℕ) → x ≤ n → bit_xor x 0 ≡ x
bit_xor-zero_fuel n zero h = refl
bit_xor-zero_fuel zero (suc x) h = absurd (omega arith)
bit_xor-zero_fuel (suc n) (suc x) h =
    omega (arith, bit_xor_step (suc x) 0, bit_xor-zero_fuel n (suc x / 2) (omega arith))

bit_or_zero_zero : (a b : ℕ) → a ≡ 0 → b ≡ 0 → bit_or a b ≡ 0
bit_or_zero_zero a b h k = rw (h, k)

pub bit-bit_or : (a b k : ℕ) → bit (bit_or a b) k ≡ max (bit a k) (bit b k)
bit-bit_or a b zero = omega (arith, bit_or_step a b)
bit-bit_or a b (suc k) =
    ap (λ (x : ℕ). bit x k) (omega (arith, bit_or_step a b)) ∙ bit-bit_or (a / 2) (b / 2) k

pub bit-bit_and : (a b k : ℕ) → bit (bit_and a b) k ≡ min (bit a k) (bit b k)
bit-bit_and a b zero = omega (arith, bit_and_step a b)
bit-bit_and a b (suc k) =
    ap (λ (x : ℕ). bit x k) (omega (arith, bit_and_step a b)) ∙ bit-bit_and (a / 2) (b / 2) k

pub bit-two-pow_self : (k : ℕ) → bit (2 ^ k) k ≡ 1
bit-two-pow_self zero = refl
bit-two-pow_self (suc k) =
    ap (λ (x : ℕ). bit x k) (omega (arith, two-pow-suc k)) ∙ bit-two-pow_self k

pub bit-two-pow_ne : (k j : ℕ) → k ≢ j → bit (2 ^ k) j ≡ 0
bit-two-pow_ne zero zero ne = absurd (ne refl)
bit-two-pow_ne zero (suc j) ne = bit-zero j
bit-two-pow_ne (suc k) zero ne = omega (arith, two-pow-suc k)
bit-two-pow_ne (suc k) (suc j) ne =
    ap (λ (x : ℕ). bit x j) (omega (arith, two-pow-suc k)) ∙ bit-two-pow_ne k j (λ e. ne (ap suc e))

pub bit-complement : (w x k : ℕ) → x < 2 ^ w → k < w → bit (complement w x) k + bit x k ≡ 1
bit-complement zero x k h lt = absurd (omega arith)
bit-complement (suc w) x zero h lt = omega (arith, two-pow-suc w)
bit-complement (suc w) x (suc k) h lt =
    ap (λ (y : ℕ). bit y k + bit (x / 2) k) (omega (arith, two-pow-suc w, two-pow_pos w))
    ∙ bit-complement w (x / 2) k (omega (arith, two-pow-suc w)) (omega arith)

bit_and-zero : (x : ℕ) → bit_and x 0 ≡ 0
bit_and-zero x = bit_and-zero_fuel x x (omega arith)

bit_xor-zero : (x : ℕ) → bit_xor x 0 ≡ x
bit_xor-zero x = bit_xor-zero_fuel x x (omega arith)

-- `x & (1 << k)` is `1 << k` or 0, as bit `k` is set or clear.
pub bit_and-two-pow : (x k : ℕ) → bit_and x (2 ^ k) ≡ bit x k * 2 ^ k
bit_and-two-pow x zero = omega (arith, bit_and_step x 1, bit_and-zero (x / 2))
bit_and-two-pow x (suc k) = omega (
  arith,
  bit_and_step x (2 ^ suc k),
  two-pow-suc k,
  ap (λ (y : ℕ). bit_and (x / 2) y) (half-two-pow-suc k),
  bit_and-two-pow (x / 2) k,
  ap (λ (y : ℕ). bit (x / 2) k * y) (two-pow-suc k),
)

-- Flipping bit `k` adds `2 ^ k` where the bit is clear.
pub bit_xor_clear : (x k : ℕ) → bit x k ≡ 0 → bit_xor x (2 ^ k) ≡ x + 2 ^ k
bit_xor_clear x zero h = omega (arith, bit_xor_step x 1, bit_xor-zero (x / 2))
bit_xor_clear x (suc k) h = omega (
  arith,
  bit_xor_step x (2 ^ suc k),
  two-pow-suc k,
  ap (λ (y : ℕ). bit_xor (x / 2) y) (half-two-pow-suc k),
  bit_xor_clear (x / 2) k h,
)

-- Flipping bit `k` takes `2 ^ k` away where the bit is set.
pub bit_xor_set : (x k : ℕ) → bit x k ≡ 1 → bit_xor x (2 ^ k) + 2 ^ k ≡ x
bit_xor_set x zero h = omega (arith, bit_xor_step x 1, bit_xor-zero (x / 2))
bit_xor_set x (suc k) h = omega (
  arith,
  bit_xor_step x (2 ^ suc k),
  two-pow-suc k,
  ap (λ (y : ℕ). bit_xor (x / 2) y) (half-two-pow-suc k),
  bit_xor_set (x / 2) k h,
)

-- `x & !0` on `w` bits.
bit_and-ones : (w x : ℕ) → x < 2 ^ w → bit_and x (complement w 0) ≡ x
bit_and-ones zero x h = omega (arith, bit_and-zero x)
bit_and-ones (suc w) x h = omega (
  arith,
  bit_and_step x (complement (suc w) 0),
  two-pow-suc w,
  two-pow_pos w,
  ap (λ (y : ℕ). bit_and (x / 2) y) (half-complement w 0),
  bit_and-ones w (x / 2) (omega (arith, two-pow-suc w)),
)

-- Masking bit `k` out takes it away.
pub bit_and-complement :
    (w x k : ℕ) → x < 2 ^ w → k < w → bit_and x (complement w (2 ^ k)) + bit x k * 2 ^ k ≡ x
bit_and-complement zero x k h lt = absurd (omega arith)
bit_and-complement (suc w) x zero h lt = omega (
  arith,
  bit_and_step x (complement (suc w) 1),
  two-pow-suc w,
  two-pow_pos w,
  ap (λ (y : ℕ). bit_and (x / 2) y) (half-complement_one w),
  bit_and-ones w (x / 2) (omega (arith, two-pow-suc w)),
)
bit_and-complement (suc w) x (suc k) h lt = omega (
  arith,
  bit_and_step x (complement (suc w) (2 ^ suc k)),
  two-pow-suc w,
  two-pow-suc k,
  two-pow_lt k w (omega arith),
  ap (λ (y : ℕ). bit_and (x / 2) y) (half-complement_pow w k),
  bit_and-complement w (x / 2) k (omega (arith, two-pow-suc w)) (omega arith),
  ap (λ (y : ℕ). bit (x / 2) k * y) (two-pow-suc k),
)

pub bit_or-lt : (w a b : ℕ) → a < 2 ^ w → b < 2 ^ w → bit_or a b < 2 ^ w
bit_or-lt zero a b h k =
    omega (arith, bit_or_step a b, bit_or_zero_zero a b (omega arith) (omega arith))
bit_or-lt (suc w) a b h k = omega (
  arith,
  bit_or_step a b,
  two-pow-suc w,
  bit_or-lt w (a / 2) (b / 2) (omega (arith, two-pow-suc w)) (omega (arith, two-pow-suc w)),
)

-- Adding `2 ^ k` to a number with bit `k` clear sets the bit.
pub bit-add_set : (x k : ℕ) → bit x k ≡ 0 → bit (x + 2 ^ k) k ≡ 1
bit-add_set x zero h = omega arith
bit-add_set x (suc k) h =
    ap (λ (y : ℕ). bit y k) (omega (arith, two-pow-suc k)) ∙ bit-add_set (x / 2) k h

-- Taking `2 ^ k` from a number with bit `k` set clears the bit.
pub bit-sub_clear : (x y k : ℕ) → bit x k ≡ 1 → y + 2 ^ k ≡ x → bit y k ≡ 0
bit-sub_clear x y zero h e = omega arith
bit-sub_clear x y (suc k) h e = bit-sub_clear (x / 2) (y / 2) k h (omega (arith, two-pow-suc k))

bit_split : (x k : ℕ) → (bit x k ≡ 0) ⊎ (bit x k ≡ 1)
bit_split x k = omega (arith, bit-le x k)

-- Flipping a bit twice changes nothing.
pub bit_xor-bit_xor : (x k : ℕ) → bit_xor (bit_xor x (2 ^ k)) (2 ^ k) ≡ x
bit_xor-bit_xor x k = elim (bit_split x k) [
  | inl clear ↦
      let e = bit_xor_clear x k clear in
      rw e (omega (arith, bit_xor_set (x + 2 ^ k) k (bit-add_set x k clear)))
  | inr set ↦
      let e = bit_xor_set x k set in
      let y = bit_xor x (2 ^ k) in omega (arith, e, bit_xor_clear y k (bit-sub_clear x y k set e))
]
