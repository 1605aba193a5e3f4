-- ===== src/Common/Bits/Disjoint.antt =====
-- Words that share no bit: `&`, `|` and `+`.
use Prim.Native.Nat.{
  ℕ, zero, suc, ◌+◌, ◌-◌, ◌*◌, ◌/◌, ◌%◌, ◌^◌, ◌≤◌, ◌<◌, max, bit_and, bit_or, bit_and-bitwise,
  bit_or-bitwise,
}
use mathlib.Core.Path.{◌≡◌, refl, ap, ◌∙◌}
use native.Mathlib.Nat.{mul_left_comm, pow-le-pow_right}
use native.Mathlib.Omega.{arith}
use simple_os_rs.Common.Bits.{complement, two-pow-suc, two-pow_pos}
use simple_os_rs.Common.Bits.Step.{bit_and_step, bit_or_step}

zero-bit_and : (b : ℕ) → bit_and 0 b ≡ 0
zero-bit_and b = simp bit_and-bitwise

-- The digits of a sum are those of `|` and `&` together.
pub bit_or-add-bit_and : (w x y : ℕ) → x < 2 ^ w → y < 2 ^ w → bit_or x y + bit_and x y ≡ x + y
bit_or-add-bit_and zero zero zero hx hy = refl
bit_or-add-bit_and zero (suc x) y hx hy = absurd (omega arith)
bit_or-add-bit_and zero zero (suc y) hx hy = absurd (omega arith)
bit_or-add-bit_and (suc w) x y hx hy = omega (
  arith,
  bit_or_step x y,
  bit_and_step x y,
  bit_or-add-bit_and w (x / 2) (y / 2) (omega (arith, two-pow-suc w))
      (omega (arith, two-pow-suc w)),
)

pub bit_or-below : (w x y : ℕ) → x < 2 ^ w → y < 2 ^ w → bit_or x y < 2 ^ w
bit_or-below zero zero zero hx hy = omega arith
bit_or-below zero (suc x) y hx hy = absurd (omega arith)
bit_or-below zero zero (suc y) hx hy = absurd (omega arith)
bit_or-below (suc w) x y hx hy = omega (
  arith,
  two-pow-suc w,
  bit_or_step x y,
  bit_or-below w (x / 2) (y / 2) (omega (arith, two-pow-suc w)) (omega (arith, two-pow-suc w)),
)

-- Clearing the bits of `b` in `p | b` gives `p` back where they share none.
pub cleared :
    (w p b : ℕ)
    → p < 2 ^ w
    → b < 2 ^ w
    → bit_and p b ≡ 0
    → bit_and (bit_or p b) (complement w b) ≡ p
cleared zero zero zero hp hb e = refl
cleared zero (suc p) b hp hb e = absurd (omega arith)
cleared zero zero (suc b) hp hb e = absurd (omega arith)
cleared (suc w) p b hp hb e =
    let half_or : bit_or p b / 2 ≡ bit_or (p / 2) (b / 2) = omega (arith, bit_or_step p b) in
    let half_not : complement (suc w) b / 2 ≡ complement w (b / 2) = omega (arith, two-pow-suc w) in
    let rest : bit_and (bit_or (p / 2) (b / 2)) (complement w (b / 2)) ≡ p / 2 =
      cleared w (p / 2) (b / 2) (omega (arith, two-pow-suc w)) (omega (arith, two-pow-suc w))
        (omega (arith, bit_and_step p b)) in
    let low : bit_or p b % 2 ≡ max (p % 2) (b % 2) = omega (arith, bit_or_step p b) in
    let halves : bit_and (bit_or p b / 2) (complement (suc w) b / 2) ≡ p / 2 =
      rw (half_or, half_not) rest in
    omega (
      arith,
      bit_and_step (bit_or p b) (complement (suc w) b),
      halves,
      low,
      two-pow-suc w,
      bit_and_step p b,
    )

-- An address below a power of two shares no bit with a multiple of it.
pub multiple_apart : (w q p : ℕ) → p < 2 ^ w → bit_and p (q * 2 ^ w) ≡ 0
multiple_apart zero q zero lt = zero-bit_and (q * 2 ^ 0)
multiple_apart zero q (suc p) lt = absurd (omega arith)
multiple_apart (suc w) q p lt =
    let twice : q * 2 ^ suc w ≡ 2 * (q * 2 ^ w) =
      ap (λ (t : ℕ). q * t) (two-pow-suc w) ∙ mul_left_comm q 2 (2 ^ w) in
    let half : q * 2 ^ suc w / 2 ≡ q * 2 ^ w = omega arith in
    let rest : bit_and (p / 2) (q * 2 ^ suc w / 2) ≡ 0 =
      rw half (multiple_apart w q (p / 2) (omega (arith, two-pow-suc w))) in
    omega (arith, bit_and_step p (q * 2 ^ suc w), rest)

-- A mask of `k` ones keeps a word of `k` bits.
pub bit_and-ones : (k x : ℕ) → x < 2 ^ k → bit_and x (2 ^ k - 1) ≡ x
bit_and-ones zero zero h = refl
bit_and-ones zero (suc x) h = absurd (omega arith)
bit_and-ones (suc k) x h =
    let half : (2 ^ suc k - 1) / 2 ≡ 2 ^ k - 1 = omega (arith, two-pow-suc k, two-pow_pos k) in
    let rest : bit_and (x / 2) ((2 ^ suc k - 1) / 2) ≡ x / 2 =
      rw half (bit_and-ones k (x / 2) (omega (arith, two-pow-suc k))) in
    omega (arith, bit_and_step x (2 ^ suc k - 1), rest, two-pow-suc k, two-pow_pos k)

-- Common factors of two.
pub bit_and-mul-two-pow : (w x y : ℕ) → bit_and (x * 2 ^ w) (y * 2 ^ w) ≡ bit_and x y * 2 ^ w
bit_and-mul-two-pow zero x y =
    let ex : x * 2 ^ 0 ≡ x = omega arith in
    let ey : y * 2 ^ 0 ≡ y = omega arith in rw (ex, ey) (omega arith)
bit_and-mul-two-pow (suc w) x y =
    let twice : (q : ℕ) → q * 2 ^ suc w ≡ 2 * (q * 2 ^ w) =
      λ q. ap (λ (t : ℕ). q * t) (two-pow-suc w) ∙ mul_left_comm q 2 (2 ^ w) in
    let hx : x * 2 ^ suc w / 2 ≡ x * 2 ^ w = omega (arith, twice x) in
    let hy : y * 2 ^ suc w / 2 ≡ y * 2 ^ w = omega (arith, twice y) in
    let rest : bit_and (x * 2 ^ suc w / 2) (y * 2 ^ suc w / 2) ≡ bit_and x y * 2 ^ w =
      rw (hx, hy) (bit_and-mul-two-pow w x y) in
    omega (
      arith,
      bit_and_step (x * 2 ^ suc w) (y * 2 ^ suc w),
      rest,
      twice x,
      twice y,
      twice (bit_and x y),
    )

pub bit_and_comm : (w x y : ℕ) → x < 2 ^ w → y < 2 ^ w → bit_and x y ≡ bit_and y x
bit_and_comm zero zero zero hx hy = refl
bit_and_comm zero (suc x) y hx hy = absurd (omega arith)
bit_and_comm zero zero (suc y) hx hy = absurd (omega arith)
bit_and_comm (suc w) x y hx hy = omega (
  arith,
  bit_and_step x y,
  bit_and_step y x,
  bit_and_comm w (x / 2) (y / 2) (omega (arith, two-pow-suc w)) (omega (arith, two-pow-suc w)),
)

-- Setting bits below the ones of a multiple of a power of two adds them.
pub bit_or-multiple :
    (w q p : ℕ) → w ≤ 64 → p < 2 ^ w → q * 2 ^ w < 2 ^ 64 → bit_or (q * 2 ^ w) p ≡ q * 2 ^ w + p
bit_or-multiple w q p fits lt small =
    let below : p < 2 ^ 64 = omega (arith, two-pow-mono w fits) in
    omega (
      arith,
      bit_or-add-bit_and 64 (q * 2 ^ w) p small below,
      bit_and_comm 64 (q * 2 ^ w) p small below,
      multiple_apart w q p lt,
    )
  where
    two-pow-mono : (w : ℕ) → w ≤ 64 → 2 ^ w ≤ 2 ^ 64
    two-pow-mono w h = pow-le-pow_right (omega arith) h

pub zero-bit_or : (b : ℕ) → bit_or 0 b ≡ b
zero-bit_or b = simp bit_or-bitwise

pub bit_or-mul-two-pow : (w x y : ℕ) → bit_or (x * 2 ^ w) (y * 2 ^ w) ≡ bit_or x y * 2 ^ w
bit_or-mul-two-pow zero x y =
    let ex : x * 2 ^ 0 ≡ x = omega arith in
    let ey : y * 2 ^ 0 ≡ y = omega arith in rw (ex, ey) (omega arith)
bit_or-mul-two-pow (suc w) x y =
    let twice : (q : ℕ) → q * 2 ^ suc w ≡ 2 * (q * 2 ^ w) =
      λ q. ap (λ (t : ℕ). q * t) (two-pow-suc w) ∙ mul_left_comm q 2 (2 ^ w) in
    let hx : x * 2 ^ suc w / 2 ≡ x * 2 ^ w = omega (arith, twice x) in
    let hy : y * 2 ^ suc w / 2 ≡ y * 2 ^ w = omega (arith, twice y) in
    let rest : bit_or (x * 2 ^ suc w / 2) (y * 2 ^ suc w / 2) ≡ bit_or x y * 2 ^ w =
      rw (hx, hy) (bit_or-mul-two-pow w x y) in
    omega (
      arith,
      bit_or_step (x * 2 ^ suc w) (y * 2 ^ suc w),
      rest,
      twice x,
      twice y,
      twice (bit_or x y),
    )

-- The lowest one of an odd word is set already.
pub one-bit_or : (b : ℕ) → b % 2 ≡ 1 → bit_or 1 b ≡ b
one-bit_or b odd =
    let rest : bit_or (1 / 2) (b / 2) ≡ b / 2 = zero-bit_or (b / 2) in
    omega (arith, bit_or_step 1 b, rest)
