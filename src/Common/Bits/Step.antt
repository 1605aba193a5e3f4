-- ===== src/Common/Bits/Step.antt =====
-- The lowest binary digit of `&`, `|` and `^`.
use Prim.Native.Nat.{
  ℕ, zero, suc, ◌+◌, ◌*◌, ◌/◌, ◌%◌, ◌≤◌, ◌<◌, min, max, bit_and, bit_or, bit_xor, digits, bitwise,
  bit_and-bitwise, bit_or-bitwise, bit_xor-bitwise, differ,
}
use mathlib.Core.Path.{◌≡◌, refl, ap, ◌∙◌}
use native.Mathlib.Decide.{dec_lt}
use native.Mathlib.Omega.{arith}

module _ (rest : ℕ → ℕ) (op : ℕ → ℕ → ℕ) where
  -- One more round than the first operand's size changes nothing.
  spare_round :
      (a rounds b : ℕ) → a ≤ rounds → digits rest op (suc rounds) a b ≡ digits rest op rounds a b
  spare_round zero zero b le = refl
  spare_round zero (suc rounds) b le = refl
  spare_round (suc a) zero b le = absurd (omega arith)
  spare_round (suc a) (suc rounds) b le =
      ap (λ (q : ℕ). q * 2 + op (suc a % 2) (b % 2))
        (spare_round (suc a / 2) rounds (b / 2) (omega arith))

  spare_rounds : (rounds a b : ℕ) → a ≤ rounds → digits rest op rounds a b ≡ bitwise rest op a b
  spare_rounds zero zero b le = refl
  spare_rounds zero (suc a) b le = absurd (omega arith)
  spare_rounds (suc rounds) a b le = elim (dec_lt rounds a) [
    | yes tight ↦
        let same : suc rounds ≡ a = omega arith in ap (λ (x : ℕ). digits rest op x a b) same
    | no loose ↦
        let below : a ≤ rounds = omega arith in
        spare_round a rounds b below ∙ spare_rounds rounds a b below
  ]

  lowest_digit :
      ((b : ℕ) → rest b ≡ rest (b / 2) * 2 + op 0 (b % 2))
      → (a b : ℕ) → bitwise rest op a b ≡ bitwise rest op (a / 2) (b / 2) * 2 + op (a % 2) (b % 2)
  lowest_digit base zero b = base b
  lowest_digit base (suc a) b =
      ap (λ (q : ℕ). q * 2 + op (suc a % 2) (b % 2))
        (spare_rounds a (suc a / 2) (b / 2) (omega arith))

pub bit_and_step : (x y : ℕ) → bit_and x y ≡ bit_and (x / 2) (y / 2) * 2 + min (x % 2) (y % 2)
bit_and_step x y = simp bit_and-bitwise (lowest_digit (λ b. 0) min (λ b. omega arith) x y)

pub bit_or_step : (x y : ℕ) → bit_or x y ≡ bit_or (x / 2) (y / 2) * 2 + max (x % 2) (y % 2)
bit_or_step x y = simp bit_or-bitwise (lowest_digit (λ b. b) max (λ b. omega arith) x y)

-- `differ` on digits is the digit of the sum.
differ_lem : (x y : ℕ) → x < 2 → y < 2 → differ x y ≡ (x + y) % 2
differ_lem zero zero lx ly = refl
differ_lem zero (suc zero) lx ly = refl
differ_lem (suc zero) zero lx ly = refl
differ_lem (suc zero) (suc zero) lx ly = refl
differ_lem zero (suc (suc y)) lx ly = absurd (omega arith)
differ_lem (suc zero) (suc (suc y)) lx ly = absurd (omega arith)
differ_lem (suc (suc x)) y lx ly = absurd (omega arith)

pub bit_xor_step : (x y : ℕ) → bit_xor x y ≡ bit_xor (x / 2) (y / 2) * 2 + (x + y) % 2
bit_xor_step x y =
    let base : (b : ℕ) → b ≡ b / 2 * 2 + differ 0 (b % 2) =
      λ b. omega (arith, differ_lem 0 (b % 2) (omega arith) (omega arith)) in
    let digit : bit_xor x y ≡ bit_xor (x / 2) (y / 2) * 2 + differ (x % 2) (y % 2) =
      simp bit_xor-bitwise (lowest_digit (λ b. b) differ base x y) in
    omega (arith, digit, differ_lem (x % 2) (y % 2) (omega arith) (omega arith))
