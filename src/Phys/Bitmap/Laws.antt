-- ===== src/Phys/Bitmap/Laws.antt =====
-- Setting and clearing a bit in range changes that bit and no other; out of range it panics.
use simple_os_rs.Common.{
  update, ℕ, zero, suc, ◌*◌, ◌/◌, ◌%◌, ◌^◌, ◌<◌, ◌≤◌, ◌≡◌, ◌≢◌, refl, ap, ◌∙◌, ◌==◌, if◌then◌else◌,
  bit_and, bit_or, arith, ==_iff, Bool-cases, inl, inr, lt→ltb, le→not-ltb, not,
}
use simple_os_rs.Common.Bits.{
  bit, shl_one, complement, bit-le, bit-bit_or, bit-bit_and, bit-two-pow_self, bit-two-pow_ne,
  bit-complement, two-pow_lt, bit_and-two-pow, two-pow_pos,
}
use native.Mathlib.Nat.{zero-mul, one-mul}
use simple_os_rs.Common.Outcome.{ok, panic, index_out_of_bounds}
use simple_os_rs.Phys.Bitmap.{Bitmap, bit_at, word_at, set_bit, clear_bit}

pub shl_one-mod : (i : ℕ) → shl_one (i % 64) ≡ 2 ^ (i % 64)
shl_one-mod i = ap (λ (k : ℕ). 2 ^ k) (omega arith)

-- `b'` is `b` with the bit `v` at `i`.
pub record With (v i : ℕ) (b b' : Bitmap) : Type 0 where
  pub same_len : b'.len ≡ b.len
  pub bits : (j : ℕ) → bit_at b' j ≡ (if i == j then v else bit_at b j)

-- The word with bit `k` replaced by `v`.
abbrev Rewrites : ℕ → ℕ → ℕ → ℕ → Type 0
Rewrites v k w w' = (j : ℕ) → j < 64 → bit w' j ≡ (if k == j then v else bit w j)

set_word : (w k : ℕ) → Rewrites 1 k w (bit_or w (2 ^ k))
set_word w k j h = elim (Bool-cases (k == j)) [
  | inl e ↦ ground (
    arith,
    bit-bit_or w (2 ^ k) j,
    bit-le w j,
    ap (λ (x : ℕ). bit (2 ^ x) j) ((==_iff k j).0 e),
    bit-two-pow_self j,
  )
  | inr ne ↦
      let apart : k ≢ j = ground arith in
      ground (arith, bit-bit_or w (2 ^ k) j, bit-le w j, bit-two-pow_ne k j apart)
]

pow_fits : (k : ℕ) → k < 64 → 2 ^ k < 2 ^ 64
pow_fits k h = omega (arith, two-pow_lt k 64 h, two-pow_pos k)

clear_word : (w k : ℕ) → k < 64 → Rewrites 0 k w (bit_and w (complement 64 (2 ^ k)))
clear_word w k lt j h = elim (Bool-cases (k == j)) [
  | inl e ↦ ground (
    arith,
    bit-bit_and w (complement 64 (2 ^ k)) j,
    bit-le w j,
    bit-complement 64 (2 ^ k) j (pow_fits k lt) h,
    ap (λ (x : ℕ). bit (2 ^ x) j) ((==_iff k j).0 e),
    bit-two-pow_self j,
  )
  | inr ne ↦
      let apart : k ≢ j = ground arith in
      ground (
        arith,
        bit-bit_and w (complement 64 (2 ^ k)) j,
        bit-le w j,
        bit-complement 64 (2 ^ k) j (pow_fits k lt) h,
        bit-two-pow_ne k j apart,
      )
]

With-update :
    (v i w' : ℕ) (b : Bitmap)
    → Rewrites v (i % 64) (b.word (i / 64)) w'
    → With v i b (record b { word = update b.word (i / 64) w' })
With-update v i w' b r = record { same_len = refl; bits = λ j. bits j }
  where
    bits :
        (j : ℕ)
        → bit (update b.word (i / 64) w' (j / 64)) (j % 64) ≡ (if i == j then v else bit_at b j)
    bits j = elim (Bool-cases ((i / 64) == (j / 64))) [
      | inl e ↦ rw e (
          r (j % 64) (omega arith)
          ∙ ground
              (arith, ap (λ (x : ℕ). bit (b.word x) (j % 64)) ((==_iff (i / 64) (j / 64)).0 e)))
      | inr ne ↦ rw ne (ground arith)
    ]

pub word_at-in : (b : Bitmap) (e : ℕ) → e < b.len → word_at b e ≡ ok (b.word e)
unfolding word_at
word_at-in b e h = rw (lt→ltb _ _ h)

pub word_at-out : (b : Bitmap) (e : ℕ) → b.len ≤ e → word_at b e ≡ panic index_out_of_bounds
unfolding word_at
word_at-out b e h = rw (le→not-ltb _ _ h)

abbrev rewritten : Bitmap → ℕ → ℕ → Bitmap
rewritten b i w' = record b { word = update b.word (i / 64) w' }

pub set_bit-With :
    (b : Bitmap) (i : ℕ) → i / 64 < b.len → (b' : Bitmap) × (set_bit b i ≡ ok b') × With 1 i b b'
unfolding set_bit
set_bit-With b i h =
    let w = b.word (i / 64) in
    let w' = bit_or w (2 ^ (i % 64)) in
    (
      rewritten b i w',
      rw (word_at-in b (i / 64) h, shl_one-mod i),
      With-update 1 i w' b (set_word w (i % 64)),
    )

pub clear_bit-With :
    (b : Bitmap) (i : ℕ) → i / 64 < b.len → (b' : Bitmap) × (clear_bit b i ≡ ok b') × With 0 i b b'
unfolding clear_bit
clear_bit-With b i h =
    let w = b.word (i / 64) in
    let w' = bit_and w (complement 64 (2 ^ (i % 64))) in
    (
      rewritten b i w',
      rw (word_at-in b (i / 64) h, shl_one-mod i),
      With-update 0 i w' b (clear_word w (i % 64) (omega arith)),
    )

nonzero-mul : (v p : ℕ) → v ≤ 1 → 1 ≤ p → not (v * p == 0) ≡ (v == 1)
nonzero-mul zero p h k = rw (zero-mul p)
nonzero-mul (suc zero) p h k = ground (arith, one-mul p)
nonzero-mul (suc (suc v)) p h k = absurd (omega arith)

-- The test `word & (1 << k) != 0` reads bit `k`.
pub test_bit : (w i : ℕ) → not (bit_and w (shl_one (i % 64)) == 0) ≡ (bit w (i % 64) == 1)
test_bit w i =
    rw (shl_one-mod i, bit_and-two-pow w (i % 64))
      (nonzero-mul (bit w (i % 64)) (2 ^ (i % 64)) (bit-le w (i % 64)) (two-pow_pos (i % 64)))
