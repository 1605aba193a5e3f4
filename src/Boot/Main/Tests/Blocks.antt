-- ===== src/Boot/Main/Tests/Blocks.antt =====
-- Blocks of pages that a counter has given out.
use simple_os_rs.Common.{
  ℕ, ◌+◌, ◌*◌, ◌<◌, ◌≤◌, ◌≡◌, ◌⊎◌, inl, inr, refl, List, [], ◌∷◌, dec_lt, arith,
}
use simple_os_rs.Boot.Main.Working.{Owned}

-- Two blocks share no address.
abbrev pub Apart : ℕ × ℕ → List (ℕ × ℕ) → Type 0
Apart (p, n) bs =
    (q l a : ℕ) → Owned q l bs → q ≤ a → a < q + l * 4096 → (a < p) ⊎ (p + n * 4096 ≤ a)

-- The blocks lie from 16 MB up to the counter, and apart.
abbrev pub Laid : ℕ → List (ℕ × ℕ) → Type 0
Laid next [] = Unit
Laid next ((p, n) ∷ bs) =
    ((16777216 ≤ p) × (p + n * 4096 ≤ next * 4096)) × Apart (p, n) bs × Laid next bs

pub Laid-inside :
    (next q l : ℕ) (bs : List (ℕ × ℕ))
    → Laid next bs
    → Owned q l bs
    → (16777216 ≤ q) × (q + l * 4096 ≤ next * 4096)
Laid-inside next q l [] laid owned = absurd owned
Laid-inside next q l ((p, n) ∷ bs) ((above, below), apart, rest) (inl (ep, en)) =
    let same : p + n * 4096 ≡ q + l * 4096 = cc in
    (omega (arith, ep, above), omega (arith, same, below))
Laid-inside next q l ((p, n) ∷ bs) (here, apart, rest) (inr owned) =
    Laid-inside next q l bs rest owned

Laid-add : (next n : ℕ) (bs : List (ℕ × ℕ)) → Laid next bs → Laid (next + n) bs
Laid-add next n [] laid = tt
Laid-add next n ((p, m) ∷ bs) ((above, below), apart, rest) =
    ((above, omega arith), apart, Laid-add next n bs rest)

pub Laid-push :
    (next n : ℕ) (bs : List (ℕ × ℕ))
    → 4096 ≤ next
    → Laid next bs
    → Laid (next + n) ((next * 4096, n) ∷ bs)
Laid-push next n bs low laid = (
  (omega arith, omega arith),
  λ q l a owned lo hi. inl (omega (arith, Laid-inside next q l bs laid owned)),
  Laid-add next n bs laid,
)

-- What is apart from a block has no address in it.
Apart-back :
    (p n p' n' : ℕ) (bs : List (ℕ × ℕ))
    → Apart (p, n) ((p', n') ∷ bs)
    → Apart (p', n') bs
    → Apart (p', n') ((p, n) ∷ bs)
Apart-back p n p' n' bs out out' q l a (inr owned) lo hi = out' q l a owned lo hi
Apart-back p n p' n' bs out out' q l a (inl (ep, en)) lo hi =
    let ends : p + n * 4096 ≡ q + l * 4096 = cc in
    elim (dec_lt a p') [
      | yes before ↦ inl before
      | no not_before ↦ elim (dec_lt a (p' + n' * 4096)) [
        | no behind ↦ inr (omega (arith, behind))
        | yes inside ↦ elim (out p' n' a (inl (refl, refl)) (omega (arith, not_before)) inside) [
          | inl lt ↦ absurd (omega (arith, lt, ep, lo))
          | inr ge ↦ absurd (omega (arith, ge, ends, hi))
        ]
      ]
    ]

pub Laid-swap :
    (next : ℕ) (x y : ℕ × ℕ) (bs : List (ℕ × ℕ)) → Laid next (x ∷ y ∷ bs) → Laid next (y ∷ x ∷ bs)
Laid-swap next (p, n) (p', n') bs (here, out, (here', out', rest)) = (
  here',
  Apart-back p n p' n' bs out out',
  (here, λ q l a owned lo hi. out q l a (inr owned) lo hi, rest),
)
