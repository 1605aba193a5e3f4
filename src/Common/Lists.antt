-- ===== src/Common/Lists.antt =====
-- Membership and removal in lists of numbers.
use Prim.Native.Nat.{ℕ, suc}
use mathlib.Core.Path.{◌≡◌, refl}
use mathlib.Core.Logic.{◌≢◌, ◌⊎◌, inl, inr}
use mathlib.Core.Bool.{Bool, true, false, ◌||◌}
use mathlib.Core.List.{List, [], ◌∷◌}
use native.Mathlib.Omega.{arith}
use simple_os_rs.Common.Tests.{◌==◌, if◌then◌else◌}

abbrev pub length {ℓ} : {A : Type ℓ} → List A → ℕ
length [] = 0
length (x ∷ xs) = suc (length xs)

abbrev pub has : ℕ → List ℕ → Bool
has i [] = false
has i (j ∷ js) = (i == j) || has i js

-- The list without the first occurrence of `i`.
abbrev pub erase : ℕ → List ℕ → List ℕ
erase i [] = []
erase i (j ∷ js) = if i == j then js else j ∷ erase i js

pub has-erase_ne : (i j : ℕ) (xs : List ℕ) → i ≢ j → has j (erase i xs) ≡ has j xs
has-erase_ne i j [] ne = refl
has-erase_ne i j (x ∷ xs) ne = ground (arith, has-erase_ne i j xs ne)

pub has-erase_le : (i j : ℕ) (xs : List ℕ) → has j xs ≡ false → has j (erase i xs) ≡ false
has-erase_le i j [] h = refl
has-erase_le i j (x ∷ xs) h = ground (arith, has-erase_le i j xs)

pub erase_self : (i : ℕ) (xs : List ℕ) → erase i (i ∷ xs) ≡ xs
erase_self i xs = ground arith

pub has_self : (i : ℕ) (xs : List ℕ) → has i (i ∷ xs) ≡ true
has_self i xs = ground arith

pub List-cases {ℓ} :
    {A : Type ℓ} (xs : List A) → (xs ≡ []) ⊎ ((y : A) × (ys : List A) × (xs ≡ y ∷ ys))
List-cases [] = inl refl
List-cases (x ∷ xs) = inr (x, xs, refl)

-- `f` with the value `v` at `i`.
abbrev pub update {ℓ} : {A : Type ℓ} → (ℕ → A) → ℕ → A → ℕ → A
update f i v j = if i == j then v else f j
