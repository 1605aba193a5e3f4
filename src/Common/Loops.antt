-- ===== src/Common/Loops.antt =====
-- `for` loops whose body may panic.
use Prim.Native.Nat.{ℕ, zero, suc, ◌+◌, ◌<◌}
use mathlib.Core.Path.{◌≡◌, refl}
use native.Mathlib.Omega.{arith}
use simple_os_rs.Common.Outcome.{Outcome, ok, ◌>>=◌}

-- `for i in first..first + left`
unfoldable pub for_range {ℓ} : {S : Type ℓ} → ℕ → ℕ → (ℕ → S → Outcome S) → S → Outcome S
for_range zero first body s = ok s
for_range (suc left) first body s = do s' ← body first s; for_range left (suc first) body s'

-- The body returns and keeps the invariant, so the loop does.
pub for_range_inv {ℓ κ} :
    {S : Type ℓ} (P : ℕ → S → Type κ) (body : ℕ → S → Outcome S) (end : ℕ)
    → ((i : ℕ) (s : S) → i < end → P i s → (s' : S) × (body i s ≡ ok s') × P (suc i) s')
    → (left first : ℕ) (s : S) → left + first ≡ end
    → P first s
    → (s' : S) × (for_range left first body s ≡ ok s') × P end s'
unfolding for_range
for_range_inv P body end keep zero first s e h =
    let same : first ≡ end = omega arith in (s, refl, rw (← same) h)
for_range_inv P body end keep (suc left) first s e h =
    let (s₁, done, h₁) = keep first s (omega arith) h in
    let (s', rest, h') = for_range_inv P body end keep left (suc first) s₁ (omega arith) h₁ in
    (s', rw done rest, h')
