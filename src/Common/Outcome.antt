-- ===== src/Common/Outcome.antt =====
-- What a call in the kernel comes to: a value, a panic, or (in a model that recurs on fuel) no more
-- fuel.
use mathlib.Core.Path.{◌≡◌, refl}

pub data Fault : Type 0 where
  index_out_of_bounds out_of_physical_memory expect_failed assertion_failed unsupported_relocation
        memory_map_grew not_a_file wrong_entry :
      Fault

pub data Outcome {ℓ} (A : Type ℓ) : Type ℓ where
  ok : A → Outcome A
  panic : Fault → Outcome A
  out_of_fuel : Outcome A

infixl 5 ◌>>=◌
abbrev pub ◌>>=◌ {ℓ κ} : {A : Type ℓ} {B : Type κ} → Outcome A → (A → Outcome B) → Outcome B
ok a >>= f = f a
panic e >>= f = panic e
out_of_fuel >>= f = out_of_fuel

-- The call returns a value.
abbrev pub Returns {ℓ} : {A : Type ℓ} → Outcome A → Type ℓ
Returns {A} m = (a : A) × (m ≡ ok a)

pub >>=-Returns {ℓ κ} :
    {A : Type ℓ} {B : Type κ} (m : Outcome A) (f : A → Outcome B)
    → Returns m
    → ((a : A) → Returns (f a))
    → Returns (m >>= f)
>>=-Returns m f (a, e) k = let (b, e') = k a in (b, rw e e')

pub >>=_assoc {ℓ κ υ} :
    {A : Type ℓ} {B : Type κ} {C : Type υ} (m : Outcome A) (f : A → Outcome B) (g : B → Outcome C)
    → (m >>= f >>= g) ≡ (m >>= λ a. f a >>= g)
>>=_assoc (ok a) f g = refl
>>=_assoc (panic e) f g = refl
>>=_assoc out_of_fuel f g = refl

-- Where two calls in a row return, the first one hands its value to the second.
pub >>=_split {ℓ κ} :
    {A : Type ℓ} {B : Type κ} (first : Outcome A) (second : A → Outcome B) {result : B}
    → (first >>= second) ≡ ok result
    → (value : A) × (second value ≡ ok result) × (first ≡ ok value)
>>=_split (ok value) second run = (value, run, refl)
>>=_split (panic fault) second run = cc
>>=_split out_of_fuel second run = cc
