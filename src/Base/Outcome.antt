-- ===== src/Base/Outcome.antt =====
-- Results of code that can stop at a `BUG`, or whose loop can run out of fuel.
use mathlib.Core.Path.{◌≡◌, ap}

pub data Run {ℓ} (A : Type ℓ) : Type ℓ where
  ok : A → Run A
  bug : Run A
  out_of_fuel : Run A

infixl 5 ◌>>=◌
abbrev pub ◌>>=◌ {ℓ κ} : {A : Type ℓ} {B : Type κ} → Run A → (A → Run B) → Run B
ok a >>= k = k a
bug >>= k = bug
out_of_fuel >>= k = out_of_fuel

-- The code returns, and what it returns satisfies `P`.
abbrev pub Returns {ℓ κ} : {A : Type ℓ} → (A → Type κ) → Run A → Type (ℓ ⊔ κ)
Returns {A} P r = (a : A) × (r ≡ ok a) × P a

pub ok-injective {ℓ} : {A : Type ℓ} (a b : A) → ok a ≡ ok b → a ≡ b
ok-injective {A} a b e = ap (λ r. value a r) e
  where
    value : A → Run A → A
    value d (ok x) = x
    value d bug = d
    value d out_of_fuel = d
