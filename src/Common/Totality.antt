-- ===== src/Common/Totality.antt =====
-- Total correctness of a computation that may fault: it returns, and what it returns meets `P`.
use mathlib.Core.Path.{◌≡◌, refl}
use mathlib.Core.Option.{Option, none, some}

abbrev pub Returns {ℓ} : {A : Type ℓ} → (A → Type 0) → Option A → Type 0
Returns P none = ⊥
Returns P (some a) = P a

pub Returns-some {ℓ} :
    {A : Type ℓ} (P : A → Type 0) (m : Option A) → Returns P m → (a : A) × (m ≡ some a) × P a
Returns-some P none h = absurd h
Returns-some P (some a) h = (a, refl, h)
