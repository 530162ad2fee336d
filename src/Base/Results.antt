-- ===== src/Base/Results.antt =====
-- To split on a computed result and keep the equation.
use mathlib.Core.Path.{◌≡◌, refl}
use mathlib.Core.Logic.{◌⊎◌, inl, inr}
use rps.Base.Classes.{Result, ok, err}

pub Result-cases {ℓ κ} :
    {A : Type ℓ} {E : Type κ} (r : Result E A) → ((a : A) × (r ≡ ok a)) ⊎ ((e : E) × (r ≡ err e))
Result-cases (ok a) = inl (a, refl)
Result-cases (err e) = inr (e, refl)
