-- ===== src/Base/Map/Keys.antt =====
-- The keys of a map as a list.
use rps.Base.{◌≡◌, refl, Bool, false, ◌||◌, none, List, [], ◌∷◌, Eq, eqb, arith}
use rps.Base.Map.{Map, get, keys}

module _ {ℓ} {K : Type ℓ} ⦃e : Eq K⦄ where
  abbrev pub contains : List K → K → Bool
  contains [] k = false
  contains (x ∷ xs) k = eqb x k || contains xs k

  pub contains-keys {κ} :
      {V : Type κ} (m : Map K V) (k : K) → contains (keys m) k ≡ false → get m k ≡ none
  unfolding get
  contains-keys [] k h = refl
  contains-keys ((j, v) ∷ m) k h = ground (arith, contains-keys m k)
