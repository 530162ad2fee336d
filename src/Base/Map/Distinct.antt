-- ===== src/Base/Map/Distinct.antt =====
-- The number of the keys of a map, each of which stands in it once.
use rps.Base.{
  ◌+◌, ◌≡◌, refl, inl, inr, Bool, true, false, none, some, [], ◌∷◌, length, Eq, eqb, arith,
  Bool-cases, if◌then◌else◌,
}
use rps.Base.Map.{Map, get, insert, remove, contains_key, get-insert, get-remove}

module _ {ℓ κ} {K : Type ℓ} {V : Type κ} ⦃e : Eq K⦄ where
  unfoldable pub is_distinct : Map K V → Bool
  is_distinct [] = true
  is_distinct ((k, v) ∷ m) = if contains_key m k then false else is_distinct m

  contains_key-insert :
      (m : Map K V) (k j : K) (v : V)
      → eqb k j ≡ false
      → contains_key (insert m k v) j ≡ contains_key m j
  unfolding contains_key
  contains_key-insert m k j v h = rw (get-insert m k j v, h, contains_key, if◌then◌else◌) refl

  contains_key-remove :
      (m : Map K V) (k j : K) → contains_key m j ≡ false → contains_key (remove m k) j ≡ false
  unfolding contains_key
  contains_key-remove m k j h = elim (Bool-cases (eqb k j)) [
    | inl same ↦ rw (get-remove m k j, same, contains_key, if◌then◌else◌) refl
    | inr other ↦ rw (get-remove m k j, other, contains_key, if◌then◌else◌) h
  ]

  pub is_distinct-insert :
      (m : Map K V) (k : K) (v : V) → is_distinct m ≡ true → is_distinct (insert m k v) ≡ true
  unfolding is_distinct insert
  is_distinct-insert [] k v d = unfold contains_key get in refl
  is_distinct-insert ((j, w) ∷ m) k v d = elim (Bool-cases (eqb j k)) [
    | inl same ↦ let s : Path K j k = (e.beq_iff j k).0 same in ground arith
    | inr other ↦
        ground (
          arith,
          e.beq_iff j k,
          e.beq_iff k j,
          contains_key-insert m k j v,
          is_distinct-insert m k v,
        )
  ]

  remove-none : (m : Map K V) (k : K) → contains_key m k ≡ false → remove m k ≡ m
  unfolding remove contains_key get
  remove-none [] k h = refl
  remove-none ((j, w) ∷ m) k h = elim (Bool-cases (eqb j k)) [
    | inl same ↦ absurd (ground arith)
    | inr other ↦ ground (arith, remove-none m k)
  ]

  pub is_distinct-remove :
      (m : Map K V) (k : K) → is_distinct m ≡ true → is_distinct (remove m k) ≡ true
  unfolding is_distinct remove
  is_distinct-remove [] k d = refl
  is_distinct-remove ((j, w) ∷ m) k d =
      ground (arith, contains_key-remove m k j, is_distinct-remove m k)

  pub length-insert :
      (m : Map K V) (k : K) (v : V) → get m k ≡ none → length (insert m k v) ≡ length m + 1
  unfolding insert get
  length-insert [] k v h = refl
  length-insert ((j, w) ∷ m) k v h = elim (Bool-cases (eqb j k)) [
    | inl same ↦ absurd (ground arith)
    | inr other ↦ ground (arith, length-insert m k v)
  ]

  pub length-remove :
      (m : Map K V) (k : K) {v : V}
      → get m k ≡ some v
      → is_distinct m ≡ true
      → length (remove m k) + 1 ≡ length m
  unfolding remove get is_distinct
  length-remove [] k h d = absurd (ground arith)
  length-remove ((j, w) ∷ m) k {v} h d = elim (Bool-cases (eqb j k)) [
    | inl same ↦ let s : Path K j k = (e.beq_iff j k).0 same in ground (arith, remove-none m k)
    | inr other ↦ ground (arith, length-remove m k {v = v})
  ]

  pub no_key-empty : (m : Map K V) → ((k : K) → get m k ≡ none) → m ≡ []
  unfolding get
  no_key-empty [] h = refl
  no_key-empty ((j, w) ∷ m) h = absurd (ground (arith, h j, e.beq_iff j j))
