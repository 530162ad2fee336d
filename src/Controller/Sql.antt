-- ===== src/Controller/Sql.antt =====
-- The SQL statements of crates/rps-controller/src/db.rs on tables, which are lists of rows in the
-- order of insertion: `where` is a test on rows.
use rps.Base.{
  ℕ, ◌+◌, ◌≤◌, ◌≡◌, refl, inl, inr, Bool, true, false, ◌||◌, Option, none, some, List, [], ◌∷◌,
  ◌++◌, if◌then◌else◌, arith, Bool-cases, subst, All,
}

module _ {ℓ} {R : Type ℓ} where
  -- `select ... where`, one row of it
  unfoldable pub fetch_optional : (R → Bool) → List R → Option R
  fetch_optional p [] = none
  fetch_optional p (r ∷ rs) = let rest = fetch_optional p rs in if p r then some r else rest

  -- `select ... where`, all of it
  unfoldable pub fetch_all : (R → Bool) → List R → List R
  fetch_all p [] = []
  fetch_all p (r ∷ rs) = let rest = fetch_all p rs in if p r then r ∷ rest else rest

  -- `select count(*) ... where`, and `rows_affected`
  unfoldable pub count_where : (R → Bool) → List R → ℕ
  count_where p [] = 0
  count_where p (r ∷ rs) = let rest = count_where p rs in if p r then 1 + rest else rest

  -- Whether a row stands in the way of a unique constraint.
  unfoldable pub has_row : (R → Bool) → List R → Bool
  has_row p [] = false
  has_row p (r ∷ rs) = p r || has_row p rs

  unfoldable pub update_where : (R → Bool) → (R → R) → List R → List R
  update_where p f [] = []
  update_where p f (r ∷ rs) = (if p r then f r else r) ∷ update_where p f rs

  unfoldable pub delete_where : (R → Bool) → List R → List R
  delete_where p [] = []
  delete_where p (r ∷ rs) = let rest = delete_where p rs in if p r then rest else r ∷ rest

  -- `order by`: a row goes before the first that it does not follow.
  unfoldable pub insert_ordered : (R → R → Bool) → R → List R → List R
  insert_ordered before x [] = x ∷ []
  insert_ordered before x (r ∷ rs) =
      if before x r then x ∷ r ∷ rs else r ∷ insert_ordered before x rs

  unfoldable pub order_by : (R → R → Bool) → List R → List R
  order_by before [] = []
  order_by before (r ∷ rs) = insert_ordered before r (order_by before rs)

  pub fetch_optional-append :
      (p : R → Bool) (rs : List R) (r : R)
      → has_row p rs ≡ false
      → fetch_optional p (rs ++ r ∷ []) ≡ (if p r then some r else none)
  unfolding fetch_optional has_row
  fetch_optional-append p [] r h = refl
  fetch_optional-append p (x ∷ rs) r h = ground (arith, fetch_optional-append p rs r)

  -- A row that the test does not choose changes no answer.
  pub fetch_optional-append_other :
      (p : R → Bool) (rs : List R) (r : R)
      → p r ≡ false
      → fetch_optional p (rs ++ r ∷ []) ≡ fetch_optional p rs
  unfolding fetch_optional
  fetch_optional-append_other p [] r h = ground arith
  fetch_optional-append_other p (x ∷ rs) r h = ground (arith, fetch_optional-append_other p rs r)

  -- An update that keeps what the test reads.
  pub fetch_optional-update_where :
      (q p : R → Bool) (f : R → R) (rs : List R)
      → ((r : R) → q (f r) ≡ q r)
      → fetch_optional q (update_where p f rs)
        ≡ elim (fetch_optional q rs) [ none ↦ none | some r ↦ if p r then some (f r) else some r ]
  unfolding fetch_optional update_where
  fetch_optional-update_where q p f [] h = refl
  fetch_optional-update_where q p f (x ∷ rs) h =
      ground (arith, h x, fetch_optional-update_where q p f rs h)

  -- An update leaves alone what the test chooses.
  pub fetch_optional-update_where_other :
      (q p : R → Bool) (f : R → R) (rs : List R)
      → ((r : R) → q (f r) ≡ q r)
      → ((r : R) → q r ≡ true → p r ≡ false)
      → fetch_optional q (update_where p f rs) ≡ fetch_optional q rs
  unfolding fetch_optional update_where
  fetch_optional-update_where_other q p f [] h k = refl
  fetch_optional-update_where_other q p f (x ∷ rs) h k =
      ground (arith, h x, k x, fetch_optional-update_where_other q p f rs h k)

  pub fetch_optional-delete_where :
      (p : R → Bool) (rs : List R) → fetch_optional p (delete_where p rs) ≡ none
  unfolding fetch_optional delete_where
  fetch_optional-delete_where p [] = refl
  fetch_optional-delete_where p (x ∷ rs) = ground (arith, fetch_optional-delete_where p rs)

  pub fetch_optional-delete_where_other :
      (q p : R → Bool) (rs : List R)
      → ((r : R) → q r ≡ true → p r ≡ false)
      → fetch_optional q (delete_where p rs) ≡ fetch_optional q rs
  unfolding fetch_optional delete_where
  fetch_optional-delete_where_other q p [] h = refl
  fetch_optional-delete_where_other q p (x ∷ rs) h =
      ground (arith, h x, fetch_optional-delete_where_other q p rs h)

  pub fetch_optional-holds :
      (p : R → Bool) (rs : List R) {r : R} → fetch_optional p rs ≡ some r → p r ≡ true
  unfolding fetch_optional
  fetch_optional-holds p [] h = cc
  fetch_optional-holds p (x ∷ rs) {r} h = ground (arith, fetch_optional-holds p rs {r = r})

  pub has_row-fetch_optional :
      (p : R → Bool) (rs : List R)
      → has_row p rs ≡ elim (fetch_optional p rs) [ none ↦ false | some r ↦ true ]
  unfolding has_row fetch_optional
  has_row-fetch_optional p [] = refl
  has_row-fetch_optional p (x ∷ rs) = ground (arith, has_row-fetch_optional p rs)

  pub count_where-fetch_optional :
      (p : R → Bool) (rs : List R) → fetch_optional p rs ≡ none → count_where p rs ≡ 0
  unfolding count_where fetch_optional
  count_where-fetch_optional p [] h = refl
  count_where-fetch_optional p (x ∷ rs) h = ground (arith, count_where-fetch_optional p rs)

  pub count_where-positive :
      (p : R → Bool) (rs : List R) {r : R} → fetch_optional p rs ≡ some r → 1 ≤ count_where p rs
  unfolding count_where fetch_optional
  count_where-positive p [] h = cc
  count_where-positive p (x ∷ rs) {r} h = ground (arith, count_where-positive p rs {r = r})

  pub count_where-append :
      (p : R → Bool) (rs : List R) (r : R)
      → count_where p (rs ++ r ∷ []) ≡ count_where p rs + (if p r then 1 else 0)
  unfolding count_where
  count_where-append p [] r = ground arith
  count_where-append p (x ∷ rs) r = ground (arith, count_where-append p rs r)

  pub count_where-update_where :
      (q p : R → Bool) (f : R → R) (rs : List R)
      → ((r : R) → q (f r) ≡ q r)
      → count_where q (update_where p f rs) ≡ count_where q rs
  unfolding count_where update_where
  count_where-update_where q p f [] h = refl
  count_where-update_where q p f (x ∷ rs) h =
      ground (arith, h x, count_where-update_where q p f rs h)

  pub count_where-delete_where :
      (q p : R → Bool) (rs : List R) → count_where q (delete_where p rs) ≤ count_where q rs
  unfolding count_where delete_where
  count_where-delete_where q p [] = omega arith
  count_where-delete_where q p (x ∷ rs) = ground (arith, count_where-delete_where q p rs)

  -- `order by` gives the rows in another order and no others.
  count_where-insert_ordered :
      (q : R → Bool) (before : R → R → Bool) (x : R) (rs : List R)
      → count_where q (insert_ordered before x rs) ≡ count_where q (x ∷ rs)
  unfolding count_where insert_ordered
  count_where-insert_ordered q before x [] = refl
  count_where-insert_ordered q before x (r ∷ rs) =
      ground (arith, count_where-insert_ordered q before x rs)

  pub count_where-order_by :
      (q : R → Bool) (before : R → R → Bool) (rs : List R)
      → count_where q (order_by before rs) ≡ count_where q rs
  unfolding count_where order_by
  count_where-order_by q before [] = refl
  count_where-order_by q before (x ∷ rs) = ground (
    arith,
    count_where-insert_ordered q before x (order_by before rs),
    count_where-order_by q before rs,
  )

module _ {ℓ κ} {R : Type ℓ} (P : R → Type κ) where
  pub All-fetch_optional :
      (p : R → Bool) (rs : List R) {r : R} → All P rs → fetch_optional p rs ≡ some r → P r
  unfolding fetch_optional
  All-fetch_optional p [] h e = absurd (ground arith)
  All-fetch_optional p (x ∷ rs) {r} h e = elim (Bool-cases (p x)) [
    | inl here ↦ subst P (ground arith) h.0
    | inr further ↦ All-fetch_optional p rs h.1 (ground arith)
  ]

  pub All-update_where :
      (p : R → Bool) (f : R → R) (rs : List R)
      → ((r : R) → P r → P (f r))
      → All P rs
      → All P (update_where p f rs)
  unfolding update_where
  All-update_where p f [] k h = tt
  All-update_where p f (x ∷ rs) k h = (
    elim (p x) as (λ b. P (if b then f x else x)) [ true ↦ k x h.0 | false ↦ h.0 ],
    All-update_where p f rs k h.1,
  )
