-- ===== src/Controller/App/Revocation.antt =====
-- What a tick of the revoking task does.
use rps.Base.{
  ◌≡◌, refl, ◌∙◌, inl, inr, Bool, true, false, ◌||◌, not, ◌&&◌, Option, none, some, List, [], ◌∷◌,
  ◌++◌, if◌then◌else◌, eqb, nat_eq, list_eq, arith, Option-cases, Bool-cases,
}
use rps.Base.Int.{ℤ}
use rps.Base.Map.{Map, get, keys}
use rps.Controller.Policy.{
  ResourceKey, RevokeReason, expired, PolicyState, PolicyEnforcer, is_past, expire_entry,
  expire_entries, expired_keys, key_eq, key_beq_iff,
}
use rps.Controller.Policy.Denied.{get-revoke_once}

-- A policy is registered that has expired and is not revoked yet.
abbrev pub is_due : ℤ → Option PolicyState → Bool
is_due now none = false
is_due now (some p) = is_past now p.expires_at && not p.revoked

abbrev pub names : List (ResourceKey × RevokeReason) → ResourceKey → Bool
names [] key = false
names ((k, r) ∷ ks) key = eqb k key || names ks key

abbrev contains : List ResourceKey → ResourceKey → Bool
contains [] key = false
contains (k ∷ ks) key = eqb k key || contains ks key

contains-keys :
    (policies : Map ResourceKey PolicyState) (key : ResourceKey) {p : PolicyState}
    → get policies key ≡ some p
    → contains (keys policies) key ≡ true
unfolding get
contains-keys [] key h = absurd (ground arith)
contains-keys ((j, q) ∷ policies) key {p} h = elim (Bool-cases (eqb j key)) [
  | inl same ↦ ground arith
  | inr other ↦ let h' = contains-keys policies key {p = p} (ground arith) in ground arith
]

expire_entry-due :
    (now : ℤ) (k : ResourceKey) (e : PolicyEnforcer) (key : ResourceKey)
    → (names (expire_entry now k e).0 key ≡ (eqb k key && is_due now (get e.policies key)))
      × (is_due now (get (expire_entry now k e).1.policies key)
          ≡ (not (eqb k key) && is_due now (get e.policies key)))
unfolding expire_entry
expire_entry-due now k e key = elim (Option-cases (get e.policies k)) [
  | inl absent ↦ ground (arith, key_beq_iff k key)
  | inr (p, found) ↦ ground (arith, key_beq_iff k key, get-revoke_once e k key p expired found)
]

names-append :
    (xs ys : List (ResourceKey × RevokeReason)) (key : ResourceKey)
    → names (xs ++ ys) key ≡ (names xs key || names ys key)
names-append [] ys key = refl
names-append ((k, r) ∷ xs) ys key = ground (arith, names-append xs ys key)

names-expire_entries :
    (now : ℤ) (ks : List ResourceKey) (e : PolicyEnforcer) (key : ResourceKey)
    → names (expire_entries now ks e).0 key ≡ (contains ks key && is_due now (get e.policies key))
unfolding expire_entries
names-expire_entries now [] e key = refl
names-expire_entries now (k ∷ ks) e key =
    let (here, left) = expire_entry-due now k e key in
    let rest = names-expire_entries now ks (expire_entry now k e).1 key in
    names-append (expire_entry now k e).0 _ key ∙ ground arith

pub names-expired_keys :
    (e : PolicyEnforcer) (now : ℤ) (key : ResourceKey)
    → names (expired_keys e now).0 key ≡ is_due now (get e.policies key)
unfolding expired_keys
names-expired_keys e now key = elim (Option-cases (get e.policies key)) [
  | inl absent ↦ ground (arith, names-expire_entries now (keys e.policies) e key)
  | inr (p, found) ↦ ground (
    arith,
    names-expire_entries now (keys e.policies) e key,
    contains-keys e.policies key {p = p} found,
  )
]

abbrev pub AreExpired : List (ResourceKey × RevokeReason) → Type 0
AreExpired [] = Unit
AreExpired ((k, r) ∷ ks) = (r ≡ expired) × AreExpired ks

AreExpired-append :
    (xs ys : List (ResourceKey × RevokeReason))
    → AreExpired xs
    → AreExpired ys
    → AreExpired (xs ++ ys)
AreExpired-append [] ys h k = k
AreExpired-append (x ∷ xs) ys h k = (h.0, AreExpired-append xs ys h.1 k)

expire_entry-AreExpired :
    (now : ℤ) (k : ResourceKey) (e : PolicyEnforcer) → AreExpired (expire_entry now k e).0
unfolding expire_entry
expire_entry-AreExpired now k e = elim (Option-cases (get e.policies k)) [
  | inl absent ↦ rw (absent, expire_entry) tt
  | inr (p, found) ↦
      rw (found, expire_entry)
        (elim (Bool-cases (is_past now p.expires_at && not p.revoked)) [
          | inl due ↦ rw (due, if◌then◌else◌) (refl, tt)
          | inr other ↦ rw (other, if◌then◌else◌) tt
        ])
]

expire_entries-AreExpired :
    (now : ℤ) (ks : List ResourceKey) (e : PolicyEnforcer) → AreExpired (expire_entries now ks e).0
unfolding expire_entries
expire_entries-AreExpired now [] e = tt
expire_entries-AreExpired now (k ∷ ks) e =
    AreExpired-append (expire_entry now k e).0 _ (expire_entry-AreExpired now k e)
      (expire_entries-AreExpired now ks (expire_entry now k e).1)

pub expired_keys-AreExpired : (e : PolicyEnforcer) (now : ℤ) → AreExpired (expired_keys e now).0
unfolding expired_keys
expired_keys-AreExpired e now = expire_entries-AreExpired now (keys e.policies) e
