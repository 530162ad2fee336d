-- ===== src/Controller/Policy/Denied.antt =====
-- What `allowed` permits, and that a refusal is final.
use rps.Base.{
  ℕ, ◌≡◌, refl, ◌↔◌, ◌⊎◌, inl, inr, Bool, true, false, Option, none, some, List, [], ◌∷◌, eqb,
  arith, Option-cases, if◌then◌else◌, ◌+◌, ◌%◌, ◌^◌, ◌||◌,
}
use rps.Base.Int.{ℤ}
use rps.Base.Words.{saturating_add}
use rps.Base.Map.{get, insert, get-insert, get-remove}
use rps.Controller.Policy.{
  ResourceKey, PolicyState, PolicyEnforcer, RevokeEvent, RevokeReason, Step, Steps, done, further,
  key_eq, key_beq_iff, is_past, is_exhausted, allowed, register, unregister, revoke_once,
  record_usage, record_route_usage, resource_key_from_route, add_usage, expire_entry,
  expire_entries, expired_keys, asks, records, expires, registers, removes, takes, expired,
  traffic_exhausted,
}

-- A policy that is not revoked, before its expiry and below its limit.
abbrev pub IsPermitting : ℤ → PolicyState → Type 0
IsPermitting now p =
    (p.revoked ≡ false)
    × (is_past now p.expires_at ≡ false)
    × (is_exhausted p.used_bytes p.traffic_limit_bytes ≡ false)

-- `allowed` says yes exactly if no policy is registered under the key or the policy is not revoked,
-- before its expiry and below its limit; a yes changes nothing.
pub allowed_lem :
    (e : PolicyEnforcer) (now : ℤ) (key : ResourceKey)
    → (((allowed e now key).0 ≡ true) ↔ (
        (get e.policies key ≡ none)
        ⊎ ((p : PolicyState) × (get e.policies key ≡ some p) × IsPermitting now p)))
      × ((allowed e now key).0 ≡ true → (allowed e now key).1 ≡ e)
unfolding allowed
allowed_lem e now key = elim (Option-cases (get e.policies key)) [
  | inl absent ↦ rw (absent, allowed) ((λ _. inl refl, λ _. refl), λ _. refl)
  | inr (p, found) ↦ ((λ h. inr (p, found, ground arith), λ h. ground arith), λ h. ground arith)
]

abbrev pub is_revoked : Option PolicyState → Bool
is_revoked none = false
is_revoked (some p) = p.revoked

pub get-revoke_once :
    (e : PolicyEnforcer) (k j : ResourceKey) (p : PolicyState) (r : RevokeReason)
    → get e.policies k ≡ some p
    → get (revoke_once e k p r).policies j
      ≡ (if eqb k j then some (record p { revoked = true }) else get e.policies j)
unfolding revoke_once
get-revoke_once e k j p r h =
    ground (arith, key_beq_iff k j, get-insert e.policies k j (record p { revoked = true }))

allowed_revokes :
    (e : PolicyEnforcer) (now : ℤ) (key : ResourceKey)
    → (allowed e now key).0 ≡ false
    → is_revoked (get (allowed e now key).1.policies key) ≡ true
unfolding allowed
allowed_revokes e now key h = elim (Option-cases (get e.policies key)) [
  | inl absent ↦ absurd (ground arith)
  | inr (p, found) ↦ ground (
    arith,
    key_beq_iff key key,
    get-revoke_once e key key p expired found,
    get-revoke_once e key key p traffic_exhausted found,
  )
]

allowed_keeps :
    (e : PolicyEnforcer) (now : ℤ) (k j : ResourceKey)
    → is_revoked (get e.policies j) ≡ true
    → is_revoked (get (allowed e now k).1.policies j) ≡ true
unfolding allowed
allowed_keeps e now k j h = elim (Option-cases (get e.policies k)) [
  | inl absent ↦ ground arith
  | inr (p, found) ↦ ground (
    arith,
    key_beq_iff k j,
    get-revoke_once e k j p expired found,
    get-revoke_once e k j p traffic_exhausted found,
  )
]

pub get-add_usage :
    (e : PolicyEnforcer) (k j : ResourceKey) (p : PolicyState) (delta : ℕ)
    → get (add_usage e k p delta).policies j ≡ (
        if eqb k j
        then some (record p {
          used_bytes = (p.used_bytes + delta) % 2 ^ 64;
          revoked =
              p.revoked || is_exhausted (saturating_add p.used_bytes delta) p.traffic_limit_bytes;
        })
        else get e.policies j)
unfolding add_usage revoke_once
get-add_usage e k j p delta =
    let counted : PolicyState = record p { used_bytes = (p.used_bytes + delta) % 2 ^ 64 } in
    let stored = insert e.policies k counted in
    ground (
      arith,
      key_beq_iff k j,
      get-insert e.policies k j counted,
      get-insert stored k j (record counted { revoked = true }),
    )

record_usage_keeps :
    (e : PolicyEnforcer) (k j : ResourceKey) (rx tx : ℕ)
    → is_revoked (get e.policies j) ≡ true
    → is_revoked (get (record_usage e k rx tx).policies j) ≡ true
unfolding record_usage
record_usage_keeps e k j rx tx h = elim (Option-cases (get e.policies k)) [
  | inl absent ↦ ground arith
  | inr (p, found) ↦ ground (arith, key_beq_iff k j, get-add_usage e k j p (saturating_add rx tx))
]

expire_entry_keeps :
    (now : ℤ) (k : ResourceKey) (e : PolicyEnforcer) (j : ResourceKey)
    → is_revoked (get e.policies j) ≡ true
    → is_revoked (get (expire_entry now k e).1.policies j) ≡ true
unfolding expire_entry
expire_entry_keeps now k e j h = elim (Option-cases (get e.policies k)) [
  | inl absent ↦ ground arith
  | inr (p, found) ↦ ground (arith, key_beq_iff k j, get-revoke_once e k j p expired found)
]

expire_entries_keeps :
    (now : ℤ) (ks : List ResourceKey) (e : PolicyEnforcer) (j : ResourceKey)
    → is_revoked (get e.policies j) ≡ true
    → is_revoked (get (expire_entries now ks e).1.policies j) ≡ true
unfolding expire_entries
expire_entries_keeps now [] e j h = h
expire_entries_keeps now (k ∷ ks) e j h =
    expire_entries_keeps now ks (expire_entry now k e).1 j (expire_entry_keeps now k e j h)

Step-keeps :
    {key : ResourceKey} {e e' : PolicyEnforcer} {taken : List RevokeEvent}
    → Step key e taken e'
    → is_revoked (get e.policies key) ≡ true
    → is_revoked (get e'.policies key) ≡ true
unfolding record_route_usage expired_keys register unregister
Step-keeps {key} {e} (asks now k) h = allowed_keeps e now k key h
Step-keeps {key} {e} (records route_id rx tx) h =
    elim (Option-cases (resource_key_from_route route_id)) [
      | inl absent ↦ ground arith
      | inr (k, found) ↦ ground (arith, record_usage_keeps e k key rx tx h)
    ]
Step-keeps {key} {e} (expires now) h = expire_entries_keeps now _ e key h
Step-keeps {key} {e} (registers k expires_at limit used other) h =
    let fresh : PolicyState = record {
      expires_at = expires_at;
      traffic_limit_bytes = limit;
      used_bytes = used;
      revoked = false;
    } in
    ground (arith, get-insert e.policies k key fresh)
Step-keeps {key} {e} (removes k other) h = ground (arith, get-remove e.policies k key)
Step-keeps (takes event rest queued) h = h

pub Steps-keeps :
    {key : ResourceKey} {e e' : PolicyEnforcer} {taken : List RevokeEvent}
    → Steps key e taken e'
    → is_revoked (get e.policies key) ≡ true
    → is_revoked (get e'.policies key) ≡ true
Steps-keeps done h = h
Steps-keeps (further steps last) h = Step-keeps last (Steps-keeps steps h)

-- A tunnel or an account that was refused once is refused for good: whatever is asked, recorded,
-- expired, or registered and removed under other keys afterwards, and whatever the clock says then,
-- the answer stays no until the key itself is registered or removed.
pub refused_stays_refused :
    (e e' : PolicyEnforcer) (now later : ℤ) (key : ResourceKey) (taken : List RevokeEvent)
    → (allowed e now key).0 ≡ false
    → Steps key (allowed e now key).1 taken e'
    → (allowed e' later key).0 ≡ false
refused_stays_refused e e' now later key taken h steps =
    let kept = Steps-keeps steps (allowed_revokes e now key h) in
    unfold allowed in
    elim (Option-cases (get e'.policies key)) [
      | inl absent ↦ absurd (ground arith)
      | inr (p, found) ↦ ground arith
    ]
