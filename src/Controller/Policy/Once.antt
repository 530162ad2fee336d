-- ===== src/Controller/Policy/Once.antt =====
-- How often a resource is revoked, and when usage revokes it.
use rps.Base.{
  ℕ, ◌+◌, ◌%◌, ◌^◌, ◌≤◌, ◌<◌, ◌≡◌, refl, inl, inr, true, false, Option, none, some, List, [], ◌∷◌,
  ◌++◌, eqb, arith, Option-cases, Bool-cases, if◌then◌else◌, not, ◌==◌, ◌||◌, ◌&&◌, ◌∙◌,
}
use rps.Base.Int.{ℤ}
use rps.Base.Text.{Text}
use rps.Base.Words.{saturating_add}
use rps.Base.Map.{get, insert, get-insert, get-remove}
use rps.Controller.Policy.{
  ResourceKey, PolicyState, PolicyEnforcer, RevokeEvent, RevokeReason, Step, Steps, done, further,
  key_eq, key_beq_iff, is_exhausted, allowed, register, unregister, revoke_once, record_usage,
  record_route_usage, resource_key_from_route, add_usage, expire_entry, expire_entries,
  expired_keys, asks, records, expires, registers, removes, takes, expired, traffic_exhausted,
  try_send,
}
use rps.Controller.Policy.Denied.{get-add_usage}

-- The events of a key among those of a queue.
pub count : ResourceKey → List RevokeEvent → ℕ
count key [] = 0
count key (event ∷ events) = if eqb event.key key then 1 + count key events else count key events

count-append :
    (key : ResourceKey) (xs ys : List RevokeEvent)
    → count key (xs ++ ys) ≡ count key xs + count key ys
unfolding count
count-append key [] ys = omega arith
count-append key (x ∷ xs) ys = ground (arith, count-append key xs ys)

-- Whether one more event of a key may come.
abbrev pub budget : Option PolicyState → ℕ
budget none = 0
budget (some p) = if p.revoked then 0 else 1

pub credit : ResourceKey → PolicyEnforcer → ℕ
credit key e = count key e.revoke_queue + budget (get e.policies key)

credit-revoke_once :
    (e : PolicyEnforcer) (k j : ResourceKey) (p : PolicyState) (r : RevokeReason)
    → get e.policies k ≡ some p
    → credit j (revoke_once e k p r) ≤ credit j e
unfolding credit revoke_once try_send count
credit-revoke_once e k j p r h = ground (
  arith,
  key_beq_iff k j,
  get-insert e.policies k j (record p { revoked = true }),
  count-append j e.revoke_queue (record { key = k; reason = r } ∷ []),
)

credit-allowed :
    (e : PolicyEnforcer) (now : ℤ) (k j : ResourceKey) → credit j (allowed e now k).1 ≤ credit j e
unfolding allowed
credit-allowed e now k j = elim (Option-cases (get e.policies k)) [
  | inl absent ↦ ground arith
  | inr (p, found) ↦ ground (
    arith,
    credit-revoke_once e k j p expired found,
    credit-revoke_once e k j p traffic_exhausted found,
  )
]

credit-expire_entry :
    (now : ℤ) (k : ResourceKey) (e : PolicyEnforcer) (j : ResourceKey)
    → credit j (expire_entry now k e).1 ≤ credit j e
unfolding expire_entry
credit-expire_entry now k e j = elim (Option-cases (get e.policies k)) [
  | inl absent ↦ ground arith
  | inr (p, found) ↦ ground (arith, credit-revoke_once e k j p expired found)
]

credit-expire_entries :
    (now : ℤ) (ks : List ResourceKey) (e : PolicyEnforcer) (j : ResourceKey)
    → credit j (expire_entries now ks e).1 ≤ credit j e
unfolding expire_entries
credit-expire_entries now [] e j = omega arith
credit-expire_entries now (k ∷ ks) e j =
    omega (
      arith,
      credit-expire_entry now k e j,
      credit-expire_entries now ks (expire_entry now k e).1 j,
    )

credit-add_usage :
    (e : PolicyEnforcer) (k j : ResourceKey) (p : PolicyState) (delta : ℕ)
    → get e.policies k ≡ some p
    → credit j (add_usage e k p delta) ≤ credit j e
unfolding credit add_usage revoke_once try_send count
credit-add_usage e k j p delta h =
    let counted : PolicyState = record p { used_bytes = (p.used_bytes + delta) % 2 ^ 64 } in
    let stored = insert e.policies k counted in
    ground (
      arith,
      key_beq_iff k j,
      get-insert e.policies k j counted,
      get-insert stored k j (record counted { revoked = true }),
      count-append j e.revoke_queue (record { key = k; reason = traffic_exhausted } ∷ []),
    )

credit-record_usage :
    (e : PolicyEnforcer) (k j : ResourceKey) (rx tx : ℕ)
    → credit j (record_usage e k rx tx) ≤ credit j e
unfolding record_usage
credit-record_usage e k j rx tx = elim (Option-cases (get e.policies k)) [
  | inl absent ↦ ground arith
  | inr (p, found) ↦ ground (arith, credit-add_usage e k j p (saturating_add rx tx) found)
]

credit-Step :
    {key : ResourceKey} {e e' : PolicyEnforcer} {taken : List RevokeEvent}
    → Step key e taken e'
    → count key taken + credit key e' ≤ credit key e
unfolding record_route_usage expired_keys register unregister
credit-Step {key} {e} (asks now k) = unfold count in omega (arith, credit-allowed e now k key)
credit-Step {key} {e} (records route_id rx tx) =
    unfold count in
    elim (Option-cases (resource_key_from_route route_id)) [
      | inl absent ↦ ground arith
      | inr (k, found) ↦ ground (arith, credit-record_usage e k key rx tx)
    ]
credit-Step {key} {e} (expires now) =
    unfold count in omega (arith, credit-expire_entries now _ e key)
credit-Step {key} {e} (registers k expires_at limit used other) =
    unfold count credit in
    let fresh : PolicyState = record {
      expires_at = expires_at;
      traffic_limit_bytes = limit;
      used_bytes = used;
      revoked = false;
    } in
    ground (arith, get-insert e.policies k key fresh)
credit-Step {key} {e} (removes k other) =
    unfold count credit in ground (arith, get-remove e.policies k key)
credit-Step {key} {e} (takes event rest queued) = unfold count credit in rw queued (ground arith)

credit-Steps :
    {key : ResourceKey} {e e' : PolicyEnforcer} {taken : List RevokeEvent}
    → Steps key e taken e'
    → count key taken + credit key e' ≤ credit key e
credit-Steps done = unfold count in omega arith
credit-Steps {key} (further {e''} {taken = taken} {more} steps last) =
    omega (arith, count-append key taken more, credit-Step last, credit-Steps steps)

-- Between two registrations of a tunnel or an account, at most one event that revokes it is ever
-- queued, whatever else happens: the events taken in the meantime and those still waiting are at
-- most those that were waiting before and one more, and no more at all if it was revoked already.
pub revoked_at_most_once :
    (key : ResourceKey) (e e' : PolicyEnforcer) (taken : List RevokeEvent)
    → Steps key e taken e'
    → count key taken + count key e'.revoke_queue + budget (get e'.policies key)
      ≤ count key e.revoke_queue + budget (get e.policies key)
revoked_at_most_once key e e' taken steps = unfold credit in omega (arith, credit-Steps steps)

-- Usage that is recorded on a route counts for the resource that the route names, if it has a policy
-- and the usage is not nothing: its counter grows by the bytes of both directions, and its policy is
-- revoked if the sum reaches the limit (or was revoked before). No other policy changes. The sums
-- are assumed to fit 64 bits.
pub record_route_usage_lem :
    (e : PolicyEnforcer) (route_id : Text) (rx tx : ℕ) (key j : ResourceKey) (p : PolicyState)
    → resource_key_from_route route_id ≡ some key
    → get e.policies key ≡ some p
    → p.used_bytes + rx + tx < 2 ^ 64
    → get (record_route_usage e route_id rx tx).policies j ≡ (
        if eqb key j
        then some (record p {
          used_bytes = p.used_bytes + rx + tx;
          revoked =
              p.revoked
              || (not ((rx + tx) == 0)
                  && is_exhausted (p.used_bytes + rx + tx) p.traffic_limit_bytes);
        })
        else get e.policies j)
unfolding record_route_usage record_usage
record_route_usage_lem e route_id rx tx key j p named found fits =
    let delta : saturating_add rx tx ≡ rx + tx = omega arith in
    let whole : saturating_add p.used_bytes (rx + tx) ≡ p.used_bytes + rx + tx = omega arith in
    let stored : (p.used_bytes + (rx + tx)) % 2 ^ 64 ≡ p.used_bytes + rx + tx = omega arith in
    rw (named, record_route_usage)
      (rw (found, record_usage)
        (rw delta (elim (Bool-cases (rx + tx == 0)) [
          | inl idle ↦ ground (arith, key_beq_iff key j)
          | inr busy ↦
              rw (busy, if◌then◌else◌) (get-add_usage e key j p (rx + tx) ∙ rw (whole, stored) refl)
        ])))
