-- ===== src/Controller/ProxyManager/Revoked.antt =====
-- Which sessions a revocation of an account ends.
use rps.Base.{
  ◌≡◌, refl, ap, inl, inr, false, ◌&&◌, Option, none, some, List, [], ◌∷◌, if◌then◌else◌, length,
  eqb, nat_eq, list_eq, list_beq_iff, arith, Option-cases,
}
use rps.Base.Text.{Text}
use rps.Base.Map.{Map, get, keys, get-remove}
use rps.Base.Map.Keys.{contains, contains-keys}
use rps.Controller.ProxyManager.{
  ProxySessionEntry, ProxyManager, is_of, ids_of, session_ids, revoke_session, revoke_sessions,
  revoke_account, active_count,
}

contains-ids_of :
    (sessions : Map Text ProxySessionEntry) (account_id : Text) (ids : List Text) (id : Text)
    → contains (ids_of sessions account_id ids) id
      ≡ (contains ids id && is_of account_id (get sessions id))
unfolding ids_of
contains-ids_of sessions account_id [] id = refl
contains-ids_of sessions account_id (i ∷ ids) id =
    ground (arith, list_beq_iff i id, contains-ids_of sessions account_id ids id)

pub contains-session_ids :
    (sessions : Map Text ProxySessionEntry) (account_id id : Text)
    → contains (session_ids sessions account_id) id ≡ is_of account_id (get sessions id)
contains-session_ids sessions account_id id = elim (Option-cases (get sessions id)) [
  | inl absent ↦ ground (arith, contains-ids_of sessions account_id (keys sessions) id)
  | inr (entry, found) ↦
      ground
        (arith, contains-ids_of sessions account_id (keys sessions) id, contains-keys sessions id)
]

get-revoke_session :
    (m : ProxyManager) (id j : Text)
    → get (revoke_session m id).sessions j ≡ (if eqb id j then none else get m.sessions j)
unfolding revoke_session
get-revoke_session m id j = elim (Option-cases (get m.sessions id)) [
  | inl absent ↦ ground (arith, list_beq_iff id j)
  | inr (entry, found) ↦ ground (arith, get-remove m.sessions id j)
]

get-revoke_sessions :
    (ids : List Text) (m : ProxyManager) (j : Text)
    → get (revoke_sessions ids m).sessions j ≡ (if contains ids j then none else get m.sessions j)
unfolding revoke_sessions
get-revoke_sessions [] m j = refl
get-revoke_sessions (id ∷ ids) m j =
    ground (arith, get-revoke_sessions ids (revoke_session m id) j, get-revoke_session m id j)

abbrev pub without : Text → Option ProxySessionEntry → Option ProxySessionEntry
without account_id none = none
without account_id (some entry) = if eqb entry.account_id account_id then none else some entry

pub get-revoke_account :
    (m : ProxyManager) (account_id id : Text)
    → get (revoke_account m account_id).1.sessions id ≡ without account_id (get m.sessions id)
unfolding revoke_account
get-revoke_account m account_id id =
    let e = get-revoke_sessions (session_ids m.sessions account_id) m id in
    let c = contains-session_ids m.sessions account_id id in
    elim (Option-cases (get m.sessions id)) [
      | inl absent ↦ ground arith
      | inr (entry, found) ↦ ground arith
    ]

ids_of-none :
    (sessions : Map Text ProxySessionEntry) (account_id : Text) (ids : List Text)
    → ((id : Text) → is_of account_id (get sessions id) ≡ false)
    → ids_of sessions account_id ids ≡ []
unfolding ids_of
ids_of-none sessions account_id [] h = refl
ids_of-none sessions account_id (id ∷ ids) h =
    rw (h id, if◌then◌else◌) (ids_of-none sessions account_id ids h)

pub active_count-revoke_account :
    (m : ProxyManager) (account_id : Text)
    → active_count (revoke_account m account_id).1 account_id ≡ 0
unfolding active_count
active_count-revoke_account m account_id = ap length (
    ids_of-none (revoke_account m account_id).1.sessions account_id _ (λ id.
      elim (Option-cases (get m.sessions id)) [
        | inl absent ↦ ground (arith, get-revoke_account m account_id id)
        | inr (entry, found) ↦ ground (arith, get-revoke_account m account_id id)
      ]))
