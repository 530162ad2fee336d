-- ===== src/Controller/ProxyManager/InBounds.antt =====
-- The listed sessions hold signals that exist.
use rps.Base.{
  ◌<◌, ◌≡◌, inl, inr, true, false, Option, none, some, List, [], ◌∷◌, length, eqb, nat_eq, list_eq,
  arith, Option-cases, Bool-cases, length-append, length-set,
}
use rps.Base.Text.{Text}
use rps.Base.Map.{get, get-insert, get-remove}
use rps.Controller.ProxyManager.{
  ProxySessionEntry, ProxySessionGuard, ProxyManager, entry_of, register, session_ids,
  revoke_session, revoke_sessions, revoke_account, drop_guard, Reach, new, fresh, registers,
  revokes, drops,
}

abbrev pub InBounds : ProxyManager → Type 0
InBounds m =
    (id : Text) (entry : ProxySessionEntry)
    → get m.sessions id ≡ some entry
    → entry.shutdown < length m.signals

register-InBounds :
    (m : ProxyManager) (account_id : Option Text) (id : Text)
    → InBounds m
    → InBounds (register m account_id id).1
unfolding register
register-InBounds m none id h j entry found =
    omega (arith, length-append m.signals (false ∷ []), h j entry found)
register-InBounds m (some a) id h j entry found =
    let more = length-append m.signals (false ∷ []) in
    elim (Bool-cases (eqb id j)) [
      | inl same ↦ ground (arith, get-insert m.sessions id j (entry_of m a))
      | inr other ↦
          let old : get m.sessions j ≡ some entry =
            ground (arith, get-insert m.sessions id j (entry_of m a)) in
          omega (arith, h j entry old)
    ]

revoke_session-InBounds :
    (m : ProxyManager) (id : Text) → InBounds m → InBounds (revoke_session m id)
unfolding revoke_session
revoke_session-InBounds m id h j entry found = elim (Option-cases (get m.sessions id)) [
  | inl absent ↦ ground (arith, h j entry)
  | inr (s, got) ↦
      let old : get m.sessions j ≡ some entry = ground (arith, get-remove m.sessions id j) in
      ground (arith, h j entry old, length-set m.signals s.shutdown true)
]

revoke_sessions-InBounds :
    (ids : List Text) (m : ProxyManager) → InBounds m → InBounds (revoke_sessions ids m)
unfolding revoke_sessions
revoke_sessions-InBounds [] m h = h
revoke_sessions-InBounds (id ∷ ids) m h =
    revoke_sessions-InBounds ids (revoke_session m id) (revoke_session-InBounds m id h)

drop_guard-InBounds :
    (m : ProxyManager) (guard : ProxySessionGuard) → InBounds m → InBounds (drop_guard m guard)
unfolding drop_guard
drop_guard-InBounds m guard h j entry found = elim (Option-cases guard.id) [
  | inl absent ↦ ground (arith, h j entry)
  | inr (id, got) ↦
      let old : get m.sessions j ≡ some entry = ground (arith, get-remove m.sessions id j) in
      ground (arith, h j entry old)
]

pub Reach-InBounds : {m : ProxyManager} → Reach m → InBounds m
unfolding new get revoke_account
Reach-InBounds fresh = λ id entry found. absurd (ground arith)
Reach-InBounds (registers {m} a id reach) = register-InBounds m a id (Reach-InBounds reach)
Reach-InBounds (revokes {m} a reach) =
    revoke_sessions-InBounds (session_ids m.sessions a) m (Reach-InBounds reach)
Reach-InBounds (drops {m} guard reach) = drop_guard-InBounds m guard (Reach-InBounds reach)
