-- ===== src/Controller/App/Tick.antt =====
-- What a tick of the revoking task leaves of the tunnels and accounts that have expired.
use rps.Base.{
  ◌≡◌, refl, ◌∙◌, sym, inl, inr, Bool, not, ◌&&◌, none, some, List, [], ◌∷◌, if◌then◌else◌, eqb,
  nat_eq, list_eq, list_beq_iff, arith, Option-cases, Bool-cases, ok,
}
use rps.Base.Int.{ℤ}
use rps.Base.Text.{Text, text}
use rps.Base.Map.{get, get-remove}
use rps.Controller.Policy.{
  ResourceKind, tunnel, proxy_account, ResourceKey, RevokeReason, as_str, expired, expired_keys,
  proxy_account_key, key_eq,
}
use rps.Controller.Db.{DbTunnel, DbProxyAccount}
use rps.Controller.Db.Tunnels.{get_tunnel, disable_tunnel}
use rps.Controller.Db.Tunnels.Store.{disabled}
use rps.Controller.Db.ProxyAccounts.{get_proxy_account}
use rps.Controller.TunnelManager.{TunnelManager, stop}
use rps.Controller.ProxyManager.{is_of, revoke_account}
use rps.Controller.ProxyManager.Revoked.{get-revoke_account}
use rps.Controller.Db.ProxyAccounts.Disabled
use rps.Controller.Db.ProxyAccounts.Disabled.{
  get_proxy_account-disable_proxy_account, get_proxy_account-disable_other,
}
use rps.Controller.App.{AppState, revoke_resource, revoke, revoke_keys, tick}
use rps.Controller.App.Revocation.{
  is_due, names, names-expired_keys, AreExpired, expired_keys-AreExpired,
}

pub get-stop :
    (m : TunnelManager) (id j : Text)
    → get (stop m id).1.running j ≡ (if eqb id j then none else get m.running j)
unfolding stop
get-stop m id j = elim (Option-cases (get m.running id)) [
  | inl absent ↦ ground (arith, list_beq_iff id j)
  | inr (r, found) ↦ ground (arith, get-remove m.running id j)
]

-- What `s'` has of the tunnel `id`, if `s` has `t` and it was revoked or not.
record TunnelAfter (id : Text) (t : DbTunnel) (hit : Bool) (s s' : AppState) : Type 0 where
  stored : get_tunnel s'.db id ≡ ok (some (if hit then disabled (text "expired") t else t))
  runs : get s'.tunnel_manager.running id ≡ (if hit then none else get s.tunnel_manager.running id)

-- What `s'` has of the account `id`, likewise.
record AccountAfter (id : Text) (a : DbProxyAccount) (hit : Bool) (s s' : AppState) : Type 0 where
  stored :
      get_proxy_account s'.db id
      ≡ ok (some (if hit then Disabled.disabled (text "expired") a else a))
  sessions :
      (session_id : Text)
      → is_of id (get s'.proxy_manager.sessions session_id)
        ≡ (not hit && is_of id (get s.proxy_manager.sessions session_id))

revoke_resource-AccountAfter :
    (now : ℤ) (kind : ResourceKind) (i : Text) (s : AppState) (id : Text) (a : DbProxyAccount)
    → get_proxy_account s.db id ≡ ok (some a)
    → AccountAfter id a
        (eqb (record { kind = kind; id = i }) (proxy_account_key id))
        s
        (revoke_resource now kind i expired s)
unfolding revoke_resource as_str
revoke_resource-AccountAfter now tunnel i s id a h = record {
  stored = unfold get_proxy_account disable_tunnel in h;
  sessions = λ session_id. refl;
}
revoke_resource-AccountAfter now proxy_account i s id a h =
    let sessions : (session_id : Text)
        → is_of id (get (revoke_account s.proxy_manager i).1.sessions session_id)
          ≡ (not (eqb i id) && is_of id (get s.proxy_manager.sessions session_id)) =
      λ session_id.
        let e = get-revoke_account s.proxy_manager i session_id in
        elim (Option-cases (get s.proxy_manager.sessions session_id)) [
          | inl absent ↦ ground arith
          | inr (entry, found) ↦ ground (
            arith,
            list_beq_iff i id,
            list_beq_iff entry.account_id i,
            list_beq_iff entry.account_id id,
          )
        ] in
    elim (Bool-cases (eqb i id)) [
      | inl same ↦
          let mine = get_proxy_account-disable_proxy_account s.db now i (text "expired") a in
          record { stored = ground (arith, mine, list_beq_iff i id); sessions = sessions }
      | inr other ↦
          let others = get_proxy_account-disable_other s.db now i (text "expired") id other in
          record { stored = ground (arith, others); sessions = sessions }
    ]

revoke_keys-AccountAfter :
    (now : ℤ) (ks : List (ResourceKey × RevokeReason)) (s : AppState) (id : Text)
    (a : DbProxyAccount)
    → AreExpired ks
    → get_proxy_account s.db id ≡ ok (some a)
    → AccountAfter id a (names ks (proxy_account_key id)) s (revoke_keys now ks s)
unfolding revoke_keys revoke
revoke_keys-AccountAfter now [] s id a all h = record { stored = h; sessions = λ _. refl }
revoke_keys-AccountAfter now ((key, reason) ∷ ks) s id a all h = rw all.0 (
    let next = revoke_resource now key.kind key.id expired s in
    let first = revoke_resource-AccountAfter now key.kind key.id s id a h in
    elim (Bool-cases (eqb key (proxy_account_key id))) [
      | inl hit ↦
          let there : get_proxy_account next.db id
              ≡ ok (some (Disabled.disabled (text "expired") a)) =
            first.stored ∙ rw (hit, if◌then◌else◌) refl in
          let rest =
            revoke_keys-AccountAfter now ks next id (Disabled.disabled (text "expired") a) all.1
              there in
          record {
            stored = ground (arith, rest.stored);
            sessions = λ i. ground (arith, rest.sessions i, first.sessions i);
          }
      | inr other ↦
          let there : get_proxy_account next.db id ≡ ok (some a) =
            first.stored ∙ rw (other, if◌then◌else◌) refl in
          let rest = revoke_keys-AccountAfter now ks next id a all.1 there in
          record {
            stored = ground (arith, rest.stored);
            sessions = λ i. ground (arith, rest.sessions i, first.sessions i);
          }
    ])

-- A tick shuts out exactly the accounts that are due: of an account that is stored, whose policy has
-- expired and was not revoked before, the row is disabled with the reason "expired" and no session
-- is left in the proxies; any other account that is stored stays as it is, with its sessions.
pub tick-accounts :
    (now : ℤ) (s : AppState) (id : Text) (a : DbProxyAccount)
    → get_proxy_account s.db id ≡ ok (some a)
    → let due = is_due now (get s.policy.policies (proxy_account_key id)) in
      (get_proxy_account (tick now s).db id
        ≡ ok (some (if due then Disabled.disabled (text "expired") a else a)))
      × ((session_id : Text)
          → is_of id (get (tick now s).proxy_manager.sessions session_id)
            ≡ (not due && is_of id (get s.proxy_manager.sessions session_id)))
unfolding tick
tick-accounts now s id a h =
    let keys = expired_keys s.policy now in
    let after =
      revoke_keys-AccountAfter now keys.0 (record s { policy = keys.1 }) id a
        (expired_keys-AreExpired s.policy now) h in
    rw (sym (names-expired_keys s.policy now (proxy_account_key id))) (after.stored, after.sessions)
