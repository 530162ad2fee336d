-- ===== src/Controller/App.antt =====
-- crates/rps-controller/src/policy.rs and main.rs: the parts of the controller together. What is loaded
-- and started at the beginning, and the task that revokes tunnels and accounts. The clock and which
-- sockets can be bound are arguments.
pub mod Revocation
pub mod Tick
use rps.Base.{Option, Bool, true, false, List, [], ◌∷◌, Result, ok, err, if◌then◌else◌}
use rps.Base.Int.{ℤ}
use rps.Base.Text.{Text}
use rps.Base.Map.{Map}
use rps.Base.Words.{saturating_add}
use rps.Controller.Policy.{
  ResourceKind, tunnel, proxy_account, ResourceKey, RevokeReason, as_str, RevokeEvent,
  PolicyEnforcer, register, expired_keys, tunnel_key, proxy_account_key,
}
use rps.Controller.Db.{Database, DbError, DbTunnel, DbProxyAccount}
use rps.Controller.Db.Tunnels.{list_tunnels, disable_tunnel}
use rps.Controller.Db.ProxyAccounts.{list_proxy_accounts, disable_proxy_account}
use rps.Controller.Streams.{ClientConnection}
use rps.Controller.TunnelManager
use rps.Controller.TunnelManager.{TunnelManager, start, stop, tunnel_config_from_db}
use rps.Controller.ProxyManager.{ProxyManager, revoke_account}

pub record WebSession : Type 0 where
  pub username : Text
  pub expires_at : ℤ

-- The fields that the operations use.
pub record AppState : Type 0 where
  pub db : Database
  pub clients : Map Text ClientConnection
  pub web_sessions : Map Text WebSession
  pub tunnel_manager : TunnelManager
  pub proxy_manager : ProxyManager
  pub policy : PolicyEnforcer

unfoldable pub register_tunnels : List DbTunnel → PolicyEnforcer → PolicyEnforcer
register_tunnels [] e = e
register_tunnels (t ∷ tunnels) e = register_tunnels tunnels (
    register e (tunnel_key t.id) t.expires_at t.traffic_limit_bytes
      (saturating_add t.rx_bytes t.tx_bytes))

unfoldable pub register_accounts : List DbProxyAccount → PolicyEnforcer → PolicyEnforcer
register_accounts [] e = e
register_accounts (a ∷ accounts) e = register_accounts accounts (
    register e (proxy_account_key a.id) a.expires_at a.traffic_limit_bytes
      (saturating_add a.rx_bytes a.tx_bytes))

-- The tunnels stay registered where the accounts fail.
unfoldable pub load_from_db : PolicyEnforcer → Database → Result DbError (Unit {0}) × PolicyEnforcer
load_from_db e db = elim (list_tunnels db) [
  | err failure ↦ (err failure, e)
  | ok tunnels ↦ elim (list_proxy_accounts db Option.none) [
    | err failure ↦ (err failure, register_tunnels tunnels e)
    | ok accounts ↦ (ok tt, register_accounts accounts (register_tunnels tunnels e))
  ]
]

-- A tunnel that does not start is reported and passed over.
unfoldable pub start_enabled : (Text → Bool) → ℤ → List DbTunnel → AppState → AppState
start_enabled binds now [] s = s
start_enabled binds now (t ∷ tunnels) s =
    let attempt = start s.tunnel_manager s.policy now (tunnel_config_from_db t) (binds t.listen) in
    let asked : AppState = record s { policy = attempt.1 } in
    let next : AppState =
      if t.enabled
      then elim attempt.0 [ err _ ↦ asked | ok m ↦ record asked { tunnel_manager = m } ]
      else s in
    start_enabled binds now tunnels next

unfoldable pub start_enabled_from_db :
    (Text → Bool) → ℤ → AppState → Result DbError (Unit {0}) × AppState
start_enabled_from_db binds now s = elim (list_tunnels s.db) [
  | err failure ↦ (err failure, s)
  | ok tunnels ↦ (ok tt, start_enabled binds now tunnels s)
]

-- `revoke`: its failures, which are left out of the model, are only logged.
unfoldable pub revoke_resource : ℤ → ResourceKind → Text → RevokeReason → AppState → AppState
revoke_resource now tunnel id reason s = record s {
  db = disable_tunnel s.db now id (as_str reason);
  tunnel_manager = (stop s.tunnel_manager id).1;
}
revoke_resource now proxy_account id reason s = record s {
  db = disable_proxy_account s.db now id (as_str reason);
  proxy_manager = (revoke_account s.proxy_manager id).1;
}

unfoldable pub revoke : ℤ → RevokeEvent → AppState → AppState
revoke now event s = revoke_resource now event.key.kind event.key.id event.reason s

unfoldable pub revoke_keys : ℤ → List (ResourceKey × RevokeReason) → AppState → AppState
revoke_keys now [] s = s
revoke_keys now ((key, reason) ∷ rest) s =
    revoke_keys now rest (revoke now (record { key = key; reason = reason }) s)

-- The branch of the interval in `run`
unfoldable pub tick : ℤ → AppState → AppState
tick now s =
    let expired = expired_keys s.policy now in
    revoke_keys now expired.0 (record s { policy = expired.1 })

-- The branch of the queue in `run`
unfoldable pub receive : ℤ → AppState → AppState
receive now s = elim s.policy.revoke_queue [
  | [] ↦ s
  | event ∷ queue ↦
      revoke now event (record s { policy = record s.policy { revoke_queue = queue } })
]
