-- ===== src/Controller/Web/Tunnels.antt =====
-- Tunnels are created, changed and deleted in the database, the policies and the manager together.
pub mod Together
use rps.Base.{
  ℕ, Bool, true, false, Option, none, some, List, [], ◌∷◌, Result, ok, err, if◌then◌else◌,
}
use rps.Base.Int.{ℤ}
use rps.Base.Text.{Text, text}
use rps.Base.Words.{saturating_add}
use rps.Core.Config.{TunnelMode}
use rps.Controller.Policy.{PolicyEnforcer, register, unregister, tunnel_key}
use rps.Controller.Db.{DbTunnel, NewTunnel, UpdateTunnel}
use rps.Controller.Db.Clients.{get_client}
use rps.Controller.Db.Tunnels
use rps.Controller.Db.Tunnels.{get_tunnel, disable_tunnel}
use rps.Controller.TunnelManager.{start, stop, tunnel_config_from_db}
use rps.Controller.App.{AppState}
use rps.Controller.Web.{
  ApiError, bad_request, not_found, internal, api_error, non_blank, unwrap_or, is_none,
}
use rps.Controller.Web.Auth.{WebAuth, authorized}

pub record CreateTunnelRequest : Type 0 where
  pub id : Option Text
  pub client_id : Text
  pub mode : TunnelMode
  pub listen : Text
  pub target : Option Text
  pub enabled : Option Bool
  pub expires_at : Option ℤ
  pub traffic_limit_bytes : Option ℕ

pub record UpdateTunnelRequest : Type 0 where
  pub client_id : Text
  pub mode : TunnelMode
  pub listen : Text
  pub target : Option Text
  pub enabled : Bool
  pub expires_at : Option ℤ
  pub traffic_limit_bytes : Option ℕ

abbrev pub registered : AppState → DbTunnel → AppState
registered s t = record s {
  policy =
      register s.policy (tunnel_key t.id) t.expires_at t.traffic_limit_bytes
        (saturating_add t.rx_bytes t.tx_bytes);
}

-- `tunnel_manager.start(..)`: whether it failed, and the state.
abbrev pub started : AppState → ℤ → Bool → DbTunnel → Bool × AppState
started s now binds t =
    let attempt = start s.tunnel_manager s.policy now (tunnel_config_from_db t) binds in
    elim attempt.0 [
      | err _ ↦ (false, record s { policy = attempt.1 })
      | ok m ↦ (true, record s { policy = attempt.1; tunnel_manager = m })
    ]

abbrev pub forgotten : AppState → Text → AppState
forgotten s id = record s { policy = unregister s.policy (tunnel_key id) }

-- The part of `create_tunnel` after the row is there.
unfoldable pub set_up : AppState → ℤ → Bool → DbTunnel → Result ApiError DbTunnel × AppState
set_up s now binds t =
    let attempt = started (registered s t) now binds t in
    let undone : AppState = record attempt.1 { db = (Tunnels.delete_tunnel attempt.1.db t.id).1 } in
    if t.enabled
    then (if attempt.0 then (ok t, attempt.1) else (err internal, forgotten undone t.id))
    else (ok t, registered s t)

-- `fresh_id` is drawn, where the request has no id.
unfoldable pub create_tunnel :
    WebAuth
    → Option Text
    → ℤ
    → Text
    → Bool
    → CreateTunnelRequest
    → AppState
    → Result ApiError DbTunnel × AppState
create_tunnel auth cookies now fresh_id binds request state =
    authorized auth cookies now state (λ s.
      if is_none (get_client s.db request.client_id)
      then (err bad_request, s)
      else elim (non_blank request.target) [
        | none ↦ (err bad_request, s)
        | some target ↦
            let input : NewTunnel = record {
              id = unwrap_or (non_blank request.id) fresh_id;
              client_id = request.client_id;
              mode = request.mode;
              listen = request.listen;
              target = some target;
              enabled = unwrap_or request.enabled true;
              expires_at = request.expires_at;
              traffic_limit_bytes = request.traffic_limit_bytes;
            } in
            let created = Tunnels.create_tunnel s.db now input in
            let stored : AppState = record s { db = created.1 } in
            elim created.0 [
              | err e ↦ (err (api_error e), stored)
              | ok t ↦ set_up stored now binds t
            ]
      ])

-- The part of `update_tunnel` after the row is changed. The answer is read again.
unfoldable pub restart : AppState → ℤ → Bool → Text → DbTunnel → Result ApiError DbTunnel × AppState
restart s now binds id t =
    let stopped : AppState = record s { tunnel_manager = (stop s.tunnel_manager id).1 } in
    let attempt = started (registered stopped t) now binds t in
    let failed : AppState = record attempt.1 {
      db = disable_tunnel attempt.1.db now t.id (text "start_failed");
    } in
    if t.enabled
    then (if attempt.0 then (ok t, attempt.1) else (err internal, forgotten failed t.id))
    else (ok t, forgotten stopped t.id)

-- `get_tunnel(&id).await?.unwrap_or(tunnel)`
abbrev pub read_again :
    Text → Result ApiError DbTunnel × AppState → Result ApiError DbTunnel × AppState
read_again id (err e, s) = (err e, s)
read_again id (ok t, s) = elim (get_tunnel s.db id) [
  | err e ↦ (err (api_error e), s)
  | ok found ↦ (ok (unwrap_or found t), s)
]

unfoldable pub update_tunnel :
    WebAuth
    → Option Text
    → ℤ
    → Text
    → Bool
    → UpdateTunnelRequest
    → AppState
    → Result ApiError DbTunnel × AppState
update_tunnel auth cookies now id binds request state = authorized auth cookies now state (λ s.
    elim (get_tunnel s.db id) [
      | err e ↦ (err (api_error e), s)
      | ok none ↦ (err not_found, s)
      | ok (some old) ↦
          if is_none (get_client s.db request.client_id)
          then (err bad_request, s)
          else elim (non_blank request.target) [
            | none ↦ (err bad_request, s)
            | some target ↦
                let input : UpdateTunnel = record {
                  client_id = request.client_id;
                  mode = request.mode;
                  listen = request.listen;
                  target = some target;
                  enabled = request.enabled;
                  expires_at = request.expires_at;
                  traffic_limit_bytes = request.traffic_limit_bytes;
                } in
                let updated = Tunnels.update_tunnel s.db now id input in
                let stored : AppState = record s { db = updated.1 } in
                elim updated.0 [
                  | err e ↦ (err (api_error e), stored)
                  | ok none ↦ (err not_found, stored)
                  | ok (some t) ↦ read_again id (restart stored now binds id t)
                ]
          ]
    ])

unfoldable pub delete_tunnel :
    WebAuth → Option Text → ℤ → Text → AppState → Result ApiError (Unit {0}) × AppState
delete_tunnel auth cookies now id state = authorized auth cookies now state (λ s.
    let deleted = Tunnels.delete_tunnel s.db id in
    let stored : AppState = record s { db = deleted.1 } in
    let stopped : AppState = record stored { tunnel_manager = (stop s.tunnel_manager id).1 } in
    if deleted.0 then (ok tt, forgotten stopped id) else (err not_found, stored))
