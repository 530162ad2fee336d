-- ===== src/Controller/Web/Tunnels/Together.antt =====
-- The stored row, the run and the policy of a tunnel after it is changed.
use rps.Base.{◌≡◌, ◌⊎◌, some, Result, ok, err, nat_eq, list_eq}
use rps.Base.Text.{Text, text}
use rps.Base.Map.{contains_key}
use rps.Controller.Policy.{key_eq, tunnel_key}
use rps.Controller.Db.{DbTunnel, UpdateTunnel}
use rps.Controller.Db.Tunnels
use rps.Controller.Db.Tunnels.{get_tunnel, disable_tunnel}
use rps.Controller.Db.Tunnels.Store.{disabled}
use rps.Controller.TunnelManager.{TunnelManager}
use rps.Controller.App.{AppState}
use rps.Controller.Web.{ApiError, internal}
use rps.Controller.Web.Tunnels.{UpdateTunnelRequest}

-- The tunnel is stored as `t`, and runs and has a policy exactly if it is enabled.
abbrev pub IsInStep : AppState → Text → DbTunnel → Type 0
IsInStep s id t =
    (get_tunnel s.db id ≡ ok (some t))
    × (contains_key s.tunnel_manager.running id ≡ t.enabled)
    × (contains_key s.policy.policies (tunnel_key id) ≡ t.enabled)

abbrev pub failed_start : DbTunnel → DbTunnel
failed_start = disabled (text "start_failed")

abbrev pub update_of : UpdateTunnelRequest → Text → UpdateTunnel
update_of request target = record {
  client_id = request.client_id;
  mode = request.mode;
  listen = request.listen;
  target = some target;
  enabled = request.enabled;
  expires_at = request.expires_at;
  traffic_limit_bytes = request.traffic_limit_bytes;
}

-- The two ways in which a change ends.
abbrev pub LeavesInStep : Result ApiError DbTunnel × AppState → Text → DbTunnel → Type 0
LeavesInStep answer id t =
    ((answer.0 ≡ ok t) × IsInStep answer.1 id t)
    ⊎ ((answer.0 ≡ err internal) × IsInStep answer.1 id (failed_start t))
