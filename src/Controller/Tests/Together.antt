-- ===== src/Controller/Tests/Together.antt =====
-- The theorems on the proxy sessions and on the revoking task, at concrete inputs.
use rps.Base.{[], ◌∷◌, ◌≡◌, refl, true, false, none, some, [], ok, nat_eq, list_eq, get_elem?}
use rps.Base.Int.{pos}
use rps.Base.Text.{text}
use rps.Base.Map.{get}
use rps.Core.Config.{tcp}
use rps.Controller.Policy.{channel, register, tunnel_key, proxy_account_key, key_eq}
use rps.Controller.Sql.{fetch_optional, has_row}
use rps.Controller.Db.Columns.{validate_proxy_kind, str_to_tunnel_mode, tunnel_mode_to_str}
use rps.Controller.Db.{Database, NewTunnel, NewProxyAccount, DbTunnel, DbProxyAccount, empty}
use rps.Controller.Db.Tunnels.{create_tunnel, get_tunnel, row_to_tunnel}
use rps.Controller.Db.Tunnels.Store
use rps.Controller.Db.ProxyAccounts.{create_proxy_account, get_proxy_account, row_to_proxy_account}
use rps.Controller.TunnelManager
use rps.Controller.TunnelManager.Told
use rps.Controller.ProxyManager
use rps.Controller.ProxyManager.{
  ProxyManager, revoke_account, drop_guard, Since, opened, registered, revoked, fresh, is_of,
}
use rps.Controller.ProxyManager.Signals.{shutdown_iff_revoked}
use rps.Controller.App.{AppState}

-- A session of `alice`, then one of `bob`, then `alice` is revoked.
abbrev one : ProxyManager
one = (ProxyManager.register ProxyManager.new (some (text "alice")) (text "s1")).1

abbrev two : ProxyManager
two = (ProxyManager.register one (some (text "bob")) (text "s2")).1

abbrev after : ProxyManager
after = (revoke_account two (text "alice")).1

since : Since (text "alice") (text "s1") 0 true after
since =
    unfold ProxyManager.register ProxyManager.new in
    revoked (text "alice")
      (registered (some (text "bob")) (text "s2") refl (opened ProxyManager.new fresh))

shutdown_iff_revoked_example :
    (get_elem? after.signals 0 ≡ some true)
    × (true ≡ false
        → get after.sessions (text "s1")
          ≡ some (record { account_id = text "alice"; shutdown = 0 }))
shutdown_iff_revoked_example = shutdown_iff_revoked (text "alice") (text "s1") 0 true after since

abbrev web : NewTunnel
web = record {
  id = text "web";
  client_id = text "a";
  mode = tcp;
  listen = text ":80";
  target = none;
  enabled = true;
  expires_at = some (pos 100);
  traffic_limit_bytes = some 50;
}

abbrev alice : NewProxyAccount
alice = record {
  id = text "alice";
  kind = text "socks5";
  client_id = text "a";
  username = text "al";
  password = text "pw";
  enabled = true;
  remark = none;
  expires_at = some (pos 100);
  traffic_limit_bytes = none;
}

abbrev stored : Database
stored = (create_proxy_account (create_tunnel empty (pos 1) web).1 (pos 1) alice).1

abbrev state : AppState
state = record {
  db = stored;
  clients = [];
  web_sessions = [];
  tunnel_manager = record {
    running =
        (
          text "web",
          record { shutdown = 0; listen = text ":80"; sessions = 0; active_connections = 0 },
        )
        ∷ [];
    counters = 1 ∷ [];
    tables = ((text "conn", 1) ∷ []) ∷ [];
    signals = false ∷ false ∷ [];
  };
  proxy_manager = one;
  policy =
      register (register channel (tunnel_key (text "web")) (some (pos 100)) (some 50) 0)
        (proxy_account_key (text "alice")) (some (pos 100)) none 0;
}

abbrev web_stored : DbTunnel
web_stored = Store.created web

abbrev alice_stored : DbProxyAccount
alice_stored = record {
  id = text "alice";
  kind = text "socks5";
  client_id = text "a";
  username = text "al";
  password = text "pw";
  enabled = true;
  remark = none;
  expires_at = some (pos 100);
  traffic_limit_bytes = none;
  rx_bytes = 0;
  tx_bytes = 0;
  disabled_reason = none;
}

alice_is_stored : get_proxy_account stored (text "alice") ≡ ok (some alice_stored)
alice_is_stored =
    unfold create_tunnel create_proxy_account get_tunnel get_proxy_account fetch_optional
      row_to_tunnel row_to_proxy_account has_row validate_proxy_kind str_to_tunnel_mode
      tunnel_mode_to_str in
    refl
