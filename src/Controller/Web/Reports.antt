-- ===== src/Controller/Web/Reports.antt =====
-- What the console reports: the status, the lists and the stream of events.
use rps.Base.{
  ℕ, Bool, true, false, not, ◌||◌, Option, none, some, List, [], ◌∷◌, Result, ok, err, ◌>>=◌,
  length, map, list_eq, nat_eq,
}
use rps.Base.Int.{ℤ}
use rps.Base.Text.{Text, text}
use rps.Base.Map.{contains_key}
use rps.Core.Config.{TunnelMode, ProxyListenConfig, ControllerConfig}
use rps.Controller.Db.Columns.{collect}
use rps.Controller.Db.{DbError, DbClient, DbTunnel, DbProxyAccount}
use rps.Controller.Db.Clients.{list_clients, count_clients}
use rps.Controller.Db.Tunnels.{list_tunnels, count_enabled_tunnels}
use rps.Controller.Db.ProxyAccounts.{get_proxy, list_proxy_accounts}
use rps.Controller.Db.Counters.{get_traffic_counter}
use rps.Controller.TunnelManager
use rps.Controller.ProxyManager
use rps.Controller.App.{AppState}
use rps.Controller.Web.{ApiError, api_error}
use rps.Controller.Web.Auth.{
  WebAuth, authorized, require_auth, authenticated_username, normalized_totp_secret,
}

-- What of `server` the console reads.
pub record Server : Type 0 where
  pub bridge_addr : Text
  pub web_addr : Text
  pub web_auth : WebAuth
  pub config : ControllerConfig

pub record StatusResponse : Type 0 where
  pub bridge_addr : Text
  pub web_addr : Text
  pub online_clients : ℕ
  pub configured_clients : ℕ
  pub enabled_tunnels : ℕ
  pub http_proxy_enabled : Bool
  pub socks5_enabled : Bool

pub record ClientResponse : Type 0 where
  pub id : Text
  pub psk : Text
  pub enabled : Bool
  pub online : Bool
  pub remark : Option Text
  pub max_connections : Option ℕ
  pub compress : Bool
  pub encrypt : Bool
  pub rx_bytes : ℕ
  pub tx_bytes : ℕ

pub record TunnelResponse : Type 0 where
  pub id : Text
  pub client_id : Text
  pub mode : TunnelMode
  pub listen : Text
  pub target : Option Text
  pub enabled : Bool
  pub active_connections : ℕ
  pub expires_at : Option ℤ
  pub traffic_limit_bytes : Option ℕ
  pub rx_bytes : ℕ
  pub tx_bytes : ℕ
  pub disabled_reason : Option Text

pub record ProxyResponse : Type 0 where
  pub http_proxy : Option ProxyListenConfig
  pub socks5 : Option ProxyListenConfig

pub record ProxyAccountResponse : Type 0 where
  pub id : Text
  pub kind : Text
  pub client_id : Text
  pub username : Text
  pub password : Text
  pub enabled : Bool
  pub remark : Option Text
  pub active_connections : ℕ
  pub expires_at : Option ℤ
  pub traffic_limit_bytes : Option ℕ
  pub rx_bytes : ℕ
  pub tx_bytes : ℕ
  pub disabled_reason : Option Text

pub record ConsoleDataResponse : Type 0 where
  pub status : StatusResponse
  pub clients : List ClientResponse
  pub tunnels : List TunnelResponse
  pub proxy : ProxyResponse
  pub proxy_accounts : List ProxyAccountResponse

pub record AuthStatusResponse : Type 0 where
  pub authenticated : Bool
  pub username : Option Text
  pub two_factor_enabled : Bool
  pub security_key_available : Bool

abbrev pub is_some {ℓ} : {A : Type ℓ} → Option A → Bool
is_some none = false
is_some (some a) = true

abbrev listens : Option ProxyListenConfig → Bool
listens none = false
listens (some proxy) = proxy.enabled

unfoldable pub status_response : Server → AppState → StatusResponse
status_response server s = record {
  bridge_addr = server.bridge_addr;
  web_addr = server.web_addr;
  online_clients = length s.clients;
  configured_clients = count_clients s.db;
  enabled_tunnels = count_enabled_tunnels s.db;
  http_proxy_enabled = listens server.config.http_proxy;
  socks5_enabled = listens server.config.socks5;
}

unfoldable pub client_response : AppState → DbClient → Result DbError ClientResponse
client_response s client = do
  traffic ← get_traffic_counter s.db (text "client") client.id
  ok (record {
    id = client.id;
    psk = client.psk;
    enabled = client.enabled;
    online = contains_key s.clients client.id;
    remark = client.remark;
    max_connections = client.max_connections;
    compress = client.compress;
    encrypt = client.encrypt;
    rx_bytes = traffic.rx_bytes;
    tx_bytes = traffic.tx_bytes;
  })

unfoldable pub tunnel_response : AppState → DbTunnel → TunnelResponse
tunnel_response s tunnel = record {
  id = tunnel.id;
  client_id = tunnel.client_id;
  mode = tunnel.mode;
  listen = tunnel.listen;
  target = tunnel.target;
  enabled = tunnel.enabled;
  active_connections = TunnelManager.active_count s.tunnel_manager tunnel.id;
  expires_at = tunnel.expires_at;
  traffic_limit_bytes = tunnel.traffic_limit_bytes;
  rx_bytes = tunnel.rx_bytes;
  tx_bytes = tunnel.tx_bytes;
  disabled_reason = tunnel.disabled_reason;
}

unfoldable pub proxy_account_response : AppState → DbProxyAccount → ProxyAccountResponse
proxy_account_response s account = record {
  id = account.id;
  kind = account.kind;
  client_id = account.client_id;
  username = account.username;
  password = account.password;
  enabled = account.enabled;
  remark = account.remark;
  active_connections = ProxyManager.active_count s.proxy_manager account.id;
  expires_at = account.expires_at;
  traffic_limit_bytes = account.traffic_limit_bytes;
  rx_bytes = account.rx_bytes;
  tx_bytes = account.tx_bytes;
  disabled_reason = account.disabled_reason;
}

unfoldable pub proxy_response : AppState → ProxyResponse
proxy_response s = record {
  http_proxy = get_proxy s.db (text "http");
  socks5 = get_proxy s.db (text "socks5");
}

unfoldable pub console_data_response : Server → AppState → Result DbError ConsoleDataResponse
console_data_response server s = do
  clients ← collect (client_response s) (list_clients s.db)
  tunnels ← list_tunnels s.db
  accounts ← list_proxy_accounts s.db none
  ok (record {
    status = status_response server s;
    clients = clients;
    tunnels = map (tunnel_response s) tunnels;
    proxy = proxy_response s;
    proxy_accounts = map (proxy_account_response s) accounts;
  })

-- A result of the database as an answer.
abbrev pub answered {ℓ} : {A : Type ℓ} → Result DbError A → Result ApiError A
answered (ok a) = ok a
answered (err e) = err (api_error e)

unfoldable pub auth_status : Server → Option Text → ℤ → AppState → AuthStatusResponse × AppState
auth_status server cookies now s =
    let asked = authenticated_username cookies now s in
    (
      record {
        authenticated = is_some asked.0 || not server.web_auth.enabled;
        username = asked.0;
        two_factor_enabled = is_some (normalized_totp_secret server.web_auth);
        security_key_available = false;
      },
      asked.1,
    )

module _ (server : Server) (cookies : Option Text) (now : ℤ) (state : AppState) where
  unfoldable pub status : Result ApiError StatusResponse × AppState
  status = authorized server.web_auth cookies now state (λ s. (ok (status_response server s), s))

  unfoldable pub clients : Result ApiError (List ClientResponse) × AppState
  clients =
      authorized server.web_auth cookies now state
        (λ s. (answered (collect (client_response s) (list_clients s.db)), s))

  unfoldable pub tunnels : Result ApiError (List TunnelResponse) × AppState
  tunnels =
      authorized server.web_auth cookies now state
        (λ s. (answered (list_tunnels s.db >>= λ ts. ok (map (tunnel_response s) ts)), s))

  unfoldable pub proxy : Result ApiError ProxyResponse × AppState
  proxy = authorized server.web_auth cookies now state (λ s. (ok (proxy_response s), s))

  unfoldable pub proxy_accounts :
      Option Text → Result ApiError (List ProxyAccountResponse) × AppState
  proxy_accounts kind = authorized server.web_auth cookies now state (λ s. (
    answered (
        list_proxy_accounts s.db kind >>= λ accounts. ok (map (proxy_account_response s) accounts)),
    s,
  ))

-- An event of the stream.
pub data Event : Type 0 where
  snapshot : ConsoleDataResponse → Event
  stream_error : DbError → Event
  auth_expired : Event

abbrev pub event_of : Result DbError ConsoleDataResponse → Event
event_of (ok data') = snapshot data'
event_of (err e) = stream_error e

-- The loop of `events`: what the clock and the state are at each tick, and the events that are sent.
-- What the loop itself changes of the state, the removal of its session after its end, is not seen by
-- a later tick, as the loop ends there.
unfoldable pub event_loop : Server → Option Text → List (ℤ × AppState) → List Event
event_loop server cookies [] = []
event_loop server cookies ((now, s) ∷ ticks) =
    let rest = event_loop server cookies ticks in
    elim (require_auth server.web_auth cookies now s).0 [
      | err e ↦ auth_expired ∷ []
      | ok _ ↦ event_of (console_data_response server s) ∷ rest
    ]
