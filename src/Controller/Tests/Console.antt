-- ===== src/Controller/Tests/Console.antt =====
-- The theorems on agents' connections and on the console, at concrete inputs.
use rps.Base.{
  ◌⊎◌, ◌≢◌, false, ◌≡◌, refl, Bool, true, false, Option, none, some, [], ok, nat_eq, list_eq, eqb,
}
use rps.Base.Int.{pos}
use rps.Base.Text.{Text, text}
use rps.Base.Bytes.{IoResult}
use rps.Core.Config.{tcp}
use rps.Core.Protocol.{HelloRole, NoisePrelude, Hello, data_role, ack_ok, new_prelude, new_hello}
use rps.Controller.Sql.{has_row}
use rps.Controller.Db.{Database, DbClient, NewClient, NewTunnel, empty}
use rps.Controller.Db.Clients.{create_client}
use rps.Controller.Db.Tunnels.{create_tunnel}
use rps.Controller.Db.Tunnels.Store
use rps.Controller.Db.Sessions.{record_agent_connected, upsert_online}
use rps.Controller.Policy.{channel}
use rps.Controller.TunnelManager
use rps.Controller.ProxyManager
use rps.Controller.App.{AppState}
use rps.Controller.Bridge.{admit, data_up, data_down}
use rps.Controller.Bridge.Serving.{
  nothing, ended, serving, newest_data_connection_serves, LetsIn, admit_lem,
}
use rps.Controller.Web.Clients.{cut_off}
use rps.Controller.Web.Auth.{WebAuth, LoginRequest, login}
use rps.Controller.Web.Tunnels
use rps.Controller.Web.Tunnels.{UpdateTunnelRequest}

abbrev agent : NewClient
agent = record {
  id = text "a";
  psk = text "s";
  enabled = true;
  remark = none;
  max_connections = none;
  compress = false;
  encrypt = true;
}

abbrev web : NewTunnel
web = record {
  id = text "web";
  client_id = text "a";
  mode = tcp;
  listen = text ":80";
  target = some (text "h:80");
  enabled = true;
  expires_at = none;
  traffic_limit_bytes = none;
}

abbrev stored : Database
stored = (create_tunnel (create_client empty (pos 1) agent).1 (pos 1) web).1

abbrev state : AppState
state = record {
  db = stored;
  clients = [];
  web_sessions = [];
  tunnel_manager = TunnelManager.new;
  proxy_manager = ProxyManager.new;
  policy = channel;
}

abbrev client : DbClient
client = record {
  id = text "a";
  psk = text "s";
  enabled = true;
  remark = none;
  max_connections = none;
  compress = false;
  encrypt = true;
}

-- The handshake succeeds with the secret "s".
abbrev accepts : Text → Bool
accepts psk = eqb psk (text "s")

abbrev prelude : IoResult NoisePrelude
prelude = ok (new_prelude (text "a"))

abbrev hello : IoResult Hello
hello = ok (new_hello data_role (text "a"))

admit_lem_example :
    let admission = admit accepts stored prelude hello in
    (admission.outcome ≡ ok (client, data_role)
      → LetsIn accepts stored prelude hello client data_role)
    × (LetsIn accepts stored prelude hello client data_role
        → (admission.outcome ≡ ok (client, data_role)) × (admission.ack ≡ some ack_ok))
    × (admission.ack ≡ some ack_ok
        → (c : DbClient) × (r : HelloRole) × (admission.outcome ≡ ok (c, r)))
admit_lem_example = admit_lem accepts stored prelude hello client data_role

-- Two data connections of the agent, of which the older one ends last.
abbrev older : AppState
older = (data_up state (pos 2) (text "a") (text "d1") (text "r")).1

abbrev newer : AppState
newer = (data_up older (pos 3) (text "a") (text "d2") (text "r")).1

newer_is_up : (data_up older (pos 3) (text "a") (text "d2") (text "r")).0 ≡ ok (text "d2")
newer_is_up =
    unfold data_up record_agent_connected has_row upsert_online create_client create_tunnel in refl

newest_data_connection_serves_example :
    (serving (data_down newer (pos 4) (text "a") (text "d1")) (text "a") ≡ some (text "d2"))
    × (serving
          (data_down
            (data_down newer (pos 4) (text "a") (text "d1"))
            (pos 5)
            (text "a")
            (text "d2"))
          (text "a")
        ≡ none)
    × ((old changed : DbClient)
        → (changed.enabled ≡ false) ⊎ (changed.psk ≢ old.psk)
        → serving
            (cut_off (data_down newer (pos 4) (text "a") (text "d1")) (text "a") old changed)
            (text "a")
          ≡ none)
newest_data_connection_serves_example =
    newest_data_connection_serves older (data_down newer (pos 4) (text "a") (text "d1")) (pos 3)
      (pos 5) (text "a") (text "d2") (text "r") (text "d2") newer_is_up
      (ended (pos 4) (text "a") (text "d1") refl nothing)

abbrev pub auth : WebAuth
auth = record {
  enabled = true;
  username = text "root";
  password = text "pw";
  totp_secret = none;
  session_ttl_secs = 3600;
}

-- With a one-time secret; the digest of every step is empty, so that every code is six zeros.
abbrev two_factor : WebAuth
two_factor = record auth { totp_secret = some (text "AA AA") }

abbrev credentials : LoginRequest
credentials = record {
  username = text "root";
  password = text "pw";
  otp_code = some (text " 000000");
}

abbrev pub cookies : Option Text
cookies = some (text "a=b; rps_session=t1")

abbrev logged_in : AppState
logged_in = (login (λ key step. []) auth 100 (text "t1") credentials state).1

abbrev let_in : AppState
let_in = (login (λ key step. []) two_factor 100 (text "t1") credentials state).1

abbrev change : UpdateTunnelRequest
change = record {
  client_id = text "a";
  mode = tcp;
  listen = text ":81";
  target = some (text "h:81");
  enabled = true;
  expires_at = none;
  traffic_limit_bytes = some 50;
}
