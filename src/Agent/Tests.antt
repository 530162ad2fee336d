-- ===== src/Agent/Tests.antt =====
-- The theorems of this part at concrete inputs.
mod Target
use rps.Base.{
  ◌*◌, [], ◌∷◌, ◌≡◌, ◌≤◌, ◌+◌, refl, Bool, true, false, none, some, ok, eqb, nat_eq, list_eq,
}
use rps.Base.Int.{pos}
use rps.Base.Text.{Text, text}
use rps.Core.Config.{AgentConfig}
use rps.Core.Protocol.{pool, ack_ok}
use rps.Controller.Sql.{fetch_optional, has_row}
use rps.Controller.Db.{Database, DbClient, NewClient, empty}
use rps.Controller.Db.Clients.{create_client, find_enabled_client_by_id, row_to_client}
use rps.Controller.Bridge.{admit}
use rps.Agent.{prelude_of, hello_of, connect_role}
use rps.Agent.Pool.{
  PoolManager, AgentPools, Running, begins, works, reconnects, new, dials, connected, pool_size,
  warm, warm_all, warm_connections_bounded,
}

abbrev config : AgentConfig
config = record {
  server_addr = text "h:7000";
  client_id = text "a";
  psk = text "s";
  reconnect_interval_secs = 5;
}

abbrev agent : NewClient
agent = record {
  id = text "a";
  psk = text "s";
  enabled = true;
  remark = none;
  max_connections = none;
  compress = false;
  encrypt = true;
}

abbrev client : DbClient
client = record {
  id = text "a";
  psk = text "s";
  enabled = true;
  remark = none;
  max_connections = none;
  compress = false;
  encrypt = true;
}

abbrev accepts : Text → Bool
accepts psk = eqb psk (text "s")

abbrev stored : Database
stored = (create_client empty (pos 1) agent).1

client_found : find_enabled_client_by_id stored (text "a") ≡ some client
client_found =
    unfold find_enabled_client_by_id create_client fetch_optional has_row row_to_client in refl

abbrev one_idle : PoolManager
one_idle = record { permits = 31; dialling = 0; idle = 1; backing_off = 0; relays = 0 }

-- The first connection ended with one warm connection, which stays.
abbrev reconnected : AgentPools
reconnected = record { manager = new; retired = one_idle ∷ [] }

warm_connections_bounded_example :
    (warm reconnected.manager ≤ pool_size)
    × (reconnected.manager.permits ≡ 0
        → reconnected.manager.dialling ≡ 0
        → reconnected.manager.backing_off ≡ 0
        → reconnected.manager.idle ≡ pool_size)
    × (warm reconnected.manager + warm_all reconnected.retired ≤ pool_size * 2)
warm_connections_bounded_example =
    warm_connections_bounded reconnected (
      unfold new in
      reconnects (works (works begins (dials {n = 31} refl)) (connected {n = 0} refl)))
