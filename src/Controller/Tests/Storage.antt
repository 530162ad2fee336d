-- ===== src/Controller/Tests/Storage.antt =====
-- The theorems on clients and tunnels in the database, at concrete inputs.
use rps.Base.{List, ◌∷◌, refl, ◌≡◌, true, false, none, some, [], ◌+◌, nat_eq, list_eq}
use rps.Base.Int.{ℤ, pos}
use rps.Base.Text.{text}
use rps.Core.Config.{tcp, udp}
use rps.Controller.Sql.{fetch_optional}
use rps.Controller.Db.{Database, empty, NewClient, UpdateClient, NewTunnel, UpdateTunnel}
use rps.Controller.Db.Columns.{i64_max}
use rps.Controller.Db.Clients.{create_client}
use rps.Controller.Db.Tunnels.{get_tunnel}
use rps.Controller.Db.Tunnels.Refinement.{
  Op, create, update, disable, delete, perform_all, Tunnels, specified_all, Represents,
  perform_all_refines,
}

abbrev agent : NewClient
agent = record {
  id = text "a";
  psk = text "s";
  enabled = true;
  remark = none;
  max_connections = some 5;
  compress = false;
  encrypt = true;
}

abbrev agent_change : UpdateClient
agent_change = record {
  psk = text "t";
  enabled = false;
  remark = none;
  max_connections = none;
  compress = true;
  encrypt = true;
}

abbrev with_agent : Database
with_agent = (create_client empty (pos 1) agent).1

abbrev web : NewTunnel
web = record {
  id = text "web";
  client_id = text "a";
  mode = tcp;
  listen = text ":80";
  target = none;
  enabled = true;
  expires_at = some (pos 100);
  traffic_limit_bytes = some 50;
}

abbrev web_change : UpdateTunnel
web_change = record {
  client_id = text "a";
  mode = udp;
  listen = text ":81";
  target = none;
  enabled = false;
  expires_at = none;
  traffic_limit_bytes = some (i64_max + 1);
}

abbrev empty_tunnels : Tunnels
empty_tunnels = λ id. none

empty-Represents : Represents empty empty_tunnels
empty-Represents id = unfold get_tunnel fetch_optional in refl

abbrev tunnel_calls : List (ℤ × Op)
tunnel_calls =
    (pos 1, create web)
    ∷ (pos 2, create web)
    ∷ (pos 3, update (text "web") web_change)
    ∷ (pos 4, disable (text "web") (text "expired"))
    ∷ (pos 5, delete (text "web"))
    ∷ []

perform_all_refines_example :
    ((perform_all empty tunnel_calls).0 ≡ (specified_all empty_tunnels tunnel_calls).0)
    × Represents (perform_all empty tunnel_calls).1 (specified_all empty_tunnels tunnel_calls).1
perform_all_refines_example = perform_all_refines empty empty_tunnels tunnel_calls empty-Represents
