-- ===== src/Controller/Tests/Tcp.antt =====
-- The theorem on the connections of a TCP tunnel, at a tunnel that runs and an agent that answers.
use rps.Base.{◌≡◌, ◌+◌, refl, true, false, some, [], ◌∷◌, ok, arith, nat_eq, list_eq}
use rps.Base.Int.{pos}
use rps.Base.Text.{Text, text}
use rps.Base.Map.{Map, get, insert, contains_key}
use rps.Core.Config.{TunnelConfig, tcp}
use rps.Core.Protocol.{response_ok}
use rps.Controller.Policy.{channel, allowed}
use rps.Controller.TunnelManager.{
  TunnelManager, TunnelRuntime, TunnelSessionGuard, new, start, register_session, active_count,
  fresh, starts,
}
use rps.Controller.Streams.{ClientConnection, answers, acquire, open_pool_stream}
use rps.Controller.TcpTunnel.{handle_tcp, finish_tcp}
use rps.Controller.TcpTunnel.Counted.{handle_tcp-active_count}

abbrev site : TunnelConfig
site = record {
  id = text "site";
  client_id = text "a";
  mode = tcp;
  listen = text ":80";
  target = some (text "h:80");
  enabled = true;
}

abbrev site_runtime : TunnelRuntime
site_runtime = record { shutdown = 0; listen = text ":80"; sessions = 0; active_connections = 0 }

abbrev site_runs : TunnelManager
site_runs = record {
  running = (text "site", site_runtime) ∷ [];
  counters = 0 ∷ [];
  tables = [] ∷ [];
  signals = false ∷ [];
}

site_starts : (start new channel (pos 1) site true).0 ≡ ok site_runs
site_starts = unfold start new channel allowed contains_key get insert in refl

abbrev clients : Map Text ClientConnection
clients = (text "a", record { data_session_id = text "d"; pool = answers response_ok ∷ [] }) ∷ []

abbrev guard : TunnelSessionGuard
guard = record {
  id = text "s1";
  sessions = 0;
  connection_guard = record { active_connections = 0 };
  shutdown = 1;
}

is_served : (handle_tcp clients site_runs site false (text "s1")).0 ≡ ok (some guard)
is_served = unfold handle_tcp open_pool_stream acquire register_session get response_ok in refl

handle_tcp-active_count_example :
    let during = (handle_tcp clients site_runs site false (text "s1")).2 in
    (active_count during (text "site") ≡ active_count site_runs (text "site") + 1)
    × (active_count (finish_tcp during (some guard)) (text "site")
        ≡ active_count site_runs (text "site"))
handle_tcp-active_count_example =
    handle_tcp-active_count clients site_runs [] site false (text "s1") site_runtime guard
      (starts channel (pos 1) site true fresh site_starts) (omega arith) (unfold get in refl)
      is_served
