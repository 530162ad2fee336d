-- ===== src/Controller/Tests/Managers.antt =====
-- The theorems on what runs, at concrete inputs.
use rps.Base.{Bool, ◌≡◌, refl, true, false, none, some, [], ◌∷◌, ok, arith, nat_eq, list_eq}
use rps.Base.Int.{ℤ, pos}
use rps.Base.Text.{Text, text}
use rps.Base.Map.{get, insert, contains_key}
use rps.Core.Config.{TunnelConfig, tcp}
use rps.Controller.Policy.{PolicyEnforcer, channel, allowed}
use rps.Controller.TunnelManager.{
  TunnelManager, TunnelRuntime, TunnelConnectionGuard, new, start, register_udp_session,
  active_count, fresh, starts, connects,
}
use rps.Base.Counters.{live}
use rps.Controller.TunnelManager.Active.{active_count_lem}

abbrev web : TunnelConfig
web = record {
  id = text "web";
  client_id = text "a";
  mode = tcp;
  listen = text ":80";
  target = none;
  enabled = true;
}

abbrev web_runtime : TunnelRuntime
web_runtime = record { shutdown = 0; listen = text ":80"; sessions = 0; active_connections = 0 }

abbrev web_runs : TunnelManager
web_runs = record {
  running = (text "web", web_runtime) ∷ [];
  counters = 0 ∷ [];
  tables = [] ∷ [];
  signals = false ∷ [];
}

abbrev web_used : TunnelManager
web_used = record web_runs { counters = 1 ∷ [] }

abbrev guard : TunnelConnectionGuard
guard = record { active_connections = 0 }

web_starts : (start new channel (pos 1) web true).0 ≡ ok web_runs
web_starts = unfold start new channel allowed contains_key get insert in refl

web_connects : register_udp_session web_runs (text "web") ≡ some (guard, web_used)
web_connects = unfold register_udp_session get in refl

active_count_lem_example :
    (get web_used.running (text "web") ≡ none → active_count web_used (text "web") ≡ 0)
    × ((r : TunnelRuntime)
        → get web_used.running (text "web") ≡ some r
        → (active_count web_used (text "web") ≡ live r.active_connections (0 ∷ []))
          × ((other : Text) (t : TunnelRuntime)
              → get web_used.running other ≡ some t
              → r.active_connections ≡ t.active_connections
              → text "web" ≡ other))
    × ((m' : TunnelManager) (policy : PolicyEnforcer) (now : ℤ) (tunnel : TunnelConfig)
          (binds : Bool)
        → (start web_used policy now tunnel binds).0 ≡ ok m'
        → active_count m' tunnel.id ≡ 0)
active_count_lem_example =
    active_count_lem web_used (0 ∷ []) (text "web")
      (connects (text "web") guard (starts channel (pos 1) web true fresh web_starts) web_connects)
      (omega arith)
