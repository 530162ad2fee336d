-- ===== src/Controller/Tests/Udp.antt =====
-- The theorems on the sessions of a UDP tunnel, at concrete inputs.
use rps.Base.{
  ℕ, ◌<◌, ◌≤◌, ◌-◌, ◌⊎◌, get_or, length, Result, ◌≡◌, refl, true, false, none, some, [], ◌∷◌, ok,
  arith, nat_eq, list_eq, length,
}
use rps.Base.Int.{pos}
use rps.Base.Text.{Text, text}
use rps.Base.Map.Keys.{contains}
use rps.Base.Map.{get, insert, contains_key}
use rps.Core.Config.{TunnelConfig, udp}
use rps.Controller.Policy.{channel, allowed}
use rps.Controller.Traffic.{TrafficState}
use rps.Controller.Db.{empty}
use rps.Controller.Streams.{OpenError}
use rps.Controller.TunnelManager.{TunnelManager, TunnelRuntime, new, start, active_count}
use rps.Controller.UdpRelay.{
  on_response, UdpSession, UdpRelay, serve, on_datagram, after_send, open_session, cleanup, finish,
}
use rps.Controller.UdpRelay.Active.{serves, receives, active_count-sessions}
use rps.Controller.UdpRelay.Idle.{cleanup-finish}

abbrev dns : TunnelConfig
dns = record {
  id = text "dns";
  client_id = text "a";
  mode = udp;
  listen = text ":53";
  target = some (text "h:53");
  enabled = true;
}

abbrev dns_runtime : TunnelRuntime
dns_runtime = record { shutdown = 0; listen = text ":53"; sessions = 0; active_connections = 0 }

abbrev dns_runs : TunnelManager
dns_runs = record {
  running = (text "dns", dns_runtime) ∷ [];
  counters = 0 ∷ [];
  tables = [] ∷ [];
  signals = false ∷ [];
}

dns_starts : (start new channel (pos 1) dns true).0 ≡ ok dns_runs
dns_starts = unfold start new channel allowed contains_key get insert in refl

abbrev counted : TrafficState
counted = record { queue = []; pending = []; db = empty }

abbrev idle : UdpRelay
idle = serve dns_runs (channel, counted)

-- A datagram of 30 bytes comes at 100 from `c`, and stream 1 is opened for it.
abbrev used : UdpRelay
used = (on_datagram dns (text "c") 30 100 (ok 1) true idle).1

active_count-sessions_example : active_count used.tunnels (text "dns") ≡ length used.sessions
active_count-sessions_example =
    active_count-sessions dns used
      (receives (text "c") 30 100 (ok 1) true
        (serves new channel (pos 1) true (channel, counted) dns_starts))
      (unfold on_datagram serve after_send open_session get insert in omega arith)

cleanup-finish_example :
    ((addr : Text) → get used.sessions addr ≡ none → get (cleanup used 300).sessions addr ≡ none)
    × ((addr : Text) (session : UdpSession)
        → get used.sessions addr ≡ some session
        → (120 < 300 - get_or used.clocks session.last_seen 0
            → (get (cleanup used 300).sessions addr ≡ none)
              × (contains (cleanup used 300).closed session.writer ≡ true))
          × (300 - get_or used.clocks session.last_seen 0 ≤ 120
              → get (cleanup used 300).sessions addr ≡ some session))
    × ((stream : ℕ)
        → contains (cleanup used 300).closed stream ≡ true
        → (contains used.closed stream ≡ true)
          ⊎ ((addr : Text) × (session : UdpSession) × (get used.sessions addr ≡ some session)
              × (120 < 300 - get_or used.clocks session.last_seen 0)
              × (session.writer ≡ stream)))
    × ((finish used).sessions ≡ [])
    × ((tunnel : TunnelConfig) (addr : Text) (len time : ℕ) (opens : Result OpenError ℕ)
          (session : UdpSession)
        → get used.sessions addr ≡ some session
        → session.last_seen < length used.clocks
        → (get_or (on_datagram tunnel addr len time opens true used).1.clocks session.last_seen 0
            ≡ time)
          × (get_or
                (on_response tunnel addr session.last_seen (some len) true time used).clocks
                session.last_seen
                0
              ≡ time))
cleanup-finish_example = cleanup-finish used 300
