-- ===== src/Controller/UdpRelay.antt =====
-- crates/rps-controller/src/proxy_udp.rs: the sessions of a UDP tunnel, one for each address that sends
-- to it. The task of the socket, the readers of the streams and the cleanup share the table, the
-- clocks and the counters of the tunnel manager, so each of their rounds is an operation on one state.
-- An address stands as its text, a stream as its number; whether a stream can be opened and data be
-- sent is given, as is the clock.

pub mod Serving
pub mod Active
pub mod Idle
pub mod Sticky
use rps.Base.{
  ℕ, ◌+◌, ◌-◌, ◌≡◌, Bool, true, false, Option, none, some, List, [], ◌∷◌, ◌++◌, if◌then◌else◌,
  Result, ok, err, length, get_or, set, ltb, nat_eq, list_eq,
}
use rps.Base.Text.{Text, text}
use rps.Base.Map.{Map, get, insert, remove, keys}
use rps.Core.Config.{TunnelConfig}
use rps.Controller.Policy.{PolicyEnforcer}
use rps.Controller.Traffic.{TrafficState}
use rps.Controller.TunnelManager.{
  TunnelManager, TunnelConnectionGuard, register_udp_session, drop_connection_guard,
}
use rps.Controller.Streams.{StreamRoute, OpenError, route_of, add_usage}

-- `last_seen` is the index of a clock, which the reader of the stream shares.
pub record UdpSession : Type 0 where
  pub writer : ℕ
  pub last_seen : ℕ
  pub connection_guard : Option TunnelConnectionGuard

-- `closed` are the streams on which a close was sent, in order.
pub record UdpRelay : Type 0 where
  pub sessions : Map Text UdpSession
  pub clocks : List ℕ
  pub closed : List ℕ
  pub tunnels : TunnelManager
  pub usage : PolicyEnforcer × TrafficState

pub data UdpError : Type 0 where
  no_target : UdpError
  not_opened : OpenError → UdpError

abbrev pub udp_idle_secs : ℕ
udp_idle_secs = 120

unfoldable pub serve : TunnelManager → PolicyEnforcer × TrafficState → UdpRelay
serve tunnels usage = record {
  sessions = [];
  clocks = [];
  closed = [];
  tunnels = tunnels;
  usage = usage;
}

abbrev pub drop_guard : TunnelManager → Option TunnelConnectionGuard → TunnelManager
drop_guard tunnels none = tunnels
drop_guard tunnels (some guard) = drop_connection_guard tunnels guard

-- `sessions.remove`, with the drop of what it returns.
unfoldable pub forget : UdpRelay → Text → UdpRelay
forget relay addr = elim (get relay.sessions addr) [
  | none ↦ relay
  | some session ↦ record relay {
    sessions = remove relay.sessions addr;
    tunnels = drop_guard relay.tunnels session.connection_guard;
  }
]

-- The same with a close of the stream, if there is one.
unfoldable pub close : UdpRelay → Text → UdpRelay
close relay addr = elim (get relay.sessions addr) [
  | none ↦ relay
  | some session ↦ record relay {
    sessions = remove relay.sessions addr;
    tunnels = drop_guard relay.tunnels session.connection_guard;
    closed = relay.closed ++ session.writer ∷ [];
  }
]

unfoldable pub close_all : List Text → UdpRelay → UdpRelay
close_all [] relay = relay
close_all (addr ∷ addrs) relay = close_all addrs (close relay addr)

abbrev pub is_idle : List ℕ → ℕ → Option UdpSession → Bool
is_idle clocks now none = false
is_idle clocks now (some session) = ltb udp_idle_secs (now - get_or clocks session.last_seen 0)

unfoldable pub stale : UdpRelay → ℕ → List Text → List Text
stale relay now [] = []
stale relay now (addr ∷ addrs) =
    let rest = stale relay now addrs in
    if is_idle relay.clocks now (get relay.sessions addr) then addr ∷ rest else rest

-- A round of the cleanup.
unfoldable pub cleanup : UdpRelay → ℕ → UdpRelay
cleanup relay now = close_all (stale relay now (keys relay.sessions)) relay

-- What `register_udp_session` gives.
abbrev pub guard_of :
    TunnelManager → Option (TunnelConnectionGuard × TunnelManager) → Option TunnelConnectionGuard
guard_of tunnels none = none
guard_of tunnels (some (guard, registered)) = some guard

abbrev pub tunnels_of :
    TunnelManager → Option (TunnelConnectionGuard × TunnelManager) → TunnelManager
tunnels_of tunnels none = tunnels
tunnels_of tunnels (some (guard, registered)) = registered

-- The session of a new stream, and what it changes.
abbrev pub session_of : TunnelConfig → ℕ → UdpRelay → UdpSession
session_of tunnel stream relay = record {
  writer = stream;
  last_seen = length relay.clocks;
  connection_guard = guard_of relay.tunnels (register_udp_session relay.tunnels tunnel.id);
}

unfoldable pub open_session : TunnelConfig → Text → ℕ → ℕ → UdpRelay → UdpRelay
open_session tunnel addr now stream relay = record relay {
  sessions = insert relay.sessions addr (session_of tunnel stream relay);
  clocks = relay.clocks ++ now ∷ [];
  tunnels = tunnels_of relay.tunnels (register_udp_session relay.tunnels tunnel.id);
}

-- The end of a round of the socket: what was sent is counted, and a session whose stream takes no data
-- is forgotten.
unfoldable pub after_send : TunnelConfig → Text → ℕ → Bool → UdpRelay → UdpRelay
after_send tunnel addr len sent relay =
    if sent
    then record relay { usage = add_usage (route_of tunnel) relay.usage 0 len }
    else forget relay addr

-- A round of `run_socket`: the stream that the datagram goes to, or the error that ends the tunnel.
unfoldable pub on_datagram :
    TunnelConfig
    → Text
    → ℕ
    → ℕ
    → Result OpenError ℕ
    → Bool
    → UdpRelay
    → Result UdpError ℕ × UdpRelay
on_datagram tunnel addr len now opens sent relay = elim (get relay.sessions addr) [
  | some session ↦ (
    ok session.writer,
    after_send tunnel addr len sent
        (record relay { clocks = set relay.clocks session.last_seen now }),
  )
  | none ↦ elim tunnel.target [
    | none ↦ (err no_target, relay)
    | some target ↦ elim opens [
      | err e ↦ (err (not_opened e), relay)
      | ok stream ↦
          (ok stream, after_send tunnel addr len sent (open_session tunnel addr now stream relay))
    ]
  ]
]

-- A round of the reader of a session, which holds the clock `clock`. It ends, and forgets whatever
-- session its address has, when the packet cannot be delivered or there is none.
unfoldable pub on_response : TunnelConfig → Text → ℕ → Option ℕ → Bool → ℕ → UdpRelay → UdpRelay
on_response tunnel addr clock none delivered now relay = forget relay addr
on_response tunnel addr clock (some len) false now relay = forget relay addr
on_response tunnel addr clock (some len) true now relay = record relay {
  usage = add_usage (route_of tunnel) relay.usage len 0;
  clocks = set relay.clocks clock now;
}

-- The end of `run_socket` after a shutdown.
unfoldable pub finish : UdpRelay → UdpRelay
finish relay = close_all (keys relay.sessions) relay
