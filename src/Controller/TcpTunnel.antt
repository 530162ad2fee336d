-- ===== src/Controller/TcpTunnel.antt =====
-- crates/rps-controller/src/proxy_tcp.rs: `handle_tcp`, a connection to a TCP tunnel until the copying
-- starts, and its end. The id of the session is drawn; `closed` says whether the pool is closed.
pub mod Counted
use rps.Base.{Bool, Option, none, some, Result, ok, err}
use rps.Base.Text.{Text}
use rps.Base.Map.{Map}
use rps.Core.Config.{TunnelConfig}
use rps.Controller.TunnelManager.{
  TunnelManager, TunnelSessionGuard, register_session, drop_session_guard,
}
use rps.Controller.Streams.{ClientConnection, OpenError, route_of, open_pool_stream}

pub data TcpError : Type 0 where
  no_target : TcpError
  not_opened : OpenError → TcpError

-- The connection is copied with the guard, whose signal ends it, or without one if the tunnel does not
-- run any more.
unfoldable pub handle_tcp :
    Map Text ClientConnection
    → TunnelManager
    → TunnelConfig
    → Bool
    → Text
    → Result TcpError (Option TunnelSessionGuard) × Map Text ClientConnection × TunnelManager
handle_tcp clients tunnels tunnel closed session_id = elim tunnel.target [
  | none ↦ (err no_target, clients, tunnels)
  | some target ↦
      let attempt = open_pool_stream clients (route_of tunnel) closed in
      elim attempt.0 [
        | err e ↦ (err (not_opened e), attempt.1, tunnels)
        | ok _ ↦ elim (register_session tunnels tunnel.id session_id) [
          | none ↦ (ok none, attempt.1, tunnels)
          | some (guard, registered) ↦ (ok (some guard), attempt.1, registered)
        ]
      ]
]

-- The guard is dropped after the copying.
unfoldable pub finish_tcp : TunnelManager → Option TunnelSessionGuard → TunnelManager
finish_tcp tunnels none = tunnels
finish_tcp tunnels (some guard) = drop_session_guard tunnels guard
