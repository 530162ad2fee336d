-- ===== src/Controller/Streams/Multiplexed.antt =====
-- crates/rps-controller/src/proxy_tcp.rs: `open_stream`, a stream to a target over the multiplexed
-- connection of an agent. Whether the multiplexer opens a stream, and what comes back on it, is given;
-- serde_json is a parameter. The record that a spawned task makes of the stream is left out.
use rps.Base.{ℕ, Option, none, some, List, Result, ok, err, if◌then◌else◌, nat_eq, list_eq}
use rps.Base.Text.{Text}
use rps.Base.Map.{Map, get}
use rps.Core.Protocol.{Serde, TargetProtocol, OpenRequest, OpenResponse}
use rps.Controller.Streams.{
  StreamRoute, ClientConnection, OpenError, offline, timed_out, broken, closed_early,
  invalid_response, refused, reason,
}

unfoldable pub request_of : StreamRoute → TargetProtocol → Text → Text → OpenRequest
request_of route protocol target remote_addr = record {
  tunnel_id = route.tunnel_id;
  protocol = protocol;
  target = target;
  remote_addr = remote_addr;
  timeout_ms = 5000;
}

-- What is received on the stream in time: nothing, its end, or data.
pub data Reply : Type 0 where
  nothing ended : Reply
  says : List ℕ → Reply

unfoldable pub read_reply : Serde OpenResponse → Reply → Result OpenError (Unit {0})
read_reply serde nothing = err timed_out
read_reply serde ended = err closed_early
read_reply serde (says bytes) = elim (serde.from_slice bytes) [
  | none ↦ err invalid_response
  | some response ↦ if response.accepted then ok tt else err (refused (reason response.error))
]

unfoldable pub open_stream :
    Serde OpenRequest
    → Serde OpenResponse
    → Map Text ClientConnection
    → StreamRoute
    → OpenRequest
    → Option ℕ
    → Reply
    → Result OpenError ℕ
open_stream requests responses clients route request opens reply =
    elim (get clients route.client_id) [
      | none ↦ err offline
      | some connection ↦ elim (requests.to_vec request) [
        | none ↦ err broken
        | some payload ↦ elim opens [
          | none ↦ err broken
          | some stream ↦ elim (read_reply responses reply) [ err e ↦ err e | ok _ ↦ ok stream ]
        ]
      ]
    ]
