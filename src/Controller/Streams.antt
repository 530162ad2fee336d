-- ===== src/Controller/Streams.antt =====
-- crates/rps-controller/src/proxy_tcp.rs: how a proxy gets a stream to a target through an agent, and
-- what it records of its use. A pooled connection is modelled by how it answers the open request.
pub mod Acquire
pub mod Multiplexed
use rps.Base.{
  ℕ, zero, suc, Bool, true, false, Option, none, some, List, [], ◌∷◌, if◌then◌else◌, Result, ok,
  err, nat_eq, list_eq,
}
use rps.Base.Text.{Text, text}
use rps.Base.Map.{Map, get, insert}
use rps.Core.Config.{TunnelConfig}
use rps.Core.Protocol.{OpenResponse}
use rps.Controller.Policy.{PolicyEnforcer, record_route_usage}
use rps.Controller.Traffic.{TrafficState, record_sample}

pub record StreamRoute : Type 0 where
  pub tunnel_id : Text
  pub client_id : Text

-- `StreamRoute::from`
abbrev pub route_of : TunnelConfig → StreamRoute
route_of tunnel = record { tunnel_id = tunnel.id; client_id = tunnel.client_id }

-- `TrafficRecorder::add`, on the two components that it calls.
unfoldable pub add_usage :
    StreamRoute → PolicyEnforcer × TrafficState → ℕ → ℕ → PolicyEnforcer × TrafficState
add_usage route (policy, traffic) rx_bytes tx_bytes = (
  record_route_usage policy route.tunnel_id rx_bytes tx_bytes,
  record_sample traffic (record {
    client_id = route.client_id;
    tunnel_id = route.tunnel_id;
    rx_bytes = rx_bytes;
    tx_bytes = tx_bytes;
  }),
)

-- A connection of the pool: it may have died while it was idle, stay silent past the timeout, or
-- answer.
pub data Pooled : Type 0 where
  dead_on_write dead_on_read silent : Pooled
  answers : OpenResponse → Pooled

-- The session of the data connection, and the streams in the order in which `recv` hands them out,
-- those that arrive while it waits included.
pub record ClientConnection : Type 0 where
  pub data_session_id : Text
  pub pool : List Pooled

pub data OpenError : Type 0 where
  offline pool_closed pool_exhausted timed_out no_live : OpenError
  broken closed_early invalid_response : OpenError
  refused : Text → OpenError

abbrev pub pool_acquire_retries : ℕ
pool_acquire_retries = 4

abbrev pub reason : Option Text → Text
reason none = text "unknown error"
reason (some error) = error

-- The loop of `open_pool_stream`: the result, and what is left in the pool. An empty pool is closed or
-- gives nothing in time.
unfoldable pub acquire : ℕ → Bool → List Pooled → Result OpenError (Unit {0}) × List Pooled
acquire zero closed pool = (err no_live, pool)
acquire (suc retries) closed [] = (err (if closed then pool_closed else pool_exhausted), [])
acquire (suc retries) closed (dead_on_write ∷ pool) = acquire retries closed pool
acquire (suc retries) closed (dead_on_read ∷ pool) = acquire retries closed pool
acquire (suc retries) closed (silent ∷ pool) = (err timed_out, pool)
acquire (suc retries) closed (answers response ∷ pool) =
    (if response.accepted then Result.ok tt else err (refused (reason response.error)), pool)

-- `open_pool_stream`, less the record that a spawned task makes of the stream.
unfoldable pub open_pool_stream :
    Map Text ClientConnection
    → StreamRoute
    → Bool
    → Result OpenError (Unit {0}) × Map Text ClientConnection
open_pool_stream clients route closed = elim (get clients route.client_id) [
  | none ↦ (err offline, clients)
  | some connection ↦
      let attempt = acquire pool_acquire_retries closed connection.pool in
      (attempt.0, insert clients route.client_id (record connection { pool = attempt.1 }))
]
