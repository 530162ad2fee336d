-- ===== src/Controller/Traffic.antt =====
-- crates/rps-controller/src/traffic.rs: traffic is queued, summed per client and route, and written
-- to the database when it is time or when many routes have some.
pub mod Balance
pub mod Conserved
use rps.Base.{
  ℕ, ◌+◌, Bool, true, false, ◌&&◌, Option, none, some, List, [], ◌∷◌, ◌++◌, if◌then◌else◌, length,
  leb, ltb, ◌==◌, nat_eq, list_eq, pair_eq,
}
use rps.Base.Int.{ℤ}
use rps.Base.Text.{Text}
use rps.Base.Words.{saturating_add}
use rps.Base.Map.{Map, get, insert}
use rps.Controller.Db.{Database}
use rps.Controller.Db.Counters.{add_traffic, add_traffic_until}

abbrev pub traffic_queue_capacity : ℕ
traffic_queue_capacity = 65536

abbrev pub flush_route_threshold : ℕ
flush_route_threshold = 4096

pub record TrafficEvent : Type 0 where
  pub client_id : Text
  pub tunnel_id : Text
  pub rx_bytes : ℕ
  pub tx_bytes : ℕ

-- The queue, the sums that are not written yet, and the database.
pub record TrafficState : Type 0 where
  pub queue : List TrafficEvent
  pub pending : Map (Text × Text) (ℕ × ℕ)
  pub db : Database

-- `TrafficAggregator::record`: a full queue drops the sample.
unfoldable pub record_sample : TrafficState → TrafficEvent → TrafficState
record_sample s event =
    if event.rx_bytes == 0 && event.tx_bytes == 0
    then s
    else if ltb (length s.queue) traffic_queue_capacity
    then record s { queue = s.queue ++ event ∷ [] }
    else s

-- The writes that fail, and after how many of their statements; such an entry is lost.
abbrev pub Failures : Type 0
Failures = ℤ → Text × Text → Option ℕ

unfoldable pub write_batch : Failures → Database → ℤ → Map (Text × Text) (ℕ × ℕ) → Database
write_batch fails db now [] = db
write_batch fails db now (((client_id, tunnel_id), (rx_bytes, tx_bytes)) ∷ batch) =
    elim (fails now (client_id, tunnel_id)) [
      | none ↦
          write_batch fails (add_traffic db now client_id tunnel_id rx_bytes tx_bytes) now batch
      | some statements ↦
          write_batch fails
            (add_traffic_until statements db now client_id tunnel_id rx_bytes tx_bytes) now batch
    ]

unfoldable pub flush : Failures → TrafficState → ℤ → TrafficState
flush fails s now = record s { pending = []; db = write_batch fails s.db now s.pending }

abbrev pub or_zero : Option (ℕ × ℕ) → ℕ × ℕ
or_zero none = (0, 0)
or_zero (some p) = p

-- `entry(..).or_insert((0, 0))` and the two sums
unfoldable pub add_pending : Map (Text × Text) (ℕ × ℕ) → TrafficEvent → Map (Text × Text) (ℕ × ℕ)
add_pending pending event =
    let entry = or_zero (get pending (event.client_id, event.tunnel_id)) in
    insert pending (event.client_id, event.tunnel_id)
      (saturating_add entry.0 event.rx_bytes, saturating_add entry.1 event.tx_bytes)

-- The arm of `run` for an event.
unfoldable pub on_event : Failures → TrafficState → ℤ → TrafficEvent → TrafficState
on_event fails s now event =
    let summed : TrafficState = record s { pending = add_pending s.pending event } in
    if leb flush_route_threshold (length summed.pending) then flush fails summed now else summed

-- What `run` may find to do: the next event of the queue, or a tick of the clock.
pub data Wake : Type 0 where
  event : Wake
  tick : Wake

unfoldable pub wake : Failures → TrafficState → ℤ → Wake → TrafficState
wake fails s now tick = flush fails s now
wake fails s now event = elim s.queue [
  | [] ↦ s
  | e ∷ rest ↦ on_event fails (record s { queue = rest }) now e
]

unfoldable pub run : Failures → TrafficState → List (ℤ × Wake) → TrafficState
run fails s [] = s
run fails s ((now, w) ∷ wakes) = run fails (wake fails s now w) wakes
