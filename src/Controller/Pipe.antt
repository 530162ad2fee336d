-- ===== src/Controller/Pipe.antt =====
-- crates/rps-controller/src/proxy_tcp.rs: `pipe_pool_inner`, which copies between a user's socket and
-- the stream of an agent. The two copying tasks and the task that waits for them run in any order, so
-- what happens is a sequence of events: what the reads give, how many bytes of a chunk a write gets
-- rid of and whether it fails, when the waiting task wakes up, and the shutdown.
pub mod Mirror
pub mod InOrder
pub mod Charged
pub mod Shutdown
use rps.Base.{
  ℕ, ◌+◌, ◌≡◌, Bool, true, false, ◌&&◌, ◌||◌, Option, none, some, List, [], ◌∷◌, ◌++◌,
  if◌then◌else◌, length, take, drop, Result, ok, err,
}
use rps.Base.Bytes.{IoError}
use rps.Controller.Policy.{PolicyEnforcer}
use rps.Controller.Traffic.{TrafficState}
use rps.Controller.Streams.{StreamRoute, add_usage}

-- A copying task reads, or is in `write_all` of a chunk of which it has the rest still to write.
pub data Task : Type 0 where
  reading finished failed aborted : Task
  writing : List ℕ → List ℕ → Task

abbrev pub is_running : Task → Bool
is_running reading = true
is_running (writing data' rest) = true
is_running _ = false

abbrev pub is_failed : Task → Bool
is_failed failed = true
is_failed _ = false

abbrev pub is_finished : Task → Bool
is_finished finished = true
is_finished _ = false

-- What stands on either side of a copy: all that was written to it, and whether it was shut down.
pub record Sink : Type 0 where
  pub bytes : List ℕ
  pub shut : Bool

-- `selecting` says whether the waiting task is still in `select!`. `stopped` whether a shutdown
-- ended it. `recorded` are the calls of the recorder, bytes to the user first.
pub record Pipe : Type 0 where
  pub agent : Sink
  pub user : Sink
  pub uplink : Task
  pub downlink : Task
  pub selecting : Bool
  pub stopped : Bool
  pub recorded : List (ℕ × ℕ)

-- A write of the initial data succeeds, or fails after a number of its bytes.
pub data Write : Type 0 where
  writes : Write
  fails_after : ℕ → Write

-- What a copying task may see: a chunk from its read, its end or an error; a number of bytes that the
-- other side takes of what is written, or an error of the write.
pub data Turn : Type 0 where
  chunk : List ℕ → Turn
  takes : ℕ → Turn
  ends breaks refuses : Turn

pub data PipeEvent : Type 0 where
  user_turn agent_turn : Turn → PipeEvent
  wakes shutdown : PipeEvent

abbrev pub begun : List ℕ → List (ℕ × ℕ) → Pipe
begun initial recorded = record {
  agent = record { bytes = initial; shut = false };
  user = record { bytes = []; shut = false };
  uplink = reading;
  downlink = reading;
  selecting = true;
  stopped = false;
  recorded = recorded;
}

-- The initial data is recorded before it is written. Without it, or after it, the tasks start.
unfoldable pub start : Option (List ℕ) → Write → Option Pipe × List (ℕ × ℕ)
start none _ = (some (begun [] []), [])
start (some initial) writes =
    (some (begun initial ((0, length initial) ∷ [])), (0, length initial) ∷ [])
start (some initial) (fails_after n) = (none, (0, length initial) ∷ [])

-- The next state of a write, and the bytes to record once the chunk is written.
unfoldable pub wrote : Sink → List ℕ → List ℕ → ℕ → Sink × Task × Option ℕ
wrote sink data' rest n =
    let after : Sink = record sink { bytes = sink.bytes ++ take n rest } in
    elim (drop n rest) [
      | [] ↦ (after, reading, some (length data'))
      | b ∷ more ↦ (after, writing data' (b ∷ more), none)
    ]

-- A step of a copying task: what it leaves of the sink and of itself, and the bytes to record. A task
-- that has ended takes none, and one that reads does not write.
unfoldable pub copy : Sink → Task → Turn → Sink × Task × Option ℕ
copy sink reading (chunk data') = (sink, writing data' data', none)
copy sink reading ends = (record sink { shut = true }, finished, none)
copy sink reading breaks = (sink, failed, none)
copy sink (writing data' rest) (takes n) = wrote sink data' rest n
copy sink (writing data' rest) refuses = (sink, failed, none)
copy sink task turn = (sink, task, none)

abbrev pub note : List (ℕ × ℕ) → Option (ℕ × ℕ) → List (ℕ × ℕ)
note recorded none = recorded
note recorded (some entry) = recorded ++ entry ∷ []

abbrev pub up : Option ℕ → Option (ℕ × ℕ)
up none = none
up (some n) = some (0, n)

abbrev pub down : Option ℕ → Option (ℕ × ℕ)
down none = none
down (some n) = some (n, 0)

-- `abort` of a task that still runs.
abbrev pub abort : Task → Task
abort reading = aborted
abort (writing data' rest) = aborted
abort task = task

-- A task that was awaited aborts the other if it failed.
abbrev pub abort_after : Task → Task → Task
abort_after first other = if is_failed first then abort other else other

unfoldable pub on_event : Pipe → PipeEvent → Pipe
on_event p (user_turn turn) =
    let copied = copy p.agent p.uplink turn in
    record p { agent = copied.0; uplink = copied.1; recorded = note p.recorded (up copied.2) }
on_event p (agent_turn turn) =
    let copied = copy p.user p.downlink turn in
    record p { user = copied.0; downlink = copied.1; recorded = note p.recorded (down copied.2) }
on_event p wakes =
    if p.selecting
    then (if is_running p.uplink
        then (if is_running p.downlink
            then p
            else record p { selecting = false; uplink = abort_after p.downlink p.uplink })
        else record p { selecting = false; downlink = abort_after p.uplink p.downlink })
    else p
on_event p shutdown =
    if p.selecting
    then record p {
      selecting = false;
      stopped = true;
      uplink = abort p.uplink;
      downlink = abort p.downlink;
    }
    else p

unfoldable pub run : Pipe → List PipeEvent → Pipe
run p [] = p
run p (event ∷ events) = run (on_event p event) events

-- Whether it returned, and whether without an error.
unfoldable pub outcome : Pipe → Option Bool
outcome p =
    if p.selecting || (is_running p.uplink || is_running p.downlink)
    then none
    else some (p.stopped || (is_finished p.uplink && is_finished p.downlink))

-- What the recorder makes of its calls.
unfoldable pub charge :
    StreamRoute → PolicyEnforcer × TrafficState → List (ℕ × ℕ) → PolicyEnforcer × TrafficState
charge route usage [] = usage
charge route usage ((rx_bytes, tx_bytes) ∷ recorded) =
    charge route (add_usage route usage rx_bytes tx_bytes) recorded
