-- ===== src/Mux/Session.antt =====
-- crates/rps-mux/src/session.rs. An mpsc channel is a list of what was sent and not yet received;
-- the streams' inbound channels stand in a table, and a `StreamTx` or an `inbound_rx` is an index
-- of it. Capacities are left out: a full channel only delays its senders.
pub mod Invariant
pub mod Delivery
pub mod Ids
pub mod Wire
pub mod EndToEnd
use rps.Base.{
  ℕ, zero, suc, ◌+◌, ◌%◌, ◌^◌, ◌≡◌, Bool, true, false, Option, none, some, List, [], ◌∷◌, ◌++◌,
  if◌then◌else◌, length, get_elem?, set, Result, ok, err, nat_eq,
}
use rps.Base.Map.{Map, get, insert, remove}
use rps.Base.Bytes.{IoResult, mux_closed}
use rps.Mux.Frame.{
  Frame, FrameType, open_ack, payload_data, close, ping, pong, error, is_empty, read_frame,
  write_frame,
}

-- `receiver` says whether the receiving end still exists: a send fails without one.
pub record Channel : Type 0 where
  pub queue : List (List ℕ)
  pub receiver : Bool

pub record MuxStream : Type 0 where
  pub id : ℕ
  pub inbound : ℕ

pub record Mux : Type 0 where
  pub streams : Map ℕ ℕ
  pub next_id : ℕ
  pub channels : List Channel
  pub writer : List Frame
  pub writer_open : Bool
  pub incoming : List MuxStream
  pub incoming_open : Bool

-- `Mux::new`
unfoldable pub new : Mux
new = record {
  streams = [];
  next_id = 1;
  channels = [];
  writer = [];
  writer_open = true;
  incoming = [];
  incoming_open = true;
}

-- `writer_tx.send(frame)`
unfoldable pub send_frame : Mux → Frame → IoResult Mux
send_frame m f =
    if m.writer_open then ok (record m { writer = m.writer ++ f ∷ [] }) else err mux_closed

-- `let _ = writer_tx.send(frame)`
unfoldable pub send_ignored : Mux → Frame → Mux
send_ignored m f = if m.writer_open then record m { writer = m.writer ++ f ∷ [] } else m

-- `mpsc::unbounded_channel`: the sender goes to the table of streams, the receiver to the stream.
unfoldable pub add_channel : Mux → ℕ → List (List ℕ) → Bool → Mux
add_channel m id queue receiver = record m {
  streams = insert m.streams id (length m.channels);
  channels = m.channels ++ record { queue = queue; receiver = receiver } ∷ [];
}

abbrev pub send_channel : Channel → List ℕ → Channel
send_channel c data' =
    if c.receiver then record { queue = c.queue ++ data' ∷ []; receiver = true } else c

unfoldable pub push : Mux → ℕ → List ℕ → Mux
push m c payload = elim (get_elem? m.channels c) [
  | none ↦ m
  | some channel ↦ record m { channels = set m.channels c (send_channel channel payload) }
]

-- One round of the reader task on a frame; `false` ends the task. If nobody accepts streams any
-- more, the new stream is dropped, its receiver with it, and the loop breaks before the answer.
unfoldable pub on_frame : FrameType → Mux → Frame → Mux × Bool
on_frame FrameType.open_stream m f =
    let first : List (List ℕ) = if is_empty f.payload then [] else f.payload ∷ [] in
    let opened = add_channel m f.stream_id first m.incoming_open in
    let stream : MuxStream = record { id = f.stream_id; inbound = length m.channels } in
    let ack : Frame = record { frame_type = open_ack; stream_id = f.stream_id; payload = [] } in
    if m.incoming_open
    then (send_ignored (record opened { incoming = m.incoming ++ stream ∷ [] }) ack, true)
    else (opened, false)
on_frame open_ack m f = (m, true)
on_frame payload_data m f = elim (get m.streams f.stream_id) [
  | none ↦ (m, true)
  | some c ↦ (push m c f.payload, true)
]
on_frame close m f = (record m { streams = remove m.streams f.stream_id }, true)
on_frame error m f = (record m { streams = remove m.streams f.stream_id }, true)
on_frame ping m f = (send_ignored m (record f { frame_type = pong }), true)
on_frame pong m f = (m, true)

unfoldable pub recv_frame : Mux → Frame → Mux × Bool
unfolding on_frame
recv_frame m f = on_frame f.frame_type m f

-- The reader task on a sequence of frames.
unfoldable pub recv_all : Mux → List Frame → Mux
recv_all m [] = m
recv_all m (f ∷ fs) = elim (recv_frame m f).1 [
  | true ↦ recv_all (recv_frame m f).0 fs
  | false ↦ (recv_frame m f).0
]

-- The reader task on the bytes of a connection. Every frame takes bytes, so as many rounds as
-- there are bytes are enough.
unfoldable pub read_loop : ℕ → Mux → List ℕ → Mux
read_loop zero m input = m
read_loop (suc fuel) m input = elim (read_frame input) [
  | err e ↦ m
  | ok (f, rest) ↦ elim (recv_frame m f).1 [
    | true ↦ read_loop fuel (recv_frame m f).0 rest
    | false ↦ (recv_frame m f).0
  ]
]

-- The writer task on the frames of its channel: it stops at the first that cannot be written.
unfoldable pub write_loop : List Frame → List ℕ
write_loop [] = []
write_loop (f ∷ fs) =
    let rest = write_loop fs in elim (write_frame f) [ err e ↦ [] | ok bytes ↦ bytes ++ rest ]

-- `fetch_add(2)` wraps.
unfoldable pub next_stream_id : Mux → ℕ × Mux
next_stream_id m = (m.next_id, record m { next_id = (m.next_id + 2) % 2 ^ 32 })

-- `MuxHandle::open_stream`
unfoldable pub open_stream : Mux → List ℕ → IoResult MuxStream × Mux
unfolding next_stream_id send_frame
open_stream m payload =
    let (id, counted) = next_stream_id m in
    let opened = add_channel counted id [] true in
    let stream : MuxStream = record { id = id; inbound = length m.channels } in
    let frame : Frame = record {
      frame_type = FrameType.open_stream;
      stream_id = id;
      payload = payload;
    } in
    elim (send_frame opened frame) [
      | ok sent ↦ (ok stream, sent)
      | err e ↦ (err mux_closed, record opened { streams = remove opened.streams id })
    ]

-- `MuxStreamWriter::send_data` and `close`
unfoldable pub send_data : Mux → ℕ → List ℕ → IoResult Mux
unfolding send_frame
send_data m id payload =
    send_frame m (record { frame_type = payload_data; stream_id = id; payload = payload })

unfoldable pub close_stream : Mux → ℕ → IoResult Mux
unfolding send_frame
close_stream m id = send_frame m (record { frame_type = close; stream_id = id; payload = [] })

-- `recv_data` where something has arrived; `none` is a receiver that waits, or that is at its end.
unfoldable pub recv_data : Mux → MuxStream → Option (List ℕ × Mux)
recv_data m s = elim (get_elem? m.channels s.inbound) [
  | none ↦ none
  | some channel ↦ elim channel.queue [
    | [] ↦ none
    | first ∷ rest ↦
        some (
          first,
          record m { channels = set m.channels s.inbound (record channel { queue = rest }) },
        )
  ]
]

-- `Mux::accept` where a stream has come in.
unfoldable pub accept : Mux → Option (MuxStream × Mux)
accept m = elim m.incoming [ [] ↦ none | s ∷ rest ↦ some (s, record m { incoming = rest }) ]

-- What may happen to a connection: the peer's frames, calls of the handles, the writer task, and
-- ends of channels that are dropped.
pub data Step (m : Mux) : Mux → Type 0 where
  arrives : (f : Frame) → Step m (recv_frame m f).0
  opens : (payload : List ℕ) → Step m (open_stream m payload).1
  sends : (id : ℕ) (payload : List ℕ) {m' : Mux} → send_data m id payload ≡ ok m' → Step m m'
  closes : (id : ℕ) {m' : Mux} → close_stream m id ≡ ok m' → Step m m'
  receives :
      (s : MuxStream) (payload : List ℕ) {m' : Mux} → recv_data m s ≡ some (payload, m') → Step m m'
  accepts : (s : MuxStream) {m' : Mux} → accept m ≡ some (s, m') → Step m m'
  writes : (f : Frame) (fs : List Frame) → m.writer ≡ f ∷ fs → Step m (record m { writer = fs })
  writer_stops : Step m (record m { writer_open = false })
  accept_stops : Step m (record m { incoming_open = false })
  drops :
      (c : ℕ) (channel : Channel)
      → get_elem? m.channels c ≡ some channel
      → Step m (record m { channels = set m.channels c (record channel { receiver = false }) })

pub data Reach : Mux → Type 0 where
  start : Reach new
  step : {m m' : Mux} → Reach m → Step m m' → Reach m'
