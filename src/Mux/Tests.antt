-- ===== src/Mux/Tests.antt =====
-- The theorems of this part at concrete inputs.
use rps.Base.{
  All, ◌≡◌, refl, some, List, [], ◌∷◌, ◌++◌, ok, ◌<◌, inl, inr, ℕ, arith, nat_eq, get_elem?, ◌^◌,
}
use rps.Base.Words.{IsByte}
use rps.Base.Map.{get, insert}
use rps.Mux.Frame.{Frame, FrameType, payload_data, header_bytes, read_frame, write_frame, to_u8}
use rps.Mux.Frame.RoundTrip.{read_frame-write_frame}
use rps.Mux.Frame.Canonical.{read_frame-eq-ok}
use rps.Mux.Session.{
  Mux, MuxStream, new, recv_frame, recv_all, read_loop, write_loop, open_stream, on_frame,
  add_channel, send_ignored, start, step, opens, arrives, next_stream_id, send_frame,
}
use rps.Mux.Session.Invariant.{IsWellFormed, Reach-IsWellFormed}
use rps.Mux.Session.Delivery.{IsOpen, recv_all-delivered}
use rps.Mux.Session.Ids.{open_ids, open_ids_distinct}
use rps.Mux.Session.Wire.{read_loop-write_loop}
use rps.Mux.Session.EndToEnd.{open_and_send, stream_end_to_end}

abbrev data_frame : Frame
data_frame = record { frame_type = payload_data; stream_id = 1; payload = 7 ∷ 8 ∷ [] }

abbrev open_frame : Frame
open_frame = record { frame_type = FrameType.open_stream; stream_id = 1; payload = 5 ∷ [] }

abbrev other_frame : Frame
other_frame = record { frame_type = payload_data; stream_id = 3; payload = 9 ∷ [] }

abbrev data_bytes : List ℕ
data_bytes = 3 ∷ 0 ∷ 0 ∷ 0 ∷ 1 ∷ 0 ∷ 0 ∷ 0 ∷ 2 ∷ 7 ∷ 8 ∷ []

write_data : write_frame data_frame ≡ ok data_bytes
unfolding write_frame header_bytes to_u8
write_data = refl

read_frame-write_frame_example : read_frame (data_bytes ++ 4 ∷ []) ≡ ok (data_frame, 4 ∷ [])
read_frame-write_frame_example =
    read_frame-write_frame data_frame (4 ∷ []) data_bytes (omega arith) write_data

read_data : read_frame (data_bytes ++ 4 ∷ []) ≡ ok (data_frame, 4 ∷ [])
read_data = read_frame-write_frame data_frame (4 ∷ []) data_bytes (omega arith) write_data

data_bytes-IsBytes : All IsByte (data_bytes ++ 4 ∷ [])
data_bytes-IsBytes = grind arith

read_frame-eq-ok_example :
    (bytes : List ℕ) × (data_frame.stream_id < 2 ^ 32)
    × (write_frame data_frame ≡ ok bytes)
    × (data_bytes ++ 4 ∷ [] ≡ bytes ++ 4 ∷ [])
read_frame-eq-ok_example =
    read_frame-eq-ok (data_bytes ++ 4 ∷ []) {r = data_frame} {rest = 4 ∷ []} data_bytes-IsBytes
      read_data

-- A connection on which the peer has opened a stream, and this side another.
abbrev peer_opened : Mux
peer_opened = (recv_frame new open_frame).0

Reach-IsWellFormed_example : IsWellFormed (open_stream peer_opened (6 ∷ [])).1
Reach-IsWellFormed_example =
    Reach-IsWellFormed (step (step start (arrives open_frame)) (opens (6 ∷ [])))

new-IsValid : IsWellFormed new
new-IsValid = Reach-IsWellFormed start

peer_opened-IsValid : IsWellFormed peer_opened
peer_opened-IsValid = Reach-IsWellFormed (step start (arrives open_frame))

peer_opened-IsOpen : IsOpen peer_opened 1 0 ((5 ∷ []) ∷ [])
peer_opened-IsOpen =
    unfold recv_frame on_frame new add_channel send_ignored get insert in
    record { mapped = refl; holds = refl }

recv_all-delivered_example :
    IsOpen (recv_all peer_opened (data_frame ∷ other_frame ∷ [])) 1 0 ((5 ∷ []) ∷ (7 ∷ 8 ∷ []) ∷ [])
recv_all-delivered_example =
    recv_all-delivered (data_frame ∷ other_frame ∷ []) 1 0 ((5 ∷ []) ∷ []) peer_opened-IsValid
      (unfold recv_frame on_frame new add_channel send_ignored in refl) peer_opened-IsOpen
      (refl, (refl, tt))

second_id : get_elem? (open_ids new (inl [] ∷ inr open_frame ∷ inl [] ∷ [])) 1 ≡ some 3
second_id =
    unfold open_ids open_stream next_stream_id send_frame recv_frame on_frame new add_channel
      send_ignored in
    refl

open_ids_distinct_example : Path ℕ 1 1
open_ids_distinct_example =
    open_ids_distinct new (inl [] ∷ inr open_frame ∷ inl [] ∷ []) 1 1 3 (unfold new in omega arith)
      (unfold new in refl) second_id second_id (omega arith) (omega arith)

read_loop-write_loop_example :
    read_loop 3 new (write_loop (open_frame ∷ data_frame ∷ []))
    ≡ recv_all new (open_frame ∷ data_frame ∷ [])
read_loop-write_loop_example =
    read_loop-write_loop (open_frame ∷ data_frame ∷ []) 3 new
      ((omega arith, omega arith), ((omega arith, omega arith), tt)) (omega arith)

stream_end_to_end_example :
    (s : MuxStream) × (a' : Mux) × (open_and_send new (5 ∷ []) ((7 ∷ 8 ∷ []) ∷ []) ≡ ok (s, a'))
    × IsOpen (read_loop 2 peer_opened (write_loop a'.writer)) s.id 1 ((5 ∷ []) ∷ (7 ∷ 8 ∷ []) ∷ [])
    × ((read_loop 2 peer_opened (write_loop a'.writer)).incoming
        ≡ peer_opened.incoming ++ record { id = s.id; inbound = 1 } ∷ [])
unfolding recv_frame on_frame new add_channel send_ignored
stream_end_to_end_example =
    stream_end_to_end new peer_opened (5 ∷ []) ((7 ∷ 8 ∷ []) ∷ []) 2 new-IsValid peer_opened-IsValid
      refl refl refl (omega arith, (omega arith, tt)) (omega arith)
