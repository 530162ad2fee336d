-- ===== src/Mux/Session/EndToEnd.antt =====
-- One stream from the side that opens it to the side that accepts it, through the bytes between.
use rps.Base.{
  ℕ, suc, ◌+◌, ◌^◌, ◌≤◌, ◌<◌, ◌≡◌, refl, sym, ap, ◌∙◌, subst, length-map, ◌%◌, true, List, [], ◌∷◌,
  ◌++◌, map, ==_iff, some, length, All, ok, ◌>>=◌, arith, if◌then◌else◌, get_elem?, nat_eq,
  Option-cases, inl, inr,
}
use mathlib.Core.List.{append_assoc, append-nil}
use rps.Base.Bytes.{IoResult}
use rps.Base.Map.{get, insert, get-insert}
use rps.Mux.Frame.{Frame, FrameType, payload_data, max_payload_len, is_empty}
use rps.Mux.Session.{
  Mux, MuxStream, recv_frame, recv_all, read_loop, write_loop, open_stream, send_data, add_channel,
  on_frame, send_ignored, push,
}
use rps.Mux.Session.Invariant.{IsWellFormed, on_frame-IsWellFormed}
use rps.Mux.Session.Delivery.{IsOpen, delivered, IsUndisturbed, recv_all-delivered}
use rps.Mux.Session.Wire.{IsSendable, read_loop-write_loop}

-- Data sent on a stream, piece by piece.
pub send_all : Mux → ℕ → List (List ℕ) → IoResult Mux
send_all m id [] = ok m
send_all m id (d ∷ ds) = do m' ← send_data m id d; send_all m' id ds

pub open_and_send : Mux → List ℕ → List (List ℕ) → IoResult (MuxStream × Mux)
open_and_send m payload ds = do
  s ← (open_stream m payload).0
  m' ← send_all (open_stream m payload).1 s.id ds
  ok (s, m')

abbrev data_frame : ℕ → List ℕ → Frame
data_frame id d = record { frame_type = payload_data; stream_id = id; payload = d }

abbrev open_frame : ℕ → List ℕ → Frame
open_frame id d = record { frame_type = FrameType.open_stream; stream_id = id; payload = d }

send_data_result :
    (m : Mux) (id : ℕ) (d : List ℕ)
    → m.writer_open ≡ true
    → send_data m id d ≡ ok (record m { writer = m.writer ++ data_frame id d ∷ [] })
unfolding send_data
send_data_result m id d up = ground arith

send_all_result :
    (ds : List (List ℕ)) (m : Mux) (id : ℕ)
    → m.writer_open ≡ true
    → (m' : Mux) × (send_all m id ds ≡ ok m') × (m'.writer ≡ m.writer ++ map (data_frame id) ds)
unfolding send_all
send_all_result [] m id up = (m, refl, sym (append-nil m.writer))
send_all_result (d ∷ ds) m id up =
    let sent : Mux = record m { writer = m.writer ++ data_frame id d ∷ [] } in
    let (m', done, wrote) = send_all_result ds sent id up in
    (
      m',
      ap (λ (r : IoResult Mux). r >>= λ n. send_all n id ds) (send_data_result m id d up) ∙ done,
      wrote ∙ append_assoc m.writer (data_frame id d ∷ []) (map (data_frame id) ds),
    )

delivered-data_frames : (id : ℕ) (ds : List (List ℕ)) → delivered id (map (data_frame id) ds) ≡ ds
delivered-data_frames id [] = refl
delivered-data_frames id (d ∷ ds) = ground (arith, delivered-data_frames id ds)

data_frames-IsUndisturbed :
    (id : ℕ) (ds : List (List ℕ)) → IsUndisturbed id (map (data_frame id) ds)
data_frames-IsUndisturbed id [] = tt
data_frames-IsUndisturbed id (d ∷ ds) = (ground arith, data_frames-IsUndisturbed id ds)

data_frames-IsSendable :
    (id : ℕ) (ds : List (List ℕ))
    → id < 2 ^ 32
    → All (λ d. length d ≤ max_payload_len) ds
    → All IsSendable (map (data_frame id) ds)
data_frames-IsSendable id [] w h = tt
data_frames-IsSendable id (d ∷ ds) w h = ((w, h.0), data_frames-IsSendable id ds w h.1)

get_elem?-length {ℓ} :
    {A : Type ℓ} (xs : List A) (a : A) → get_elem? (xs ++ a ∷ []) (length xs) ≡ some a
get_elem?-length [] a = refl
get_elem?-length (x ∷ xs) a = get_elem?-length xs a

open_frame_opens :
    (b : Mux) (id : ℕ) (payload : List ℕ)
    → b.incoming_open ≡ true
    → IsOpen
        (recv_frame b (open_frame id payload)).0
        id
        (length b.channels)
        (if is_empty payload then [] else payload ∷ [])
      × ((recv_frame b (open_frame id payload)).1 ≡ true)
      × ((recv_frame b (open_frame id payload)).0.incoming_open ≡ true)
unfolding recv_frame on_frame add_channel send_ignored
open_frame_opens b id payload up =
    let first : List (List ℕ) = if is_empty payload then [] else payload ∷ [] in
    (
      record {
        mapped = ground (arith, get-insert b.streams id id (length b.channels), ==_iff id id);
        holds =
            ground (arith, get_elem?-length b.channels (record { queue = first; receiver = true }));
      },
      ground arith,
      ground arith,
    )

open_stream_sent :
    (a : Mux) (payload : List ℕ)
    → a.writer ≡ []
    → a.writer_open ≡ true
    → (s : MuxStream) × (a' : Mux) × (open_stream a payload ≡ (ok s, a'))
      × (s.id ≡ a.next_id)
      × (a'.writer ≡ open_frame a.next_id payload ∷ [])
      × (a'.writer_open ≡ true)
unfolding open_stream add_channel
open_stream_sent a payload idle up = (
  record { id = a.next_id; inbound = length a.channels },
  record a {
    next_id = (a.next_id + 2) % 2 ^ 32;
    streams = insert a.streams a.next_id (length a.channels);
    channels = a.channels ++ record { queue = []; receiver = true } ∷ [];
    writer = open_frame a.next_id payload ∷ [];
  },
  ground arith,
  refl,
  refl,
  up,
)

open_and_send_result :
    (a : Mux) (payload : List ℕ) (ds : List (List ℕ))
    → a.writer ≡ []
    → a.writer_open ≡ true
    → (s : MuxStream) × (a' : Mux) × (open_and_send a payload ds ≡ ok (s, a'))
      × (s.id ≡ a.next_id)
      × (a'.writer ≡ open_frame a.next_id payload ∷ map (data_frame a.next_id) ds)
unfolding open_and_send
open_and_send_result a payload ds idle up =
    let (s, opened, e, id, queued, writing) = open_stream_sent a payload idle up in
    let (a', done, wrote) = send_all_result ds opened s.id writing in
    (
      s,
      a',
      rw (e, open_and_send) (ap (λ (r : IoResult Mux). r >>= λ n. ok (s, n)) done),
      id,
      wrote ∙ rw (queued, id) refl,
    )

arrives_whole :
    (b : Mux) (id : ℕ) (payload : List ℕ) (ds : List (List ℕ)) (fuel : ℕ)
    → IsWellFormed b
    → id < 2 ^ 32
    → b.incoming_open ≡ true
    → All (λ d. length d ≤ max_payload_len) (payload ∷ ds)
    → suc (length ds) ≤ fuel
    → IsOpen
        (read_loop fuel b (write_loop (open_frame id payload ∷ map (data_frame id) ds)))
        id
        (length b.channels)
        ((if is_empty payload then [] else payload ∷ []) ++ ds)
unfolding recv_all
arrives_whole b id payload ds fuel vb word accepting fits enough =
    let (opened, goes_on, still) = open_frame_opens b id payload accepting in
    let frames = map (data_frame id) ds in
    let sendable : All IsSendable (open_frame id payload ∷ frames) =
      ((word, fits.0), data_frames-IsSendable id ds word fits.1) in
    rw
      (read_loop-write_loop (open_frame id payload ∷ frames) fuel b sendable
        (omega (arith, length-map ds (data_frame id))))
      (rw (goes_on, recv_all)
        (subst
          (λ d.
            IsOpen (recv_all (recv_frame b (open_frame id payload)).0 frames) id (length b.channels)
              ((if is_empty payload then [] else payload ∷ []) ++ d))
          (delivered-data_frames id ds)
          (recv_all-delivered frames id (length b.channels) _
            (unfold recv_frame in
              on_frame-IsWellFormed FrameType.open_stream (open_frame id payload) vb)
            still opened (data_frames-IsUndisturbed id ds))))

push-incoming : (m : Mux) (c : ℕ) (payload : List ℕ) → (push m c payload).incoming ≡ m.incoming
unfolding push
push-incoming m c payload = ground arith

data_frame-incoming :
    (m : Mux) (id : ℕ) (d : List ℕ)
    → ((recv_frame m (data_frame id d)).1 ≡ true)
      × ((recv_frame m (data_frame id d)).0.incoming ≡ m.incoming)
unfolding recv_frame
data_frame-incoming m id d = elim (Option-cases (get m.streams id)) [
  | inl absent ↦ rw (absent, on_frame) (refl, refl)
  | inr (c, found) ↦ rw (found, on_frame) (refl, push-incoming m c d)
]

-- Data frames give no streams to accept.
data_frames-incoming :
    (id : ℕ) (ds : List (List ℕ)) (m : Mux)
    → (recv_all m (map (data_frame id) ds)).incoming ≡ m.incoming
unfolding recv_all
data_frames-incoming id [] m = refl
data_frames-incoming id (d ∷ ds) m =
    let (goes_on, same) = data_frame-incoming m id d in
    rw (goes_on, recv_all) (data_frames-incoming id ds (recv_frame m (data_frame id d)).0 ∙ same)

open_frame-incoming :
    (b : Mux) (id : ℕ) (payload : List ℕ)
    → b.incoming_open ≡ true
    → (recv_frame b (open_frame id payload)).0.incoming
      ≡ b.incoming ++ record { id = id; inbound = length b.channels } ∷ []
unfolding recv_frame on_frame add_channel send_ignored
open_frame-incoming b id payload up = ground arith

is_accepted :
    (b : Mux) (id : ℕ) (payload : List ℕ) (ds : List (List ℕ)) (fuel : ℕ)
    → id < 2 ^ 32
    → b.incoming_open ≡ true
    → All (λ d. length d ≤ max_payload_len) (payload ∷ ds)
    → suc (length ds) ≤ fuel
    → (read_loop fuel b (write_loop (open_frame id payload ∷ map (data_frame id) ds))).incoming
      ≡ b.incoming ++ record { id = id; inbound = length b.channels } ∷ []
unfolding recv_all
is_accepted b id payload ds fuel word accepting fits enough =
    let (opened, goes_on, still) = open_frame_opens b id payload accepting in
    let sendable : All IsSendable (open_frame id payload ∷ map (data_frame id) ds) =
      ((word, fits.0), data_frames-IsSendable id ds word fits.1) in
    rw
      (read_loop-write_loop (open_frame id payload ∷ map (data_frame id) ds) fuel b sendable
        (omega (arith, length-map ds (data_frame id))))
      (rw (goes_on, recv_all)
        (data_frames-incoming id ds (recv_frame b (open_frame id payload)).0
          ∙ open_frame-incoming b id payload accepting))

-- A stream that `a` opens and sends on arrives at `b` under the id it has at `a`: it is the last of the
-- streams that `b` has to accept, and the channel that this stream reads from receives what was sent and nothing else: the open payload, unless it is empty, and then
-- each piece of data in order. Both ends are well-formed and may have other streams, the
-- writer of `a` is idle at first, no piece is longer than a frame may carry, `b` still accepts streams,
-- and its reader task has a round for each frame.
pub stream_end_to_end :
    (a b : Mux) (payload : List ℕ) (ds : List (List ℕ)) (fuel : ℕ)
    → IsWellFormed a
    → IsWellFormed b
    → a.writer ≡ []
    → a.writer_open ≡ true
    → b.incoming_open ≡ true
    → All (λ d. length d ≤ max_payload_len) (payload ∷ ds)
    → suc (length ds) ≤ fuel
    → (s : MuxStream) × (a' : Mux) × (open_and_send a payload ds ≡ ok (s, a'))
      × IsOpen
          (read_loop fuel b (write_loop a'.writer))
          s.id
          (length b.channels)
          ((if is_empty payload then [] else payload ∷ []) ++ ds)
      × ((read_loop fuel b (write_loop a'.writer)).incoming
          ≡ b.incoming ++ record { id = s.id; inbound = length b.channels } ∷ [])
stream_end_to_end a b payload ds fuel va vb idle up accepting fits enough =
    let (s, a', done, id, queued) = open_and_send_result a payload ds idle up in
    (
      s,
      a',
      done,
      rw (queued, id) (arrives_whole b a.next_id payload ds fuel vb va.word accepting fits enough),
      rw (queued, id) (is_accepted b a.next_id payload ds fuel va.word accepting fits enough),
    )
