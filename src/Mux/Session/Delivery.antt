-- ===== src/Mux/Session/Delivery.antt =====
-- What a stream's reader receives: the payloads of its data frames, in their order.
use rps.Base.{
  ℕ, ◌≡◌, ◌≢◌, refl, ◌∙◌, Bool, true, false, ◌&&◌, some, List, [], ◌∷◌, ◌++◌, ◌==◌, if◌then◌else◌,
  length, get_elem?, All, nat_eq, arith, ==_iff, Bool-cases, Option-cases, inl, inr,
  get_elem?-set_self, get_elem?-set_ne, get_elem?-bound, get_elem?-append_left,
}
use mathlib.Core.List.{append_assoc, append-nil}
use rps.Base.Map.{get, remove, get-insert, get-remove}
use rps.Mux.Frame.{Frame, FrameType, open_ack, payload_data, close, ping, pong, error, is_empty}
use rps.Mux.Session.{
  Mux, add_channel, push, send_channel, on_frame, recv_frame, send_ignored, recv_all,
}
use rps.Mux.Session.Invariant.{IsWellFormed, on_frame-IsWellFormed}

-- The payloads of the data frames of stream `id`.
abbrev pub is_data : FrameType → Bool
is_data payload_data = true
is_data _ = false

abbrev pub delivered : ℕ → List Frame → List (List ℕ)
delivered id [] = []
delivered id (f ∷ fs) =
    (if (f.stream_id == id) && is_data f.frame_type then f.payload ∷ [] else []) ++ delivered id fs

-- Frames that give a stream's id away or end it.
abbrev pub reassigns : FrameType → Bool
reassigns FrameType.open_stream = true
reassigns close = true
reassigns error = true
reassigns _ = false

abbrev pub IsUndisturbed : ℕ → List Frame → Type 0
IsUndisturbed id = All (λ f. ((f.stream_id == id) && reassigns f.frame_type) ≡ false)

-- The stream `id` is open with the channel `c`, whose receiver has not yet taken `queue`.
pub record IsOpen (m : Mux) (id c : ℕ) (queue : List (List ℕ)) : Type 0 where
  pub mapped : get m.streams id ≡ some c
  pub holds : get_elem? m.channels c ≡ some (record { queue = queue; receiver = true })

module _ {m : Mux} {id c : ℕ} {queue : List (List ℕ)} (o : IsOpen m id c queue) where
  add_channel-IsOpen :
      (other : ℕ) (first : List (List ℕ)) (receiver : Bool)
      → (other == id) ≡ false
      → IsOpen (add_channel m other first receiver) id c queue
  unfolding add_channel
  add_channel-IsOpen other first receiver ne = record {
    mapped = ground (arith, get-insert m.streams other id (length m.channels), o.mapped);
    holds = get_elem?-append_left m.channels _ c (get_elem?-bound m.channels c o.holds) ∙ o.holds;
  }

  send_ignored-IsOpen : (f : Frame) → IsOpen (send_ignored m f) id c queue
  unfolding send_ignored
  send_ignored-IsOpen f = record { mapped = ground arith; holds = ground arith }

  remove-IsOpen :
      (other : ℕ)
      → (other == id) ≡ false
      → IsOpen (record m { streams = remove m.streams other }) id c queue
  remove-IsOpen other ne = record {
    mapped = ground (arith, get-remove m.streams other id);
    holds = o.holds;
  }

  push-IsOpen : (payload : List ℕ) → IsOpen (push m c payload) id c (queue ++ payload ∷ [])
  unfolding push
  push-IsOpen payload =
      rw (o.holds, push)
        (record {
          mapped = o.mapped;
          holds = get_elem?-set_self m.channels c _ (get_elem?-bound m.channels c o.holds);
        })

  push_other-IsOpen : (d : ℕ) (payload : List ℕ) → d ≢ c → IsOpen (push m d payload) id c queue
  unfolding push
  push_other-IsOpen d payload ne = elim (Option-cases (get_elem? m.channels d)) [
    | inl e ↦ rw (e, push) o
    | inr (channel, e) ↦
        rw (e, push)
          (record {
            mapped = o.mapped;
            holds = get_elem?-set_ne m.channels (send_channel channel payload) ne ∙ o.holds;
          })
  ]

abbrev one : ℕ → FrameType → Frame → List (List ℕ)
one id t f = if (f.stream_id == id) && is_data t then f.payload ∷ [] else []

-- One frame: the reader goes on, and the stream has what the frame brought it.
record IsServed (r : Mux × Bool) (id c : ℕ) (queue : List (List ℕ)) : Type 0 where
  open_stream' : IsOpen r.0 id c queue
  goes_on : r.1 ≡ true
  accepting : r.0.incoming_open ≡ true

kept :
    {m : Mux} {id c : ℕ} {queue : List (List ℕ)} (t : FrameType) (f : Frame)
    → ((f.stream_id == id) && is_data t) ≡ false
    → m.incoming_open ≡ true
    → IsOpen m id c queue
    → IsServed (m, true) id c (queue ++ one id t f)
kept {queue = queue} t f h up o = record {
  open_stream' = record { mapped = o.mapped; holds = ground (arith, o.holds, append-nil queue) };
  goes_on = refl;
  accepting = up;
}

send_ignored-accepting : (m : Mux) (f : Frame) → (send_ignored m f).incoming_open ≡ m.incoming_open
unfolding send_ignored
send_ignored-accepting m f = ground arith

push-accepting :
    (m : Mux) (c : ℕ) (payload : List ℕ) → (push m c payload).incoming_open ≡ m.incoming_open
unfolding push
push-accepting m c payload = ground arith

module _ {m : Mux} {id c : ℕ} {queue : List (List ℕ)} (v : IsWellFormed m)
    (up : m.incoming_open ≡ true) (o : IsOpen m id c queue) where
  on_data-IsServed :
      (f : Frame) → IsServed (on_frame payload_data m f) id c (queue ++ one id payload_data f)
  unfolding on_frame
  on_data-IsServed f = elim (Bool-cases (f.stream_id == id)) [
    | inl same ↦
        let e : f.stream_id ≡ id = (==_iff f.stream_id id).0 same in
        rw (e, o.mapped, on_frame)
          (record {
            open_stream' = rw ((==_iff id id).1 refl) (push-IsOpen o f.payload);
            goes_on = refl;
            accepting = push-accepting m c f.payload ∙ up;
          })
    | inr other ↦ elim (Option-cases (get m.streams f.stream_id)) [
      | inl e ↦ rw (e, on_frame) (kept payload_data f (ground arith) up o)
      | inr (d, e) ↦
          rw (e, on_frame)
            (kept payload_data f (ground arith) (push-accepting m d f.payload ∙ up) (
              push_other-IsOpen o d f.payload
                (λ same. ground (arith, v.unshared f.stream_id id c))))
    ]
  ]

  on_open-IsServed :
      (f : Frame)
      → (f.stream_id == id) ≡ false
      → IsServed (on_frame FrameType.open_stream m f) id c (queue ++ one id FrameType.open_stream f)
  unfolding on_frame add_channel
  on_open-IsServed f h =
      let first : List (List ℕ) = if is_empty f.payload then [] else f.payload ∷ [] in
      let opened = add_channel-IsOpen o f.stream_id first true h in
      rw up (
        kept FrameType.open_stream f (ground arith) (send_ignored-accepting _ _ ∙ refl)
          (send_ignored-IsOpen (record { mapped = opened.mapped; holds = opened.holds }) _))

  on_frame-IsServed :
      (t : FrameType) (f : Frame)
      → ((f.stream_id == id) && reassigns t) ≡ false
      → IsServed (on_frame t m f) id c (queue ++ one id t f)
  unfolding on_frame
  on_frame-IsServed FrameType.open_stream f h = on_open-IsServed f (ground arith)
  on_frame-IsServed open_ack f h = kept open_ack f (ground arith) up o
  on_frame-IsServed payload_data f h = on_data-IsServed f
  on_frame-IsServed close f h =
      kept close f (ground arith) up (remove-IsOpen o f.stream_id (ground arith))
  on_frame-IsServed error f h =
      kept error f (ground arith) up (remove-IsOpen o f.stream_id (ground arith))
  on_frame-IsServed ping f h =
      kept ping f (ground arith) (send_ignored-accepting _ _ ∙ up) (send_ignored-IsOpen o _)
  on_frame-IsServed pong f h = kept pong f (ground arith) up o

-- On a well-formed connection that accepts streams, and while no frame gives the open stream `id`
-- away or ends it: what its reader has not taken yet grows by the payloads of its data frames, whole,
-- once each and in the order in which they came, whatever comes for other streams.
pub recv_all-delivered :
    (fs : List Frame) {m : Mux} (id c : ℕ) (queue : List (List ℕ))
    → IsWellFormed m
    → m.incoming_open ≡ true
    → IsOpen m id c queue
    → IsUndisturbed id fs
    → IsOpen (recv_all m fs) id c (queue ++ delivered id fs)
unfolding recv_all recv_frame
recv_all-delivered [] id c queue v up o h = rw append-nil o
recv_all-delivered (f ∷ fs) {m} id c queue v up o h =
    let s = on_frame-IsServed v up o f.frame_type f h.0 in
    rw (s.goes_on, recv_all)
      (rw (← append_assoc queue (one id f.frame_type f) (delivered id fs)) (
        recv_all-delivered fs id c (queue ++ one id f.frame_type f)
          (on_frame-IsWellFormed f.frame_type f v) s.accepting s.open_stream' h.1))
