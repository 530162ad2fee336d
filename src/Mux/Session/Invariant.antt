-- ===== src/Mux/Session/Invariant.antt =====
-- The invariant of a connection: no two streams share an inbound channel, and every stream's
-- channel exists; the next id is an odd 32-bit number.
use rps.Base.{
  ℕ, ◌+◌, ◌%◌, ◌^◌, ◌<◌, ◌≡◌, refl, Bool, true, false, none, some, List, [], ◌∷◌, if◌then◌else◌,
  length, get_elem?, set, ok, nat_eq, arith, length-append, length-set, ==_iff,
}
use rps.Base.Map.{get, remove, get-insert, get-remove}
use rps.Base.{Bool-cases, Option-cases, inl, inr}
use rps.Mux.Frame.{is_empty, Frame, FrameType, open_ack, payload_data, close, ping, pong, error}
use rps.Mux.Session.{
  Mux, MuxStream, Channel, new, add_channel, push, send_channel, on_frame, recv_frame, open_stream,
  send_data, close_stream, recv_data, accept, send_ignored, send_frame, Step, Reach, arrives, opens,
  sends, closes, receives, accepts, writes, writer_stops, accept_stops, drops, start, step,
}

pub record IsWellFormed (m : Mux) : Type 0 where
  pub bounded : (id c : ℕ) → get m.streams id ≡ some c → c < length m.channels
  pub unshared : (i j c : ℕ) → get m.streams i ≡ some c → get m.streams j ≡ some c → i ≡ j
  pub odd : m.next_id % 2 ≡ 1
  pub word : m.next_id < 2 ^ 32

pub new-IsWellFormed : IsWellFormed new
unfolding new get
new-IsWellFormed = record {
  bounded = λ id c h. cc;
  unshared = λ i j c h k. cc;
  odd = omega arith;
  word = omega arith;
}

pub add_channel-IsWellFormed :
    {m : Mux} (id : ℕ) (queue : List (List ℕ)) (receiver : Bool)
    → IsWellFormed m
    → IsWellFormed (add_channel m id queue receiver)
unfolding add_channel
add_channel-IsWellFormed {m} id queue receiver v = record {
  bounded = λ j c h. ground (
    arith,
    get-insert m.streams id j (length m.channels),
    length-append m.channels (record { queue = queue; receiver = receiver } ∷ []),
    v.bounded j c,
  );
  unshared = λ i j c h k. ground (
    arith,
    get-insert m.streams id i (length m.channels),
    get-insert m.streams id j (length m.channels),
    v.bounded i c,
    v.bounded j c,
    v.unshared i j c,
    ==_iff id i,
    ==_iff id j,
  );
  odd = v.odd;
  word = v.word;
}

remove-IsWellFormed :
    {m : Mux} (id : ℕ) → IsWellFormed m → IsWellFormed (record m { streams = remove m.streams id })
remove-IsWellFormed {m} id v = record {
  bounded = λ j c h. ground (arith, get-remove m.streams id j, v.bounded j c);
  unshared = λ i j c h k.
      ground (arith, get-remove m.streams id i, get-remove m.streams id j, v.unshared i j c);
  odd = v.odd;
  word = v.word;
}

push-IsWellFormed :
    {m : Mux} (c : ℕ) (payload : List ℕ) → IsWellFormed m → IsWellFormed (push m c payload)
unfolding push
push-IsWellFormed {m} c payload v =
    elim (get_elem? m.channels c)
      as (λ o. IsWellFormed (elim o [
        | none ↦ m
        | some channel ↦ record m { channels = set m.channels c (send_channel channel payload) }
      ])) [
        | none ↦ v
        | some channel ↦ record {
          bounded = λ j d h.
              omega
                (arith, v.bounded j d h, length-set m.channels c (send_channel channel payload));
          unshared = v.unshared;
          odd = v.odd;
          word = v.word;
        }
      ]

-- The invariant reads only the table of streams, the next id and the number of channels.
same_streams :
    {m m' : Mux}
    → m'.streams ≡ m.streams
    → m'.next_id ≡ m.next_id
    → length m'.channels ≡ length m.channels
    → IsWellFormed m
    → IsWellFormed m'
same_streams {m} {m'} e n l v = record {
  bounded = λ j c h. omega (arith, l, v.bounded j c (rw e at h));
  unshared = λ i j c h k. v.unshared i j c (rw e at h) (rw e at k);
  odd = rw n v.odd;
  word = rw n v.word;
}

send_ignored-IsWellFormed : {m : Mux} (f : Frame) → IsWellFormed m → IsWellFormed (send_ignored m f)
unfolding send_ignored
send_ignored-IsWellFormed {m} f v =
    same_streams {m = m} (ground arith) (ground arith) (ground arith) v

pub on_frame-IsWellFormed :
    {m : Mux} (t : FrameType) (f : Frame) → IsWellFormed m → IsWellFormed (on_frame t m f).0
unfolding on_frame
on_frame-IsWellFormed {m} FrameType.open_stream f v =
    let first : List (List ℕ) = if is_empty f.payload then [] else f.payload ∷ [] in
    let w = add_channel-IsWellFormed {m = m} f.stream_id first m.incoming_open v in
    elim (Bool-cases m.incoming_open) [
      | inl up ↦ rw up (send_ignored-IsWellFormed _ (same_streams refl refl refl (rw up at w)))
      | inr down ↦ rw down (rw down at w)
    ]
on_frame-IsWellFormed open_ack f v = v
on_frame-IsWellFormed {m} payload_data f v = elim (Option-cases (get m.streams f.stream_id)) [
  | inl e ↦ rw (e, on_frame) v
  | inr (c, e) ↦ rw (e, on_frame) (push-IsWellFormed c f.payload v)
]
on_frame-IsWellFormed close f v = remove-IsWellFormed f.stream_id v
on_frame-IsWellFormed error f v = remove-IsWellFormed f.stream_id v
on_frame-IsWellFormed ping f v = send_ignored-IsWellFormed _ v
on_frame-IsWellFormed pong f v = v

open_stream-IsWellFormed :
    {m : Mux} (payload : List ℕ) → IsWellFormed m → IsWellFormed (open_stream m payload).1
unfolding open_stream
open_stream-IsWellFormed {m} payload v =
    let counted : Mux = record m { next_id = (m.next_id + 2) % 2 ^ 32 } in
    let w : IsWellFormed counted = record {
      bounded = v.bounded;
      unshared = v.unshared;
      odd = omega (arith, v.odd);
      word = omega arith;
    } in
    let opened = add_channel-IsWellFormed m.next_id [] true w in
    elim (Bool-cases (add_channel counted m.next_id [] true).writer_open) [
      | inl up ↦ rw (up, open_stream) (same_streams refl refl refl opened)
      | inr down ↦ rw (down, open_stream) (remove-IsWellFormed m.next_id opened)
    ]

abbrev rest_of {ℓ} : {A : Type ℓ} → List A → List A
rest_of [] = []
rest_of (x ∷ xs) = xs

recv_data-IsWellFormed :
    {m m' : Mux} (s : MuxStream) {payload : List ℕ}
    → recv_data m s ≡ some (payload, m')
    → IsWellFormed m
    → IsWellFormed m'
unfolding recv_data
recv_data-IsWellFormed {m} {m'} s {payload} e v =
    same_streams {m = m} (ground arith) (ground arith)
      (elim (Option-cases (get_elem? m.channels s.inbound)) [
        | inl none' ↦ absurd (ground arith)
        | inr (channel, found) ↦ go channel found
      ])
      v
  where
    go :
        (channel : Channel)
        → get_elem? m.channels s.inbound ≡ some channel
        → length m'.channels ≡ length m.channels
    go channel found =
        ground (
          arith,
          length-set m.channels s.inbound (record channel { queue = rest_of channel.queue }),
        )

send_frame-IsWellFormed :
    {m m' : Mux} (f : Frame) → send_frame m f ≡ ok m' → IsWellFormed m → IsWellFormed m'
unfolding send_frame
send_frame-IsWellFormed {m} f e v =
    same_streams {m = m} (ground arith) (ground arith) (ground arith) v

-- Each step of the two tasks and of the handles keeps the invariant.
Step-IsWellFormed : {m m' : Mux} → Step m m' → IsWellFormed m → IsWellFormed m'
unfolding recv_frame send_data close_stream accept
Step-IsWellFormed (arrives f) v = on_frame-IsWellFormed f.frame_type f v
Step-IsWellFormed (opens payload) v = open_stream-IsWellFormed payload v
Step-IsWellFormed (sends id payload e) v = send_frame-IsWellFormed _ e v
Step-IsWellFormed (closes id e) v = send_frame-IsWellFormed _ e v
Step-IsWellFormed {m' = m'} (receives s payload e) v =
    recv_data-IsWellFormed {m' = m'} s {payload = payload} e v
Step-IsWellFormed {m} (accepts s e) v =
    same_streams {m = m} (ground arith) (ground arith) (ground arith) v
Step-IsWellFormed (writes f fs e) v = same_streams refl refl refl v
Step-IsWellFormed (writer_stops) v = same_streams refl refl refl v
Step-IsWellFormed (accept_stops) v = same_streams refl refl refl v
Step-IsWellFormed {m} (drops c channel e) v =
    same_streams refl refl (length-set m.channels c (record channel { receiver = false })) v

-- Whatever the peer sends and the program does on a connection, no two ids in its table of streams
-- ever share an inbound channel, the channel of each exists, and the next id is an odd 32-bit number:
-- on both ends, so that the ids of the two are not kept apart.
pub Reach-IsWellFormed : {m : Mux} → Reach m → IsWellFormed m
Reach-IsWellFormed start = new-IsWellFormed
Reach-IsWellFormed (step r s) = Step-IsWellFormed s (Reach-IsWellFormed r)
