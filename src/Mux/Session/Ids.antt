-- ===== src/Mux/Session/Ids.antt =====
-- The ids that `open_stream` gives out.
use rps.Base.{
  ℕ, zero, suc, ◌+◌, ◌*◌, ◌%◌, ◌^◌, ◌<◌, ◌≡◌, refl, ◌∙◌, true, some, List, [], ◌∷◌, ◌⊎◌, inl, inr,
  length, get_elem?, ok, err, arith, nat_eq,
}
use rps.Mux.Frame.{Frame, FrameType}
use rps.Mux.Session.{
  Mux, MuxStream, on_frame, recv_frame, open_stream, push, send_ignored, add_channel,
}

-- The ids of the streams that are opened here, while the peer's frames come in between.
unfoldable pub open_ids : Mux → List (List ℕ ⊎ Frame) → List ℕ
open_ids m [] = []
open_ids m (inl payload ∷ rest) =
    let more = open_ids (open_stream m payload).1 rest in
    elim (open_stream m payload).0 [ ok s ↦ s.id ∷ more | err e ↦ more ]
open_ids m (inr f ∷ rest) = open_ids (recv_frame m f).0 rest

record IsSame (m m' : Mux) : Type 0 where
  next : m'.next_id ≡ m.next_id
  writing : m'.writer_open ≡ m.writer_open

on_frame-IsSame : (t : FrameType) (m : Mux) (f : Frame) → IsSame m (on_frame t m f).0
unfolding on_frame add_channel push send_ignored
on_frame-IsSame FrameType.open_stream m f = ground arith
on_frame-IsSame _ m f = ground arith

open_stream_result :
    (m : Mux) (payload : List ℕ)
    → m.writer_open ≡ true
    → (s : MuxStream) × ((open_stream m payload).0 ≡ ok s)
      × (s.id ≡ m.next_id)
      × ((open_stream m payload).1.next_id ≡ (m.next_id + 2) % 2 ^ 32)
      × ((open_stream m payload).1.writer_open ≡ true)
unfolding open_stream add_channel
open_stream_result m payload up = (
  record { id = m.next_id; inbound = length m.channels },
  ground arith,
  refl,
  ground arith,
  ground arith,
)

pub open_ids-get :
    (acts : List (List ℕ ⊎ Frame)) (m : Mux) (k : ℕ) {id : ℕ}
    → m.next_id < 2 ^ 32
    → m.writer_open ≡ true
    → get_elem? (open_ids m acts) k ≡ some id
    → id ≡ (m.next_id + 2 * k) % 2 ^ 32
unfolding open_ids recv_frame
open_ids-get [] m k w up h = cc
open_ids-get (inl payload ∷ rest) m zero w up h =
    let (s, done, same, next, writing) = open_stream_result m payload up in
    let h' = rw (done, open_ids) at h in ground arith
open_ids-get (inl payload ∷ rest) m (suc k) {id} w up h =
    let (s, done, same, next, writing) = open_stream_result m payload up in
    let h' = rw (done, open_ids) at h in
    omega (
      arith,
      next,
      open_ids-get rest (open_stream m payload).1 k {id = id} (omega (arith, next)) writing h',
    )
open_ids-get (inr f ∷ rest) m k {id} w up h =
    let same = on_frame-IsSame f.frame_type m f in
    omega (
      arith,
      same.next,
      open_ids-get rest (on_frame f.frame_type m f).0 k {id = id} (omega (arith, same.next))
          (same.writing ∙ up) h,
    )

-- Among 2 ^ 31 streams that are opened here in a row no two have the same id, whatever frames come in
-- between, as long as the writer task runs.
pub open_ids_distinct :
    (m : Mux) (acts : List (List ℕ ⊎ Frame)) (i j id : ℕ)
    → m.next_id < 2 ^ 32
    → m.writer_open ≡ true
    → get_elem? (open_ids m acts) i ≡ some id
    → get_elem? (open_ids m acts) j ≡ some id
    → i < 2 ^ 31
    → j < 2 ^ 31
    → i ≡ j
open_ids_distinct m acts i j id w up hi hj bi bj =
    omega (arith, open_ids-get acts m i {id = id} w up hi, open_ids-get acts m j {id = id} w up hj)
