-- ===== src/Mux/Session/Wire.antt =====
-- From one connection's writer task to the other's reader task.
use rps.Base.{
  ℕ, zero, suc, ◌≤◌, ◌<◌, ◌≡◌, refl, sym, ap, ◌∙◌, true, false, List, [], ◌∷◌, ◌++◌, inl, inr,
  length, All, ok, err, ◌>>=◌, arith, length-append, get_or,
}
use rps.Base.Words.{IsU32, u32_from_be_bytes}
use rps.Base.Bytes.{IoResult, read_exact, read_exact-eq-ok, read_exact-cases}
use rps.Mux.Frame.{
  Frame, read_frame, read_body, write_frame, max_payload_len, header_bytes, header_len,
}
use rps.Mux.Frame.RoundTrip.{read_frame-write_frame, write_frame-eq, read_payload-eq-ok}
use rps.Mux.Session.{Mux, recv_frame, recv_all, read_loop, write_loop}

abbrev pub IsSendable : Frame → Type 0
IsSendable f = IsU32 f.stream_id × (length f.payload ≤ max_payload_len)

read_body_shorter :
    (header body : List ℕ) {f : Frame} {rest : List ℕ}
    → read_body header body ≡ ok (f, rest)
    → length rest ≤ length body
unfolding read_body
read_body_shorter header body {f} {rest} e =
    let n : ℕ =
      u32_from_be_bytes (get_or header 5 0) (get_or header 6 0) (get_or header 7 0)
        (get_or header 8 0) in
    ground
      (arith, read_payload-eq-ok n body {a = f.payload} {b = rest}, length-append f.payload rest)

read_frame_shorter :
    (input : List ℕ) {f : Frame} {rest : List ℕ}
    → read_frame input ≡ ok (f, rest)
    → length rest < length input
unfolding read_frame
read_frame_shorter input {f} {rest} e = elim (read_exact-cases header_len input) [
  | inl ((header, body), found) ↦
      let (split, l) = read_exact-eq-ok header_len input found in
      rw split (
        rw length-append (
          omega (
            arith,
            l,
            read_body_shorter header body {f = f} {rest = rest} (rw (found, ◌>>=◌) at e),
          )))
  | inr eof ↦ absurd (ground arith)
]

read_loop-nil : (fuel : ℕ) (m : Mux) → read_loop fuel m [] ≡ m
unfolding read_loop read_frame read_exact
read_loop-nil zero m = refl
read_loop-nil (suc fuel) m = refl

read_loop_round :
    (f e : ℕ) (m : Mux) (input : List ℕ) (r : IoResult (Frame × List ℕ))
    → read_frame input ≡ r
    → ((g : Frame) (rest : List ℕ)
        → read_frame input ≡ ok (g, rest)
        → read_loop f (recv_frame m g).0 rest ≡ read_loop e (recv_frame m g).0 rest)
    → read_loop (suc f) m input ≡ read_loop (suc e) m input
unfolding read_loop
read_loop_round f e m input (err x) eq ih = rw (eq, read_loop) refl
read_loop_round f e m input (ok (g, rest)) eq ih =
    rw (eq, read_loop)
      (ap (λ (m' : Mux). elim (recv_frame m g).1 [ true ↦ m' | false ↦ (recv_frame m g).0 ])
        (ih g rest eq))

-- As many rounds as there are bytes are enough for the reader: more change nothing.
pub read_loop_fuel :
    (fuel enough : ℕ) (m : Mux) (input : List ℕ)
    → length input ≤ fuel
    → length input ≤ enough
    → read_loop fuel m input ≡ read_loop enough m input
read_loop_fuel fuel enough m [] h k = read_loop-nil fuel m ∙ sym (read_loop-nil enough m)
read_loop_fuel zero enough m (b ∷ bs) h k = absurd (omega arith)
read_loop_fuel (suc fuel) zero m (b ∷ bs) h k = absurd (omega arith)
read_loop_fuel (suc fuel) (suc enough) m (b ∷ bs) h k =
    read_loop_round fuel enough m (b ∷ bs) (read_frame (b ∷ bs)) refl λ g rest eq.
      read_loop_fuel fuel enough (recv_frame m g).0 rest
        (omega (arith, read_frame_shorter (b ∷ bs) {f = g} {rest = rest} eq))
        (omega (arith, read_frame_shorter (b ∷ bs) {f = g} {rest = rest} eq))

write_loop-sendable :
    (f : Frame) (fs : List Frame)
    → IsSendable f
    → (bytes : List ℕ) × (write_frame f ≡ ok bytes) × (write_loop (f ∷ fs) ≡ bytes ++ write_loop fs)
unfolding write_loop
write_loop-sendable f fs h =
    let e = write_frame-eq f h.1 in
    (
      header_bytes f.frame_type f.stream_id (length f.payload) ++ f.payload,
      e,
      rw (e, write_loop) refl,
    )

-- The frames that one side's writer task sends are the frames that the other side's reader task
-- handles, as long as their ids and payloads fit a frame and there is a round for each.
pub read_loop-write_loop :
    (fs : List Frame) (fuel : ℕ) (m : Mux)
    → All IsSendable fs
    → length fs ≤ fuel
    → read_loop fuel m (write_loop fs) ≡ recv_all m fs
unfolding read_loop recv_all
read_loop-write_loop [] zero m h k = refl
read_loop-write_loop [] (suc fuel) m h k = unfold write_loop read_frame read_exact in refl
read_loop-write_loop (f ∷ fs) zero m h k = absurd (omega arith)
read_loop-write_loop (f ∷ fs) (suc fuel) m h k =
    let (bytes, wrote, split) = write_loop-sendable f fs h.0 in
    rw split (
      rw (read_frame-write_frame f (write_loop fs) bytes h.0.0 wrote, read_loop)
        (ap (λ (rest : Mux). elim (recv_frame m f).1 [ true ↦ rest | false ↦ (recv_frame m f).0 ])
          (read_loop-write_loop fs fuel (recv_frame m f).0 h.1 (omega arith))))
