-- ===== src/Mux/Frame/RoundTrip.antt =====
-- What is written is read back, and only that.
use rps.Base.{
  ℕ, ◌%◌, ◌^◌, ◌/◌, ◌≤◌, ◌≡◌, refl, List, [], ◌∷◌, ◌++◌, ltb, inl, inr, if◌then◌else◌, length, ok,
  arith, Bool-cases,
}
use mathlib.Core.List.{append_assoc}
use rps.Base.Words.{IsU32, u32_from_be_bytes, u32_round}
use rps.Base.Bytes.{read_exact-append, read_exact-eq-ok}
use rps.Mux.Frame.{
  Frame, FrameType, header_bytes, to_u8, try_from, read_frame, write_frame, read_payload,
  max_payload_len, is_empty, open_stream,
}

try_from-to_u8 : (t : FrameType) → try_from (to_u8 t) ≡ ok t
unfolding try_from to_u8
try_from-to_u8 open_stream = refl
try_from-to_u8 _ = refl

read_payload-append : (xs rest : List ℕ) → read_payload (length xs) (xs ++ rest) ≡ ok (xs, rest)
unfolding read_payload
read_payload-append [] rest = refl
read_payload-append (x ∷ xs) rest = ground (arith, read_exact-append (x ∷ xs) rest)

append_if_empty : (xs : List ℕ) → (if is_empty xs then [] else xs) ≡ xs
append_if_empty [] = refl
append_if_empty (x ∷ xs) = refl

pub write_frame-eq :
    (f : Frame)
    → length f.payload ≤ max_payload_len
    → write_frame f ≡ ok (header_bytes f.frame_type f.stream_id (length f.payload) ++ f.payload)
unfolding write_frame
write_frame-eq f h = ground (arith, append_if_empty f.payload)

length_word :
    (n : ℕ)
    → n ≤ max_payload_len
    → u32_from_be_bytes
        (n % 2 ^ 32 / 2 ^ 24 % 256)
        (n % 2 ^ 32 / 2 ^ 16 % 256)
        (n % 2 ^ 32 / 2 ^ 8 % 256)
        (n % 2 ^ 32 % 256)
      ≡ n
length_word n h = omega arith

pub read_frame-header :
    (t : FrameType) (id : ℕ) (payload rest : List ℕ)
    → IsU32 id
    → length payload ≤ max_payload_len
    → read_frame ((header_bytes t id (length payload) ++ payload) ++ rest)
      ≡ ok (record { frame_type = t; stream_id = id; payload = payload }, rest)
unfolding read_frame header_bytes
read_frame-header t id payload rest hid hlen =
    rw (append_assoc (header_bytes t id (length payload)) payload rest) (
      rw (read_exact-append (header_bytes t id (length payload)) (payload ++ rest)) (
        rw (try_from-to_u8 t, u32_round id hid, length_word _ hlen)
          (ground (arith, read_payload-append payload rest))))

-- What `write_frame` puts on the wire, for a frame with a 32-bit id, `read_frame` reads back, and
-- leaves whatever follows it.
pub read_frame-write_frame :
    (f : Frame) (rest bytes : List ℕ)
    → IsU32 f.stream_id
    → write_frame f ≡ ok bytes
    → read_frame (bytes ++ rest) ≡ ok (f, rest)
unfolding write_frame
read_frame-write_frame f rest bytes hid h =
    elim (Bool-cases (ltb max_payload_len (length f.payload))) [
      | inl large ↦ ground arith
      | inr fits ↦ ground (
        arith,
        append_if_empty f.payload,
        read_frame-header f.frame_type f.stream_id f.payload rest hid,
      )
    ]

pub to_u8-try_from : (b : ℕ) {t : FrameType} → try_from b ≡ ok t → to_u8 t ≡ b
unfolding try_from to_u8
to_u8-try_from b h = ground arith

pub read_payload-eq-ok :
    (n : ℕ) (input : List ℕ) {a b : List ℕ}
    → read_payload n input ≡ ok (a, b)
    → (input ≡ a ++ b) × (length a ≡ n)
unfolding read_payload
read_payload-eq-ok n input {a} {b} h = ground (arith, read_exact-eq-ok n input {a = a} {b = b})
