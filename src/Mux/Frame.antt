-- ===== src/Mux/Frame.antt =====
-- crates/rps-mux/src/frame.rs: frames on the wire. A reader is the list of bytes that it will
-- yield; a writer's output is the list of bytes that it is given.
pub mod RoundTrip
pub mod Canonical
use rps.Base.{
  ℕ, ◌+◌, ◌*◌, ◌%◌, ◌^◌, ◌/◌, ◌≡◌, refl, Bool, true, false, List, [], ◌∷◌, ◌++◌, ltb, ◌==◌,
  if◌then◌else◌, length, get_or, Result, ok, err, ◌>>=◌,
}
use rps.Base.Words.{u32_to_be_bytes, u32_from_be_bytes}
use rps.Base.Bytes.{IoResult, read_exact, unknown_frame_type, payload_too_large}

abbrev pub header_len : ℕ
header_len = 9

abbrev pub max_payload_len : ℕ
max_payload_len = 16 * 1024 * 1024

pub data FrameType : Type 0 where
  open_stream open_ack payload_data close ping pong error : FrameType

-- `frame_type as u8`
unfoldable pub to_u8 : FrameType → ℕ
to_u8 open_stream = 0x01
to_u8 open_ack = 0x02
to_u8 payload_data = 0x03
to_u8 close = 0x04
to_u8 ping = 0x05
to_u8 pong = 0x06
to_u8 error = 0x07

unfoldable pub try_from : ℕ → IoResult FrameType
try_from value =
    if value == 0x01
    then ok open_stream
    else if value == 0x02
    then ok open_ack
    else if value == 0x03
    then ok payload_data
    else if value == 0x04
    then ok close
    else if value == 0x05
    then ok ping
    else if value == 0x06
    then ok pong
    else if value == 0x07
    then ok error
    else err (unknown_frame_type value)

pub record Frame : Type 0 where
  pub frame_type : FrameType
  pub stream_id : ℕ
  pub payload : List ℕ

-- `read_exact` is not called for an empty payload.
unfoldable pub read_payload : ℕ → List ℕ → IoResult (List ℕ × List ℕ)
read_payload len input = if ltb 0 len then read_exact len input else ok ([], input)

-- `read_frame` once the header is in: the frame and what is left in the stream.
unfoldable pub read_body : List ℕ → List ℕ → IoResult (Frame × List ℕ)
unfolding read_payload
read_body header body = do
  kind ← try_from (get_or header 0 0)
  let id =
      u32_from_be_bytes (get_or header 1 0) (get_or header 2 0) (get_or header 3 0)
        (get_or header 4 0)
  let len =
      u32_from_be_bytes (get_or header 5 0) (get_or header 6 0) (get_or header 7 0)
        (get_or header 8 0)
  if ltb max_payload_len len then err payload_too_large else do
    (payload, rest) ← read_payload len body
    ok (record { frame_type = kind; stream_id = id; payload = payload }, rest)

unfoldable pub read_frame : List ℕ → IoResult (Frame × List ℕ)
unfolding read_body
read_frame input = do (header, body) ← read_exact header_len input; read_body header body

unfoldable pub header_bytes : FrameType → ℕ → ℕ → List ℕ
header_bytes kind id len = to_u8 kind ∷ (u32_to_be_bytes id ++ u32_to_be_bytes (len % 2 ^ 32))

abbrev pub is_empty {ℓ} : {A : Type ℓ} → List A → Bool
is_empty [] = true
is_empty (x ∷ xs) = false

-- The bytes that are written. `payload.len() as u32` keeps the low 32 bits.
unfoldable pub write_frame : Frame → IoResult (List ℕ)
unfolding header_bytes
write_frame frame =
    if ltb max_payload_len (length frame.payload)
    then err payload_too_large
    else ok (header ++ (if is_empty frame.payload then [] else frame.payload))
  where
    header : List ℕ
    header = header_bytes frame.frame_type frame.stream_id (length frame.payload)
