-- ===== src/Core/Protocol.antt =====
-- crates/rps-core/src/protocol.rs: the messages of the handshake and of the control channel, and
-- their transport as JSON behind a length. serde is a parameter, `Serde`.
pub mod Transport
use rps.Base.{
  ℕ, ◌+◌, ◌*◌, ◌%◌, ◌^◌, ◌/◌, ◌≡◌, Bool, true, false, Option, none, some, List, [], ◌∷◌, ◌++◌, ltb,
  if◌then◌else◌, length, Result, ok, err, ◌>>=◌, ok_or,
}
use rps.Base.Text.{Text, text}
use rps.Base.Words.{u32_to_be_bytes}
use rps.Base.Bytes.{IoResult, read_exact, read_u32, json_too_large, bad_json}

abbrev pub magic_text : Text
magic_text = text "RPS1"

abbrev pub version_text : Text
version_text = text "0.1.0"

abbrev pub max_json_message_len : ℕ
max_json_message_len = 1024 * 1024

pub data HelloRole : Type 0 where
  control data_role pool : HelloRole

pub record NoisePrelude : Type 0 where
  pub magic : Text
  pub client_id : Text
  pub version : Text

-- `NoisePrelude::new`
unfoldable pub new_prelude : Text → NoisePrelude
new_prelude client_id = record { magic = magic_text; client_id = client_id; version = version_text }

pub record Hello : Type 0 where
  pub magic : Text
  pub role : HelloRole
  pub client_id : Text
  pub version : Text

-- `Hello::new`
unfoldable pub new_hello : HelloRole → Text → Hello
new_hello role client_id = record {
  magic = magic_text;
  role = role;
  client_id = client_id;
  version = version_text;
}

pub record HelloAck : Type 0 where
  pub accepted : Bool
  pub error : Option Text
  pub server_version : Text

-- `HelloAck::ok` and `HelloAck::err`
unfoldable pub ack_ok : HelloAck
ack_ok = record { accepted = true; error = none; server_version = version_text }

unfoldable pub ack_err : Text → HelloAck
ack_err message = record { accepted = false; error = some message; server_version = version_text }

pub data TargetProtocol : Type 0 where
  tcp udp : TargetProtocol

pub record OpenRequest : Type 0 where
  pub tunnel_id : Text
  pub protocol : TargetProtocol
  pub target : Text
  pub remote_addr : Text
  pub timeout_ms : ℕ

pub record OpenResponse : Type 0 where
  pub accepted : Bool
  pub error : Option Text

-- `OpenResponse::ok` and `OpenResponse::err`
unfoldable pub response_ok : OpenResponse
response_ok = record { accepted = true; error = none }

unfoldable pub response_err : Text → OpenResponse
response_err message = record { accepted = false; error = some message }

pub data ControlMessage : Type 0 where
  ping : ℕ → ControlMessage
  pong : ℕ → ControlMessage
  shutdown : Text → ControlMessage

-- `serde_json::to_vec` and `from_slice` at a type: what is written is read back.
pub record Serde (A : Type 0) : Type 0 where
  pub to_vec : A → Option (List ℕ)
  pub from_slice : List ℕ → Option A
  pub from_slice-to_vec :
      (a : A) (bytes : List ℕ) → to_vec a ≡ some bytes → from_slice bytes ≡ some a

module _ {A : Type 0} (serde : Serde A) where
  -- The bytes that are written. `bytes.len() as u32` keeps the low 32 bits.
  unfoldable pub write_json : A → IoResult (List ℕ)
  write_json value = do
    bytes ← ok_or (serde.to_vec value) bad_json
    if ltb max_json_message_len (length bytes)
        then err json_too_large
        else ok (u32_to_be_bytes (length bytes % 2 ^ 32) ++ bytes)

  -- The value and what is left in the stream.
  unfoldable pub read_json : List ℕ → IoResult (A × List ℕ)
  read_json input = do
    (len, body) ← read_u32 input
    if ltb max_json_message_len len then err json_too_large else do
      (bytes, rest) ← read_exact len body
      value ← ok_or (serde.from_slice bytes) bad_json
      ok (value, rest)
