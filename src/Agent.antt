-- ===== src/Agent.antt =====
-- crates/rps-agent/src/main.rs: where the configuration comes from, how the agent connects, what it
-- answers to open requests, and how many warm connections it keeps. What the operating system and the
-- peer do is given: the environment, the outcome of connects, and the messages that are read.
pub mod Pool
pub mod Target
mod Tests
use rps.Base.{
  ℕ, ◌+◌, max, Bool, true, false, ◌||◌, Option, none, some, List, [], ◌∷◌, ◌++◌, Result, ok, err,
  ◌>>=◌, ok_or, if◌then◌else◌,
}
use rps.Base.Text.{Text, text}
use rps.Base.Text.Trim.{trim}
use rps.Base.Text.Decimal.{decimal}
use rps.Base.Bytes.{IoError, IoResult}
use rps.Core.Config.{AgentConfig}
use rps.Core.Protocol.{
  NoisePrelude, Hello, HelloRole, HelloAck, new_prelude, new_hello, OpenRequest, OpenResponse,
  response_ok, response_err, TargetProtocol, Serde, ControlMessage, ping,
}

pub data AgentError : Type 0 where
  io : IoError → AgentError
  missing : Text → AgentError
  bad_interval connect_failed handshake_failed timed_out wrong_channel : AgentError
  invalid_payload : AgentError
  rejected : Text → AgentError

abbrev is_empty : Text → Bool
is_empty [] = true
is_empty (c ∷ s) = false

-- `env_value`, where `env` is `env::var(..).ok()`.
unfoldable pub env_value : (Text → Option Text) → Text → Option Text
env_value env name = elim (env name) [
  | none ↦ none
  | some value ↦ if is_empty (trim value) then none else some (trim value)
]

abbrev or_else : Option Text → Option Text → Option Text
or_else none other = other
or_else (some value) other = some value

abbrev is_some : Option Text → Bool
is_some none = false
is_some (some value) = true

-- `value.parse()` of a `u64` is given.
abbrev interval : (Text → Option ℕ) → Option Text → Result AgentError ℕ
interval parse none = ok 5
interval parse (some value) = ok_or (parse value) bad_interval

unfoldable pub from_env :
    (Text → Option ℕ)
    → Option Text
    → Option Text
    → Option Text
    → Option Text
    → Result AgentError AgentConfig
from_env parse server_addr client_id psk reconnect = do
  addr ← ok_or server_addr (missing (text "server_addr"))
  id ← ok_or client_id (missing (text "client_id"))
  secret ← ok_or psk (missing (text "psk"))
  secs ← interval parse reconnect
  ok (record { server_addr = addr; client_id = id; psk = secret; reconnect_interval_secs = secs })

-- Any of the variables overrides the whole file.
unfoldable pub load_agent_config_with_env :
    (Text → Option Text)
    → (Text → Option ℕ)
    → Result AgentError AgentConfig
    → Result AgentError AgentConfig
load_agent_config_with_env env parse file =
    let server_addr =
      or_else (env_value env (text "server_addr")) (env_value env (text "RPS_SERVER_ADDR")) in
    let client_id =
      or_else (env_value env (text "client_id")) (env_value env (text "RPS_CLIENT_ID")) in
    let psk = or_else (env_value env (text "psk")) (env_value env (text "RPS_PSK")) in
    let reconnect =
      or_else (env_value env (text "reconnect_interval_secs"))
        (env_value env (text "RPS_RECONNECT_INTERVAL_SECS")) in
    if is_some server_addr || (is_some client_id || (is_some psk || is_some reconnect))
    then from_env parse server_addr client_id psk reconnect
    else file

abbrev pub or_unknown : Option Text → Text
or_unknown none = text "unknown error"
or_unknown (some error) = error

-- What `connect_role` writes before and after the Noise handshake.
abbrev pub prelude_of : AgentConfig → NoisePrelude
prelude_of config = new_prelude config.client_id

abbrev pub hello_of : AgentConfig → HelloRole → Hello
hello_of config role = new_hello role config.client_id

-- What it makes of the answer. `connected` and `secured` say whether the connect and the Noise
-- handshake succeeded.
unfoldable pub connect_role : Bool → Bool → IoResult HelloAck → Result AgentError (Unit {0})
connect_role connected secured ack =
    if connected
    then (if secured
        then elim ack [
          | err e ↦ err (io e)
          | ok a ↦ if a.accepted then ok tt else err (rejected (or_unknown a.error))
        ]
        else err handshake_failed)
    else err connect_failed

-- How a connect to a target ends; `untuned` is a TCP connection whose options cannot be set.
pub data Connect : Type 0 where
  connects untuned times_out : Connect
  refuses : Text → Connect

-- `TcpStream::connect` and `UdpSocket::connect` under `open_timeout`, in the words of the answer.
unfoldable pub answer :
    Text → OpenRequest → Connect → Option OpenResponse × Result AgentError (Unit {0})
answer protocol request connects = (some response_ok, ok tt)
answer protocol request untuned = (none, err connect_failed)
answer protocol request (refuses why) = (
  some (response_err (protocol ++ text " connect " ++ request.target ++ text " failed: " ++ why)),
  err connect_failed,
)
answer protocol request times_out = (
  some (
      response_err (
        protocol
        ++ text " connect "
        ++ request.target
        ++ text " timed out after "
        ++ decimal request.timeout_ms
        ++ text "ms")),
  err timed_out,
)

-- `serve_pool_request`, until the relay starts.
unfoldable pub serve_pool_request :
    OpenRequest → Connect → Option OpenResponse × Result AgentError (Unit {0})
serve_pool_request request connect = elim request.protocol [
  | TargetProtocol.tcp ↦ answer (text "tcp") request connect
  | TargetProtocol.udp ↦
      (some (response_err (text "udp is not supported on pool channel")), err wrong_channel)
]

-- `handle_stream` on the multiplexed connection, until the relay starts; `bind` is the error of binding
-- a socket for datagrams.
unfoldable pub handle_stream :
    OpenRequest → Option Text → Connect → Option OpenResponse × Result AgentError (Unit {0})
handle_stream request bind connect = elim request.protocol [
  | TargetProtocol.tcp ↦ answer (text "tcp") request connect
  | TargetProtocol.udp ↦ elim bind [
    | some why ↦ (some (response_err (text "udp bind failed: " ++ why)), err connect_failed)
    | none ↦ answer (text "udp") request connect
  ]
]

-- What `handle_stream` makes of the payload of an open frame.
unfoldable pub handle_payload :
    Serde OpenRequest
    → List ℕ
    → Option Text
    → Connect
    → Option OpenResponse × Result AgentError (Unit {0})
handle_payload serde payload bind connect = elim (serde.from_slice payload) [
  | none ↦ (none, err invalid_payload)
  | some request ↦ handle_stream request bind connect
]

-- The loop of a control connection. A round is the time that the clock shows, whether the ping can be
-- written, and what is read after it. The result is the pings that are written.
unfoldable pub run_control : List (ℕ × Bool × IoResult ControlMessage) → List ControlMessage
run_control [] = []
run_control ((ts, false, message) ∷ rest) = []
run_control ((ts, true, err e) ∷ rest) = ping ts ∷ []
run_control ((ts, true, ok message) ∷ rest) = ping ts ∷ run_control rest
