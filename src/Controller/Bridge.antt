-- ===== src/Controller/Bridge.antt =====
-- crates/rps-controller/src/bridge.rs: the connections of agents. What a connection sends is given
-- message by message, as `read_json` (Core/Protocol) returns it; the Noise handshake is a parameter, that
-- says whether it succeeds with a secret. The streams of a data connection are in Mux/Session.
pub mod Serving
use rps.Base.{
  ℕ, Bool, true, false, Option, none, some, List, [], ◌∷◌, ◌++◌, if◌then◌else◌, Result, ok, err,
  eqb, nat_eq, list_eq,
}
use rps.Base.Int.{ℤ}
use rps.Base.Text.{Text, text}
use rps.Base.Map.{Map, get, insert, remove}
use rps.Base.Bytes.{IoError, IoResult}
use rps.Core.Protocol.{
  magic_text, NoisePrelude, Hello, HelloRole, HelloAck, ack_ok, ack_err, ControlMessage, ping, pong,
  shutdown,
}
use rps.Controller.Db.{Database, DbClient, DbError}
use rps.Controller.Db.Clients.{find_enabled_client_by_id}
use rps.Controller.Db.Sessions.{record_agent_connected, record_agent_disconnected}
use rps.Controller.Streams.{ClientConnection, Pooled}
use rps.Controller.App.{AppState}

pub data Refusal : Type 0 where
  io : IoError → Refusal
  bad_magic invalid_client_id handshake_failed hello_refused : Refusal

-- What is written after the handshake, and who was let in for what.
pub record Admission : Type 0 where
  pub ack : Option HelloAck
  pub outcome : Result Refusal (DbClient × HelloRole)

abbrev pub refuses : Option HelloAck → Refusal → Admission
refuses ack why = record { ack = ack; outcome = err why }

-- `handle_conn`, up to the role.
unfoldable pub admit : (Text → Bool) → Database → IoResult NoisePrelude → IoResult Hello → Admission
admit accepts db prelude hello = elim prelude [
  | err e ↦ refuses none (io e)
  | ok p ↦
      if eqb p.magic magic_text
      then elim (find_enabled_client_by_id db p.client_id) [
        | none ↦ refuses none invalid_client_id
        | some client ↦
            if accepts client.psk
            then elim hello [
              | err e ↦ refuses none (io e)
              | ok h ↦
                  if eqb h.magic magic_text
                  then (if eqb h.client_id client.id
                      then record { ack = some ack_ok; outcome = ok (client, h.role) }
                      else refuses (some (ack_err (text "client id mismatch"))) hello_refused)
                  else refuses (some (ack_err (text "bad magic"))) hello_refused
            ]
            else refuses none handshake_failed
      ]
      else refuses none bad_magic
]

-- The loop of a control connection: the pongs, until the agent shuts down or a read fails.
unfoldable pub control_loop : List (IoResult ControlMessage) → List ControlMessage
control_loop [] = []
control_loop (err e ∷ messages) = []
control_loop (ok (shutdown reason) ∷ messages) = []
control_loop (ok (pong ts) ∷ messages) = control_loop messages
control_loop (ok (ping ts) ∷ messages) = pong ts ∷ control_loop messages

-- A data connection comes up: the session is recorded, and the client gets a new entry with an empty
-- pool. Where the record fails the connection ends at once. `session_id` is drawn.
unfoldable pub data_up : AppState → ℤ → Text → Text → Text → Result DbError Text × AppState
data_up s now client_id session_id remote_addr =
    let recorded = record_agent_connected s.db now session_id client_id (text "data") remote_addr in
    elim recorded.0 [
      | err e ↦ (err e, record s { db = recorded.1 })
      | ok id ↦ (
        ok id,
        record s {
          db = recorded.1;
          clients = insert s.clients client_id (record { data_session_id = id; pool = [] });
        },
      )
    ]

-- `remove_if`: only the entry of this session.
abbrev pub remove_if : Map Text ClientConnection → Text → Text → Map Text ClientConnection
remove_if clients client_id session_id = elim (get clients client_id) [
  | none ↦ clients
  | some current ↦
      if eqb current.data_session_id session_id then remove clients client_id else clients
]

-- A data connection ends.
unfoldable pub data_down : AppState → ℤ → Text → Text → AppState
data_down s now client_id session_id = record s {
  clients = remove_if s.clients client_id session_id;
  db = record_agent_disconnected s.db now session_id client_id;
}

-- A pool connection is parked with its client, or dropped where there is no data connection.
unfoldable pub pool_up : AppState → Text → Pooled → AppState
pool_up s client_id stream = elim (get s.clients client_id) [
  | none ↦ s
  | some connection ↦ record s {
    clients =
        insert s.clients client_id (record connection { pool = connection.pool ++ stream ∷ [] });
  }
]
