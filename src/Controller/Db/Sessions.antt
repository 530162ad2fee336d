-- ===== src/Controller/Db/Sessions.antt =====
-- crates/rps-controller/src/db.rs: which agents are online, and which streams were opened.
pub mod Online
use rps.Base.{
  ℕ, Bool, true, false, Option, none, some, List, [], ◌∷◌, ◌++◌, if◌then◌else◌, Result, ok, err,
  ◌>>=◌, eqb, nat_eq, list_eq,
}
use rps.Base.Int.{ℤ, pos}
use rps.Base.Text.{Text, text}
use rps.Core.Protocol.{TargetProtocol}
use rps.Controller.Sql.{has_row, update_where}
use rps.Controller.Db.{
  Database, AgentSessionRow, ClientOnlineRow, StreamSessionRow, DbError, constraint,
}
use rps.Controller.Db.Columns.{target_protocol_to_str}

abbrev pub is_online_row : Text → ClientOnlineRow → Bool
is_online_row client_id row = eqb row.client_id client_id

-- The column that a role writes, and the row with it.
abbrev pub set_online : Text → ℤ → ClientOnlineRow → ClientOnlineRow
set_online role now row =
    if eqb role (text "data")
    then record row { online = pos 1; data_connected_at = some now; last_seen = some now }
    else record row { online = pos 1; control_connected_at = some now; last_seen = some now }

abbrev pub set_offline : ℤ → ClientOnlineRow → ClientOnlineRow
set_offline now row = record row { online = pos 0; last_seen = some now }

abbrev pub fresh_online : Text → ClientOnlineRow
fresh_online client_id = record {
  client_id = client_id;
  online = pos 0;
  control_connected_at = none;
  data_connected_at = none;
  last_seen = none;
}

-- `on conflict(client_id) do update`
unfoldable pub upsert_online : Database → Text → (ClientOnlineRow → ClientOnlineRow) → Database
upsert_online db client_id change = record db {
  client_online =
      if has_row (is_online_row client_id) db.client_online
      then update_where (is_online_row client_id) change db.client_online
      else db.client_online ++ change (fresh_online client_id) ∷ [];
}

-- `session_id` is drawn.
unfoldable pub record_agent_connected :
    Database → ℤ → Text → Text → Text → Text → Result DbError Text × Database
record_agent_connected db now session_id client_id role remote_addr =
    let row : AgentSessionRow = record {
      id = session_id;
      client_id = client_id;
      role = role;
      remote_addr = some remote_addr;
      connected_at = now;
      disconnected_at = none;
    } in
    if has_row (λ (r : AgentSessionRow). eqb r.id session_id) db.agent_sessions
    then (err constraint, db)
    else (
      ok session_id,
      upsert_online (record db { agent_sessions = db.agent_sessions ++ row ∷ [] }) client_id
          (set_online role now),
    )

abbrev pub set_disconnected : ℤ → AgentSessionRow → AgentSessionRow
set_disconnected now row = record row { disconnected_at = some now }

unfoldable pub record_agent_disconnected : Database → ℤ → Text → Text → Database
record_agent_disconnected db now session_id client_id =
    upsert_online
      (record db {
        agent_sessions =
            update_where (λ (r : AgentSessionRow). eqb r.id session_id) (set_disconnected now)
              db.agent_sessions;
      })
      client_id (set_offline now)

unfoldable pub record_stream_open :
    Database
    → ℤ
    → Text
    → Text
    → Text
    → TargetProtocol
    → Text
    → Text
    → Result DbError Text × Database
record_stream_open db now stream_id client_id tunnel_id protocol target remote_addr =
    let row : StreamSessionRow = record {
      id = stream_id;
      client_id = client_id;
      tunnel_id = tunnel_id;
      protocol = target_protocol_to_str protocol;
      target = target;
      remote_addr = remote_addr;
      rx_bytes = pos 0;
      tx_bytes = pos 0;
      opened_at = now;
      closed_at = none;
    } in
    if has_row (λ (r : StreamSessionRow). eqb r.id stream_id) db.stream_sessions
    then (err constraint, db)
    else (ok stream_id, record db { stream_sessions = db.stream_sessions ++ row ∷ [] })
