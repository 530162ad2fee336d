-- ===== src/Controller/Db/Sessions/Online.antt =====
-- What `client_online` says of an agent.
use rps.Base.{
  ◌≡◌, refl, ◌∙◌, ap, inl, inr, true, false, Option, none, some, [], ◌∷◌, ◌++◌, eqb, eqb_refl,
  nat_eq, list_eq, list_beq_iff, arith, Option-cases, Bool-cases, if◌then◌else◌,
}
use rps.Base.Int.{ℤ, pos}
use rps.Base.Text.{Text, text}
use rps.Controller.Sql.{
  fetch_optional, has_row, update_where, fetch_optional-append, fetch_optional-append_other,
  fetch_optional-holds, fetch_optional-update_where, fetch_optional-update_where_other,
  has_row-fetch_optional,
}
use rps.Controller.Db.{Database, ClientOnlineRow, AgentSessionRow}
use rps.Controller.Db.Sessions.{
  is_online_row, set_online, set_offline, fresh_online, upsert_online, set_disconnected,
  record_agent_connected, record_agent_disconnected,
}

-- The row of a client.
abbrev pub online_row : Database → Text → Option ClientOnlineRow
online_row db client_id = fetch_optional (is_online_row client_id) db.client_online

-- The row that an upsert starts from.
abbrev pub row_or_fresh : Text → Option ClientOnlineRow → ClientOnlineRow
row_or_fresh client_id none = fresh_online client_id
row_or_fresh client_id (some row) = row

upsert_online_lem :
    (db : Database) (client_id : Text) (change : ClientOnlineRow → ClientOnlineRow)
    → ((r : ClientOnlineRow) → (change r).client_id ≡ r.client_id)
    → (online_row (upsert_online db client_id change) client_id
        ≡ some (change (row_or_fresh client_id (online_row db client_id))))
      × ((other : Text)
          → eqb client_id other ≡ false
          → online_row (upsert_online db client_id change) other ≡ online_row db other)
unfolding upsert_online
upsert_online_lem db client_id change keeps =
    let known = has_row-fetch_optional (is_online_row client_id) db.client_online in
    elim (Option-cases (fetch_optional (is_online_row client_id) db.client_online)) [
      | inl absent ↦
          let free : has_row (is_online_row client_id) db.client_online ≡ false =
            rw absent at known in
          (
            rw (free, upsert_online)
                (rw absent (
                  fetch_optional-append (is_online_row client_id) db.client_online
                    (change (fresh_online client_id)) free
                  ∙ rw (keeps (fresh_online client_id), eqb_refl client_id) refl)),
            λ other ne.
                rw (free, upsert_online)
                  (fetch_optional-append_other (is_online_row other) db.client_online
                    (change (fresh_online client_id)) (rw (keeps (fresh_online client_id)) ne)),
          )
      | inr (row, found) ↦
          let there : has_row (is_online_row client_id) db.client_online ≡ true =
            rw found at known in
          let it =
            fetch_optional-holds (is_online_row client_id) db.client_online {r = row} found in
          (
            rw (there, upsert_online)
                (rw found (
                  fetch_optional-update_where (is_online_row client_id) (is_online_row client_id)
                    change db.client_online (λ r. rw (keeps r) refl)
                  ∙ rw found (rw it refl))),
            λ other ne.
                rw (there, upsert_online)
                  (fetch_optional-update_where_other (is_online_row other) (is_online_row client_id)
                    change db.client_online (λ r. rw (keeps r) refl)
                    (λ r e. ground (
                      arith,
                      list_beq_iff r.client_id client_id,
                      list_beq_iff r.client_id other,
                      list_beq_iff client_id other,
                    ))),
          )
    ]

set_online-keeps :
    (role : Text) (now : ℤ) (r : ClientOnlineRow) → (set_online role now r).client_id ≡ r.client_id
set_online-keeps role now r = ground arith

set_online_lem :
    (role : Text) (now : ℤ) (r : ClientOnlineRow)
    → set_online role now r ≡ record {
      client_id = r.client_id;
      online = pos 1;
      control_connected_at = if eqb role (text "data") then r.control_connected_at else some now;
      data_connected_at = if eqb role (text "data") then some now else r.data_connected_at;
      last_seen = some now;
    }
set_online_lem role now r = elim (Bool-cases (eqb role (text "data"))) [
  | inl e ↦ rw (e, if◌then◌else◌) refl
  | inr e ↦ rw (e, if◌then◌else◌) refl
]

-- An agent that connects is online from then on and was last seen then, with its role's column
-- saying since when and the other role's column as it was; an agent that disconnects is offline and
-- was last seen then, with both columns as they were, even if it has another connection still. The
-- rows of the other agents stay as they are.
pub online_lem :
    (db : Database) (now : ℤ) (session_id client_id role remote_addr : Text)
    → has_row (λ (r : AgentSessionRow). eqb r.id session_id) db.agent_sessions ≡ false
    → let connected = (record_agent_connected db now session_id client_id role remote_addr).1 in
      let disconnected = record_agent_disconnected db now session_id client_id in
      let before = row_or_fresh client_id (online_row db client_id) in
      let data_role = eqb role (text "data") in
      (online_row connected client_id
        ≡ some (record {
          client_id = before.client_id;
          online = pos 1;
          control_connected_at = if data_role then before.control_connected_at else some now;
          data_connected_at = if data_role then some now else before.data_connected_at;
          last_seen = some now;
        }))
      × (online_row disconnected client_id
          ≡ some (record {
            client_id = before.client_id;
            online = pos 0;
            control_connected_at = before.control_connected_at;
            data_connected_at = before.data_connected_at;
            last_seen = some now;
          }))
      × ((other : Text)
          → eqb client_id other ≡ false
          → (online_row connected other ≡ online_row db other)
            × (online_row disconnected other ≡ online_row db other))
unfolding record_agent_connected record_agent_disconnected
online_lem db now session_id client_id role remote_addr fresh =
    let row : AgentSessionRow = record {
      id = session_id;
      client_id = client_id;
      role = role;
      remote_addr = some remote_addr;
      connected_at = now;
      disconnected_at = none;
    } in
    let up =
      upsert_online_lem (record db { agent_sessions = db.agent_sessions ++ row ∷ [] }) client_id
        (set_online role now) (set_online-keeps role now) in
    let down =
      upsert_online_lem
        (record db {
          agent_sessions =
              update_where (λ (r : AgentSessionRow). eqb r.id session_id) (set_disconnected now)
                db.agent_sessions;
        })
        client_id (set_offline now) (λ r. refl) in
    (
      rw (fresh, record_agent_connected) up.0
          ∙ ap some (set_online_lem role now (row_or_fresh client_id (online_row db client_id))),
      down.0,
      λ other ne. (rw (fresh, record_agent_connected) (up.1 other ne), down.1 other ne),
    )
