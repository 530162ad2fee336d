-- ===== src/Controller/Bridge/Serving.antt =====
-- Who is let in, and which connection serves a client.
use rps.Base.{
  ◌⊎◌, ◌≢◌, ◌&&◌, ◌≡◌, ◌∙◌, ap, sym, inl, inr, Bool, true, false, Option, none, some, [], ◌∷◌, ◌++◌,
  ok, eqb, nat_eq, list_eq, list_beq_iff, arith, Bool-cases, Option-cases, Result-cases,
}
use rps.Base.Int.{ℤ, pos, eqb_ℤ}
use rps.Base.Text.{Text, text}
use rps.Base.Map.{get, get-insert, get-remove}
use rps.Base.Bytes.{IoResult}
use rps.Core.Protocol.{magic_text, NoisePrelude, Hello, HelloRole, ack_ok, ack_err}
use rps.Controller.Db.{Database, DbClient, ClientRow}
use rps.Controller.Db.Clients.{find_enabled_client_by_id, row_to_client}
use rps.Controller.Sql.{fetch_optional, fetch_optional-holds}
use rps.Controller.Db.Sessions.{record_agent_connected}
use rps.Controller.Streams.{
  ClientConnection, Pooled, StreamRoute, open_pool_stream, acquire, pool_acquire_retries,
}
use rps.Controller.App.{AppState}
use rps.Controller.Web.Clients.{cut_off}
use rps.Controller.Bridge.{admit, data_up, data_down, pool_up}

-- What may happen to the connections of the agents while a session of `client_id` is up and no newer
-- data connection of it comes: connections of other clients come, other sessions end, streams are
-- parked and taken, and changes in the console cut other clients off.
pub data Meanwhile (client_id session_id : Text) (s : AppState) : AppState → Type 0 where
  nothing : Meanwhile client_id session_id s s
  others_up :
      {s' : AppState} (now : ℤ) (other id addr : Text)
      → eqb other client_id ≡ false
      → Meanwhile client_id session_id s s'
      → Meanwhile client_id session_id s (data_up s' now other id addr).1
  ended :
      {s' : AppState} (now : ℤ) (other id : Text)
      → eqb id session_id ≡ false
      → Meanwhile client_id session_id s s'
      → Meanwhile client_id session_id s (data_down s' now other id)
  parked :
      {s' : AppState} (other : Text) (stream : Pooled)
      → Meanwhile client_id session_id s s'
      → Meanwhile client_id session_id s (pool_up s' other stream)
  taken :
      {s' : AppState} (route : StreamRoute) (closed : Bool)
      → Meanwhile client_id session_id s s'
      → Meanwhile client_id session_id s
          (record s' { clients = (open_pool_stream s'.clients route closed).1 })
  others_changed :
      {s' : AppState} (other : Text) (old client : DbClient)
      → eqb other client_id ≡ false
      → Meanwhile client_id session_id s s'
      → Meanwhile client_id session_id s (cut_off s' other old client)

abbrev pub session_of : Option ClientConnection → Option Text
session_of none = none
session_of (some connection) = some connection.data_session_id

abbrev pub serving : AppState → Text → Option Text
serving s client_id = session_of (get s.clients client_id)

data_up-keeps :
    (s : AppState) (now : ℤ) (other id addr client_id : Text)
    → eqb other client_id ≡ false
    → serving (data_up s now other id addr).1 client_id ≡ serving s client_id
unfolding data_up
data_up-keeps s now other id addr client_id ne =
    elim (Result-cases (record_agent_connected s.db now id other (text "data") addr).0) [
      | inl (got, h) ↦ ground (
        arith,
        get-insert s.clients other client_id (record { data_session_id = got; pool = [] }),
      )
      | inr (e, h) ↦ ground arith
    ]

data_down-keeps :
    (s : AppState) (now : ℤ) (other id client_id session_id : Text)
    → eqb id session_id ≡ false
    → serving s client_id ≡ some session_id
    → serving (data_down s now other id) client_id ≡ some session_id
unfolding data_down
data_down-keeps s now other id client_id session_id ne h =
    elim (Option-cases (get s.clients other)) [
      | inl absent ↦ ground arith
      | inr (current, found) ↦ ground (
        arith,
        list_beq_iff other client_id,
        list_beq_iff current.data_session_id id,
        list_beq_iff id session_id,
        get-remove s.clients other client_id,
      )
    ]

pool_up-keeps :
    (s : AppState) (other client_id : Text) (stream : Pooled)
    → serving (pool_up s other stream) client_id ≡ serving s client_id
unfolding pool_up
pool_up-keeps s other client_id stream = elim (Option-cases (get s.clients other)) [
  | inl absent ↦ ground arith
  | inr (c, found) ↦ ground (
    arith,
    list_beq_iff other client_id,
    get-insert s.clients other client_id (record c { pool = c.pool ++ stream ∷ [] }),
  )
]

taken-keeps :
    (s : AppState) (route : StreamRoute) (closed : Bool) (client_id : Text)
    → session_of (get (open_pool_stream s.clients route closed).1 client_id) ≡ serving s client_id
unfolding open_pool_stream
taken-keeps s route closed client_id = elim (Option-cases (get s.clients route.client_id)) [
  | inl absent ↦ ground arith
  | inr (c, found) ↦ ground (
    arith,
    list_beq_iff route.client_id client_id,
    get-insert s.clients route.client_id client_id
        (record c { pool = (acquire pool_acquire_retries closed c.pool).1 }),
  )
]

cut_off-keeps :
    (s : AppState) (other : Text) (old client : DbClient) (client_id : Text)
    → eqb other client_id ≡ false
    → serving (cut_off s other old client) client_id ≡ serving s client_id
unfolding cut_off
cut_off-keeps s other old client client_id ne = ground (arith, get-remove s.clients other client_id)

cut_off-ends :
    (s : AppState) (client_id : Text) (old client : DbClient)
    → (client.enabled ≡ false) ⊎ (client.psk ≢ old.psk)
    → serving (cut_off s client_id old client) client_id ≡ none
unfolding cut_off
cut_off-ends s client_id old client (inl off) =
    ground (arith, get-remove s.clients client_id client_id, list_beq_iff client_id client_id)
cut_off-ends s client_id old client (inr new_secret) =
    let differ : eqb client.psk old.psk ≡ false = elim (Bool-cases (eqb client.psk old.psk)) [
      | inl same ↦ absurd (new_secret ((list_beq_iff client.psk old.psk).0 same))
      | inr e ↦ e
    ] in
    ground (arith, get-remove s.clients client_id client_id, list_beq_iff client_id client_id)

Meanwhile-keeps :
    (client_id session_id : Text) {s s' : AppState}
    → Meanwhile client_id session_id s s'
    → serving s client_id ≡ some session_id
    → serving s' client_id ≡ some session_id
Meanwhile-keeps client_id session_id nothing h = h
Meanwhile-keeps client_id session_id (others_up {s'} now other id addr ne steps) h =
    data_up-keeps s' now other id addr client_id ne ∙ Meanwhile-keeps client_id session_id steps h
Meanwhile-keeps client_id session_id (ended {s'} now other id ne steps) h =
    data_down-keeps s' now other id client_id session_id ne
      (Meanwhile-keeps client_id session_id steps h)
Meanwhile-keeps client_id session_id (parked {s'} other stream steps) h =
    pool_up-keeps s' other client_id stream ∙ Meanwhile-keeps client_id session_id steps h
Meanwhile-keeps client_id session_id (taken {s'} route closed steps) h =
    taken-keeps s' route closed client_id ∙ Meanwhile-keeps client_id session_id steps h
Meanwhile-keeps client_id session_id (others_changed {s'} other old client ne steps) h =
    cut_off-keeps s' other old client client_id ne ∙ Meanwhile-keeps client_id session_id steps h

-- The newest data connection of an agent serves it: from the moment it comes up, streams to the agent
-- are opened through it, even if older connections of the agent end late, until a newer one of the same
-- agent comes up, it ends itself, or the client is changed in the console. Once it ends, or the client
-- was disabled or given another secret, the agent is not served any more.
pub newest_data_connection_serves :
    (s s' : AppState) (now later : ℤ) (client_id session_id addr id : Text)
    → (data_up s now client_id session_id addr).0 ≡ ok id
    → Meanwhile client_id id (data_up s now client_id session_id addr).1 s'
    → (serving s' client_id ≡ some id)
      × (serving (data_down s' later client_id id) client_id ≡ none)
      × ((old client : DbClient)
          → (client.enabled ≡ false) ⊎ (client.psk ≢ old.psk)
          → serving (cut_off s' client_id old client) client_id ≡ none)
unfolding data_up data_down
newest_data_connection_serves s s' now later client_id session_id addr id up steps =
    let recorded = record_agent_connected s.db now session_id client_id (text "data") addr in
    let first : serving (data_up s now client_id session_id addr).1 client_id ≡ some id =
      elim (Result-cases recorded.0) [
        | inr (e, h) ↦ absurd (ground arith)
        | inl (got, h) ↦
            let fresh : ClientConnection = record { data_session_id = got; pool = [] } in
            ground (
              arith,
              get-insert s.clients client_id client_id fresh,
              list_beq_iff client_id client_id,
            )
      ] in
    let now_serves = Meanwhile-keeps client_id id steps first in
    (
      now_serves,
      elim (Option-cases (get s'.clients client_id)) [
        | inl absent ↦ absurd (ground arith)
        | inr (c, found) ↦ ground (
          arith,
          list_beq_iff c.data_session_id id,
          list_beq_iff client_id client_id,
          get-remove s'.clients client_id client_id,
        )
      ],
      cut_off-ends s' client_id,
    )

-- The client that is found is enabled, and has the id.
enabled_client :
    (db : Database) (id : Text) {client : DbClient}
    → find_enabled_client_by_id db id ≡ some client
    → (client.enabled ≡ true) × (client.id ≡ id)
unfolding find_enabled_client_by_id row_to_client
enabled_client db id {client} h =
    let wanted : ClientRow → Bool = λ row. eqb_ℤ row.enabled (pos 1) && eqb row.id id in
    elim (Option-cases (fetch_optional wanted db.clients)) [
      | inl absent ↦ absurd (ground arith)
      | inr (row, found) ↦
          let it = fetch_optional-holds wanted db.clients {r = row} found in
          ground (arith, list_beq_iff row.id id)
    ]

-- Only who is let in is told so.
admit-told :
    (accepts : Text → Bool) (db : Database) (prelude : IoResult NoisePrelude)
    (hello : IoResult Hello)
    → (admit accepts db prelude hello).ack ≡ some ack_ok
    → (c : DbClient) × (r : HelloRole) × ((admit accepts db prelude hello).outcome ≡ ok (c, r))
unfolding admit ack_ok ack_err
admit-told accepts db prelude hello told = elim (Result-cases prelude) [
  | inr (e, failed) ↦ absurd (ground arith)
  | inl (p, got) ↦ elim (Bool-cases (eqb p.magic magic_text)) [
    | inr bad ↦ absurd (ground arith)
    | inl good ↦ elim (Option-cases (find_enabled_client_by_id db p.client_id)) [
      | inl nobody ↦ absurd (ground arith)
      | inr (c, found) ↦ elim (Bool-cases (accepts c.psk)) [
        | inr wrong ↦ absurd (ground arith)
        | inl right ↦ elim (Result-cases hello) [
          | inr (e, failed) ↦ absurd (ground arith)
          | inl (g, greeted) ↦ elim (Bool-cases (eqb g.magic magic_text)) [
            | inr strange ↦ absurd (ground arith)
            | inl known ↦ elim (Bool-cases (eqb g.client_id c.id)) [
              | inr other ↦ absurd (ground arith)
              | inl same ↦ (c, g.role, ground arith)
            ]
          ]
        ]
      ]
    ]
  ]
]

-- The messages that let an agent in.
abbrev pub LetsIn :
    (Text → Bool)
    → Database
    → IoResult NoisePrelude
    → IoResult Hello
    → DbClient
    → HelloRole
    → Type 0
LetsIn accepts db prelude hello client role =
    (p : NoisePrelude) × (h : Hello) × (prelude ≡ ok p)
    × (p.magic ≡ magic_text)
    × (find_enabled_client_by_id db p.client_id ≡ some client)
    × (client.enabled ≡ true)
    × (client.id ≡ p.client_id)
    × (accepts client.psk ≡ true)
    × (hello ≡ ok h)
    × (h.magic ≡ magic_text)
    × (h.client_id ≡ client.id)
    × (h.role ≡ role)

-- An agent is let in, as a client and for a role, exactly if its prelude names this client and it is
-- enabled, the handshake succeeds with the secret of this client, and its hello, which both carry the
-- magic, names the same client and the role. It is told that it is accepted exactly if it is let in.
pub admit_lem :
    (accepts : Text → Bool) (db : Database) (prelude : IoResult NoisePrelude)
    (hello : IoResult Hello) (client : DbClient) (role : HelloRole)
    → let admission = admit accepts db prelude hello in
      (admission.outcome ≡ ok (client, role) → LetsIn accepts db prelude hello client role)
      × (LetsIn accepts db prelude hello client role
          → (admission.outcome ≡ ok (client, role)) × (admission.ack ≡ some ack_ok))
      × (admission.ack ≡ some ack_ok
          → (c : DbClient) × (r : HelloRole) × (admission.outcome ≡ ok (c, r)))
unfolding admit
admit_lem accepts db prelude hello client role = (
  λ h. elim (Result-cases prelude) [
    | inr (e, failed) ↦ absurd (ground arith)
    | inl (p, got) ↦ elim (Bool-cases (eqb p.magic magic_text)) [
      | inr bad ↦ absurd (ground arith)
      | inl good ↦ elim (Option-cases (find_enabled_client_by_id db p.client_id)) [
        | inl nobody ↦ absurd (ground arith)
        | inr (c, found) ↦ elim (Bool-cases (accepts c.psk)) [
          | inr wrong ↦ absurd (ground arith)
          | inl right ↦ elim (Result-cases hello) [
            | inr (e, failed) ↦ absurd (ground arith)
            | inl (g, greeted) ↦
                let facts : (eqb g.magic magic_text ≡ true)
                    × (eqb g.client_id c.id ≡ true)
                    × (c ≡ client)
                    × (g.role ≡ role) =
                  ground arith in
                (
                  p,
                  g,
                  got,
                  (list_beq_iff p.magic magic_text).0 good,
                  found ∙ ap some facts.2,
                  (enabled_client db p.client_id (found ∙ ap some facts.2)).0,
                  (enabled_client db p.client_id (found ∙ ap some facts.2)).1,
                  rw (sym facts.2) right,
                  greeted,
                  (list_beq_iff g.magic magic_text).0 facts.0,
                  (list_beq_iff g.client_id c.id).0 facts.1 ∙ ap (λ (x : DbClient). x.id) facts.2,
                  facts.3,
                )
          ]
        ]
      ]
    ]
  ],
  λ (p, g, got, pm, found, _, _, right, greeted, gm, same, as_role). ground (
    arith,
    list_beq_iff p.magic magic_text,
    list_beq_iff g.magic magic_text,
    list_beq_iff g.client_id client.id,
  ),
  λ told. admit-told accepts db prelude hello told,
)
