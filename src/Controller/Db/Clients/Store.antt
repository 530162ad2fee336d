-- ===== src/Controller/Db/Clients/Store.antt =====
-- What is stored of a client, and what the statements leave alone.
use rps.Base.{
  ℕ, ◌≡◌, refl, ◌∙◌, ap, ◌↔◌, inl, inr, Bool, true, false, ◌&&◌, ◌||◌, not, Option, none, some,
  List, [], ◌∷◌, ◌++◌, ok, err, eqb, eqb_iff, eqb_refl, nat_eq, list_eq, list_beq_iff, arith,
  Option-cases,
}
use rps.Base.Int.{ℤ, pos}
use rps.Base.Text.{Text}
use rps.Base.Words.{IsU32}
use rps.Controller.Sql.{
  fetch_optional, has_row, update_where, fetch_optional-append, fetch_optional-append_other,
  fetch_optional-holds, count_where-fetch_optional, count_where-positive,
  fetch_optional-update_where_other, fetch_optional-update_where, fetch_optional-delete_where,
  fetch_optional-delete_where_other,
}
use rps.Controller.Db.{Database, ClientRow, DbClient, NewClient, UpdateClient, constraint}
use rps.Controller.Db.Columns.{map_option, i64_to_u32, bool_round_trip}
use rps.Controller.Db.Clients.{
  row_to_client, has_id, client_row, set_client, get_client, create_client, update_client,
  delete_client,
}

-- A limit on connections is a `u32`.
abbrev pub IsLimit : Option ℕ → Type 0
IsLimit none = Unit
IsLimit (some n) = IsU32 n

limit_round_trip : (o : Option ℕ) → IsLimit o → map_option i64_to_u32 (map_option pos o) ≡ o
limit_round_trip none h = refl
limit_round_trip (some n) h = ap some (omega arith)

abbrev pub created : NewClient → DbClient
created input = record {
  id = input.id;
  psk = input.psk;
  enabled = input.enabled;
  remark = input.remark;
  max_connections = input.max_connections;
  compress = input.compress;
  encrypt = input.encrypt;
}

row_to_client-client_row :
    (input : NewClient) (now : ℤ)
    → IsLimit input.max_connections
    → row_to_client (client_row input now) ≡ created input
unfolding row_to_client
row_to_client-client_row input now h =
    rw
      (
        bool_round_trip input.enabled,
        bool_round_trip input.compress,
        bool_round_trip input.encrypt,
        limit_round_trip input.max_connections h,
      )
      refl

abbrev pub taken : NewClient → ClientRow → Bool
taken input row = eqb row.id input.id || eqb row.psk input.psk

has_row-weaken {ℓ} :
    {R : Type ℓ} (p q : R → Bool) (rs : List R)
    → ((r : R) → p r ≡ true → q r ≡ true)
    → has_row q rs ≡ false
    → has_row p rs ≡ false
unfolding has_row
has_row-weaken p q [] f h = refl
has_row-weaken p q (r ∷ rs) f h = ground (arith, f r, has_row-weaken p q rs f)

abbrev inserted : Database → ℤ → NewClient → Database
inserted db now input = record db { clients = db.clients ++ client_row input now ∷ [] }

get_client-inserted :
    (db : Database) (now : ℤ) (input : NewClient)
    → IsLimit input.max_connections
    → has_row (has_id input.id) db.clients ≡ false
    → get_client (inserted db now input) input.id ≡ some (created input)
unfolding get_client
get_client-inserted db now input h absent =
    rw (fetch_optional-append (has_id input.id) db.clients (client_row input now) absent)
      (rw (eqb_refl input.id) (ap some (row_to_client-client_row input now h)))

get_client-inserted_other :
    (db : Database) (now : ℤ) (input : NewClient) (id : Text)
    → eqb input.id id ≡ false
    → get_client (inserted db now input) id ≡ get_client db id
unfolding get_client
get_client-inserted_other db now input id other =
    ap (map_option row_to_client)
      (fetch_optional-append_other (has_id id) db.clients (client_row input now) other)

-- A client is created exactly if neither its id nor its secret is taken. It is then read back as it
-- was given, and no other client is read differently; otherwise nothing changes.
pub create_client_lem :
    (db : Database) (now : ℤ) (input : NewClient)
    → IsLimit input.max_connections
    → let attempt = create_client db now input in
      (has_row (taken input) db.clients ≡ true → attempt ≡ (err constraint, db))
      × (has_row (taken input) db.clients ≡ false
          → (attempt.0 ≡ ok (created input))
            × (get_client attempt.1 input.id ≡ some (created input))
            × ((id : Text) → eqb input.id id ≡ false → get_client attempt.1 id ≡ get_client db id))
unfolding create_client
create_client_lem db now input h = (
  λ clash. ground arith,
  λ free.
      let absent =
        has_row-weaken (has_id input.id) (taken input) db.clients (λ row e. ground arith) free in
      let read = get_client-inserted db now input h absent in
      (
        rw (free, create_client) (rw read refl),
        rw (free, create_client) read,
        λ id other. rw (free, create_client) (get_client-inserted_other db now input id other),
      ),
)

abbrev pub updated : Text → UpdateClient → DbClient
updated id input = record {
  id = id;
  psk = input.psk;
  enabled = input.enabled;
  remark = input.remark;
  max_connections = input.max_connections;
  compress = input.compress;
  encrypt = input.encrypt;
}

row_to_client-set_client :
    (input : UpdateClient) (now : ℤ) (row : ClientRow)
    → IsLimit input.max_connections
    → row_to_client (set_client input now row) ≡ updated row.id input
unfolding row_to_client
row_to_client-set_client input now row h =
    rw
      (
        bool_round_trip input.enabled,
        bool_round_trip input.compress,
        bool_round_trip input.encrypt,
        limit_round_trip input.max_connections h,
      )
      refl

-- Whether another client has the secret.
abbrev pub other_has : Text → Text → ClientRow → Bool
other_has id psk row = not (eqb row.id id) && eqb row.psk psk

abbrev rewritten : Database → ℤ → Text → UpdateClient → Database
rewritten db now id input = record db {
  clients = update_where (has_id id) (set_client input now) db.clients;
}

get_client-rewritten :
    (db : Database) (now : ℤ) (id : Text) (input : UpdateClient) {row : ClientRow}
    → IsLimit input.max_connections
    → fetch_optional (has_id id) db.clients ≡ some row
    → get_client (rewritten db now id input) id ≡ some (updated id input)
unfolding get_client
get_client-rewritten db now id input {row} h found =
    let it = fetch_optional-holds (has_id id) db.clients {r = row} found in
    rw
      (fetch_optional-update_where (has_id id) (has_id id) (set_client input now) db.clients
        (λ r. refl))
      (rw (found) (
        rw it (
          ap some (
            row_to_client-set_client input now row h
            ∙ ap (λ (i : Text). updated i input) ((eqb_iff row.id id).0 it)))))

get_client-rewritten_other :
    (db : Database) (now : ℤ) (id other : Text) (input : UpdateClient)
    → eqb id other ≡ false
    → get_client (rewritten db now id input) other ≡ get_client db other
unfolding get_client
get_client-rewritten_other db now id other input h = ap (map_option row_to_client) (
    fetch_optional-update_where_other (has_id other) (has_id id) (set_client input now) db.clients
      (λ r. refl)
      (λ r e. ground (arith, list_beq_iff r.id id, list_beq_iff r.id other, list_beq_iff id other)))

-- An update of a client that is there gives it the new fields, unless another client has the new
-- secret: then it fails and changes nothing. Of a client that is not there it gives `none` and
-- changes nothing. No other client is read differently.
pub update_client_lem :
    (db : Database) (now : ℤ) (id : Text) (input : UpdateClient)
    → IsLimit input.max_connections
    → let attempt = update_client db now id input in
      (get_client db id ≡ none → attempt ≡ (ok none, db))
      × ((c : DbClient)
          → get_client db id ≡ some c
          → has_row (other_has id input.psk) db.clients ≡ true
          → attempt ≡ (err constraint, db))
      × ((c : DbClient)
          → get_client db id ≡ some c
          → has_row (other_has id input.psk) db.clients ≡ false
          → (attempt.0 ≡ ok (some (updated id input)))
            × (get_client attempt.1 id ≡ some (updated id input)))
      × ((other : Text) → eqb id other ≡ false → get_client attempt.1 other ≡ get_client db other)
unfolding update_client
update_client_lem db now id input h = elim (Option-cases (fetch_optional (has_id id) db.clients)) [
  | inl absent ↦
      let none_hit = count_where-fetch_optional (has_id id) db.clients absent in
      let missing : get_client db id ≡ none = unfold get_client in rw absent refl in
      (
        λ _. ground arith,
        λ c e. absurd (ground arith),
        λ c e. absurd (ground arith),
        λ other ne. ground arith,
      )
  | inr (row, found) ↦
      let hit = count_where-positive (has_id id) db.clients {r = row} found in
      let there : get_client db id ≡ some (row_to_client row) =
        unfold get_client in rw found refl in
      let read = get_client-rewritten db now id input {row = row} h found in
      (
        λ e. absurd (ground arith),
        λ c e clash. ground arith,
        λ c e free. ground arith,
        λ other ne. ground (arith, get_client-rewritten_other db now id other input ne),
      )
]

-- A deleted client is not found any more, the answer says whether it was there, and no other client
-- is read differently.
pub delete_client_lem :
    (db : Database) (id : Text)
    → let deleted = delete_client db id in
      ((deleted.0 ≡ false) ↔ (get_client db id ≡ none))
      × (get_client deleted.1 id ≡ none)
      × ((other : Text) → eqb id other ≡ false → get_client deleted.1 other ≡ get_client db other)
unfolding delete_client get_client
delete_client_lem db id = (
  elim (Option-cases (fetch_optional (has_id id) db.clients)) [
    | inl absent ↦ ground (arith, count_where-fetch_optional (has_id id) db.clients absent)
    | inr (row, found) ↦ ground (arith, count_where-positive (has_id id) db.clients {r = row} found)
  ],
  ap (map_option row_to_client) (fetch_optional-delete_where (has_id id) db.clients),
  λ other ne. ap (map_option row_to_client) (
      fetch_optional-delete_where_other (has_id other) (has_id id) db.clients (λ r e.
        ground (arith, list_beq_iff r.id id, list_beq_iff r.id other, list_beq_iff id other))),
)
