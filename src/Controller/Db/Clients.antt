-- ===== src/Controller/Db/Clients.antt =====
-- crates/rps-controller/src/db.rs: the agents that may connect.
pub mod Store
use rps.Base.{
  ℕ, ◌+◌, Bool, true, false, ◌&&◌, ◌||◌, Option, none, some, List, [], ◌∷◌, ◌++◌, map,
  if◌then◌else◌, Result, ok, err, ◌>>=◌, ok_or, eqb, nat_eq, list_eq, length, ltb, ◌==◌, not,
}
use rps.Base.Int.{ℤ, pos, eqb_ℤ}
use rps.Base.Text.{Text}
use rps.Core.Config.{ClientConfig}
use rps.Controller.Sql.{fetch_optional, count_where, has_row, update_where, delete_where, order_by}
use rps.Controller.Db.{
  Database, ClientRow, TunnelRow, ProxyListenerRow, ProxyAccountRow, DbClient, NewClient,
  UpdateClient, DbError, constraint, not_inserted,
}
use rps.Controller.Db.Columns.{bool_to_i64, i64_to_bool, i64_to_u32, map_option, created_before}

unfoldable pub row_to_client : ClientRow → DbClient
row_to_client row = record {
  id = row.id;
  psk = row.psk;
  enabled = i64_to_bool row.enabled;
  remark = row.remark;
  max_connections = map_option i64_to_u32 row.max_connections;
  compress = i64_to_bool row.compress;
  encrypt = i64_to_bool row.encrypt;
}

abbrev pub has_id : Text → ClientRow → Bool
has_id id row = eqb row.id id

abbrev pub client_row : NewClient → ℤ → ClientRow
client_row input now = record {
  id = input.id;
  psk = input.psk;
  enabled = bool_to_i64 input.enabled;
  remark = input.remark;
  max_connections = map_option pos input.max_connections;
  compress = bool_to_i64 input.compress;
  encrypt = bool_to_i64 input.encrypt;
  created_at = now;
  updated_at = now;
}

unfoldable pub get_client : Database → Text → Option DbClient
get_client db id = map_option row_to_client (fetch_optional (has_id id) db.clients)

unfoldable pub create_client : Database → ℤ → NewClient → Result DbError DbClient × Database
create_client db now input =
    let inserted : Database = record db { clients = db.clients ++ client_row input now ∷ [] } in
    if has_row (λ (row : ClientRow). eqb row.id input.id || eqb row.psk input.psk) db.clients
    then (err constraint, db)
    else (ok_or (get_client inserted input.id) (not_inserted input.id), inserted)

abbrev pub set_client : UpdateClient → ℤ → ClientRow → ClientRow
set_client input now row = record row {
  psk = input.psk;
  enabled = bool_to_i64 input.enabled;
  remark = input.remark;
  max_connections = map_option pos input.max_connections;
  compress = bool_to_i64 input.compress;
  encrypt = bool_to_i64 input.encrypt;
  updated_at = now;
}

-- The update fails if a row would get the secret of another one.
unfoldable pub update_client :
    Database → ℤ → Text → UpdateClient → Result DbError (Option DbClient) × Database
update_client db now id input =
    let updated : Database = record db {
      clients = update_where (has_id id) (set_client input now) db.clients;
    } in
    if count_where (has_id id) db.clients == 0
    then (ok none, db)
    else if has_row (λ (row : ClientRow). not (eqb row.id id) && eqb row.psk input.psk) db.clients
    then (err constraint, db)
    else (ok (get_client updated id), updated)

unfoldable pub find_enabled_client_by_id : Database → Text → Option DbClient
find_enabled_client_by_id db id =
    map_option row_to_client
      (fetch_optional (λ (row : ClientRow). eqb_ℤ row.enabled (pos 1) && eqb row.id id) db.clients)

unfoldable pub list_clients : Database → List DbClient
list_clients db =
    map row_to_client (
      order_by (λ (a b : ClientRow). created_before a.created_at a.id b.created_at b.id) db.clients)

unfoldable pub count_clients : Database → ℕ
count_clients db = length db.clients

unfoldable pub client_reference_count : Database → Text → ℕ
client_reference_count db id =
    count_where (λ (row : TunnelRow). eqb row.client_id id) db.tunnels
    + count_where (λ (row : ProxyListenerRow). eqb row.client_id id) db.proxy_listeners
    + count_where (λ (row : ProxyAccountRow). eqb row.client_id id) db.proxy_accounts

unfoldable pub delete_client : Database → Text → Bool × Database
delete_client db id = (
  ltb 0 (count_where (has_id id) db.clients),
  record db { clients = delete_where (has_id id) db.clients },
)

abbrev config_client : ClientConfig → NewClient
config_client c = record {
  id = c.id;
  psk = c.psk;
  enabled = c.enabled;
  remark = c.remark;
  max_connections = c.max_connections;
  compress = c.compress;
  encrypt = c.encrypt;
}

abbrev config_update : ClientConfig → UpdateClient
config_update c = record {
  psk = c.psk;
  enabled = c.enabled;
  remark = c.remark;
  max_connections = c.max_connections;
  compress = c.compress;
  encrypt = c.encrypt;
}

-- `insert_config_client`: a client of the configuration replaces the one with its id.
unfoldable pub insert_config_client : Database → ℤ → ClientConfig → Result DbError Database
insert_config_client db now client =
    if has_row (λ (row : ClientRow). not (eqb row.id client.id) && eqb row.psk client.psk)
      db.clients
    then err constraint
    else ok (record db {
      clients =
          if has_row (has_id client.id) db.clients
          then update_where (has_id client.id) (set_client (config_update client) now) db.clients
          else db.clients ++ client_row (config_client client) now ∷ [];
    })
