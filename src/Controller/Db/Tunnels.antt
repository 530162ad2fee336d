-- ===== src/Controller/Db/Tunnels.antt =====
-- crates/rps-controller/src/db.rs: the tunnels.
pub mod Store
pub mod Refinement
use rps.Base.{
  ℕ, ◌+◌, Bool, true, false, Option, none, some, List, [], ◌∷◌, ◌++◌, if◌then◌else◌, Result, ok,
  err, ◌>>=◌, ok_or, eqb, nat_eq, list_eq, ltb, ◌==◌,
}
use rps.Base.Int.{ℤ, pos, eqb_ℤ}
use rps.Base.Text.{Text, text}
use rps.Core.Config.{TunnelConfig}
use rps.Controller.Sql.{fetch_optional, count_where, has_row, update_where, delete_where, order_by}
use rps.Controller.Db.{
  Database, TunnelRow, DbTunnel, NewTunnel, UpdateTunnel, DbError, Sum, integer, constraint,
  row_not_found,
}
use rps.Controller.Db.Columns.{
  bool_to_i64, i64_to_bool, u64_to_i64, i64_to_u64, map_option, created_before, get_i64,
  tunnel_mode_to_str, str_to_tunnel_mode, transpose, collect,
}

unfoldable pub row_to_tunnel : TunnelRow → Result DbError DbTunnel
row_to_tunnel row = do
  rx_bytes ← get_i64 row.rx_bytes
  tx_bytes ← get_i64 row.tx_bytes
  mode ← str_to_tunnel_mode row.mode
  ok (record {
    id = row.id;
    client_id = row.client_id;
    mode = mode;
    listen = row.listen;
    target = row.target;
    enabled = i64_to_bool row.enabled;
    expires_at = row.expires_at;
    traffic_limit_bytes = map_option i64_to_u64 row.traffic_limit_bytes;
    rx_bytes = i64_to_u64 rx_bytes;
    tx_bytes = i64_to_u64 tx_bytes;
    disabled_reason = row.disabled_reason;
  })

abbrev pub has_id : Text → TunnelRow → Bool
has_id id row = eqb row.id id

unfoldable pub list_tunnels : Database → Result DbError (List DbTunnel)
list_tunnels db =
    collect row_to_tunnel (
      order_by (λ (a b : TunnelRow). created_before a.created_at a.id b.created_at b.id) db.tunnels)

unfoldable pub get_tunnel : Database → Text → Result DbError (Option DbTunnel)
get_tunnel db id = transpose row_to_tunnel (fetch_optional (has_id id) db.tunnels)

abbrev pub tunnel_row : NewTunnel → ℤ → TunnelRow
tunnel_row input now = record {
  id = input.id;
  client_id = input.client_id;
  mode = tunnel_mode_to_str input.mode;
  listen = input.listen;
  target = input.target;
  enabled = bool_to_i64 input.enabled;
  expires_at = input.expires_at;
  traffic_limit_bytes = map_option u64_to_i64 input.traffic_limit_bytes;
  rx_bytes = integer (pos 0);
  tx_bytes = integer (pos 0);
  disabled_reason = none;
  created_at = now;
  updated_at = now;
}

-- `fetch_one` fails without a row.
unfoldable pub create_tunnel : Database → ℤ → NewTunnel → Result DbError DbTunnel × Database
create_tunnel db now input =
    let inserted : Database = record db { tunnels = db.tunnels ++ tunnel_row input now ∷ [] } in
    if has_row (has_id input.id) db.tunnels
    then (err constraint, db)
    else (get_tunnel inserted input.id >>= λ found. ok_or found row_not_found, inserted)

unfoldable pub delete_tunnel : Database → Text → Bool × Database
delete_tunnel db id = (
  ltb 0 (count_where (has_id id) db.tunnels),
  record db { tunnels = delete_where (has_id id) db.tunnels },
)

abbrev pub set_tunnel : UpdateTunnel → ℤ → TunnelRow → TunnelRow
set_tunnel input now row = record row {
  client_id = input.client_id;
  mode = tunnel_mode_to_str input.mode;
  listen = input.listen;
  target = input.target;
  enabled = bool_to_i64 input.enabled;
  expires_at = input.expires_at;
  traffic_limit_bytes = map_option u64_to_i64 input.traffic_limit_bytes;
  disabled_reason = if input.enabled then none else some (text "manual");
  updated_at = now;
}

unfoldable pub update_tunnel :
    Database → ℤ → Text → UpdateTunnel → Result DbError (Option DbTunnel) × Database
update_tunnel db now id input =
    let updated : Database = record db {
      tunnels = update_where (has_id id) (set_tunnel input now) db.tunnels;
    } in
    if count_where (has_id id) db.tunnels == 0
    then (ok none, db)
    else (get_tunnel updated id, updated)

abbrev pub set_disabled : Text → ℤ → TunnelRow → TunnelRow
set_disabled reason now row = record row {
  enabled = pos 0;
  disabled_reason = some reason;
  updated_at = now;
}

unfoldable pub disable_tunnel : Database → ℤ → Text → Text → Database
disable_tunnel db now id reason = record db {
  tunnels = update_where (has_id id) (set_disabled reason now) db.tunnels;
}

unfoldable pub count_enabled_tunnels : Database → ℕ
count_enabled_tunnels db = count_where (λ (row : TunnelRow). eqb_ℤ row.enabled (pos 1)) db.tunnels

-- `insert or ignore`: a tunnel of the configuration does not replace the one with its id.
unfoldable pub insert_config_tunnel : Database → ℤ → TunnelConfig → Database
insert_config_tunnel db now tunnel =
    let input : NewTunnel = record {
      id = tunnel.id;
      client_id = tunnel.client_id;
      mode = tunnel.mode;
      listen = tunnel.listen;
      target = tunnel.target;
      enabled = tunnel.enabled;
      expires_at = none;
      traffic_limit_bytes = none;
    } in
    if has_row (has_id tunnel.id) db.tunnels
    then db
    else record db { tunnels = db.tunnels ++ tunnel_row input now ∷ [] }
