-- ===== src/Controller/Db/ProxyAccounts.antt =====
-- crates/rps-controller/src/db.rs: the accounts and listeners of the proxies.
pub mod Login
pub mod Disabled
use rps.Base.{
  ℕ, ◌+◌, Bool, true, false, ◌&&◌, ◌||◌, not, Option, none, some, List, [], ◌∷◌, ◌++◌,
  if◌then◌else◌, Result, ok, err, ◌>>=◌, ok_or, eqb, nat_eq, list_eq, ltb, ◌==◌,
}
use rps.Base.Int.{ℤ, pos, eqb_ℤ}
use rps.Base.Text.{Text, text}
use rps.Core.Config.{ProxyListenConfig}
use rps.Controller.Sql.{
  fetch_optional, fetch_all, count_where, has_row, update_where, delete_where, order_by,
}
use rps.Controller.Db.{
  Database, ProxyAccountRow, ProxyListenerRow, DbProxyAccount, NewProxyAccount, UpdateProxyAccount,
  DbError, Sum, integer, constraint, not_inserted,
}
use rps.Controller.Db.Columns.{
  bool_to_i64, i64_to_bool, u64_to_i64, i64_to_u64, map_option, created_before, text_leb, get_i64,
  validate_proxy_kind, transpose, collect,
}

unfoldable pub row_to_proxy : ProxyListenerRow → ProxyListenConfig
row_to_proxy row = record {
  listen = row.listen;
  client_id = row.client_id;
  public_udp_addr = none;
  enabled = i64_to_bool row.enabled;
}

unfoldable pub get_proxy : Database → Text → Option ProxyListenConfig
get_proxy db kind =
    map_option row_to_proxy
      (fetch_optional (λ (row : ProxyListenerRow). eqb row.kind kind) db.proxy_listeners)

-- `insert_config_proxy`: `insert or ignore`
unfoldable pub insert_config_proxy : Database → ℤ → Text → ProxyListenConfig → Database
insert_config_proxy db now kind proxy =
    let row : ProxyListenerRow = record {
      kind = kind;
      listen = proxy.listen;
      client_id = proxy.client_id;
      enabled = bool_to_i64 proxy.enabled;
      created_at = now;
      updated_at = now;
    } in
    if has_row (λ (r : ProxyListenerRow). eqb r.kind kind) db.proxy_listeners
    then db
    else record db { proxy_listeners = db.proxy_listeners ++ row ∷ [] }

unfoldable pub row_to_proxy_account : ProxyAccountRow → Result DbError DbProxyAccount
row_to_proxy_account row = do
  rx_bytes ← get_i64 row.rx_bytes
  tx_bytes ← get_i64 row.tx_bytes
  ok (record {
    id = row.id;
    kind = row.kind;
    client_id = row.client_id;
    username = row.username;
    password = row.password;
    enabled = i64_to_bool row.enabled;
    remark = row.remark;
    expires_at = row.expires_at;
    traffic_limit_bytes = map_option i64_to_u64 row.traffic_limit_bytes;
    rx_bytes = i64_to_u64 rx_bytes;
    tx_bytes = i64_to_u64 tx_bytes;
    disabled_reason = row.disabled_reason;
  })

abbrev pub has_id : Text → ProxyAccountRow → Bool
has_id id row = eqb row.id id

abbrev pub proxy_account_row : NewProxyAccount → ℤ → ProxyAccountRow
proxy_account_row input now = record {
  id = input.id;
  kind = input.kind;
  client_id = input.client_id;
  username = input.username;
  password = input.password;
  enabled = bool_to_i64 input.enabled;
  remark = input.remark;
  expires_at = input.expires_at;
  traffic_limit_bytes = map_option u64_to_i64 input.traffic_limit_bytes;
  rx_bytes = integer (pos 0);
  tx_bytes = integer (pos 0);
  disabled_reason = none;
  created_at = now;
  updated_at = now;
}

unfoldable pub get_proxy_account : Database → Text → Result DbError (Option DbProxyAccount)
get_proxy_account db id =
    transpose row_to_proxy_account (fetch_optional (has_id id) db.proxy_accounts)

-- A row has the id, or the name among the accounts of its kind.
abbrev pub clashes : Text → Text → Text → ProxyAccountRow → Bool
clashes id kind username row = eqb row.id id || (eqb row.kind kind && eqb row.username username)

unfoldable pub create_proxy_account :
    Database → ℤ → NewProxyAccount → Result DbError DbProxyAccount × Database
create_proxy_account db now input =
    let inserted : Database = record db {
      proxy_accounts = db.proxy_accounts ++ proxy_account_row input now ∷ [];
    } in
    elim (validate_proxy_kind input.kind) [
      | err e ↦ (err e, db)
      | ok _ ↦
          if has_row (clashes input.id input.kind input.username) db.proxy_accounts
          then (err constraint, db)
          else (
            get_proxy_account inserted input.id >>= λ found. ok_or found (not_inserted input.id),
            inserted,
          )
    ]

unfoldable pub delete_proxy_account : Database → Text → Bool × Database
delete_proxy_account db id = (
  ltb 0 (count_where (has_id id) db.proxy_accounts),
  record db { proxy_accounts = delete_where (has_id id) db.proxy_accounts },
)

abbrev pub set_proxy_account : UpdateProxyAccount → ℤ → ProxyAccountRow → ProxyAccountRow
set_proxy_account input now row = record row {
  kind = input.kind;
  client_id = input.client_id;
  username = input.username;
  password = input.password;
  enabled = bool_to_i64 input.enabled;
  remark = input.remark;
  expires_at = input.expires_at;
  traffic_limit_bytes = map_option u64_to_i64 input.traffic_limit_bytes;
  disabled_reason = if input.enabled then none else some (text "manual");
  updated_at = now;
}

unfoldable pub update_proxy_account :
    Database → ℤ → Text → UpdateProxyAccount → Result DbError (Option DbProxyAccount) × Database
update_proxy_account db now id input =
    let updated : Database = record db {
      proxy_accounts = update_where (has_id id) (set_proxy_account input now) db.proxy_accounts;
    } in
    elim (validate_proxy_kind input.kind) [
      | err e ↦ (err e, db)
      | ok _ ↦
          if count_where (has_id id) db.proxy_accounts == 0
          then (ok none, db)
          else if has_row
              (λ (row : ProxyAccountRow).
                not (eqb row.id id) && (eqb row.kind input.kind && eqb row.username input.username))
              db.proxy_accounts
          then (err constraint, db)
          else (get_proxy_account updated id, updated)
    ]

abbrev pub set_disabled : Text → ℤ → ProxyAccountRow → ProxyAccountRow
set_disabled reason now row = record row {
  enabled = pos 0;
  disabled_reason = some reason;
  updated_at = now;
}

unfoldable pub disable_proxy_account : Database → ℤ → Text → Text → Database
disable_proxy_account db now id reason = record db {
  proxy_accounts = update_where (has_id id) (set_disabled reason now) db.proxy_accounts;
}

-- `order by kind asc, created_at asc, id asc`
abbrev pub kind_before : ProxyAccountRow → ProxyAccountRow → Bool
kind_before a b =
    if eqb a.kind b.kind
    then created_before a.created_at a.id b.created_at b.id
    else text_leb a.kind b.kind

unfoldable pub list_proxy_accounts : Database → Option Text → Result DbError (List DbProxyAccount)
list_proxy_accounts db none = collect row_to_proxy_account (order_by kind_before db.proxy_accounts)
list_proxy_accounts db (some kind) = do
  _ ← validate_proxy_kind kind
  collect row_to_proxy_account (
      order_by (λ (a b : ProxyAccountRow). created_before a.created_at a.id b.created_at b.id)
        (fetch_all (λ (row : ProxyAccountRow). eqb row.kind kind) db.proxy_accounts))

unfoldable pub has_enabled_proxy_accounts : Database → Text → Result DbError Bool
has_enabled_proxy_accounts db kind = do
  _ ← validate_proxy_kind kind
  ok (
      ltb 0 (
        count_where (λ (row : ProxyAccountRow). eqb row.kind kind && eqb_ℤ row.enabled (pos 1))
          db.proxy_accounts))

abbrev pub logs_in : Text → Text → Text → ProxyAccountRow → Bool
logs_in kind username password row =
    eqb row.kind kind
    && eqb row.username username
    && eqb row.password password
    && eqb_ℤ row.enabled (pos 1)

unfoldable pub find_enabled_proxy_account :
    Database → Text → Text → Text → Result DbError (Option DbProxyAccount)
find_enabled_proxy_account db kind username password = do
  _ ← validate_proxy_kind kind
  transpose row_to_proxy_account (fetch_optional (logs_in kind username password) db.proxy_accounts)
