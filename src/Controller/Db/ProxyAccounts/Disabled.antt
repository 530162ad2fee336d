-- ===== src/Controller/Db/ProxyAccounts/Disabled.antt =====
-- What is read back of an account that is disabled, and of the others.
use rps.Base.{
  ◌≡◌, refl, ap, inl, inr, false, some, ok, ok_inj, bind-eq-ok, eqb, nat_eq, list_eq, list_beq_iff,
  arith, Option-cases,
}
use rps.Base.Int.{ℤ}
use rps.Base.Text.{Text}
use rps.Controller.Sql.{
  fetch_optional, fetch_optional-holds, fetch_optional-update_where,
  fetch_optional-update_where_other,
}
use rps.Controller.Db.{Database, ProxyAccountRow, DbProxyAccount}
use rps.Controller.Db.Columns.{transpose, get_i64}
use rps.Controller.Db.ProxyAccounts.{
  row_to_proxy_account, get_proxy_account, has_id, set_disabled, disable_proxy_account,
}

abbrev pub disabled : Text → DbProxyAccount → DbProxyAccount
disabled reason a = record a { enabled = false; disabled_reason = some reason }

row_to_proxy_account-set_disabled :
    (row : ProxyAccountRow) (now : ℤ) (reason : Text) {a : DbProxyAccount}
    → row_to_proxy_account row ≡ ok a
    → row_to_proxy_account (set_disabled reason now row) ≡ ok (disabled reason a)
unfolding row_to_proxy_account
row_to_proxy_account-set_disabled row now reason {a} h =
    let (rx, got_rx, h1) = bind-eq-ok (get_i64 row.rx_bytes) _ h in
    let (tx, got_tx, h2) = bind-eq-ok (get_i64 row.tx_bytes) _ h1 in
    rw (got_rx, got_tx) (ap ok (ap (disabled reason) (ok_inj h2)))

get_proxy_account-found :
    (db : Database) (id : Text) {a : DbProxyAccount}
    → get_proxy_account db id ≡ ok (some a)
    → (row : ProxyAccountRow) × (fetch_optional (has_id id) db.proxy_accounts ≡ some row)
      × (row_to_proxy_account row ≡ ok a)
unfolding get_proxy_account
get_proxy_account-found db id {a} h =
    elim (Option-cases (fetch_optional (has_id id) db.proxy_accounts)) [
      | inl absent ↦ absurd (ground arith)
      | inr (row, found) ↦
          let h' = rw (found, transpose) at h in
          let (a', read, same) = bind-eq-ok (row_to_proxy_account row) _ h' in
          (row, found, ground arith)
    ]

-- An account that is disabled is read back disabled, with the reason, and otherwise as before.
pub get_proxy_account-disable_proxy_account :
    (db : Database) (now : ℤ) (id reason : Text) (a : DbProxyAccount)
    → get_proxy_account db id ≡ ok (some a)
    → get_proxy_account (disable_proxy_account db now id reason) id ≡ ok (some (disabled reason a))
unfolding disable_proxy_account
get_proxy_account-disable_proxy_account db now id reason a h =
    let (row, found, read) = get_proxy_account-found db id {a = a} h in
    let it = fetch_optional-holds (has_id id) db.proxy_accounts {r = row} found in
    let back = row_to_proxy_account-set_disabled row now reason {a = a} read in
    unfold get_proxy_account in
    rw
      (fetch_optional-update_where (has_id id) (has_id id) (set_disabled reason now)
        db.proxy_accounts (λ r. refl))
      (rw found (rw it (rw (back, transpose) refl)))

pub get_proxy_account-disable_other :
    (db : Database) (now : ℤ) (id reason other : Text)
    → eqb id other ≡ false
    → get_proxy_account (disable_proxy_account db now id reason) other ≡ get_proxy_account db other
unfolding disable_proxy_account get_proxy_account
get_proxy_account-disable_other db now id reason other ne = ap (transpose row_to_proxy_account) (
    fetch_optional-update_where_other (has_id other) (has_id id) (set_disabled reason now)
      db.proxy_accounts (λ r. refl)
      (λ r e. ground (arith, list_beq_iff r.id id, list_beq_iff r.id other, list_beq_iff id other)))
