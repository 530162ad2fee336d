-- ===== src/Controller/Db/ProxyAccounts/Login.antt =====
-- Who may use a proxy.
use rps.Base.{
  ◌≡◌, ◌≢◌, refl, sym, ◌∙◌, ap, ◌↔◌, inl, inr, true, false, none, some, List, [], ◌∷◌, ok, ok_inj,
  bind-eq-ok, eqb, nat_eq, list_eq, list_beq_iff, arith, Option-cases,
}
use rps.Base.Int.{ℤ, pos, negsuc, eqb_ℤ}
use rps.Base.Text.{Text}
use rps.Controller.Sql.{
  fetch_optional, has_row, update_where, fetch_optional-holds, has_row-fetch_optional,
}
use rps.Controller.Db.{Database, ProxyAccountRow, DbProxyAccount}
use rps.Controller.Db.Columns.{validate_proxy_kind, transpose, i64_to_bool, get_i64}
use rps.Controller.Db.ProxyAccounts.{
  row_to_proxy_account, logs_in, find_enabled_proxy_account, has_id, set_disabled,
  disable_proxy_account,
}

row_to_proxy_account-keeps :
    (row : ProxyAccountRow) {a : DbProxyAccount}
    → row_to_proxy_account row ≡ ok a
    → (a.id ≡ row.id)
      × (a.kind ≡ row.kind)
      × (a.username ≡ row.username)
      × (a.password ≡ row.password)
      × (a.enabled ≡ i64_to_bool row.enabled)
unfolding row_to_proxy_account
row_to_proxy_account-keeps row {a} h =
    let (rx, got_rx, h1) = bind-eq-ok (get_i64 row.rx_bytes) _ h in
    let (tx, got_tx, h2) = bind-eq-ok (get_i64 row.tx_bytes) _ h1 in
    let same = sym (ok_inj h2) in
    (
      ap (λ (x : DbProxyAccount). x.id) same,
      ap (λ (x : DbProxyAccount). x.kind) same,
      ap (λ (x : DbProxyAccount). x.username) same,
      ap (λ (x : DbProxyAccount). x.password) same,
      ap (λ (x : DbProxyAccount). x.enabled) same,
    )

login_row :
    (db : Database) (kind username password : Text) {a : DbProxyAccount}
    → find_enabled_proxy_account db kind username password ≡ ok (some a)
    → (validate_proxy_kind kind ≡ ok tt)
      × ((row : ProxyAccountRow) × (fetch_optional
              (logs_in kind username password)
              db.proxy_accounts
            ≡ some row)
          × (row_to_proxy_account row ≡ ok a))
unfolding find_enabled_proxy_account
login_row db kind username password {a} h =
    let (u, valid, h1) = bind-eq-ok (validate_proxy_kind kind) _ h in
    elim (Option-cases (fetch_optional (logs_in kind username password) db.proxy_accounts)) [
      | inl absent ↦ absurd (ground arith)
      | inr (row, found) ↦
          let h2 = rw (found, transpose) at h1 in
          let (a', read, same) = bind-eq-ok (row_to_proxy_account row) _ h2 in
          (valid, (row, found, ground arith))
    ]

is_one : (n : ℤ) → eqb_ℤ n (pos 1) ≡ true → i64_to_bool n ≡ true
is_one (pos n) h = ground arith
is_one (negsuc n) h = absurd (ground arith)

-- Who logs in to a proxy is an enabled account of that kind of proxy, with that name and that
-- password.
pub find_enabled_proxy_account-eq-ok :
    (db : Database) (kind username password : Text) {a : DbProxyAccount}
    → find_enabled_proxy_account db kind username password ≡ ok (some a)
    → (validate_proxy_kind kind ≡ ok tt)
      × (a.kind ≡ kind)
      × (a.username ≡ username)
      × (a.password ≡ password)
      × (a.enabled ≡ true)
find_enabled_proxy_account-eq-ok db kind username password {a} h =
    let (valid, (row, found, read)) = login_row db kind username password {a = a} h in
    let it =
      fetch_optional-holds (logs_in kind username password) db.proxy_accounts {r = row} found in
    let (same_id, same_kind, same_name, same_password, same_enabled) =
      row_to_proxy_account-keeps row {a = a} read in
    let (p, q, r, one) : (row.kind ≡ kind)
        × (row.username ≡ username)
        × (row.password ≡ password)
        × (eqb_ℤ row.enabled (pos 1) ≡ true) =
      ground (
        arith,
        list_beq_iff row.kind kind,
        list_beq_iff row.username username,
        list_beq_iff row.password password,
      ) in
    (valid, same_kind ∙ p, same_name ∙ q, same_password ∙ r, same_enabled ∙ is_one row.enabled one)

-- A login finds nobody exactly if the kind of proxy exists and no enabled account of that kind has
-- the name and the password.
pub find_enabled_proxy_account-none :
    (db : Database) (kind username password : Text)
    → (find_enabled_proxy_account db kind username password ≡ ok none) ↔ (
        (validate_proxy_kind kind ≡ ok tt)
        × (has_row (logs_in kind username password) db.proxy_accounts ≡ false))
unfolding find_enabled_proxy_account
find_enabled_proxy_account-none db kind username password =
    let known = has_row-fetch_optional (logs_in kind username password) db.proxy_accounts in
    elim (Option-cases (fetch_optional (logs_in kind username password) db.proxy_accounts)) [
      | inl absent ↦ (
        λ h.
            let (u, valid, h1) = bind-eq-ok (validate_proxy_kind kind) _ h in
            (valid, rw absent at known),
        λ h. rw (h.0, absent) refl,
      )
      | inr (row, found) ↦ (
        λ h.
            let (u, valid, h1) = bind-eq-ok (validate_proxy_kind kind) _ h in
            let h2 = rw (found, transpose) at h1 in
            let (a, read, same) = bind-eq-ok (row_to_proxy_account row) _ h2 in
            absurd (ground arith),
        λ h. let there = rw found at known in absurd (ground arith),
      )
    ]

fetch-disabled :
    (rows : List ProxyAccountRow) (now : ℤ) (id reason kind username password : Text)
    {row : ProxyAccountRow}
    → fetch_optional
        (logs_in kind username password)
        (update_where (has_id id) (set_disabled reason now) rows)
      ≡ some row
    → eqb row.id id ≡ false
unfolding fetch_optional update_where
fetch-disabled [] now id reason kind username password h = absurd (ground arith)
fetch-disabled (r ∷ rows) now id reason kind username password {row} h =
    ground (arith, fetch-disabled rows now id reason kind username password {row = row})

-- A disabled account does not log in any more, whatever name and password are tried.
pub disabled_cannot_log_in :
    (db : Database) (now : ℤ) (id reason kind username password : Text) {a : DbProxyAccount}
    → find_enabled_proxy_account (disable_proxy_account db now id reason) kind username password
      ≡ ok (some a)
    → a.id ≢ id
unfolding disable_proxy_account
disabled_cannot_log_in db now id reason kind username password {a} h e =
    let (valid, (row, found, read)) =
      login_row (disable_proxy_account db now id reason) kind username password {a = a} h in
    let other =
      fetch-disabled db.proxy_accounts now id reason kind username password {row = row} found in
    let (same_id, same_kind, same_name, same_password, same_enabled) =
      row_to_proxy_account-keeps row {a = a} read in
    absurd (ground (arith, list_beq_iff row.id id))
