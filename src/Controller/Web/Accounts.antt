-- ===== src/Controller/Web/Accounts.antt =====
-- Accounts of the proxies: what is stored, the policies and the sessions.
use rps.Base.{ℕ, Bool, true, ◌||◌, Option, none, some, Result, ok, err, if◌then◌else◌}
use rps.Base.Int.{ℤ}
use rps.Base.Text.{Text}
use rps.Base.Text.Trim.{trim}
use rps.Base.Words.{saturating_add}
use rps.Controller.Policy.{register, unregister, allowed, proxy_account_key}
use rps.Controller.Db.{DbProxyAccount, NewProxyAccount, UpdateProxyAccount}
use rps.Controller.Db.Clients.{get_client}
use rps.Controller.Db.ProxyAccounts
use rps.Controller.Db.ProxyAccounts.{get_proxy_account}
use rps.Controller.ProxyManager.{revoke_account}
use rps.Controller.App.{AppState}
use rps.Controller.Web.{
  ApiError, bad_request, not_found, api_error, is_empty, non_blank, unwrap_or, is_none,
}
use rps.Controller.Web.Auth.{WebAuth, authorized}

pub record CreateProxyAccountRequest : Type 0 where
  pub kind : Text
  pub client_id : Text
  pub username : Option Text
  pub password : Option Text
  pub enabled : Option Bool
  pub remark : Option Text
  pub expires_at : Option ℤ
  pub traffic_limit_bytes : Option ℕ

pub record UpdateProxyAccountRequest : Type 0 where
  pub kind : Text
  pub client_id : Text
  pub username : Text
  pub password : Text
  pub enabled : Bool
  pub remark : Option Text
  pub expires_at : Option ℤ
  pub traffic_limit_bytes : Option ℕ

abbrev pub registered : AppState → DbProxyAccount → AppState
registered s a = record s {
  policy =
      register s.policy (proxy_account_key a.id) a.expires_at a.traffic_limit_bytes
        (saturating_add a.rx_bytes a.tx_bytes);
}

-- What `Uuid::new_v4` and `random_proxy_secret` draw.
pub record Drawn : Type 0 where
  pub id : Text
  pub username : Text
  pub password : Text

unfoldable pub create_proxy_account :
    WebAuth
    → Option Text
    → ℤ
    → Drawn
    → CreateProxyAccountRequest
    → AppState
    → Result ApiError DbProxyAccount × AppState
create_proxy_account auth cookies now drawn request state = authorized auth cookies now state (λ s.
    let input : NewProxyAccount = record {
      id = drawn.id;
      kind = request.kind;
      client_id = request.client_id;
      username = unwrap_or (non_blank request.username) drawn.username;
      password = unwrap_or (non_blank request.password) drawn.password;
      enabled = unwrap_or request.enabled true;
      remark = non_blank request.remark;
      expires_at = request.expires_at;
      traffic_limit_bytes = request.traffic_limit_bytes;
    } in
    let created = ProxyAccounts.create_proxy_account s.db now input in
    let stored : AppState = record s { db = created.1 } in
    if is_none (get_client s.db request.client_id) then (err bad_request, s) else elim created.0 [
      | err e ↦ (err (api_error e), stored)
      | ok a ↦ (ok a, registered stored a)
    ])

-- The sessions of the account end. An enabled one is registered anew, and asked for once, so that one
-- that has expired or is used up is revoked at once.
unfoldable pub refresh : AppState → ℤ → Text → DbProxyAccount → AppState
refresh s now id a =
    let ended : AppState = record s { proxy_manager = (revoke_account s.proxy_manager id).1 } in
    let fresh = registered ended a in
    if a.enabled
    then record fresh { policy = (allowed fresh.policy now (proxy_account_key a.id)).1 }
    else record ended { policy = unregister ended.policy (proxy_account_key a.id) }

unfoldable pub update_proxy_account :
    WebAuth
    → Option Text
    → ℤ
    → Text
    → UpdateProxyAccountRequest
    → AppState
    → Result ApiError DbProxyAccount × AppState
update_proxy_account auth cookies now id request state = authorized auth cookies now state (λ s.
    let input : UpdateProxyAccount = record {
      kind = request.kind;
      client_id = request.client_id;
      username = trim request.username;
      password = trim request.password;
      enabled = request.enabled;
      remark = non_blank request.remark;
      expires_at = request.expires_at;
      traffic_limit_bytes = request.traffic_limit_bytes;
    } in
    let updated = ProxyAccounts.update_proxy_account s.db now id input in
    let stored : AppState = record s { db = updated.1 } in
    elim (get_proxy_account s.db id) [
      | err e ↦ (err (api_error e), s)
      | ok none ↦ (err not_found, s)
      | ok (some old) ↦
          if is_none (get_client s.db request.client_id)
          then (err bad_request, s)
          else if is_empty (trim request.username) || is_empty (trim request.password)
          then (err bad_request, s)
          else elim updated.0 [
            | err e ↦ (err (api_error e), stored)
            | ok none ↦ (err not_found, stored)
            | ok (some a) ↦ (ok a, refresh stored now id a)
          ]
    ])

unfoldable pub delete_proxy_account :
    WebAuth → Option Text → ℤ → Text → AppState → Result ApiError (Unit {0}) × AppState
delete_proxy_account auth cookies now id state = authorized auth cookies now state (λ s.
    let deleted = ProxyAccounts.delete_proxy_account s.db id in
    let stored : AppState = record s { db = deleted.1 } in
    let gone : AppState = record stored {
      proxy_manager = (revoke_account s.proxy_manager id).1;
      policy = unregister s.policy (proxy_account_key id);
    } in
    if deleted.0 then (ok tt, gone) else (err not_found, stored))
