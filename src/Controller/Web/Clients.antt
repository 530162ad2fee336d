-- ===== src/Controller/Web/Clients.antt =====
-- Agents, as the console knows them.
use rps.Base.{
  ℕ, Bool, true, not, ◌||◌, Option, none, some, Result, ok, err, if◌then◌else◌, ltb, eqb, nat_eq,
  list_eq,
}
use rps.Base.Int.{ℤ}
use rps.Base.Text.{Text}
use rps.Base.Text.Trim.{trim}
use rps.Base.Map.{remove, contains_key}
use rps.Controller.Db.{DbClient, NewClient, UpdateClient}
use rps.Controller.Db.Clients
use rps.Controller.Db.Clients.{get_client, client_reference_count}
use rps.Controller.App.{AppState}
use rps.Controller.Web.{
  ApiError, bad_request, not_found, conflict, api_error, is_empty, non_blank, unwrap_or,
}
use rps.Controller.Web.Auth.{WebAuth, authorized}

pub record CreateClientRequest : Type 0 where
  pub psk : Option Text
  pub enabled : Option Bool
  pub remark : Option Text
  pub max_connections : Option ℕ
  pub compress : Bool
  pub encrypt : Bool

pub record UpdateClientRequest : Type 0 where
  pub psk : Text
  pub enabled : Bool
  pub remark : Option Text

-- `id` and `random` are drawn.
unfoldable pub create_client :
    WebAuth
    → Option Text
    → ℤ
    → Text
    → Text
    → CreateClientRequest
    → AppState
    → Result ApiError DbClient × AppState
create_client auth cookies now id random request state = authorized auth cookies now state (λ s.
    let input : NewClient = record {
      id = id;
      psk = unwrap_or (non_blank request.psk) random;
      enabled = unwrap_or request.enabled true;
      remark = non_blank request.remark;
      max_connections = request.max_connections;
      compress = request.compress;
      encrypt = request.encrypt;
    } in
    let created = Clients.create_client s.db now input in
    let stored : AppState = record s { db = created.1 } in
    elim created.0 [ err e ↦ (err (api_error e), stored) | ok c ↦ (ok c, stored) ])

-- An agent that is disabled or has a new secret is not served any more.
unfoldable pub cut_off : AppState → Text → DbClient → DbClient → AppState
cut_off s id old client =
    if not client.enabled || not (eqb client.psk old.psk)
    then record s { clients = remove s.clients id }
    else s

unfoldable pub update_client :
    WebAuth
    → Option Text
    → ℤ
    → Text
    → UpdateClientRequest
    → AppState
    → Result ApiError DbClient × AppState
update_client auth cookies now id request state = authorized auth cookies now state (λ s.
    elim (get_client s.db id) [
      | none ↦ (err not_found, s)
      | some old ↦
          let input : UpdateClient = record {
            psk = trim request.psk;
            enabled = request.enabled;
            remark = non_blank request.remark;
            max_connections = old.max_connections;
            compress = old.compress;
            encrypt = old.encrypt;
          } in
          let updated = Clients.update_client s.db now id input in
          let stored : AppState = record s { db = updated.1 } in
          if is_empty (trim request.psk) then (err bad_request, s) else elim updated.0 [
            | err e ↦ (err (api_error e), stored)
            | ok none ↦ (err not_found, stored)
            | ok (some client) ↦ (ok client, cut_off stored id old client)
          ]
    ])

unfoldable pub delete_client :
    WebAuth → Option Text → ℤ → Text → AppState → Result ApiError (Unit {0}) × AppState
delete_client auth cookies now id state = authorized auth cookies now state (λ s.
    let deleted = Clients.delete_client s.db id in
    let stored : AppState = record s { db = deleted.1 } in
    if contains_key s.clients id
    then (err conflict, s)
    else if ltb 0 (client_reference_count s.db id)
    then (err conflict, s)
    else if deleted.0
    then (ok tt, stored)
    else (err not_found, stored))
