-- ===== src/Controller/Web/Api.antt =====
-- The routes of the console. A request has what its handler takes from it, and what the handler draws
-- or asks the system for.
pub mod Guarded
use rps.Base.{ℕ, Bool, Option, List, Result, ok, err}
use rps.Base.Int.{pos}
use rps.Base.Text.{Text}
use rps.Controller.Db.{DbClient, DbTunnel, DbProxyAccount}
use rps.Controller.App.{AppState}
use rps.Controller.Web.{ApiError}
use rps.Controller.Web.Auth.{LoginRequest, LoginResponse, login, logout, require_auth}
use rps.Controller.Web.Clients.{
  CreateClientRequest, UpdateClientRequest, create_client, update_client, delete_client,
}
use rps.Controller.Web.Tunnels.{
  CreateTunnelRequest, UpdateTunnelRequest, create_tunnel, update_tunnel, delete_tunnel,
}
use rps.Controller.Web.Accounts.{
  CreateProxyAccountRequest, UpdateProxyAccountRequest, Drawn, create_proxy_account,
  update_proxy_account, delete_proxy_account,
}
use rps.Controller.Web.Reports.{
  Server, StatusResponse, ClientResponse, TunnelResponse, ProxyResponse, ProxyAccountResponse,
  AuthStatusResponse, auth_status, status, clients, tunnels, proxy, proxy_accounts,
}

pub data ApiRequest : Type 0 where
  get_auth_status post_logout get_events get_status get_clients get_tunnels get_proxy : ApiRequest
  post_login : Text → LoginRequest → ApiRequest
  post_client : Text → Text → CreateClientRequest → ApiRequest
  put_client : Text → UpdateClientRequest → ApiRequest
  post_tunnel : Text → Bool → CreateTunnelRequest → ApiRequest
  put_tunnel : Text → Bool → UpdateTunnelRequest → ApiRequest
  get_proxy_accounts : Option Text → ApiRequest
  post_proxy_account : Drawn → CreateProxyAccountRequest → ApiRequest
  put_proxy_account : Text → UpdateProxyAccountRequest → ApiRequest
  remove_client remove_tunnel remove_proxy_account : Text → ApiRequest

pub data ApiResponse : Type 0 where
  auth_is : AuthStatusResponse → ApiResponse
  logged_in : LoginResponse → ApiResponse
  status_is : StatusResponse → ApiResponse
  clients_are : List ClientResponse → ApiResponse
  tunnels_are : List TunnelResponse → ApiResponse
  proxy_is : ProxyResponse → ApiResponse
  accounts_are : List ProxyAccountResponse → ApiResponse
  client_is : DbClient → ApiResponse
  tunnel_is : DbTunnel → ApiResponse
  account_is : DbProxyAccount → ApiResponse
  streaming done : ApiResponse

-- The result of a handler as an answer.
abbrev pub answer {ℓ} :
    {A : Type ℓ}
    → (A → ApiResponse)
    → Result ApiError A × AppState
    → Result ApiError ApiResponse × AppState
answer of (ok a, s) = (ok (of a), s)
answer of (err e, s) = (err e, s)

-- `run_inner`: the handler of each route.
unfoldable pub handle :
    (List ℕ → ℕ → List ℕ)
    → Server
    → Option Text
    → ℕ
    → ApiRequest
    → AppState
    → Result ApiError ApiResponse × AppState
handle hmac_sha1 server cookies now get_auth_status s =
    let (response, after) = auth_status server cookies (pos now) s in (ok (auth_is response), after)
handle hmac_sha1 server cookies now (post_login token request) s =
    answer logged_in (login hmac_sha1 server.web_auth now token request s)
handle hmac_sha1 server cookies now post_logout s = (ok done, logout cookies s)
handle hmac_sha1 server cookies now get_events s =
    answer (λ _. streaming) (require_auth server.web_auth cookies (pos now) s)
handle hmac_sha1 server cookies now get_status s =
    answer status_is (status server cookies (pos now) s)
handle hmac_sha1 server cookies now get_clients s =
    answer clients_are (clients server cookies (pos now) s)
handle hmac_sha1 server cookies now (post_client id random request) s =
    answer client_is (create_client server.web_auth cookies (pos now) id random request s)
handle hmac_sha1 server cookies now (put_client id request) s =
    answer client_is (update_client server.web_auth cookies (pos now) id request s)
handle hmac_sha1 server cookies now (remove_client id) s =
    answer (λ _. done) (delete_client server.web_auth cookies (pos now) id s)
handle hmac_sha1 server cookies now get_tunnels s =
    answer tunnels_are (tunnels server cookies (pos now) s)
handle hmac_sha1 server cookies now (post_tunnel fresh_id binds request) s =
    answer tunnel_is (create_tunnel server.web_auth cookies (pos now) fresh_id binds request s)
handle hmac_sha1 server cookies now (put_tunnel id binds request) s =
    answer tunnel_is (update_tunnel server.web_auth cookies (pos now) id binds request s)
handle hmac_sha1 server cookies now (remove_tunnel id) s =
    answer (λ _. done) (delete_tunnel server.web_auth cookies (pos now) id s)
handle hmac_sha1 server cookies now get_proxy s = answer proxy_is (proxy server cookies (pos now) s)
handle hmac_sha1 server cookies now (get_proxy_accounts kind) s =
    answer accounts_are (proxy_accounts server cookies (pos now) s kind)
handle hmac_sha1 server cookies now (post_proxy_account drawn request) s =
    answer account_is (create_proxy_account server.web_auth cookies (pos now) drawn request s)
handle hmac_sha1 server cookies now (put_proxy_account id request) s =
    answer account_is (update_proxy_account server.web_auth cookies (pos now) id request s)
handle hmac_sha1 server cookies now (remove_proxy_account id) s =
    answer (λ _. done) (delete_proxy_account server.web_auth cookies (pos now) id s)
