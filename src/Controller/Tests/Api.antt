-- ===== src/Controller/Tests/Api.antt =====
-- The theorem on requests without a session, for a console with a password.
use rps.Base.{◌⊎◌, ◌≡◌, refl, false, none, List, [], ◌∷◌, ◌++◌, err, ℕ}
use rps.Base.Int.{ℤ, pos}
use rps.Base.Text.{text}
use rps.Controller.App.{AppState}
use rps.Controller.Web.{unauthorized}
use rps.Controller.Web.Auth.{authenticated_username}
use rps.Controller.Web.Reports.{auth_expired, Server, event_loop}
use rps.Controller.Web.Api.{ApiRequest, handle}
use rps.Controller.Web.Api.Guarded.{IsKept, is_open, requires_session}
use rps.Controller.Tests.Console.{auth, cookies}

abbrev server : Server
server = record {
  bridge_addr = text ":7000";
  web_addr = text ":7001";
  web_auth = auth;
  config = record { http_proxy = none; socks5 = none; clients = []; tunnels = [] };
}

requires_session_example :
    ((now : ℕ) (request : ApiRequest) (s : AppState)
      → is_open request ≡ false
      → (authenticated_username cookies (pos now) s).0 ≡ none
      → let (response, after) = handle (λ key step. []) server cookies now request s in
        (response ≡ err unauthorized) × IsKept cookies (pos now) s after)
    × ((front back : List (ℤ × AppState)) (now : ℤ) (s : AppState)
        → (authenticated_username cookies now s).0 ≡ none
        → let sent = event_loop server cookies (front ++ (now, s) ∷ back) in
          (sent ≡ event_loop server cookies front ++ auth_expired ∷ [])
          ⊎ (sent ≡ event_loop server cookies front))
requires_session_example = requires_session (λ key step. []) server cookies refl
