-- ===== src/Controller/HttpProxy/Authorized.antt =====
-- Who is served by the HTTP proxy, and on whose account.
use rps.Base.{
  ℕ, ◌≡◌, ◌∙◌, ap, sym, inl, inr, Bool, true, false, Option, none, some, List, [], ◌++◌, ok, arith,
  Bool-cases, Option-cases, Result-cases, nat_eq, list_eq,
}
use rps.Base.Int.{ℤ}
use rps.Base.Text.{Text, text}
use rps.Base.Text.Utf8.{is_utf8}
use rps.Controller.Db.{DbProxyAccount}
use rps.Controller.Db.ProxyAccounts.{has_enabled_proxy_accounts, find_enabled_proxy_account}
use rps.Controller.Db.ProxyAccounts.Login.{find_enabled_proxy_account-eq-ok}
use rps.Controller.Policy.{allowed, proxy_account_key}
use rps.Controller.Streams.{StreamRoute, open_pool_stream}
use rps.Controller.App.{AppState}
use rps.Controller.HttpProxy.{
  HttpProxyAuth, Served, parse_basic_proxy_auth, authenticated_route, request_of, handle_http_proxy,
  read_header,
}

-- Where accounts are enabled, the header has the name and the password of an enabled account of the
-- proxy, which the policies allow; where none is, nobody is asked.
pub data IsAuthorized (decode : Text → Option (List ℕ)) (s : AppState) (now : ℤ)
    (fallback : StreamRoute) (header : Text) : HttpProxyAuth → Type 0 where
  open_proxy :
      has_enabled_proxy_accounts s.db (text "http") ≡ ok false
      → IsAuthorized decode s now fallback header (record { route = fallback; account_id = none })
  account :
      (username password : Text) (a : DbProxyAccount)
      → has_enabled_proxy_accounts s.db (text "http") ≡ ok true
      → parse_basic_proxy_auth decode header ≡ some (username, password)
      → find_enabled_proxy_account s.db (text "http") username password ≡ ok (some a)
      → (a.kind ≡ text "http")
        × (a.username ≡ username)
        × (a.password ≡ password)
        × (a.enabled ≡ true)
      → (allowed s.policy now (proxy_account_key a.id)).0 ≡ true
      → IsAuthorized decode s now fallback header (record {
        route = record { tunnel_id = text "http-proxy:" ++ a.id; client_id = a.client_id };
        account_id = some a.id;
      })

module _ (decode : Text → Option (List ℕ)) (s : AppState) (now : ℤ) (fallback : StreamRoute) where
  authenticated_route-IsAuthorized :
      (header : Text) {auth : HttpProxyAuth}
      → (authenticated_route decode s now fallback header).0 ≡ ok (some auth)
      → IsAuthorized decode s now fallback header auth
  unfolding authenticated_route
  authenticated_route-IsAuthorized header {auth} h =
      elim (Result-cases (has_enabled_proxy_accounts s.db (text "http"))) [
        | inr (e, failed) ↦ absurd (ground arith)
        | inl (on, ran) ↦ elim (Bool-cases on) [
          | inr off ↦
              let same : record { route = fallback; account_id = none } ≡ auth = ground arith in
              rw (sym same) (open_proxy (ran ∙ ap ok off))
          | inl wanted ↦ elim (Option-cases (parse_basic_proxy_auth decode header)) [
            | inl silent ↦ absurd (ground arith)
            | inr ((username, password), given) ↦
                elim (Result-cases
                  (find_enabled_proxy_account s.db (text "http") username password)) [
                    | inr (e, failed) ↦ absurd (ground arith)
                    | inl (found, looked) ↦ elim (Option-cases found) [
                      | inl nobody ↦ absurd (ground arith)
                      | inr (a, somebody) ↦
                          elim (Bool-cases (allowed s.policy now (proxy_account_key a.id)).0) [
                            | inr no_more ↦ absurd (ground arith)
                            | inl may ↦
                                let it : find_enabled_proxy_account s.db (text "http") username
                                      password
                                    ≡ ok (some a) =
                                  looked ∙ ap ok somebody in
                                let (_, kind, name, secret, enabled) =
                                  find_enabled_proxy_account-eq-ok s.db (text "http") username
                                    password {a = a} it in
                                let theirs : HttpProxyAuth = record {
                                  route = record {
                                    tunnel_id = text "http-proxy:" ++ a.id;
                                    client_id = a.client_id;
                                  };
                                  account_id = some a.id;
                                } in
                                let same : theirs ≡ auth = ground arith in
                                rw (sym same) (
                                  account username password a (ran ∙ ap ok wanted) given it
                                    (kind, name, secret, enabled) may)
                          ]
                    ]
                  ]
          ]
        ]
      ]

-- Whatever bytes a client sends, and however they arrive, it only gets a stream to a target if its
-- header has the name and the password of an enabled account of the HTTP proxy that the policies
-- allow, and then on a route that names this account and its agent; or, while no account of the proxy
-- is enabled, on the route of the proxy.
pub http_served_IsAuthorized :
    (decode : Text → Option (List ℕ)) (s : AppState) (now : ℤ) (fallback : StreamRoute)
    (closed : Bool) (chunks : List (List ℕ)) (served : Served)
    → (handle_http_proxy decode s now fallback closed chunks).0 ≡ ok served
    → (header : Text) × (read_header [] chunks ≡ ok header)
      × IsAuthorized decode s now fallback header
          (record { route = served.route; account_id = served.account_id })
unfolding handle_http_proxy
http_served_IsAuthorized decode s now fallback closed chunks served h =
    elim (Result-cases (read_header [] chunks)) [
      | inr (e, failed) ↦ absurd (ground arith)
      | inl (header, read) ↦ elim (Bool-cases (is_utf8 header)) [
        | inr garbage ↦ absurd (ground arith)
        | inl clean ↦
            let asked = authenticated_route decode s now fallback header in
            elim (Result-cases asked.0) [
              | inr (e, failed) ↦ absurd (ground arith)
              | inl (outcome, known) ↦ elim (Option-cases outcome) [
                | inl refused ↦ absurd (ground arith)
                | inr (auth, accepted) ↦
                    let it =
                      authenticated_route-IsAuthorized decode s now fallback header {auth = auth}
                        (known ∙ ap ok accepted) in
                    elim (Result-cases (request_of header)) [
                      | inr (e, failed) ↦ absurd (ground arith)
                      | inl ((address, initial), parsed) ↦
                          elim (Result-cases
                            (open_pool_stream asked.1.clients auth.route closed).0) [
                              | inr (e, failed) ↦ absurd (ground arith)
                              | inl (u, opened) ↦
                                  let same : auth ≡ record {
                                    route = served.route;
                                    account_id = served.account_id;
                                  } =
                                    ground arith in
                                  (header, read, rw (sym same) it)
                            ]
                    ]
              ]
            ]
      ]
    ]
