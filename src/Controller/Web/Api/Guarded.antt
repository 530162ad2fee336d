-- ===== src/Controller/Web/Api/Guarded.antt =====
-- What a request without a session gets.
use rps.Base.{
  ◌≡◌, refl, sym, subst, ap, inl, inr, ◌⊎◌, some, ℕ, Bool, true, false, Option, none, List, [], ◌∷◌,
  ◌++◌, Result, err, if◌then◌else◌, arith, Bool-cases, Option-cases, Result-cases, list_eq, nat_eq,
}
use rps.Base.Int.{ℤ, pos, ltb_ℤ}
use rps.Base.Text.{Text}
use rps.Base.Map.{get, remove}
use rps.Controller.App.{AppState, WebSession}
use rps.Controller.Web.{ApiError, unauthorized}
use rps.Controller.Web.Auth.{
  WebAuth, authorized, require_auth, authenticated_username, session_token,
}
use rps.Controller.Web.Clients.{create_client, update_client, delete_client}
use rps.Controller.Web.Tunnels.{create_tunnel, update_tunnel, delete_tunnel}
use rps.Controller.Web.Accounts.{create_proxy_account, update_proxy_account, delete_proxy_account}
use rps.Controller.Web.Reports.{
  Server, Event, auth_expired, event_of, console_data_response, event_loop, status, clients,
  tunnels, proxy, proxy_accounts,
}
use rps.Controller.Web.Api.{
  ApiRequest, ApiResponse, answer, handle, get_auth_status, post_logout, get_events, get_status,
  get_clients, get_tunnels, get_proxy, post_login, post_client, put_client, post_tunnel, put_tunnel,
  get_proxy_accounts, post_proxy_account, put_proxy_account, remove_client, remove_tunnel,
  remove_proxy_account,
}

-- The requests that anyone may send.
pub is_open : ApiRequest → Bool
is_open get_auth_status = true
is_open (post_login _ _) = true
is_open post_logout = true
is_open _ = false

handle-refused :
    (hmac_sha1 : List ℕ → ℕ → List ℕ) (server : Server) (cookies : Option Text) (now : ℕ)
    (request : ApiRequest) (s : AppState) {e : ApiError}
    → is_open request ≡ false
    → (require_auth server.web_auth cookies (pos now) s).0 ≡ err e
    → handle hmac_sha1 server cookies now request s
      ≡ (err e, (require_auth server.web_auth cookies (pos now) s).1)
unfolding handle is_open create_client update_client delete_client create_tunnel update_tunnel
    delete_tunnel create_proxy_account update_proxy_account delete_proxy_account status clients
    tunnels proxy proxy_accounts
handle-refused hmac server cookies now get_auth_status s closed refused = absurd (ground arith)
handle-refused hmac server cookies now (post_login token request) s closed refused =
    absurd (ground arith)
handle-refused hmac server cookies now post_logout s closed refused = absurd (ground arith)
handle-refused hmac server cookies now get_events s closed refused = rw (refused, answer) refl
handle-refused hmac server cookies now get_status s closed refused =
    rw (refused, answer, authorized) refl
handle-refused hmac server cookies now get_clients s closed refused =
    rw (refused, answer, authorized) refl
handle-refused hmac server cookies now (post_client id random request) s closed refused =
    rw (refused, answer, authorized) refl
handle-refused hmac server cookies now (put_client id request) s closed refused =
    rw (refused, answer, authorized) refl
handle-refused hmac server cookies now (remove_client id) s closed refused =
    rw (refused, answer, authorized) refl
handle-refused hmac server cookies now get_tunnels s closed refused =
    rw (refused, answer, authorized) refl
handle-refused hmac server cookies now (post_tunnel fresh_id binds request) s closed refused =
    rw (refused, answer, authorized) refl
handle-refused hmac server cookies now (put_tunnel id binds request) s closed refused =
    rw (refused, answer, authorized) refl
handle-refused hmac server cookies now (remove_tunnel id) s closed refused =
    rw (refused, answer, authorized) refl
handle-refused hmac server cookies now get_proxy s closed refused =
    rw (refused, answer, authorized) refl
handle-refused hmac server cookies now (get_proxy_accounts kind) s closed refused =
    rw (refused, answer, authorized) refl
handle-refused hmac server cookies now (post_proxy_account drawn request) s closed refused =
    rw (refused, answer, authorized) refl
handle-refused hmac server cookies now (put_proxy_account id request) s closed refused =
    rw (refused, answer, authorized) refl
handle-refused hmac server cookies now (remove_proxy_account id) s closed refused =
    rw (refused, answer, authorized) refl

-- What a refusal may change: a session that is past its end is removed.
abbrev pub IsKept : Option Text → ℤ → AppState → AppState → Type 0
IsKept cookies now s after =
    (after ≡ s)
    ⊎ ((token : Text) × (session : WebSession) × (session_token cookies ≡ some token)
        × (get s.web_sessions token ≡ some session)
        × (ltb_ℤ session.expires_at now ≡ true)
        × (after ≡ record s { web_sessions = remove s.web_sessions token }))

require_auth-IsKept :
    (auth : WebAuth) (cookies : Option Text) (now : ℤ) (s : AppState)
    → IsKept cookies now s (require_auth auth cookies now s).1
unfolding require_auth authenticated_username
require_auth-IsKept auth cookies now s = elim (Bool-cases auth.enabled) [
  | inr free ↦ rw (free, require_auth, if◌then◌else◌) (inl refl)
  | inl enabled ↦ elim (Option-cases (session_token cookies)) [
    | inl absent ↦
        rw (enabled, absent, require_auth, authenticated_username, if◌then◌else◌) (inl refl)
    | inr (token, t) ↦ elim (Option-cases (get s.web_sessions token)) [
      | inl unknown ↦ inl (ground arith)
      | inr (session, found) ↦ elim (Bool-cases (ltb_ℤ session.expires_at now)) [
        | inl late ↦ inr (token, session, t, found, late, ground arith)
        | inr fresh ↦ inl (ground arith)
      ]
    ]
  ]
]

event_loop-refused :
    (server : Server) (cookies : Option Text) (front back : List (ℤ × AppState)) (now : ℤ)
    (s : AppState) {e : ApiError}
    → (require_auth server.web_auth cookies now s).0 ≡ err e
    → let sent = event_loop server cookies (front ++ (now, s) ∷ back) in
      (sent ≡ event_loop server cookies front ++ auth_expired ∷ [])
      ⊎ (sent ≡ event_loop server cookies front)
unfolding event_loop
event_loop-refused server cookies [] back now s refused = rw (refused, event_loop) (inl refl)
event_loop-refused server cookies ((n, t) ∷ front) back now s refused =
    elim (Result-cases (require_auth server.web_auth cookies n t).0) [
      | inr (why, r) ↦ rw (r, event_loop) (inr refl)
      | inl (fine, r) ↦
          let first = event_of (console_data_response server t) in
          elim (event_loop-refused server cookies front back now s refused) [
            | inl e ↦ rw (r, event_loop) (inl (ap (λ (es : List Event). first ∷ es) e))
            | inr e ↦ rw (r, event_loop) (inr (ap (λ (es : List Event). first ∷ es) e))
          ]
    ]

no_session-refused :
    (auth : WebAuth) (cookies : Option Text) (now : ℤ) (s : AppState)
    → auth.enabled ≡ true
    → (authenticated_username cookies now s).0 ≡ none
    → (require_auth auth cookies now s).0 ≡ err unauthorized
unfolding require_auth
no_session-refused auth cookies now s enabled stranger =
    rw (enabled, stranger, require_auth, if◌then◌else◌) refl

-- In a console with a password, every request but the status of the login, the login and the logout
-- is refused without a session, whatever it asks for: the answer is that it is unauthorized, and the
-- state stays as it is, except that the session of the request is removed if it is past its end. A
-- stream of events sends nothing of the state at a tick at which there is no session, nor later: it
-- ends there, with the event that the session is gone, or has ended before.
pub requires_session :
    (hmac_sha1 : List ℕ → ℕ → List ℕ) (server : Server) (cookies : Option Text)
    → server.web_auth.enabled ≡ true
    → ((now : ℕ) (request : ApiRequest) (s : AppState)
        → is_open request ≡ false
        → (authenticated_username cookies (pos now) s).0 ≡ none
        → let (response, after) = handle hmac_sha1 server cookies now request s in
          (response ≡ err unauthorized) × IsKept cookies (pos now) s after)
      × ((front back : List (ℤ × AppState)) (now : ℤ) (s : AppState)
          → (authenticated_username cookies now s).0 ≡ none
          → let sent = event_loop server cookies (front ++ (now, s) ∷ back) in
            (sent ≡ event_loop server cookies front ++ auth_expired ∷ [])
            ⊎ (sent ≡ event_loop server cookies front))
requires_session hmac_sha1 server cookies enabled = (
  λ now request s closed stranger.
      let h =
        handle-refused hmac_sha1 server cookies now request s closed
          (no_session-refused server.web_auth cookies (pos now) s enabled stranger) in
      (
        ap (λ (r : Result ApiError ApiResponse × AppState). r.0) h,
        subst (λ (r : Result ApiError ApiResponse × AppState). IsKept cookies (pos now) s r.1)
            (sym h) (require_auth-IsKept server.web_auth cookies (pos now) s),
      ),
  λ front back now s stranger.
      event_loop-refused server cookies front back now s
        (no_session-refused server.web_auth cookies now s enabled stranger),
)
