-- ===== src/Controller/Web/Auth/Session.antt =====
-- What a login gives, and how long.
use rps.Base.{ℕ, ◌+◌, ◌/◌, ◌≤◌, ◌⊎◌, [], ◌≡◌, true, Option, none, some, List, ok, nat_eq, list_eq}
use rps.Base.Text.{Text}
use rps.Base.Text.Trim.{trim}
use rps.Controller.App.{AppState}
use rps.Controller.Web.Auth.{
  WebAuth, without_spaces, decode_base32, totp_at_step, or_blank, LoginRequest, login, open_session,
}

-- The code is one of the secret for the step of 30 seconds that `now` is in, the one before or the
-- one after. A secret of blanks is none.
abbrev pub CodeIsRight : (List ℕ → ℕ → List ℕ) → ℕ → Option Text → Option Text → Type 0
CodeIsRight hmac_sha1 now none code = Unit
CodeIsRight hmac_sha1 now (some secret) code =
    (without_spaces (trim secret) ≡ [])
    ⊎ ((key : List ℕ) × (step : ℕ) × (decode_base32 (without_spaces (trim secret)) ≡ ok key)
        × (now / 30 ≤ step + 1)
        × (step ≤ now / 30 + 1)
        × (trim (or_blank code) ≡ totp_at_step hmac_sha1 key step))

module _ (hmac_sha1 : List ℕ → ℕ → List ℕ) (auth : WebAuth) (now : ℕ) (token : Text)
    (request : LoginRequest) (s : AppState) where
  -- What a login that gives a session has seen, and the state it leaves.
  record LoggedIn : Type 0 where
    enabled : auth.enabled ≡ true
    username : request.username ≡ auth.username
    password : request.password ≡ auth.password
    code : CodeIsRight hmac_sha1 now auth.totp_secret request.otp_code
    opened : (login hmac_sha1 auth now token request s).1 ≡ open_session auth now token s
