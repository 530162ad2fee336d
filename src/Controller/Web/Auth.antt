-- ===== src/Controller/Web/Auth.antt =====
-- Login, sessions and one-time codes. HMAC-SHA1 is a parameter.
pub mod Session
use rps.Base.{
  ℕ, zero, suc, ◌+◌, ◌*◌, ◌-◌, ◌/◌, ◌%◌, ◌^◌, max, Bool, true, false, not, ◌&&◌, ◌||◌, Option, none,
  some, List, [], ◌∷◌, ◌++◌, if◌then◌else◌, length, get_or, leb, ltb, ◌==◌, Result, ok, err, eqb,
  nat_eq, list_eq,
}
use rps.Base.Int.{ℤ, pos, negsuc, ◌+ℤ◌, ltb_ℤ}
use rps.Base.Text.{Text, text}
use rps.Base.Text.Trim.{trim}
use rps.Base.Text.Decimal.{split_at, is_digit}
use rps.Base.Text.Lines.{split_once}
use rps.Base.Map.{Map, get, insert, remove}
use rps.Controller.App.{AppState, WebSession}
use rps.Controller.Web.{ApiError, bad_request, unauthorized, is_empty}

-- `server.web_auth`
pub record WebAuth : Type 0 where
  pub enabled : Bool
  pub username : Text
  pub password : Text
  pub totp_secret : Option Text
  pub session_ttl_secs : ℕ

abbrev pub session_cookie_name : Text
session_cookie_name = text "rps_session"

-- A cookie without `=` ends the search.
unfoldable pub find_cookie : List Text → Option Text
find_cookie [] = none
find_cookie (cookie ∷ cookies) =
    let rest = find_cookie cookies in
    elim (split_once 61 (trim cookie)) [
      | none ↦ none
      | some (name, value) ↦
          if eqb name session_cookie_name && not (is_empty value) then some value else rest
    ]

-- From the value of the Cookie header.
unfoldable pub session_token : Option Text → Option Text
session_token none = none
session_token (some cookies) = find_cookie (split_at 59 cookies)

-- `authenticated_username`; a session that has expired is removed.
unfoldable pub authenticated_username : Option Text → ℤ → AppState → Option Text × AppState
authenticated_username cookies now s = elim (session_token cookies) [
  | none ↦ (none, s)
  | some token ↦ elim (get s.web_sessions token) [
    | none ↦ (none, s)
    | some session ↦
        if ltb_ℤ session.expires_at now
        then (none, record s { web_sessions = remove s.web_sessions token })
        else (some session.username, s)
  ]
]

unfoldable pub require_auth :
    WebAuth → Option Text → ℤ → AppState → Result ApiError (Unit {0}) × AppState
require_auth auth cookies now s =
    let asked = authenticated_username cookies now s in
    if auth.enabled
    then (elim asked.0 [ none ↦ err unauthorized | some _ ↦ ok tt ], asked.1)
    else (ok tt, s)

-- A handler behind `require_auth(..)?`
abbrev pub authorized {ℓ} :
    {A : Type ℓ}
    → WebAuth
    → Option Text
    → ℤ
    → AppState
    → (AppState → Result ApiError A × AppState)
    → Result ApiError A × AppState
authorized auth cookies now s handler =
    let asked = require_auth auth cookies now s in
    elim asked.0 [ err e ↦ (err e, asked.1) | ok _ ↦ handler asked.1 ]

-- The value of a character of Base32.
abbrev pub base32_value : ℕ → Option ℕ
base32_value b =
    if leb 65 b && leb b 90
    then some (b - 65)
    else if leb 97 b && leb b 122
    then some (b - 97)
    else if leb 50 b && leb b 55
    then some (b - 50 + 26)
    else none

-- The loop of `decode_base32`: less than eight bits wait, so five more complete one byte at most.
-- `bits` is a `u32`.
unfoldable pub base32_from : ℕ → ℕ → Text → Result ApiError (List ℕ)
base32_from bits bit_count [] = ok []
base32_from bits bit_count (b ∷ input) = elim (base32_value b) [
  | none ↦ if b == 61 then ok [] else err bad_request
  | some value ↦
      let bits' = (bits * 32 + value) % 2 ^ 32 in
      let count' = bit_count + 5 in
      let full = leb 8 count' in
      let left = if full then count' - 8 else count' in
      elim (base32_from bits' left input) [
        | err e ↦ err e
        | ok out ↦ ok (if full then (bits' / 2 ^ left % 256) ∷ out else out)
      ]
]

unfoldable pub decode_base32 : Text → Result ApiError (List ℕ)
decode_base32 input = elim (base32_from 0 0 input) [
  | err e ↦ err e
  | ok [] ↦ err bad_request
  | ok (b ∷ out) ↦ ok (b ∷ out)
]

-- `{:06}` of a number of at most six digits
abbrev pub six_digits : ℕ → Text
six_digits n =
    (48 + n / 100000 % 10)
    ∷ (48 + n / 10000 % 10)
    ∷ (48 + n / 1000 % 10)
    ∷ (48 + n / 100 % 10)
    ∷ (48 + n / 10 % 10)
    ∷ (48 + n % 10)
    ∷ []

-- The digest has 20 bytes; `step` is the counter as eight bytes.
unfoldable pub totp_at_step : (List ℕ → ℕ → List ℕ) → List ℕ → ℕ → Text
totp_at_step hmac_sha1 secret step =
    let digest = hmac_sha1 secret step in
    let offset = get_or digest 19 0 % 16 in
    let value =
      get_or digest offset 0 % 128 * 2 ^ 24
      + get_or digest (offset + 1) 0 * 2 ^ 16
      + get_or digest (offset + 2) 0 * 2 ^ 8
      + get_or digest (offset + 3) 0 in
    six_digits (value % 1000000)

abbrev pub all_digits : Text → Bool
all_digits [] = true
all_digits (c ∷ s) = is_digit c && all_digits s

abbrev pub totp_digits : ℕ
totp_digits = 6

-- The clock is past the first step of the epoch.
unfoldable pub verify_totp : (List ℕ → ℕ → List ℕ) → ℕ → Text → Text → Result ApiError Bool
verify_totp hmac_sha1 now secret code = elim (decode_base32 secret) [
  | err e ↦ err e
  | ok key ↦
      let entered = trim code in
      let step = now / 30 in
      ok (
        (length entered == totp_digits && all_digits entered)
        && (eqb (totp_at_step hmac_sha1 key (step - 1)) entered
            || (eqb (totp_at_step hmac_sha1 key step) entered
                || eqb (totp_at_step hmac_sha1 key (step + 1)) entered)))
]

-- `replace(' ', "")`
abbrev pub without_spaces : Text → Text
without_spaces [] = []
without_spaces (c ∷ s) = let rest = without_spaces s in if c == 32 then rest else c ∷ rest

unfoldable pub normalized_totp_secret : WebAuth → Option Text
normalized_totp_secret auth = elim auth.totp_secret [
  | none ↦ none
  | some secret ↦
      let plain = without_spaces (trim secret) in if is_empty plain then none else some plain
]

pub record LoginRequest : Type 0 where
  pub username : Text
  pub password : Text
  pub otp_code : Option Text

-- The answers of `login`: the token goes into the cookie.
pub data LoginResponse : Type 0 where
  not_needed requires_2fa : LoginResponse
  session : Text → LoginResponse

abbrev pub or_blank : Option Text → Text
or_blank none = []
or_blank (some code) = trim code

-- `token` is drawn. The clock is past the epoch.
unfoldable pub open_session : WebAuth → ℕ → Text → AppState → AppState
open_session auth now token s = record s {
  web_sessions =
      insert s.web_sessions token (record {
        username = auth.username;
        expires_at = pos (now + max auth.session_ttl_secs 60);
      });
}

unfoldable pub login :
    (List ℕ → ℕ → List ℕ)
    → WebAuth
    → ℕ
    → Text
    → LoginRequest
    → AppState
    → Result ApiError LoginResponse × AppState
login hmac_sha1 auth now token request s =
    if auth.enabled
    then (if eqb request.username auth.username && eqb request.password auth.password
        then elim (normalized_totp_secret auth) [
          | none ↦ (ok (session token), open_session auth now token s)
          | some secret ↦
              if is_empty (or_blank request.otp_code)
              then (ok requires_2fa, s)
              else elim (verify_totp hmac_sha1 now secret (or_blank request.otp_code)) [
                | err e ↦ (err e, s)
                | ok false ↦ (err unauthorized, s)
                | ok true ↦ (ok (session token), open_session auth now token s)
              ]
        ]
        else (err unauthorized, s))
    else (ok not_needed, s)

unfoldable pub logout : Option Text → AppState → AppState
logout cookies s = elim (session_token cookies) [
  | none ↦ s
  | some token ↦ record s { web_sessions = remove s.web_sessions token }
]
