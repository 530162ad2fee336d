-- ===== src/Controller/HttpProxy.antt =====
-- crates/rps-controller/src/proxy_http.rs: the HTTP proxy, from the first bytes of a client to the
-- stream and what is sent first on it. The Base64 decoder is a parameter.
pub mod Headers
pub mod Authorized
use rps.Base.{
  ℕ, zero, suc, ◌+◌, ◌*◌, Bool, true, false, not, ◌&&◌, ◌||◌, Option, none, some, List, [], ◌∷◌,
  ◌++◌, ◌==◌, ltb, if◌then◌else◌, length, Result, ok, err, ◌>>=◌, ensure, ok_or,
}
use rps.Base.Int.{ℤ}
use rps.Base.Text.{Text, text, strip_prefix}
use rps.Base.Text.Trim.{trim}
use rps.Base.Text.Utf8.{is_utf8}
use rps.Base.Text.Decimal.{decimal, split_at}
use rps.Base.Text.Lines.{
  split_crlf, join_crlf, lines, split_once, after_crlf, eq_ignore_ascii_case, split_whitespace,
  starts_with,
}
use rps.Core.Config.{ProxyListenConfig}
use rps.Controller.Db.{DbError}
use rps.Controller.Db.ProxyAccounts.{has_enabled_proxy_accounts, find_enabled_proxy_account}
use rps.Controller.Policy.{allowed, proxy_account_key}
use rps.Controller.Streams.{StreamRoute, OpenError, open_pool_stream}
use rps.Controller.App.{AppState}

abbrev pub max_header : ℕ
max_header = 64 * 1024

pub data HttpError : Type 0 where
  connection_closed header_too_large not_utf8 : HttpError
  unauthenticated target_not_found : HttpError
  db : DbError → HttpError
  not_opened : OpenError → HttpError

pub record HttpProxyAuth : Type 0 where
  pub route : StreamRoute
  pub account_id : Option Text

abbrev pub proxy_route : ProxyListenConfig → StreamRoute
proxy_route proxy = record { tunnel_id = text "http-proxy"; client_id = proxy.client_id }

-- `windows(4).any(..)`
unfoldable pub has_end : List ℕ → Bool
has_end (a ∷ b ∷ c ∷ d ∷ s) =
    let rest = has_end (b ∷ c ∷ d ∷ s) in (a == 13 && b == 10 && c == 13 && d == 10) || rest
has_end _ = false

-- The chunks are what the reads return; an empty one, or the end of the list, is a closed connection.
unfoldable pub read_header : List ℕ → List (List ℕ) → Result HttpError (List ℕ)
read_header header [] = err connection_closed
read_header header ([] ∷ chunks) = err connection_closed
read_header header ((b ∷ chunk) ∷ chunks) =
    let header' = header ++ b ∷ chunk in
    let rest = read_header header' chunks in
    if has_end header'
    then ok header'
    else if ltb max_header (length header')
    then err header_too_large
    else rest

abbrev pub proxy_authorization : Text
proxy_authorization = text "Proxy-Authorization"

-- `String::from_utf8(decoded).ok()?` and the split at the colon
abbrev pub credentials : List ℕ → Option (Text × Text)
credentials decoded = if is_utf8 decoded then split_once 58 decoded else none

-- The value of a header with the name decides, whatever comes after it.
abbrev pub parse_value : (Text → Option (List ℕ)) → Text → Option (Text × Text)
parse_value decode value = elim (strip_prefix (text "Basic ") (trim value)) [
  | none ↦ none
  | some encoded ↦ elim (decode encoded) [ none ↦ none | some decoded ↦ credentials decoded ]
]

unfoldable pub parse_lines : (Text → Option (List ℕ)) → List Text → Option (Text × Text)
parse_lines decode [] = none
parse_lines decode (line ∷ more) =
    let rest = parse_lines decode more in
    elim (split_once 58 line) [
      | none ↦ rest
      | some (name, value) ↦
          if eq_ignore_ascii_case name proxy_authorization then parse_value decode value else rest
    ]

unfoldable pub parse_basic_proxy_auth : (Text → Option (List ℕ)) → Text → Option (Text × Text)
parse_basic_proxy_auth decode header = parse_lines decode (lines header)

unfoldable pub with_default_port : Text → ℕ → Text
with_default_port host port = elim (split_once 58 host) [
  | none ↦ host ++ text ":" ++ decimal port
  | some _ ↦ host
]

-- `split('/').next()`
abbrev pub first_part : List Text → Text
first_part [] = []
first_part (part ∷ parts) = part

unfoldable pub host_line : List Text → Option Text
host_line [] = none
host_line (line ∷ more) =
    let rest = host_line more in
    elim (strip_prefix (text "Host:") line) [
      | some host ↦ some (with_default_port (trim host) 80)
      | none ↦ elim (strip_prefix (text "host:") line) [
        | some host ↦ some (with_default_port (trim host) 80)
        | none ↦ rest
      ]
    ]

unfoldable pub http_target : Text → Text → Result HttpError Text
http_target uri header = elim (strip_prefix (text "http://") uri) [
  | some rest ↦ ok (with_default_port (first_part (split_at 47 rest)) 80)
  | none ↦ elim (strip_prefix (text "https://") uri) [
    | some rest ↦ ok (with_default_port (first_part (split_at 47 rest)) 443)
    | none ↦ ok_or (host_line (lines header)) target_not_found
  ]
]

abbrev pub is_proxy_authorization : Text → Bool
is_proxy_authorization line = elim (split_once 58 line) [
  | none ↦ false
  | some (name, value) ↦ eq_ignore_ascii_case name proxy_authorization
]

abbrev pub kept : List Text → List Text
kept [] = []
kept (line ∷ rest) =
    let others = kept rest in if is_proxy_authorization line then others else line ∷ others

unfoldable pub strip_proxy_headers : Text → Text
strip_proxy_headers header = join_crlf (kept (split_crlf header))

-- From the first slash on.
unfoldable pub from_slash : Text → Text
from_slash [] = []
from_slash (c ∷ s) = let rest = from_slash s in if c == 47 then c ∷ s else rest

abbrev pub or_slash : Text → Text
or_slash [] = text "/"
or_slash (c ∷ s) = c ∷ s

abbrev pub path_of : Text → Text
path_of uri = elim (strip_prefix (text "http://") uri) [
  | some rest ↦ from_slash rest
  | none ↦ elim (strip_prefix (text "https://") uri) [ some rest ↦ from_slash rest | none ↦ uri ]
]

abbrev pub or_empty_lines : Option Text → Text
or_empty_lines none = 13 ∷ 10 ∷ []
or_empty_lines (some rest) = rest

abbrev pub request_line : Text → Text → Text → Text
request_line method path version = method ++ text " " ++ path ++ text " " ++ version

unfoldable pub rewrite_absolute_form : Text → Text → Text → Text → Text
rewrite_absolute_form method uri version header =
    request_line method (or_slash (path_of uri)) version
    ++ 13 ∷ 10 ∷ strip_proxy_headers (or_empty_lines (after_crlf header))

unfoldable pub authenticated_route :
    (Text → Option (List ℕ))
    → AppState
    → ℤ
    → StreamRoute
    → Text
    → Result HttpError (Option HttpProxyAuth) × AppState
authenticated_route decode s now fallback header =
    elim (has_enabled_proxy_accounts s.db (text "http")) [
      | err e ↦ (err (db e), s)
      | ok false ↦ (ok (some (record { route = fallback; account_id = none })), s)
      | ok true ↦ elim (parse_basic_proxy_auth decode header) [
        | none ↦ (ok none, s)
        | some (username, password) ↦
            elim (find_enabled_proxy_account s.db (text "http") username password) [
              | err e ↦ (err (db e), s)
              | ok none ↦ (ok none, s)
              | ok (some account) ↦
                  let asked = allowed s.policy now (proxy_account_key account.id) in
                  let auth : HttpProxyAuth = record {
                    route = record {
                      tunnel_id = text "http-proxy:" ++ account.id;
                      client_id = account.client_id;
                    };
                    account_id = some account.id;
                  } in
                  (ok (if asked.0 then some auth else none), record s { policy = asked.1 })
            ]
      ]
    ]

-- What is served: the route, the account, the target, and what is sent first to the target.
pub record Served : Type 0 where
  pub route : StreamRoute
  pub account_id : Option Text
  pub target : Text
  pub initial : Option Text

abbrev pub established : Text
established = text "HTTP/1.1 200 Connection Established" ++ 13 ∷ 10 ∷ 13 ∷ 10 ∷ []

abbrev pub authentication_required : Text
authentication_required =
    text "HTTP/1.1 407 Proxy Authentication Required"
    ++ 13 ∷ 10 ∷ text "Proxy-Authenticate: Basic realm="
    ++ 34 ∷ text "rps"
    ++ 34 ∷ 13 ∷ 10 ∷ text "Content-Length: 0"
    ++ 13 ∷ 10 ∷ 13 ∷ 10 ∷ []

abbrev pub part_or : List Text → ℕ → Text → Text
part_or [] n d = d
part_or (p ∷ parts) zero d = p
part_or (p ∷ parts) (suc n) d = part_or parts n d

-- The target, and what is sent first: nothing on a CONNECT.
unfoldable pub request_of : Text → Result HttpError (Text × Option Text)
request_of header =
    let parts = split_whitespace (first_part (split_crlf header)) in
    let method = part_or parts 0 [] in
    let uri = part_or parts 1 [] in
    let version = part_or parts 2 (text "HTTP/1.1") in
    if eq_ignore_ascii_case method (text "CONNECT")
    then ok (uri, none)
    else http_target uri header >>= λ target.
        ok (target, some (rewrite_absolute_form method uri version header))

-- The result, what is written to the client, and the state. The session of the account, which is
-- registered meanwhile, ends with the connection.
unfoldable pub handle_http_proxy :
    (Text → Option (List ℕ))
    → AppState
    → ℤ
    → StreamRoute
    → Bool
    → List (List ℕ)
    → Result HttpError Served × Text × AppState
handle_http_proxy decode s now fallback closed chunks =
    elim (read_header [] chunks >>= λ h. ensure (is_utf8 h) not_utf8 >>= λ _. ok h) [
      | err e ↦ (err e, [], s)
      | ok header ↦
          let asked = authenticated_route decode s now fallback header in
          elim asked.0 [
            | err e ↦ (err e, [], asked.1)
            | ok none ↦ (err unauthenticated, authentication_required, asked.1)
            | ok (some auth) ↦ elim (request_of header) [
              | err e ↦ (err e, [], asked.1)
              | ok (address, initial) ↦
                  let attempt = open_pool_stream asked.1.clients auth.route closed in
                  let next : AppState = record asked.1 { clients = attempt.1 } in
                  let served : Served = record {
                    route = auth.route;
                    account_id = auth.account_id;
                    target = address;
                    initial = initial;
                  } in
                  elim attempt.0 [
                    | err e ↦ (err (not_opened e), [], next)
                    | ok _ ↦ (ok served, elim initial [ none ↦ established | some _ ↦ [] ], next)
                  ]
            ]
          ]
    ]
