-- ===== src/Controller/Socks5/Handshake.antt =====
-- crates/rps-controller/src/proxy_socks5.rs: what is said on a TCP connection before data flows. The
-- input is all that the client sends; what is written to it is part of the result. The relay of
-- datagrams and the copying of data are not part of this.
pub mod Authorized
use rps.Base.{
  ℕ, ◌+◌, Bool, true, false, ◌&&◌, ◌||◌, Option, none, some, List, [], ◌∷◌, ◌++◌, ◌==◌,
  if◌then◌else◌, get_or, Result, ok, err, ◌>>=◌, ensure,
}
use rps.Base.Int.{ℤ}
use rps.Base.Text.{Text, text}
use rps.Base.Words.{u16_to_be_bytes}
use rps.Base.Bytes.{read_exact, read_u8}
use rps.Core.Config.{ProxyListenConfig}
use rps.Controller.Db.{Database, DbProxyAccount}
use rps.Controller.Db.ProxyAccounts.{has_enabled_proxy_accounts, find_enabled_proxy_account}
use rps.Controller.Policy.{PolicyEnforcer, allowed, proxy_account_key}
use rps.Controller.Streams.{StreamRoute, open_pool_stream}
use rps.Controller.App.{AppState}
use rps.Controller.Socks5.{
  Ipv6Text, SocksError, SocksAddr, db, not_opened, wrong_version, reserved, unsupported_command,
  wrong_auth_version, not_offered, auth_failed, disabled_by_policy, from_io, from_utf8,
  is_addr_type_error, target, read_socks_addr, socks_version, atyp_ipv4, atyp_ipv6,
}

pub data IpAddr : Type 0 where
  v4 v6 : List ℕ → IpAddr

pub record SocketAddr : Type 0 where
  pub ip : IpAddr
  pub port : ℕ

abbrev is_unspecified : List ℕ → Bool
is_unspecified [] = true
is_unspecified (o ∷ octets) = o == 0 && is_unspecified octets

abbrev pub ip_bytes : IpAddr → List ℕ
ip_bytes (v4 octets) = atyp_ipv4 ∷ octets
ip_bytes (v6 octets) =
    if is_unspecified octets then atyp_ipv4 ∷ 0 ∷ 0 ∷ 0 ∷ 0 ∷ [] else atyp_ipv6 ∷ octets

abbrev pub unwrap_or_unspecified : Option SocketAddr → SocketAddr
unwrap_or_unspecified none = record { ip = v4 (0 ∷ 0 ∷ 0 ∷ 0 ∷ []); port = 0 }
unwrap_or_unspecified (some addr) = addr

-- `send_reply`: what it writes.
unfoldable pub send_reply : ℕ → Option SocketAddr → List ℕ
send_reply rep bind_addr =
    let addr = unwrap_or_unspecified bind_addr in
    (socks_version ∷ rep ∷ 0 ∷ ip_bytes addr.ip) ++ u16_to_be_bytes addr.port

pub record SocksAuthContext : Type 0 where
  pub client_id : Text
  pub account_id : Option Text

-- A part of the conversation: what came of it, what was written, and the policies after it.
pub record Said {ℓ} (A : Type ℓ) : Type ℓ where
  pub outcome : Result SocksError A
  pub written : List ℕ
  pub policy : PolicyEnforcer

abbrev pub says {ℓ} : {A : Type ℓ} → Result SocksError A → List ℕ → PolicyEnforcer → Said A
says outcome written policy = record { outcome = outcome; written = written; policy = policy }

unfoldable pub read_username_password : List ℕ → Result SocksError ((Text × Text) × List ℕ)
read_username_password input = do
  (version, rest) ← from_io (read_u8 input)
  _ ← ensure (version == 1) (wrong_auth_version version)
  (username_len, rest) ← from_io (read_u8 rest)
  (username, rest) ← from_io (read_exact username_len rest)
  (password_len, rest) ← from_io (read_u8 rest)
  (password, rest) ← from_io (read_exact password_len rest)
  username ← from_utf8 username
  password ← from_utf8 password
  ok ((username, password), rest)

abbrev pub method_no_auth : ℕ
method_no_auth = 0

abbrev pub method_username_password : ℕ
method_username_password = 2

abbrev pub contains : List ℕ → ℕ → Bool
contains [] m = false
contains (x ∷ xs) m = x == m || contains xs m

-- The answer to a name and a password
unfoldable pub log_in :
    Database → PolicyEnforcer → ℤ → Text → Text → List ℕ → Said (SocksAuthContext × List ℕ)
log_in database policy now username password rest =
    elim (find_enabled_proxy_account database (text "socks5") username password) [
      | err e ↦ says (err (db e)) [] policy
      | ok none ↦ says (err auth_failed) (1 ∷ 1 ∷ []) policy
      | ok (some account) ↦
          let asked = allowed policy now (proxy_account_key account.id) in
          let auth : SocksAuthContext = record {
            client_id = account.client_id;
            account_id = some account.id;
          } in
          if asked.0
          then says (ok (auth, rest)) (1 ∷ 0 ∷ []) asked.1
          else says (err disabled_by_policy) (1 ∷ 1 ∷ []) asked.1
    ]

abbrev pub before {ℓ} : {A : Type ℓ} → List ℕ → Said A → Said A
before written said = record said { written = written ++ said.written }

unfoldable pub authenticate :
    Database
    → PolicyEnforcer
    → ℤ
    → ProxyListenConfig
    → List ℕ
    → List ℕ
    → Said (SocksAuthContext × List ℕ)
authenticate database policy now proxy methods input =
    elim (has_enabled_proxy_accounts database (text "socks5")) [
      | err e ↦ says (err (db e)) [] policy
      | ok true ↦
          if contains methods method_username_password
          then before (socks_version ∷ method_username_password ∷ [])
              (elim (read_username_password input) [
                | err e ↦ says (err e) [] policy
                | ok ((username, password), rest) ↦
                    log_in database policy now username password rest
              ])
          else says (err not_offered) (socks_version ∷ 255 ∷ []) policy
      | ok false ↦
          let auth : SocksAuthContext = record { client_id = proxy.client_id; account_id = none } in
          if contains methods method_no_auth
          then says (ok (auth, input)) (socks_version ∷ method_no_auth ∷ []) policy
          else says (err not_offered) (socks_version ∷ 255 ∷ []) policy
    ]

-- What a client got: a stream to a target on a route, an association for datagrams, or a polite no.
pub data Served : Type 0 where
  connected : StreamRoute → Text → Served
  associated : SocksAuthContext → SocksAddr → Served
  declined : Served

abbrev pub rep_succeeded : ℕ
rep_succeeded = 0

abbrev pub rep_general_failure : ℕ
rep_general_failure = 1

abbrev pub rep_command_not_supported : ℕ
rep_command_not_supported = 7

abbrev pub rep_addr_type_not_supported : ℕ
rep_addr_type_not_supported = 8

abbrev pub rep_of : SocksError → ℕ
rep_of e = if is_addr_type_error e then rep_addr_type_not_supported else rep_general_failure

-- `format!("{prefix}:{id}")`, or the bare prefix
abbrev pub route_id : Text → Option Text → Text
route_id prefix none = prefix
route_id prefix (some id) = prefix ++ text ":" ++ id

-- The answer to a request whose address is read, and the clients after it. `closed` says whether the
-- pool is closed, `bind_addr` is the local address of the socket.
unfoldable pub handle_connect :
    Ipv6Text
    → AppState
    → SocksAuthContext
    → List ℕ
    → ℕ
    → Bool
    → Option SocketAddr
    → Result SocksError Served × List ℕ × AppState
handle_connect v6_text s auth input atyp closed bind_addr =
    elim (read_socks_addr v6_text input atyp) [
      | err e ↦ (err e, send_reply (rep_of e) none, s)
      | ok (addr, _) ↦
          let route : StreamRoute = record {
            tunnel_id = route_id (text "socks5") auth.account_id;
            client_id = auth.client_id;
          } in
          let attempt = open_pool_stream s.clients route closed in
          let next : AppState = record s { clients = attempt.1 } in
          elim attempt.0 [
            | err e ↦ (err (not_opened e), send_reply rep_general_failure none, next)
            | ok _ ↦ (ok (connected route (target addr)), send_reply rep_succeeded bind_addr, next)
          ]
    ]

-- As far as the reply; what follows it is a state of its own.
unfoldable pub handle_udp_associate :
    Ipv6Text → SocksAuthContext → List ℕ → ℕ → SocketAddr → Result SocksError Served × List ℕ
handle_udp_associate v6_text auth input atyp udp_addr = elim (read_socks_addr v6_text input atyp) [
  | err e ↦ (err e, send_reply (rep_of e) none)
  | ok (requested, _) ↦ (ok (associated auth requested), send_reply rep_succeeded (some udp_addr))
]

-- The environment of one connection.
pub record Conn : Type 0 where
  pub udp_addr : SocketAddr
  pub bind_addr : Option SocketAddr
  pub closed : Bool

-- From the four bytes of the request on.
unfoldable pub handle_request :
    Ipv6Text
    → AppState
    → Conn
    → SocksAuthContext
    → List ℕ
    → Result SocksError Served × List ℕ × AppState
handle_request v6_text s conn auth input = elim (from_io (read_exact 4 input)) [
  | err e ↦ (err e, [], s)
  | ok (header, rest) ↦
      let command = get_or header 1 0 in
      let atyp = get_or header 3 0 in
      let association = handle_udp_associate v6_text auth rest atyp conn.udp_addr in
      let refusal = send_reply rep_command_not_supported none in
      if get_or header 0 0 == socks_version
      then (if get_or header 2 0 == 0
          then (if command == 1
              then handle_connect v6_text s auth rest atyp conn.closed conn.bind_addr
              else if command == 3
              then (association.0, association.1, s)
              else if command == 2
              then (ok declined, refusal, s)
              else (err (unsupported_command command), refusal, s))
          else (err (reserved (get_or header 2 0)), [], s))
      else (err (wrong_version (get_or header 0 0)), [], s)
]

-- The methods that a client offers.
unfoldable pub read_hello : List ℕ → Result SocksError (List ℕ × List ℕ)
read_hello input = do
  (hello, rest) ← from_io (read_exact 2 input)
  _ ← ensure (get_or hello 0 0 == socks_version) (wrong_version (get_or hello 0 0))
  from_io (read_exact (get_or hello 1 0) rest)

unfoldable pub handle_conn :
    Ipv6Text
    → AppState
    → ℤ
    → ProxyListenConfig
    → Conn
    → List ℕ
    → Result SocksError Served × List ℕ × AppState
handle_conn v6_text s now proxy conn input = elim (read_hello input) [
  | err e ↦ (err e, [], s)
  | ok (methods, rest) ↦
      let greeted = authenticate s.db s.policy now proxy methods rest in
      let known : AppState = record s { policy = greeted.policy } in
      elim greeted.outcome [
        | err e ↦ (err e, greeted.written, known)
        | ok (auth, request) ↦
            let served = handle_request v6_text known conn auth request in
            (served.0, greeted.written ++ served.1, served.2)
      ]
]
