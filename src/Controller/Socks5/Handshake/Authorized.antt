-- ===== src/Controller/Socks5/Handshake/Authorized.antt =====
-- Who is served, and on whose account.
use rps.Base.{
  ℕ, ◌++◌, ◌∷◌, [], length, err, Bool, ==_iff, ok_inj, bind-eq-ok, ensure, ◌≡◌, refl, ◌∙◌, ap, sym,
  inl, inr, true, false, none, some, List, ◌==◌, get_or, ok, arith, Bool-cases, Option-cases,
  Result-cases, nat_eq, list_eq,
}
use rps.Base.Int.{ℤ}
use rps.Base.Text.{Text, text}
use rps.Base.Bytes.{IoResult, read_exact, read_u8, read_exact-eq-ok, read_u8-cons}
use rps.Core.Config.{ProxyListenConfig}
use rps.Controller.Db.{DbProxyAccount}
use rps.Controller.Db.ProxyAccounts.{has_enabled_proxy_accounts, find_enabled_proxy_account}
use rps.Controller.Db.ProxyAccounts.Login.{find_enabled_proxy_account-eq-ok}
use rps.Controller.Policy.{allowed, proxy_account_key}
use rps.Controller.Streams.{StreamRoute, open_pool_stream}
use rps.Controller.App.{AppState}
use rps.Controller.Socks5.{
  Ipv6Text, target, read_socks_addr, from_io, from_utf8, socks_version, wrong_version,
  wrong_auth_version,
}
use rps.Controller.Socks5.Handshake.{
  Conn, SocksAuthContext, Served, connected, associated, declined, log_in, authenticate, read_hello,
  read_username_password, handle_connect, handle_udp_associate, handle_request, handle_conn,
  route_id,
}

-- What follows the methods that a client offers: its name and its password.
abbrev pub log_in_message : Text → Text → List ℕ → List ℕ
log_in_message username password request =
    1 ∷ length username ∷ (username ++ length password ∷ (password ++ request))

from_io-eq-ok {ℓ} : {A : Type ℓ} (r : IoResult A) {a : A} → from_io r ≡ ok a → r ≡ ok a
from_io-eq-ok (ok b) h = ap ok (ok_inj h)
from_io-eq-ok (err e) h = absurd (ground arith)

read_u8-eq-ok :
    (input : List ℕ) {b : ℕ} {rest : List ℕ} → read_u8 input ≡ ok (b, rest) → input ≡ b ∷ rest
read_u8-eq-ok [] h = absurd (unfold read_u8 read_exact in ground arith)
read_u8-eq-ok (c ∷ input) h = let e = read_u8-cons c input in ground arith

from_utf8-eq-ok : (raw : List ℕ) {t : Text} → from_utf8 raw ≡ ok t → raw ≡ t
from_utf8-eq-ok raw h = ground arith

ensure-eq-ok {ℓ} :
    {E : Type ℓ} (test : Bool) (e : E) {u : Unit} → ensure test e ≡ ok u → test ≡ true
ensure-eq-ok true e h = refl
ensure-eq-ok false e h = cc

assembled :
    (u p r6 : List ℕ) {input r1 r3 r4 r5 : List ℕ} {version n l : ℕ}
    → input ≡ version ∷ r1
    → version ≡ 1
    → r1 ≡ n ∷ r3
    → r3 ≡ u ++ r4
    → r4 ≡ l ∷ r5
    → r5 ≡ p ++ r6
    → length u ≡ n
    → length p ≡ l
    → input ≡ log_in_message u p r6
assembled u p r6 {r1 = r1} {n = n} {l = l} a1 a2 a3 a4 a5 a6 l4 l6 =
    a1
    ∙ (ap (λ (v : ℕ). v ∷ r1) a2
        ∙ (ap (λ (r : List ℕ). 1 ∷ r) a3
            ∙ (ap (λ (r : List ℕ). 1 ∷ n ∷ r) a4
                ∙ (ap (λ (r : List ℕ). 1 ∷ n ∷ (u ++ r)) a5
                    ∙ (ap (λ (r : List ℕ). 1 ∷ n ∷ (u ++ l ∷ r)) a6
                        ∙ (ap (λ (k : ℕ). 1 ∷ k ∷ (u ++ l ∷ (p ++ r6))) (sym l4)
                            ∙ ap (λ (k : ℕ). 1 ∷ length u ∷ (u ++ k ∷ (p ++ r6))) (sym l6)))))))

renamed :
    (u p r6 username password rest : List ℕ) {input u' p' : List ℕ}
    → input ≡ log_in_message u p r6
    → u ≡ u'
    → p ≡ p'
    → ◌≡◌ {A = (List ℕ × List ℕ) × List ℕ} ((u', p'), r6) ((username, password), rest)
    → input ≡ log_in_message username password rest
renamed u p r6 username password rest h a b e =
    h
    ∙ (ap (λ (t : List ℕ). log_in_message t p r6)
          (a ∙ ap (λ (x : (List ℕ × List ℕ) × List ℕ). x.0.0) e)
        ∙ (ap (λ (t : List ℕ). log_in_message username t r6)
              (b ∙ ap (λ (x : (List ℕ × List ℕ) × List ℕ). x.0.1) e)
            ∙ ap (λ (t : List ℕ). log_in_message username password t)
                (ap (λ (x : (List ℕ × List ℕ) × List ℕ). x.1) e)))

read_username_password-eq-ok :
    (input : List ℕ) {username password : Text} {rest : List ℕ}
    → read_username_password input ≡ ok ((username, password), rest)
    → input ≡ log_in_message username password rest
unfolding read_username_password
read_username_password-eq-ok input {username} {password} {rest} h =
    let ((version, r1), e1, h1) = bind-eq-ok (from_io (read_u8 input)) _ h in
    let (_, e2, h2) = bind-eq-ok (ensure (version == 1) (wrong_auth_version version)) _ h1 in
    let ((n, r3), e3, h3) = bind-eq-ok (from_io (read_u8 r1)) _ h2 in
    let ((u, r4), e4, h4) = bind-eq-ok (from_io (read_exact n r3)) _ h3 in
    let ((l, r5), e5, h5) = bind-eq-ok (from_io (read_u8 r4)) _ h4 in
    let ((p, r6), e6, h6) = bind-eq-ok (from_io (read_exact l r5)) _ h5 in
    let (u', e7, h7) = bind-eq-ok (from_utf8 u) _ h6 in
    let (p', e8, h8) = bind-eq-ok (from_utf8 p) _ h7 in
    let a1 = read_u8-eq-ok input (from_io-eq-ok (read_u8 input) e1) in
    let a2 = (==_iff version 1).0 (ensure-eq-ok (version == 1) (wrong_auth_version version) e2) in
    let a3 = read_u8-eq-ok r1 (from_io-eq-ok (read_u8 r1) e3) in
    let (a4, l4) = read_exact-eq-ok n r3 (from_io-eq-ok (read_exact n r3) e4) in
    let a5 = read_u8-eq-ok r4 (from_io-eq-ok (read_u8 r4) e5) in
    let (a6, l6) = read_exact-eq-ok l r5 (from_io-eq-ok (read_exact l r5) e6) in
    let a7 = from_utf8-eq-ok u e7 in
    let a8 = from_utf8-eq-ok p e8 in
    let a9 = ok_inj h8 in
    renamed u p r6 username password rest (assembled u p r6 a1 a2 a3 a4 a5 a6 l4 l6) a7 a8 a9

two_bytes : (hello : List ℕ) → length hello ≡ 2 → hello ≡ get_or hello 0 0 ∷ get_or hello 1 0 ∷ []
two_bytes (a ∷ b ∷ []) h = refl
two_bytes (a ∷ b ∷ c ∷ _) h = absurd (omega arith)
two_bytes (a ∷ []) h = absurd (omega arith)
two_bytes [] h = absurd (omega arith)

read_hello-eq-ok :
    (input : List ℕ) {methods rest : List ℕ}
    → read_hello input ≡ ok (methods, rest)
    → input ≡ 5 ∷ length methods ∷ (methods ++ rest)
unfolding read_hello
read_hello-eq-ok input {methods} {rest} h =
    let ((hello, r1), e1, h1) = bind-eq-ok (from_io (read_exact 2 input)) _ h in
    let (_, e2, h2) =
      bind-eq-ok (ensure (get_or hello 0 0 == socks_version) (wrong_version (get_or hello 0 0))) _
        h1 in
    let (a1, l1) = read_exact-eq-ok 2 input (from_io-eq-ok (read_exact 2 input) e1) in
    let a2 =
      (==_iff (get_or hello 0 0) 5).0
        (ensure-eq-ok (get_or hello 0 0 == 5) (wrong_version (get_or hello 0 0)) e2) in
    let (a3, l3) =
      read_exact-eq-ok (get_or hello 1 0) r1
        (from_io-eq-ok (read_exact (get_or hello 1 0) r1) h2) in
    let b = two_bytes hello l1 in a1 ∙ (ap (λ t. t ++ r1) b ∙ cc)

-- Where accounts are enabled, the client gave the name and the password of an enabled account of the
-- proxy, which the policies allow; where none is, nobody is asked.
pub data IsAuthorized (s : AppState) (now : ℤ) (proxy : ProxyListenConfig) (input : List ℕ)
    : SocksAuthContext → Type 0 where
  open_proxy :
      has_enabled_proxy_accounts s.db (text "socks5") ≡ ok false
      → IsAuthorized s now proxy input (record { client_id = proxy.client_id; account_id = none })
  account :
      (methods request : List ℕ) (username password : Text) (a : DbProxyAccount)
      → input ≡ 5 ∷ length methods ∷ (methods ++ log_in_message username password request)
      → has_enabled_proxy_accounts s.db (text "socks5") ≡ ok true
      → find_enabled_proxy_account s.db (text "socks5") username password ≡ ok (some a)
      → (a.kind ≡ text "socks5")
        × (a.username ≡ username)
        × (a.password ≡ password)
        × (a.enabled ≡ true)
      → (allowed s.policy now (proxy_account_key a.id)).0 ≡ true
      → IsAuthorized s now proxy input (record { client_id = a.client_id; account_id = some a.id })

module _ (s : AppState) (now : ℤ) (proxy : ProxyListenConfig) (input methods : List ℕ) where
  log_in-IsAuthorized :
      (username password : Text) (rest : List ℕ)
      → input ≡ 5 ∷ length methods ∷ (methods ++ log_in_message username password rest)
      → {auth : SocksAuthContext} {request : List ℕ}
      → has_enabled_proxy_accounts s.db (text "socks5") ≡ ok true
      → (log_in s.db s.policy now username password rest).outcome ≡ ok (auth, request)
      → IsAuthorized s now proxy input auth
  unfolding log_in
  log_in-IsAuthorized username password rest gave {auth} {request} on h =
      elim (Result-cases (find_enabled_proxy_account s.db (text "socks5") username password)) [
        | inr (e, failed) ↦ absurd (ground arith)
        | inl (found, ran) ↦ elim (Option-cases found) [
          | inl nobody ↦ absurd (ground arith)
          | inr (a, somebody) ↦
              elim (Bool-cases (allowed s.policy now (proxy_account_key a.id)).0) [
                | inr no_more ↦ absurd (ground arith)
                | inl may ↦
                    let it : find_enabled_proxy_account s.db (text "socks5") username password
                        ≡ ok (some a) =
                      ran ∙ ap ok somebody in
                    let (_, kind, name, secret, enabled) =
                      find_enabled_proxy_account-eq-ok s.db (text "socks5") username password
                        {a = a} it in
                    let same : record { client_id = a.client_id; account_id = some a.id } ≡ auth =
                      ground arith in
                    rw (sym same) (
                      account methods rest username password a gave on it
                        (kind, name, secret, enabled) may)
              ]
        ]
      ]

  authenticate-IsAuthorized :
      (behind : List ℕ) {auth : SocksAuthContext} {request : List ℕ}
      → input ≡ 5 ∷ length methods ∷ (methods ++ behind)
      → (authenticate s.db s.policy now proxy methods behind).outcome ≡ ok (auth, request)
      → IsAuthorized s now proxy input auth
  unfolding authenticate
  authenticate-IsAuthorized behind {auth} {request} greeting h =
      elim (Result-cases (has_enabled_proxy_accounts s.db (text "socks5"))) [
        | inr (e, failed) ↦ absurd (ground arith)
        | inl (on, ran) ↦ elim (Bool-cases on) [
          | inr off ↦
              let same : record { client_id = proxy.client_id; account_id = none } ≡ auth =
                ground arith in
              rw (sym same) (open_proxy (ran ∙ ap ok off))
          | inl wanted ↦ elim (Result-cases (read_username_password behind)) [
            | inr (e, failed) ↦ absurd (ground arith)
            | inl (((username, password), rest), read) ↦
                log_in-IsAuthorized username password rest
                  (greeting
                    ∙ ap (λ (b : List ℕ). 5 ∷ length methods ∷ (methods ++ b))
                        (read_username_password-eq-ok behind read))
                  {request = request} (ran ∙ ap ok wanted) (ground arith)
          ]
        ]
      ]

-- What was served is on the account of the context.
abbrev pub ServedTo : Served → SocksAuthContext → Type 0
ServedTo (connected route address) auth =
    (route.client_id ≡ auth.client_id)
    × (route.tunnel_id ≡ route_id (text "socks5") auth.account_id)
ServedTo (associated context requested) auth = context ≡ auth
ServedTo declined auth = Unit

handle_connect-ServedTo :
    (v6 : Ipv6Text) (s : AppState) (conn : Conn) (auth : SocksAuthContext) (input : List ℕ)
    (atyp : ℕ) {served : Served}
    → (handle_connect v6 s auth input atyp conn.closed conn.bind_addr).0 ≡ ok served
    → ServedTo served auth
unfolding handle_connect
handle_connect-ServedTo v6 s conn auth input atyp {served} h =
    elim (Result-cases (read_socks_addr v6 input atyp)) [
      | inr (e, failed) ↦ absurd (ground arith)
      | inl ((addr, rest), read) ↦
          let route : StreamRoute = record {
            tunnel_id = route_id (text "socks5") auth.account_id;
            client_id = auth.client_id;
          } in
          elim (Result-cases (open_pool_stream s.clients route conn.closed).0) [
            | inr (e, failed) ↦ absurd (ground arith)
            | inl (u, opened) ↦
                let same : connected route (target addr) ≡ served = ground arith in
                rw (sym same) (refl, refl)
          ]
    ]

handle_udp_associate-ServedTo :
    (v6 : Ipv6Text) (conn : Conn) (auth : SocksAuthContext) (input : List ℕ) (atyp : ℕ)
    {served : Served}
    → (handle_udp_associate v6 auth input atyp conn.udp_addr).0 ≡ ok served
    → ServedTo served auth
unfolding handle_udp_associate
handle_udp_associate-ServedTo v6 conn auth input atyp {served} h =
    elim (Result-cases (read_socks_addr v6 input atyp)) [
      | inr (e, failed) ↦ absurd (ground arith)
      | inl ((addr, rest), read) ↦
          let same : associated auth addr ≡ served = ground arith in rw (sym same) refl
    ]

handle_request-ServedTo :
    (v6 : Ipv6Text) (s : AppState) (conn : Conn) (auth : SocksAuthContext) (input : List ℕ)
    {served : Served}
    → (handle_request v6 s conn auth input).0 ≡ ok served
    → ServedTo served auth
unfolding handle_request
handle_request-ServedTo v6 s conn auth input {served} h =
    elim (Result-cases (from_io (read_exact 4 input))) [
      | inr (e, failed) ↦ absurd (ground arith)
      | inl ((header, rest), read) ↦
          let connects =
            handle_connect-ServedTo v6 s conn auth rest (get_or header 3 0) {served = served} in
          let associates =
            handle_udp_associate-ServedTo v6 conn auth rest (get_or header 3 0) {served = served} in
          elim (Bool-cases (get_or header 1 0 == 1)) [
            | inl connect ↦ connects (ground arith)
            | inr c ↦ elim (Bool-cases (get_or header 1 0 == 3)) [
              | inl associate ↦ associates (ground arith)
              | inr a ↦ let same : declined ≡ served = ground arith in rw (sym same) tt
            ]
          ]
    ]

-- Whatever the bytes that a client sends, it is only served (with a stream to a target, an association
-- for datagrams, or the refusal of a BIND) after it gave, in the bytes behind its hello, the name and
-- the password of an enabled account of the SOCKS5 proxy that the policies allow, on a route that names this account and its
-- agent; or, while no account of the proxy is enabled, on the route of the proxy.
pub served_IsAuthorized :
    (v6 : Ipv6Text) (s : AppState) (now : ℤ) (proxy : ProxyListenConfig) (conn : Conn)
    (input : List ℕ) (served : Served)
    → (handle_conn v6 s now proxy conn input).0 ≡ ok served
    → (auth : SocksAuthContext) × IsAuthorized s now proxy input auth × ServedTo served auth
unfolding handle_conn
served_IsAuthorized v6 s now proxy conn input served h = elim (Result-cases (read_hello input)) [
  | inr (e, failed) ↦ absurd (ground arith)
  | inl ((methods, rest), read) ↦
      let greeted = authenticate s.db s.policy now proxy methods rest in
      elim (Result-cases greeted.outcome) [
        | inr (e, failed) ↦ absurd (ground arith)
        | inl ((auth, request), known) ↦ (
          auth,
          authenticate-IsAuthorized s now proxy input methods rest {auth = auth} {request = request}
              (read_hello-eq-ok input read) known,
          handle_request-ServedTo v6 (record s { policy = greeted.policy }) conn auth request
              (ground arith),
        )
      ]
]
