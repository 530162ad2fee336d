-- ===== src/Controller/Tests/Serving.antt =====
-- Who is served by the proxies, at concrete inputs.
use rps.Base.{
  ◌≡◌, refl, true, false, Option, none, some, List, [], ◌∷◌, ◌++◌, ok, nat_eq, list_eq, ℕ, eqb,
  if◌then◌else◌,
}
use rps.Base.Int.{pos}
use rps.Base.Text.{Text, text, strip_prefix}
use rps.Base.Text.Utf8.{is_utf8}
use rps.Base.Text.Lines.{
  split_crlf_from, join_crlf, after_crlf, lines, split_once, eq_ignore_ascii_case, split_whitespace,
}
use rps.Base.Bytes.{read_exact, read_u8, read_u16}
use rps.Base.Text.Decimal.{decimal, ipv4_text, octet_text}
use rps.Base.Map.{get, insert}
use rps.Core.Config.{ProxyListenConfig}
use rps.Core.Protocol.{response_ok}
use rps.Controller.Db.{NewProxyAccount, empty}
use rps.Controller.Db.Columns.{validate_proxy_kind}
use rps.Controller.Db.ProxyAccounts.{
  create_proxy_account, get_proxy_account, has_enabled_proxy_accounts, find_enabled_proxy_account,
  row_to_proxy_account,
}
use rps.Controller.Sql.{fetch_optional, has_row, count_where}
use rps.Controller.Policy.{channel, allowed}
use rps.Controller.Streams.{StreamRoute, answers, open_pool_stream, acquire}
use rps.Controller.TunnelManager
use rps.Controller.ProxyManager
use rps.Controller.App.{AppState}
use rps.Base.Text.Trim.{trim, trim_while, white_front, white_back}
use rps.Base.Text.Decimal.{split_at}
use rps.Controller.HttpProxy
use rps.Controller.HttpProxy.{
  handle_http_proxy, read_header, has_end, authenticated_route, parse_basic_proxy_auth, parse_lines,
  request_of, http_target, with_default_port, rewrite_absolute_form, strip_proxy_headers,
  from_slash,
}
use rps.Controller.HttpProxy.Authorized.{http_served_IsAuthorized}
use rps.Controller.HttpProxy.Authorized as HttpAuthorized
use rps.Controller.Socks5.{Ipv6Text, target, read_host, read_socks_addr}
use rps.Controller.Socks5.Handshake.{
  Conn, SocksAuthContext, connected, v4, handle_conn, read_hello, authenticate, log_in,
  read_username_password, handle_request, handle_connect, send_reply,
}
use rps.Controller.Socks5.Handshake.Authorized.{ServedTo, served_IsAuthorized}
use rps.Controller.Socks5.Handshake.Authorized

abbrev plain : Ipv6Text
plain = record {
  to_string = λ octets. octets;
  parse = λ s. some s;
  parse-to_string = λ octets h. refl;
}

abbrev account : Text → NewProxyAccount
account kind = record {
  id = text "alice";
  kind = kind;
  client_id = text "a";
  username = text "al";
  password = text "pw";
  enabled = true;
  remark = none;
  expires_at = none;
  traffic_limit_bytes = none;
}

abbrev state : Text → AppState
state kind = record {
  db = (create_proxy_account empty (pos 1) (account kind)).1;
  clients = (text "a", record { data_session_id = text "d"; pool = answers response_ok ∷ [] }) ∷ [];
  web_sessions = [];
  tunnel_manager = TunnelManager.new;
  proxy_manager = ProxyManager.new;
  policy = channel;
}

abbrev socks : AppState
socks = state (text "socks5")

abbrev listener : ProxyListenConfig
listener = record {
  listen = text ":1080";
  client_id = text "b";
  public_udp_addr = none;
  enabled = true;
}

abbrev conn : Conn
conn = record {
  udp_addr = record { ip = v4 (10 ∷ 0 ∷ 0 ∷ 1 ∷ []); port = 1080 };
  bind_addr = none;
  closed = false;
}

-- A hello, the name and the password, and a CONNECT to port 80 of 10.0.0.7.
abbrev input : List ℕ
input =
    (5 ∷ 1 ∷ 2 ∷ [])
    ++ (1 ∷ 2 ∷ text "al")
    ++ (2 ∷ text "pw")
    ++ (5 ∷ 1 ∷ 0 ∷ 1 ∷ [])
    ++ (10 ∷ 0 ∷ 0 ∷ 7 ∷ 0 ∷ 80 ∷ [])

abbrev route : StreamRoute
route = record { tunnel_id = text "socks5:alice"; client_id = text "a" }

socks_served :
    (handle_conn plain socks (pos 5) listener conn input).0
    ≡ ok (connected route (text "10.0.0.7:80"))
socks_served =
    unfold create_proxy_account get_proxy_account has_enabled_proxy_accounts
      find_enabled_proxy_account row_to_proxy_account validate_proxy_kind fetch_optional has_row
      count_where channel allowed get insert open_pool_stream acquire target read_host
      read_socks_addr handle_conn read_hello authenticate log_in read_username_password
      handle_request handle_connect send_reply read_exact read_u8 read_u16 is_utf8 decimal ipv4_text
      octet_text response_ok in
    refl

served_IsAuthorized_example :
    (auth : SocksAuthContext) × Authorized.IsAuthorized socks (pos 5) listener input auth
    × ServedTo (connected route (text "10.0.0.7:80")) auth
served_IsAuthorized_example =
    served_IsAuthorized plain socks (pos 5) listener conn input
      (connected route (text "10.0.0.7:80")) socks_served

-- The same for the HTTP proxy, with a decoder that knows one text.
abbrev decode : Text → Option (List ℕ)
decode encoded = if eqb encoded (text "YWw6cHc=") then some (text "al:pw") else none

abbrev fallback : StreamRoute
fallback = record { tunnel_id = text "http-proxy"; client_id = text "b" }

abbrev crlf : Text
crlf = 13 ∷ 10 ∷ []

abbrev header : Text
header =
    text "GET http://h/x HTTP/1.1"
    ++ crlf
    ++ text "proxy-authorization: Basic YWw6cHc="
    ++ crlf
    ++ text "A: b"
    ++ crlf
    ++ crlf

abbrev served : HttpProxy.Served
served = record {
  route = record { tunnel_id = text "http-proxy:alice"; client_id = text "a" };
  account_id = some (text "alice");
  target = text "h:80";
  initial = some (text "GET /x HTTP/1.1" ++ crlf ++ text "A: b" ++ crlf ++ crlf);
}

http_served :
    (handle_http_proxy decode (state (text "http")) (pos 5) fallback false (header ∷ [])).0
    ≡ ok served
http_served =
    unfold create_proxy_account get_proxy_account has_enabled_proxy_accounts
      find_enabled_proxy_account row_to_proxy_account validate_proxy_kind fetch_optional has_row
      count_where channel allowed get insert open_pool_stream acquire decimal response_ok is_utf8
      handle_http_proxy read_header has_end authenticated_route parse_basic_proxy_auth parse_lines
      lines split_once trim trim_while white_front white_back strip_prefix eq_ignore_ascii_case
      request_of split_whitespace split_crlf_from http_target with_default_port
      rewrite_absolute_form strip_proxy_headers join_crlf after_crlf from_slash split_at in
    refl

http_served_IsAuthorized_example :
    (given : Text) × (read_header [] (header ∷ []) ≡ ok given)
    × HttpAuthorized.IsAuthorized decode
        (state (text "http"))
        (pos 5)
        fallback
        given
        (record { route = served.route; account_id = served.account_id })
http_served_IsAuthorized_example =
    http_served_IsAuthorized decode (state (text "http")) (pos 5) fallback false (header ∷ [])
      served http_served
