-- ===== src/Controller/Socks5.antt =====
-- crates/rps-controller/src/proxy_socks5.rs: addresses as they stand in requests, replies and UDP
-- packets. The text of an IPv6 address is a parameter, `Ipv6Text`; that of an IPv4 address is not.
pub mod Addr
pub mod Encoded
pub mod Reply
pub mod Handshake
pub mod Associations
pub mod Relay
use rps.Base.{
  ℕ, ◌+◌, ◌<◌, ◌≡◌, Bool, true, false, ◌&&◌, Option, none, some, List, [], ◌∷◌, ◌++◌, ltb, leb,
  ◌==◌, if◌then◌else◌, length, take, drop, get_or, Result, ok, err, ◌>>=◌, ◌>>◌, ensure,
}
use rps.Base.Text.{Text, text}
use rps.Base.Text.Utf8.{is_utf8}
use rps.Base.Text.Decimal.{decimal, ipv4_text, parse_ipv4}
use rps.Base.Words.{u16_to_be_bytes, u16_from_be_bytes, IsByte}
use rps.Controller.Db.{DbError}
use rps.Controller.Streams.{OpenError}
use rps.Base.Bytes.{IoError, IoResult, read_exact, read_u8, read_u16}

abbrev pub socks_version : ℕ
socks_version = 5

abbrev pub atyp_ipv4 : ℕ
atyp_ipv4 = 1

abbrev pub atyp_domain : ℕ
atyp_domain = 3

abbrev pub atyp_ipv6 : ℕ
atyp_ipv6 = 4

-- `Display` and `FromStr` of `Ipv6Addr`, on its 16 octets: what is printed is parsed back.
pub record Ipv6Text : Type 0 where
  pub to_string : List ℕ → Text
  pub parse : Text → Option (List ℕ)
  pub parse-to_string :
      (octets : List ℕ) → length octets ≡ 16 → parse (to_string octets) ≡ some octets

pub data SocksError : Type 0 where
  io : IoError → SocksError
  unsupported_atyp : ℕ → SocksError
  bad_address domain_too_long not_utf8 : SocksError
  packet_too_short invalid_reserved fragmented : SocksError
  missing_atyp truncated missing_port : SocksError
  db : DbError → SocksError
  not_opened : OpenError → SocksError
  wrong_version reserved unsupported_command wrong_auth_version : ℕ → SocksError
  not_offered auth_failed disabled_by_policy : SocksError

abbrev pub from_io {ℓ} : {A : Type ℓ} → IoResult A → Result SocksError A
from_io (ok a) = ok a
from_io (err e) = err (io e)

abbrev pub parsed {ℓ} : {A : Type ℓ} → Option A → Result SocksError A
parsed none = err bad_address
parsed (some a) = ok a

-- `String::from_utf8(raw)?`
abbrev pub from_utf8 : List ℕ → Result SocksError Text
from_utf8 raw = if is_utf8 raw then ok raw else err not_utf8

-- `is_addr_type_error`: the error whose message has the words.
unfoldable pub is_addr_type_error : SocksError → Bool
is_addr_type_error (unsupported_atyp _) = true
is_addr_type_error _ = false

pub record SocksAddr : Type 0 where
  pub host : Text
  pub port : ℕ
  pub atyp : ℕ

unfoldable pub target : SocksAddr → Text
target addr =
    if addr.atyp == atyp_ipv6
    then text "[" ++ addr.host ++ text "]:" ++ decimal addr.port
    else addr.host ++ text ":" ++ decimal addr.port

-- `Ipv4Addr::from(raw).to_string()`
abbrev pub ipv4_string : List ℕ → Text
ipv4_string raw = ipv4_text (get_or raw 0 0) (get_or raw 1 0) (get_or raw 2 0) (get_or raw 3 0)

abbrev pub domain_bytes : Text → Result SocksError (List ℕ)
domain_bytes host = ensure (leb (length host) 255) domain_too_long >> ok (length host ∷ host)

-- The rules for the three kinds of address, by the number of the kind.
abbrev pub by_atyp {ℓ} :
    {A : Type ℓ}
    → ℕ
    → Result SocksError A
    → Result SocksError A
    → Result SocksError A
    → Result SocksError A
by_atyp atyp ipv4 ipv6 domain =
    if atyp == atyp_ipv4
    then ipv4
    else if atyp == atyp_ipv6
    then ipv6
    else if atyp == atyp_domain
    then domain
    else err (unsupported_atyp atyp)

module _ (v6 : Ipv6Text) where
  unfoldable pub host_bytes : SocksAddr → Result SocksError (List ℕ)
  host_bytes addr =
      by_atyp addr.atyp (parsed (parse_ipv4 addr.host)) (parsed (v6.parse addr.host))
        (domain_bytes addr.host)

  unfoldable pub encode_udp_response : SocksAddr → List ℕ → Result SocksError (List ℕ)
  encode_udp_response addr payload = do
    host ← host_bytes addr
    ok ((0 ∷ 0 ∷ 0 ∷ addr.atyp ∷ host) ++ (u16_to_be_bytes addr.port ++ payload))

  -- The host, and what is left in the stream.
  unfoldable pub read_host : ℕ → List ℕ → Result SocksError (Text × List ℕ)
  read_host atyp input =
      by_atyp atyp (from_io (read_exact 4 input) >>= λ r. ok (ipv4_string r.0, r.1))
        (from_io (read_exact 16 input) >>= λ r. ok (v6.to_string r.0, r.1))
        (from_io (read_u8 input) >>= λ l.
          from_io (read_exact l.0 l.1) >>= λ r. from_utf8 r.0 >>= λ host. ok (host, r.1))

  unfoldable pub read_socks_addr : List ℕ → ℕ → Result SocksError (SocksAddr × List ℕ)
  read_socks_addr input atyp = do
    (host, left) ← read_host atyp input
    (port, rest) ← from_io (read_u16 left)
    ok (record { host = host; port = port; atyp = atyp }, rest)

  -- `packet[from..from + n]`, where the packet is that long.
  abbrev pub slice : List ℕ → ℕ → ℕ → Result SocksError (List ℕ)
  slice packet from n =
      ensure (leb (from + n) (length packet)) truncated >> ok (take n (drop from packet))

  -- The host, and where it ends.
  unfoldable pub parse_host : ℕ → List ℕ → ℕ → Result SocksError (Text × ℕ)
  parse_host atyp packet cursor =
      by_atyp atyp (slice packet cursor 4 >>= λ raw. ok (ipv4_string raw, cursor + 4))
        (slice packet cursor 16 >>= λ raw. ok (v6.to_string raw, cursor + 16))
        (ensure (ltb cursor (length packet)) truncated >>= λ _.
          let len = get_or packet cursor 0 in
          slice packet (cursor + 1) len >>= λ raw.
          from_utf8 raw >>= λ host. ok (host, cursor + 1 + len))

  unfoldable pub parse_udp_addr : List ℕ → ℕ → Result SocksError (SocksAddr × ℕ)
  parse_udp_addr packet offset = do
    _ ← ensure (ltb offset (length packet)) missing_atyp
    let atyp = get_or packet offset 0
    (host, cursor) ← parse_host atyp packet (offset + 1)
    _ ← ensure (leb (cursor + 2) (length packet)) missing_port
    ok (
      record {
        host = host;
        port =
            u16_from_be_bytes (get_or (drop cursor packet) 0 0) (get_or (drop cursor packet) 1 0);
        atyp = atyp;
      },
      cursor + 2,
    )

  unfoldable pub parse_udp_packet : List ℕ → Result SocksError (SocksAddr × List ℕ)
  parse_udp_packet packet = do
    _ ← ensure (leb 4 (length packet)) packet_too_short
    _ ← ensure (get_or packet 0 0 == 0 && get_or packet 1 0 == 0) invalid_reserved
    _ ← ensure (get_or packet 2 0 == 0) fragmented
    (addr, offset) ← parse_udp_addr packet 3
    _ ← ensure (leb offset (length packet)) packet_too_short
    ok (addr, drop offset packet)
