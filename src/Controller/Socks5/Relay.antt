-- ===== src/Controller/Socks5/Relay.antt =====
-- crates/rps-controller/src/proxy_socks5.rs: the relay of datagrams, and the cleanup. Whether a stream
-- can be opened, data be sent and a packet be delivered is given, as is the clock.
pub mod Within
pub mod Reach
pub mod Kept
pub mod Route
pub mod Last
use rps.Base.{
  ℕ, ◌-◌, Bool, Option, none, some, List, [], ◌∷◌, ◌++◌, if◌then◌else◌, Result, ok, err, length,
  get_or, set, ltb, nat_eq, list_eq,
}
use rps.Base.Text.{Text}
use rps.Base.Map.{Map, get, insert, remove, keys}
use rps.Controller.Streams.{StreamRoute, OpenError, add_usage}
use rps.Controller.Socks5.{Ipv6Text, SocksAddr, target, parse_udp_packet, encode_udp_response}
use rps.Controller.Socks5.Associations.{
  ClientAddr, SocksUdpSessionKey, session_key_eq, MuxStreamWriter, SocksUdpSession, SocksUdpRelay,
  route_at, close_all, close_sessions_for_ip,
}

abbrev pub udp_idle_secs : ℕ
udp_idle_secs = 120

-- The session that a datagram uses: that of the key, or one of a new stream, that `open_stream` opens
-- on the route, over the connection of its agent.
unfoldable pub session_for :
    SocksUdpRelay
    → StreamRoute
    → SocksUdpSessionKey
    → ℕ
    → (StreamRoute → Result OpenError ℕ)
    → Option MuxStreamWriter × SocksUdpRelay
session_for relay route key now opens = elim (get relay.sessions key) [
  | some session ↦
      (some session.writer, record relay { clocks = set relay.clocks session.last_seen now })
  | none ↦ elim (opens route) [
    | err e ↦ (none, relay)
    | ok stream ↦
        let writer : MuxStreamWriter = record { client_id = route.client_id; stream = stream } in
        (
          some writer,
          record relay {
            sessions =
                insert relay.sessions key
                  (record { writer = writer; last_seen = length relay.clocks });
            clocks = relay.clocks ++ now ∷ [];
          },
        )
  ]
]

-- What follows the send: the payload is counted, or the session is forgotten.
unfoldable pub after_send :
    StreamRoute → SocksUdpSessionKey → ℕ → Bool → SocksUdpRelay → SocksUdpRelay
after_send route key len sent relay =
    if sent
    then record relay { usage = add_usage route relay.usage 0 len }
    else record relay { sessions = remove relay.sessions key }

-- A round of `run_udp_relay`: the stream that the payload goes to, if it is not dropped.
unfoldable pub on_packet :
    Ipv6Text
    → SocksUdpRelay
    → ClientAddr
    → List ℕ
    → ℕ
    → (StreamRoute → Result OpenError ℕ)
    → Bool
    → Option (MuxStreamWriter × List ℕ) × SocksUdpRelay
on_packet v6_text relay client_addr packet now opens sent =
    elim (get relay.associations client_addr.ip) [
      | none ↦ (none, relay)
      | some k ↦
          let touched : SocksUdpRelay = record relay { seen = set relay.seen k now } in
          let route = route_at relay k in
          elim (parse_udp_packet v6_text packet) [
            | err e ↦ (none, touched)
            | ok (addr, payload) ↦
                let key : SocksUdpSessionKey = record {
                  client_id = route.client_id;
                  client_addr = client_addr;
                  target = target addr;
                } in
                let used = session_for touched route key now opens in
                elim used.0 [
                  | none ↦ (none, used.1)
                  | some writer ↦
                      (some (writer, payload), after_send route key (length payload) sent used.1)
                ]
          ]
    ]

-- A round of the reader of a session: the packet that goes to the client. It ends, and forgets the
-- session of its key, when there is no data, no packet can be made of it or it cannot be delivered.
unfoldable pub on_response :
    Ipv6Text
    → StreamRoute
    → SocksUdpSessionKey
    → SocksAddr
    → ℕ
    → Option (List ℕ)
    → Bool
    → ℕ
    → SocksUdpRelay
    → Option (List ℕ) × SocksUdpRelay
on_response v6_text route key addr clock data' delivered now relay =
    let ended : SocksUdpRelay = record relay { sessions = remove relay.sessions key } in
    elim data' [
      | none ↦ (none, ended)
      | some payload ↦ elim (encode_udp_response v6_text addr payload) [
        | err e ↦ (none, ended)
        | ok packet ↦
            if delivered
            then (
              some packet,
              record relay {
                usage = add_usage route relay.usage (length payload) 0;
                clocks = set relay.clocks clock now;
              },
            )
            else (none, ended)
      ]
    ]

abbrev pub is_idle : ℕ → ℕ → Bool
is_idle now last_seen = ltb udp_idle_secs (now - last_seen)

unfoldable pub stale_associations : SocksUdpRelay → ℕ → List Text → List Text
stale_associations relay now [] = []
stale_associations relay now (ip ∷ ips) =
    let rest = stale_associations relay now ips in
    elim (get relay.associations ip) [
      | none ↦ rest
      | some k ↦ if is_idle now (get_or relay.seen k 0) then ip ∷ rest else rest
    ]

unfoldable pub stale_sessions :
    SocksUdpRelay → ℕ → List SocksUdpSessionKey → List SocksUdpSessionKey
stale_sessions relay now [] = []
stale_sessions relay now (key ∷ rest) =
    let others = stale_sessions relay now rest in
    elim (get relay.sessions key) [
      | none ↦ others
      | some session ↦
          if is_idle now (get_or relay.clocks session.last_seen 0) then key ∷ others else others
    ]

-- `associations.remove` of a stale association, and of its sessions if it was there.
unfoldable pub expire : SocksUdpRelay → Text → SocksUdpRelay
expire relay ip = elim (get relay.associations ip) [
  | none ↦ relay
  | some k ↦ close_sessions_for_ip (record relay { associations = remove relay.associations ip }) ip
]

unfoldable pub expire_all : List Text → SocksUdpRelay → SocksUdpRelay
expire_all [] relay = relay
expire_all (ip ∷ ips) relay = expire_all ips (expire relay ip)

-- A round of `cleanup_udp_state`.
unfoldable pub cleanup_udp_state : SocksUdpRelay → ℕ → SocksUdpRelay
cleanup_udp_state relay now =
    let rest = expire_all (stale_associations relay now (keys relay.associations)) relay in
    close_all (stale_sessions rest now (keys rest.sessions)) rest
