-- ===== src/Controller/Tests/Proxies.antt =====
-- The theorems on the proxies at concrete inputs.
use rps.Base.{◌≡◌, refl, some, List, [], ◌∷◌, ◌++◌, ok, arith, nat_eq, list_eq, drop, ℕ}
use rps.Base.Text.{text}
use rps.Base.Text.Decimal.{ipv4_text, octet_text}
use rps.Controller.Socks5.{
  Ipv6Text, SocksAddr, parse_udp_packet, parse_udp_addr, parse_host, encode_udp_response,
  read_socks_addr,
}
use rps.Controller.Socks5.Addr.{result, left_in, read_socks_addr-parse_udp_addr}
use rps.Controller.Socks5.Reply.{udp_reply_round_trip}
use rps.Core.Protocol.{response_ok}
use rps.Controller.Streams.{Pooled, answers}

abbrev live : Pooled
live = answers response_ok

-- A notation for IPv6 addresses: the octets themselves.
abbrev pub plain : Ipv6Text
plain = record {
  to_string = λ octets. octets;
  parse = λ s. some s;
  parse-to_string = λ octets h. refl;
}

-- To port 53 of 10.0.0.7, with two bytes of data.
abbrev pub packet : List ℕ
packet = 0 ∷ 0 ∷ 0 ∷ 1 ∷ 10 ∷ 0 ∷ 0 ∷ 7 ∷ 0 ∷ 53 ∷ 1 ∷ 2 ∷ []

abbrev resolver : SocksAddr
resolver = record { host = text "10.0.0.7"; port = 53; atyp = 1 }

packet_parsed : parse_udp_packet plain packet ≡ ok (resolver, 1 ∷ 2 ∷ [])
packet_parsed = unfold parse_udp_packet parse_udp_addr parse_host ipv4_text octet_text in refl

udp_reply_round_trip_example :
    (header : List ℕ) × (packet ≡ header ++ 1 ∷ 2 ∷ [])
    × ((reply : List ℕ)
        → (encode_udp_response plain resolver reply ≡ ok (header ++ reply))
          × (parse_udp_packet plain (header ++ reply) ≡ ok (resolver, reply)))
udp_reply_round_trip_example =
    udp_reply_round_trip plain packet (1 ∷ 2 ∷ []) resolver (ground arith) packet_parsed

read_socks_addr-parse_udp_addr_example :
    result (read_socks_addr plain (drop 4 packet) 1)
    ≡ left_in packet (result (parse_udp_addr plain packet 3))
read_socks_addr-parse_udp_addr_example = read_socks_addr-parse_udp_addr plain packet 3 (omega arith)
