-- ===== src/Controller/Socks5/Reply.antt =====
-- A reply to a UDP packet carries the address of the packet.
use rps.Base.{
  ℕ, ◌+◌, ◌≤◌, ◌≡◌, ◌↔◌, ◌∙◌, ap, inl, inr, List, [], ◌∷◌, ◌++◌, length, get_or, ok, All, arith,
  Result-cases,
}
use rps.Base.Words.{IsByte}
use rps.Controller.Socks5.{
  Ipv6Text, SocksAddr, encode_udp_response, read_socks_addr, parse_host, parse_udp_addr,
  parse_udp_packet,
}
use rps.Controller.Socks5.Addr.{read_socks_addr-parse_udp_addr}
use rps.Controller.Socks5.Encoded.{addr_read}

module _ (v6 : Ipv6Text) where
  parse_udp_addr-bound :
      (packet : List ℕ) (offset : ℕ) {a : SocksAddr} {cursor : ℕ}
      → parse_udp_addr v6 packet offset ≡ ok (a, cursor)
      → cursor ≤ length packet
  unfolding parse_udp_addr
  parse_udp_addr-bound packet offset {a} {cursor} h =
      elim (Result-cases (parse_host v6 (get_or packet offset 0) packet (offset + 1))) [
        | inr (e, failed) ↦ absurd (ground arith)
        | inl ((host, here), found) ↦ ground arith
      ]

  -- A packet with no fragments, by the reader of requests.
  parse_udp_packet_iff :
      (atyp : ℕ) (input : List ℕ) (addr : SocksAddr) (payload : List ℕ)
      → (parse_udp_packet v6 (0 ∷ 0 ∷ 0 ∷ atyp ∷ input) ≡ ok (addr, payload))
        ↔ (read_socks_addr v6 input atyp ≡ ok (addr, payload))
  unfolding parse_udp_packet
  parse_udp_packet_iff atyp input addr payload =
      let packet = 0 ∷ 0 ∷ 0 ∷ atyp ∷ input in
      let same = read_socks_addr-parse_udp_addr v6 packet 3 (omega arith) in
      elim (Result-cases (parse_udp_addr v6 packet 3)) [
        | inr (e, failed) ↦ elim (Result-cases (read_socks_addr v6 input atyp)) [
          | inr (e', failed') ↦ (λ h. absurd (ground arith), λ h. absurd (ground arith))
          | inl (r, read) ↦ absurd (ground arith)
        ]
        | inl ((a, cursor), found) ↦ elim (Result-cases (read_socks_addr v6 input atyp)) [
          | inr (e', failed') ↦ absurd (ground arith)
          | inl (r, read) ↦
              let bound = parse_udp_addr-bound packet 3 {a = a} {cursor = cursor} found in
              (λ h. ground arith, λ h. ground arith)
        ]
      ]

  -- The packets that are accepted: three zeros, the kind of address, and an address.
  parse_udp_packet-shape :
      (packet : List ℕ) {r : SocksAddr × List ℕ}
      → parse_udp_packet v6 packet ≡ ok r
      → (atyp : ℕ) × (input : List ℕ) × (packet ≡ 0 ∷ 0 ∷ 0 ∷ atyp ∷ input)
  unfolding parse_udp_packet
  parse_udp_packet-shape (a ∷ b ∷ c ∷ atyp ∷ input) h = (atyp, input, ground arith)
  parse_udp_packet-shape (a ∷ b ∷ c ∷ []) h = absurd (ground arith)
  parse_udp_packet-shape (a ∷ b ∷ []) h = absurd (ground arith)
  parse_udp_packet-shape (a ∷ []) h = absurd (ground arith)
  parse_udp_packet-shape [] h = absurd (ground arith)

-- A UDP packet that is accepted starts with a header, and whatever comes back from its target is sent
-- to the client behind the same header, so that a client reads in a reply the address that it wrote:
-- parsing and encoding are inverse on whole packets.
pub udp_reply_round_trip :
    (v6 : Ipv6Text) (packet payload : List ℕ) (addr : SocksAddr)
    → All IsByte packet
    → parse_udp_packet v6 packet ≡ ok (addr, payload)
    → (header : List ℕ) × (packet ≡ header ++ payload)
      × ((reply : List ℕ)
          → (encode_udp_response v6 addr reply ≡ ok (header ++ reply))
            × (parse_udp_packet v6 (header ++ reply) ≡ ok (addr, reply)))
udp_reply_round_trip v6 packet payload addr all h =
    let (atyp, input, shape) = parse_udp_packet-shape v6 packet {r = (addr, payload)} h in
    let read = (parse_udp_packet_iff v6 atyp input addr payload).0 (rw shape at h) in
    let (_, (_, (_, (_, bytes)))) : All IsByte (0 ∷ 0 ∷ 0 ∷ atyp ∷ input) = rw shape at all in
    let it = addr_read v6 atyp input {addr = addr} {left = payload} bytes read in
    (
      0 ∷ 0 ∷ 0 ∷ atyp ∷ it.bytes,
      shape ∙ ap (λ (x : List ℕ). 0 ∷ 0 ∷ 0 ∷ atyp ∷ x) it.split,
      λ reply. (
        it.written reply,
        (parse_udp_packet_iff v6 atyp (it.bytes ++ reply) addr reply).1 (it.again reply),
      ),
    )
