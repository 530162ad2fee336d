-- ===== src/Controller/Socks5/Relay/Reach.antt =====
-- The states of the SOCKS5 relay (src/proxy_socks5.rs) that may come up.
use rps.Base.{ℕ, Bool, Option, List, [], ◌∷◌, ◌++◌, nat_eq, list_eq, Result}
use rps.Base.Text.{Text}
use rps.Controller.Policy.{PolicyEnforcer}
use rps.Controller.Traffic.{TrafficState}
use rps.Controller.Streams.{StreamRoute, OpenError}
use rps.Controller.Socks5.{Ipv6Text, SocksAddr}
use rps.Controller.Socks5.Handshake.{SocksAuthContext}
use rps.Controller.Socks5.Associations.{
  ClientAddr, SocksUdpSessionKey, session_key_eq, SocksUdpRelay, new, associate, touch, leave,
}
use rps.Controller.Socks5.Relay.{on_packet, on_response, cleanup_udp_state}

-- With the associations that connections hold. A connection whose read fails never leaves, and holds
-- its association for good.
pub data Reach (v6_text : Ipv6Text) : SocksUdpRelay → List ℕ → Type 0 where
  fresh : (usage : PolicyEnforcer × TrafficState) → Reach v6_text (new usage) []
  associates :
      {relay : SocksUdpRelay} {holders : List ℕ} (ip : Text) (auth : SocksAuthContext) (now : ℕ)
      → Reach v6_text relay holders
      → Reach v6_text (associate relay ip auth now).1 ((associate relay ip auth now).0 ∷ holders)
  leaves :
      {relay : SocksUdpRelay} (front back : List ℕ) (ip : Text) (k : ℕ)
      → Reach v6_text relay (front ++ k ∷ back)
      → Reach v6_text (leave relay ip k) (front ++ back)
  touches :
      {relay : SocksUdpRelay} {holders : List ℕ} (ip : Text) (now : ℕ)
      → Reach v6_text relay holders
      → Reach v6_text (touch relay ip now) holders
  receives :
      {relay : SocksUdpRelay} {holders : List ℕ} (client_addr : ClientAddr) (packet : List ℕ)
      (now : ℕ) (opens : StreamRoute → Result OpenError ℕ) (sent : Bool)
      → Reach v6_text relay holders
      → Reach v6_text (on_packet v6_text relay client_addr packet now opens sent).1 holders
  responds :
      {relay : SocksUdpRelay} {holders : List ℕ} (route : StreamRoute) (key : SocksUdpSessionKey)
      (addr : SocksAddr) (clock : ℕ) (data' : Option (List ℕ)) (delivered : Bool) (now : ℕ)
      → Reach v6_text relay holders
      → Reach v6_text (on_response v6_text route key addr clock data' delivered now relay).1 holders
  cleans :
      {relay : SocksUdpRelay} {holders : List ℕ} (now : ℕ)
      → Reach v6_text relay holders
      → Reach v6_text (cleanup_udp_state relay now) holders
