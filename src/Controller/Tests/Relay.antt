-- ===== src/Controller/Tests/Relay.antt =====
-- The theorems on the SOCKS5 relay of datagrams, at concrete inputs.
use rps.Base.{
  ◌≡◌, ◌≢◌, ◌<◌, true, none, some, [], ◌∷◌, ok, arith, ℕ, eqb, nat_eq, list_eq, if◌then◌else◌,
}
use rps.Base.Text.{Text, text}
use rps.Base.Map.{get}
use rps.Base.Counters.{live}
use rps.Controller.Policy.{channel}
use rps.Controller.Traffic.{TrafficState}
use rps.Controller.Db.{empty}
use rps.Controller.Socks5.Handshake.{SocksAuthContext}
use rps.Controller.Socks5.Associations.{
  ClientAddr, SocksUdpSessionKey, session_key_eq, SocksUdpSession, SocksUdpRelay, new, associate,
  leave,
}
use rps.Controller.Socks5.Relay.{on_packet}
use rps.Controller.Socks5.Relay.Reach.{Reach, fresh, associates, receives}
use rps.Controller.Socks5.Relay.Last.{IsIn, leave_lem}
use rps.Controller.Tests.Proxies.{plain, packet}

abbrev alice : SocksAuthContext
alice = record { client_id = text "a"; account_id = some (text "alice") }

abbrev counted : TrafficState
counted = record { queue = []; pending = []; db = empty }

abbrev idle : SocksUdpRelay
idle = new (channel, counted)

abbrev held : SocksUdpRelay
held = (associate idle (text "10.0.0.1") alice 100).1

abbrev client : ClientAddr
client = record { ip = text "10.0.0.1"; port = 4000 }

-- `alice` has sent a packet, for which stream 1 was opened.
abbrev used : SocksUdpRelay
used = (on_packet plain held client packet 101 (λ _. ok 1) true).1

reached : Reach plain used ((associate idle (text "10.0.0.1") alice 100).0 ∷ [])
reached =
    receives client packet 101 (λ _. ok 1) true
      (associates (text "10.0.0.1") alice 100 (fresh (channel, counted)))

abbrev only : ℕ
only = (associate idle (text "10.0.0.1") alice 100).0

leave_lem_example :
    (live only [] ≡ 0
      → (get (leave used (text "10.0.0.1") only).associations (text "10.0.0.1") ≢ some only)
        × ((key : SocksUdpSessionKey)
            → get (leave used (text "10.0.0.1") only).sessions key
              ≡ (if eqb key.client_addr.ip (text "10.0.0.1") then none else get used.sessions key))
        × ((key : SocksUdpSessionKey) (session : SocksUdpSession)
            → key.client_addr.ip ≡ text "10.0.0.1"
            → get used.sessions key ≡ some session
            → IsIn session.writer (leave used (text "10.0.0.1") only).closed))
    × (0 < live only []
        → ((leave used (text "10.0.0.1") only).associations ≡ used.associations)
          × ((leave used (text "10.0.0.1") only).sessions ≡ used.sessions))
leave_lem_example = leave_lem plain used [] [] (text "10.0.0.1") only reached (omega arith)
