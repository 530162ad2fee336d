-- ===== src/Controller/Socks5/Relay/Route.antt =====
-- Where the datagrams of a SOCKS5 client go.
use rps.Base.{ℕ, Option, none, some, nat_eq, list_eq}
use rps.Base.Text.{Text}
use rps.Controller.Streams.{StreamRoute}
use rps.Controller.Socks5.Handshake.{SocksAuthContext}
use rps.Controller.Socks5.Associations.{SocksUdpRelay, udp_route, route_at}
use rps.Controller.Socks5.Relay.Reach.{Reach}

-- The route that a new connection is given.
abbrev pub route_given : SocksUdpRelay → SocksAuthContext → Option ℕ → StreamRoute
route_given relay auth none = udp_route auth
route_given relay auth (some k) = route_at relay k
