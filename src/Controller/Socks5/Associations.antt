-- ===== src/Controller/Socks5/Associations.antt =====
-- crates/rps-controller/src/proxy_socks5.rs: the associations. The connections that
-- associate, the task of the socket, the readers of the streams and the cleanup share the tables, so
-- each of their rounds is an operation on one state. An association is an index of the stores that
-- hold its fields. An IP address stands as its text.
use rps.Base.{
  ℕ, ◌≡◌, ◌↔◌, Bool, true, ◌&&◌, none, some, List, [], ◌∷◌, ◌++◌, ◌==◌, if◌then◌else◌, length,
  get_or, set, Eq, eqb, nat_eq, list_eq, list_beq_iff, ==_iff, arith,
}
use rps.Base.Text.{Text, text}
use rps.Base.Map.{Map, get, insert, remove, keys}
use rps.Base.Counters.{count_up, count_down}
use rps.Controller.Policy.{PolicyEnforcer}
use rps.Controller.Traffic.{TrafficState}
use rps.Controller.Streams.{StreamRoute}
use rps.Controller.Socks5.Handshake.{SocksAuthContext, route_id}

pub record ClientAddr : Type 0 where
  pub ip : Text
  pub port : ℕ

pub record SocksUdpSessionKey : Type 0 where
  pub client_id : Text
  pub client_addr : ClientAddr
  pub target : Text

abbrev pub session_key_beq : SocksUdpSessionKey → SocksUdpSessionKey → Bool
session_key_beq a b =
    eqb a.client_id b.client_id
    && (eqb a.client_addr.ip b.client_addr.ip
        && (a.client_addr.port == b.client_addr.port && eqb a.target b.target))

pub session_key_beq_iff : (a b : SocksUdpSessionKey) → (session_key_beq a b ≡ true) ↔ (a ≡ b)
session_key_beq_iff a b = ground (
  arith,
  list_beq_iff a.client_id b.client_id,
  list_beq_iff a.client_addr.ip b.client_addr.ip,
  ==_iff a.client_addr.port b.client_addr.port,
  list_beq_iff a.target b.target,
)

instance abbrev pub session_key_eq : Eq SocksUdpSessionKey
session_key_eq = record { beq = session_key_beq; beq_iff = session_key_beq_iff }

-- A stream of the connection of an agent.
pub record MuxStreamWriter : Type 0 where
  pub client_id : Text
  pub stream : ℕ

-- `last_seen` is the index of a clock, which the reader of the stream shares.
pub record SocksUdpSession : Type 0 where
  pub writer : MuxStreamWriter
  pub last_seen : ℕ

-- `refs`, `seen` and `routes` are the fields of the associations, also of those that are not in the
-- table any more; `closed` are the streams on which a close was sent.
pub record SocksUdpRelay : Type 0 where
  pub associations : Map Text ℕ
  pub refs : List ℕ
  pub seen : List ℕ
  pub routes : List StreamRoute
  pub sessions : Map SocksUdpSessionKey SocksUdpSession
  pub clocks : List ℕ
  pub closed : List MuxStreamWriter
  pub usage : PolicyEnforcer × TrafficState

unfoldable pub new : PolicyEnforcer × TrafficState → SocksUdpRelay
new usage = record {
  associations = [];
  refs = [];
  seen = [];
  routes = [];
  sessions = [];
  clocks = [];
  closed = [];
  usage = usage;
}

abbrev pub udp_route : SocksAuthContext → StreamRoute
udp_route auth = record {
  tunnel_id = route_id (text "socks5-udp") auth.account_id;
  client_id = auth.client_id;
}

-- The route of an association.
abbrev pub route_at : SocksUdpRelay → ℕ → StreamRoute
route_at relay k = get_or relay.routes k (record { tunnel_id = []; client_id = [] })

-- `associations.entry(ip).or_insert_with(..)`
unfoldable pub association : SocksUdpRelay → Text → SocksAuthContext → ℕ → ℕ × SocksUdpRelay
association relay ip auth now = elim (get relay.associations ip) [
  | some k ↦ (k, relay)
  | none ↦ (
    length relay.refs,
    record relay {
      associations = insert relay.associations ip (length relay.refs);
      refs = relay.refs ++ 0 ∷ [];
      seen = relay.seen ++ now ∷ [];
      routes = relay.routes ++ udp_route auth ∷ [];
    },
  )
]

-- `handle_udp_associate` until its reply, with the association that the connection holds.
unfoldable pub associate : SocksUdpRelay → Text → SocksAuthContext → ℕ → ℕ × SocksUdpRelay
associate relay ip auth now =
    let (k, found) = association relay ip auth now in
    (k, record found { refs = count_up found.refs k; seen = set found.seen k now })

-- What a read on the connection of an association does.
unfoldable pub touch : SocksUdpRelay → Text → ℕ → SocksUdpRelay
touch relay ip now = elim (get relay.associations ip) [
  | none ↦ relay
  | some k ↦ record relay { seen = set relay.seen k now }
]

-- `sessions.remove` with a close of the stream
unfoldable pub close : SocksUdpRelay → SocksUdpSessionKey → SocksUdpRelay
close relay key = elim (get relay.sessions key) [
  | none ↦ relay
  | some session ↦ record relay {
    sessions = remove relay.sessions key;
    closed = relay.closed ++ session.writer ∷ [];
  }
]

unfoldable pub close_all : List SocksUdpSessionKey → SocksUdpRelay → SocksUdpRelay
close_all [] relay = relay
close_all (key ∷ rest) relay = close_all rest (close relay key)

unfoldable pub keys_of_ip : Text → List SocksUdpSessionKey → List SocksUdpSessionKey
keys_of_ip ip [] = []
keys_of_ip ip (key ∷ rest) =
    let others = keys_of_ip ip rest in if eqb key.client_addr.ip ip then key ∷ others else others

unfoldable pub close_sessions_for_ip : SocksUdpRelay → Text → SocksUdpRelay
close_sessions_for_ip relay ip = close_all (keys_of_ip ip (keys relay.sessions)) relay

-- `remove_if` with `Arc::ptr_eq`
unfoldable pub remove_same : Map Text ℕ → Text → ℕ → Map Text ℕ
remove_same associations ip k = elim (get associations ip) [
  | none ↦ associations
  | some current ↦ if current == k then remove associations ip else associations
]

-- The end of `handle_udp_associate`, after a shutdown or the end of the connection. After an error of
-- a read it is not reached, and the connection goes on to count.
unfoldable pub leave : SocksUdpRelay → Text → ℕ → SocksUdpRelay
leave relay ip k =
    let lowered : SocksUdpRelay = record relay { refs = count_down relay.refs k } in
    if get_or relay.refs k 0 == 1
    then close_sessions_for_ip
        (record lowered { associations = remove_same lowered.associations ip k }) ip
    else lowered
