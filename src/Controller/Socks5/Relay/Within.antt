-- ===== src/Controller/Socks5/Relay/Within.antt =====
-- Operations after which nothing is in the tables of the relay that was not there before.
use rps.Base.{
  ◌≡◌, refl, ◌∙◌, inl, inr, ℕ, Bool, true, false, Option, none, some, List, [], ◌∷◌, nat_eq,
  list_eq, arith, if◌then◌else◌, Option-cases, Bool-cases, Result-cases,
}
use rps.Base.Text.{Text}
use rps.Base.Map.{get, remove, keys, get-remove}
use rps.Controller.Streams.{StreamRoute}
use rps.Controller.Socks5.{Ipv6Text, SocksAddr, encode_udp_response}
use rps.Controller.Socks5.Associations.{
  SocksUdpSessionKey, session_key_eq, SocksUdpSession, SocksUdpRelay, touch, close, close_all,
  keys_of_ip, close_sessions_for_ip,
}
use rps.Controller.Socks5.Relay.{
  after_send, on_response, stale_associations, stale_sessions, expire, expire_all,
  cleanup_udp_state,
}

pub record IsWithin (after before : SocksUdpRelay) : Type 0 where
  pub refs : after.refs ≡ before.refs
  pub routes : after.routes ≡ before.routes
  pub associations :
      (ip : Text) (k : ℕ) → get after.associations ip ≡ some k → get before.associations ip ≡ some k
  pub sessions :
      (key : SocksUdpSessionKey) (session : SocksUdpSession)
      → get after.sessions key ≡ some session
      → get before.sessions key ≡ some session

pub same-IsWithin :
    {after before : SocksUdpRelay}
    → after.refs ≡ before.refs
    → after.routes ≡ before.routes
    → after.associations ≡ before.associations
    → after.sessions ≡ before.sessions
    → IsWithin after before
same-IsWithin r q a s = record {
  refs = r;
  routes = q;
  associations = λ ip k h. rw (← a) h;
  sessions = λ key session h. rw (← s) h;
}

pub trans-IsWithin : {c b a : SocksUdpRelay} → IsWithin c b → IsWithin b a → IsWithin c a
trans-IsWithin v w = record {
  refs = v.refs ∙ w.refs;
  routes = v.routes ∙ w.routes;
  associations = λ ip k h. w.associations ip k (v.associations ip k h);
  sessions = λ key session h. w.sessions key session (v.sessions key session h);
}

remove_session-IsWithin :
    (relay : SocksUdpRelay) (key : SocksUdpSessionKey)
    → IsWithin (record relay { sessions = remove relay.sessions key }) relay
remove_session-IsWithin relay key = record {
  refs = refl;
  routes = refl;
  associations = λ ip k h. h;
  sessions = λ j session h. ground (arith, get-remove relay.sessions key j);
}

pub touch-IsWithin :
    (relay : SocksUdpRelay) (ip : Text) (now : ℕ) → IsWithin (touch relay ip now) relay
unfolding touch
touch-IsWithin relay ip now = elim (Option-cases (get relay.associations ip)) [
  | inl absent ↦ rw (absent, touch) (same-IsWithin refl refl refl refl)
  | inr (k, found) ↦ rw (found, touch) (same-IsWithin refl refl refl refl)
]

close-IsWithin :
    (relay : SocksUdpRelay) (key : SocksUdpSessionKey) → IsWithin (close relay key) relay
unfolding close
close-IsWithin relay key = elim (Option-cases (get relay.sessions key)) [
  | inl absent ↦ rw (absent, close) (same-IsWithin refl refl refl refl)
  | inr (session, found) ↦
      rw (found, close)
        (record {
          refs = refl;
          routes = refl;
          associations = λ ip k h. h;
          sessions = (remove_session-IsWithin relay key).sessions;
        })
]

pub close_all-IsWithin :
    (ks : List SocksUdpSessionKey) (relay : SocksUdpRelay) → IsWithin (close_all ks relay) relay
unfolding close_all
close_all-IsWithin [] relay = same-IsWithin refl refl refl refl
close_all-IsWithin (key ∷ ks) relay =
    trans-IsWithin (close_all-IsWithin ks (close relay key)) (close-IsWithin relay key)

pub after_send-IsWithin :
    (route : StreamRoute) (key : SocksUdpSessionKey) (len : ℕ) (sent : Bool) (relay : SocksUdpRelay)
    → IsWithin (after_send route key len sent relay) relay
unfolding after_send
after_send-IsWithin route key len true relay = same-IsWithin refl refl refl refl
after_send-IsWithin route key len false relay = remove_session-IsWithin relay key

pub on_response-IsWithin :
    (v6_text : Ipv6Text) (route : StreamRoute) (key : SocksUdpSessionKey) (addr : SocksAddr)
    (clock : ℕ) (data' : Option (List ℕ)) (delivered : Bool) (now : ℕ) (relay : SocksUdpRelay)
    → IsWithin (on_response v6_text route key addr clock data' delivered now relay).1 relay
unfolding on_response
on_response-IsWithin v6_text route key addr clock none delivered now relay =
    remove_session-IsWithin relay key
on_response-IsWithin v6_text route key addr clock (some payload) delivered now relay =
    elim (Result-cases (encode_udp_response v6_text addr payload)) [
      | inr (e, r) ↦ rw (r, on_response) (remove_session-IsWithin relay key)
      | inl (packet, r) ↦ elim (Bool-cases delivered) [
        | inl d ↦ rw (r, d, on_response, if◌then◌else◌) (same-IsWithin refl refl refl refl)
        | inr d ↦ rw (r, d, on_response, if◌then◌else◌) (remove_session-IsWithin relay key)
      ]
    ]

expire-IsWithin : (relay : SocksUdpRelay) (ip : Text) → IsWithin (expire relay ip) relay
unfolding expire close_sessions_for_ip
expire-IsWithin relay ip = elim (Option-cases (get relay.associations ip)) [
  | inl absent ↦ rw (absent, expire) (same-IsWithin refl refl refl refl)
  | inr (k, found) ↦
      let removed : SocksUdpRelay = record relay { associations = remove relay.associations ip } in
      rw (found, expire)
        (trans-IsWithin (close_all-IsWithin (keys_of_ip ip (keys relay.sessions)) removed) (record {
          refs = refl;
          routes = refl;
          associations = λ j c h. ground (arith, get-remove relay.associations ip j);
          sessions = λ key session h. h;
        }))
]

expire_all-IsWithin :
    (ips : List Text) (relay : SocksUdpRelay) → IsWithin (expire_all ips relay) relay
unfolding expire_all
expire_all-IsWithin [] relay = same-IsWithin refl refl refl refl
expire_all-IsWithin (ip ∷ ips) relay =
    trans-IsWithin (expire_all-IsWithin ips (expire relay ip)) (expire-IsWithin relay ip)

pub cleanup_udp_state-IsWithin :
    (relay : SocksUdpRelay) (now : ℕ) → IsWithin (cleanup_udp_state relay now) relay
unfolding cleanup_udp_state
cleanup_udp_state-IsWithin relay now =
    let ips = stale_associations relay now (keys relay.associations) in
    let rest = expire_all ips relay in
    trans-IsWithin (close_all-IsWithin (stale_sessions rest now (keys rest.sessions)) rest)
      (expire_all-IsWithin ips relay)
