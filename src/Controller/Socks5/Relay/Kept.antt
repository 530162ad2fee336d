-- ===== src/Controller/Socks5/Relay/Kept.antt =====
-- What the states of the SOCKS5 relay have in common.
use rps.Base.{
  ◌≡◌, refl, inl, inr, ℕ, ◌+◌, ◌-◌, ◌<◌, Bool, some, List, [], ◌∷◌, ◌++◌, length, set, length-set,
  length-append, eqb, nat_eq, list_eq, arith, if◌then◌else◌, Option-cases, Bool-cases, Result-cases,
  Result, ◌%◌, ◌^◌, get_or,
}
use rps.Base.Text.{Text}
use rps.Base.Map.{Map, get, keys, get-insert, get-remove}
use rps.Base.Counters.{
  count_down, IsTally, empty-IsTally, count_up-IsTally, count_down-IsTally, append-IsTally,
}
use rps.Controller.Streams.{StreamRoute, OpenError}
use rps.Controller.Socks5.{Ipv6Text, target, parse_udp_packet}
use rps.Controller.Socks5.Handshake.{SocksAuthContext}
use rps.Controller.Socks5.Associations.{
  ClientAddr, SocksUdpSessionKey, session_key_eq, MuxStreamWriter, SocksUdpSession, SocksUdpRelay,
  new, udp_route, route_at, association, associate, keys_of_ip, close_sessions_for_ip, remove_same,
  leave,
}
use rps.Controller.Socks5.Relay.{session_for, on_packet}
use rps.Controller.Socks5.Relay.Within.{
  IsWithin, same-IsWithin, trans-IsWithin, touch-IsWithin, close_all-IsWithin, after_send-IsWithin,
  on_response-IsWithin, cleanup_udp_state-IsWithin,
}
use rps.Controller.Socks5.Relay.Reach.{
  Reach, fresh, associates, leaves, touches, receives, responds, cleans,
}

-- References are counted, the table has associations that exist, and a session is a stream of the
-- agent that its key names.
pub record IsKept (relay : SocksUdpRelay) (holders : List ℕ) : Type 0 where
  pub tally : IsTally relay.refs holders
  pub sized : length relay.routes ≡ length relay.refs
  pub listed : (ip : Text) (k : ℕ) → get relay.associations ip ≡ some k → k < length relay.refs
  pub owned :
      (key : SocksUdpSessionKey) (session : SocksUdpSession)
      → get relay.sessions key ≡ some session
      → session.writer.client_id ≡ key.client_id

within-IsKept :
    {after before : SocksUdpRelay} {holders : List ℕ}
    → IsWithin after before
    → IsKept before holders
    → IsKept after holders
within-IsKept w v = record {
  tally = rw w.refs v.tally;
  sized = rw (w.refs, w.routes) v.sized;
  listed = λ ip k h. rw w.refs (v.listed ip k (w.associations ip k h));
  owned = λ key session h. v.owned key session (w.sessions key session h);
}

association-IsKept :
    {holders : List ℕ} (relay : SocksUdpRelay) (ip : Text) (auth : SocksAuthContext) (now : ℕ)
    → IsKept relay holders
    → IsKept (association relay ip auth now).1 holders
      × ((association relay ip auth now).0 < length (association relay ip auth now).1.refs)
unfolding association
association-IsKept relay ip auth now v = elim (Option-cases (get relay.associations ip)) [
  | inr (k, found) ↦ rw (found, association) (v, v.listed ip k found)
  | inl absent ↦
      let l = length-append relay.refs (0 ∷ []) in
      rw (absent, association)
        (
          record {
            tally = append-IsTally v.tally;
            sized = omega (arith, l, length-append relay.routes (udp_route auth ∷ []), v.sized);
            listed = λ j k h. elim (Bool-cases (eqb ip j)) [
              | inl same ↦ ground (arith, l, get-insert relay.associations ip j (length relay.refs))
              | inr other ↦
                  ground
                    (arith, l, v.listed j k, get-insert relay.associations ip j (length relay.refs))
            ];
            owned = v.owned;
          },
          omega (arith, l),
        )
]

associate-IsKept :
    {holders : List ℕ} (relay : SocksUdpRelay) (ip : Text) (auth : SocksAuthContext) (now : ℕ)
    → IsKept relay holders
    → IsKept (associate relay ip auth now).1 ((associate relay ip auth now).0 ∷ holders)
unfolding associate
associate-IsKept relay ip auth now v =
    let (k, found) = association relay ip auth now in
    let (u, bound) = association-IsKept relay ip auth now v in
    let l = length-set found.refs k ((get_or found.refs k 0 + 1) % 2 ^ 64) in
    record {
      tally = count_up-IsTally k bound u.tally;
      sized = omega (arith, l, u.sized);
      listed = λ j c h. omega (arith, l, u.listed j c h);
      owned = u.owned;
    }

get-remove_same :
    (associations : Map Text ℕ) (ip : Text) (k : ℕ) (j : Text) {c : ℕ}
    → get (remove_same associations ip k) j ≡ some c
    → get associations j ≡ some c
unfolding remove_same
get-remove_same associations ip k j {c} h = elim (Option-cases (get associations ip)) [
  | inl absent ↦ ground arith
  | inr (current, found) ↦ ground (arith, get-remove associations ip j)
]

-- `leave` lowers one count, and what else it does is within that.
leave-IsWithin :
    (relay : SocksUdpRelay) (ip : Text) (k : ℕ)
    → IsWithin (leave relay ip k) (record relay { refs = count_down relay.refs k })
unfolding leave close_sessions_for_ip
leave-IsWithin relay ip k = elim (Bool-cases (eqb (get_or relay.refs k 0) 1)) [
  | inr more ↦ rw (more, leave, if◌then◌else◌) (same-IsWithin refl refl refl refl)
  | inl last ↦
      let lowered : SocksUdpRelay = record relay {
        refs = count_down relay.refs k;
        associations = remove_same relay.associations ip k;
      } in
      rw (last, leave, if◌then◌else◌)
        (trans-IsWithin (close_all-IsWithin (keys_of_ip ip (keys relay.sessions)) lowered) (record {
          refs = refl;
          routes = refl;
          associations = λ j c h. get-remove_same relay.associations ip k j h;
          sessions = λ key session h. h;
        }))
]

leave-IsKept :
    {relay : SocksUdpRelay} (front back : List ℕ) (ip : Text) (k : ℕ)
    → IsKept relay (front ++ k ∷ back)
    → IsKept (leave relay ip k) (front ++ back)
leave-IsKept {relay} front back ip k v =
    let l = length-set relay.refs k ((get_or relay.refs k 0 + (2 ^ 64 - 1)) % 2 ^ 64) in
    within-IsKept (leave-IsWithin relay ip k) (record {
      tally = count_down-IsTally front back k v.tally;
      sized = omega (arith, l, v.sized);
      listed = λ j c h. omega (arith, l, v.listed j c h);
      owned = v.owned;
    })

session_for-IsKept :
    {holders : List ℕ} (relay : SocksUdpRelay) (route : StreamRoute) (key : SocksUdpSessionKey)
    (now : ℕ) (opens : StreamRoute → Result OpenError ℕ)
    → route.client_id ≡ key.client_id
    → IsKept relay holders
    → IsKept (session_for relay route key now opens).1 holders
      × ((writer : MuxStreamWriter)
          → (session_for relay route key now opens).0 ≡ some writer
          → writer.client_id ≡ key.client_id)
unfolding session_for
session_for-IsKept relay route key now opens named v =
    elim (Option-cases (get relay.sessions key)) [
      | inr (session, found) ↦
          rw (found, session_for)
            (
              record { tally = v.tally; sized = v.sized; listed = v.listed; owned = v.owned },
              λ writer h. ground (arith, v.owned key session),
            )
      | inl absent ↦ elim (Result-cases (opens route)) [
        | inr (e, o) ↦ rw (absent, o, session_for) (v, λ writer h. absurd (ground arith))
        | inl (stream, o) ↦
            let writer : MuxStreamWriter = record {
              client_id = route.client_id;
              stream = stream;
            } in
            let opened : SocksUdpSession = record {
              writer = writer;
              last_seen = length relay.clocks;
            } in
            rw (absent, o, session_for)
              (
                record {
                  tally = v.tally;
                  sized = v.sized;
                  listed = v.listed;
                  owned = λ j session h. elim (Bool-cases (eqb key j)) [
                    | inl same ↦ ground (
                      arith,
                      session_key_eq.beq_iff key j,
                      get-insert relay.sessions key j opened,
                    )
                    | inr other ↦
                        v.owned j session (ground (arith, get-insert relay.sessions key j opened))
                  ];
                },
                λ w h. ground arith,
              )
      ]
    ]

pub on_packet-IsKept :
    {holders : List ℕ} (v6_text : Ipv6Text) (relay : SocksUdpRelay) (client_addr : ClientAddr)
    (packet : List ℕ) (now : ℕ) (opens : StreamRoute → Result OpenError ℕ) (sent : Bool)
    → IsKept relay holders
    → IsKept (on_packet v6_text relay client_addr packet now opens sent).1 holders
      × ((writer : MuxStreamWriter) (payload : List ℕ)
          → (on_packet v6_text relay client_addr packet now opens sent).0 ≡ some (writer, payload)
          → (k : ℕ) × (get relay.associations client_addr.ip ≡ some k)
            × (writer.client_id ≡ (route_at relay k).client_id))
unfolding on_packet
on_packet-IsKept v6_text relay client_addr packet now opens sent v =
    elim (Option-cases (get relay.associations client_addr.ip)) [
      | inl absent ↦ rw (absent, on_packet) (v, λ writer payload h. absurd (ground arith))
      | inr (k, found) ↦
          let touched : SocksUdpRelay = record relay { seen = set relay.seen k now } in
          let u : IsKept touched _ = record {
            tally = v.tally;
            sized = v.sized;
            listed = v.listed;
            owned = v.owned;
          } in
          elim (Result-cases (parse_udp_packet v6_text packet)) [
            | inr (e, p) ↦ rw (found, p, on_packet) (u, λ writer payload h. absurd (ground arith))
            | inl ((addr, payload), p) ↦
                let key : SocksUdpSessionKey = record {
                  client_id = (route_at relay k).client_id;
                  client_addr = client_addr;
                  target = target addr;
                } in
                let (w, own) = session_for-IsKept touched (route_at relay k) key now opens refl u in
                elim (Option-cases (session_for touched (route_at relay k) key now opens).0) [
                  | inl none_open ↦
                      rw (found, p, none_open, on_packet)
                        (w, λ writer payload h. absurd (ground arith))
                  | inr (used, e) ↦
                      rw (found, p, e, on_packet)
                        (
                          within-IsKept
                              (after_send-IsWithin (route_at relay k) key (length payload) sent
                                (session_for touched (route_at relay k) key now opens).1)
                              w,
                          λ writer sent_payload h. (k, refl, ground (arith, own used e)),
                        )
                ]
          ]
    ]

pub Reach-IsKept :
    {v6_text : Ipv6Text} {relay : SocksUdpRelay} {holders : List ℕ}
    → Reach v6_text relay holders
    → IsKept relay holders
unfolding new
Reach-IsKept (fresh usage) =
    unfold get in
    record {
      tally = empty-IsTally;
      sized = refl;
      listed = λ ip k h. absurd (ground arith);
      owned = λ key session h. absurd (ground arith);
    }
Reach-IsKept (associates {relay} ip auth now reach) =
    associate-IsKept relay ip auth now (Reach-IsKept reach)
Reach-IsKept (leaves {relay} front back ip k reach) =
    leave-IsKept {relay = relay} front back ip k (Reach-IsKept reach)
Reach-IsKept (touches {relay} ip now reach) =
    within-IsKept (touch-IsWithin relay ip now) (Reach-IsKept reach)
Reach-IsKept {v6_text} (receives {relay} client_addr packet now opens sent reach) =
    (on_packet-IsKept v6_text relay client_addr packet now opens sent (Reach-IsKept reach)).0
Reach-IsKept {v6_text} (responds {relay} route key addr clock data' delivered now reach) =
    within-IsKept (on_response-IsWithin v6_text route key addr clock data' delivered now relay)
      (Reach-IsKept reach)
Reach-IsKept (cleans {relay} now reach) =
    within-IsKept (cleanup_udp_state-IsWithin relay now) (Reach-IsKept reach)
