-- ===== src/Controller/UdpRelay/Serving.antt =====
-- The operations on the sessions keep the count of the run.
use rps.Base.{
  ◌≡◌, refl, ◌∙◌, sym, inl, inr, ℕ, ◌+◌, ◌-◌, ◌%◌, ◌^◌, ◌<◌, Bool, true, false, Option, none, some,
  List, [], ◌∷◌, length, get_or, set, length-set, eqb, nat_eq, list_eq, Result, arith, Option-cases,
  Bool-cases, Result-cases, if◌then◌else◌,
}
use rps.Base.Text.{Text}
use rps.Base.Map.{Map, get, insert, remove, get-insert, get-remove}
use rps.Base.Map.Distinct.{
  is_distinct, is_distinct-insert, is_distinct-remove, length-insert, length-remove,
}
use rps.Core.Config.{TunnelConfig}
use rps.Controller.Streams.{OpenError}
use rps.Controller.TunnelManager.{
  TunnelManager, TunnelRuntime, register_udp_session, drop_connection_guard,
}
use rps.Base.Counters.{count_up, get_or-set_self}
use rps.Controller.UdpRelay.{
  UdpSession, UdpRelay, drop_guard, forget, close, close_all, guard_of, tunnels_of, open_session,
  after_send, on_datagram, on_response,
}

-- The run of the tunnel counts its sessions, each of which holds a guard of it.
pub record IsServing (id : Text) (sessions : Map Text UdpSession) (tunnels : TunnelManager)
    : Type 0 where
  pub run : TunnelRuntime
  pub runs : get tunnels.running id ≡ some run
  pub held : run.active_connections < length tunnels.counters
  pub distinct : is_distinct sessions ≡ true
  pub guarded :
      (addr : Text) (session : UdpSession)
      → get sessions addr ≡ some session
      → session.connection_guard ≡ some (record { active_connections = run.active_connections })
  pub counted : get_or tunnels.counters run.active_connections 0 ≡ length sessions % 2 ^ 64

removed-IsServing :
    {id : Text} {sessions : Map Text UdpSession} {tunnels : TunnelManager} (addr : Text)
    (session : UdpSession)
    → get sessions addr ≡ some session
    → IsServing id sessions tunnels
    → IsServing id (remove sessions addr) (drop_guard tunnels session.connection_guard)
unfolding drop_connection_guard
removed-IsServing {sessions = sessions} {tunnels} addr session found v =
    let c = v.run.active_connections in
    rw (v.guarded addr session found) (record {
      run = v.run;
      runs = v.runs;
      held = omega (
        arith,
        v.held,
        length-set tunnels.counters c ((get_or tunnels.counters c 0 + (2 ^ 64 - 1)) % 2 ^ 64),
      );
      distinct = is_distinct-remove sessions addr v.distinct;
      guarded = λ a s h. v.guarded a s (ground (arith, get-remove sessions addr a));
      counted =
          get_or-set_self tunnels.counters c ((get_or tunnels.counters c 0 + (2 ^ 64 - 1)) % 2 ^ 64)
            0 v.held
          ∙ omega (arith, v.counted, length-remove sessions addr {v = session} found v.distinct);
    })

registered :
    (tunnels : TunnelManager) (id : Text) (run : TunnelRuntime)
    → get tunnels.running id ≡ some run
    → register_udp_session tunnels id
      ≡ some (
        record { active_connections = run.active_connections },
        record tunnels { counters = count_up tunnels.counters run.active_connections },
      )
unfolding register_udp_session
registered tunnels id run runs = rw (runs, register_udp_session) refl

inserted-IsServing :
    {sessions : Map Text UdpSession} {tunnels : TunnelManager} (tunnel : TunnelConfig) (addr : Text)
    (stream clock : ℕ)
    → get sessions addr ≡ none
    → IsServing tunnel.id sessions tunnels
    → let registration = register_udp_session tunnels tunnel.id in
      IsServing tunnel.id
        (insert sessions addr (record {
          writer = stream;
          last_seen = clock;
          connection_guard = guard_of tunnels registration;
        }))
        (tunnels_of tunnels registration)
inserted-IsServing {sessions = sessions} {tunnels} tunnel addr stream clock free v =
    let c = v.run.active_connections in
    let e = registered tunnels tunnel.id v.run v.runs in
    let opened : UdpSession = record {
      writer = stream;
      last_seen = clock;
      connection_guard = some (record { active_connections = c });
    } in
    rw (e, guard_of, tunnels_of)
      (record {
        run = v.run;
        runs = v.runs;
        held = omega (
          arith,
          v.held,
          length-set tunnels.counters c ((get_or tunnels.counters c 0 + 1) % 2 ^ 64),
        );
        distinct = is_distinct-insert sessions addr _ v.distinct;
        guarded = λ a s h. elim (Bool-cases (eqb addr a)) [
          | inl same ↦
              let e : some s ≡ some opened =
                sym h ∙ (get-insert sessions addr a opened ∙ rw (same, if◌then◌else◌) refl) in
              cc
          | inr other ↦
              v.guarded a s
                (sym (get-insert sessions addr a opened ∙ rw (other, if◌then◌else◌) refl) ∙ h)
        ];
        counted =
            get_or-set_self tunnels.counters c ((get_or tunnels.counters c 0 + 1) % 2 ^ 64) 0 v.held
            ∙ omega (arith, v.counted, length-insert sessions addr _ free);
      })

forget-IsServing :
    {id : Text} (relay : UdpRelay) (addr : Text)
    → IsServing id relay.sessions relay.tunnels
    → IsServing id (forget relay addr).sessions (forget relay addr).tunnels
unfolding forget
forget-IsServing relay addr v = elim (Option-cases (get relay.sessions addr)) [
  | inl absent ↦ rw (absent, forget) v
  | inr (session, found) ↦ rw (found, forget) (removed-IsServing addr session found v)
]

close-IsServing :
    {id : Text} (relay : UdpRelay) (addr : Text)
    → IsServing id relay.sessions relay.tunnels
    → IsServing id (close relay addr).sessions (close relay addr).tunnels
unfolding close
close-IsServing relay addr v = elim (Option-cases (get relay.sessions addr)) [
  | inl absent ↦ rw (absent, close) v
  | inr (session, found) ↦ rw (found, close) (removed-IsServing addr session found v)
]

pub close_all-IsServing :
    {id : Text} (addrs : List Text) (relay : UdpRelay)
    → IsServing id relay.sessions relay.tunnels
    → IsServing id (close_all addrs relay).sessions (close_all addrs relay).tunnels
unfolding close_all
close_all-IsServing [] relay v = v
close_all-IsServing (addr ∷ addrs) relay v =
    close_all-IsServing addrs (close relay addr) (close-IsServing relay addr v)

after_send-IsServing :
    {id : Text} (tunnel : TunnelConfig) (addr : Text) (len : ℕ) (sent : Bool) (relay : UdpRelay)
    → IsServing id relay.sessions relay.tunnels
    → let after = after_send tunnel addr len sent relay in IsServing id after.sessions after.tunnels
unfolding after_send
after_send-IsServing tunnel addr len true relay v = v
after_send-IsServing tunnel addr len false relay v = forget-IsServing relay addr v

pub on_response-IsServing :
    {id : Text} (tunnel : TunnelConfig) (addr : Text) (clock : ℕ) (packet : Option ℕ)
    (delivered : Bool) (now : ℕ) (relay : UdpRelay)
    → IsServing id relay.sessions relay.tunnels
    → let after = on_response tunnel addr clock packet delivered now relay in
      IsServing id after.sessions after.tunnels
unfolding on_response
on_response-IsServing tunnel addr clock none delivered now relay v = forget-IsServing relay addr v
on_response-IsServing tunnel addr clock (some len) false now relay v = forget-IsServing relay addr v
on_response-IsServing tunnel addr clock (some len) true now relay v = v

pub on_datagram-IsServing :
    (tunnel : TunnelConfig) (addr : Text) (len now : ℕ) (opens : Result OpenError ℕ) (sent : Bool)
    (relay : UdpRelay)
    → IsServing tunnel.id relay.sessions relay.tunnels
    → let after = (on_datagram tunnel addr len now opens sent relay).1 in
      IsServing tunnel.id after.sessions after.tunnels
unfolding on_datagram
on_datagram-IsServing tunnel addr len now opens sent relay v =
    elim (Option-cases (get relay.sessions addr)) [
      | inr (session, found) ↦
          rw (found, on_datagram)
            (after_send-IsServing tunnel addr len sent
              (record relay { clocks = set relay.clocks session.last_seen now }) v)
      | inl absent ↦ elim (Option-cases tunnel.target) [
        | inl t ↦ rw (absent, t, on_datagram) v
        | inr (target, t) ↦ elim (Result-cases opens) [
          | inl (stream, o) ↦
              rw (absent, t, o, on_datagram)
                (after_send-IsServing tunnel addr len sent
                  (open_session tunnel addr now stream relay)
                  (unfold open_session in
                    inserted-IsServing tunnel addr stream (length relay.clocks) absent v))
          | inr (e, o) ↦ rw (absent, t, o, on_datagram) v
        ]
      ]
    ]
