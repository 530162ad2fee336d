-- ===== src/Controller/TcpTunnel/Counted.antt =====
-- A connection is counted while it is served.
use rps.Base.{
  ◌≡◌, refl, inl, inr, ℕ, ◌+◌, ◌<◌, ◌^◌, Bool, some, List, [], ◌∷◌, ok, length, arith, Option-cases,
  Result-cases, nat_eq, list_eq,
}
use rps.Base.Text.{Text}
use rps.Base.Map.{Map, get}
use rps.Base.Counters.{live, live-cons_self}
use rps.Core.Config.{TunnelConfig}
use rps.Controller.TunnelManager.{
  TunnelManager, TunnelRuntime, TunnelSessionGuard, register_session, drop_session_guard,
  drop_connection_guard, active_count, Reach, opens, ends,
}
use rps.Controller.TunnelManager.Active.{active_count_lem}
use rps.Controller.Streams.{ClientConnection, route_of, open_pool_stream}
use rps.Controller.TcpTunnel.{handle_tcp, finish_tcp}

-- A registration is of the run that is there.
registered :
    (m : TunnelManager) (id session_id : Text) (run : TunnelRuntime) (guard : TunnelSessionGuard)
    {m' : TunnelManager}
    → get m.running id ≡ some run
    → register_session m id session_id ≡ some (guard, m')
    → (guard.connection_guard.active_connections ≡ run.active_connections)
      × (m'.running ≡ m.running)
unfolding register_session
registered m id session_id run guard found e = (ground arith, ground arith)

dropped-running :
    (m : TunnelManager) (guard : TunnelSessionGuard)
    → (drop_session_guard m guard).running ≡ m.running
unfolding drop_session_guard drop_connection_guard
dropped-running m guard = refl

-- A guard of a run is one connection more while it lives.
guard_counts :
    (m m' : TunnelManager) (guards : List ℕ) (id session_id : Text) (run : TunnelRuntime)
    (guard : TunnelSessionGuard)
    → Reach m guards
    → length guards + 1 < 2 ^ 64
    → get m.running id ≡ some run
    → register_session m id session_id ≡ some (guard, m')
    → (active_count m' id ≡ active_count m id + 1)
      × (active_count (drop_session_guard m' guard) id ≡ active_count m id)
guard_counts m m' guards id session_id run guard reach few found e =
    let c = guard.connection_guard.active_connections in
    let (same, running) = registered m id session_id run guard found e in
    let found' : get m'.running id ≡ some run = rw running found in
    let during = opens id session_id guard reach e in
    let after = ends [] guards guard during in
    let before = (active_count_lem m guards id reach (omega arith)).1 run found in
    let one : live run.active_connections (c ∷ guards) ≡ 1 + live run.active_connections guards =
      rw same (live-cons_self run.active_connections guards) in
    let up = (active_count_lem m' (c ∷ guards) id during (omega arith)).1 run found' in
    let down =
      (active_count_lem (drop_session_guard m' guard) guards id after (omega arith)).1 run
        (rw (dropped-running m' guard) found') in
    (omega (arith, before, one, up), omega (arith, before, down))

-- A connection with a guard was registered.
handle_tcp-registered :
    (clients : Map Text ClientConnection) (m : TunnelManager) (tunnel : TunnelConfig)
    (closed : Bool) (session_id : Text) (guard : TunnelSessionGuard)
    → (handle_tcp clients m tunnel closed session_id).0 ≡ ok (some guard)
    → register_session m tunnel.id session_id
      ≡ some (guard, (handle_tcp clients m tunnel closed session_id).2)
unfolding handle_tcp
handle_tcp-registered clients m tunnel closed session_id guard served =
    elim (Option-cases tunnel.target) [
      | inl t ↦ absurd (ground arith)
      | inr (target, t) ↦
          elim (Result-cases (open_pool_stream clients (route_of tunnel) closed).0) [
            | inr (why, o) ↦ absurd (ground arith)
            | inl (stream, o) ↦ elim (Option-cases (register_session m tunnel.id session_id)) [
              | inl idle ↦ absurd (ground arith)
              | inr ((given, after), r) ↦ ground arith
            ]
          ]
    ]

-- A connection that is served with a guard raises the count of active connections of its tunnel by
-- one, and its end brings the count back, if nothing else happens meanwhile. Fewer than 2 ^ 64 - 1
-- guards are assumed to live.
pub handle_tcp-active_count :
    (clients : Map Text ClientConnection) (m : TunnelManager) (guards : List ℕ)
    (tunnel : TunnelConfig) (closed : Bool) (session_id : Text) (run : TunnelRuntime)
    (guard : TunnelSessionGuard)
    → Reach m guards
    → length guards + 1 < 2 ^ 64
    → get m.running tunnel.id ≡ some run
    → (handle_tcp clients m tunnel closed session_id).0 ≡ ok (some guard)
    → let during = (handle_tcp clients m tunnel closed session_id).2 in
      (active_count during tunnel.id ≡ active_count m tunnel.id + 1)
      × (active_count (finish_tcp during (some guard)) tunnel.id ≡ active_count m tunnel.id)
unfolding finish_tcp
handle_tcp-active_count clients m guards tunnel closed session_id run guard reach few found served =
    guard_counts m (handle_tcp clients m tunnel closed session_id).2 guards tunnel.id session_id run
      guard reach few found (handle_tcp-registered clients m tunnel closed session_id guard served)
