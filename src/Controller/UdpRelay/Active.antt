-- ===== src/Controller/UdpRelay/Active.antt =====
-- The count of active connections of a UDP tunnel.
use rps.Base.{
  ◌≡◌, refl, ◌∙◌, ℕ, ◌^◌, ◌<◌, ◌≤◌, Bool, Option, [], ◌∷◌, ◌++◌, length, get_or, length-append,
  eqb_refl, nat_eq, list_eq, Result, ok, arith, if◌then◌else◌,
}
use rps.Base.Int.{ℤ}
use rps.Base.Text.{Text}
use rps.Base.Map.{Map, get, insert, keys, get-insert}
use rps.Base.Map.Distinct.{is_distinct}
use rps.Core.Config.{TunnelConfig}
use rps.Controller.Policy.{PolicyEnforcer}
use rps.Controller.Traffic.{TrafficState}
use rps.Controller.Streams.{OpenError}
use rps.Controller.TunnelManager.{TunnelManager, TunnelRuntime, start, active_count}
use rps.Base.Counters.{get_or-append_zero, get_or-past}
use rps.Controller.UdpRelay.Serving.{
  IsServing, close_all-IsServing, on_datagram-IsServing, on_response-IsServing,
}
use rps.Controller.UdpRelay.{
  UdpSession, UdpRelay, serve, stale, cleanup, on_datagram, on_response, finish,
}

-- The states of the relay of a tunnel from its start on. What other parts do to the tunnel manager
-- leaves the run of this tunnel and its counter alone.
pub data Reach (tunnel : TunnelConfig) : UdpRelay → Type 0 where
  serves :
      (m : TunnelManager) {m' : TunnelManager} (policy : PolicyEnforcer) (now : ℤ) (binds : Bool)
      (usage : PolicyEnforcer × TrafficState)
      → (start m policy now tunnel binds).0 ≡ ok m'
      → Reach tunnel (serve m' usage)
  receives :
      {relay : UdpRelay} (addr : Text) (len now : ℕ) (opens : Result OpenError ℕ) (sent : Bool)
      → Reach tunnel relay
      → Reach tunnel (on_datagram tunnel addr len now opens sent relay).1
  responds :
      {relay : UdpRelay} (addr : Text) (clock : ℕ) (packet : Option ℕ) (delivered : Bool) (now : ℕ)
      → Reach tunnel relay
      → Reach tunnel (on_response tunnel addr clock packet delivered now relay)
  cleans : {relay : UdpRelay} (now : ℕ) → Reach tunnel relay → Reach tunnel (cleanup relay now)
  finishes : {relay : UdpRelay} → Reach tunnel relay → Reach tunnel (finish relay)
  others :
      {relay : UdpRelay} (tunnels : TunnelManager)
      → get tunnels.running tunnel.id ≡ get relay.tunnels.running tunnel.id
      → active_count tunnels tunnel.id ≡ active_count relay.tunnels tunnel.id
      → length relay.tunnels.counters ≤ length tunnels.counters
      → Reach tunnel relay
      → Reach tunnel (record relay { tunnels = tunnels })

serve-IsServing :
    (m : TunnelManager) {m' : TunnelManager} (policy : PolicyEnforcer) (now : ℤ)
    (tunnel : TunnelConfig) (binds : Bool)
    → (start m policy now tunnel binds).0 ≡ ok m'
    → IsServing tunnel.id [] m'
unfolding start
serve-IsServing m {m'} policy now tunnel binds e =
    let runtime : TunnelRuntime = record {
      shutdown = length m.signals;
      listen = tunnel.listen;
      sessions = length m.tables;
      active_connections = length m.counters;
    } in
    let counters : m'.counters ≡ m.counters ++ 0 ∷ [] = ground arith in
    let running : m'.running ≡ insert m.running tunnel.id runtime = ground arith in
    record {
      run = runtime;
      runs = rw running (
          get-insert m.running tunnel.id tunnel.id runtime
          ∙ rw (eqb_refl tunnel.id, if◌then◌else◌) refl);
      held = ground (arith, length-append m.counters (0 ∷ []));
      distinct = unfold is_distinct in refl;
      guarded = λ addr session h. unfold get in absurd (ground arith);
      counted = rw counters (
          get_or-append_zero m.counters (length m.counters)
          ∙ get_or-past m.counters (length m.counters) (omega arith));
    }

same_count-IsServing :
    {id : Text} {sessions : Map Text UdpSession} {tunnels : TunnelManager} (after : TunnelManager)
    → get after.running id ≡ get tunnels.running id
    → active_count after id ≡ active_count tunnels id
    → length tunnels.counters ≤ length after.counters
    → IsServing id sessions tunnels
    → IsServing id sessions after
unfolding active_count
same_count-IsServing {id} {tunnels = tunnels} after running count grown v =
    let r = running ∙ v.runs in
    let same : get_or after.counters v.run.active_connections 0
        ≡ get_or tunnels.counters v.run.active_connections 0 =
      ground (arith, v.runs) in
    record {
      run = v.run;
      runs = r;
      held = omega (arith, v.held);
      distinct = v.distinct;
      guarded = v.guarded;
      counted = same ∙ v.counted;
    }

Reach-IsServing :
    {tunnel : TunnelConfig} {relay : UdpRelay}
    → Reach tunnel relay
    → IsServing tunnel.id relay.sessions relay.tunnels
unfolding serve cleanup finish
Reach-IsServing {tunnel} (serves m policy now binds usage e) =
    serve-IsServing m policy now tunnel binds e
Reach-IsServing {tunnel} (receives {relay} addr len now opens sent reach) =
    on_datagram-IsServing tunnel addr len now opens sent relay (Reach-IsServing reach)
Reach-IsServing {tunnel} (responds {relay} addr clock packet delivered now reach) =
    on_response-IsServing tunnel addr clock packet delivered now relay (Reach-IsServing reach)
Reach-IsServing (cleans {relay} now reach) =
    close_all-IsServing (stale relay now (keys relay.sessions)) relay (Reach-IsServing reach)
Reach-IsServing (finishes {relay} reach) =
    close_all-IsServing (keys relay.sessions) relay (Reach-IsServing reach)
Reach-IsServing (others {relay} tunnels running count grown reach) =
    same_count-IsServing tunnels running count grown (Reach-IsServing reach)

-- As long as a started UDP tunnel serves, whatever datagrams, answers, failures and cleanups come in
-- whatever order, the tunnel manager's count of its active connections is the number of the addresses
-- that have a session. Fewer than 2 ^ 64 sessions are assumed, and that other parts leave the run of
-- the tunnel and its counter alone.
pub active_count-sessions :
    (tunnel : TunnelConfig) (relay : UdpRelay)
    → Reach tunnel relay
    → length relay.sessions < 2 ^ 64
    → active_count relay.tunnels tunnel.id ≡ length relay.sessions
unfolding active_count
active_count-sessions tunnel relay reach few =
    let v = Reach-IsServing reach in rw (v.runs, active_count) (omega (arith, v.counted))
