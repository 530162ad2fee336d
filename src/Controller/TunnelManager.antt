-- ===== src/Controller/TunnelManager.antt =====
-- crates/rps-controller/src/tunnel_manager.rs: the tunnels that run. The counter of a run, its table
-- of sessions and their shutdown signals are shared with the guards, so they stand in stores of the
-- state, and the runs and guards hold indices of them. The serving task is another component: here it
-- has ended when `stop` returns. Whether a socket can be bound is an argument.
pub mod Active
pub mod Told
use rps.Base.{
  ◌≡◌, ℕ, ◌+◌, ◌-◌, ◌%◌, ◌^◌, Bool, true, false, Option, none, some, List, [], ◌∷◌, ◌++◌,
  if◌then◌else◌, length, get_elem?, get_or, set, Result, ok, err, nat_eq, list_eq,
}
use rps.Base.Int.{ℤ}
use rps.Base.Text.{Text}
use rps.Base.Counters.{count_up, count_down}
use rps.Base.Map.{Map, get, insert, remove, contains_key}
use rps.Core.Config.{TunnelConfig}
use rps.Controller.Db.{DbTunnel}
use rps.Controller.Policy.{PolicyEnforcer, allowed, tunnel_key}

pub record TunnelRuntime : Type 0 where
  pub shutdown : ℕ
  pub listen : Text
  pub sessions : ℕ
  pub active_connections : ℕ

-- `counters` are the `active_connections` of all runs, `tables` their `sessions`, and `signals` what
-- the watch channels say.
pub record TunnelManager : Type 0 where
  pub running : Map Text TunnelRuntime
  pub counters : List ℕ
  pub tables : List (Map Text ℕ)
  pub signals : List Bool

pub data StartError : Type 0 where
  already_running disabled_by_policy bind_failed : StartError

-- `TunnelConnectionGuard`, by the counter that it holds
pub record TunnelConnectionGuard : Type 0 where
  pub active_connections : ℕ

pub record TunnelSessionGuard : Type 0 where
  pub id : Text
  pub sessions : ℕ
  pub connection_guard : TunnelConnectionGuard
  pub shutdown : ℕ

unfoldable pub new : TunnelManager
new = record { running = []; counters = []; tables = []; signals = [] }

-- `allowed` may queue an event, so the policies are part of the result.
unfoldable pub start :
    TunnelManager
    → PolicyEnforcer
    → ℤ
    → TunnelConfig
    → Bool
    → Result StartError TunnelManager × PolicyEnforcer
start m policy now tunnel binds =
    let runtime : TunnelRuntime = record {
      shutdown = length m.signals;
      listen = tunnel.listen;
      sessions = length m.tables;
      active_connections = length m.counters;
    } in
    let started : TunnelManager = record {
      running = insert m.running tunnel.id runtime;
      counters = m.counters ++ 0 ∷ [];
      tables = m.tables ++ [] ∷ [];
      signals = m.signals ++ false ∷ [];
    } in
    let asked = allowed policy now (tunnel_key tunnel.id) in
    if contains_key m.running tunnel.id
    then (err already_running, policy)
    else if asked.0
    then (if binds then ok started else err bind_failed, asked.1)
    else (err disabled_by_policy, asked.1)

-- `send(true)` on each of the sessions
unfoldable pub signal_all : Map Text ℕ → List Bool → List Bool
signal_all [] signals = signals
signal_all ((id, c) ∷ sessions) signals = signal_all sessions (set signals c true)

unfoldable pub stop : TunnelManager → Text → Bool × TunnelManager
stop m id = elim (get m.running id) [
  | none ↦ (false, m)
  | some runtime ↦ (
    true,
    record m {
      running = remove m.running id;
      signals =
          signal_all (get_or m.tables runtime.sessions []) (set m.signals runtime.shutdown true);
    },
  )
]

-- `TunnelConnectionGuard::new` counts up, its `drop` down: the counter is a `usize`.
unfoldable pub register_udp_session :
    TunnelManager → Text → Option (TunnelConnectionGuard × TunnelManager)
register_udp_session m id = elim (get m.running id) [
  | none ↦ none
  | some runtime ↦ some (
    record { active_connections = runtime.active_connections },
    record m { counters = count_up m.counters runtime.active_connections },
  )
]

-- `session_id` is drawn.
unfoldable pub register_session :
    TunnelManager → Text → Text → Option (TunnelSessionGuard × TunnelManager)
register_session m id session_id = elim (get m.running id) [
  | none ↦ none
  | some runtime ↦ some (
    record {
      id = session_id;
      sessions = runtime.sessions;
      connection_guard = record { active_connections = runtime.active_connections };
      shutdown = length m.signals;
    },
    record m {
      tables =
          set m.tables runtime.sessions
            (insert (get_or m.tables runtime.sessions []) session_id (length m.signals));
      counters = count_up m.counters runtime.active_connections;
      signals = m.signals ++ false ∷ [];
    },
  )
]

unfoldable pub drop_connection_guard : TunnelManager → TunnelConnectionGuard → TunnelManager
drop_connection_guard m guard = record m {
  counters = count_down m.counters guard.active_connections;
}

-- `drop` of the session, then that of the field.
unfoldable pub drop_session_guard : TunnelManager → TunnelSessionGuard → TunnelManager
unfolding drop_connection_guard
drop_session_guard m guard =
    drop_connection_guard
      (record m {
        tables = set m.tables guard.sessions (remove (get_or m.tables guard.sessions []) guard.id);
      })
      guard.connection_guard

unfoldable pub active_count : TunnelManager → Text → ℕ
active_count m id = elim (get m.running id) [
  | none ↦ 0
  | some runtime ↦ get_or m.counters runtime.active_connections 0
]

unfoldable pub tunnel_config_from_db : DbTunnel → TunnelConfig
tunnel_config_from_db tunnel = record {
  id = tunnel.id;
  client_id = tunnel.client_id;
  mode = tunnel.mode;
  listen = tunnel.listen;
  target = tunnel.target;
  enabled = tunnel.enabled;
}

-- The states that may come up, with the counters that the live guards hold.
pub data Reach : TunnelManager → List ℕ → Type 0 where
  fresh : Reach new []
  starts :
      {m m' : TunnelManager} {guards : List ℕ} (policy : PolicyEnforcer) (now : ℤ)
      (tunnel : TunnelConfig) (binds : Bool)
      → Reach m guards
      → (start m policy now tunnel binds).0 ≡ ok m'
      → Reach m' guards
  stops :
      {m : TunnelManager} {guards : List ℕ} (id : Text)
      → Reach m guards
      → Reach (stop m id).1 guards
  connects :
      {m m' : TunnelManager} {guards : List ℕ} (id : Text) (guard : TunnelConnectionGuard)
      → Reach m guards
      → register_udp_session m id ≡ some (guard, m')
      → Reach m' (guard.active_connections ∷ guards)
  opens :
      {m m' : TunnelManager} {guards : List ℕ} (id session_id : Text) (guard : TunnelSessionGuard)
      → Reach m guards
      → register_session m id session_id ≡ some (guard, m')
      → Reach m' (guard.connection_guard.active_connections ∷ guards)
  drops :
      {m : TunnelManager} (front back : List ℕ) (guard : TunnelConnectionGuard)
      → Reach m (front ++ guard.active_connections ∷ back)
      → Reach (drop_connection_guard m guard) (front ++ back)
  ends :
      {m : TunnelManager} (front back : List ℕ) (guard : TunnelSessionGuard)
      → Reach m (front ++ guard.connection_guard.active_connections ∷ back)
      → Reach (drop_session_guard m guard) (front ++ back)
