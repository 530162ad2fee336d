-- ===== src/Controller/TunnelManager/Active.antt =====
-- The count of active connections.
use rps.Base.{
  ℕ, ◌+◌, ◌-◌, ◌%◌, ◌^◌, ◌<◌, ◌≡◌, refl, inl, inr, Bool, none, some, List, [], ◌∷◌, ◌++◌, length,
  get_or, length-set, length-append, ok, nat_eq, list_eq, arith, Option-cases, Bool-cases, eqb,
  list_beq_iff, sym, ap, ◌∙◌,
}
use rps.Base.Int.{ℤ}
use rps.Base.Text.{Text}
use rps.Base.Counters.{
  count_up, count_down, live, live_bounded, IsTally, empty-IsTally, count_up-IsTally,
  count_down-IsTally, append-IsTally,
}
use rps.Base.Map.{Map, get, insert, get-insert, get-remove}
use rps.Core.Config.{TunnelConfig}
use rps.Controller.Policy.{PolicyEnforcer}
use rps.Controller.TunnelManager.{
  TunnelManager, TunnelRuntime, TunnelConnectionGuard, TunnelSessionGuard, new, start, stop,
  register_udp_session, register_session, drop_connection_guard, drop_session_guard, active_count,
  Reach, fresh, starts, stops, connects, opens, drops, ends,
}

-- The counters are those of the live guards, every run has one that exists, and no two the same.
record IsCounted (m : TunnelManager) (guards : List ℕ) : Type 0 where
  tally : IsTally m.counters guards
  runs :
      (id : Text) (r : TunnelRuntime)
      → get m.running id ≡ some r
      → r.active_connections < length m.counters
  unshared :
      (i j : Text) (r t : TunnelRuntime)
      → get m.running i ≡ some r
      → get m.running j ≡ some t
      → r.active_connections ≡ t.active_connections
      → i ≡ j

up-IsCounted :
    {m m' : TunnelManager} {guards : List ℕ} (c : ℕ)
    → m'.counters ≡ count_up m.counters c
    → c < length m.counters
    → m'.running ≡ m.running
    → IsCounted m guards
    → IsCounted m' (c ∷ guards)
up-IsCounted {m} {m'} {guards = guards} c e h f v =
    let running : (id : Text) (r : TunnelRuntime)
        → get m'.running id ≡ some r
        → get m.running id ≡ some r =
      λ id r k. ap (λ (x : Map Text TunnelRuntime). get x id) (sym f) ∙ k in
    let l = length-set m.counters c ((get_or m.counters c 0 + 1) % 2 ^ 64) in
    record {
      tally = rw e (count_up-IsTally c h v.tally);
      runs = λ id r k. ground (arith, l, v.runs id r);
      unshared = λ i j r t k n. v.unshared i j r t (running i r k) (running j t n);
    }

down-IsCounted :
    {m m' : TunnelManager} (front back : List ℕ) (c : ℕ)
    → m'.counters ≡ count_down m.counters c
    → m'.running ≡ m.running
    → IsCounted m (front ++ c ∷ back)
    → IsCounted m' (front ++ back)
down-IsCounted {m} {m'} front back c e f v =
    let running : (id : Text) (r : TunnelRuntime)
        → get m'.running id ≡ some r
        → get m.running id ≡ some r =
      λ id r k. ap (λ (x : Map Text TunnelRuntime). get x id) (sym f) ∙ k in
    let l = length-set m.counters c ((get_or m.counters c 0 + (2 ^ 64 - 1)) % 2 ^ 64) in
    record {
      tally = rw e (count_down-IsTally front back c v.tally);
      runs = λ id r k. ground (arith, l, v.runs id r);
      unshared = λ i j r t k n. v.unshared i j r t (running i r k) (running j t n);
    }

same-IsCounted :
    {m m' : TunnelManager} {guards : List ℕ}
    → m'.counters ≡ m.counters
    → ((id : Text) (r : TunnelRuntime) → get m'.running id ≡ some r → get m.running id ≡ some r)
    → IsCounted m guards
    → IsCounted m' guards
same-IsCounted e f v = record {
  tally = rw e v.tally;
  runs = λ id r k. ground (arith, v.runs id r (f id r k));
  unshared = λ i j r t k n. v.unshared i j r t (f i r k) (f j t n);
}

start-IsCounted :
    {m m' : TunnelManager} {guards : List ℕ} (policy : PolicyEnforcer) (now : ℤ)
    (tunnel : TunnelConfig) (binds : Bool)
    → (start m policy now tunnel binds).0 ≡ ok m'
    → IsCounted m guards
    → IsCounted m' guards
unfolding start
start-IsCounted {m} {m'} policy now tunnel binds e v =
    let runtime : TunnelRuntime = record {
      shutdown = length m.signals;
      listen = tunnel.listen;
      sessions = length m.tables;
      active_connections = length m.counters;
    } in
    let l = length-append m.counters (0 ∷ []) in
    let counters : m'.counters ≡ m.counters ++ 0 ∷ [] = ground arith in
    let running : m'.running ≡ insert m.running tunnel.id runtime = ground arith in
    record {
      tally = rw counters (append-IsTally v.tally);
      runs = λ id r k. ground (arith, l, get-insert m.running tunnel.id id runtime, v.runs id r);
      unshared = λ i j r t k n.
          let at_i = get-insert m.running tunnel.id i runtime in
          let at_j = get-insert m.running tunnel.id j runtime in
          elim (Bool-cases (eqb tunnel.id i)) [
            | inl a ↦ elim (Bool-cases (eqb tunnel.id j)) [
              | inl b ↦ λ same. ground (arith, list_beq_iff tunnel.id i, list_beq_iff tunnel.id j)
              | inr b ↦ λ same. absurd (ground (arith, v.runs j t))
            ]
            | inr a ↦ elim (Bool-cases (eqb tunnel.id j)) [
              | inl b ↦ λ same. absurd (ground (arith, v.runs i r))
              | inr b ↦ v.unshared i j r t (ground arith) (ground arith)
            ]
          ];
    }

stop-IsCounted :
    {m : TunnelManager} {guards : List ℕ} (id : Text)
    → IsCounted m guards
    → IsCounted (stop m id).1 guards
unfolding stop
stop-IsCounted {m} id v = elim (Option-cases (get m.running id)) [
  | inl idle ↦ rw (idle, stop) v
  | inr (r, found) ↦
      rw (found, stop) (same-IsCounted refl (λ j s k. ground (arith, get-remove m.running id j)) v)
]

udp-IsCounted :
    {m m' : TunnelManager} {guards : List ℕ} (id : Text) (guard : TunnelConnectionGuard)
    → register_udp_session m id ≡ some (guard, m')
    → IsCounted m guards
    → IsCounted m' (guard.active_connections ∷ guards)
unfolding register_udp_session
udp-IsCounted {m} {m'} id guard e v = elim (Option-cases (get m.running id)) [
  | inl idle ↦ absurd (ground arith)
  | inr (r, found) ↦
      up-IsCounted guard.active_connections (ground arith) (ground (arith, v.runs id r found))
        (ground arith) v
]

session-IsCounted :
    {m m' : TunnelManager} {guards : List ℕ} (id session_id : Text) (guard : TunnelSessionGuard)
    → register_session m id session_id ≡ some (guard, m')
    → IsCounted m guards
    → IsCounted m' (guard.connection_guard.active_connections ∷ guards)
unfolding register_session
session-IsCounted {m} {m'} id session_id guard e v = elim (Option-cases (get m.running id)) [
  | inl idle ↦ absurd (ground arith)
  | inr (r, found) ↦
      up-IsCounted guard.connection_guard.active_connections (ground arith)
        (ground (arith, v.runs id r found)) (ground arith) v
]

Reach-IsCounted : {m : TunnelManager} {guards : List ℕ} → Reach m guards → IsCounted m guards
unfolding drop_connection_guard drop_session_guard
Reach-IsCounted fresh =
    unfold new get in
    record {
      tally = empty-IsTally;
      runs = λ id r k. absurd (ground arith);
      unshared = λ i j r t k. absurd (ground arith);
    }
Reach-IsCounted (starts policy now tunnel binds reached e) =
    start-IsCounted policy now tunnel binds e (Reach-IsCounted reached)
Reach-IsCounted (stops id reached) = stop-IsCounted id (Reach-IsCounted reached)
Reach-IsCounted (connects id guard reached e) = udp-IsCounted id guard e (Reach-IsCounted reached)
Reach-IsCounted (opens id session_id guard reached e) =
    session-IsCounted id session_id guard e (Reach-IsCounted reached)
Reach-IsCounted (drops front back guard reached) =
    down-IsCounted front back guard.active_connections refl refl (Reach-IsCounted reached)
Reach-IsCounted (ends front back guard reached) =
    down-IsCounted front back guard.connection_guard.active_connections refl refl
      (Reach-IsCounted reached)

get_or-append_here : (xs : List ℕ) → get_or (xs ++ 0 ∷ []) (length xs) 0 ≡ 0
get_or-append_here [] = refl
get_or-append_here (x ∷ xs) = get_or-append_here xs

start-active_count :
    (m m' : TunnelManager) (policy : PolicyEnforcer) (now : ℤ) (tunnel : TunnelConfig)
    (binds : Bool)
    → (start m policy now tunnel binds).0 ≡ ok m'
    → active_count m' tunnel.id ≡ 0
unfolding start active_count
start-active_count m m' policy now tunnel binds e =
    let runtime : TunnelRuntime = record {
      shutdown = length m.signals;
      listen = tunnel.listen;
      sessions = length m.tables;
      active_connections = length m.counters;
    } in
    let counters : m'.counters ≡ m.counters ++ 0 ∷ [] = ground arith in
    let running : m'.running ≡ insert m.running tunnel.id runtime = ground arith in
    let found : get (insert m.running tunnel.id runtime) tunnel.id ≡ some runtime =
      ground (
        arith,
        get-insert m.running tunnel.id tunnel.id runtime,
        list_beq_iff tunnel.id tunnel.id,
      ) in
    rw (running, found, counters, active_count) (get_or-append_here m.counters)

-- However tunnels were started and stopped and connections came and went, the count of active
-- connections of a tunnel that runs is the number of the live guards that hold its counter, which no
-- other tunnel that runs has, and of a tunnel that does not run it is 0. A run that starts begins with
-- the count 0, whatever guards an earlier run of it left. Fewer than 2 ^ 64 guards are assumed to live.
pub active_count_lem :
    (m : TunnelManager) (guards : List ℕ) (id : Text)
    → Reach m guards
    → length guards < 2 ^ 64
    → (get m.running id ≡ none → active_count m id ≡ 0)
      × ((r : TunnelRuntime)
          → get m.running id ≡ some r
          → (active_count m id ≡ live r.active_connections guards)
            × ((other : Text) (t : TunnelRuntime)
                → get m.running other ≡ some t
                → r.active_connections ≡ t.active_connections
                → id ≡ other))
      × ((m' : TunnelManager) (policy : PolicyEnforcer) (now : ℤ) (tunnel : TunnelConfig)
            (binds : Bool)
          → (start m policy now tunnel binds).0 ≡ ok m'
          → active_count m' tunnel.id ≡ 0)
unfolding active_count
active_count_lem m guards id reached few =
    let v = Reach-IsCounted reached in
    (
      λ idle. rw (idle, active_count) refl,
      λ r found. (
        rw (found, active_count)
            (omega (
              arith,
              v.tally.counts r.active_connections,
              live_bounded r.active_connections guards,
            )),
        λ other t running. v.unshared id other r t found running,
      ),
      λ m' policy now tunnel binds e. start-active_count m m' policy now tunnel binds e,
    )
