-- ===== src/Controller/TunnelManager/Told.antt =====
-- What the end of a run tells its serving task and its sessions.
use rps.Base.{
  ◌≡◌, refl, ◌∙◌, inl, inr, ℕ, ◌<◌, ◌==◌, ==_iff, Bool, true, some, List, [], ◌∷◌, length,
  length-set, get_elem?, get_elem?-set_self, get_elem?-set_ne, get_elem?-bound, get_or, set, eqb,
  list_eq, nat_eq, arith, Bool-cases, Option-cases,
}
use rps.Base.Text.{Text}
use rps.Base.Map.{Map, get}
use rps.Controller.TunnelManager.{TunnelManager, TunnelRuntime, signal_all, stop}

-- The watch channel says to shut down.
abbrev pub IsRaised : List Bool → ℕ → Type 0
IsRaised signals c = get_elem? signals c ≡ some true

-- The run and the sessions in its table are told.
abbrev pub IsTold : TunnelManager → TunnelRuntime → List Bool → Type 0
IsTold m r signals =
    (r.shutdown < length m.signals → IsRaised signals r.shutdown)
    × ((session_id : Text) (c : ℕ)
        → get (get_or m.tables r.sessions []) session_id ≡ some c
        → c < length m.signals
        → IsRaised signals c)

set-IsRaised :
    (signals : List Bool) (k c : ℕ) → IsRaised signals c → IsRaised (set signals k true) c
set-IsRaised signals k c h = elim (Bool-cases (k == c)) [
  | inl same ↦
      let e : k ≡ c = (==_iff k c).0 same in
      rw e (get_elem?-set_self signals c true (get_elem?-bound signals c {v = true} h))
  | inr other ↦
      get_elem?-set_ne signals true (λ (e : k ≡ c). absurd (ground (arith, ==_iff k c))) ∙ h
]

signal_all-IsRaised :
    (sessions : Map Text ℕ) (signals : List Bool) (c : ℕ)
    → IsRaised signals c
    → IsRaised (signal_all sessions signals) c
unfolding signal_all
signal_all-IsRaised [] signals c h = h
signal_all-IsRaised ((id, k) ∷ sessions) signals c h =
    signal_all-IsRaised sessions (set signals k true) c (set-IsRaised signals k c h)

signal_all-raises :
    (sessions : Map Text ℕ) (signals : List Bool) (session_id : Text) (c : ℕ)
    → get sessions session_id ≡ some c
    → c < length signals
    → IsRaised (signal_all sessions signals) c
unfolding signal_all get
signal_all-raises [] signals session_id c found there = absurd (ground arith)
signal_all-raises ((id, k) ∷ sessions) signals session_id c found there =
    let l = length-set signals k true in
    elim (Bool-cases (eqb id session_id)) [
      | inl same ↦
          let e : k ≡ c = ground arith in
          signal_all-IsRaised sessions (set signals k true) c
            (rw e (get_elem?-set_self signals c true there))
      | inr other ↦
          signal_all-raises sessions (set signals k true) session_id c (ground arith)
            (omega (arith, l, there))
    ]

pub stop-IsRaised :
    (m : TunnelManager) (id : Text) (c : ℕ)
    → IsRaised m.signals c
    → IsRaised (stop m id).1.signals c
unfolding stop
stop-IsRaised m id c h = elim (Option-cases (get m.running id)) [
  | inl absent ↦ rw (absent, stop) h
  | inr (r, found) ↦
      rw (found, stop)
        (signal_all-IsRaised (get_or m.tables r.sessions []) (set m.signals r.shutdown true) c
          (set-IsRaised m.signals r.shutdown c h))
]

pub stop-IsTold :
    (m : TunnelManager) (id : Text) (r : TunnelRuntime)
    → get m.running id ≡ some r
    → IsTold m r (stop m id).1.signals
unfolding stop
stop-IsTold m id r found =
    let table = get_or m.tables r.sessions [] in
    rw (found, stop)
      (
        λ there.
            signal_all-IsRaised table (set m.signals r.shutdown true) r.shutdown
              (get_elem?-set_self m.signals r.shutdown true there),
        λ session_id c listed there.
            signal_all-raises table (set m.signals r.shutdown true) session_id c listed
              (omega (arith, length-set m.signals r.shutdown true, there)),
      )

length-signal_all :
    (sessions : Map Text ℕ) (signals : List Bool)
    → length (signal_all sessions signals) ≡ length signals
unfolding signal_all
length-signal_all [] signals = refl
length-signal_all ((id, k) ∷ sessions) signals =
    length-signal_all sessions (set signals k true) ∙ length-set signals k true

-- The end of another run leaves the tables and adds no signals.
pub stop-same :
    (m : TunnelManager) (id : Text) (r : TunnelRuntime) (signals : List Bool)
    → IsTold (stop m id).1 r signals
    → IsTold m r signals
unfolding stop
stop-same m id r signals h = elim (Option-cases (get m.running id)) [
  | inl absent ↦ rw (absent, stop) at h
  | inr (s, found) ↦
      let told = rw (found, stop) at h in
      let l = length-signal_all (get_or m.tables s.sessions []) (set m.signals s.shutdown true) in
      let k = length-set m.signals s.shutdown true in
      (
        λ there. told.0 (omega (arith, l, k, there)),
        λ session_id c listed there. told.1 session_id c listed (omega (arith, l, k, there)),
      )
]
