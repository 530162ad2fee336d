-- ===== src/Agent/Pool.antt =====
-- crates/rps-agent/src/main.rs: `run_pool_manager`, over the connections of `run_agent`. A permit of the semaphore stands for a warm slot.
use rps.Base.{ℕ, suc, ◌+◌, ◌*◌, ◌≡◌, ◌≤◌, refl, arith, List, [], ◌∷◌, ◌++◌, length}

abbrev pub pool_size : ℕ
pool_size = 32

-- Free permits; tasks that hold one while they dial, stand idle or wait after a failed dial; and the
-- relays, which hold none.
pub record PoolManager : Type 0 where
  pub permits : ℕ
  pub dialling : ℕ
  pub idle : ℕ
  pub backing_off : ℕ
  pub relays : ℕ

unfoldable pub new : PoolManager
new = record { permits = pool_size; dialling = 0; idle = 0; backing_off = 0; relays = 0 }

-- What the manager and its tasks do.
pub data Step (m : PoolManager) : PoolManager → Type 0 where
  -- A permit is acquired, and a task dials.
  dials : {n : ℕ} → m.permits ≡ suc n → Step m (record m { permits = n; dialling = m.dialling + 1 })
  connected : {n : ℕ} → m.dialling ≡ suc n → Step m (record m { dialling = n; idle = m.idle + 1 })
  failed :
      {n : ℕ}
      → m.dialling ≡ suc n
      → Step m (record m { dialling = n; backing_off = m.backing_off + 1 })
  waited :
      {n : ℕ}
      → m.backing_off ≡ suc n
      → Step m (record m { backing_off = n; permits = m.permits + 1 })
  -- An idle connection dies before it is used.
  recycled : {n : ℕ} → m.idle ≡ suc n → Step m (record m { idle = n; permits = m.permits + 1 })
  -- The controller assigns a target: the permit is free at once.
  assigned :
      {n : ℕ}
      → m.idle ≡ suc n
      → Step m (record m { idle = n; permits = m.permits + 1; relays = m.relays + 1 })
  relay_ends : {n : ℕ} → m.relays ≡ suc n → Step m (record m { relays = n })

abbrev slots : PoolManager → ℕ
slots m = m.permits + m.dialling + m.idle + m.backing_off

Step-slots : {m m' : PoolManager} → Step m m' → slots m' ≡ slots m
Step-slots (dials h) = omega arith
Step-slots (connected h) = omega arith
Step-slots (failed h) = omega arith
Step-slots (waited h) = omega arith
Step-slots (recycled h) = omega arith
Step-slots (assigned h) = omega arith
Step-slots (relay_ends h) = refl

-- The manager of the current connection to the controller, and those of earlier ones: a manager is
-- aborted when its connection ends, but the tasks that it spawned go on.
pub record AgentPools : Type 0 where
  pub manager : PoolManager
  pub retired : List PoolManager

-- `run_agent` in the loop that reconnects. A retired manager dials no more, so none of its permits is
-- acquired.
pub data Running : AgentPools → Type 0 where
  begins : Running (record { manager = new; retired = [] })
  works :
      {p : AgentPools} {m : PoolManager}
      → Running p
      → Step p.manager m
      → Running (record p { manager = m })
  reconnects :
      {p : AgentPools}
      → Running p
      → Running (record { manager = new; retired = p.manager ∷ p.retired })
  lingers :
      {manager m m' : PoolManager} (front back : List PoolManager)
      → Running (record { manager = manager; retired = front ++ m ∷ back })
      → Step m m'
      → m.permits ≤ m'.permits
      → Running (record { manager = manager; retired = front ++ m' ∷ back })

abbrev pub warm : PoolManager → ℕ
warm m = m.idle + m.dialling + m.backing_off

abbrev pub warm_all : List PoolManager → ℕ
warm_all [] = 0
warm_all (m ∷ ms) = warm m + warm_all ms

slots_all : List PoolManager → ℕ
slots_all [] = 0
slots_all (m ∷ ms) = slots m + slots_all ms

slots_all-replaced :
    (front back : List PoolManager) (m m' : PoolManager)
    → slots m' ≡ slots m
    → slots_all (front ++ m' ∷ back) ≡ slots_all (front ++ m ∷ back)
unfolding slots_all
slots_all-replaced [] back m m' e = omega (arith, e)
slots_all-replaced (x ∷ front) back m m' e = omega (arith, slots_all-replaced front back m m' e)

length-replaced :
    (front back : List PoolManager) (m m' : PoolManager)
    → length (front ++ m' ∷ back) ≡ length (front ++ m ∷ back)
length-replaced [] back m m' = refl
length-replaced (x ∷ front) back m m' = omega (arith, length-replaced front back m m')

Running-slots :
    {p : AgentPools}
    → Running p
    → (slots p.manager ≡ pool_size) × (slots_all p.retired ≡ pool_size * length p.retired)
unfolding new slots_all
Running-slots begins = (refl, refl)
Running-slots (works running step) =
    let v = Running-slots running in (omega (arith, Step-slots step, v.0), v.1)
Running-slots (reconnects running) =
    let v = Running-slots running in (refl, omega (arith, v.0, v.1))
Running-slots (lingers {m = m} {m' = m'} front back running step no_dial) =
    let v = Running-slots running in
    (
      v.0,
      omega (
        arith,
        v.1,
        slots_all-replaced front back m m' (Step-slots step),
        length-replaced front back m m',
      ),
    )

warm_all-slots : (ms : List PoolManager) → warm_all ms ≤ slots_all ms
unfolding slots_all
warm_all-slots [] = omega arith
warm_all-slots (m ∷ ms) = omega (arith, warm_all-slots ms)

-- However connections are dialled, fail, die, are used and end, the manager of the current connection
-- never has more than 32 warm connections; and in a moment in which no slot of it is free and no task
-- of it dials or waits after a failure, it has exactly 32, whatever the number of relays. The tasks of
-- the managers of earlier connections go on, so that the agent may have 32 more for each of these.
pub warm_connections_bounded :
    (p : AgentPools)
    → Running p
    → (warm p.manager ≤ pool_size)
      × (p.manager.permits ≡ 0
          → p.manager.dialling ≡ 0
          → p.manager.backing_off ≡ 0
          → p.manager.idle ≡ pool_size)
      × (warm p.manager + warm_all p.retired ≤ pool_size * suc (length p.retired))
warm_connections_bounded p running =
    let (total, rest) = Running-slots running in
    (
      omega (arith, total),
      λ a d b. omega (arith, total),
      omega (arith, total, rest, warm_all-slots p.retired),
    )
