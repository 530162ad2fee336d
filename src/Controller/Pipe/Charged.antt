-- ===== src/Controller/Pipe/Charged.antt =====
-- What is recorded of the bytes that go through.
use rps.Base.{
  ◌≡◌, refl, subst, sym, ap, inl, inr, ℕ, ◌+◌, ◌≤◌, Option, none, some, List, [], ◌∷◌, ◌++◌, take,
  drop, take-append-drop, length, length-append, arith, if◌then◌else◌, Bool-cases, List-cases,
}
use rps.Controller.Pipe.{
  Task, reading, writing, finished, failed, aborted, is_running, is_failed, Sink, Pipe, writes,
  Turn, chunk, takes, ends, breaks, refuses, PipeEvent, user_turn, agent_turn, wakes, shutdown,
  copy, wrote, note, up, down, abort, abort_after, on_event, run, begun, start,
}
use rps.Controller.Pipe.Mirror.{mirror, mirror_events, run-mirror}

-- The bytes to the agent in the calls of the recorder.
pub total_tx : List (ℕ × ℕ) → ℕ
total_tx [] = 0
total_tx ((rx_bytes, tx_bytes) ∷ recorded) = tx_bytes + total_tx recorded

total_tx-note :
    (recorded : List (ℕ × ℕ)) (rx_bytes tx_bytes : ℕ)
    → total_tx (recorded ++ (rx_bytes, tx_bytes) ∷ []) ≡ total_tx recorded + tx_bytes
unfolding total_tx
total_tx-note [] rx_bytes tx_bytes = omega arith
total_tx-note ((r, t) ∷ recorded) rx_bytes tx_bytes =
    omega (arith, total_tx-note recorded rx_bytes tx_bytes)

-- What the recorder was called for, `total`, against what the sink was given: the same, but for a
-- chunk that is being written, which is recorded at its end; a task that failed or was aborted may have
-- given a part of a chunk that is not recorded.
abbrev pub IsExact : Task → ℕ → ℕ → Type 0
IsExact reading total given = total ≡ given
IsExact finished total given = total ≡ given
IsExact (writing data' rest) total given =
    (total + length data' ≡ given + length rest) × (length rest ≤ length data')
IsExact failed total given = total ≤ given
IsExact aborted total given = total ≤ given

abbrev pub IsCharged : Pipe → Type 0
IsCharged p = IsExact p.uplink (total_tx p.recorded) (length p.agent.bytes)

abbrev noted : ℕ → Option ℕ → ℕ
noted total none = total
noted total (some n) = total + n

total_tx-up :
    (recorded : List (ℕ × ℕ)) (n : Option ℕ)
    → total_tx (note recorded (up n)) ≡ noted (total_tx recorded) n
total_tx-up recorded none = refl
total_tx-up recorded (some n) = total_tx-note recorded 0 n

total_tx-down :
    (recorded : List (ℕ × ℕ)) (n : Option ℕ) → total_tx (note recorded (down n)) ≡ total_tx recorded
total_tx-down recorded none = refl
total_tx-down recorded (some n) = omega (arith, total_tx-note recorded n 0)

wrote-IsExact :
    (sink : Sink) (data' rest : List ℕ) (n total : ℕ)
    → total + length data' ≡ length sink.bytes + length rest
    → length rest ≤ length data'
    → let w = wrote sink data' rest n in IsExact w.1 (noted total w.2) (length w.0.bytes)
unfolding wrote
wrote-IsExact sink data' rest n total h small =
    let given = length-append sink.bytes (take n rest) in
    let parts = length-append (take n rest) (drop n rest) in
    let whole = ap (λ (r : List ℕ). length r) (take-append-drop n rest) in
    elim (List-cases (drop n rest)) [
      | inl done ↦
          let none_left = ap (λ (r : List ℕ). length r) done in
          rw (done, wrote) (omega (arith, h, given, parts, whole, none_left))
      | inr (b, more, e) ↦
          let some_left = ap (λ (r : List ℕ). length r) e in
          rw (e, wrote)
            (
              omega (arith, h, given, parts, whole, some_left),
              omega (arith, small, parts, whole, some_left),
            )
    ]

copy-IsExact :
    (sink : Sink) (task : Task) (turn : Turn) (total : ℕ)
    → IsExact task total (length sink.bytes)
    → let c = copy sink task turn in IsExact c.1 (noted total c.2) (length c.0.bytes)
unfolding copy
copy-IsExact sink reading (chunk data') total h = (omega (arith, h), omega arith)
copy-IsExact sink reading ends total h = h
copy-IsExact sink reading breaks total h = omega (arith, h)
copy-IsExact sink reading (takes n) total h = h
copy-IsExact sink reading refuses total h = h
copy-IsExact sink (writing data' rest) (takes n) total h =
    wrote-IsExact sink data' rest n total h.0 h.1
copy-IsExact sink (writing data' rest) refuses total h = omega (arith, h.0, h.1)
copy-IsExact sink (writing data' rest) (chunk c) total h = h
copy-IsExact sink (writing data' rest) ends total h = h
copy-IsExact sink (writing data' rest) breaks total h = h
copy-IsExact sink finished turn total h = h
copy-IsExact sink failed turn total h = h
copy-IsExact sink aborted turn total h = h

abort-IsExact :
    (task : Task) (total given : ℕ) → IsExact task total given → IsExact (abort task) total given
abort-IsExact reading total given h = omega (arith, h)
abort-IsExact (writing data' rest) total given h = omega (arith, h.0, h.1)
abort-IsExact finished total given h = h
abort-IsExact failed total given h = h
abort-IsExact aborted total given h = h

abort_after-IsExact :
    (first task : Task) (total given : ℕ)
    → IsExact task total given
    → IsExact (abort_after first task) total given
abort_after-IsExact first task total given h = elim (Bool-cases (is_failed first)) [
  | inl e ↦ rw (e, if◌then◌else◌) (abort-IsExact task total given h)
  | inr e ↦ rw (e, if◌then◌else◌) h
]

step-IsCharged : (p : Pipe) (event : PipeEvent) → IsCharged p → IsCharged (on_event p event)
unfolding on_event
step-IsCharged p (user_turn turn) v =
    let c = copy p.agent p.uplink turn in
    subst (λ (t : ℕ). IsExact c.1 t (length c.0.bytes)) (sym (total_tx-up p.recorded c.2))
      (copy-IsExact p.agent p.uplink turn (total_tx p.recorded) v)
step-IsCharged p (agent_turn turn) v =
    rw (total_tx-down p.recorded (copy p.user p.downlink turn).2) v
step-IsCharged p wakes v = elim (Bool-cases p.selecting) [
  | inr deaf ↦ rw (deaf, on_event, if◌then◌else◌) v
  | inl s ↦ elim (Bool-cases (is_running p.uplink)) [
    | inr off ↦ rw (s, off, on_event, if◌then◌else◌) v
    | inl on ↦ elim (Bool-cases (is_running p.downlink)) [
      | inl both ↦ rw (s, on, both, on_event, if◌then◌else◌) v
      | inr off ↦
          rw (s, on, off, on_event, if◌then◌else◌)
            (abort_after-IsExact p.downlink p.uplink (total_tx p.recorded) (length p.agent.bytes) v)
    ]
  ]
]
step-IsCharged p shutdown v = elim (Bool-cases p.selecting) [
  | inr deaf ↦ rw (deaf, on_event, if◌then◌else◌) v
  | inl s ↦
      rw (s, on_event, if◌then◌else◌)
        (abort-IsExact p.uplink (total_tx p.recorded) (length p.agent.bytes) v)
]

run-IsCharged : (p : Pipe) (events : List PipeEvent) → IsCharged p → IsCharged (run p events)
unfolding run
run-IsCharged p [] v = v
run-IsCharged p (event ∷ events) v =
    run-IsCharged (on_event p event) events (step-IsCharged p event v)

some_inj {ℓ} : {A : Type ℓ} {a b : A} → some a ≡ some b → a ≡ b
some_inj h = cc

both-IsCharged :
    (before : Pipe) (events : List PipeEvent)
    → IsCharged before
    → IsCharged (mirror before)
    → IsCharged (run before events) × IsCharged (mirror (run before events))
both-IsCharged before events v w = (
  run-IsCharged before events v,
  subst IsCharged (run-mirror before events)
      (run-IsCharged (mirror before) (mirror_events events) w),
)

-- Whatever happens in whatever order, the bytes that are recorded for each direction are exactly those
-- that its side was given while its task reads and once it has ended by itself; while a chunk is
-- written, those before this chunk; and no more than those that were given if its task failed or was
-- aborted.
pub recorded_is_relayed :
    (initial : Option (List ℕ)) (before : Pipe) (events : List PipeEvent)
    → (start initial writes).0 ≡ some before
    → IsCharged (run before events) × IsCharged (mirror (run before events))
unfolding start
recorded_is_relayed none before events h =
    subst (λ q. IsCharged (run q events) × IsCharged (mirror (run q events))) (some_inj h)
      (both-IsCharged (begun [] []) events (unfold total_tx in omega arith)
        (unfold total_tx in omega arith))
recorded_is_relayed (some initial) before events h =
    subst (λ q. IsCharged (run q events) × IsCharged (mirror (run q events))) (some_inj h)
      (both-IsCharged (begun initial ((0, length initial) ∷ [])) events
        (unfold total_tx in omega arith) (unfold total_tx in omega arith))
