-- ===== src/Controller/Pipe/Mirror.antt =====
-- The two directions behave alike.
use rps.Base.{
  ◌≡◌, refl, ◌∙◌, sym, ap, inl, inr, ℕ, false, Option, none, some, List, [], ◌∷◌, ◌++◌, arith,
  if◌then◌else◌, Bool-cases,
}
use rps.Controller.Pipe.{
  Task, reading, writing, finished, failed, aborted, is_running, is_failed, Pipe, PipeEvent,
  user_turn, agent_turn, wakes, shutdown, copy, note, up, down, abort, abort_after, on_event, run,
}

abbrev pub swap_entry : ℕ × ℕ → ℕ × ℕ
swap_entry (rx_bytes, tx_bytes) = (tx_bytes, rx_bytes)

abbrev pub swap_all : List (ℕ × ℕ) → List (ℕ × ℕ)
swap_all [] = []
swap_all (entry ∷ recorded) = swap_entry entry ∷ swap_all recorded

-- The same connection seen from the other side.
abbrev pub mirror : Pipe → Pipe
mirror p = record {
  agent = p.user;
  user = p.agent;
  uplink = p.downlink;
  downlink = p.uplink;
  selecting = p.selecting;
  stopped = p.stopped;
  recorded = swap_all p.recorded;
}

abbrev pub mirror_event : PipeEvent → PipeEvent
mirror_event (user_turn turn) = agent_turn turn
mirror_event (agent_turn turn) = user_turn turn
mirror_event wakes = wakes
mirror_event shutdown = shutdown

abbrev pub mirror_events : List PipeEvent → List PipeEvent
mirror_events [] = []
mirror_events (event ∷ events) = mirror_event event ∷ mirror_events events

swap_all-append :
    (recorded : List (ℕ × ℕ)) (entry : ℕ × ℕ)
    → swap_all (recorded ++ entry ∷ []) ≡ swap_all recorded ++ swap_entry entry ∷ []
swap_all-append [] entry = refl
swap_all-append (e ∷ recorded) entry = ap (λ es. swap_entry e ∷ es) (swap_all-append recorded entry)

swap_all-up :
    (recorded : List (ℕ × ℕ)) (n : Option ℕ)
    → note (swap_all recorded) (down n) ≡ swap_all (note recorded (up n))
swap_all-up recorded none = refl
swap_all-up recorded (some n) = sym (swap_all-append recorded (0, n))

swap_all-down :
    (recorded : List (ℕ × ℕ)) (n : Option ℕ)
    → note (swap_all recorded) (up n) ≡ swap_all (note recorded (down n))
swap_all-down recorded none = refl
swap_all-down recorded (some n) = sym (swap_all-append recorded (n, 0))

pub abort-done : (task : Task) → is_running task ≡ false → abort task ≡ task
abort-done reading h = absurd (ground arith)
abort-done (writing data' rest) h = absurd (ground arith)
abort-done finished h = refl
abort-done failed h = refl
abort-done aborted h = refl

pub abort_after-done :
    (first other : Task) → is_running other ≡ false → abort_after first other ≡ other
abort_after-done first other h = elim (Bool-cases (is_failed first)) [
  | inl e ↦ rw (e, if◌then◌else◌) (abort-done other h)
  | inr e ↦ rw (e, if◌then◌else◌) refl
]

on_event-mirror :
    (p : Pipe) (event : PipeEvent)
    → on_event (mirror p) (mirror_event event) ≡ mirror (on_event p event)
unfolding on_event
on_event-mirror p (user_turn turn) = rw (swap_all-up p.recorded (copy p.agent p.uplink turn).2) refl
on_event-mirror p (agent_turn turn) =
    rw (swap_all-down p.recorded (copy p.user p.downlink turn).2) refl
on_event-mirror p wakes = elim (Bool-cases p.selecting) [
  | inr deaf ↦ rw (deaf, if◌then◌else◌) refl
  | inl s ↦ elim (Bool-cases (is_running p.uplink)) [
    | inl on ↦ elim (Bool-cases (is_running p.downlink)) [
      | inl both ↦ rw (s, on, both, if◌then◌else◌) refl
      | inr off ↦ rw (s, on, off, if◌then◌else◌) refl
    ]
    | inr off ↦ elim (Bool-cases (is_running p.downlink)) [
      | inl on ↦ rw (s, off, on, if◌then◌else◌) refl
      | inr none_on ↦
          rw
            (
              s,
              off,
              none_on,
              if◌then◌else◌,
              abort_after-done p.downlink p.uplink off,
              abort_after-done p.uplink p.downlink none_on,
            )
            refl
    ]
  ]
]
on_event-mirror p shutdown = elim (Bool-cases p.selecting) [
  | inr deaf ↦ rw (deaf, if◌then◌else◌) refl
  | inl s ↦ rw (s, if◌then◌else◌) refl
]

pub run-mirror :
    (p : Pipe) (events : List PipeEvent)
    → run (mirror p) (mirror_events events) ≡ mirror (run p events)
unfolding run
run-mirror p [] = refl
run-mirror p (event ∷ events) =
    ap (λ q. run q (mirror_events events)) (on_event-mirror p event)
    ∙ run-mirror (on_event p event) events
