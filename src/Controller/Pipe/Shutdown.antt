-- ===== src/Controller/Pipe/Shutdown.antt =====
-- What a shutdown does to a connection.
use rps.Base.{
  ◌≡◌, refl, ◌∙◌, ap, sym, inl, inr, true, false, ◌&&◌, ℕ, Option, none, some, List, [], ◌∷◌, arith,
  if◌then◌else◌, Bool-cases,
}
use rps.Controller.Pipe.{
  Task, reading, writing, finished, failed, aborted, is_running, is_failed, Sink, Pipe, Turn,
  PipeEvent, user_turn, agent_turn, wakes, shutdown, copy, abort, on_event, run, outcome,
}
use rps.Controller.Pipe.Mirror.{mirror, mirror_events, run-mirror, abort-done}

abort-running : (task : Task) → is_running task ≡ true → abort task ≡ aborted
abort-running reading h = refl
abort-running (writing data' rest) h = refl
abort-running finished h = absurd (ground arith)
abort-running failed h = absurd (ground arith)
abort-running aborted h = absurd (ground arith)

copy-frozen :
    (sink : Sink) (task : Task) (turn : Turn)
    → is_running task ≡ false
    → copy sink task turn ≡ (sink, task, none)
unfolding copy
copy-frozen sink reading turn h = absurd (ground arith)
copy-frozen sink (writing data' rest) turn h = absurd (ground arith)
copy-frozen sink finished turn h = refl
copy-frozen sink failed turn h = refl
copy-frozen sink aborted turn h = refl

step-frozen :
    (p : Pipe) (event : PipeEvent)
    → is_running p.uplink ≡ false
    → ((on_event p event).agent ≡ p.agent) × ((on_event p event).uplink ≡ p.uplink)
unfolding on_event
step-frozen p (user_turn turn) off =
    let e = copy-frozen p.agent p.uplink turn off in
    (ap (λ (c : Sink × Task × Option ℕ). c.0) e, ap (λ (c : Sink × Task × Option ℕ). c.1) e)
step-frozen p (agent_turn turn) off = (refl, refl)
step-frozen p wakes off = elim (Bool-cases p.selecting) [
  | inl s ↦ rw (s, off, if◌then◌else◌) (refl, refl)
  | inr deaf ↦ rw (deaf, if◌then◌else◌) (refl, refl)
]
step-frozen p shutdown off = elim (Bool-cases p.selecting) [
  | inl s ↦ rw (s, if◌then◌else◌) (refl, abort-done p.uplink off)
  | inr deaf ↦ rw (deaf, if◌then◌else◌) (refl, refl)
]

run-frozen :
    (p : Pipe) (events : List PipeEvent)
    → is_running p.uplink ≡ false
    → ((run p events).agent ≡ p.agent) × ((run p events).uplink ≡ p.uplink)
unfolding run
run-frozen p [] off = (refl, refl)
run-frozen p (event ∷ events) off =
    let (a, u) = step-frozen p event off in
    let (b, v) = run-frozen (on_event p event) events (ap is_running u ∙ off) in (b ∙ a, v ∙ u)

is_running-abort : (task : Task) → is_running (abort task) ≡ false
is_running-abort reading = refl
is_running-abort (writing data' rest) = refl
is_running-abort finished = refl
is_running-abort failed = refl
is_running-abort aborted = refl

step-deaf :
    (p : Pipe) (event : PipeEvent)
    → p.selecting ≡ false
    → ((on_event p event).selecting ≡ false) × ((on_event p event).stopped ≡ p.stopped)
unfolding on_event
step-deaf p (user_turn turn) deaf = (deaf, refl)
step-deaf p (agent_turn turn) deaf = (deaf, refl)
step-deaf p wakes deaf = rw (deaf, if◌then◌else◌) (refl, refl)
step-deaf p shutdown deaf = rw (deaf, if◌then◌else◌) (refl, refl)

run-deaf :
    (p : Pipe) (events : List PipeEvent)
    → p.selecting ≡ false
    → ((run p events).selecting ≡ false) × ((run p events).stopped ≡ p.stopped)
unfolding run
run-deaf p [] deaf = (deaf, refl)
run-deaf p (event ∷ events) deaf =
    let (d, s) = step-deaf p event deaf in
    let (e, t) = run-deaf (on_event p event) events d in (e, t ∙ s)

shutdown-deaf : (p : Pipe) → p.selecting ≡ false → on_event p shutdown ≡ p
unfolding on_event
shutdown-deaf p deaf = rw (deaf, if◌then◌else◌) refl

wakes-deaf :
    (p : Pipe)
    → is_running p.uplink && is_running p.downlink ≡ false
    → (on_event p wakes).selecting ≡ false
unfolding on_event
wakes-deaf p one = elim (Bool-cases p.selecting) [
  | inr deaf ↦ rw (deaf, if◌then◌else◌) refl
  | inl s ↦ elim (Bool-cases (is_running p.uplink)) [
    | inr off ↦ rw (s, off, if◌then◌else◌) refl
    | inl on ↦ elim (Bool-cases (is_running p.downlink)) [
      | inl both ↦ absurd (ground arith)
      | inr off ↦ rw (s, on, off, if◌then◌else◌) refl
    ]
  ]
]

-- The state after a shutdown that is heard.
record IsStopped (p q : Pipe) : Type 0 where
  agent : q.agent ≡ p.agent
  user : q.user ≡ p.user
  uplink : is_running q.uplink ≡ false
  downlink : is_running q.downlink ≡ false
  selecting : q.selecting ≡ false
  stopped : q.stopped ≡ true

shutdown-IsStopped : (p : Pipe) → p.selecting ≡ true → IsStopped p (on_event p shutdown)
unfolding on_event
shutdown-IsStopped p s =
    rw (s, on_event, if◌then◌else◌)
      (record {
        agent = refl;
        user = refl;
        uplink = is_running-abort p.uplink;
        downlink = is_running-abort p.downlink;
        selecting = refl;
        stopped = refl;
      })

-- What the waiting task does when one direction has ended and the other has not.
half_ended :
    (p : Pipe)
    → p.selecting ≡ true
    → is_running p.uplink ≡ true
    → is_running p.downlink ≡ false
    → (on_event p wakes).uplink ≡ (if is_failed p.downlink then aborted else p.uplink)
unfolding on_event
half_ended p s on off =
    rw (s, on, off, if◌then◌else◌)
      (elim (Bool-cases (is_failed p.downlink)) [
        | inl e ↦ rw (e, if◌then◌else◌) (abort-running p.uplink on)
        | inr e ↦ rw (e, if◌then◌else◌) refl
      ])

-- A shutdown that comes while the waiting task still waits for the first direction to end ends the
-- connection without an error: nothing goes through any more, whatever happens. Once the waiting task
-- has woken up after one direction ended, a shutdown changes nothing; the other direction has gone on,
-- unless the one that ended had failed: then it was aborted.
pub shutdown_lem :
    (p : Pipe)
    → (p.selecting ≡ true
        → (events : List PipeEvent)
        → let after = run (on_event p shutdown) events in
          (after.agent ≡ p.agent) × (after.user ≡ p.user) × (outcome after ≡ some true))
      × (is_running p.uplink && is_running p.downlink ≡ false
          → on_event (on_event p wakes) shutdown ≡ on_event p wakes)
      × (p.selecting ≡ true
          → (is_running p.uplink ≡ true
              → is_running p.downlink ≡ false
              → (on_event p wakes).uplink ≡ (if is_failed p.downlink then aborted else p.uplink))
            × (is_running p.downlink ≡ true
                → is_running p.uplink ≡ false
                → (on_event p wakes).downlink
                  ≡ (if is_failed p.uplink then aborted else p.downlink)))
unfolding outcome on_event run
shutdown_lem p = (
  λ s events.
      let q = on_event p shutdown in
      let v = shutdown-IsStopped p s in
      let (a, up) = run-frozen q events v.uplink in
      let (u, down) = run-frozen (mirror q) (mirror_events events) v.downlink in
      let e = run-mirror q events in
      let (d, t) = run-deaf q events v.selecting in
      let idle_up : is_running (run q events).uplink ≡ false = rw up v.uplink in
      let idle_down : is_running (run q events).downlink ≡ false =
        ap (λ (r : Pipe). is_running r.uplink) (sym e) ∙ (ap is_running down ∙ v.downlink) in
      (
        a ∙ v.agent,
        ap Pipe.agent (sym e) ∙ (u ∙ v.user),
        rw (d, idle_up, idle_down, t, v.stopped, outcome, if◌then◌else◌) refl,
      ),
  λ one. shutdown-deaf (on_event p wakes) (wakes-deaf p one),
  λ s. (
    half_ended p s,
    λ on off. ap Pipe.uplink (sym (run-mirror p (wakes ∷ []))) ∙ half_ended (mirror p) s on off,
  ),
)
