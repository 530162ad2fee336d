-- ===== src/Controller/Pipe/InOrder.antt =====
-- What is copied, and in which order.
use rps.Base.{
  ◌≡◌, refl, subst, ◌∙◌, sym, ap, inl, inr, ℕ, true, List, [], ◌∷◌, ◌++◌, take, drop,
  take-append-drop, if◌then◌else◌, Bool-cases, List-cases,
}
use mathlib.Core.List.{append_assoc, append-nil}
use rps.Controller.Pipe.{
  Task, reading, writing, finished, failed, aborted, Sink, Pipe, Turn, chunk, takes, ends, breaks,
  refuses, PipeEvent, user_turn, agent_turn, wakes, shutdown, copy, wrote, is_running, is_failed,
  abort, abort_after, on_event, run, begun,
}
use rps.Controller.Pipe.Mirror.{mirror, mirror_events, run-mirror}

-- What the copying task reads in a step.
abbrev pub read_in : Task → Turn → List ℕ
read_in reading (chunk data') = data'
read_in _ _ = []

-- What the copying task to the agent reads from the user in a sequence of events.
pub user_bytes : Pipe → List PipeEvent → List ℕ
user_bytes p [] = []
user_bytes p (user_turn turn ∷ events) =
    read_in p.uplink turn ++ user_bytes (on_event p (user_turn turn)) events
user_bytes p (agent_turn turn ∷ events) = user_bytes (on_event p (agent_turn turn)) events
user_bytes p (wakes ∷ events) = user_bytes (on_event p wakes) events
user_bytes p (shutdown ∷ events) = user_bytes (on_event p shutdown) events

-- What of the bytes that were read is not given to the sink: nothing while the task reads or once it
-- has ended by itself, when the sink is shut down too; the rest of the chunk while it is written.
abbrev pub IsLeft : Task → Sink → List ℕ → Type 0
IsLeft reading sink left = left ≡ []
IsLeft (writing data' rest) sink left = left ≡ rest
IsLeft finished sink left = (left ≡ []) × (sink.shut ≡ true)
IsLeft failed sink left = Unit
IsLeft aborted sink left = Unit

-- The agent was given what was read from the user, in order, less what is left.
pub record IsCopied (bytes : List ℕ) (p : Pipe) : Type 0 where
  pub left : List ℕ
  pub order : p.agent.bytes ++ left ≡ bytes
  pub settled : IsLeft p.uplink p.agent left

record IsStep (bytes more : List ℕ) (sink : Sink) (task : Task) : Type 0 where
  left : List ℕ
  order : sink.bytes ++ left ≡ bytes ++ more
  settled : IsLeft task sink left

wrote-IsStep :
    (bytes : List ℕ) (sink : Sink) (data' rest : List ℕ) (n : ℕ)
    → sink.bytes ++ rest ≡ bytes
    → IsStep bytes [] (wrote sink data' rest n).0 (wrote sink data' rest n).1
unfolding wrote
wrote-IsStep bytes sink data' rest n h =
    let whole : (sink.bytes ++ take n rest) ++ drop n rest ≡ bytes ++ [] =
      append_assoc sink.bytes (take n rest) (drop n rest)
      ∙ (ap (λ (r : List ℕ). sink.bytes ++ r) (take-append-drop n rest)
          ∙ (h ∙ sym (append-nil bytes))) in
    elim (List-cases (drop n rest)) [
      | inl done ↦
          rw (done, wrote)
            (record {
              left = [];
              order = ap (λ (r : List ℕ). (sink.bytes ++ take n rest) ++ r) (sym done) ∙ whole;
              settled = refl;
            })
      | inr (b, more, e) ↦
          rw (e, wrote)
            (record {
              left = b ∷ more;
              order = ap (λ (r : List ℕ). (sink.bytes ++ take n rest) ++ r) (sym e) ∙ whole;
              settled = refl;
            })
    ]

still-IsStep :
    (bytes left : List ℕ) (sink : Sink) (task : Task)
    → sink.bytes ++ left ≡ bytes
    → IsLeft task sink left
    → IsStep bytes [] sink task
still-IsStep bytes left sink task h settled = record {
  left = left;
  order = h ∙ sym (append-nil bytes);
  settled = settled;
}

copy-IsStep :
    (bytes left : List ℕ) (sink : Sink) (task : Task) (turn : Turn)
    → sink.bytes ++ left ≡ bytes
    → IsLeft task sink left
    → IsStep bytes (read_in task turn) (copy sink task turn).0 (copy sink task turn).1
unfolding copy
copy-IsStep bytes left sink reading (chunk data') h e = record {
  left = data';
  order =
      ap (λ (b : List ℕ). b ++ data')
        (sym (append-nil sink.bytes) ∙ (ap (λ (l : List ℕ). sink.bytes ++ l) (sym e) ∙ h));
  settled = refl;
}
copy-IsStep bytes left sink reading ends h e =
    still-IsStep bytes left (record sink { shut = true }) finished h (e, refl)
copy-IsStep bytes left sink reading breaks h e = still-IsStep bytes left sink failed h tt
copy-IsStep bytes left sink reading (takes n) h e = still-IsStep bytes left sink reading h e
copy-IsStep bytes left sink reading refuses h e = still-IsStep bytes left sink reading h e
copy-IsStep bytes left sink (writing data' rest) (takes n) h e =
    wrote-IsStep bytes sink data' rest n (ap (λ (l : List ℕ). sink.bytes ++ l) (sym e) ∙ h)
copy-IsStep bytes left sink (writing data' rest) refuses h e =
    still-IsStep bytes left sink failed h tt
copy-IsStep bytes left sink (writing data' rest) (chunk c) h e =
    still-IsStep bytes left sink (writing data' rest) h e
copy-IsStep bytes left sink (writing data' rest) ends h e =
    still-IsStep bytes left sink (writing data' rest) h e
copy-IsStep bytes left sink (writing data' rest) breaks h e =
    still-IsStep bytes left sink (writing data' rest) h e
copy-IsStep bytes left sink finished turn h e = still-IsStep bytes left sink finished h e
copy-IsStep bytes left sink failed turn h e = still-IsStep bytes left sink failed h tt
copy-IsStep bytes left sink aborted turn h e = still-IsStep bytes left sink aborted h tt

abort-IsLeft :
    (task : Task) (sink : Sink) (left : List ℕ)
    → IsLeft task sink left
    → IsLeft (abort task) sink left
abort-IsLeft reading sink left h = tt
abort-IsLeft (writing data' rest) sink left h = tt
abort-IsLeft finished sink left h = h
abort-IsLeft failed sink left h = tt
abort-IsLeft aborted sink left h = tt

abort_after-IsLeft :
    (first task : Task) (sink : Sink) (left : List ℕ)
    → IsLeft task sink left
    → IsLeft (abort_after first task) sink left
abort_after-IsLeft first task sink left h = elim (Bool-cases (is_failed first)) [
  | inl e ↦ rw (e, if◌then◌else◌) (abort-IsLeft task sink left h)
  | inr e ↦ rw (e, if◌then◌else◌) h
]

wakes-IsCopied : (bytes : List ℕ) (p : Pipe) → IsCopied bytes p → IsCopied bytes (on_event p wakes)
unfolding on_event
wakes-IsCopied bytes p c = elim (Bool-cases p.selecting) [
  | inr deaf ↦
      rw (deaf, on_event, if◌then◌else◌)
        (record { left = c.left; order = c.order; settled = c.settled })
  | inl s ↦ elim (Bool-cases (is_running p.uplink)) [
    | inr off ↦
        rw (s, off, on_event, if◌then◌else◌)
          (record { left = c.left; order = c.order; settled = c.settled })
    | inl on ↦ elim (Bool-cases (is_running p.downlink)) [
      | inl both ↦
          rw (s, on, both, on_event, if◌then◌else◌)
            (record { left = c.left; order = c.order; settled = c.settled })
      | inr off ↦
          rw (s, on, off, on_event, if◌then◌else◌)
            (record {
              left = c.left;
              order = c.order;
              settled = abort_after-IsLeft p.downlink p.uplink p.agent c.left c.settled;
            })
    ]
  ]
]

shutdown-IsCopied :
    (bytes : List ℕ) (p : Pipe) → IsCopied bytes p → IsCopied bytes (on_event p shutdown)
unfolding on_event
shutdown-IsCopied bytes p c = elim (Bool-cases p.selecting) [
  | inr deaf ↦
      rw (deaf, on_event, if◌then◌else◌)
        (record { left = c.left; order = c.order; settled = c.settled })
  | inl s ↦
      rw (s, on_event, if◌then◌else◌)
        (record {
          left = c.left;
          order = c.order;
          settled = abort-IsLeft p.uplink p.agent c.left c.settled;
        })
]

user_turn-IsCopied :
    (bytes : List ℕ) (p : Pipe) (turn : Turn)
    → IsCopied bytes p
    → IsCopied (bytes ++ read_in p.uplink turn) (on_event p (user_turn turn))
unfolding on_event
user_turn-IsCopied bytes p turn c =
    let step = copy-IsStep bytes c.left p.agent p.uplink turn c.order c.settled in
    record { left = step.left; order = step.order; settled = step.settled }

agent_turn-IsCopied :
    (bytes : List ℕ) (p : Pipe) (turn : Turn)
    → IsCopied bytes p
    → IsCopied bytes (on_event p (agent_turn turn))
unfolding on_event
agent_turn-IsCopied bytes p turn c = record { left = c.left; order = c.order; settled = c.settled }

run-IsCopied :
    (bytes : List ℕ) (p : Pipe) (events : List PipeEvent)
    → IsCopied bytes p
    → IsCopied (bytes ++ user_bytes p events) (run p events)
unfolding run user_bytes
run-IsCopied bytes p [] c = rw (append-nil bytes) c
run-IsCopied bytes p (user_turn turn ∷ events) c =
    subst (λ (b : List ℕ). IsCopied b (run (on_event p (user_turn turn)) events))
      (append_assoc bytes (read_in p.uplink turn) (user_bytes (on_event p (user_turn turn)) events))
      (run-IsCopied (bytes ++ read_in p.uplink turn) (on_event p (user_turn turn)) events
        (user_turn-IsCopied bytes p turn c))
run-IsCopied bytes p (agent_turn turn ∷ events) c =
    run-IsCopied bytes (on_event p (agent_turn turn)) events (agent_turn-IsCopied bytes p turn c)
run-IsCopied bytes p (wakes ∷ events) c =
    run-IsCopied bytes (on_event p wakes) events (wakes-IsCopied bytes p c)
run-IsCopied bytes p (shutdown ∷ events) c =
    run-IsCopied bytes (on_event p shutdown) events (shutdown-IsCopied bytes p c)

-- Whatever happens in whatever order, what each side was given is what was read from the other, after
-- the initial data and in order, less a rest at the end. There is no rest while the copying task reads
-- or once it has ended by itself, and in the latter case the side was shut down as well; while a chunk
-- is written the rest is what of the chunk is not written yet.
pub relayed_in_order :
    (initial : List ℕ) (recorded : List (ℕ × ℕ)) (events : List PipeEvent)
    → let before = begun initial recorded in
      let after = run before events in
      IsCopied (initial ++ user_bytes before events) after
      × IsCopied (user_bytes (mirror before) (mirror_events events)) (mirror after)
relayed_in_order initial recorded events =
    let before = begun initial recorded in
    (
      run-IsCopied initial before events
          (record { left = []; order = append-nil initial; settled = refl }),
      subst (IsCopied (user_bytes (mirror before) (mirror_events events)))
          (run-mirror before events)
          (run-IsCopied [] (mirror before) (mirror_events events)
            (record { left = []; order = refl; settled = refl })),
    )
