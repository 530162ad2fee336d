-- ===== src/Controller/Tests/Pipe.antt =====
-- The theorems on the copying between a user and an agent, at a concrete connection.
use rps.Base.{◌≡◌, refl, true, false, some, List, [], ◌∷◌, ◌++◌, ◌&&◌, if◌then◌else◌}
use rps.Base.Text.{text}
use rps.Controller.Pipe.{
  Pipe, PipeEvent, chunk, takes, ends, refuses, aborted, is_failed, user_turn, agent_turn, wakes,
  shutdown, is_running, start, begun, on_event, run, outcome,
}
use rps.Controller.Pipe.Mirror.{mirror, mirror_events}
use rps.Controller.Pipe.InOrder.{user_bytes, IsCopied, relayed_in_order}
use rps.Controller.Pipe.Charged.{IsCharged, recorded_is_relayed}
use rps.Controller.Pipe.Shutdown.{shutdown_lem}

-- The user sends and ends, the agent sends twice, and the second write to the user fails.
abbrev events : List PipeEvent
events =
    user_turn (chunk (text "GET"))
    ∷ user_turn (takes 2)
    ∷ agent_turn (chunk (text "ok"))
    ∷ agent_turn (takes 2)
    ∷ user_turn (takes 1)
    ∷ user_turn ends
    ∷ agent_turn (chunk (text "more"))
    ∷ agent_turn (takes 1)
    ∷ agent_turn refuses
    ∷ wakes
    ∷ []

relayed_in_order_example :
    let before = begun (text "hello") ((0, 5) ∷ []) in
    let after = run before events in
    IsCopied (text "hello" ++ user_bytes before events) after
    × IsCopied (user_bytes (mirror before) (mirror_events events)) (mirror after)
relayed_in_order_example = relayed_in_order (text "hello") ((0, 5) ∷ []) events

abbrev opened : Pipe
opened = begun (text "hello") ((0, 5) ∷ [])

recorded_is_relayed_example : IsCharged (run opened events) × IsCharged (mirror (run opened events))
recorded_is_relayed_example =
    recorded_is_relayed (some (text "hello")) opened events (unfold start in refl)

-- The user has sent, and neither side has ended.
abbrev half : Pipe
half = on_event opened (user_turn (chunk (text "GET")))

shutdown_lem_example :
    (half.selecting ≡ true
      → (events : List PipeEvent)
      → let after = run (on_event half shutdown) events in
        (after.agent ≡ half.agent) × (after.user ≡ half.user) × (outcome after ≡ some true))
    × (is_running half.uplink && is_running half.downlink ≡ false
        → on_event (on_event half wakes) shutdown ≡ on_event half wakes)
    × (half.selecting ≡ true
        → (is_running half.uplink ≡ true
            → is_running half.downlink ≡ false
            → (on_event half wakes).uplink
              ≡ (if is_failed half.downlink then aborted else half.uplink))
          × (is_running half.downlink ≡ true
              → is_running half.uplink ≡ false
              → (on_event half wakes).downlink
                ≡ (if is_failed half.uplink then aborted else half.downlink)))
shutdown_lem_example = shutdown_lem half
