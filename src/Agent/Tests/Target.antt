-- ===== src/Agent/Tests/Target.antt =====
-- The theorem on the opening of a stream, at a request for a target that accepts.
use rps.Base.{
  ◌≡◌, ◌≢◌, refl, inl, inr, ℕ, Bool, true, false, ◌&&◌, Option, none, some, List, [], ◌∷◌, ◌++◌, ok,
  err, eqb, nat_eq, list_eq, list_beq_iff, ==_iff, arith, if◌then◌else◌, Bool-cases,
}
use rps.Base.Text.{Text, text}
use rps.Base.Map.{Map, get}
use rps.Core.Protocol.{Serde, TargetProtocol, OpenRequest, OpenResponse, response_ok}
use rps.Controller.Streams.{StreamRoute, ClientConnection, OpenError, refused}
use rps.Controller.Streams.Multiplexed.{request_of, says, open_stream}
use rps.Agent.{connects, refuses, answer, handle_stream, handle_payload}
use rps.Agent.Target.{IsBound, Sends, response, protocol_name, open_stream-handle_payload}

-- A notation for the requests of one tunnel, and one for answers.
abbrev to_target : Text → OpenRequest
to_target target =
    request_of (record { tunnel_id = text "t"; client_id = text "a" }) TargetProtocol.tcp target
      (text "u")

abbrev is_tcp : TargetProtocol → Bool
is_tcp TargetProtocol.tcp = true
is_tcp TargetProtocol.udp = false

abbrev is_ours : OpenRequest → Bool
is_ours r =
    eqb r.tunnel_id (text "t")
    && (is_tcp r.protocol && (eqb r.remote_addr (text "u") && eqb r.timeout_ms 5000))

is_tcp_iff : (p : TargetProtocol) → is_tcp p ≡ true → p ≡ TargetProtocol.tcp
is_tcp_iff TargetProtocol.tcp h = refl
is_tcp_iff TargetProtocol.udp h = absurd (ground arith)

abbrev write_request : OpenRequest → Option (List ℕ)
write_request r = if is_ours r then some r.target else none

request_round :
    (r : OpenRequest) (bytes : List ℕ)
    → write_request r ≡ some bytes
    → some (to_target bytes) ≡ some r
unfolding request_of
request_round r bytes h = ground (
  arith,
  is_tcp_iff r.protocol,
  list_beq_iff r.tunnel_id (text "t"),
  list_beq_iff r.remote_addr (text "u"),
  ==_iff r.timeout_ms 5000,
)

abbrev requests : Serde OpenRequest
requests = record {
  to_vec = write_request;
  from_slice = λ bytes. some (to_target bytes);
  from_slice-to_vec = request_round;
}

abbrev is_plain : Option Text → Bool
is_plain none = true
is_plain (some error) = false

is_plain-none : (error : Option Text) → is_plain error ≡ true → error ≡ none
is_plain-none none h = refl
is_plain-none (some error) h = absurd (ground arith)

abbrev write_response : OpenResponse → Option (List ℕ)
write_response r = if is_plain r.error then some ((if r.accepted then 1 else 0) ∷ []) else none

abbrev read_response : List ℕ → Option OpenResponse
read_response [] = none
read_response (b ∷ rest) = some (record { accepted = eqb b 1; error = none })

response_round :
    (r : OpenResponse) (bytes : List ℕ)
    → write_response r ≡ some bytes
    → read_response bytes ≡ some r
response_round r bytes h = elim (Bool-cases r.accepted) [
  | inl yes_it_is ↦ ground (arith, is_plain-none r.error)
  | inr not_so ↦ ground (arith, is_plain-none r.error)
]

abbrev responses : Serde OpenResponse
responses = record {
  to_vec = write_response;
  from_slice = read_response;
  from_slice-to_vec = response_round;
}

abbrev route : StreamRoute
route = record { tunnel_id = text "t"; client_id = text "a" }

abbrev clients : Map Text ClientConnection
clients = (text "a", record { data_session_id = text "d"; pool = [] }) ∷ []

is_online : get clients route.client_id ≡ some (record { data_session_id = text "d"; pool = [] })
is_online = unfold get in refl

written : requests.to_vec (to_target (text "h:80")) ≡ some (text "h:80")
written = unfold request_of in refl

sent : Sends responses (handle_payload requests (text "h:80") none connects).0 (says (1 ∷ []))
sent =
    unfold handle_payload handle_stream answer request_of response_ok in
    response (record { accepted = true; error = none }) (1 ∷ []) refl

open_stream-handle_payload_example :
    let request = to_target (text "h:80") in
    let result = open_stream requests responses clients route request (some 7) (says (1 ∷ [])) in
    (IsBound request.protocol none
      → (connects ≡ connects → result ≡ ok 7)
        × ((why : Text)
            → connects ≡ refuses why
            → result
              ≡ err (
                  refused (
                    protocol_name request.protocol
                    ++ text " connect "
                    ++ request.target
                    ++ text " failed: "
                    ++ why)))
        × (connects ≢ connects → (e : OpenError) × (result ≡ err e)))
    × ((why : Text)
        → request.protocol ≡ TargetProtocol.udp
        → none ≡ some why
        → result ≡ err (refused (text "udp bind failed: " ++ why)))
open_stream-handle_payload_example =
    open_stream-handle_payload requests responses clients route (to_target (text "h:80")) none
      connects 7 is_online written sent
