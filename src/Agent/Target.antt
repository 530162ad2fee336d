-- ===== src/Agent/Target.antt =====
-- The controller's opening of a stream against the agent's answer to it.
use rps.Base.{
  ◌⊎◌, inl, inr, ◌≡◌, ◌≢◌, refl, subst, ap, ◌∙◌, ℕ, Option, none, some, List, ◌++◌, Result, ok, err,
  arith, if◌then◌else◌, nat_eq, list_eq,
}
use rps.Base.Text.{Text, text}
use rps.Base.Map.{Map, get}
use rps.Core.Protocol.{Serde, TargetProtocol, OpenRequest, OpenResponse, response_ok, response_err}
use rps.Controller.Streams.{StreamRoute, ClientConnection, OpenError, refused, timed_out, reason}
use rps.Controller.Streams.Multiplexed.{Reply, nothing, says, read_reply, open_stream}
use rps.Agent.{
  Connect, connects, untuned, refuses, times_out, connect_failed, answer, handle_stream,
  handle_payload, AgentError,
}

-- What the controller receives of the agent's answer. Where there is none the agent drops its end of
-- the stream without a close, so that the controller receives nothing.
pub data Sends (serde : Serde OpenResponse) : Option OpenResponse → Reply → Type 0 where
  silence : Sends serde none nothing
  response :
      (answered : OpenResponse) (bytes : List ℕ)
      → serde.to_vec answered ≡ some bytes
      → Sends serde (some answered) (says bytes)

-- The words for a protocol.
abbrev pub protocol_name : TargetProtocol → Text
protocol_name TargetProtocol.tcp = text "tcp"
protocol_name TargetProtocol.udp = text "udp"

-- There is nothing to bind, or it could be bound.
abbrev pub IsBound : TargetProtocol → Option Text → Type 0
IsBound protocol bind = (protocol ≡ TargetProtocol.tcp) ⊎ (bind ≡ none)

handled :
    (request : OpenRequest) (bind : Option Text) (outcome : Connect)
    → IsBound request.protocol bind
    → handle_stream request bind outcome ≡ answer (protocol_name request.protocol) request outcome
unfolding handle_stream answer
handled request bind outcome (inl tcp) = rw (tcp, handle_stream) refl
handled request bind outcome (inr free) =
    elim request.protocol
      as (λ p.
        elim p [
          | TargetProtocol.tcp ↦ answer (text "tcp") request outcome
          | TargetProtocol.udp ↦ elim bind [
            | some why ↦ (some (response_err (text "udp bind failed: " ++ why)), err connect_failed)
            | none ↦ answer (text "udp") request outcome
          ]
        ]
        ≡ answer (protocol_name p) request outcome) [
          | TargetProtocol.tcp ↦ refl
          | TargetProtocol.udp ↦ rw free refl
        ]

read_reply-response :
    (serde : Serde OpenResponse) (answered : OpenResponse) {reply : Reply}
    → Sends serde (some answered) reply
    → read_reply serde reply
      ≡ (if answered.accepted then ok tt else err (refused (reason answered.error)))
unfolding read_reply
read_reply-response serde answered (response _ bytes h) =
    rw (serde.from_slice-to_vec answered bytes h, read_reply) refl

read_reply-silence :
    (serde : Serde OpenResponse) {reply : Reply}
    → Sends serde none reply
    → read_reply serde reply ≡ err timed_out
unfolding read_reply
read_reply-silence serde silence = refl

-- What the controller reads of the agent's answer to each outcome of the connect.
read_reply-answer :
    (serde : Serde OpenResponse) (name : Text) (request : OpenRequest) (outcome : Connect)
    {reply : Reply}
    → Sends serde (answer name request outcome).0 reply
    → (outcome ≡ connects → read_reply serde reply ≡ ok tt)
      × ((why : Text)
          → outcome ≡ refuses why
          → read_reply serde reply
            ≡ err (refused (name ++ text " connect " ++ request.target ++ text " failed: " ++ why)))
      × (outcome ≢ connects → (e : OpenError) × (read_reply serde reply ≡ err e))
unfolding answer response_ok response_err
read_reply-answer serde name request connects sent =
    (λ h. read_reply-response serde _ sent, λ why h. absurd (ground arith), λ h. absurd (h refl))
read_reply-answer serde name request untuned sent = (
  λ h. absurd (ground arith),
  λ why h. absurd (ground arith),
  λ h. (timed_out, read_reply-silence serde sent),
)
read_reply-answer serde name request (refuses reason_given) {reply} sent = (
  λ h. absurd (ground arith),
  λ why h.
      let same : reason_given ≡ why = cc in
      subst
        (λ (w : Text).
          read_reply serde reply
          ≡ err (refused (name ++ text " connect " ++ request.target ++ text " failed: " ++ w)))
        same (read_reply-response serde _ sent),
  λ h. (_, read_reply-response serde _ sent),
)
read_reply-answer serde name request times_out sent = (
  λ h. absurd (ground arith),
  λ why h. absurd (ground arith),
  λ h. (_, read_reply-response serde _ sent),
)

handle_payload-known :
    (serde : Serde OpenRequest) (payload : List ℕ) (request : OpenRequest) (bind : Option Text)
    (outcome : Connect)
    → serde.from_slice payload ≡ some request
    → handle_payload serde payload bind outcome ≡ handle_stream request bind outcome
unfolding handle_payload
handle_payload-known serde payload request bind outcome h = rw (h, handle_payload) refl

module _ (requests : Serde OpenRequest) (responses : Serde OpenResponse)
    (clients : Map Text ClientConnection) (route : StreamRoute) (request : OpenRequest)
    {connection : ClientConnection} {payload : List ℕ} {reply : Reply} (bind : Option Text)
    (outcome : Connect) (stream : ℕ) (online : get clients route.client_id ≡ some connection)
    (written : requests.to_vec request ≡ some payload)
    (sent : Sends responses (handle_payload requests payload bind outcome).0 reply) where
  opened :
      {r : Result OpenError (Unit {0})}
      → read_reply responses reply ≡ r
      → open_stream requests responses clients route request (some stream) reply
        ≡ elim r [ err e ↦ err e | ok _ ↦ ok stream ]
  unfolding open_stream
  opened {r} e = rw (online, written, e, open_stream) refl

  understood :
      IsBound request.protocol bind
      → Sends responses (answer (protocol_name request.protocol) request outcome).0 reply
  understood free =
      subst (λ (a : Option OpenResponse × Result AgentError (Unit {0})). Sends responses a.0 reply)
        (handle_payload-known requests payload request bind outcome
            (requests.from_slice-to_vec request payload written)
          ∙ handled request bind outcome free)
        sent

  unbound :
      (why : Text)
      → request.protocol ≡ TargetProtocol.udp
      → bind ≡ some why
      → read_reply responses reply ≡ err (refused (text "udp bind failed: " ++ why))
  unfolding handle_stream response_err
  unbound why udp failed =
      let known =
        handle_payload-known requests payload request bind outcome
          (requests.from_slice-to_vec request payload written) in
      let said : (handle_payload requests payload bind outcome).0
          ≡ some (response_err (text "udp bind failed: " ++ why)) =
        ap (λ (a : Option OpenResponse × Result AgentError (Unit {0})). a.0) known
        ∙ rw (udp, failed, handle_stream) refl in
      read_reply-response responses (response_err (text "udp bind failed: " ++ why))
        (subst (λ (a : Option OpenResponse). Sends responses a reply) said sent)

  -- Where the client is online, the request can be written and the multiplexer opens a stream, and the
  -- controller receives in time what the agent answers: the controller has the stream if the agent
  -- has connected to the target, an error with the reason if the target refused, and some error if the
  -- agent has not connected for another reason. If the agent could not bind a socket for datagrams, the
  -- controller has an error that says so.
  pub open_stream-handle_payload :
      let result = open_stream requests responses clients route request (some stream) reply in
      (IsBound request.protocol bind
        → (outcome ≡ connects → result ≡ ok stream)
          × ((why : Text)
              → outcome ≡ refuses why
              → result
                ≡ err (
                    refused (
                      protocol_name request.protocol
                      ++ text " connect "
                      ++ request.target
                      ++ text " failed: "
                      ++ why)))
          × (outcome ≢ connects → (e : OpenError) × (result ≡ err e)))
      × ((why : Text)
          → request.protocol ≡ TargetProtocol.udp
          → bind ≡ some why
          → result ≡ err (refused (text "udp bind failed: " ++ why)))
  open_stream-handle_payload = (
    λ free.
        let (fine, told, other) =
          read_reply-answer responses (protocol_name request.protocol) request outcome
            (understood free) in
        (
          λ h. opened (fine h),
          λ why h. opened (told why h),
          λ h. let (e, failed) = other h in (e, opened failed),
        ),
    λ why udp failed. opened (unbound why udp failed),
  )
