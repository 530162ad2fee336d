-- ===== src/Controller/UdpRelay/Sticky.antt =====
-- Which stream a datagram goes to.
use rps.Base.{
  ◌≡◌, refl, ◌∙◌, sym, inl, inr, ℕ, Bool, true, false, some, Result, ok, eqb, eqb_refl, nat_eq,
  list_eq, arith, Option-cases, Result-cases, if◌then◌else◌,
}
use rps.Base.Text.{Text}
use rps.Base.Map.{get, get-insert}
use rps.Core.Config.{TunnelConfig}
use rps.Controller.Streams.{OpenError}
use rps.Controller.UdpRelay.{
  UdpSession, UdpRelay, after_send, open_session, session_of, on_datagram,
}

known :
    (tunnel : TunnelConfig) (addr : Text) (len now : ℕ) (opens : Result OpenError ℕ) (sent : Bool)
    (relay : UdpRelay) (session : UdpSession)
    → get relay.sessions addr ≡ some session
    → (on_datagram tunnel addr len now opens sent relay).0 ≡ ok session.writer
unfolding on_datagram
known tunnel addr len now opens sent relay session found = rw (found, on_datagram) refl

-- Once it is sent, the table has the new session.
opens_one :
    (tunnel : TunnelConfig) (addr : Text) (len now : ℕ) (relay : UdpRelay) (opened : ℕ)
    → get
        (after_send tunnel addr len true (open_session tunnel addr now opened relay)).sessions
        addr
      ≡ some (session_of tunnel opened relay)
unfolding after_send open_session
opens_one tunnel addr len now relay opened =
    get-insert relay.sessions addr addr (session_of tunnel opened relay)
    ∙ rw (eqb_refl addr, if◌then◌else◌) refl

opens_others :
    (tunnel : TunnelConfig) (addr : Text) (len now : ℕ) (relay : UdpRelay) (opened : ℕ)
    (other : Text)
    → eqb addr other ≡ false
    → get
        (after_send tunnel addr len true (open_session tunnel addr now opened relay)).sessions
        other
      ≡ get relay.sessions other
unfolding after_send open_session
opens_others tunnel addr len now relay opened other ne =
    get-insert relay.sessions addr other (session_of tunnel opened relay)
    ∙ rw (ne, if◌then◌else◌) refl

-- A datagram that could be sent leaves its address with a session of the stream that it went to, and
-- the sessions of all other addresses as they were; the next datagram of the address goes to the same
-- stream, and no other stream is opened for it.
pub on_datagram-again :
    (tunnel : TunnelConfig) (addr : Text) (len now : ℕ) (opens : Result OpenError ℕ)
    (relay : UdpRelay) (stream : ℕ)
    → (on_datagram tunnel addr len now opens true relay).0 ≡ ok stream
    → let after = (on_datagram tunnel addr len now opens true relay).1 in
      ((other : Text)
        → eqb addr other ≡ false
        → get after.sessions other ≡ get relay.sessions other)
      × ((len' now' : ℕ) (opens' : Result OpenError ℕ) (sent : Bool)
          → (on_datagram tunnel addr len' now' opens' sent after).0 ≡ ok stream)
unfolding on_datagram after_send
on_datagram-again tunnel addr len now opens relay stream e =
    elim (Option-cases (get relay.sessions addr)) [
      | inr (session, found) ↦ (
        λ other ne. ground arith,
        λ len' now' opens' sent. ground (
          arith,
          known tunnel addr len' now' opens' sent
              (on_datagram tunnel addr len now opens true relay).1 session,
        ),
      )
      | inl absent ↦ elim (Option-cases tunnel.target) [
        | inl t ↦ absurd (ground arith)
        | inr (target, t) ↦ elim (Result-cases opens) [
          | inr (why, o) ↦ absurd (ground arith)
          | inl (opened, o) ↦ (
            λ other ne.
                rw (absent, t, o, on_datagram)
                  (opens_others tunnel addr len now relay opened other ne),
            λ len' now' opens' sent.
                let after = (on_datagram tunnel addr len now opens true relay).1 in
                let found : get after.sessions addr ≡ some (session_of tunnel opened relay) =
                  rw (absent, t, o, on_datagram) (opens_one tunnel addr len now relay opened) in
                let first : (on_datagram tunnel addr len now opens true relay).0 ≡ ok opened =
                  rw (absent, t, o, on_datagram) refl in
                known tunnel addr len' now' opens' sent after (session_of tunnel opened relay) found
                ∙ (sym first ∙ e),
          )
        ]
      ]
    ]
