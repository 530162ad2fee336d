-- ===== src/Controller/UdpRelay/Idle.antt =====
-- What a cleanup and the end of a UDP tunnel leave.
use rps.Base.{
  ◌⊎◌, ◌-◌, ◌<◌, ◌≤◌, length, get_or, Result, ==_iff, ◌≡◌, refl, ◌∙◌, ap, inl, inr, ℕ, true, ◌||◌,
  ◌&&◌, none, some, List, [], ◌∷◌, ◌++◌, eqb, eqb_refl, nat_eq, list_eq, list_beq_iff, arith,
  Option-cases, Bool-cases, if◌then◌else◌,
}
use rps.Base.Text.{Text}
use rps.Base.Counters.{get_or-set_self}
use rps.Core.Config.{TunnelConfig}
use rps.Controller.Streams.{OpenError}
use rps.Base.Map.{get, keys, get-remove}
use rps.Base.Map.Keys.{contains, contains-keys}
use rps.Base.Map.Distinct.{no_key-empty}
use rps.Controller.UdpRelay.{
  UdpSession, UdpRelay, close, close_all, is_idle, stale, cleanup, finish, on_datagram, on_response,
  after_send,
}

contains-append :
    (xs : List ℕ) (x stream : ℕ)
    → contains (xs ++ x ∷ []) stream ≡ (contains xs stream || eqb x stream)
contains-append [] x stream = ground arith
contains-append (y ∷ ys) x stream = ground (arith, contains-append ys x stream)

contains-stale :
    (relay : UdpRelay) (now : ℕ) (addrs : List Text) (addr : Text)
    → contains (stale relay now addrs) addr
      ≡ (contains addrs addr && is_idle relay.clocks now (get relay.sessions addr))
unfolding stale
contains-stale relay now [] addr = refl
contains-stale relay now (a ∷ addrs) addr =
    ground (arith, list_beq_iff a addr, contains-stale relay now addrs addr)

get-close :
    (relay : UdpRelay) (a addr : Text)
    → get (close relay a).sessions addr ≡ (if eqb a addr then none else get relay.sessions addr)
unfolding close
get-close relay a addr = elim (Option-cases (get relay.sessions a)) [
  | inl absent ↦ ground (arith, list_beq_iff a addr)
  | inr (session, found) ↦ ground (arith, get-remove relay.sessions a addr)
]

get-close_all :
    (addrs : List Text) (relay : UdpRelay) (addr : Text)
    → get (close_all addrs relay).sessions addr
      ≡ (if contains addrs addr then none else get relay.sessions addr)
unfolding close_all
get-close_all [] relay addr = refl
get-close_all (a ∷ addrs) relay addr =
    ground (arith, get-close_all addrs (close relay a) addr, get-close relay a addr)

close-closed :
    (relay : UdpRelay) (a : Text) (stream : ℕ)
    → contains relay.closed stream ≡ true
    → contains (close relay a).closed stream ≡ true
unfolding close
close-closed relay a stream h = elim (Option-cases (get relay.sessions a)) [
  | inl absent ↦ ground arith
  | inr (session, found) ↦ ground (arith, contains-append relay.closed session.writer stream)
]

close_all-closed :
    (addrs : List Text) (relay : UdpRelay) (stream : ℕ)
    → contains relay.closed stream ≡ true
    → contains (close_all addrs relay).closed stream ≡ true
unfolding close_all
close_all-closed [] relay stream h = h
close_all-closed (a ∷ addrs) relay stream h =
    close_all-closed addrs (close relay a) stream (close-closed relay a stream h)

close-writer :
    (relay : UdpRelay) (a : Text) (session : UdpSession)
    → get relay.sessions a ≡ some session
    → contains (close relay a).closed session.writer ≡ true
unfolding close
close-writer relay a session found =
    rw (found, close)
      (contains-append relay.closed session.writer session.writer
        ∙ ground (arith, eqb_refl session.writer))

close_all-writer :
    (addrs : List Text) (relay : UdpRelay) (addr : Text) (session : UdpSession)
    → get relay.sessions addr ≡ some session
    → contains addrs addr ≡ true
    → contains (close_all addrs relay).closed session.writer ≡ true
unfolding close_all
close_all-writer [] relay addr session found h = absurd (ground arith)
close_all-writer (a ∷ addrs) relay addr session found h = elim (Bool-cases (eqb a addr)) [
  | inl same ↦ close_all-closed addrs (close relay a) session.writer (
      close-writer relay a session (ap (get relay.sessions) ((list_beq_iff a addr).0 same) ∙ found))
  | inr other ↦
      close_all-writer addrs (close relay a) addr session (ground (arith, get-close relay a addr))
        (ground arith)
]

-- The streams that are closed are those that were, and those of the sessions that are closed.
close_all-only :
    (addrs : List Text) (relay : UdpRelay) (stream : ℕ)
    → contains (close_all addrs relay).closed stream ≡ true
    → (contains relay.closed stream ≡ true)
      ⊎ ((addr : Text) × (session : UdpSession) × (contains addrs addr ≡ true)
          × (get relay.sessions addr ≡ some session)
          × (session.writer ≡ stream))
unfolding close_all
close_all-only [] relay stream h = inl h
close_all-only (a ∷ addrs) relay stream h = elim (close_all-only addrs (close relay a) stream h) [
  | inr (addr, session, listed, found, same) ↦
      let e = get-close relay a addr in
      inr (addr, session, ground (arith, list_beq_iff a addr), ground arith, same)
  | inl before ↦ elim (Option-cases (get relay.sessions a)) [
    | inl absent ↦ inl (unfold close in ground arith)
    | inr (session, found) ↦
        let e = contains-append relay.closed session.writer stream in
        elim (Bool-cases (eqb session.writer stream)) [
          | inl same ↦ inr (
            a,
            session,
            ground (arith, eqb_refl a),
            found,
            ground (arith, ==_iff session.writer stream),
          )
          | inr other ↦ inl (unfold close in ground arith)
        ]
  ]
]

-- A cleanup removes exactly the sessions whose clock stands more than 120 seconds back, and closes
-- their streams and no others; the end of the tunnel removes all. A datagram of a session that is
-- there sets its clock to the time, and so does a packet that is delivered.
pub cleanup-finish :
    (relay : UdpRelay) (now : ℕ)
    → ((addr : Text)
        → get relay.sessions addr ≡ none
        → get (cleanup relay now).sessions addr ≡ none)
      × ((addr : Text) (session : UdpSession)
          → get relay.sessions addr ≡ some session
          → (120 < now - get_or relay.clocks session.last_seen 0
              → (get (cleanup relay now).sessions addr ≡ none)
                × (contains (cleanup relay now).closed session.writer ≡ true))
            × (now - get_or relay.clocks session.last_seen 0 ≤ 120
                → get (cleanup relay now).sessions addr ≡ some session))
      × ((stream : ℕ)
          → contains (cleanup relay now).closed stream ≡ true
          → (contains relay.closed stream ≡ true)
            ⊎ ((addr : Text) × (session : UdpSession) × (get relay.sessions addr ≡ some session)
                × (120 < now - get_or relay.clocks session.last_seen 0)
                × (session.writer ≡ stream)))
      × ((finish relay).sessions ≡ [])
      × ((tunnel : TunnelConfig) (addr : Text) (len time : ℕ) (opens : Result OpenError ℕ)
            (session : UdpSession)
          → get relay.sessions addr ≡ some session
          → session.last_seen < length relay.clocks
          → (get_or (on_datagram tunnel addr len time opens true relay).1.clocks session.last_seen 0
              ≡ time)
            × (get_or
                  (on_response tunnel addr session.last_seen (some len) true time relay).clocks
                  session.last_seen
                  0
                ≡ time))
unfolding cleanup finish on_datagram on_response after_send
cleanup-finish relay now =
    let removed =
      λ (addr : Text). get-close_all (stale relay now (keys relay.sessions)) relay addr in
    let listed = λ (addr : Text). contains-stale relay now (keys relay.sessions) addr in
    let known = λ (addr : Text). contains-keys relay.sessions addr in
    (
      λ addr h. ground (arith, removed addr, listed addr, known addr),
      λ addr session found. (
        λ idle. (
          ground (arith, removed addr, listed addr, known addr),
          close_all-writer (stale relay now (keys relay.sessions)) relay addr session found
              (ground (arith, known addr, listed addr)),
        ),
        λ fresh. ground (arith, removed addr, listed addr, known addr),
      ),
      λ stream h. elim (close_all-only (stale relay now (keys relay.sessions)) relay stream h) [
        | inl before ↦ inl before
        | inr (addr, session, hit, found, same) ↦
            inr (addr, session, found, ground (arith, listed addr), same)
      ],
      no_key-empty _ (λ addr. ground (
        arith,
        get-close_all (keys relay.sessions) relay addr,
        contains-keys relay.sessions addr,
      )),
      λ tunnel addr len time opens session found there. (
        rw (found, on_datagram) (get_or-set_self relay.clocks session.last_seen time 0 there),
        get_or-set_self relay.clocks session.last_seen time 0 there,
      ),
    )
