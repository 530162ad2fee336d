-- ===== src/Controller/Socks5/Relay/Last.antt =====
-- What the end of a connection leaves of its association.
use rps.Base.{
  ◌≡◌, ◌≢◌, refl, subst, ◌∙◌, ap, inl, inr, ℕ, ◌^◌, ◌<◌, ◌==◌, ==_iff, true, false, ◌&&◌, none,
  some, List, [], ◌∷◌, ◌++◌, length, get_or, eqb, nat_eq, list_eq, list_beq_iff, arith,
  if◌then◌else◌, Option-cases, Bool-cases,
}
use mathlib.Core.List.{append_assoc}
use rps.Base.Text.{Text}
use rps.Base.Map.{Map, get, keys, get-remove}
use rps.Base.Map.Keys.{contains, contains-keys}
use rps.Base.Counters.{count_down, live, live-remove, live_bounded}
use rps.Controller.Socks5.{Ipv6Text}
use rps.Controller.Socks5.Associations.{
  SocksUdpSessionKey, session_key_eq, MuxStreamWriter, SocksUdpSession, SocksUdpRelay, close,
  close_all, keys_of_ip, close_sessions_for_ip, remove_same, leave,
}
use rps.Controller.Socks5.Relay.Reach.{Reach}
use rps.Controller.Socks5.Relay.Kept.{Reach-IsKept}

contains-keys_of_ip :
    (ip : Text) (ks : List SocksUdpSessionKey) (key : SocksUdpSessionKey)
    → contains (keys_of_ip ip ks) key ≡ (contains ks key && eqb key.client_addr.ip ip)
unfolding keys_of_ip
contains-keys_of_ip ip [] key = refl
contains-keys_of_ip ip (k ∷ ks) key =
    ground (arith, session_key_eq.beq_iff k key, contains-keys_of_ip ip ks key)

get-close :
    (relay : SocksUdpRelay) (k key : SocksUdpSessionKey)
    → get (close relay k).sessions key ≡ (if eqb k key then none else get relay.sessions key)
unfolding close
get-close relay k key = elim (Option-cases (get relay.sessions k)) [
  | inl absent ↦ ground (arith, session_key_eq.beq_iff k key)
  | inr (session, found) ↦ ground (arith, get-remove relay.sessions k key)
]

get-close_all :
    (ks : List SocksUdpSessionKey) (relay : SocksUdpRelay) (key : SocksUdpSessionKey)
    → get (close_all ks relay).sessions key
      ≡ (if contains ks key then none else get relay.sessions key)
unfolding close_all
get-close_all [] relay key = refl
get-close_all (k ∷ ks) relay key =
    ground (arith, get-close_all ks (close relay k) key, get-close relay k key)

close-associations :
    (relay : SocksUdpRelay) (k : SocksUdpSessionKey)
    → (close relay k).associations ≡ relay.associations
unfolding close
close-associations relay k = elim (Option-cases (get relay.sessions k)) [
  | inl absent ↦ rw (absent, close) refl
  | inr (session, found) ↦ rw (found, close) refl
]

close_all-associations :
    (ks : List SocksUdpSessionKey) (relay : SocksUdpRelay)
    → (close_all ks relay).associations ≡ relay.associations
unfolding close_all
close_all-associations [] relay = refl
close_all-associations (k ∷ ks) relay =
    close_all-associations ks (close relay k) ∙ close-associations relay k

-- The sessions of an address are closed, those of others stay.
close_sessions_for_ip-get :
    (relay : SocksUdpRelay) (ip : Text) (key : SocksUdpSessionKey)
    → get (close_sessions_for_ip relay ip).sessions key
      ≡ (if eqb key.client_addr.ip ip then none else get relay.sessions key)
unfolding close_sessions_for_ip
close_sessions_for_ip-get relay ip key =
    let gone = get-close_all (keys_of_ip ip (keys relay.sessions)) relay key in
    let listed = contains-keys_of_ip ip (keys relay.sessions) key in
    elim (Bool-cases (contains (keys relay.sessions) key)) [
      | inl there ↦ ground arith
      | inr absent ↦ ground (arith, contains-keys relay.sessions key)
    ]

-- A close was sent on the stream.
abbrev pub IsIn : MuxStreamWriter → List MuxStreamWriter → Type 0
IsIn writer closed =
    (before : List MuxStreamWriter) × (after : List MuxStreamWriter) × (closed
      ≡ before ++ writer ∷ after)

later-IsIn :
    (writer : MuxStreamWriter) (relay : SocksUdpRelay) (k : SocksUdpSessionKey)
    → IsIn writer relay.closed
    → IsIn writer (close relay k).closed
unfolding close
later-IsIn writer relay k (before, after, e) = elim (Option-cases (get relay.sessions k)) [
  | inl absent ↦ rw (absent, close) (before, after, e)
  | inr (session, found) ↦
      rw (found, close)
        (
          before,
          after ++ session.writer ∷ [],
          ap (λ (ws : List MuxStreamWriter). ws ++ session.writer ∷ []) e
              ∙ append_assoc before (writer ∷ after) (session.writer ∷ []),
        )
]

close_all-later :
    (ks : List SocksUdpSessionKey) (writer : MuxStreamWriter) (relay : SocksUdpRelay)
    → IsIn writer relay.closed
    → IsIn writer (close_all ks relay).closed
unfolding close_all
close_all-later [] writer relay h = h
close_all-later (k ∷ ks) writer relay h =
    close_all-later ks writer (close relay k) (later-IsIn writer relay k h)

close-IsIn :
    (relay : SocksUdpRelay) (k : SocksUdpSessionKey) (session : SocksUdpSession)
    → get relay.sessions k ≡ some session
    → IsIn session.writer (close relay k).closed
unfolding close
close-IsIn relay k session found = rw (found, close) (relay.closed, [], refl)

close_all-IsIn :
    (ks : List SocksUdpSessionKey) (relay : SocksUdpRelay) (key : SocksUdpSessionKey)
    (session : SocksUdpSession)
    → get relay.sessions key ≡ some session
    → contains ks key ≡ true
    → IsIn session.writer (close_all ks relay).closed
unfolding close_all
close_all-IsIn [] relay key session found h = absurd (ground arith)
close_all-IsIn (k ∷ ks) relay key session found h = elim (Bool-cases (eqb k key)) [
  | inl same ↦ close_all-later ks session.writer (close relay k) (
      close-IsIn relay k session
        (ap (get relay.sessions) ((session_key_eq.beq_iff k key).0 same) ∙ found))
  | inr other ↦
      close_all-IsIn ks (close relay k) key session (ground (arith, get-close relay k key))
        (ground arith)
]

remove_same-gone :
    (associations : Map Text ℕ) (ip : Text) (k : ℕ)
    → get (remove_same associations ip k) ip ≢ some k
unfolding remove_same
remove_same-gone associations ip k h = elim (Option-cases (get associations ip)) [
  | inl absent ↦ ground arith
  | inr (current, found) ↦
      ground (arith, ==_iff current k, get-remove associations ip ip, list_beq_iff ip ip)
]

-- When the last connection that holds an association ends, the association is not listed under its
-- address any more, all sessions of the address are removed with a close on their streams, and those of
-- other addresses stay. While
-- another connection holds it, the end of one changes neither table. A connection whose read failed
-- counts as one that holds it, and fewer than 2 ^ 64 are assumed.
pub leave_lem :
    (v6_text : Ipv6Text) (relay : SocksUdpRelay) (front back : List ℕ) (ip : Text) (k : ℕ)
    → Reach v6_text relay (front ++ k ∷ back)
    → length (front ++ k ∷ back) < 2 ^ 64
    → (live k (front ++ back) ≡ 0
        → (get (leave relay ip k).associations ip ≢ some k)
          × ((key : SocksUdpSessionKey)
              → get (leave relay ip k).sessions key
                ≡ (if eqb key.client_addr.ip ip then none else get relay.sessions key))
          × ((key : SocksUdpSessionKey) (session : SocksUdpSession)
              → key.client_addr.ip ≡ ip
              → get relay.sessions key ≡ some session
              → IsIn session.writer (leave relay ip k).closed))
      × (0 < live k (front ++ back)
          → ((leave relay ip k).associations ≡ relay.associations)
            × ((leave relay ip k).sessions ≡ relay.sessions))
unfolding leave close_sessions_for_ip
leave_lem v6_text relay front back ip k reach few =
    let v = Reach-IsKept reach in
    let count = v.tally.counts k in
    let more = live-remove k k front back in
    let bound = live_bounded k (front ++ k ∷ back) in
    let lowered : SocksUdpRelay = record relay {
      refs = count_down relay.refs k;
      associations = remove_same relay.associations ip k;
    } in
    let ks = keys_of_ip ip (keys relay.sessions) in
    (
      λ last.
          let one : (get_or relay.refs k 0 == 1) ≡ true = ground (arith, ==_iff k k) in
          rw (one, if◌then◌else◌)
            (
              λ h.
                  remove_same-gone relay.associations ip k
                    (subst (λ m. get m ip ≡ some k) (close_all-associations ks lowered) h),
              λ key. close_sessions_for_ip-get lowered ip key,
              λ key session own found. close_all-IsIn ks lowered key session found (
                  ground (
                    arith,
                    contains-keys relay.sessions key,
                    contains-keys_of_ip ip (keys relay.sessions) key,
                    list_beq_iff key.client_addr.ip ip,
                  )),
            ),
      λ others.
          let two : (get_or relay.refs k 0 == 1) ≡ false = ground (arith, ==_iff k k) in
          rw (two, if◌then◌else◌) (refl, refl),
    )
