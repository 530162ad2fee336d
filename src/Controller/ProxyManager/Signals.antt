-- ===== src/Controller/ProxyManager/Signals.antt =====
-- When the guard of a session is told to shut down.
use rps.Base.{
  ℕ, ◌≡◌, ◌∙◌, subst, ◌≢◌, inl, inr, Bool, true, false, ◌||◌, Option, none, some, List, [], ◌∷◌,
  length, get_elem?, eqb, eqb_refl, nat_eq, list_eq, list_beq_iff, arith, Option-cases, Bool-cases,
  get_elem?-set_self, get_elem?-set_ne, get_elem?-bound, get_elem?-append_left,
  get_elem?-append_here, ◌==◌,
}
use rps.Base.Text.{Text}
use rps.Base.Map.{get, get-insert, get-remove}
use rps.Controller.ProxyManager.{
  ProxySessionEntry, ProxySessionGuard, ProxyManager, entry_of, register, session_ids,
  revoke_session, revoke_sessions, revoke_account, drop_guard, Since, opened, registered, revoked,
  dropped,
}
use rps.Base.Map.Keys.{contains}
use rps.Controller.ProxyManager.InBounds.{InBounds, Reach-InBounds}
use rps.Controller.ProxyManager.Revoked.{contains-session_ids}

-- The signal `k` of the session of the account under `session_id`, where `b` says whether it was
-- raised: until then the session is listed, and nothing else holds the signal.
record Holds (account_id session_id : Text) (k : ℕ) (b : Bool) (m : ProxyManager) : Type 0 where
  signal : get_elem? m.signals k ≡ some b
  only :
      (id : Text) (entry : ProxySessionEntry)
      → get m.sessions id ≡ some entry
      → entry.shutdown ≡ k
      → (id ≡ session_id) × (b ≡ false)
  listed :
      b ≡ false
      → get m.sessions session_id ≡ some (record { account_id = account_id; shutdown = k })

module _ (account_id session_id : Text) where
  Holds-opened :
      (m : ProxyManager)
      → InBounds m
      → Holds account_id session_id
          (length m.signals)
          false
          (register m (some account_id) session_id).1
  unfolding register
  Holds-opened m h = record {
    signal = get_elem?-append_here m.signals false;
    only = λ id entry found e. elim (Bool-cases (eqb session_id id)) [
      | inl same ↦ ground (arith, list_beq_iff session_id id)
      | inr other ↦
          let old : get m.sessions id ≡ some entry =
            ground (arith, get-insert m.sessions session_id id (entry_of m account_id)) in
          absurd (omega (arith, h id entry old))
    ];
    listed = λ _. ground (
      arith,
      eqb_refl session_id,
      get-insert m.sessions session_id session_id (entry_of m account_id),
    );
  }

  Holds-registered :
      {k : ℕ} {b : Bool} {m : ProxyManager} (other : Option Text) (id : Text)
      → eqb id session_id ≡ false
      → Holds account_id session_id k b m
      → Holds account_id session_id k b (register m other id).1
  unfolding register
  Holds-registered {k} {b} {m} none id ne h = record {
    signal =
        get_elem?-append_left m.signals (false ∷ []) k
          (get_elem?-bound m.signals k {v = b} h.signal)
        ∙ h.signal;
    only = h.only;
    listed = h.listed;
  }
  Holds-registered {k} {b} {m} (some a) id ne h =
      let bound = get_elem?-bound m.signals k {v = b} h.signal in
      record {
        signal = get_elem?-append_left m.signals (false ∷ []) k bound ∙ h.signal;
        only = λ j entry found e. elim (Bool-cases (eqb id j)) [
          | inl same ↦ absurd (ground (arith, get-insert m.sessions id j (entry_of m a)))
          | inr other ↦ h.only j entry (ground (arith, get-insert m.sessions id j (entry_of m a))) e
        ];
        listed =
            λ e. ground (arith, h.listed e, get-insert m.sessions id session_id (entry_of m a));
      }

  Holds-dropped :
      {k : ℕ} {b : Bool} {m : ProxyManager} (guard : ProxySessionGuard)
      → guard.id ≢ some session_id
      → Holds account_id session_id k b m
      → Holds account_id session_id k b (drop_guard m guard)
  unfolding drop_guard
  Holds-dropped {k} {b} {m} guard ne h = elim (Option-cases guard.id) [
    | inl absent ↦ rw (absent, drop_guard) h
    | inr (id, got) ↦
        rw (got, drop_guard)
          (record {
            signal = h.signal;
            only = λ j entry found e. h.only j entry (ground (arith, get-remove m.sessions id j)) e;
            listed = λ e. ground (
              arith,
              h.listed e,
              list_beq_iff id session_id,
              get-remove m.sessions id session_id,
            );
          })
  ]

  Holds-revoke_session :
      {k : ℕ} {b : Bool} {m : ProxyManager} (id : Text)
      → Holds account_id session_id k b m
      → Holds account_id session_id k (b || eqb id session_id) (revoke_session m id)
  unfolding revoke_session
  Holds-revoke_session {k} {b} {m} id h = elim (Option-cases (get m.sessions id)) [
    | inl absent ↦
        let same : (b || eqb id session_id) ≡ b = elim (Bool-cases b) [
          | inl e ↦ ground arith
          | inr e ↦ let l = h.listed e in ground (arith, list_beq_iff id session_id)
        ] in
        rw (same, absent, revoke_session) h
    | inr (s, got) ↦ elim (Bool-cases (s.shutdown == k)) [
      | inl hit ↦
          let (here, before) = h.only id s got (ground arith) in
          let bound = get_elem?-bound m.signals k {v = b} h.signal in
          let raised : (b || eqb id session_id) ≡ true =
            ground (arith, list_beq_iff id session_id) in
          rw (raised, got, revoke_session)
            (record {
              signal = ground (arith, get_elem?-set_self m.signals k true bound);
              only = λ j entry found e.
                  let old : get m.sessions j ≡ some entry =
                    ground (arith, get-remove m.sessions id j) in
                  let (there, _) = h.only j entry old e in
                  absurd (ground (arith, list_beq_iff id j, get-remove m.sessions id j));
              listed = λ e. absurd (ground arith);
            })
      | inr miss ↦
          let same : (b || eqb id session_id) ≡ b = elim (Bool-cases b) [
            | inl e ↦ ground arith
            | inr e ↦ let l = h.listed e in ground (arith, list_beq_iff id session_id)
          ] in
          rw (same, got, revoke_session)
            (record {
              signal =
                  get_elem?-set_ne m.signals true (λ (e : s.shutdown ≡ k). absurd (ground arith))
                  ∙ h.signal;
              only =
                  λ j entry found e. h.only j entry (ground (arith, get-remove m.sessions id j)) e;
              listed = λ e.
                  let l = h.listed e in
                  ground (arith, list_beq_iff id session_id, get-remove m.sessions id session_id);
            })
    ]
  ]

  Holds-revoke_sessions :
      {k : ℕ} (ids : List Text) {b : Bool} {m : ProxyManager}
      → Holds account_id session_id k b m
      → Holds account_id session_id k (b || contains ids session_id) (revoke_sessions ids m)
  unfolding revoke_sessions
  Holds-revoke_sessions {k} [] {b} {m} h = let same : (b || false) ≡ b = ground arith in rw same h
  Holds-revoke_sessions {k} (id ∷ ids) {b} {m} h =
      let rest =
        Holds-revoke_sessions ids {b = b || eqb id session_id} {m = revoke_session m id}
          (Holds-revoke_session id h) in
      let same : ((b || eqb id session_id) || contains ids session_id)
          ≡ (b || (eqb id session_id || contains ids session_id)) =
        ground arith in
      subst
        (λ (c : Bool). Holds account_id session_id k c (revoke_sessions ids (revoke_session m id)))
        same rest

  Since-Holds :
      {k : ℕ} {b : Bool} {m : ProxyManager}
      → Since account_id session_id k b m
      → Holds account_id session_id k b m
  unfolding revoke_account register
  Since-Holds (opened m reach) = Holds-opened m (Reach-InBounds reach)
  Since-Holds (registered other id ne since) = Holds-registered other id ne (Since-Holds since)
  Since-Holds {k} (revoked {b} {m} other since) =
      let h = Since-Holds since in
      let c = contains-session_ids m.sessions other session_id in
      let rest = Holds-revoke_sessions (session_ids m.sessions other) h in
      let same : (b || contains (session_ids m.sessions other) session_id)
          ≡ (b || eqb account_id other) =
        elim (Bool-cases b) [ inl e ↦ ground arith | inr e ↦ let l = h.listed e in ground arith ] in
      subst
        (λ (x : Bool).
          Holds account_id session_id k x (revoke_sessions (session_ids m.sessions other) m))
        same rest
  Since-Holds (dropped guard ne since) = Holds-dropped guard ne (Since-Holds since)

-- The guard of a session that a proxy registers for an account is told to shut down exactly if the
-- account is revoked while the guard is held, whatever other sessions are registered, revoked and
-- dropped in the meantime; and as long as it is not told, the session is listed for its account.
pub shutdown_iff_revoked :
    (account_id session_id : Text) (k : ℕ) (b : Bool) (m : ProxyManager)
    → Since account_id session_id k b m
    → (get_elem? m.signals k ≡ some b)
      × (b ≡ false
          → get m.sessions session_id ≡ some (record { account_id = account_id; shutdown = k }))
shutdown_iff_revoked account_id session_id k b m since =
    let h = Since-Holds account_id session_id since in (h.signal, h.listed)
