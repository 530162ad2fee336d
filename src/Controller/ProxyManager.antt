-- ===== src/Controller/ProxyManager.antt =====
-- crates/rps-controller/src/proxy_manager.rs: the sessions of the proxies. What the watch channels
-- say stands in a store, as the guards share them with the table; a session and its guard hold an
-- index. Session ids are drawn, so they are arguments.
pub mod Revoked
pub mod InBounds
pub mod Signals
use rps.Base.{
  ℕ, Bool, true, false, Option, none, some, List, [], ◌∷◌, ◌++◌, if◌then◌else◌, length, set, eqb,
  ◌||◌, ◌≢◌, ◌≡◌, nat_eq, list_eq,
}
use rps.Base.Text.{Text}
use rps.Base.Map.{Map, get, insert, remove, keys}

pub record ProxySessionEntry : Type 0 where
  pub account_id : Text
  pub shutdown : ℕ

pub record ProxySessionGuard : Type 0 where
  pub id : Option Text
  pub shutdown : ℕ

pub record ProxyManager : Type 0 where
  pub sessions : Map Text ProxySessionEntry
  pub signals : List Bool

unfoldable pub new : ProxyManager
new = record { sessions = []; signals = [] }

abbrev pub entry_of : ProxyManager → Text → ProxySessionEntry
entry_of m account_id = record { account_id = account_id; shutdown = length m.signals }

-- Without an account the guard itself holds the sender, and no session is listed.
unfoldable pub register : ProxyManager → Option Text → Text → ProxySessionGuard × ProxyManager
register m none session_id = (
  record { id = none; shutdown = length m.signals },
  record m { signals = m.signals ++ false ∷ [] },
)
register m (some account_id) session_id = (
  record { id = some session_id; shutdown = length m.signals },
  record {
    sessions = insert m.sessions session_id (entry_of m account_id);
    signals = m.signals ++ false ∷ [];
  },
)

abbrev pub is_of : Text → Option ProxySessionEntry → Bool
is_of account_id none = false
is_of account_id (some entry) = eqb entry.account_id account_id

-- The keys whose entry is of the account, in the order of the iteration.
unfoldable pub ids_of : Map Text ProxySessionEntry → Text → List Text → List Text
ids_of sessions account_id [] = []
ids_of sessions account_id (id ∷ ids) =
    let rest = ids_of sessions account_id ids in
    if is_of account_id (get sessions id) then id ∷ rest else rest

abbrev pub session_ids : Map Text ProxySessionEntry → Text → List Text
session_ids sessions account_id = ids_of sessions account_id (keys sessions)

unfoldable pub revoke_session : ProxyManager → Text → ProxyManager
revoke_session m id = elim (get m.sessions id) [
  | none ↦ m
  | some session ↦ record {
    sessions = remove m.sessions id;
    signals = set m.signals session.shutdown true;
  }
]

unfoldable pub revoke_sessions : List Text → ProxyManager → ProxyManager
revoke_sessions [] m = m
revoke_sessions (id ∷ ids) m = revoke_sessions ids (revoke_session m id)

unfoldable pub revoke_account : ProxyManager → Text → ℕ × ProxyManager
revoke_account m account_id = (
  length (session_ids m.sessions account_id),
  revoke_sessions (session_ids m.sessions account_id) m,
)

unfoldable pub active_count : ProxyManager → Text → ℕ
active_count m account_id = length (session_ids m.sessions account_id)

unfoldable pub drop_guard : ProxyManager → ProxySessionGuard → ProxyManager
drop_guard m guard = elim guard.id [
  | none ↦ m
  | some id ↦ record m { sessions = remove m.sessions id }
]

-- The states that may come up.
pub data Reach : ProxyManager → Type 0 where
  fresh : Reach new
  registers :
      {m : ProxyManager} (account_id : Option Text) (id : Text)
      → Reach m
      → Reach (register m account_id id).1
  revokes : {m : ProxyManager} (account_id : Text) → Reach m → Reach (revoke_account m account_id).1
  drops : {m : ProxyManager} (guard : ProxySessionGuard) → Reach m → Reach (drop_guard m guard)

-- What may follow the registration of a session of an account: other sessions come under other ids
-- (`Uuid::new_v4` draws no id twice), accounts are revoked, and other guards are dropped. The flag
-- says whether the account was among the revoked, the number is the signal that the guard holds.
pub data Since (account_id session_id : Text) : ℕ → Bool → ProxyManager → Type 0 where
  opened :
      (m : ProxyManager)
      → Reach m
      → Since account_id session_id
          (register m (some account_id) session_id).0.shutdown
          false
          (register m (some account_id) session_id).1
  registered :
      {k : ℕ} {b : Bool} {m : ProxyManager} (other : Option Text) (id : Text)
      → eqb id session_id ≡ false
      → Since account_id session_id k b m
      → Since account_id session_id k b (register m other id).1
  revoked :
      {k : ℕ} {b : Bool} {m : ProxyManager} (other : Text)
      → Since account_id session_id k b m
      → Since account_id session_id k (b || eqb account_id other) (revoke_account m other).1
  dropped :
      {k : ℕ} {b : Bool} {m : ProxyManager} (guard : ProxySessionGuard)
      → guard.id ≢ some session_id
      → Since account_id session_id k b m
      → Since account_id session_id k b (drop_guard m guard)
