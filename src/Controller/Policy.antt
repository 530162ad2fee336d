-- ===== src/Controller/Policy.antt =====
-- crates/rps-controller/src/policy.rs: which tunnels and proxy accounts are still allowed. A policy
-- is shared by reference in the source, and reached through the table alone, so the table holds it.
-- The clock is an argument.
pub mod Denied
pub mod Once
use rps.Base.{
  ℕ, ◌+◌, ◌%◌, ◌^◌, ◌≡◌, refl, ◌↔◌, min, Bool, true, false, not, ◌&&◌, Option, none, some, List, [],
  ◌∷◌, ◌++◌, if◌then◌else◌, length, ltb, leb, ◌==◌, Eq, eqb, nat_eq, list_eq, list_beq_iff,
  list_beq, arith,
}
use rps.Base.Int.{ℤ, leb_ℤ}
use rps.Base.Text.{Text, text, strip_prefix}
use rps.Base.Words.{saturating_add}
use rps.Base.Map.{Map, keys, get, insert, remove}

pub data ResourceKind : Type 0 where
  tunnel : ResourceKind
  proxy_account : ResourceKind

pub record ResourceKey : Type 0 where
  pub kind : ResourceKind
  pub id : Text

abbrev pub kind_beq : ResourceKind → ResourceKind → Bool
kind_beq tunnel tunnel = true
kind_beq proxy_account proxy_account = true
kind_beq _ _ = false

kind_beq_iff : (a b : ResourceKind) → (kind_beq a b ≡ true) ↔ (a ≡ b)
kind_beq_iff tunnel tunnel = (λ _. refl, λ _. refl)
kind_beq_iff proxy_account proxy_account = (λ _. refl, λ _. refl)
kind_beq_iff tunnel proxy_account = (λ h. cc, λ h. cc)
kind_beq_iff proxy_account tunnel = (λ h. cc, λ h. cc)

abbrev pub key_beq : ResourceKey → ResourceKey → Bool
key_beq a b = kind_beq a.kind b.kind && list_beq a.id b.id

pub key_beq_iff : (a b : ResourceKey) → (key_beq a b ≡ true) ↔ (a ≡ b)
key_beq_iff a b = ground (arith, kind_beq_iff a.kind b.kind, list_beq_iff a.id b.id)

instance abbrev pub key_eq : Eq ResourceKey
key_eq = record { beq = key_beq; beq_iff = key_beq_iff }

pub data RevokeReason : Type 0 where
  expired : RevokeReason
  traffic_exhausted : RevokeReason

unfoldable pub as_str : RevokeReason → Text
as_str expired = text "expired"
as_str traffic_exhausted = text "traffic_exhausted"

pub record PolicyState : Type 0 where
  pub expires_at : Option ℤ
  pub traffic_limit_bytes : Option ℕ
  pub used_bytes : ℕ
  pub revoked : Bool

pub record RevokeEvent : Type 0 where
  pub key : ResourceKey
  pub reason : RevokeReason

pub record PolicyEnforcer : Type 0 where
  pub policies : Map ResourceKey PolicyState
  pub revoke_queue : List RevokeEvent

abbrev pub revoke_queue_capacity : ℕ
revoke_queue_capacity = 4096

-- `PolicyEnforcer::channel`
unfoldable pub channel : PolicyEnforcer
channel = record { policies = []; revoke_queue = [] }

unfoldable pub register : PolicyEnforcer → ResourceKey → Option ℤ → Option ℕ → ℕ → PolicyEnforcer
register e key expires_at traffic_limit_bytes used_bytes = record e {
  policies = insert e.policies key (record {
    expires_at = expires_at;
    traffic_limit_bytes = traffic_limit_bytes;
    used_bytes = used_bytes;
    revoked = false;
  });
}

-- `PolicyEnforcer::remove`
unfoldable pub unregister : PolicyEnforcer → ResourceKey → PolicyEnforcer
unregister e key = record e { policies = remove e.policies key }

-- `revoke_tx.try_send`: a full queue drops the event.
unfoldable pub try_send : List RevokeEvent → RevokeEvent → List RevokeEvent
try_send queue event =
    if ltb (length queue) revoke_queue_capacity then queue ++ event ∷ [] else queue

unfoldable pub revoke_once :
    PolicyEnforcer → ResourceKey → PolicyState → RevokeReason → PolicyEnforcer
revoke_once e key policy reason = if policy.revoked then e else record {
  policies = insert e.policies key (record policy { revoked = true });
  revoke_queue = try_send e.revoke_queue (record { key = key; reason = reason });
}

-- `now_secs() >= expires_at`, where there is an expiry.
abbrev pub is_past : ℤ → Option ℤ → Bool
is_past now none = false
is_past now (some at) = leb_ℤ at now

abbrev pub is_exhausted : ℕ → Option ℕ → Bool
is_exhausted used none = false
is_exhausted used (some limit) = leb limit used

unfoldable pub allowed : PolicyEnforcer → ℤ → ResourceKey → Bool × PolicyEnforcer
allowed e now key = elim (get e.policies key) [
  | none ↦ (true, e)
  | some policy ↦
      if policy.revoked
      then (false, e)
      else if is_past now policy.expires_at
      then (false, revoke_once e key policy expired)
      else if is_exhausted policy.used_bytes policy.traffic_limit_bytes
      then (false, revoke_once e key policy traffic_exhausted)
      else (true, e)
]

abbrev pub tunnel_key : Text → ResourceKey
tunnel_key id = record { kind = tunnel; id = id }

abbrev pub proxy_account_key : Text → ResourceKey
proxy_account_key id = record { kind = proxy_account; id = id }

unfoldable pub resource_key_from_route : Text → Option ResourceKey
resource_key_from_route route_id = elim (strip_prefix (text "http-proxy:") route_id) [
  | some id ↦ some (proxy_account_key id)
  | none ↦ elim (strip_prefix (text "socks5:") route_id) [
    | some id ↦ some (proxy_account_key id)
    | none ↦ elim (strip_prefix (text "socks5-udp:") route_id) [
      | some id ↦ some (proxy_account_key id)
      | none ↦ some (tunnel_key route_id)
    ]
  ]
]

-- `fetch_add` wraps and stores; the sum that is compared with the limit saturates.
unfoldable pub add_usage : PolicyEnforcer → ResourceKey → PolicyState → ℕ → PolicyEnforcer
add_usage e key policy delta =
    let counted : PolicyState = record policy {
      used_bytes = (policy.used_bytes + delta) % 2 ^ 64;
    } in
    let stored : PolicyEnforcer = record e { policies = insert e.policies key counted } in
    if is_exhausted (saturating_add policy.used_bytes delta) policy.traffic_limit_bytes
    then revoke_once stored key counted traffic_exhausted
    else stored

unfoldable pub record_usage : PolicyEnforcer → ResourceKey → ℕ → ℕ → PolicyEnforcer
record_usage e key rx_bytes tx_bytes = elim (get e.policies key) [
  | none ↦ e
  | some policy ↦
      if saturating_add rx_bytes tx_bytes == 0
      then e
      else add_usage e key policy (saturating_add rx_bytes tx_bytes)
]

unfoldable pub record_route_usage : PolicyEnforcer → Text → ℕ → ℕ → PolicyEnforcer
record_route_usage e route_id rx_bytes tx_bytes = elim (resource_key_from_route route_id) [
  | none ↦ e
  | some key ↦ record_usage e key rx_bytes tx_bytes
]

-- One round of `expired_keys`: the entry of a key as the iteration reaches it.
unfoldable pub expire_entry :
    ℤ → ResourceKey → PolicyEnforcer → List (ResourceKey × RevokeReason) × PolicyEnforcer
expire_entry now key e = elim (get e.policies key) [
  | none ↦ ([], e)
  | some policy ↦
      if is_past now policy.expires_at && not policy.revoked
      then ((key, expired) ∷ [], revoke_once e key policy expired)
      else ([], e)
]

unfoldable pub expire_entries :
    ℤ → List ResourceKey → PolicyEnforcer → List (ResourceKey × RevokeReason) × PolicyEnforcer
expire_entries now [] e = ([], e)
expire_entries now (key ∷ keys) e =
    let rest = expire_entries now keys (expire_entry now key e).1 in
    ((expire_entry now key e).0 ++ rest.0, rest.1)

unfoldable pub expired_keys :
    PolicyEnforcer → ℤ → List (ResourceKey × RevokeReason) × PolicyEnforcer
expired_keys e now = expire_entries now (keys e.policies) e

-- What may happen to the policies between two registrations of `key`: any call about any key but a
-- registration or a removal of `key`, and events taken from the queue by the revoking task.
-- The middle index lists what was taken.
pub data Step (key : ResourceKey) (e : PolicyEnforcer)
    : List RevokeEvent → PolicyEnforcer → Type 0 where
  asks : (now : ℤ) (k : ResourceKey) → Step key e [] (allowed e now k).1
  records :
      (route_id : Text) (rx_bytes tx_bytes : ℕ)
      → Step key e [] (record_route_usage e route_id rx_bytes tx_bytes)
  expires : (now : ℤ) → Step key e [] (expired_keys e now).1
  registers :
      (k : ResourceKey) (expires_at : Option ℤ) (limit : Option ℕ) (used : ℕ)
      → eqb k key ≡ false
      → Step key e [] (register e k expires_at limit used)
  removes : (k : ResourceKey) → eqb k key ≡ false → Step key e [] (unregister e k)
  takes :
      (event : RevokeEvent) (rest : List RevokeEvent)
      → e.revoke_queue ≡ event ∷ rest
      → Step key e (event ∷ []) (record e { revoke_queue = rest })

pub data Steps (key : ResourceKey) (e : PolicyEnforcer)
    : List RevokeEvent → PolicyEnforcer → Type 0 where
  done : Steps key e [] e
  further :
      {e' e'' : PolicyEnforcer} {taken more : List RevokeEvent}
      → Steps key e taken e'
      → Step key e' more e''
      → Steps key e (taken ++ more) e''
