-- ===== src/Controller/Tests.antt =====
-- The theorems of this part at concrete inputs.
mod Storage
mod Ledger
mod Managers
mod Proxies
mod Together
mod Serving
mod Console
mod Udp
mod Pipe
mod Relay
mod Api
mod Tcp
mod Migration
use rps.Base.{
  ◌≡◌, ◌≢◌, ◌↔◌, ◌⊎◌, refl, Bool, true, false, Option, none, some, List, [], ◌∷◌, ok, err, ℕ, ◌+◌,
  ◌≤◌, arith, eqb, if◌then◌else◌, nat_eq, list_eq, ◌||◌, not, ◌&&◌, ◌==◌,
}
use rps.Base.Int.{ℤ, pos}
use rps.Base.Text.{Text, text, strip_prefix}
use rps.Base.Map.{get, insert}
use rps.Controller.Policy.{
  PolicyEnforcer, PolicyState, ResourceKey, RevokeEvent, Steps, done, further, asks, records,
  expires, channel, register, allowed, tunnel_key, key_eq, record_route_usage,
  resource_key_from_route, is_exhausted, proxy_account_key, revoke_once, try_send,
}
use rps.Controller.Policy.Denied.{allowed_lem, refused_stays_refused, IsPermitting}
use rps.Controller.Policy.Once.{count, budget, revoked_at_most_once, record_route_usage_lem}
use rps.Controller.Db.Columns.{proxy_account_id_from_route}
use rps.Controller.Routes.{resource_key_from_route_lem}

abbrev web : ResourceKey
web = tunnel_key (text "web")

-- A tunnel until 100 with a limit of 50 bytes.
abbrev web_policy : PolicyEnforcer
web_policy = register channel web (some (pos 100)) (some 50) 40

abbrev web_state : PolicyState
web_state = record {
  expires_at = some (pos 100);
  traffic_limit_bytes = some 50;
  used_bytes = 40;
  revoked = false;
}

web_expired : (allowed web_policy (pos 100) web).0 ≡ false
web_expired = unfold allowed register channel get insert in refl

abbrev refused : PolicyEnforcer
refused = (allowed web_policy (pos 100) web).1

abbrev after : PolicyEnforcer
after = record_route_usage refused (text "web") 1 2

refused_stays_refused_example : (allowed after (pos 7) web).0 ≡ false
refused_stays_refused_example =
    refused_stays_refused web_policy after (pos 100) (pos 7) web [] web_expired
      (further done (records (text "web") 1 2))

revoked_at_most_once_example :
    count web [] + count web refused.revoke_queue + budget (get refused.policies web)
    ≤ count web web_policy.revoke_queue + budget (get web_policy.policies web)
revoked_at_most_once_example =
    revoked_at_most_once web web_policy refused [] (further done (asks (pos 100) web))

web_route : resource_key_from_route (text "web") ≡ some web
web_route = unfold resource_key_from_route strip_prefix in refl
