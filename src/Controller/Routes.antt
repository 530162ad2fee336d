-- ===== src/Controller/Routes.antt =====
-- Routes name resources: `resource_key_from_route` of crates/rps-controller/src/policy.rs and
-- `proxy_account_id_from_route` of crates/rps-controller/src/db.rs.
use rps.Base.{◌≡◌, refl, Option, none, some, inl, inr, Option-cases}
use rps.Base.Text.{Text, text, strip_prefix}
use rps.Controller.Db.Columns.{proxy_account_id_from_route}
use rps.Controller.Policy.{resource_key_from_route, tunnel_key, proxy_account_key, ResourceKey}

abbrev key_of : Text → Option Text → ResourceKey
key_of route_id none = tunnel_key route_id
key_of route_id (some id) = proxy_account_key id

-- The policy that usage on a route counts for is that of the row that the database counts it on: the
-- proxy account if the route names one, and otherwise the tunnel with the route's name.
pub resource_key_from_route_lem :
    (route_id : Text)
    → resource_key_from_route route_id
      ≡ some (key_of route_id (proxy_account_id_from_route route_id))
unfolding resource_key_from_route proxy_account_id_from_route strip_prefix
resource_key_from_route_lem route_id =
    elim (Option-cases (strip_prefix (text "http-proxy:") route_id)) [
      | inr (id, http) ↦ rw http refl
      | inl not_http ↦ elim (Option-cases (strip_prefix (text "socks5:") route_id)) [
        | inr (id, socks) ↦ rw (not_http, socks) refl
        | inl not_socks ↦ elim (Option-cases (strip_prefix (text "socks5-udp:") route_id)) [
          | inr (id, udp) ↦ rw (not_http, not_socks, udp) refl
          | inl not_udp ↦ rw (not_http, not_socks, not_udp) refl
        ]
      ]
    ]
