-- ===== src/Controller/Db/Counters/Sums.antt =====
-- The counters add up.
use rps.Base.{
  ℕ, ◌+◌, ◌≤◌, ◌≡◌, ◌≢◌, refl, sym, ◌∙◌, ap, inl, inr, Bool, true, false, ◌||◌, if◌then◌else◌, ok,
  eqb_iff, nat_eq, list_eq, list_beq_iff, arith, Bool-cases, Option-cases,
}
use rps.Base.Int.{ℤ}
use rps.Base.Text.{Text, text}
use rps.Controller.Db.{Database, TrafficCounter}
use rps.Controller.Db.Columns.{proxy_account_id_from_route, i64_max}
use rps.Controller.Db.Counters.{
  add_traffic_counter, add_resource_traffic, add_traffic, get_traffic_counter,
}
use rps.Controller.Db.Counters.Single.{
  IsCounting, plus, same_counter, add_traffic_counter-IsCounting, add_traffic_counter_lem,
}

-- The counters that traffic of a client on a route counts on.
abbrev pub counts : Text → Text → Text → Text → Bool
counts client_id tunnel_id s k =
    same_counter (text "global") (text "all") s k
    || same_counter (text "client") client_id s k
    || same_counter (text "tunnel") tunnel_id s k

same_counter-scope : (scope key s k : Text) → same_counter scope key s k ≡ true → scope ≡ s
same_counter-scope scope key s k h = ground (arith, list_beq_iff scope s)

differ : false ≢ true
differ h = ground arith

scopes_differ :
    (text "global" ≢ text "client")
    × (text "global" ≢ text "tunnel")
    × (text "client" ≢ text "tunnel")
scopes_differ = (
  λ h. differ ((eqb_iff (text "global") (text "client")).1 h),
  λ h. differ ((eqb_iff (text "global") (text "tunnel")).1 h),
  λ h. differ ((eqb_iff (text "client") (text "tunnel")).1 h),
)

get-add_resource_traffic :
    (db : Database) (now : ℤ) (route_id s k : Text) (rx tx : ℕ)
    → get_traffic_counter (add_resource_traffic db now route_id rx tx) s k
      ≡ get_traffic_counter db s k
unfolding get_traffic_counter add_resource_traffic
get-add_resource_traffic db now route_id s k rx tx =
    elim (Option-cases (proxy_account_id_from_route route_id)) [
      | inl absent ↦ rw (absent, add_resource_traffic) refl
      | inr (id, found) ↦ rw (found, add_resource_traffic) refl
    ]

scopes_exclude :
    (scope scope' key key' s k : Text)
    → scope ≢ scope'
    → same_counter scope' key' s k ≡ true
    → same_counter scope key s k ≡ false
scopes_exclude scope scope' key key' s k ne h = elim (Bool-cases (same_counter scope key s k)) [
  | inl both ↦
      absurd
        (ne (same_counter-scope scope key s k both ∙ sym (same_counter-scope scope' key' s k h)))
  | inr alone ↦ alone
]

abbrev plus_if : ℕ → ℕ → Bool → TrafficCounter → TrafficCounter
plus_if rx tx m c = if m then plus rx tx c else c

-- At most one of three additions to a counter is made.
plus_once :
    (m1 m2 m3 : Bool) (rx tx : ℕ) (c : TrafficCounter)
    → (m2 ≡ true → m1 ≡ false)
    → (m3 ≡ true → m1 ≡ false)
    → (m3 ≡ true → m2 ≡ false)
    → (m1 || m2 || m3 ≡ true → (c.rx_bytes + rx ≤ i64_max) × (c.tx_bytes + tx ≤ i64_max))
    → (m1 ≡ true → (c.rx_bytes + rx ≤ i64_max) × (c.tx_bytes + tx ≤ i64_max))
      × (m2 ≡ true
          → ((plus_if rx tx m1 c).rx_bytes + rx ≤ i64_max)
            × ((plus_if rx tx m1 c).tx_bytes + tx ≤ i64_max))
      × (m3 ≡ true
          → ((plus_if rx tx m2 (plus_if rx tx m1 c)).rx_bytes + rx ≤ i64_max)
            × ((plus_if rx tx m2 (plus_if rx tx m1 c)).tx_bytes + tx ≤ i64_max))
      × (plus_if rx tx m3 (plus_if rx tx m2 (plus_if rx tx m1 c))
          ≡ plus_if rx tx (m1 || m2 || m3) c)
plus_once m1 m2 m3 rx tx c e12 e13 e23 fits =
    (λ m. ground arith, λ m. ground arith, λ m. ground arith, ground arith)

-- Traffic of a client on a route counts once in the total, once for the client and once for the
-- route: a counter of these grows by it in both directions, and every other counter keeps what it
-- has. The counters are never negative, and the values of a counter that grows are assumed to fit 63
-- bits.
pub add_traffic_lem :
    (db : Database) (now : ℤ) (client_id tunnel_id s k : Text) (rx tx : ℕ) {c : TrafficCounter}
    → IsCounting db
    → get_traffic_counter db s k ≡ ok c
    → (counts client_id tunnel_id s k ≡ true
        → (c.rx_bytes + rx ≤ i64_max) × (c.tx_bytes + tx ≤ i64_max))
    → get_traffic_counter (add_traffic db now client_id tunnel_id rx tx) s k
      ≡ ok (if counts client_id tunnel_id s k then plus rx tx c else c)
unfolding add_traffic
add_traffic_lem db now client_id tunnel_id s k rx tx {c} counting h fits =
    let db1 = add_traffic_counter db now (text "global") (text "all") rx tx in
    let db2 = add_traffic_counter db1 now (text "client") client_id rx tx in
    let m1 = same_counter (text "global") (text "all") s k in
    let m2 = same_counter (text "client") client_id s k in
    let m3 = same_counter (text "tunnel") tunnel_id s k in
    let once =
      plus_once m1 m2 m3 rx tx c
        (scopes_exclude (text "global") (text "client") (text "all") client_id s k scopes_differ.0)
        (scopes_exclude (text "global") (text "tunnel") (text "all") tunnel_id s k scopes_differ.1)
        (scopes_exclude (text "client") (text "tunnel") client_id tunnel_id s k scopes_differ.2)
        fits in
    let counting1 =
      add_traffic_counter-IsCounting db now (text "global") (text "all") rx tx counting in
    let counting2 =
      add_traffic_counter-IsCounting db1 now (text "client") client_id rx tx counting1 in
    let h1 =
      add_traffic_counter_lem db now (text "global") (text "all") s k rx tx {c = c} counting h
        once.0 in
    let h2 =
      add_traffic_counter_lem db1 now (text "client") client_id s k rx tx {c = plus_if rx tx m1 c}
        counting1 h1 once.1 in
    let h3 =
      add_traffic_counter_lem db2 now (text "tunnel") tunnel_id s k rx tx
        {c = plus_if rx tx m2 (plus_if rx tx m1 c)} counting2 h2 once.2 in
    get-add_resource_traffic _ now tunnel_id s k rx tx ∙ h3 ∙ ap ok once.3

-- Adding traffic keeps the counters from being negative.
pub add_traffic-IsCounting :
    (db : Database) (now : ℤ) (client_id tunnel_id : Text) (rx tx : ℕ)
    → IsCounting db
    → IsCounting (add_traffic db now client_id tunnel_id rx tx)
unfolding add_traffic IsCounting add_resource_traffic
add_traffic-IsCounting db now client_id tunnel_id rx tx h =
    let db1 = add_traffic_counter db now (text "global") (text "all") rx tx in
    let db2 = add_traffic_counter db1 now (text "client") client_id rx tx in
    let h1 = add_traffic_counter-IsCounting db now (text "global") (text "all") rx tx h in
    let h2 = add_traffic_counter-IsCounting db1 now (text "client") client_id rx tx h1 in
    let h3 = add_traffic_counter-IsCounting db2 now (text "tunnel") tunnel_id rx tx h2 in
    elim (Option-cases (proxy_account_id_from_route tunnel_id)) [
      | inl absent ↦ rw (absent, add_resource_traffic) h3
      | inr (id, found) ↦ rw (found, add_resource_traffic) h3
    ]
