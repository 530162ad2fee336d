-- ===== src/Controller/Db/Counters.antt =====
-- crates/rps-controller/src/db.rs: the traffic counters.
pub mod Single
pub mod Sums
use rps.Base.{
  ◌==◌, ℕ, suc, ◌+◌, Bool, true, false, ◌&&◌, Option, none, some, List, [], ◌∷◌, ◌++◌,
  if◌then◌else◌, Result, ok, err, ◌>>=◌, ◌>>◌, eqb, nat_eq, list_eq, length,
}
use rps.Base.Int.{ℤ, pos}
use rps.Base.Text.{Text, text}
use rps.Controller.Sql.{fetch_optional, has_row, update_where}
use rps.Controller.Db.{
  Database, TrafficCounterRow, TunnelRow, ProxyAccountRow, UsageSnapshotRow, TrafficCounter,
  DbError, Sum, integer, constraint,
}
use rps.Controller.Db.Columns.{
  u64_to_i64, i64_to_u64, sql_add, get_i64, proxy_account_id_from_route,
}

abbrev pub is_counter : Text → Text → TrafficCounterRow → Bool
is_counter scope key row = eqb row.scope scope && eqb row.key key

abbrev pub set_counter : ℕ → ℕ → ℤ → TrafficCounterRow → TrafficCounterRow
set_counter rx_bytes tx_bytes now row = record row {
  rx_bytes = sql_add row.rx_bytes (u64_to_i64 rx_bytes);
  tx_bytes = sql_add row.tx_bytes (u64_to_i64 tx_bytes);
  updated_at = now;
}

abbrev pub counter_row : Text → Text → ℕ → ℕ → ℤ → TrafficCounterRow
counter_row scope key rx_bytes tx_bytes now = record {
  scope = scope;
  key = key;
  rx_bytes = integer (u64_to_i64 rx_bytes);
  tx_bytes = integer (u64_to_i64 tx_bytes);
  updated_at = now;
}

unfoldable pub add_traffic_counter : Database → ℤ → Text → Text → ℕ → ℕ → Database
add_traffic_counter db now scope key rx_bytes tx_bytes = record db {
  traffic_counters =
      if has_row (is_counter scope key) db.traffic_counters
      then update_where (is_counter scope key) (set_counter rx_bytes tx_bytes now)
          db.traffic_counters
      else db.traffic_counters ++ counter_row scope key rx_bytes tx_bytes now ∷ [];
}

abbrev pub add_tunnel : ℕ → ℕ → ℤ → TunnelRow → TunnelRow
add_tunnel rx_bytes tx_bytes now row = record row {
  rx_bytes = sql_add row.rx_bytes (u64_to_i64 rx_bytes);
  tx_bytes = sql_add row.tx_bytes (u64_to_i64 tx_bytes);
  updated_at = now;
}

abbrev pub add_proxy_account : ℕ → ℕ → ℤ → ProxyAccountRow → ProxyAccountRow
add_proxy_account rx_bytes tx_bytes now row = record row {
  rx_bytes = sql_add row.rx_bytes (u64_to_i64 rx_bytes);
  tx_bytes = sql_add row.tx_bytes (u64_to_i64 tx_bytes);
  updated_at = now;
}

unfoldable pub add_resource_traffic : Database → ℤ → Text → ℕ → ℕ → Database
add_resource_traffic db now route_id rx_bytes tx_bytes =
    elim (proxy_account_id_from_route route_id) [
      | some account_id ↦ record db {
        proxy_accounts =
            update_where (λ (row : ProxyAccountRow). eqb row.id account_id)
              (add_proxy_account rx_bytes tx_bytes now) db.proxy_accounts;
      }
      | none ↦ record db {
        tunnels =
            update_where (λ (row : TunnelRow). eqb row.id route_id)
              (add_tunnel rx_bytes tx_bytes now) db.tunnels;
      }
    ]

unfoldable pub add_traffic : Database → ℤ → Text → Text → ℕ → ℕ → Database
add_traffic db now client_id tunnel_id rx_bytes tx_bytes =
    let global = add_traffic_counter db now (text "global") (text "all") rx_bytes tx_bytes in
    let client = add_traffic_counter global now (text "client") client_id rx_bytes tx_bytes in
    let tunnel = add_traffic_counter client now (text "tunnel") tunnel_id rx_bytes tx_bytes in
    add_resource_traffic tunnel now tunnel_id rx_bytes tx_bytes

-- What an `add_traffic` leaves that fails after a number of its statements, which are not one
-- transaction.
unfoldable pub add_traffic_until : ℕ → Database → ℤ → Text → Text → ℕ → ℕ → Database
add_traffic_until statements db now client_id tunnel_id rx_bytes tx_bytes =
    let global = add_traffic_counter db now (text "global") (text "all") rx_bytes tx_bytes in
    let client = add_traffic_counter global now (text "client") client_id rx_bytes tx_bytes in
    let tunnel = add_traffic_counter client now (text "tunnel") tunnel_id rx_bytes tx_bytes in
    if statements == 0
    then db
    else if statements == 1
    then global
    else if statements == 2
    then client
    else tunnel

unfoldable pub get_traffic_counter : Database → Text → Text → Result DbError TrafficCounter
get_traffic_counter db scope key =
    elim (fetch_optional (is_counter scope key) db.traffic_counters) [
      | none ↦ ok (record { rx_bytes = 0; tx_bytes = 0 })
      | some row ↦ do
        rx_bytes ← get_i64 row.rx_bytes
        tx_bytes ← get_i64 row.tx_bytes
        ok (record { rx_bytes = i64_to_u64 rx_bytes; tx_bytes = i64_to_u64 tx_bytes })
    ]

-- The loop of `capture_usage_snapshot`: one insert per counter, up to the first that fails. `draw`
-- gives the identifiers, in the order they are drawn.
unfoldable pub capture_rows :
    (ℕ → Text)
    → ℕ
    → ℤ
    → List TrafficCounterRow
    → List UsageSnapshotRow
    → Result DbError (Unit {0}) × List UsageSnapshotRow
capture_rows draw n now [] snapshots = (ok tt, snapshots)
capture_rows draw n now (row ∷ rows) snapshots = elim (get_i64 row.rx_bytes) [
  | err e ↦ (err e, snapshots)
  | ok rx_bytes ↦ elim (get_i64 row.tx_bytes) [
    | err e ↦ (err e, snapshots)
    | ok tx_bytes ↦
        let snapshot : UsageSnapshotRow = record {
          id = draw n;
          scope = row.scope;
          key = row.key;
          rx_bytes = rx_bytes;
          tx_bytes = tx_bytes;
          captured_at = now;
        } in
        let rest = capture_rows draw (suc n) now rows (snapshots ++ snapshot ∷ []) in
        if has_row (λ (r : UsageSnapshotRow). eqb r.id (draw n)) snapshots
        then (err constraint, snapshots)
        else rest
  ]
]

unfoldable pub capture_usage_snapshot : Database → ℤ → (ℕ → Text) → Result DbError ℕ × Database
capture_usage_snapshot db now draw =
    let captured = capture_rows draw 0 now db.traffic_counters db.usage_snapshots in
    (captured.0 >> ok (length db.traffic_counters), record db { usage_snapshots = captured.1 })
