-- ===== src/Controller/Tests/Ledger.antt =====
-- The theorems on logins, counters, sessions and traffic, at concrete inputs.
use rps.Base.{◌≡◌, refl, true, false, none, some, [], ◌∷◌, ok, ◌+◌, arith, eqb, nat_eq, list_eq}
use rps.Base.Int.{pos}
use rps.Base.Text.{Text, text}
use rps.Controller.Sql.{fetch_optional, has_row, update_where}
use rps.Controller.Db.{Database, empty, NewProxyAccount, DbProxyAccount, TrafficCounter}
use rps.Controller.Db.Columns.{validate_proxy_kind}
use rps.Controller.Db.ProxyAccounts.{
  create_proxy_account, disable_proxy_account, find_enabled_proxy_account, row_to_proxy_account,
}
use rps.Controller.Db.Counters.{add_traffic, get_traffic_counter}
use rps.Controller.Db.Counters.Single.{IsCounting, plus}
use rps.Controller.Db.Counters.Sums.{add_traffic_lem}
use rps.Controller.Db.Sessions.{record_agent_connected, record_agent_disconnected}
use rps.Controller.Db.Sessions.Online.{online_row, row_or_fresh, online_lem}
use rps.Controller.Traffic.{TrafficState, event, tick, run}
use rps.Controller.Traffic.Balance.{owed, queued, rx_of, tx_of}
use rps.Controller.Traffic.Conserved.{traffic_conserved}

abbrev alice : NewProxyAccount
alice = record {
  id = text "7";
  kind = text "socks5";
  client_id = text "a";
  username = text "alice";
  password = text "pw";
  enabled = true;
  remark = none;
  expires_at = none;
  traffic_limit_bytes = none;
}

abbrev with_alice : Database
with_alice = (create_proxy_account empty (pos 1) alice).1

abbrev alice_account : DbProxyAccount
alice_account = record {
  id = text "7";
  kind = text "socks5";
  client_id = text "a";
  username = text "alice";
  password = text "pw";
  enabled = true;
  remark = none;
  expires_at = none;
  traffic_limit_bytes = none;
  rx_bytes = 0;
  tx_bytes = 0;
  disabled_reason = none;
}

alice_logs_in :
    find_enabled_proxy_account with_alice (text "socks5") (text "alice") (text "pw")
    ≡ ok (some alice_account)
alice_logs_in =
    unfold find_enabled_proxy_account create_proxy_account validate_proxy_kind has_row
      fetch_optional row_to_proxy_account in
    refl

-- Another account is disabled; alice still logs in.
alice_still_logs_in :
    find_enabled_proxy_account
      (disable_proxy_account with_alice (pos 2) (text "8") (text "expired"))
      (text "socks5")
      (text "alice")
      (text "pw")
    ≡ ok (some alice_account)
alice_still_logs_in =
    unfold find_enabled_proxy_account create_proxy_account disable_proxy_account validate_proxy_kind
      has_row fetch_optional update_where row_to_proxy_account in
    refl

abbrev no_traffic : TrafficCounter
no_traffic = record { rx_bytes = 0; tx_bytes = 0 }

empty_reads : get_traffic_counter empty (text "client") (text "a") ≡ ok no_traffic
empty_reads = unfold get_traffic_counter fetch_optional in refl

empty-IsCounting : IsCounting empty
empty-IsCounting = unfold IsCounting in tt

add_traffic_lem_example :
    get_traffic_counter
      (add_traffic empty (pos 1) (text "a") (text "web") 3 4)
      (text "client")
      (text "a")
    ≡ ok (plus 3 4 no_traffic)
add_traffic_lem_example =
    add_traffic_lem empty (pos 1) (text "a") (text "web") (text "client") (text "a") 3 4
      {c = no_traffic} empty-IsCounting empty_reads (λ _. (omega arith, omega arith))

online_lem_example :
    let connected =
      (record_agent_connected empty (pos 1) (text "1") (text "a") (text "data") (text "r")).1 in
    let disconnected = record_agent_disconnected empty (pos 1) (text "1") (text "a") in
    let before = row_or_fresh (text "a") (online_row empty (text "a")) in
    (online_row connected (text "a")
      ≡ some (record {
        client_id = before.client_id;
        online = pos 1;
        control_connected_at = before.control_connected_at;
        data_connected_at = some (pos 1);
        last_seen = some (pos 1);
      }))
    × (online_row disconnected (text "a")
        ≡ some (record {
          client_id = before.client_id;
          online = pos 0;
          control_connected_at = before.control_connected_at;
          data_connected_at = before.data_connected_at;
          last_seen = some (pos 1);
        }))
    × ((other : Text)
        → eqb (text "a") other ≡ false
        → (online_row connected other ≡ online_row empty other)
          × (online_row disconnected other ≡ online_row empty other))
online_lem_example =
    online_lem empty (pos 1) (text "1") (text "a") (text "data") (text "r") (unfold has_row in refl)

abbrev busy : TrafficState
busy = record {
  queue = record { client_id = text "a"; tunnel_id = text "web"; rx_bytes = 3; tx_bytes = 4 } ∷ [];
  pending = ((text "a", text "web"), (5, 6)) ∷ [];
  db = empty;
}

abbrev busy_later : TrafficState
busy_later = run (λ _ _. none) busy ((pos 1, tick) ∷ (pos 2, event) ∷ [])

traffic_conserved_example :
    (c' : TrafficCounter) × (get_traffic_counter busy_later.db (text "client") (text "a") ≡ ok c')
    × (c'.rx_bytes
          + owed rx_of (text "client") (text "a") busy_later.pending
          + queued rx_of (text "client") (text "a") busy_later.queue
        ≡ 0
          + owed rx_of (text "client") (text "a") busy.pending
          + queued rx_of (text "client") (text "a") busy.queue)
    × (c'.tx_bytes
          + owed tx_of (text "client") (text "a") busy_later.pending
          + queued tx_of (text "client") (text "a") busy_later.queue
        ≡ 0
          + owed tx_of (text "client") (text "a") busy.pending
          + queued tx_of (text "client") (text "a") busy.queue)
traffic_conserved_example =
    traffic_conserved (λ _ _. none) (text "client") (text "a") busy
      ((pos 1, tick) ∷ (pos 2, event) ∷ []) no_traffic (λ _ _. refl) empty-IsCounting empty_reads
      (unfold owed queued in omega arith) (unfold owed queued in omega arith)
