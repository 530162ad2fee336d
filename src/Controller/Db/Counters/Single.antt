-- ===== src/Controller/Db/Counters/Single.antt =====
-- Traffic on a single counter.
use rps.Base.{
  ℕ, ◌+◌, ◌≤◌, ◌≡◌, subst, refl, sym, ◌∙◌, ap, inl, inr, Bool, true, false, ◌&&◌, Option, none,
  some, List, [], ◌∷◌, ◌++◌, if◌then◌else◌, Result, ok, ok_inj, bind-eq-ok, ◌>>=◌, eqb, eqb_refl,
  nat_eq, list_eq, list_beq_iff, arith, Bool-cases, Option-cases, All, All-append,
}
use rps.Base.Int.{ℤ, pos, negsuc}
use rps.Base.Text.{Text}
use rps.Controller.Sql.{
  fetch_optional, has_row, update_where, fetch_optional-append, fetch_optional-append_other,
  fetch_optional-holds, fetch_optional-update_where, fetch_optional-update_where_other,
  has_row-fetch_optional, All-fetch_optional, All-update_where,
}
use rps.Controller.Db.{Database, TrafficCounterRow, TrafficCounter, DbError, Sum, integer, real}
use rps.Controller.Db.Columns.{i64_max, u64_to_i64, i64_to_u64, sql_add, get_i64}
use rps.Controller.Db.Counters.{
  is_counter, set_counter, counter_row, add_traffic_counter, get_traffic_counter,
}

-- A counter starts at zero and only grows, so it is never negative.
abbrev pub is_counting : Sum → Bool
is_counting (integer (pos n)) = true
is_counting (integer (negsuc n)) = false
is_counting real = true

abbrev pub IsCountingRow : TrafficCounterRow → Type 0
IsCountingRow r = (is_counting r.rx_bytes ≡ true) × (is_counting r.tx_bytes ≡ true)

unfoldable pub IsCounting : Database → Type 0
IsCounting db = All IsCountingRow db.traffic_counters

sql_add-is_counting :
    (s : Sum) (n : ℕ) → is_counting s ≡ true → is_counting (sql_add s (u64_to_i64 n)) ≡ true
sql_add-is_counting (integer (pos a)) n h = ground arith
sql_add-is_counting (integer (negsuc a)) n h = absurd (ground arith)
sql_add-is_counting real n h = h

sql_add-amount :
    (s : Sum) (n : ℕ) {a : ℤ}
    → is_counting s ≡ true
    → get_i64 s ≡ ok a
    → i64_to_u64 a + n ≤ i64_max
    → sql_add s (u64_to_i64 n) ≡ integer (pos (i64_to_u64 a + n))
sql_add-amount (integer (pos m)) n {a} c h fits = ground arith
sql_add-amount (integer (negsuc m)) n c h fits = absurd (ground arith)
sql_add-amount real n c h fits = absurd (ground arith)

abbrev pub plus : ℕ → ℕ → TrafficCounter → TrafficCounter
plus rx tx c = record { rx_bytes = c.rx_bytes + rx; tx_bytes = c.tx_bytes + tx }

abbrev read_counter : TrafficCounterRow → Result DbError TrafficCounter
read_counter row = do
  rx_bytes ← get_i64 row.rx_bytes
  tx_bytes ← get_i64 row.tx_bytes
  ok (record { rx_bytes = i64_to_u64 rx_bytes; tx_bytes = i64_to_u64 tx_bytes })

read_counter-set_counter :
    (row : TrafficCounterRow) (rx tx : ℕ) (now : ℤ) {c : TrafficCounter}
    → is_counting row.rx_bytes ≡ true
    → is_counting row.tx_bytes ≡ true
    → read_counter row ≡ ok c
    → c.rx_bytes + rx ≤ i64_max
    → c.tx_bytes + tx ≤ i64_max
    → read_counter (set_counter rx tx now row) ≡ ok (plus rx tx c)
read_counter-set_counter row rx tx now {c} p q h fits_rx fits_tx =
    let (a, got_a, h1) = bind-eq-ok (get_i64 row.rx_bytes) _ h in
    let (b, got_b, h2) = bind-eq-ok (get_i64 row.tx_bytes) _ h1 in
    let same = ok_inj h2 in
    rw
      (
        sql_add-amount row.rx_bytes rx {a = a} p got_a
            (omega (arith, ap (λ (x : TrafficCounter). x.rx_bytes) same)),
        sql_add-amount row.tx_bytes tx {a = b} q got_b
            (omega (arith, ap (λ (x : TrafficCounter). x.tx_bytes) same)),
      )
      (ap (λ (x : TrafficCounter). ok (plus rx tx x)) same)

abbrev counter_changed : Database → ℤ → Text → Text → ℕ → ℕ → List TrafficCounterRow
counter_changed db now scope key rx tx =
    update_where (is_counter scope key) (set_counter rx tx now) db.traffic_counters

pub add_traffic_counter-IsCounting :
    (db : Database) (now : ℤ) (scope key : Text) (rx tx : ℕ)
    → IsCounting db
    → IsCounting (add_traffic_counter db now scope key rx tx)
unfolding IsCounting add_traffic_counter
add_traffic_counter-IsCounting db now scope key rx tx h =
    elim (Bool-cases (has_row (is_counter scope key) db.traffic_counters)) [
      | inl there ↦
          rw (there, if◌then◌else◌)
            (All-update_where IsCountingRow (is_counter scope key) (set_counter rx tx now)
              db.traffic_counters
              (λ r k.
                (sql_add-is_counting r.rx_bytes rx k.0, sql_add-is_counting r.tx_bytes tx k.1))
              h)
      | inr fresh ↦
          rw (fresh, if◌then◌else◌)
            (All-append IsCountingRow db.traffic_counters (counter_row scope key rx tx now) h
              (refl, refl))
    ]

-- Whether two counters are the same.
abbrev pub same_counter : Text → Text → Text → Text → Bool
same_counter scope key s k = eqb scope s && eqb key k

abbrev rows_after : Database → ℤ → Text → Text → ℕ → ℕ → List TrafficCounterRow
rows_after db now scope key rx tx =
    if has_row (is_counter scope key) db.traffic_counters
    then counter_changed db now scope key rx tx
    else db.traffic_counters ++ counter_row scope key rx tx now ∷ []

fetch-rows_after :
    (db : Database) (now : ℤ) (scope key : Text) (rx tx : ℕ)
    → fetch_optional (is_counter scope key) (rows_after db now scope key rx tx)
      ≡ elim (fetch_optional (is_counter scope key) db.traffic_counters) [
        | none ↦ some (counter_row scope key rx tx now)
        | some row ↦ some (set_counter rx tx now row)
      ]
fetch-rows_after db now scope key rx tx =
    let known = has_row-fetch_optional (is_counter scope key) db.traffic_counters in
    elim (Option-cases (fetch_optional (is_counter scope key) db.traffic_counters)) [
      | inl absent ↦
          let free : has_row (is_counter scope key) db.traffic_counters ≡ false =
            rw (absent) at known in
          rw (free, absent)
            (rw
              (fetch_optional-append (is_counter scope key) db.traffic_counters
                (counter_row scope key rx tx now) free)
              (rw (eqb_refl scope, eqb_refl key) refl))
      | inr (row, found) ↦
          let there : has_row (is_counter scope key) db.traffic_counters ≡ true =
            rw (found) at known in
          let it =
            fetch_optional-holds (is_counter scope key) db.traffic_counters {r = row} found in
          rw (there, found)
            (rw
              (fetch_optional-update_where (is_counter scope key) (is_counter scope key)
                (set_counter rx tx now) db.traffic_counters (λ r. refl))
              (rw found (rw it refl)))
    ]

fetch-rows_after_other :
    (db : Database) (now : ℤ) (scope key s k : Text) (rx tx : ℕ)
    → same_counter scope key s k ≡ false
    → fetch_optional (is_counter s k) (rows_after db now scope key rx tx)
      ≡ fetch_optional (is_counter s k) db.traffic_counters
fetch-rows_after_other db now scope key s k rx tx ne =
    elim (Bool-cases (has_row (is_counter scope key) db.traffic_counters)) [
      | inl there ↦ rw there (
          fetch_optional-update_where_other (is_counter s k) (is_counter scope key)
            (set_counter rx tx now) db.traffic_counters (λ r. refl)
            (λ r e. ground (
              arith,
              list_beq_iff r.scope s,
              list_beq_iff r.scope scope,
              list_beq_iff scope s,
              list_beq_iff r.key k,
              list_beq_iff r.key key,
              list_beq_iff key k,
            )))
      | inr fresh ↦ rw fresh (
          fetch_optional-append_other (is_counter s k) db.traffic_counters
            (counter_row scope key rx tx now) ne)
    ]

abbrev read_found : Option TrafficCounterRow → Result DbError TrafficCounter
read_found none = ok (record { rx_bytes = 0; tx_bytes = 0 })
read_found (some row) = read_counter row

get_traffic_counter_eq :
    (db : Database) (s k : Text)
    → get_traffic_counter db s k ≡ read_found (fetch_optional (is_counter s k) db.traffic_counters)
unfolding get_traffic_counter
get_traffic_counter_eq db s k = refl

get-add_traffic_counter :
    (db : Database) (now : ℤ) (scope key s k : Text) (rx tx : ℕ)
    → get_traffic_counter (add_traffic_counter db now scope key rx tx) s k
      ≡ read_found (fetch_optional (is_counter s k) (rows_after db now scope key rx tx))
unfolding get_traffic_counter add_traffic_counter
get-add_traffic_counter db now scope key s k rx tx = refl

counter_row-read :
    (scope key : Text) (rx tx : ℕ) (now : ℤ) {c : TrafficCounter}
    → read_found none ≡ ok c
    → c.rx_bytes + rx ≤ i64_max
    → c.tx_bytes + tx ≤ i64_max
    → read_counter (counter_row scope key rx tx now) ≡ ok (plus rx tx c)
counter_row-read scope key rx tx now {c} h fits_rx fits_tx = ground arith

add_same_counter :
    (db : Database) (now : ℤ) (scope key : Text) (rx tx : ℕ) {c : TrafficCounter}
    → IsCounting db
    → get_traffic_counter db scope key ≡ ok c
    → c.rx_bytes + rx ≤ i64_max
    → c.tx_bytes + tx ≤ i64_max
    → get_traffic_counter (add_traffic_counter db now scope key rx tx) scope key ≡ ok (plus rx tx c)
unfolding IsCounting
add_same_counter db now scope key rx tx {c} counting h fits_rx fits_tx =
    let before = sym (get_traffic_counter_eq db scope key) ∙ h in
    get-add_traffic_counter db now scope key scope key rx tx
    ∙ ap read_found (fetch-rows_after db now scope key rx tx)
    ∙ elim (Option-cases (fetch_optional (is_counter scope key) db.traffic_counters)) [
      | inl absent ↦
          rw absent
            (counter_row-read scope key rx tx now {c = c} (rw absent at before) fits_rx fits_tx)
      | inr (row, found) ↦
          let (p, q) =
            All-fetch_optional IsCountingRow (is_counter scope key) db.traffic_counters {r = row}
              counting found in
          rw found (
            read_counter-set_counter row rx tx now {c = c} p q (rw found at before) fits_rx fits_tx)
    ]

-- Traffic on one counter: that counter grows by it and the others keep what they have.
pub add_traffic_counter_lem :
    (db : Database) (now : ℤ) (scope key s k : Text) (rx tx : ℕ) {c : TrafficCounter}
    → IsCounting db
    → get_traffic_counter db s k ≡ ok c
    → (same_counter scope key s k ≡ true
        → (c.rx_bytes + rx ≤ i64_max) × (c.tx_bytes + tx ≤ i64_max))
    → get_traffic_counter (add_traffic_counter db now scope key rx tx) s k
      ≡ ok (if same_counter scope key s k then plus rx tx c else c)
add_traffic_counter_lem db now scope key s k rx tx {c} counting h fits =
    elim (Bool-cases (same_counter scope key s k)) [
      | inr other ↦ rw other (
          get-add_traffic_counter db now scope key s k rx tx
          ∙ ap read_found (fetch-rows_after_other db now scope key s k rx tx other)
          ∙ sym (get_traffic_counter_eq db s k)
          ∙ h)
      | inl same ↦
          let (e, f) : (scope ≡ s) × (key ≡ k) =
            ground (arith, list_beq_iff scope s, list_beq_iff key k) in
          let (fits_rx, fits_tx) = fits same in
          rw same (
            subst
              (λ (x : Text × Text).
                get_traffic_counter (add_traffic_counter db now scope key rx tx) x.0 x.1
                ≡ ok (plus rx tx c))
              (ground arith)
              (add_same_counter db now scope key rx tx {c = c} counting (rw (sym e, sym f) at h)
                fits_rx fits_tx))
    ]
