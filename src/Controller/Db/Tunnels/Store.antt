-- ===== src/Controller/Db/Tunnels/Store.antt =====
-- What is stored of a tunnel, and what the statements leave alone.
use rps.Base.{
  ℕ, ◌≡◌, refl, ◌∙◌, ap, ◌↔◌, inl, inr, true, false, Option, none, some, [], ◌∷◌, ◌++◌,
  if◌then◌else◌, ok, err, ok_inj, bind-eq-ok, eqb, eqb_refl, nat_eq, list_eq, list_beq_iff, arith,
  Option-cases, min,
}
use rps.Base.Int.{ℤ}
use rps.Base.Text.{Text, text}
use rps.Controller.Sql.{
  fetch_optional, has_row, update_where, fetch_optional-append, fetch_optional-append_other,
  fetch_optional-holds, fetch_optional-update_where, fetch_optional-update_where_other,
  fetch_optional-delete_where, fetch_optional-delete_where_other, count_where-fetch_optional,
  count_where-positive,
}
use rps.Controller.Db.{Database, TunnelRow, DbTunnel, NewTunnel, UpdateTunnel, constraint}
use rps.Controller.Db.Columns.{
  map_option, i64_to_u64, u64_to_i64, bool_round_trip, str_to_tunnel_mode,
  str_to_tunnel_mode-tunnel_mode_to_str, i64_max, transpose, get_i64,
}
use rps.Controller.Db.Tunnels.{
  row_to_tunnel, has_id, tunnel_row, set_tunnel, set_disabled, get_tunnel, create_tunnel,
  update_tunnel, delete_tunnel, disable_tunnel,
}

-- What is left of a limit in a column of 63 bits.
abbrev pub clamped : Option ℕ → Option ℕ
clamped limit = map_option (λ n. min n i64_max) limit

pub clamp_round_trip : (o : Option ℕ) → map_option i64_to_u64 (map_option u64_to_i64 o) ≡ clamped o
clamp_round_trip none = refl
clamp_round_trip (some n) = refl

abbrev pub created : NewTunnel → DbTunnel
created input = record {
  id = input.id;
  client_id = input.client_id;
  mode = input.mode;
  listen = input.listen;
  target = input.target;
  enabled = input.enabled;
  expires_at = input.expires_at;
  traffic_limit_bytes = clamped input.traffic_limit_bytes;
  rx_bytes = 0;
  tx_bytes = 0;
  disabled_reason = none;
}

row_to_tunnel-tunnel_row :
    (input : NewTunnel) (now : ℤ) → row_to_tunnel (tunnel_row input now) ≡ ok (created input)
unfolding row_to_tunnel
row_to_tunnel-tunnel_row input now =
    rw
      (
        str_to_tunnel_mode-tunnel_mode_to_str input.mode,
        bool_round_trip input.enabled,
        clamp_round_trip input.traffic_limit_bytes,
      )
      refl

abbrev inserted : Database → ℤ → NewTunnel → Database
inserted db now input = record db { tunnels = db.tunnels ++ tunnel_row input now ∷ [] }

get_tunnel-inserted :
    (db : Database) (now : ℤ) (input : NewTunnel)
    → has_row (has_id input.id) db.tunnels ≡ false
    → get_tunnel (inserted db now input) input.id ≡ ok (some (created input))
unfolding get_tunnel
get_tunnel-inserted db now input absent =
    rw (fetch_optional-append (has_id input.id) db.tunnels (tunnel_row input now) absent)
      (rw (eqb_refl input.id) (rw (row_to_tunnel-tunnel_row input now) refl))

get_tunnel-inserted_other :
    (db : Database) (now : ℤ) (input : NewTunnel) (id : Text)
    → eqb input.id id ≡ false
    → get_tunnel (inserted db now input) id ≡ get_tunnel db id
unfolding get_tunnel
get_tunnel-inserted_other db now input id other =
    ap (transpose row_to_tunnel)
      (fetch_optional-append_other (has_id id) db.tunnels (tunnel_row input now) other)

-- A tunnel is created exactly if its id is not taken. It is then read back as it was given, but for
-- a limit past 63 bits, which becomes the largest one, and with no traffic; no other tunnel is read
-- differently. Otherwise nothing changes.
pub create_tunnel_lem :
    (db : Database) (now : ℤ) (input : NewTunnel)
    → let attempt = create_tunnel db now input in
      (has_row (has_id input.id) db.tunnels ≡ true → attempt ≡ (err constraint, db))
      × (has_row (has_id input.id) db.tunnels ≡ false
          → (attempt.0 ≡ ok (created input))
            × (get_tunnel attempt.1 input.id ≡ ok (some (created input)))
            × ((id : Text) → eqb input.id id ≡ false → get_tunnel attempt.1 id ≡ get_tunnel db id))
unfolding create_tunnel
create_tunnel_lem db now input = (
  λ clash. ground arith,
  λ free.
      let read = get_tunnel-inserted db now input free in
      (
        rw (free, create_tunnel) (rw read refl),
        rw (free, create_tunnel) read,
        λ id other. rw (free, create_tunnel) (get_tunnel-inserted_other db now input id other),
      ),
)

-- An update by `f` of the row with the id.
abbrev pub changed : Database → Text → (TunnelRow → TunnelRow) → Database
changed db id f = record db { tunnels = update_where (has_id id) f db.tunnels }

pub get_tunnel-changed :
    (db : Database) (id : Text) (f : TunnelRow → TunnelRow)
    → ((r : TunnelRow) → (f r).id ≡ r.id)
    → {row : TunnelRow} → fetch_optional (has_id id) db.tunnels ≡ some row
    → get_tunnel (changed db id f) id ≡ transpose row_to_tunnel (some (f row))
unfolding get_tunnel
get_tunnel-changed db id f keeps {row} found =
    let it = fetch_optional-holds (has_id id) db.tunnels {r = row} found in
    rw
      (fetch_optional-update_where (has_id id) (has_id id) f db.tunnels
        (λ r. ap (λ (i : Text). eqb i id) (keeps r)))
      (rw found (rw it refl))

pub get_tunnel-changed_other :
    (db : Database) (id other : Text) (f : TunnelRow → TunnelRow)
    → ((r : TunnelRow) → (f r).id ≡ r.id)
    → eqb id other ≡ false
    → get_tunnel (changed db id f) other ≡ get_tunnel db other
unfolding get_tunnel
get_tunnel-changed_other db id other f keeps h = ap (transpose row_to_tunnel) (
    fetch_optional-update_where_other (has_id other) (has_id id) f db.tunnels
      (λ r. ap (λ (i : Text). eqb i other) (keeps r))
      (λ r e. ground (arith, list_beq_iff r.id id, list_beq_iff r.id other, list_beq_iff id other)))

abbrev pub disabled : Text → DbTunnel → DbTunnel
disabled reason t = record t { enabled = false; disabled_reason = some reason }

row_to_tunnel-set_disabled :
    (row : TunnelRow) (now : ℤ) (reason : Text) {t : DbTunnel}
    → row_to_tunnel row ≡ ok t
    → row_to_tunnel (set_disabled reason now row) ≡ ok (disabled reason t)
unfolding row_to_tunnel
row_to_tunnel-set_disabled row now reason {t} h =
    let (rx, got_rx, h1) = bind-eq-ok (get_i64 row.rx_bytes) _ h in
    let (tx, got_tx, h2) = bind-eq-ok (get_i64 row.tx_bytes) _ h1 in
    let (mode, got_mode, h3) = bind-eq-ok (str_to_tunnel_mode row.mode) _ h2 in
    rw (got_rx, got_tx, got_mode) (ap ok (ap (disabled reason) (ok_inj h3)))

abbrev pub updated : UpdateTunnel → DbTunnel → DbTunnel
updated input t = record t {
  client_id = input.client_id;
  mode = input.mode;
  listen = input.listen;
  target = input.target;
  enabled = input.enabled;
  expires_at = input.expires_at;
  traffic_limit_bytes = clamped input.traffic_limit_bytes;
  disabled_reason = if input.enabled then none else some (text "manual");
}

row_to_tunnel-set_tunnel :
    (row : TunnelRow) (now : ℤ) (input : UpdateTunnel) {t : DbTunnel}
    → row_to_tunnel row ≡ ok t
    → row_to_tunnel (set_tunnel input now row) ≡ ok (updated input t)
unfolding row_to_tunnel
row_to_tunnel-set_tunnel row now input {t} h =
    let (rx, got_rx, h1) = bind-eq-ok (get_i64 row.rx_bytes) _ h in
    let (tx, got_tx, h2) = bind-eq-ok (get_i64 row.tx_bytes) _ h1 in
    let (mode, got_mode, h3) = bind-eq-ok (str_to_tunnel_mode row.mode) _ h2 in
    rw
      (
        got_rx,
        got_tx,
        str_to_tunnel_mode-tunnel_mode_to_str input.mode,
        bool_round_trip input.enabled,
        clamp_round_trip input.traffic_limit_bytes,
      )
      (ap ok (ap (updated input) (ok_inj h3)))

pub get_tunnel-found :
    (db : Database) (id : Text) {t : DbTunnel}
    → get_tunnel db id ≡ ok (some t)
    → (row : TunnelRow) × (fetch_optional (has_id id) db.tunnels ≡ some row)
      × (row_to_tunnel row ≡ ok t)
unfolding get_tunnel
get_tunnel-found db id {t} h = elim (Option-cases (fetch_optional (has_id id) db.tunnels)) [
  | inl absent ↦ absurd (ground arith)
  | inr (row, found) ↦
      let h' = rw (found, transpose) at h in
      let (t', read, same) = bind-eq-ok (row_to_tunnel row) _ h' in (row, found, ground arith)
]

pub get_tunnel-absent :
    (db : Database) (id : Text)
    → get_tunnel db id ≡ ok none
    → fetch_optional (has_id id) db.tunnels ≡ none
unfolding get_tunnel
get_tunnel-absent db id h = elim (Option-cases (fetch_optional (has_id id) db.tunnels)) [
  | inl absent ↦ absent
  | inr (row, found) ↦
      let h' = rw (found, transpose) at h in
      let (t', read, same) = bind-eq-ok (row_to_tunnel row) _ h' in absurd (ground arith)
]

-- An update of a tunnel that is there gives it the new fields, with the reason "manual" exactly if
-- it is disabled by them, and keeps its traffic; of a tunnel that is not there it gives `none` and
-- changes nothing. No other tunnel is read differently.
pub update_tunnel_lem :
    (db : Database) (now : ℤ) (id : Text) (input : UpdateTunnel)
    → let attempt = update_tunnel db now id input in
      (get_tunnel db id ≡ ok none → attempt ≡ (ok none, db))
      × ((t : DbTunnel)
          → get_tunnel db id ≡ ok (some t)
          → (attempt.0 ≡ ok (some (updated input t)))
            × (get_tunnel attempt.1 id ≡ ok (some (updated input t))))
      × ((other : Text) → eqb id other ≡ false → get_tunnel attempt.1 other ≡ get_tunnel db other)
unfolding update_tunnel
update_tunnel_lem db now id input = (
  λ h.
      ground (arith, count_where-fetch_optional (has_id id) db.tunnels (get_tunnel-absent db id h)),
  λ t h.
      let (row, found, read) = get_tunnel-found db id {t = t} h in
      let back = get_tunnel-changed db id (set_tunnel input now) (λ r. refl) {row = row} found in
      let e = row_to_tunnel-set_tunnel row now input {t = t} read in
      ground (arith, count_where-positive (has_id id) db.tunnels {r = row} found),
  λ other ne.
      ground (arith, get_tunnel-changed_other db id other (set_tunnel input now) (λ r. refl) ne),
)

-- A tunnel that is disabled is read back disabled, with the reason, and otherwise as before; no
-- other tunnel is read differently.
pub disable_tunnel_lem :
    (db : Database) (now : ℤ) (id reason : Text)
    → ((t : DbTunnel)
        → get_tunnel db id ≡ ok (some t)
        → get_tunnel (disable_tunnel db now id reason) id ≡ ok (some (disabled reason t)))
      × ((other : Text)
          → eqb id other ≡ false
          → get_tunnel (disable_tunnel db now id reason) other ≡ get_tunnel db other)
unfolding disable_tunnel
disable_tunnel_lem db now id reason = (
  λ t h.
      let (row, found, read) = get_tunnel-found db id {t = t} h in
      get_tunnel-changed db id (set_disabled reason now) (λ r. refl) {row = row} found
      ∙ rw (row_to_tunnel-set_disabled row now reason {t = t} read, transpose) refl,
  λ other ne. get_tunnel-changed_other db id other (set_disabled reason now) (λ r. refl) ne,
)

-- A deleted tunnel is not found any more, the answer is false exactly if there was none, and no other
-- tunnel is read differently.
pub delete_tunnel_lem :
    (db : Database) (id : Text)
    → let deleted = delete_tunnel db id in
      ((deleted.0 ≡ false) ↔ (get_tunnel db id ≡ ok none))
      × (get_tunnel deleted.1 id ≡ ok none)
      × ((other : Text) → eqb id other ≡ false → get_tunnel deleted.1 other ≡ get_tunnel db other)
unfolding delete_tunnel
delete_tunnel_lem db id = (
  elim (Option-cases (fetch_optional (has_id id) db.tunnels)) [
    | inl absent ↦
        let missing : get_tunnel db id ≡ ok none =
          unfold get_tunnel in rw (absent, transpose) refl in
        ground (arith, count_where-fetch_optional (has_id id) db.tunnels absent)
    | inr (row, found) ↦
        let hit = count_where-positive (has_id id) db.tunnels {r = row} found in
        (
          λ e. absurd (ground arith),
          λ e. let absent = get_tunnel-absent db id e in absurd (ground arith),
        )
  ],
  unfold get_tunnel in
      ap (transpose row_to_tunnel) (fetch_optional-delete_where (has_id id) db.tunnels),
  λ other ne.
      unfold get_tunnel in
      ap (transpose row_to_tunnel) (
        fetch_optional-delete_where_other (has_id other) (has_id id) db.tunnels (λ r e.
          ground (arith, list_beq_iff r.id id, list_beq_iff r.id other, list_beq_iff id other))),
)
