-- ===== src/Controller/Db/Migration.antt =====
-- crates/rps-controller/src/db.rs: `migrate_clients_psk`, which copies the clients of an old database,
-- whose secrets stand in a column `vkey`, into a table of the new form. Each statement is executed by
-- itself, so that an interruption may fall between any two. The two tables that take part are
-- modelled; a column `psk` that is not there reads as null.
pub mod Interrupted
use rps.Base.{
  ℕ, Bool, true, false, ◌&&◌, ◌||◌, Option, none, some, List, [], ◌∷◌, ◌++◌, if◌then◌else◌, eqb,
  nat_eq, list_eq, take,
}
use rps.Base.Int.{ℤ}
use rps.Base.Text.{Text}
use rps.Controller.Sql.{has_row}
use rps.Controller.Db.{ClientRow}

pub record LegacyClientRow : Type 0 where
  pub id : Text
  pub psk : Option Text
  pub vkey : Option Text
  pub enabled : ℤ
  pub remark : Option Text
  pub max_connections : Option ℤ
  pub compress : ℤ
  pub encrypt : ℤ
  pub created_at : ℤ
  pub updated_at : ℤ

pub data ClientTable : Type 0 where
  legacy : List LegacyClientRow → ClientTable
  current : List ClientRow → ClientTable

pub record ClientTables : Type 0 where
  pub clients : Option ClientTable
  pub clients_legacy : Option ClientTable

abbrev pub nullif_blank : Option Text → Option Text
nullif_blank none = none
nullif_blank (some []) = none
nullif_blank (some (c ∷ s)) = some (c ∷ s)

abbrev pub coalesce : Option Text → Option Text → Option Text
coalesce none other = other
coalesce (some value) other = some value

-- The secret that is taken over, if it is not null or empty.
unfoldable pub secret_of : LegacyClientRow → Option Text
secret_of row = nullif_blank (coalesce (nullif_blank row.psk) row.vkey)

abbrev pub moved : LegacyClientRow → Text → ClientRow
moved row psk = record {
  id = row.id;
  psk = psk;
  enabled = row.enabled;
  remark = row.remark;
  max_connections = row.max_connections;
  compress = row.compress;
  encrypt = row.encrypt;
  created_at = row.created_at;
  updated_at = row.updated_at;
}

-- `insert or ignore into clients select .. from clients_legacy where ..`
unfoldable pub copy_rows : List LegacyClientRow → List ClientRow → List ClientRow
copy_rows [] rows = rows
copy_rows (row ∷ rest) rows = elim (secret_of row) [
  | none ↦ copy_rows rest rows
  | some psk ↦ copy_rows rest (
      if has_row (λ (r : ClientRow). eqb r.id row.id || eqb r.psk psk) rows
      then rows
      else rows ++ moved row psk ∷ [])
]

-- `clients_new` is dropped where it exists; nothing makes one.
pub data Statement : Type 0 where
  drop_new drop_stale rename_clients create_clients copy_clients drop_legacy : Statement

abbrev copied : Option ClientTable → Option ClientTable → Option ClientTable
copied (some (legacy old)) (some (current rows)) = some (current (copy_rows old rows))
copied _ clients = clients

unfoldable pub execute : Statement → ClientTables → ClientTables
execute drop_new t = t
execute drop_stale t = record t { clients_legacy = none }
execute rename_clients t = record { clients = none; clients_legacy = t.clients }
execute create_clients t = record t { clients = some (current []) }
execute copy_clients t = record t { clients = copied t.clients_legacy t.clients }
execute drop_legacy t = record t { clients_legacy = none }

unfoldable pub execute_all : List Statement → ClientTables → ClientTables
execute_all [] t = t
execute_all (statement ∷ rest) t = execute_all rest (execute statement t)

abbrev pub statements : List Statement
statements =
    drop_new ∷ drop_stale ∷ rename_clients ∷ create_clients ∷ copy_clients ∷ drop_legacy ∷ []

-- `create table if not exists clients`
abbrev pub ensure_clients : ClientTables → ClientTables
ensure_clients t = elim t.clients [
  | none ↦ record t { clients = some (current []) }
  | some table ↦ t
]

abbrev pub has_vkey : Option ClientTable → Bool
has_vkey (some (legacy rows)) = true
has_vkey _ = false

-- `migrate`, as far as it concerns the clients, up to the given number of the statements.
unfoldable pub migrate_until : ℕ → ClientTables → ClientTables
migrate_until n t =
    let there = ensure_clients t in
    if has_vkey there.clients then execute_all (take n statements) there else there

unfoldable pub migrate : ClientTables → ClientTables
migrate t = migrate_until 6 t
