-- ===== src/Controller/Tests/Migration.antt =====
-- The theorem on the migration of the clients, at an old table of one client and an interruption after
-- the old table was renamed.
use rps.Base.{◌≡◌, none, some, List, [], ◌∷◌, if◌then◌else◌}
use rps.Base.Int.{pos}
use rps.Base.Text.{text}
use rps.Controller.Db.{ClientRow}
use rps.Controller.Db.Migration.{LegacyClientRow, current, migrate_until, migrate}
use rps.Controller.Db.Migration.Interrupted.{of_old, CanMove, is_lost, migrate-interrupted}

abbrev old_client : LegacyClientRow
old_client = record {
  id = text "a";
  psk = none;
  vkey = some (text "s");
  enabled = pos 1;
  remark = none;
  max_connections = none;
  compress = pos 0;
  encrypt = pos 1;
  created_at = pos 1;
  updated_at = pos 1;
}

migrate-interrupted_example :
    ((moves : List ClientRow)
      → CanMove (old_client ∷ []) [] moves
      → (migrate (of_old (old_client ∷ []))).clients ≡ some (current moves))
    × ((migrate (migrate_until 3 (of_old (old_client ∷ [])))).clients
        ≡ (if is_lost 3 then some (current []) else (migrate (of_old (old_client ∷ []))).clients))
migrate-interrupted_example = migrate-interrupted (old_client ∷ []) 3
