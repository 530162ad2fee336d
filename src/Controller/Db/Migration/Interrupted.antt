-- ===== src/Controller/Db/Migration/Interrupted.antt =====
-- What a migration of the clients gives, and what an interruption does to it.
use rps.Base.{
  ◌≡◌, refl, ◌∙◌, sym, ap, ℕ, zero, suc, Bool, false, ◌||◌, ◌==◌, none, some, List, [], ◌∷◌, ◌++◌,
  if◌then◌else◌, eqb, nat_eq, list_eq, arith,
}
use mathlib.Core.List.{append_assoc, append-nil}
use rps.Base.Text.{Text}
use rps.Controller.Sql.{has_row}
use rps.Controller.Db.{ClientRow}
use rps.Controller.Db.Migration.{
  LegacyClientRow, legacy, current, ClientTables, secret_of, moved, copy_rows, execute, execute_all,
  migrate_until, migrate,
}

abbrev pub of_old : List LegacyClientRow → ClientTables
of_old rows = record { clients = some (legacy rows); clients_legacy = none }

-- Each row has a secret, and no two have an id or a secret in common; `taken` are rows before them.
pub CanMove : List LegacyClientRow → List ClientRow → List ClientRow → Type 0
CanMove [] taken moves = moves ≡ []
CanMove (row ∷ rest) taken moves =
    (psk : Text) × (others : List ClientRow) × (secret_of row ≡ some psk)
    × (has_row (λ (r : ClientRow). eqb r.id row.id || eqb r.psk psk) taken ≡ false)
    × (moves ≡ moved row psk ∷ others)
    × CanMove rest (taken ++ moved row psk ∷ []) others

copy_rows-all :
    (rows : List LegacyClientRow) (taken moves : List ClientRow)
    → CanMove rows taken moves
    → copy_rows rows taken ≡ taken ++ moves
unfolding copy_rows CanMove
copy_rows-all [] taken moves e = rw e (sym (append-nil taken))
copy_rows-all (row ∷ rest) taken moves (psk, others, s, free, e, more) =
    rw (s, free, e, copy_rows, if◌then◌else◌)
      (copy_rows-all rest (taken ++ moved row psk ∷ []) others more
        ∙ append_assoc taken (moved row psk ∷ []) others)

abbrev pub is_lost : ℕ → Bool
is_lost n = n == 3 || n == 4

interrupted :
    (rows : List LegacyClientRow) (n : ℕ)
    → (migrate (migrate_until n (of_old rows))).clients
      ≡ (if is_lost n then some (current []) else (migrate (of_old rows)).clients)
unfolding migrate migrate_until execute_all execute
interrupted rows zero = refl
interrupted rows (suc zero) = refl
interrupted rows (suc (suc zero)) = refl
interrupted rows (suc (suc (suc zero))) = refl
interrupted rows (suc (suc (suc (suc zero)))) = refl
interrupted rows (suc (suc (suc (suc (suc zero))))) = refl
interrupted rows (suc (suc (suc (suc (suc (suc zero)))))) = refl
interrupted rows (suc (suc (suc (suc (suc (suc (suc n))))))) = ground arith

-- An old table whose rows all have secrets of their own is taken over whole and in order. A migration
-- that is interrupted and started again gives the same as one that is not, except after the third and
-- after the fourth of its statements: then the new table is empty, and stays so.
pub migrate-interrupted :
    (rows : List LegacyClientRow) (n : ℕ)
    → ((moves : List ClientRow)
        → CanMove rows [] moves
        → (migrate (of_old rows)).clients ≡ some (current moves))
      × ((migrate (migrate_until n (of_old rows))).clients
          ≡ (if is_lost n then some (current []) else (migrate (of_old rows)).clients))
unfolding migrate migrate_until execute_all execute
migrate-interrupted rows n =
    (λ moves h. ap (λ rs. some (current rs)) (copy_rows-all rows [] moves h), interrupted rows n)
