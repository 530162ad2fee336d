-- ===== src/Controller/Db/Tunnels/Refinement.antt =====
-- The table of tunnels as its callers see it: a function from ids to tunnels.
use rps.Base.{
  ◌≡◌, refl, ◌∙◌, ap, inl, inr, Bool, true, false, Option, none, some, List, [], ◌∷◌, if◌then◌else◌,
  Result, ok, err, eqb, nat_eq, list_eq, list_beq_iff, arith, Option-cases, Bool-cases,
}
use rps.Base.Int.{ℤ}
use rps.Base.Text.{Text}
use rps.Controller.Sql.{fetch_optional-update_where, has_row, has_row-fetch_optional}
use rps.Controller.Db.{Database, DbError, DbTunnel, NewTunnel, UpdateTunnel, constraint}
use rps.Controller.Db.Columns.{transpose}
use rps.Controller.Db.Tunnels.{
  has_id, get_tunnel, create_tunnel, update_tunnel, delete_tunnel, disable_tunnel, set_disabled,
}
use rps.Controller.Db.Tunnels.Store.{
  created, updated, disabled, create_tunnel_lem, update_tunnel_lem, delete_tunnel_lem,
  disable_tunnel_lem, get_tunnel-found, get_tunnel-absent,
}

pub data Op : Type 0 where
  create : NewTunnel → Op
  update : Text → UpdateTunnel → Op
  disable : Text → Text → Op
  delete : Text → Op

pub data Answer : Type 0 where
  creates : Result DbError DbTunnel → Answer
  updates : Result DbError (Option DbTunnel) → Answer
  deletes : Bool → Answer
  disables : Answer

abbrev pub perform : Database → ℤ → Op → Answer × Database
perform db now (create input) =
    let attempt = create_tunnel db now input in (creates attempt.0, attempt.1)
perform db now (update id input) =
    let attempt = update_tunnel db now id input in (updates attempt.0, attempt.1)
perform db now (disable id reason) = (disables, disable_tunnel db now id reason)
perform db now (delete id) = let gone = delete_tunnel db id in (deletes gone.0, gone.1)

-- Each call at the time that the clock shows.
abbrev pub perform_all : Database → List (ℤ × Op) → List Answer × Database
perform_all db [] = ([], db)
perform_all db ((now, op) ∷ ops) =
    let one = perform db now op in let rest = perform_all one.1 ops in (one.0 ∷ rest.0, rest.1)

abbrev pub Tunnels : Type 0
Tunnels = Text → Option DbTunnel

abbrev pub put : Tunnels → Text → Option DbTunnel → Tunnels
put f id v = λ j. if eqb id j then v else f j

abbrev pub mapped : (DbTunnel → DbTunnel) → Option DbTunnel → Option DbTunnel
mapped g none = none
mapped g (some t) = some (g t)

abbrev pub is_there : Option DbTunnel → Bool
is_there none = false
is_there (some t) = true

-- The same calls on a function: a create fails on a tunnel that is there, and an update or a disable
-- of one that is not there does nothing.
abbrev pub specified : Tunnels → Op → Answer × Tunnels
specified f (create input) =
    if is_there (f input.id)
    then (creates (err constraint), f)
    else (creates (ok (created input)), put f input.id (some (created input)))
specified f (update id input) =
    (updates (ok (mapped (updated input) (f id))), put f id (mapped (updated input) (f id)))
specified f (disable id reason) = (disables, put f id (mapped (disabled reason) (f id)))
specified f (delete id) = (deletes (is_there (f id)), put f id none)

abbrev pub specified_all : Tunnels → List (ℤ × Op) → List Answer × Tunnels
specified_all f [] = ([], f)
specified_all f ((now, op) ∷ ops) =
    let one = specified f op in let rest = specified_all one.1 ops in (one.0 ∷ rest.0, rest.1)

abbrev pub Represents : Database → Tunnels → Type 0
Represents db f = (id : Text) → get_tunnel db id ≡ ok (f id)

has_row-Represents :
    (db : Database) (f : Tunnels) (id : Text)
    → Represents db f
    → has_row (has_id id) db.tunnels ≡ is_there (f id)
has_row-Represents db f id h =
    let known = has_row-fetch_optional (has_id id) db.tunnels in
    elim (Option-cases (f id)) [
      | inl absent ↦ let e = get_tunnel-absent db id (ground (arith, h id)) in ground arith
      | inr (t, there) ↦
          let (row, found, read) = get_tunnel-found db id {t = t} (ground (arith, h id)) in
          ground arith
    ]

disable_tunnel-absent :
    (db : Database) (now : ℤ) (id reason : Text)
    → get_tunnel db id ≡ ok none
    → get_tunnel (disable_tunnel db now id reason) id ≡ ok none
unfolding disable_tunnel
disable_tunnel-absent db now id reason h =
    let none_there = get_tunnel-absent db id h in
    unfold get_tunnel in
    rw
      (fetch_optional-update_where (has_id id) (has_id id) (set_disabled reason now) db.tunnels
        (λ r. refl))
      (rw (none_there, transpose) refl)

-- One call keeps the answers and the reads together.
perform-specified :
    (db : Database) (f : Tunnels) (now : ℤ) (op : Op)
    → Represents db f
    → ((perform db now op).0 ≡ (specified f op).0)
      × Represents (perform db now op).1 (specified f op).1
perform-specified db f now (create input) h =
    let (clash, free) = create_tunnel_lem db now input in
    let known = has_row-Represents db f input.id h in
    elim (Bool-cases (is_there (f input.id))) [
      | inl taken ↦ let same = clash (known ∙ taken) in rw (same, taken) (refl, h)
      | inr absent ↦
          let (answer, read, others) = free (known ∙ absent) in
          rw absent (
            ap creates answer,
            λ id. elim (Bool-cases (eqb input.id id)) [
              | inl same ↦ ground (arith, list_beq_iff input.id id)
              | inr other ↦ ground (arith, others id other, h id)
            ],
          )
    ]
perform-specified db f now (update id input) h =
    let (missing, present, others) = update_tunnel_lem db now id input in
    let elsewhere : (j : Text)
        → eqb id j ≡ false
        → get_tunnel (update_tunnel db now id input).1 j ≡ ok (f j) =
      λ j other. others j other ∙ h j in
    elim (Option-cases (f id)) [
      | inl absent ↦
          let same = missing (h id ∙ ap ok absent) in
          rw (same, absent)
            (
              refl,
              λ j. elim (Bool-cases (eqb id j)) [
                | inl here ↦ ground (arith, list_beq_iff id j, h j)
                | inr other ↦ ground (arith, h j)
              ],
            )
      | inr (t, there) ↦
          let (answer, read) = present t (h id ∙ ap ok there) in
          rw there (
            ap updates answer,
            λ j. elim (Bool-cases (eqb id j)) [
              | inl here ↦ ground (arith, list_beq_iff id j)
              | inr other ↦ ground (arith, elsewhere j other)
            ],
          )
    ]
perform-specified db f now (disable id reason) h =
    let (mine, others) = disable_tunnel_lem db now id reason in
    (
      refl,
      λ j. elim (Bool-cases (eqb id j)) [
        | inl here ↦ elim (Option-cases (f id)) [
          | inl absent ↦
              let gone = disable_tunnel-absent db now id reason (h id ∙ ap ok absent) in
              ground (arith, list_beq_iff id j)
          | inr (t, there) ↦
              let read = mine t (h id ∙ ap ok there) in ground (arith, list_beq_iff id j)
        ]
        | inr other ↦ ground (arith, others j other, h j)
      ],
    )
perform-specified db f now (delete id) h =
    let (answer, gone, others) = delete_tunnel_lem db id in
    (
      elim (Option-cases (f id)) [
        | inl absent ↦ ground (arith, answer.1 (h id ∙ ap ok absent))
        | inr (t, there) ↦ elim (Bool-cases (delete_tunnel db id).0) [
          | inl hit ↦ ground arith
          | inr miss ↦ let e = answer.0 miss in absurd (ground (arith, h id))
        ]
      ],
      λ j. elim (Bool-cases (eqb id j)) [
        | inl here ↦ ground (arith, list_beq_iff id j)
        | inr other ↦ ground (arith, others j other, h j)
      ],
    )

-- The statements on the table of tunnels implement a function from ids to tunnels: from a database
-- that reads as the function, any sequence of creates, updates, disables and deletes gives the
-- answers that the same calls give on the function, and ends in a database that reads as theirs.
pub perform_all_refines :
    (db : Database) (f : Tunnels) (ops : List (ℤ × Op))
    → Represents db f
    → ((perform_all db ops).0 ≡ (specified_all f ops).0)
      × Represents (perform_all db ops).1 (specified_all f ops).1
perform_all_refines db f [] h = (refl, h)
perform_all_refines db f ((now, op) ∷ ops) h =
    let (same, reads) = perform-specified db f now op h in
    let (rest, end) = perform_all_refines (perform db now op).1 (specified f op).1 ops reads in
    (ground arith, end)
