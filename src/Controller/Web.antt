-- ===== src/Controller/Web.antt =====
-- crates/rps-controller/src/web.rs: the requests to the console. A request carries its cookies and its
-- body; the clock, fresh identifiers and secrets, and which sockets can be bound are arguments. The
-- JSON of the answers is left out.
pub mod Auth
pub mod Tunnels
pub mod Accounts
pub mod Clients
pub mod Reports
pub mod Api
use rps.Base.{
  ℕ, Bool, true, false, Option, none, some, List, [], ◌∷◌, Result, ok, err, if◌then◌else◌,
}
use rps.Base.Text.{Text}
use rps.Base.Text.Trim.{trim}
use rps.Controller.Db.{DbError, constraint, invalid_kind}

-- The status of an error answer.
pub data ApiError : Type 0 where
  bad_request unauthorized not_found conflict internal : ApiError

-- `ApiError::from`, which looks for words in the message.
abbrev pub api_error : DbError → ApiError
api_error constraint = conflict
api_error (invalid_kind kind) = bad_request
api_error _ = internal

abbrev pub is_empty : Text → Bool
is_empty [] = true
is_empty (c ∷ s) = false

-- `.filter(|value| !value.trim().is_empty())`
unfoldable pub non_blank : Option Text → Option Text
non_blank none = none
non_blank (some value) = if is_empty (trim value) then none else some value

abbrev pub unwrap_or {ℓ} : {A : Type ℓ} → Option A → A → A
unwrap_or none d = d
unwrap_or (some a) d = a

abbrev pub is_none {ℓ} : {A : Type ℓ} → Option A → Bool
is_none none = true
is_none (some a) = false
