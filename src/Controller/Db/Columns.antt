-- ===== src/Controller/Db/Columns.antt =====
-- crates/rps-controller/src/db.rs: what stands in the columns, and what is read back from them.
use rps.Base.{
  ℕ, ◌%◌, ◌^◌, ◌≡◌, refl, min, Bool, true, false, Option, none, some, List, [], ◌∷◌, if◌then◌else◌,
  Result, ok, err, ◌>>=◌, ◌==◌, eqb, nat_eq, list_eq, ltb, ◌||◌,
}
use rps.Base.Int.{ℤ, pos, negsuc, ◌+ℤ◌, pos_part, leb_ℤ, ltb_ℤ}
use rps.Base.Text.{Text, text, strip_prefix}
use rps.Core.Config.{TunnelMode, tcp, udp}
use rps.Core.Protocol.{TargetProtocol}
use rps.Controller.Db.{Sum, integer, real, DbError, decode, invalid_mode, invalid_kind}

abbrev pub i64_max : ℕ
i64_max = 9223372036854775807

abbrev pub bool_to_i64 : Bool → ℤ
bool_to_i64 value = if value then pos 1 else pos 0

abbrev pub i64_to_bool : ℤ → Bool
i64_to_bool (pos n) = if n == 0 then false else true
i64_to_bool (negsuc n) = true

abbrev pub u64_to_i64 : ℕ → ℤ
u64_to_i64 value = pos (min value i64_max)

-- `value.max(0) as u64`
abbrev pub i64_to_u64 : ℤ → ℕ
i64_to_u64 value = pos_part value

-- `value.max(0) as u32`
abbrev pub i64_to_u32 : ℤ → ℕ
i64_to_u32 value = pos_part value % 2 ^ 32

abbrev pub map_option {ℓ κ} : {A : Type ℓ} {B : Type κ} → (A → B) → Option A → Option B
map_option f none = none
map_option f (some a) = some (f a)

-- `row.map(f).transpose()`
abbrev pub transpose {ℓ κ} :
    {A : Type ℓ} {B : Type κ} → (A → Result DbError B) → Option A → Result DbError (Option B)
transpose f none = ok none
transpose f (some a) = do b ← f a; ok (some b)

-- `rows.into_iter().map(f).collect()`
abbrev pub collect {ℓ κ} :
    {A : Type ℓ} {B : Type κ} → (A → Result DbError B) → List A → Result DbError (List B)
collect f [] = ok []
collect f (a ∷ rest) = do b ← f a; bs ← collect f rest; ok (b ∷ bs)

-- `rx_bytes + ?`
abbrev pub sql_add : Sum → ℤ → Sum
sql_add real b = real
sql_add (integer a) b = if leb_ℤ (a +ℤ b) (pos i64_max) then integer (a +ℤ b) else real

-- `row.try_get` of an `i64`
abbrev pub get_i64 : Sum → Result DbError ℤ
get_i64 (integer a) = ok a
get_i64 real = err decode

unfoldable pub tunnel_mode_to_str : TunnelMode → Text
tunnel_mode_to_str tcp = text "tcp"
tunnel_mode_to_str udp = text "udp"

unfoldable pub target_protocol_to_str : TargetProtocol → Text
target_protocol_to_str TargetProtocol.tcp = text "tcp"
target_protocol_to_str TargetProtocol.udp = text "udp"

unfoldable pub str_to_tunnel_mode : Text → Result DbError TunnelMode
str_to_tunnel_mode mode =
    if eqb mode (text "tcp")
    then ok tcp
    else if eqb mode (text "udp")
    then ok udp
    else err (invalid_mode mode)

unfoldable pub validate_proxy_kind : Text → Result DbError (Unit {0})
validate_proxy_kind kind =
    if eqb kind (text "http") || eqb kind (text "socks5") then ok tt else err (invalid_kind kind)

unfoldable pub proxy_account_id_from_route : Text → Option Text
proxy_account_id_from_route route_id = elim (strip_prefix (text "http-proxy:") route_id) [
  | some id ↦ some id
  | none ↦ elim (strip_prefix (text "socks5:") route_id) [
    | some id ↦ some id
    | none ↦ strip_prefix (text "socks5-udp:") route_id
  ]
]

-- The order of the bytes: `order by` on a text column.
unfoldable pub text_leb : Text → Text → Bool
text_leb [] t = true
text_leb (a ∷ s) [] = false
text_leb (a ∷ s) (b ∷ t) =
    let rest = text_leb s t in if ltb a b then true else if a == b then rest else false

-- `order by created_at asc, id asc`
abbrev pub created_before : ℤ → Text → ℤ → Text → Bool
created_before a s b t = if ltb_ℤ a b then true else if leb_ℤ a b then text_leb s t else false

pub bool_round_trip : (b : Bool) → i64_to_bool (bool_to_i64 b) ≡ b
bool_round_trip true = refl
bool_round_trip false = refl

pub str_to_tunnel_mode-tunnel_mode_to_str :
    (m : TunnelMode) → str_to_tunnel_mode (tunnel_mode_to_str m) ≡ ok m
unfolding str_to_tunnel_mode tunnel_mode_to_str
str_to_tunnel_mode-tunnel_mode_to_str tcp = refl
str_to_tunnel_mode-tunnel_mode_to_str udp = refl
