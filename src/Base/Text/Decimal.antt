-- ===== src/Base/Text/Decimal.antt =====
-- Numbers and addresses as text: `Display` of unsigned integers and of `Ipv4Addr`, and `FromStr` of
-- `Ipv4Addr`.
use Prim.Native.Nat.{ℕ, zero, suc, ◌+◌, ◌-◌, ◌*◌, ◌/◌, ◌%◌, ◌<◌}
use mathlib.Core.Path.{◌≡◌, refl}
use mathlib.Core.Bool.{Bool, not, ◌&&◌}
use mathlib.Core.List.{List, [], ◌∷◌, ◌++◌}
use mathlib.Core.Option.{Option, none, some}
use native.Mathlib.Omega.{arith}
use rps.Base.Tests.{ltb, leb, ◌==◌, if◌then◌else◌}
use rps.Base.Text.{Text}

-- The fuel bounds the digits: 20 are enough below 2^64.
abbrev pub digits : ℕ → ℕ → Text
digits zero n = []
digits (suc fuel) n =
    let front = digits fuel (n / 10) in
    if ltb n 10 then (48 + n) ∷ [] else front ++ (48 + n % 10) ∷ []

unfoldable pub decimal : ℕ → Text
decimal n = digits 20 n

-- An octet has three digits at most.
unfoldable pub octet_text : ℕ → Text
octet_text n =
    if ltb n 10
    then (48 + n) ∷ []
    else if ltb n 100
    then (48 + n / 10) ∷ (48 + n % 10) ∷ []
    else (48 + n / 100) ∷ (48 + n / 10 % 10) ∷ (48 + n % 10) ∷ []

abbrev pub is_digit : ℕ → Bool
is_digit c = leb 48 c && leb c 57

-- No leading zero, and at most 255.
unfoldable pub parse_octet : Text → Option ℕ
parse_octet (a ∷ []) = if is_digit a then some (a - 48) else none
parse_octet (a ∷ b ∷ []) =
    if is_digit a && is_digit b && not (a == 48) then some ((a - 48) * 10 + (b - 48)) else none
parse_octet (a ∷ b ∷ c ∷ []) =
    let n = (a - 48) * 100 + (b - 48) * 10 + (c - 48) in
    if is_digit a && is_digit b && is_digit c && not (a == 48) && leb n 255 then some n else none
parse_octet _ = none

parse_octet-octet_text : (n : ℕ) → n < 256 → parse_octet (octet_text n) ≡ some n
unfolding parse_octet octet_text
parse_octet-octet_text n h = ground arith

-- `str::split` at a character
abbrev pub push : ℕ → List Text → List Text
push c [] = (c ∷ []) ∷ []
push c (part ∷ parts) = (c ∷ part) ∷ parts

unfoldable pub split_at : ℕ → Text → List Text
split_at c [] = [] ∷ []
split_at c (b ∷ s) = let parts = split_at c s in if b == c then [] ∷ parts else push b parts

unfoldable pub ipv4_text : ℕ → ℕ → ℕ → ℕ → Text
ipv4_text a b c d = octet_text a ++ 46 ∷ (octet_text b ++ 46 ∷ (octet_text c ++ 46 ∷ octet_text d))

abbrev pub four : Option ℕ → Option ℕ → Option ℕ → Option ℕ → Option (List ℕ)
four (some a) (some b) (some c) (some d) = some (a ∷ b ∷ c ∷ d ∷ [])
four _ _ _ _ = none

abbrev pub parse_parts : List Text → Option (List ℕ)
parse_parts (a ∷ b ∷ c ∷ d ∷ []) =
    four (parse_octet a) (parse_octet b) (parse_octet c) (parse_octet d)
parse_parts _ = none

unfoldable pub parse_ipv4 : Text → Option (List ℕ)
parse_ipv4 s = parse_parts (split_at 46 s)

split_at-octet :
    (n : ℕ) (s : Text)
    → n < 256
    → split_at 46 (octet_text n ++ 46 ∷ s) ≡ octet_text n ∷ split_at 46 s
unfolding split_at octet_text
split_at-octet n s h = ground arith

split_at-last : (n : ℕ) → n < 256 → split_at 46 (octet_text n) ≡ octet_text n ∷ []
unfolding split_at octet_text
split_at-last n h = ground arith

-- An address is parsed back from its text.
pub parse_ipv4-ipv4_text :
    (a b c d : ℕ)
    → a < 256
    → b < 256
    → c < 256
    → d < 256
    → parse_ipv4 (ipv4_text a b c d) ≡ some (a ∷ b ∷ c ∷ d ∷ [])
unfolding parse_ipv4 ipv4_text
parse_ipv4-ipv4_text a b c d ha hb hc hd =
    rw
      (
        split_at-octet a (octet_text b ++ 46 ∷ (octet_text c ++ 46 ∷ octet_text d)) ha,
        split_at-octet b (octet_text c ++ 46 ∷ octet_text d) hb,
        split_at-octet c (octet_text d) hc,
        split_at-last d hd,
        parse_octet-octet_text a ha,
        parse_octet-octet_text b hb,
        parse_octet-octet_text c hc,
        parse_octet-octet_text d hd,
      )
      refl
