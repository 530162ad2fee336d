-- ===== src/Base/Text/Utf8.antt =====
-- `String::from_utf8`: which bytes are a string.
use rps.Base.Tests.{leb, ◌==◌, if◌then◌else◌}
use Prim.Native.Nat.{ℕ}
use mathlib.Core.Bool.{Bool, true, false, ◌&&◌}
use mathlib.Core.List.{List, [], ◌∷◌}
use mathlib.Core.Option.{Option, none, some}

-- What may come next inside a character: so many continuation bytes, or the ones that a first byte
-- restricts (no overlong forms, no surrogates, nothing past U+10FFFF).
pub data Awaits : Type 0 where
  start one two three after_e0 after_ed after_f0 after_f4 : Awaits

abbrev pub within : ℕ → ℕ → ℕ → Bool
within low high b = leb low b && leb b high

abbrev pub first_byte : ℕ → Option Awaits
first_byte b =
    if leb b 127
    then some start
    else if within 194 223 b
    then some one
    else if b == 224
    then some after_e0
    else if b == 237
    then some after_ed
    else if within 225 239 b
    then some two
    else if b == 240
    then some after_f0
    else if within 241 243 b
    then some three
    else if b == 244
    then some after_f4
    else none

abbrev pub continues : ℕ → ℕ → ℕ → Awaits → Option Awaits
continues low high b next = if within low high b then some next else none

abbrev pub utf8_step : Awaits → ℕ → Option Awaits
utf8_step start b = first_byte b
utf8_step one b = continues 128 191 b start
utf8_step two b = continues 128 191 b one
utf8_step three b = continues 128 191 b two
utf8_step after_e0 b = continues 160 191 b one
utf8_step after_ed b = continues 128 159 b one
utf8_step after_f0 b = continues 144 191 b two
utf8_step after_f4 b = continues 128 143 b two

abbrev pub ends : Awaits → Bool
ends start = true
ends _ = false

abbrev pub utf8_from : Awaits → List ℕ → Bool
utf8_from state [] = ends state
utf8_from state (b ∷ bytes) = elim (utf8_step state b) [
  | none ↦ false
  | some next ↦ utf8_from next bytes
]

unfoldable pub is_utf8 : List ℕ → Bool
is_utf8 bytes = utf8_from start bytes
