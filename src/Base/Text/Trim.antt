-- ===== src/Base/Text/Trim.antt =====
-- `str::trim` on UTF-8.
use Prim.Native.Nat.{ℕ, zero, suc, ◌<◌}
use mathlib.Core.Path.{◌≡◌, refl}
use mathlib.Core.Bool.{Bool, ◌&&◌, ◌||◌}
use mathlib.Core.List.{List, [], ◌∷◌, ◌++◌, reverse, reverse-reverse, reverse-cons}
use native.Mathlib.Omega.{arith}
use rps.Base.Lists.{All}
use rps.Base.Tests.{leb, ◌==◌, if◌then◌else◌}
use rps.Base.Text.{Text}

abbrev ascii_white : ℕ → Bool
ascii_white a = (leb 9 a && leb a 13) || a == 32

-- U+0085, U+00A0
abbrev white_two : ℕ → ℕ → Bool
white_two a b = a == 0xc2 && (b == 0x85 || b == 0xa0)

-- U+1680, U+2000 to U+200A, U+2028, U+2029, U+202F, U+205F, U+3000
abbrev white_three : ℕ → ℕ → ℕ → Bool
white_three a b c =
    (a == 0xe1 && b == 0x9a && c == 0x80)
    || (a == 0xe2 && b == 0x80 && (leb 0x80 c && leb c 0x8a || c == 0xa8 || c == 0xa9 || c == 0xaf))
    || (a == 0xe2 && b == 0x81 && c == 0x9f)
    || (a == 0xe3 && b == 0x80 && c == 0x80)

-- The bytes of the white space character that a text begins with; 0 where it begins otherwise.
-- Unicode's White_Space, in UTF-8.
unfoldable pub white_front : Text → ℕ
white_front [] = 0
white_front (a ∷ []) = if ascii_white a then 1 else 0
white_front (a ∷ b ∷ []) = if ascii_white a then 1 else if white_two a b then 2 else 0
white_front (a ∷ b ∷ c ∷ s) =
    if ascii_white a then 1 else if white_two a b then 2 else if white_three a b c then 3 else 0

-- The same at the end of a text that is given in reverse.
unfoldable pub white_back : Text → ℕ
white_back [] = 0
white_back (a ∷ []) = if ascii_white a then 1 else 0
white_back (a ∷ b ∷ []) = if ascii_white a then 1 else if white_two b a then 2 else 0
white_back (a ∷ b ∷ c ∷ s) =
    if ascii_white a then 1 else if white_two b a then 2 else if white_three c b a then 3 else 0

-- Drops white space as `white` finds it; the number counts bytes that are still to be dropped.
unfoldable pub trim_while : (Text → ℕ) → ℕ → Text → Text
trim_while white n [] = []
trim_while white (suc n) (a ∷ s) = trim_while white n s
trim_while white zero (a ∷ s) = elim (white (a ∷ s)) [ zero ↦ a ∷ s | suc n ↦ trim_while white n s ]

-- `str::trim`
unfoldable pub trim : Text → Text
trim s = reverse (trim_while white_back 0 (reverse (trim_while white_front 0 s)))

abbrev pub IsDark : ℕ → Type 0
IsDark c = (32 < c) × (c < 128)

white_front_dark : (a : ℕ) (s : Text) → IsDark a → white_front (a ∷ s) ≡ 0
unfolding white_front
white_front_dark a [] h = ground arith
white_front_dark a (b ∷ []) h = ground arith
white_front_dark a (b ∷ c ∷ s) h = ground arith

white_back_dark : (a : ℕ) (s : Text) → IsDark a → white_back (a ∷ s) ≡ 0
unfolding white_back
white_back_dark a [] h = ground arith
white_back_dark a (b ∷ []) h = ground arith
white_back_dark a (b ∷ c ∷ s) h = ground arith

trim_front_dark : (s : Text) → All IsDark s → trim_while white_front 0 s ≡ s
unfolding trim_while
trim_front_dark [] h = refl
trim_front_dark (a ∷ s) h = rw (white_front_dark a s h.0, trim_while) refl

trim_back_dark : (s : Text) → All IsDark s → trim_while white_back 0 s ≡ s
unfolding trim_while
trim_back_dark [] h = refl
trim_back_dark (a ∷ s) h = rw (white_back_dark a s h.0, trim_while) refl

All-append {ℓ κ} :
    {A : Type ℓ} (P : A → Type κ) (xs ys : List A) → All P xs → All P ys → All P (xs ++ ys)
All-append P [] ys h k = k
All-append P (x ∷ xs) ys h k = (h.0, All-append P xs ys h.1 k)

All-reverse {ℓ κ} : {A : Type ℓ} (P : A → Type κ) (xs : List A) → All P xs → All P (reverse xs)
All-reverse P [] h = h
All-reverse P (x ∷ xs) h =
    rw (reverse-cons x xs) (All-append P (reverse xs) (x ∷ []) (All-reverse P xs h.1) (h.0, tt))

-- Text without white space or other than ASCII characters is left as it is.
pub trim_dark : (s : Text) → All IsDark s → trim s ≡ s
unfolding trim
trim_dark s h =
    rw (trim_front_dark s h, trim_back_dark (reverse s) (All-reverse IsDark s h))
      (reverse-reverse s)
