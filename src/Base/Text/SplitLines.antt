-- ===== src/Base/Text/SplitLines.antt =====
-- Splitting at line ends and joining are inverse.
use Prim.Native.Nat.{ℕ}
use mathlib.Core.Path.{◌≡◌, refl, ◌∙◌, ap}
use mathlib.Core.Bool.{Bool, true, false, not, ◌&&◌}
use mathlib.Core.Logic.{inl, inr}
use mathlib.Core.List.{List, [], ◌∷◌, ◌++◌}
use native.Mathlib.Omega.{arith}
use rps.Base.Tests.{◌==◌, if◌then◌else◌, Bool-cases}
use rps.Base.Lists.{All, List-cases}
use rps.Base.Text.{Text}
use rps.Base.Text.Decimal.{push}
use rps.Base.Text.Lines.{starts_with, split_crlf_from, split_crlf, join_crlf}

-- No line end inside.
abbrev pub is_line : Text → Bool
is_line [] = true
is_line (c ∷ s) = not (c == 13 && starts_with 10 s) && is_line s

abbrev pub IsLine : Text → Type 0
IsLine s = is_line s ≡ true

pub split_crlf-append :
    (line rest : Text) → IsLine line → split_crlf (line ++ 13 ∷ 10 ∷ rest) ≡ line ∷ split_crlf rest
unfolding split_crlf_from
split_crlf-append [] rest h = refl
split_crlf-append (c ∷ []) rest h = ground arith
split_crlf-append (c ∷ d ∷ line) rest h = ground (arith, split_crlf-append (d ∷ line) rest)

pub split_crlf-line : (line : Text) → IsLine line → split_crlf line ≡ line ∷ []
unfolding split_crlf_from
split_crlf-line [] h = refl
split_crlf-line (c ∷ line) h = ground (arith, split_crlf-line line)

-- The first part begins as the text does.
abbrev first : List Text → Text
first [] = []
first (part ∷ parts) = part

starts_with-first :
    (s : Text) → starts_with 10 (first (split_crlf s)) ≡ true → starts_with 10 s ≡ true
unfolding split_crlf_from
starts_with-first [] h = absurd (ground arith)
starts_with-first (c ∷ s) h = elim (Bool-cases (c == 13 && starts_with 10 s)) [
  | inl cut ↦ absurd (ground arith)
  | inr on ↦ elim (List-cases (split_crlf s)) [
    | inl none_there ↦ ground arith
    | inr (part, parts, e) ↦ ground arith
  ]
]

push-lines :
    (c : ℕ) (parts : List Text)
    → (c == 13 && starts_with 10 (first parts)) ≡ false
    → All IsLine parts
    → All IsLine (push c parts)
push-lines c [] h all = (ground arith, tt)
push-lines c (part ∷ parts) h all = (let p = all.0 in ground arith, all.1)

pub split_crlf-lines : (skip : Bool) (s : Text) → All IsLine (split_crlf_from skip s)
unfolding split_crlf_from
split_crlf-lines skip [] = (refl, tt)
split_crlf-lines true (c ∷ s) = split_crlf-lines false s
split_crlf-lines false (c ∷ s) = elim (Bool-cases (c == 13 && starts_with 10 s)) [
  | inl cut ↦ rw (cut, if◌then◌else◌) (refl, split_crlf-lines true s)
  | inr on ↦
      rw (on, if◌then◌else◌)
        (push-lines c (split_crlf s) (ground (arith, starts_with-first s))
          (split_crlf-lines false s))
]

-- What was joined is split again.
pub split_crlf-join_crlf :
    (part : Text) (parts : List Text)
    → All IsLine (part ∷ parts)
    → split_crlf (join_crlf (part ∷ parts)) ≡ part ∷ parts
unfolding join_crlf
split_crlf-join_crlf part [] all = split_crlf-line part all.0
split_crlf-join_crlf part (next ∷ parts) all =
    split_crlf-append part (join_crlf (next ∷ parts)) all.0
    ∙ ap (λ (x : List Text). part ∷ x) (split_crlf-join_crlf next parts all.1)
