-- ===== src/Base/Text/Lines.antt =====
-- Parts of a text: the string functions that a request is read with.
use Prim.Native.Nat.{ℕ, zero, suc, ◌+◌, ◌-◌}
use mathlib.Core.Bool.{Bool, true, false, ◌&&◌}
use mathlib.Core.List.{List, [], ◌∷◌, ◌++◌}
use mathlib.Core.Option.{Option, none, some}
use rps.Base.Tests.{leb, ◌==◌, if◌then◌else◌}
use rps.Base.Text.{Text}
use rps.Base.Text.Trim.{white_front}
use rps.Base.Text.Decimal.{push, split_at}

abbrev pub starts_with : ℕ → Text → Bool
starts_with c [] = false
starts_with c (b ∷ s) = b == c

-- `str::split` at "\r\n". The flag says that a line feed is left to skip.
unfoldable pub split_crlf_from : Bool → Text → List Text
split_crlf_from skip [] = [] ∷ []
split_crlf_from true (c ∷ s) = split_crlf_from false s
split_crlf_from false (c ∷ s) =
    let cut = c == 13 && starts_with 10 s in
    let parts = split_crlf_from cut s in if cut then [] ∷ parts else push c parts

abbrev pub split_crlf : Text → List Text
split_crlf s = split_crlf_from false s

-- `join("\r\n")`
unfoldable pub join_crlf : List Text → Text
join_crlf [] = []
join_crlf (part ∷ []) = part
join_crlf (part ∷ next ∷ parts) = part ++ 13 ∷ 10 ∷ join_crlf (next ∷ parts)

abbrev pub strip_cr : Text → Text
strip_cr [] = []
strip_cr (c ∷ []) = if c == 13 then [] else c ∷ []
strip_cr (c ∷ d ∷ s) = c ∷ strip_cr (d ∷ s)

-- `str::lines`: a last line without an end stays as it is, and an empty one is none.
abbrev pub end_lines : List Text → List Text
end_lines [] = []
end_lines ([] ∷ []) = []
end_lines ((c ∷ s) ∷ []) = (c ∷ s) ∷ []
end_lines (part ∷ next ∷ parts) = strip_cr part ∷ end_lines (next ∷ parts)

unfoldable pub lines : Text → List Text
lines s = end_lines (split_at 10 s)

-- `str::split_once` at a character
unfoldable pub split_once : ℕ → Text → Option (Text × Text)
split_once c [] = none
split_once c (b ∷ s) =
    let rest = split_once c s in
    if b == c
    then some ([], s)
    else elim rest [ none ↦ none | some (front, back) ↦ some (b ∷ front, back) ]

-- `split_once("\r\n")`, its second part
unfoldable pub after_crlf : Text → Option Text
after_crlf [] = none
after_crlf (c ∷ []) = none
after_crlf (c ∷ d ∷ s) =
    let rest = after_crlf (d ∷ s) in if c == 13 && d == 10 then some s else rest

abbrev pub to_lower : ℕ → ℕ
to_lower c = if leb 65 c && leb c 90 then c + 32 else c

-- `eq_ignore_ascii_case`
unfoldable pub eq_ignore_ascii_case : Text → Text → Bool
eq_ignore_ascii_case [] [] = true
eq_ignore_ascii_case (a ∷ s) (b ∷ t) = to_lower a == to_lower b && eq_ignore_ascii_case s t
eq_ignore_ascii_case _ _ = false

-- `split_whitespace`: what stands between white characters, but for nothing. The number says how many
-- bytes of a white character are left to skip.
abbrev pub pieces : ℕ → Text → List Text
pieces skip [] = [] ∷ []
pieces (suc skip) (c ∷ s) = pieces skip s
pieces zero (c ∷ s) =
    let white = white_front (c ∷ s) in
    let rest = pieces (white - 1) s in if white == 0 then push c rest else [] ∷ rest

abbrev pub without_empty : List Text → List Text
without_empty [] = []
without_empty ([] ∷ parts) = without_empty parts
without_empty ((c ∷ s) ∷ parts) = (c ∷ s) ∷ without_empty parts

unfoldable pub split_whitespace : Text → List Text
split_whitespace s = without_empty (pieces 0 s)
