-- ===== src/Core/Psk.antt =====
-- crates/rps-core/src/noise.rs, `decode_psk`: the pre-shared key, 64 hexadecimal digits.
pub mod RoundTrip
use Prim.Native.Nat.{bit_or}
use rps.Base.{
  ℕ, zero, suc, ◌+◌, ◌-◌, ◌*◌, ◌%◌, ◌≡◌, Bool, true, false, ◌&&◌, List, [], ◌∷◌, leb, ◌==◌, not,
  if◌then◌else◌, length, get_or, Result, ok, err, ◌>>=◌,
}
use rps.Base.Text.{Text}
use rps.Base.Text.Trim.{trim}

abbrev pub psk_len : ℕ
psk_len = 32

abbrev pub psk_hex_len : ℕ
psk_hex_len = psk_len * 2

pub data PskError : Type 0 where
  wrong_length not_hex : PskError

unfoldable pub decode_hex_nibble : ℕ → Result PskError ℕ
decode_hex_nibble value =
    if leb b'0' value && leb value b'9'
    then ok (value - b'0')
    else if leb b'a' value && leb value b'f'
    then ok (value - b'a' + 10)
    else if leb b'A' value && leb value b'F'
    then ok (value - b'A' + 10)
    else err not_hex

-- The loop over `out.iter_mut()`: `rounds` bytes are left, and `index` is the next.
unfoldable pub decode_pairs : ℕ → ℕ → Text → Result PskError (List ℕ)
decode_pairs zero index psk = ok []
decode_pairs (suc rounds) index psk = do
  hi ← decode_hex_nibble (get_or psk (index * 2) 0)
  lo ← decode_hex_nibble (get_or psk (index * 2 + 1) 0)
  rest ← decode_pairs rounds (index + 1) psk
  ok (bit_or (hi * 16 % 256) lo ∷ rest)

unfoldable pub decode_psk : Text → Result PskError (List ℕ)
decode_psk psk =
    let trimmed = trim psk in
    if not (length trimmed == psk_hex_len) then err wrong_length else decode_pairs psk_len 0 trimmed
