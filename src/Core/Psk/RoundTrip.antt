-- ===== src/Core/Psk/RoundTrip.antt =====
-- `decode_psk` inverts hexadecimal notation, and accepts nothing else.
use Prim.Native.Nat.{bit_or}
use rps.Base.{
  ℕ, zero, suc, ◌+◌, ◌-◌, ◌*◌, ◌%◌, ◌/◌, ◌<◌, ◌≡◌, refl, Bool, true, false, ◌∙◌, ◌&&◌, List, [],
  ◌∷◌, leb, ltb, ◌==◌, ==_iff, if◌then◌else◌, length, All, ok, ◌>>=◌, arith, Bool-cases, inl, inr,
  map, bind-eq-ok,
}
use rps.Base.Text.{Text}
use rps.Base.Words.{IsByte}
use rps.Base.Text.Trim.{trim, trim_dark, IsDark}
use rps.Core.Psk.{decode_psk, decode_pairs, decode_hex_nibble, psk_len}

-- Lower-case hexadecimal notation.
abbrev pub hex_digit : ℕ → ℕ
hex_digit n = if ltb n 10 then b'0' + n else b'a' + (n - 10)

abbrev pub hex_encode : List ℕ → Text
hex_encode [] = []
hex_encode (b ∷ bs) = hex_digit (b / 16) ∷ hex_digit (b % 16) ∷ hex_encode bs

abbrev pub to_lower : ℕ → ℕ
to_lower c = if leb b'A' c && leb c b'Z' then c + 32 else c

nibble_digit : (n : ℕ) → n < 16 → decode_hex_nibble (hex_digit n) ≡ ok n
unfolding decode_hex_nibble
nibble_digit n h = ground arith

digit_nibble : (c : ℕ) {n : ℕ} → decode_hex_nibble c ≡ ok n → (n < 16) × (hex_digit n ≡ to_lower c)
unfolding decode_hex_nibble
digit_nibble c h = ground arith

-- A test that holds of every number under a bound.
holds_under : (ℕ → Bool) → ℕ → Bool
holds_under test zero = true
holds_under test (suc bound) = if test bound then holds_under test bound else false

holds_under_lem :
    (test : ℕ → Bool) (bound : ℕ) {m : ℕ}
    → m < bound
    → holds_under test bound ≡ true
    → test m ≡ true
unfolding holds_under
holds_under_lem test zero small every = absurd (omega arith)
holds_under_lem test (suc bound) {m} small every = elim (Bool-cases (m == bound)) [
  | inl last ↦ ground (arith, ==_iff m bound)
  | inr other ↦ holds_under_lem test bound (ground (arith, ==_iff m bound)) (ground arith)
]

abbrev joins : ℕ → ℕ → Bool
joins hi lo = bit_or (hi * 16 % 256) lo == hi * 16 + lo

-- The two halves of a byte do not overlap, so `|` joins them.
every_byte : holds_under (λ hi. holds_under (joins hi) 16) 16 ≡ true
unfolding holds_under
every_byte = refl

join_nibbles : (hi lo : ℕ) → hi < 16 → lo < 16 → bit_or (hi * 16 % 256) lo ≡ hi * 16 + lo
join_nibbles hi lo h k =
    let row = holds_under_lem (λ n. holds_under (joins n) 16) 16 {m = hi} h every_byte in
    (==_iff _ (hi * 16 + lo)).0 (holds_under_lem (joins hi) 16 {m = lo} k row)

join_byte : (b : ℕ) → IsByte b → bit_or (b / 16 * 16 % 256) (b % 16) ≡ b
join_byte b h =
    let whole : b / 16 * 16 + b % 16 ≡ b = omega arith in
    join_nibbles (b / 16) (b % 16) (omega arith) (omega arith) ∙ whole

-- The loop starts over on what follows the pair that it has read.
decode_pairs_shift :
    (k i a b : ℕ) (s : Text) → decode_pairs k (i + 1) (a ∷ b ∷ s) ≡ decode_pairs k i s
unfolding decode_pairs
decode_pairs_shift zero i a b s = refl
decode_pairs_shift (suc k) i a b s =
    let e : (i + 1) * 2 ≡ suc (suc (i * 2)) = omega arith in
    let f : suc (suc (i * 2)) + 1 ≡ suc (suc (i * 2 + 1)) = omega arith in
    simp (e, f, decode_pairs_shift k (i + 1) a b s)

decode_pairs_pair :
    (k a b : ℕ) (s : Text)
    → decode_pairs (suc k) 0 (a ∷ b ∷ s) ≡ (
        decode_hex_nibble a >>= λ hi. decode_hex_nibble b >>= λ lo.
        decode_pairs k 0 s >>= λ rest. ok (bit_or (hi * 16 % 256) lo ∷ rest))
unfolding decode_pairs
decode_pairs_pair k a b s = simp (decode_pairs_shift k 0 a b s)

decode_pairs-hex_encode :
    (bs : List ℕ) → All IsByte bs → decode_pairs (length bs) 0 (hex_encode bs) ≡ ok bs
decode_pairs-hex_encode [] h = unfold decode_pairs in refl
decode_pairs-hex_encode (b ∷ bs) h =
    rw (decode_pairs_pair (length bs) (hex_digit (b / 16)) (hex_digit (b % 16)) (hex_encode bs)) (
      rw
        (
          nibble_digit (b / 16) (omega arith),
          nibble_digit (b % 16) (omega arith),
          decode_pairs-hex_encode bs h.1,
          join_byte b h.0,
        )
        refl)

decode_pairs-eq-ok :
    (k : ℕ) (s : Text) {out : List ℕ}
    → length s ≡ k * 2
    → decode_pairs k 0 s ≡ ok out
    → (length out ≡ k) × All IsByte out × (hex_encode out ≡ map to_lower s)
decode_pairs-eq-ok zero [] {out} l e = unfold decode_pairs in ground arith
decode_pairs-eq-ok zero (a ∷ s) l e = absurd (omega arith)
decode_pairs-eq-ok (suc k) [] l e = absurd (omega arith)
decode_pairs-eq-ok (suc k) (a ∷ []) l e = absurd (omega arith)
decode_pairs-eq-ok (suc k) (a ∷ b ∷ s) {out} l e =
    let (hi, h, e1) = bind-eq-ok (decode_hex_nibble a) _ (rw (decode_pairs_pair k a b s) at e) in
    let (lo, g, e2) = bind-eq-ok (decode_hex_nibble b) _ e1 in
    let (rest, r, e3) = bind-eq-ok (decode_pairs k 0 s) _ e2 in
    let (n, bytes, same) = decode_pairs-eq-ok k s {out = rest} (omega arith) r in
    ground (
      arith,
      digit_nibble a {n = hi} h,
      digit_nibble b {n = lo} g,
      join_nibbles hi lo (digit_nibble a {n = hi} h).0 (digit_nibble b {n = lo} g).0,
    )

hex_encode-IsDark : (bs : List ℕ) → All IsByte bs → All IsDark (hex_encode bs)
hex_encode-IsDark [] h = tt
hex_encode-IsDark (b ∷ bs) h = (ground arith, (ground arith, hex_encode-IsDark bs h.1))

length-hex_encode : (bs : List ℕ) → length (hex_encode bs) ≡ length bs * 2
length-hex_encode [] = omega arith
length-hex_encode (b ∷ bs) = omega (arith, length-hex_encode bs)

-- Every key of 32 bytes is read back from its hexadecimal notation.
pub decode_psk-hex_encode :
    (key : List ℕ) → All IsByte key → length key ≡ psk_len → decode_psk (hex_encode key) ≡ ok key
unfolding decode_psk
decode_psk-hex_encode key bytes l =
    rw (trim_dark (hex_encode key) (hex_encode-IsDark key bytes))
      (ground (arith, length-hex_encode key, decode_pairs-hex_encode key bytes))

-- A key is accepted only if it is, but for white space around it and the case of its letters, the
-- hexadecimal notation of the 32 bytes that are returned.
pub decode_psk-eq-ok :
    (psk : Text) {key : List ℕ}
    → decode_psk psk ≡ ok key
    → (length key ≡ psk_len) × All IsByte key × (map to_lower (trim psk) ≡ hex_encode key)
unfolding decode_psk
decode_psk-eq-ok psk {key} h = elim (Bool-cases (length (trim psk) == 64)) [
  | inl full ↦ ground (arith, decode_pairs-eq-ok 32 (trim psk) {out = key})
  | inr other ↦ absurd (ground arith)
]
