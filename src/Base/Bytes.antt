-- ===== src/Base/Bytes.antt =====
-- Reading from a byte stream. The list is all that the peer will ever send: at its end a read of
-- more bytes fails with `UnexpectedEof`.
use Prim.Native.Nat.{ℕ, ◌+◌}
use mathlib.Core.Path.{◌≡◌, refl}
use mathlib.Core.List.{List, [], ◌∷◌, ◌++◌}
use mathlib.Core.List.{append_assoc}
use native.Mathlib.Omega.{arith}
use rps.Base.Tests.{ltb, if◌then◌else◌}
use mathlib.Core.Logic.{◌⊎◌, inl, inr}
use rps.Base.Tests.{Bool-cases}
use rps.Base.Lists.{get_or, length, take, drop, length-append, take-append-drop, length-take}
use rps.Base.Words.{IsU32, u32_to_be_bytes, u32_from_be_bytes, u32_round, u16_from_be_bytes}
use rps.Base.Classes.{◌>>=◌, Result, ok, err}

-- `io::ErrorKind`, as far as the program makes or passes on errors of its own.
pub data IoError : Type 0 where
  unexpected_eof : IoError
  unknown_frame_type : ℕ → IoError
  payload_too_large json_too_large noise_too_large : IoError
  bad_json mux_closed : IoError

abbrev pub IoResult {ℓ} : Type ℓ → Type ℓ
IoResult A = Result IoError A

-- `read_exact` into a buffer of `n` bytes: the bytes and what is left in the stream.
unfoldable pub read_exact : ℕ → List ℕ → IoResult (List ℕ × List ℕ)
read_exact n input =
    if ltb (length input) n then err unexpected_eof else ok (take n input, drop n input)

module _ {ℓ} {A : Type ℓ} where
  pub take-append_left : (xs ys : List A) → take (length xs) (xs ++ ys) ≡ xs
  take-append_left [] ys = refl
  take-append_left (x ∷ xs) ys = rw (take-append_left xs ys)

  pub drop-append_left : (xs ys : List A) → drop (length xs) (xs ++ ys) ≡ ys
  drop-append_left [] ys = refl
  drop-append_left (x ∷ xs) ys = drop-append_left xs ys

pub read_exact-append : (xs rest : List ℕ) → read_exact (length xs) (xs ++ rest) ≡ ok (xs, rest)
unfolding read_exact
read_exact-append xs rest =
    ground (arith, length-append xs rest, take-append_left xs rest, drop-append_left xs rest)

pub read_exact-eq-ok :
    (n : ℕ) (input : List ℕ) {a b : List ℕ}
    → read_exact n input ≡ ok (a, b)
    → (input ≡ a ++ b) × (length a ≡ n)
unfolding read_exact
read_exact-eq-ok n input h = ground (arith, take-append-drop n input, length-take n input)

-- A read that succeeds does not look past its `n` bytes.
pub read_exact-append_ok :
    (n : ℕ) (input more : List ℕ) {a b : List ℕ}
    → read_exact n input ≡ ok (a, b)
    → read_exact n (input ++ more) ≡ ok (a, b ++ more)
read_exact-append_ok n input more {a} {b} h =
    let (e, l) = read_exact-eq-ok n input h in
    rw (e, append_assoc a b more, ← l) (read_exact-append a (b ++ more))

pub read_exact-cases :
    (n : ℕ) (input : List ℕ)
    → ((p : List ℕ × List ℕ) × (read_exact n input ≡ ok p))
      ⊎ (read_exact n input ≡ err unexpected_eof)
unfolding read_exact
read_exact-cases n input = elim (Bool-cases (ltb (length input) n)) [
  | inl short ↦ inr (rw short)
  | inr enough ↦ inl ((take n input, drop n input), rw enough)
]

-- `read_u32` and `write_u32`: big-endian.
unfoldable pub read_u32 : List ℕ → IoResult (ℕ × List ℕ)
read_u32 input = do
  (raw, rest) ← read_exact 4 input
  ok (u32_from_be_bytes (get_or raw 0 0) (get_or raw 1 0) (get_or raw 2 0) (get_or raw 3 0), rest)

pub read_u32-append :
    (n : ℕ) (rest : List ℕ) → IsU32 n → read_u32 (u32_to_be_bytes n ++ rest) ≡ ok (n, rest)
unfolding read_u32
read_u32-append n rest h = rw (read_exact-append (u32_to_be_bytes n) rest) (rw (u32_round n h) refl)

pub read_u32_shorter :
    (input : List ℕ) {n : ℕ} {rest : List ℕ}
    → read_u32 input ≡ ok (n, rest)
    → length input ≡ 4 + length rest
unfolding read_u32
read_u32_shorter input {n} {rest} e = elim (read_exact-cases 4 input) [
  | inl ((raw, body), found) ↦
      let (split, l) = read_exact-eq-ok 4 input found in
      let e' = rw (found, ◌>>=◌) at e in rw split (ground (arith, length-append raw body))
  | inr eof ↦ absurd (ground arith)
]

pub read_u32-cases :
    (input : List ℕ)
    → ((p : ℕ × List ℕ) × (read_u32 input ≡ ok p)) ⊎ (read_u32 input ≡ err unexpected_eof)
unfolding read_u32
read_u32-cases input = elim (read_exact-cases 4 input) [
  | inl ((raw, rest), e) ↦ inl (
    (u32_from_be_bytes (get_or raw 0 0) (get_or raw 1 0) (get_or raw 2 0) (get_or raw 3 0), rest),
    rw (e, ◌>>=◌) refl,
  )
  | inr eof ↦ inr (rw eof)
]

-- `read_u8` and `read_u16`
unfoldable pub read_u8 : List ℕ → IoResult (ℕ × List ℕ)
read_u8 input = do (raw, rest) ← read_exact 1 input; ok (get_or raw 0 0, rest)

unfoldable pub read_u16 : List ℕ → IoResult (ℕ × List ℕ)
read_u16 input = do
  (raw, rest) ← read_exact 2 input
  ok (u16_from_be_bytes (get_or raw 0 0) (get_or raw 1 0), rest)

-- These reads by the shape of the input.
pub read_u8-cons : (b : ℕ) (rest : List ℕ) → read_u8 (b ∷ rest) ≡ ok (b, rest)
unfolding read_u8
read_u8-cons b rest = rw (read_exact-append (b ∷ []) rest) refl

pub read_u16-cons :
    (a b : ℕ) (rest : List ℕ) → read_u16 (a ∷ b ∷ rest) ≡ ok (u16_from_be_bytes a b, rest)
unfolding read_u16
read_u16-cons a b rest = rw (read_exact-append (a ∷ b ∷ []) rest) refl
