-- ===== src/Core/Tests.antt =====
-- The theorems of this part at concrete inputs, with a cipher and a serializer that do what is
-- documented of theirs.
use rps.Base.{
  ◌≡◌, refl, Option, none, some, List, [], ◌∷◌, ◌++◌, ◌≤◌, ℕ, ◌+◌, ◌-◌, arith, length, replicate,
  take, leb, if◌then◌else◌, All, length-append, ltb,
}
use mathlib.Core.List.{flatten}
use rps.Base.Words.{IsByte}
use rps.Base.Bytes.{take-append_left}
use rps.Core.Noise.{Cipher, inbound, outbound, max_noise_message_len}
use rps.Core.Noise.Transport.{inbound-outbound}
use rps.Core.Protocol.{Serde}

-- A tag of zeros, and no secret.
abbrev seal : Unit {0} → List ℕ → Option (List ℕ × Unit {0})
seal s plain =
    if leb (length plain + 16) max_noise_message_len
    then some (plain ++ replicate 16 0, s)
    else none

abbrev unseal : Unit {0} → List ℕ → Option (List ℕ × Unit {0})
unseal s c = some (take (length c - 16) c, s)

unseal-tag :
    (plain : List ℕ)
    → take (length (plain ++ replicate 16 0) - 16) (plain ++ replicate 16 0) ≡ plain
unseal-tag plain =
    let n : length (plain ++ replicate 16 0) - 16 ≡ length plain =
      omega (arith, length-append plain (replicate 16 0)) in
    rw n (take-append_left plain (replicate 16 0))

seal-short :
    (s : Unit {0}) (plain : List ℕ)
    → length plain + 16 ≤ max_noise_message_len
    → seal s plain ≡ some (plain ++ replicate 16 0, s)
seal-short s plain h = ground arith

abbrev tag_cipher : Cipher
tag_cipher = record {
  State = Unit {0};
  write_message = seal;
  read_message = unseal;
  InStep = λ s r. Unit {0};
  seal_open = λ s r plain p h. (
    plain ++ replicate 16 0,
    s,
    r,
    seal-short s plain h,
    omega (arith, length-append plain (replicate 16 0)),
    rw (unseal-tag plain) refl,
    tt,
  );
}

inbound-outbound_example :
    inbound tag_cipher 2 tt (outbound tag_cipher tt ((1 ∷ 2 ∷ []) ∷ (3 ∷ []) ∷ [])) ≡ 1 ∷ 2 ∷ 3 ∷ []
unfolding flatten
inbound-outbound_example =
    inbound-outbound tag_cipher ((1 ∷ 2 ∷ []) ∷ (3 ∷ []) ∷ []) tt tt 2 tt
      ((omega arith, omega arith), ((omega arith, omega arith), tt)) (omega arith)

abbrev message : List ℕ
message = 1 ∷ 2 ∷ []

-- A number as one digit.
abbrev write_digit : ℕ → Option (List ℕ)
write_digit n = if ltb n 10 then some ((n + 48) ∷ []) else none

abbrev read_digit : List ℕ → Option ℕ
read_digit (c ∷ []) = some (c - 48)
read_digit _ = none

digit_round : (n : ℕ) (bytes : List ℕ) → write_digit n ≡ some bytes → read_digit bytes ≡ some n
digit_round n bytes h = ground arith

abbrev digits : Serde ℕ
digits = record { to_vec = write_digit; from_slice = read_digit; from_slice-to_vec = digit_round }

abbrev key : List ℕ
key = replicate 32 171

key-IsBytes : All IsByte key
key-IsBytes = grind arith
