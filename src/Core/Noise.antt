-- ===== src/Core/Noise.antt =====
-- crates/rps-core/src/noise.rs: encrypted messages behind a length, and the two tasks that carry a
-- byte stream over them. The cipher of the `snow` crate is a parameter, `Cipher`.
pub mod Transport
use rps.Base.{
  ℕ, zero, suc, ◌+◌, ◌*◌, ◌%◌, ◌^◌, ◌≤◌, ◌≡◌, Bool, true, false, Option, none, some, List, [], ◌∷◌,
  ◌++◌, ltb, if◌then◌else◌, length, Result, ok, err, ◌>>=◌,
}
use rps.Base.Words.{u32_to_be_bytes}
use rps.Base.Bytes.{IoResult, read_exact, read_u32, noise_too_large}

abbrev pub max_noise_message_len : ℕ
max_noise_message_len = 65535

abbrev pub max_transport_plaintext_len : ℕ
max_transport_plaintext_len = 16 * 1024

unfoldable pub read_noise_message : List ℕ → IoResult (List ℕ × List ℕ)
read_noise_message input = do
  (len, body) ← read_u32 input
  if ltb max_noise_message_len len then err noise_too_large else read_exact len body

unfoldable pub write_noise_message : List ℕ → IoResult (List ℕ)
write_noise_message message =
    if ltb max_noise_message_len (length message)
    then err noise_too_large
    else ok (u32_to_be_bytes (length message % 2 ^ 32) ++ message)

-- `snow::TransportState`. A message grows by a tag of 16 bytes, and a message over 65535 bytes is
-- an error; what one side writes its peer reads, message by message, while their counters agree.
pub record Cipher : Type 1 where
  pub State : Type 0
  pub write_message : State → List ℕ → Option (List ℕ × State)
  pub read_message : State → List ℕ → Option (List ℕ × State)
  pub InStep : State → State → Type 0
  pub seal_open :
      (s r : State) (plain : List ℕ)
      → InStep s r
      → length plain + 16 ≤ max_noise_message_len
      → (c : List ℕ) × (s' r' : State) × (write_message s plain ≡ some (c, s'))
        × (length c ≡ length plain + 16)
        × (read_message r c ≡ some (plain, r'))
        × InStep s' r'

module _ (cipher : Cipher) where
  open cipher use {State, write_message, read_message}

  -- The outbound task of `spawn_transport`: the chunks are what its reads return, and the result
  -- is what it writes. It stops at an empty read and at the first error.
  unfoldable pub outbound : State → List (List ℕ) → List ℕ
  outbound s [] = []
  outbound s ([] ∷ chunks) = []
  outbound s ((b ∷ bs) ∷ chunks) = elim (write_message s (b ∷ bs)) [
    | none ↦ []
    | some (c, s') ↦
        let rest = outbound s' chunks in
        elim (write_noise_message c) [ err e ↦ [] | ok bytes ↦ bytes ++ rest ]
  ]

  -- The inbound task: the bytes that it passes on. A message takes at least the four bytes of its
  -- length, so as many rounds as there are bytes are enough.
  unfoldable pub inbound : ℕ → State → List ℕ → List ℕ
  inbound zero s input = []
  inbound (suc fuel) s input = elim (read_noise_message input) [
    | err e ↦ []
    | ok (encrypted, rest) ↦ elim (read_message s encrypted) [
      | none ↦ []
      | some (plain, s') ↦ plain ++ inbound fuel s' rest
    ]
  ]
