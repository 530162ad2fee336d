-- ===== src/Core/Noise/Transport.antt =====
-- The byte stream through the encrypted channel.
use rps.Base.{
  ℕ, zero, suc, ◌%◌, ◌^◌, ◌≤◌, ◌<◌, ◌≡◌, refl, List, [], ◌∷◌, ◌++◌, length, All, ok, err, arith, ap,
}
use mathlib.Core.List.{append_assoc, flatten}
use rps.Base.Words.{u32_to_be_bytes}
use rps.Base.Bytes.{read_exact, read_u32, noise_too_large, read_u32-append, read_exact-append}
use rps.Core.Noise.{
  Cipher, read_noise_message, write_noise_message, outbound, inbound, max_noise_message_len,
  max_transport_plaintext_len,
}

read_noise_message-framed :
    (message rest : List ℕ)
    → length message ≤ max_noise_message_len
    → read_noise_message ((u32_to_be_bytes (length message % 2 ^ 32) ++ message) ++ rest)
      ≡ ok (message, rest)
unfolding read_noise_message
read_noise_message-framed message rest h =
    rw (append_assoc (u32_to_be_bytes (length message % 2 ^ 32)) message rest) (
      rw (read_u32-append (length message % 2 ^ 32) (message ++ rest) (omega arith))
        (rw word (ground (arith, read_exact-append message rest))))
  where
    word : length message % 2 ^ 32 ≡ length message
    word = omega arith

-- A message of at most 65535 bytes is written, and read back whole, whatever follows it; a longer one
-- is refused.
pub read_noise_message-write :
    (message rest : List ℕ)
    → (length message ≤ max_noise_message_len
        → (out : List ℕ) × (write_noise_message message ≡ ok out)
          × (read_noise_message (out ++ rest) ≡ ok (message, rest)))
      × (max_noise_message_len < length message → write_noise_message message ≡ err noise_too_large)
unfolding write_noise_message
read_noise_message-write message rest = (
  λ h. (
    u32_to_be_bytes (length message % 2 ^ 32) ++ message,
    ground arith,
    read_noise_message-framed message rest h,
  ),
  λ h. ground arith,
)

-- One read of the outbound task: never empty, and at most its buffer.
abbrev pub IsChunk : List ℕ → Type 0
IsChunk chunk = (1 ≤ length chunk) × (length chunk ≤ max_transport_plaintext_len)

module _ (cipher : Cipher) where
  open cipher use {State, InStep}

  -- However the reads of the outbound task cut the byte stream, the inbound task of the peer passes
  -- on exactly that stream: nothing is lost, doubled or reordered. The two ciphers are in step at
  -- first, no read is empty or longer than the buffer, and there is a round for each.
  pub inbound-outbound :
      (chunks : List (List ℕ)) (s r : State) (fuel : ℕ)
      → InStep s r
      → All IsChunk chunks
      → length chunks ≤ fuel
      → inbound cipher fuel r (outbound cipher s chunks) ≡ flatten chunks
  unfolding inbound outbound flatten
  inbound-outbound [] s r zero p h k = refl
  inbound-outbound [] s r (suc fuel) p h k = unfold read_noise_message read_u32 read_exact in refl
  inbound-outbound (chunk ∷ chunks) s r zero p h k = absurd (omega arith)
  inbound-outbound ([] ∷ chunks) s r (suc fuel) p h k = absurd (omega arith)
  inbound-outbound ((b ∷ bs) ∷ chunks) s r (suc fuel) p h k =
      let (c, s', r', wrote, l, read, p') = cipher.seal_open s r (b ∷ bs) p (omega arith) in
      let (out, framed, back) =
        (read_noise_message-write c (outbound cipher s' chunks)).0 (omega arith) in
      rw (wrote, outbound)
        (rw (framed, outbound)
          (rw (back, inbound)
            (rw (read, inbound)
              (ap (◌++◌ (b ∷ bs)) (inbound-outbound chunks s' r' fuel p' h.1 (omega arith))))))
