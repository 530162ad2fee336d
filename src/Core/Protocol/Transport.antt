-- ===== src/Core/Protocol/Transport.antt =====
-- Messages arrive as they were sent, and a length over the limit is refused before anything of the
-- message is read.
use rps.Base.{
  ℕ, ◌+◌, ◌%◌, ◌^◌, ◌≤◌, ◌<◌, ◌≡◌, some, List, ◌++◌, length, length-append, ok, ◌>>=◌, arith,
  Option-cases, inl, inr,
}
use mathlib.Core.List.{append_assoc}
use rps.Base.Words.{u32_to_be_bytes}
use rps.Base.Bytes.{
  read_u32-append, read_exact-append, read_u32_shorter, read_exact-cases, read_exact-eq-ok,
  read_u32-cases,
}
use rps.Core.Protocol.{Serde, read_json, write_json, max_json_message_len}

module _ {A : Type 0} (serde : Serde A) where
  read_json-message :
      (value : A) (bytes rest : List ℕ)
      → serde.to_vec value ≡ some bytes
      → length bytes ≤ max_json_message_len
      → read_json serde ((u32_to_be_bytes (length bytes % 2 ^ 32) ++ bytes) ++ rest)
        ≡ ok (value, rest)
  unfolding read_json
  read_json-message value bytes rest e h =
      rw (append_assoc (u32_to_be_bytes (length bytes % 2 ^ 32)) bytes rest) (
        rw (read_u32-append (length bytes % 2 ^ 32) (bytes ++ rest) (omega arith)) (
          rw word
            (ground (arith, read_exact-append bytes rest, serde.from_slice-to_vec value bytes e))))
    where
      word : length bytes % 2 ^ 32 ≡ length bytes
      word = omega arith

  -- `read_json` reads back what `write_json` wrote, and leaves whatever follows it.
  pub read_json-write_json :
      (value : A) (out rest : List ℕ)
      → write_json serde value ≡ ok out
      → read_json serde (out ++ rest) ≡ ok (value, rest)
  unfolding write_json
  read_json-write_json value out rest h = elim (Option-cases (serde.to_vec value)) [
    | inl e ↦ absurd (ground arith)
    | inr (bytes, e) ↦ ground (arith, read_json-message value bytes rest e)
  ]

  -- Only a message of at most 1 MiB is read, and it takes the bytes of its length and no more.
  pub read_json_bounded :
      (input : List ℕ) {value : A} {rest : List ℕ}
      → read_json serde input ≡ ok (value, rest)
      → (length rest < length input) × (length input ≤ length rest + 4 + max_json_message_len)
  unfolding read_json
  read_json_bounded input {value} {rest} h = elim (read_u32-cases input) [
    | inl ((len, body), e) ↦ elim (read_exact-cases len body) [
      | inl ((bytes, rest'), f) ↦
          let (split, l) = read_exact-eq-ok len body f in
          let h' = rw (e, ◌>>=◌, f) at h in
          ground (
            arith,
            read_u32_shorter input {n = len} {rest = body} e,
            split,
            length-append bytes rest',
          )
      | inr eof ↦ absurd (ground arith)
    ]
    | inr eof ↦ absurd (ground arith)
  ]
