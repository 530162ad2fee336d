-- ===== src/Mux/Frame/Canonical.antt =====
-- A frame that is read is the encoding of that frame, and part of a frame is never one.
use rps.Base.{
  ℕ, ◌≤◌, ◌≡◌, refl, sym, ap, ◌∙◌, subst, All-append-left, ◌≢◌, List, [], ◌∷◌, ◌++◌, inl, inr,
  length, get_or, ok, err, ◌>>=◌, arith, length-append, All,
}
use mathlib.Core.List.{append_assoc, append-nil}
use rps.Base.Words.{IsU32, IsByte, u32_from_be_bytes}
use rps.Base.Bytes.{
  IoResult, IoError, unexpected_eof, read_exact-append, read_exact-eq-ok, read_exact-append_ok,
  read_exact-cases,
}
use rps.Mux.Frame.{
  Frame, header_bytes, read_frame, write_frame, read_payload, read_body, max_payload_len,
  header_len,
}
use rps.Mux.Frame.RoundTrip.{
  to_u8-try_from, read_payload-eq-ok, write_frame-eq, read_frame-write_frame,
}

read_frame-read_body :
    (header body : List ℕ)
    → length header ≡ header_len
    → read_frame (header ++ body) ≡ read_body header body
unfolding read_frame
read_frame-read_body header body h = rw (← h) (rw (read_exact-append header body) refl)

read_body-eq-ok :
    (a b c d e f g h i : ℕ) (body : List ℕ) {r : Frame} {rest : List ℕ}
    → All IsByte (a ∷ b ∷ c ∷ d ∷ e ∷ f ∷ g ∷ h ∷ i ∷ [])
    → read_body (a ∷ b ∷ c ∷ d ∷ e ∷ f ∷ g ∷ h ∷ i ∷ []) body ≡ ok (r, rest)
    → IsU32 r.stream_id
      × (length r.payload ≤ max_payload_len)
      × (header_bytes r.frame_type r.stream_id (length r.payload)
          ≡ a ∷ b ∷ c ∷ d ∷ e ∷ f ∷ g ∷ h ∷ i ∷ [])
      × (body ≡ r.payload ++ rest)
unfolding read_body header_bytes
read_body-eq-ok a b c d e f g h i body {r} {rest} bytes eq =
    let n : ℕ = u32_from_be_bytes f g h i in
    ground (
      arith,
      to_u8-try_from a {t = r.frame_type},
      read_payload-eq-ok n body {a = r.payload} {b = rest},
    )

read_body-append_ok :
    (header body more : List ℕ) {r : Frame} {rest : List ℕ}
    → read_body header body ≡ ok (r, rest)
    → read_body header (body ++ more) ≡ ok (r, rest ++ more)
unfolding read_body read_payload
read_body-append_ok header body more {r} {rest} eq =
    let n : ℕ =
      u32_from_be_bytes (get_or header 5 0) (get_or header 6 0) (get_or header 7 0)
        (get_or header 8 0) in
    ground (arith, read_exact-append_ok n body more {a = r.payload} {b = rest})

read_body-append_err :
    (header body more : List ℕ) (e : IoError)
    → e ≢ unexpected_eof
    → read_body header body ≡ err e
    → read_body header (body ++ more) ≡ err e
unfolding read_body read_payload
read_body-append_err header body more e ne eq =
    let n : ℕ =
      u32_from_be_bytes (get_or header 5 0) (get_or header 6 0) (get_or header 7 0)
        (get_or header 8 0) in
    ground (arith, read_exact-cases n body)

abbrev octets : List ℕ → List ℕ
octets xs =
    get_or xs 0 0
    ∷ get_or xs 1 0
    ∷ get_or xs 2 0
    ∷ get_or xs 3 0
    ∷ get_or xs 4 0
    ∷ get_or xs 5 0
    ∷ get_or xs 6 0
    ∷ get_or xs 7 0
    ∷ get_or xs 8 0
    ∷ []

octets-eq : (xs : List ℕ) → length xs ≡ header_len → octets xs ≡ xs
octets-eq (a ∷ b ∷ c ∷ d ∷ e ∷ f ∷ g ∷ h ∷ i ∷ []) eq = refl
octets-eq _ eq = absurd (omega arith)

read_header-eq-ok :
    (header body : List ℕ) {r : Frame} {rest : List ℕ}
    → length header ≡ header_len
    → All IsByte header
    → read_body header body ≡ ok (r, rest)
    → (bytes : List ℕ) × IsU32 r.stream_id
      × (write_frame r ≡ ok bytes)
      × (header ++ body ≡ bytes ++ rest)
read_header-eq-ok header body {r} {rest} l bytes eq =
    let same = sym (octets-eq header l) in
    let (word, fits, head, tail) =
      read_body-eq-ok (get_or header 0 0) (get_or header 1 0) (get_or header 2 0)
        (get_or header 3 0) (get_or header 4 0) (get_or header 5 0) (get_or header 6 0)
        (get_or header 7 0) (get_or header 8 0) body {r = r} {rest = rest}
        (subst (All IsByte) same bytes) (subst (λ h. read_body h body ≡ ok (r, rest)) same eq) in
    (
      header_bytes r.frame_type r.stream_id (length r.payload) ++ r.payload,
      word,
      write_frame-eq r fits,
      rw tail (
          sym (append_assoc header r.payload rest)
          ∙ ap (λ h. (h ++ r.payload) ++ rest) (sym (head ∙ octets-eq header l))),
    )

-- A frame that is read from bytes was encoded as `write_frame` encodes it, whatever the peer is, and
-- has a 32-bit id.
pub read_frame-eq-ok :
    (input : List ℕ) {r : Frame} {rest : List ℕ}
    → All IsByte input
    → read_frame input ≡ ok (r, rest)
    → (bytes : List ℕ) × IsU32 r.stream_id × (write_frame r ≡ ok bytes) × (input ≡ bytes ++ rest)
unfolding read_frame
read_frame-eq-ok input {r} {rest} bytes eq = elim (read_exact-cases header_len input) [
  | inl ((header, body), e) ↦
      let (split, l) = read_exact-eq-ok header_len input e in
      let (out, word, wrote, same) =
        read_header-eq-ok header body {r = r} {rest = rest} l
          (All-append-left IsByte header body (subst (All IsByte) split bytes))
          (rw (e, ◌>>=◌) at eq) in
      (out, word, wrote, split ∙ same)
  | inr e ↦ absurd (ground arith)
]

read_frame-append_ok :
    (input more : List ℕ) {r : Frame} {rest : List ℕ}
    → read_frame input ≡ ok (r, rest)
    → read_frame (input ++ more) ≡ ok (r, rest ++ more)
unfolding read_frame
read_frame-append_ok input more {r} {rest} eq = elim (read_exact-cases header_len input) [
  | inl ((header, body), e) ↦
      rw (read_exact-append_ok header_len input more {a = header} {b = body} e)
        (read_body-append_ok header body more {r = r} {rest = rest} (rw (e, ◌>>=◌) at eq))
  | inr e ↦ absurd (ground arith)
]

read_frame-append_err :
    (input more : List ℕ) (x : IoError)
    → x ≢ unexpected_eof
    → read_frame input ≡ err x
    → read_frame (input ++ more) ≡ err x
unfolding read_frame
read_frame-append_err input more x ne eq = elim (read_exact-cases header_len input) [
  | inl ((header, body), e) ↦
      rw (read_exact-append_ok header_len input more {a = header} {b = body} e)
        (read_body-append_err header body more x ne (rw (e, ◌>>=◌) at eq))
  | inr e ↦ absurd (ground arith)
]

-- On a proper prefix of the encoding of a frame with a 32-bit id `read_frame` fails, as on a stream
-- that ends too early.
pub read_frame_truncated :
    (f : Frame) (bytes front back : List ℕ) (x : ℕ)
    → IsU32 f.stream_id
    → write_frame f ≡ ok bytes
    → bytes ≡ front ++ x ∷ back
    → read_frame front ≡ err unexpected_eof
read_frame_truncated f bytes front back x hid h e = go (read_frame front) refl
  where
    whole : read_frame (front ++ x ∷ back) ≡ ok (f, [])
    whole =
        subst (λ b. read_frame b ≡ ok (f, [])) (append-nil bytes ∙ e)
          (read_frame-write_frame f [] bytes hid h)

    go : (r : IoResult (Frame × List ℕ)) → read_frame front ≡ r → r ≡ err unexpected_eof
    go (ok (g, rest)) eq = absurd (
        ground (
          arith,
          whole,
          read_frame-append_ok front (x ∷ back) {r = g} {rest = rest} eq,
          length-append rest (x ∷ back),
        ))
    go (err unexpected_eof) eq = refl
    go (err y) eq = absurd (cc (whole, read_frame-append_err front (x ∷ back) y (λ z. cc) eq))
