-- ===== src/Controller/Socks5/Addr.antt =====
-- The reader of addresses in requests and the parser of addresses in packets agree, and a reply to a
-- packet is addressed as the packet was.
use rps.Base.{
  ℕ, zero, suc, ◌+◌, ◌≤◌, ◌<◌, ◌≡◌, refl, ◌∙◌, ap, inl, inr, Option, none, some, List, [], ◌∷◌, ltb,
  leb, ◌==◌, if◌then◌else◌, length, take, drop, get_or, Result, ok, err, length-drop, arith,
  Bool-cases, Result-cases,
}
use native.Mathlib.Numerals.{unary_clauses}
use rps.Base.Text.{Text}
use rps.Base.Bytes.{unexpected_eof, read_exact, read_u8, read_u16}
use rps.Controller.Socks5.{
  Ipv6Text, SocksError, read_host, read_socks_addr, parse_host, parse_udp_addr, atyp_ipv4,
  atyp_ipv6, atyp_domain,
}

module _ {ℓ} {A : Type ℓ} where
  drop-drop : (k n : ℕ) (xs : List A) → drop n (drop k xs) ≡ drop (k + n) xs
  drop-drop zero n xs = ap (λ (m : ℕ). drop m xs) (omega arith)
  drop-drop (suc k) zero [] = ground arith
  drop-drop (suc k) (suc n) [] = simp unary_clauses refl
  drop-drop (suc k) n (x ∷ xs) =
      let same : suc (k + n) ≡ suc k + n = omega arith in
      drop-drop k n xs ∙ ap (λ (m : ℕ). drop m (x ∷ xs)) same

  get_or-take : (n i : ℕ) (xs : List A) (d : A) → i < n → get_or (take n xs) i d ≡ get_or xs i d
  get_or-take zero i xs d h = absurd (omega arith)
  get_or-take (suc n) i [] d h = refl
  get_or-take (suc n) zero (x ∷ xs) d h = refl
  get_or-take (suc n) (suc i) (x ∷ xs) d h = get_or-take n i xs d (omega arith)

  get_or-drop : (k : ℕ) (xs : List A) (d : A) → get_or (drop k xs) 0 d ≡ get_or xs k d
  get_or-drop zero xs d = refl
  get_or-drop (suc k) [] d = refl
  get_or-drop (suc k) (x ∷ xs) d = get_or-drop k xs d

abbrev pub result {ℓ} : {A : Type ℓ} → Result SocksError A → Option A
result (ok a) = some a
result (err e) = none

-- A position in the packet, as what is left behind it.
abbrev pub left_in {ℓ} : {A : Type ℓ} → List ℕ → Option (A × ℕ) → Option (A × List ℕ)
left_in packet none = none
left_in packet (some (a, cursor)) = some (a, drop cursor packet)

read_exact-drop :
    (n k : ℕ) (packet : List ℕ)
    → k ≤ length packet
    → read_exact n (drop k packet) ≡ (
        if leb (k + n) (length packet)
        then ok (take n (drop k packet), drop (k + n) packet)
        else err unexpected_eof)
unfolding read_exact
read_exact-drop n k packet h = ground (arith, length-drop k packet, drop-drop k n packet)

read_u8-drop :
    (k : ℕ) (packet : List ℕ)
    → k < length packet
    → read_u8 (drop k packet) ≡ ok (get_or packet k 0, drop (k + 1) packet)
unfolding read_u8
read_u8-drop k packet h =
    rw (read_exact-drop 1 k packet (omega arith))
      (ground (arith, get_or-take 1 0 (drop k packet) 0 (omega arith), get_or-drop k packet 0))

read_u8-drop_end :
    (k : ℕ) (packet : List ℕ) → length packet ≤ k → read_u8 (drop k packet) ≡ err unexpected_eof
unfolding read_u8 read_exact
read_u8-drop_end k packet h = ground (arith, length-drop k packet)

module _ (v6 : Ipv6Text) where
  read_host-parse_host :
      (atyp : ℕ) (packet : List ℕ) (k : ℕ)
      → k ≤ length packet
      → result (read_host v6 atyp (drop k packet))
        ≡ left_in packet (result (parse_host v6 atyp packet k))
  unfolding read_host parse_host
  read_host-parse_host atyp packet k h = elim (Bool-cases (atyp == atyp_ipv4)) [
    | inl a ↦ ground (arith, read_exact-drop 4 k packet h)
    | inr a ↦ elim (Bool-cases (atyp == atyp_ipv6)) [
      | inl b ↦ ground (arith, read_exact-drop 16 k packet h)
      | inr b ↦ elim (Bool-cases (atyp == atyp_domain)) [
        | inl c ↦
            let len = get_or packet k 0 in
            elim (Bool-cases (ltb k (length packet))) [
              | inl there ↦ ground (
                arith,
                read_u8-drop k packet (ground arith),
                read_exact-drop len (k + 1) packet (ground arith),
              )
              | inr short ↦ ground (arith, read_u8-drop_end k packet (ground arith))
            ]
        | inr c ↦ ground arith
      ]
    ]
  ]

  parse_host-bound :
      (atyp : ℕ) (packet : List ℕ) (k : ℕ) {host : Text} {cursor : ℕ}
      → parse_host v6 atyp packet k ≡ ok (host, cursor)
      → cursor ≤ length packet
  unfolding parse_host
  parse_host-bound atyp packet k {host} {cursor} h = ground arith

  -- Where a packet has an address after the byte at `offset`, the reader of requests finds the same one,
  -- and leaves what is behind it; where it has none, the reader fails as well.
  pub read_socks_addr-parse_udp_addr :
      (packet : List ℕ) (offset : ℕ)
      → offset < length packet
      → result (read_socks_addr v6 (drop (offset + 1) packet) (get_or packet offset 0))
        ≡ left_in packet (result (parse_udp_addr v6 packet offset))
  unfolding read_socks_addr parse_udp_addr read_u16
  read_socks_addr-parse_udp_addr packet offset h =
      let atyp = get_or packet offset 0 in
      let same = read_host-parse_host atyp packet (offset + 1) (omega arith) in
      elim (Result-cases (parse_host v6 atyp packet (offset + 1))) [
        | inl ((host, cursor), found) ↦
            let bound =
              parse_host-bound atyp packet (offset + 1) {host = host} {cursor = cursor} found in
            elim (Result-cases (read_host v6 atyp (drop (offset + 1) packet))) [
              | inl (r, read) ↦ ground (
                arith,
                read_exact-drop 2 cursor packet bound,
                get_or-take 2 0 (drop cursor packet) 0 (omega arith),
                get_or-take 2 1 (drop cursor packet) 0 (omega arith),
              )
              | inr (e, failed) ↦ absurd (ground arith)
            ]
        | inr (e, failed) ↦ elim (Result-cases (read_host v6 atyp (drop (offset + 1) packet))) [
          | inl (r, read) ↦ absurd (ground arith)
          | inr (e', failed') ↦ ground arith
        ]
      ]
