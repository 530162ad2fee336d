-- ===== src/Controller/Socks5/Encoded.antt =====
-- An address that was read is written as the bytes that it was read from, which are read back to it.
use rps.Base.{
  ℕ, ◌≡◌, refl, ◌∙◌, ap, sym, inl, inr, some, List, [], ◌∷◌, ◌++◌, ◌==◌, length, get_or, ok, All,
  arith, Bool-cases, Result-cases,
}
use mathlib.Core.List.{append_assoc}
use rps.Base.Text.{Text}
use rps.Base.Text.Decimal.{parse_ipv4, parse_ipv4-ipv4_text}
use rps.Base.Words.{u16_to_be_bytes, u16_from_be_bytes, IsByte}
use rps.Base.Bytes.{
  read_exact, read_u8, read_u16, read_exact-append, read_exact-eq-ok, read_u8-cons,
  read_exact-cases,
}
use rps.Controller.Socks5.{
  Ipv6Text, SocksAddr, ipv4_string, host_bytes, encode_udp_response, read_host, read_socks_addr,
  atyp_ipv4, atyp_ipv6, atyp_domain,
}

All-append_split {ℓ κ} :
    {A : Type ℓ} (P : A → Type κ) (xs ys : List A) → All P (xs ++ ys) → All P xs × All P ys
All-append_split P [] ys h = (tt, h)
All-append_split P (x ∷ xs) ys h = let (a, b) = All-append_split P xs ys h.1 in ((h.0, a), b)

-- Four bytes.
four_bytes :
    (raw : List ℕ) → length raw ≡ 4 → All IsByte raw → parse_ipv4 (ipv4_string raw) ≡ some raw
four_bytes (a ∷ b ∷ c ∷ d ∷ []) h (ha, (hb, (hc, (hd, _)))) =
    parse_ipv4-ipv4_text a b c d ha hb hc hd
four_bytes (a ∷ b ∷ c ∷ d ∷ e ∷ _) h _ = absurd (omega arith)
four_bytes (a ∷ b ∷ c ∷ []) h _ = absurd (omega arith)
four_bytes (a ∷ b ∷ []) h _ = absurd (omega arith)
four_bytes (a ∷ []) h _ = absurd (omega arith)
four_bytes [] h _ = absurd (omega arith)

two_bytes :
    (raw : List ℕ)
    → length raw ≡ 2
    → All IsByte raw
    → u16_to_be_bytes (u16_from_be_bytes (get_or raw 0 0) (get_or raw 1 0)) ≡ raw
two_bytes (a ∷ b ∷ []) h (ha, (hb, _)) = ground arith
two_bytes (a ∷ b ∷ c ∷ _) h _ = absurd (omega arith)
two_bytes (a ∷ []) h _ = absurd (omega arith)
two_bytes [] h _ = absurd (omega arith)

one_byte : (raw : List ℕ) → length raw ≡ 1 → get_or raw 0 0 ∷ [] ≡ raw
one_byte (a ∷ []) h = refl
one_byte (a ∷ b ∷ _) h = absurd (omega arith)
one_byte [] h = absurd (omega arith)

module _ (v6 : Ipv6Text) where
  -- A host that was read: its bytes, which are also those it is written as.
  record HostRead (atyp : ℕ) (input : List ℕ) (host : Text) (left : List ℕ) : Type 0 where
    bytes : List ℕ
    split : input ≡ bytes ++ left
    written :
        (port : ℕ) → host_bytes v6 (record { host = host; port = port; atyp = atyp }) ≡ ok bytes
    again : (more : List ℕ) → read_host v6 atyp (bytes ++ more) ≡ ok (host, more)

  ipv4_read :
      (input : List ℕ) {host : Text} {left : List ℕ}
      → All IsByte input
      → read_host v6 atyp_ipv4 input ≡ ok (host, left)
      → HostRead atyp_ipv4 input host left
  unfolding read_host host_bytes
  ipv4_read input {host} {left} all h = elim (read_exact-cases 4 input) [
    | inr eof ↦ absurd (ground arith)
    | inl ((raw, rest), found) ↦
        let (split, l) = read_exact-eq-ok 4 input found in
        let (ours, _) = All-append_split IsByte raw rest (rw split at all) in
        let back = four_bytes raw l ours in
        record {
          bytes = raw;
          split = ground arith;
          written = λ port. ground arith;
          again = λ more.
              let e : read_exact 4 (raw ++ more) ≡ ok (raw, more) =
                rw (sym l) (read_exact-append raw more) in
              ground arith;
        }
  ]

  ipv6_read :
      (input : List ℕ) {host : Text} {left : List ℕ}
      → read_host v6 atyp_ipv6 input ≡ ok (host, left)
      → HostRead atyp_ipv6 input host left
  unfolding read_host host_bytes
  ipv6_read input {host} {left} h = elim (read_exact-cases 16 input) [
    | inr eof ↦ absurd (ground arith)
    | inl ((raw, rest), found) ↦
        let (split, l) = read_exact-eq-ok 16 input found in
        let back = v6.parse-to_string raw l in
        record {
          bytes = raw;
          split = ground arith;
          written = λ port. ground arith;
          again = λ more.
              let e : read_exact 16 (raw ++ more) ≡ ok (raw, more) =
                rw (sym l) (read_exact-append raw more) in
              ground arith;
        }
  ]

  domain_read :
      (input : List ℕ) {host : Text} {left : List ℕ}
      → All IsByte input
      → read_host v6 atyp_domain input ≡ ok (host, left)
      → HostRead atyp_domain input host left
  unfolding read_host host_bytes
  domain_read [] {host} {left} all h = absurd (unfold read_u8 read_exact in ground arith)
  domain_read (n ∷ input) {host} {left} (small, all) h =
      let first = read_u8-cons n input in
      elim (read_exact-cases n input) [
        | inr eof ↦ absurd (ground arith)
        | inl ((raw, rest), found) ↦
            let (split, l) = read_exact-eq-ok n input found in
            record {
              bytes = n ∷ raw;
              split = ground arith;
              written = λ port. ground arith;
              again = λ more.
                  let e : read_exact n (raw ++ more) ≡ ok (raw, more) =
                    rw (sym l) (read_exact-append raw more) in
                  ground (arith, read_u8-cons n (raw ++ more));
            }
      ]

  host_read :
      (atyp : ℕ) (input : List ℕ) {host : Text} {left : List ℕ}
      → All IsByte input
      → read_host v6 atyp input ≡ ok (host, left)
      → HostRead atyp input host left
  host_read atyp input {host} {left} all h = elim (Bool-cases (atyp == atyp_ipv4)) [
    | inl a ↦ let e : atyp ≡ atyp_ipv4 = ground arith in rw e (ipv4_read input all (rw e at h))
    | inr a ↦ elim (Bool-cases (atyp == atyp_ipv6)) [
      | inl b ↦ let e : atyp ≡ atyp_ipv6 = ground arith in rw e (ipv6_read input (rw e at h))
      | inr b ↦ elim (Bool-cases (atyp == atyp_domain)) [
        | inl c ↦
            let e : atyp ≡ atyp_domain = ground arith in rw e (domain_read input all (rw e at h))
        | inr c ↦ absurd (unfold read_host in ground arith)
      ]
    ]
  ]

  -- The same of a whole address.
  pub record AddrRead (atyp : ℕ) (input : List ℕ) (addr : SocksAddr) (left : List ℕ) : Type 0 where
    pub bytes : List ℕ
    pub split : input ≡ bytes ++ left
    pub written :
        (more : List ℕ) → encode_udp_response v6 addr more ≡ ok ((0 ∷ 0 ∷ 0 ∷ atyp ∷ bytes) ++ more)
    pub again : (more : List ℕ) → read_socks_addr v6 (bytes ++ more) atyp ≡ ok (addr, more)

  addr_of : ℕ → Text → List ℕ → SocksAddr
  addr_of atyp host raw = record {
    host = host;
    port = u16_from_be_bytes (get_or raw 0 0) (get_or raw 1 0);
    atyp = atyp;
  }

  port_read :
      (atyp : ℕ) (input : List ℕ) (raw : List ℕ) {host : Text} {behind left : List ℕ}
      → HostRead atyp input host behind
      → behind ≡ raw ++ left
      → length raw ≡ 2
      → All IsByte raw
      → AddrRead atyp input (addr_of atyp host raw) left
  unfolding read_socks_addr read_u16 encode_udp_response addr_of
  port_read atyp input raw {host} {behind} {left} first split l ours =
      let port = two_bytes raw l ours in
      record {
        bytes = first.bytes ++ raw;
        split = first.split ∙ rw split (sym (append_assoc first.bytes raw left));
        written = λ more. rw (first.written (addr_of atyp host raw).port) (
            ap (λ (x : List ℕ). ok ((0 ∷ 0 ∷ 0 ∷ atyp ∷ first.bytes) ++ (x ++ more))) port
            ∙ ap ok (sym (append_assoc (0 ∷ 0 ∷ 0 ∷ atyp ∷ first.bytes) raw more)));
        again = λ more.
            let e : read_exact 2 (raw ++ more) ≡ ok (raw, more) =
              rw (sym l) (read_exact-append raw more) in
            rw (append_assoc first.bytes raw more, first.again (raw ++ more), e) refl;
      }

  pub addr_read :
      (atyp : ℕ) (input : List ℕ) {addr : SocksAddr} {left : List ℕ}
      → All IsByte input
      → read_socks_addr v6 input atyp ≡ ok (addr, left)
      → AddrRead atyp input addr left
  unfolding read_socks_addr read_u16 addr_of
  addr_read atyp input {addr} {left} all h = elim (Result-cases (read_host v6 atyp input)) [
    | inr (e, failed) ↦ absurd (ground arith)
    | inl ((host, behind), got) ↦
        let first = host_read atyp input {host = host} {left = behind} all got in
        let (_, others) = All-append_split IsByte first.bytes behind (rw first.split at all) in
        elim (read_exact-cases 2 behind) [
          | inr eof ↦ absurd (ground arith)
          | inl ((raw, rest), found) ↦
              let (split, l) = read_exact-eq-ok 2 behind found in
              let (ours, _) = All-append_split IsByte raw rest (rw split at others) in
              let same : (addr_of atyp host raw ≡ addr) × (rest ≡ left) = ground arith in
              rw (sym same.0, sym same.1) (port_read atyp input raw first split l ours)
        ]
  ]
