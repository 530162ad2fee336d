-- ===== src/Base/Counters.antt =====
-- Shared counters of 64 bits (`AtomicUsize`). A guard holds one of them: it raises it when it is made
-- and lowers it when it is dropped.
use rps.Base.{
  subst, ℕ, zero, suc, ◌+◌, ◌-◌, ◌%◌, ◌^◌, ◌≤◌, ◌<◌, ◌≡◌, ◌≢◌, refl, ◌∙◌, ap, inl, inr, false, List,
  [], ◌∷◌, ◌++◌, if◌then◌else◌, length, get_or, set, length-set, length-append, arith, Bool-cases,
  ◌==◌, ==_iff,
}

-- `fetch_add(1)` and `fetch_sub(1)`
abbrev pub count_up : List ℕ → ℕ → List ℕ
count_up counters c = set counters c ((get_or counters c 0 + 1) % 2 ^ 64)

abbrev pub count_down : List ℕ → ℕ → List ℕ
count_down counters c = set counters c ((get_or counters c 0 + (2 ^ 64 - 1)) % 2 ^ 64)

-- How many live guards hold a counter.
pub live : ℕ → List ℕ → ℕ
live c [] = 0
live c (d ∷ guards) = (if d == c then 1 else 0) + live c guards

pub live-append : (c : ℕ) (xs ys : List ℕ) → live c (xs ++ ys) ≡ live c xs + live c ys
unfolding live
live-append c [] ys = omega arith
live-append c (x ∷ xs) ys = omega (arith, live-append c xs ys)

pub live_bounded : (c : ℕ) (guards : List ℕ) → live c guards ≤ length guards
unfolding live
live_bounded c [] = omega arith
live_bounded c (d ∷ guards) = ground (arith, live_bounded c guards)

pub get_or-set_self {ℓ} :
    {A : Type ℓ} (xs : List A) (c : ℕ) (v d : A) → c < length xs → get_or (set xs c v) c d ≡ v
get_or-set_self [] c v d h = absurd (omega arith)
get_or-set_self (x ∷ xs) zero v d h = refl
get_or-set_self (x ∷ xs) (suc c) v d h = get_or-set_self xs c v d (omega arith)

pub get_or-set_ne {ℓ} :
    {A : Type ℓ} (xs : List A) (c i : ℕ) (v d : A) → c ≢ i → get_or (set xs c v) i d ≡ get_or xs i d
get_or-set_ne [] c i v d h = refl
get_or-set_ne (x ∷ xs) zero zero v d h = absurd (h refl)
get_or-set_ne (x ∷ xs) zero (suc i) v d h = refl
get_or-set_ne (x ∷ xs) (suc c) zero v d h = refl
get_or-set_ne (x ∷ xs) (suc c) (suc i) v d h = get_or-set_ne xs c i v d (λ e. h (ap suc e))

pub get_or-append_zero : (xs : List ℕ) (c : ℕ) → get_or (xs ++ 0 ∷ []) c 0 ≡ get_or xs c 0
get_or-append_zero [] zero = refl
get_or-append_zero [] (suc c) = refl
get_or-append_zero (x ∷ xs) zero = refl
get_or-append_zero (x ∷ xs) (suc c) = get_or-append_zero xs c

pub get_or-past : (xs : List ℕ) (c : ℕ) → length xs ≤ c → get_or xs c 0 ≡ 0
get_or-past [] c h = refl
get_or-past (x ∷ xs) zero h = absurd (omega arith)
get_or-past (x ∷ xs) (suc c) h = get_or-past xs c (omega arith)

-- Each counter is the number of its live guards, in 64 bits, and no guard has a counter that does not
-- exist.
pub record IsTally (counters guards : List ℕ) : Type 0 where
  pub counts : (c : ℕ) → get_or counters c 0 ≡ live c guards % 2 ^ 64
  pub held : (c : ℕ) → length counters ≤ c → live c guards ≡ 0

pub empty-IsTally : IsTally [] []
unfolding live
empty-IsTally = record { counts = λ c. get_or-past [] c (omega arith); held = λ c k. refl }

pub live-cons_self : (c : ℕ) (guards : List ℕ) → live c (c ∷ guards) ≡ 1 + live c guards
unfolding live
live-cons_self c guards = ground (arith, ==_iff c c)

live-cons_other :
    (c i : ℕ) (guards : List ℕ) → (c == i) ≡ false → live i (c ∷ guards) ≡ live i guards
unfolding live
live-cons_other c i guards h = rw h (omega arith)

pub live-remove :
    (c i : ℕ) (front back : List ℕ)
    → live i (front ++ c ∷ back) ≡ live i (front ++ back) + (if c == i then 1 else 0)
unfolding live
live-remove c i [] back = omega arith
live-remove c i (x ∷ front) back = omega (arith, live-remove c i front back)

module _ {counters guards guards' : List ℕ} (c v : ℕ) (h : c < length counters)
    (tally : IsTally counters guards) where
  -- One counter changes with its guards.
  changed-IsTally :
      v ≡ live c guards' % 2 ^ 64
      → ((i : ℕ) → (c == i) ≡ false → live i guards' ≡ live i guards)
      → IsTally (set counters c v) guards'
  changed-IsTally self others =
      let l = length-set counters c v in
      record {
        counts = λ i. elim (Bool-cases (c == i)) [
          | inl same ↦
              subst (λ j. get_or (set counters c v) j 0 ≡ live j guards' % 2 ^ 64)
                ((==_iff c i).0 same) (get_or-set_self counters c v 0 h ∙ self)
          | inr other ↦
              rw (others i other)
                (get_or-set_ne counters c i v 0 (λ s. ground (arith, ==_iff c i)) ∙ tally.counts i)
        ];
        held = λ i k. elim (Bool-cases (c == i)) [
          | inl same ↦ absurd (ground (arith, l, ==_iff c i))
          | inr other ↦ others i other ∙ tally.held i (ground (arith, l))
        ];
      }

pub count_up-IsTally :
    {counters guards : List ℕ} (c : ℕ)
    → c < length counters
    → IsTally counters guards
    → IsTally (count_up counters c) (c ∷ guards)
count_up-IsTally {counters} {guards} c h t =
    changed-IsTally c ((get_or counters c 0 + 1) % 2 ^ 64) h t
      (omega (arith, t.counts c, live-cons_self c guards))
      (λ i other. live-cons_other c i guards other)

pub count_down-IsTally :
    {counters : List ℕ} (front back : List ℕ) (c : ℕ)
    → IsTally counters (front ++ c ∷ back)
    → IsTally (count_down counters c) (front ++ back)
count_down-IsTally {counters} front back c t =
    let one : Path ℕ (if c == c then 1 else 0) 1 = ground (arith, ==_iff c c) in
    let more = live-remove c c front back in
    changed-IsTally c ((get_or counters c 0 + (2 ^ 64 - 1)) % 2 ^ 64)
      (ground (arith, t.held c, more, one)) t (omega (arith, t.counts c, more, one))
      (λ i other. ground (arith, live-remove c i front back))

-- A new counter starts at 0.
pub append-IsTally :
    {counters guards : List ℕ} → IsTally counters guards → IsTally (counters ++ 0 ∷ []) guards
append-IsTally {counters} t = record {
  counts = λ c. get_or-append_zero counters c ∙ t.counts c;
  held = λ c k. t.held c (omega (arith, length-append counters (0 ∷ [])));
}
