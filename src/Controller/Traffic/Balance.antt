-- ===== src/Controller/Traffic/Balance.antt =====
-- What is still owed to a counter, and what a batch pays of it.
use rps.Base.{
  ℕ, ◌+◌, ◌≤◌, ◌≡◌, refl, ◌∙◌, ap, inl, inr, Bool, true, false, none, List, [], ◌∷◌, if◌then◌else◌,
  ok, nat_eq, list_eq, pair_eq, eqb, eqb_iff, arith, Bool-cases,
}
use rps.Base.Int.{ℤ}
use rps.Base.Text.{Text}
use rps.Base.Words.{saturating_add}
use rps.Base.Map.{Map, get, insert}
use rps.Controller.Db.{Database, TrafficCounter}
use rps.Controller.Db.Columns.{i64_max}
use rps.Controller.Db.Counters.{add_traffic, get_traffic_counter}
use rps.Controller.Db.Counters.Single.{IsCounting, plus}
use rps.Controller.Db.Counters.Sums.{counts, add_traffic_lem, add_traffic-IsCounting}
use rps.Controller.Traffic.{TrafficEvent, Failures, write_batch, add_pending, or_zero}

-- What an entry of a client and a route adds to the counter `k` of the scope `s`.
abbrev pub weigh : Text → Text → Text × Text → ℕ → ℕ
weigh s k route n = if counts route.0 route.1 s k then n else 0

module _ (pick : ℕ × ℕ → ℕ) (s k : Text) where
  -- What the sums that are not written yet owe to a counter, in the direction of `pick`.
  unfoldable pub owed : Map (Text × Text) (ℕ × ℕ) → ℕ
  owed [] = 0
  owed ((route, v) ∷ m) = weigh s k route (pick v) + owed m

  -- What the queue owes to it.
  unfoldable pub queued : List TrafficEvent → ℕ
  queued [] = 0
  queued (e ∷ es) = weigh s k (e.client_id, e.tunnel_id) (pick (e.rx_bytes, e.tx_bytes)) + queued es

  owed-insert :
      (route : Text × Text) (v : ℕ × ℕ) (m : Map (Text × Text) (ℕ × ℕ))
      → pick (0, 0) ≡ 0
      → owed (insert m route v) + weigh s k route (pick (or_zero (get m route)))
        ≡ owed m + weigh s k route (pick v)
  unfolding owed get insert
  owed-insert route v [] z = rw z (ground arith)
  owed-insert route v ((r, w) ∷ m) z = elim (Bool-cases (eqb r route)) [
    | inl same ↦ rw same (rw ((eqb_iff r route).0 same) (omega arith))
    | inr other ↦ rw other (omega (arith, owed-insert route v m z))
  ]

  owed-get :
      (route : Text × Text) (m : Map (Text × Text) (ℕ × ℕ))
      → pick (0, 0) ≡ 0
      → weigh s k route (pick (or_zero (get m route))) ≤ owed m
  unfolding owed get
  owed-get route [] z = rw z (ground arith)
  owed-get route ((r, w) ∷ m) z = elim (Bool-cases (eqb r route)) [
    | inl same ↦ rw same (rw ((eqb_iff r route).0 same) (omega arith))
    | inr other ↦ rw other (omega (arith, owed-get route m z))
  ]

abbrev pub rx_of : ℕ × ℕ → ℕ
rx_of p = p.0

abbrev pub tx_of : ℕ × ℕ → ℕ
tx_of p = p.1

-- A sum in 64 bits, where nothing past 63 bits counts on a counter.
saturating_weigh :
    (m : Bool) (a b o o' : ℕ)
    → (if m then a else 0) ≤ o
    → o + (if m then b else 0) ≤ i64_max
    → o' + (if m then a else 0) ≡ o + (if m then saturating_add a b else 0)
    → o' ≡ o + (if m then b else 0)
saturating_weigh true a b o o' h fits e = omega arith
saturating_weigh false a b o o' h fits e = omega arith

weigh_plus :
    (m : Bool) (rx tx : ℕ) (c : TrafficCounter)
    → ((if m then plus rx tx c else c).rx_bytes ≡ c.rx_bytes + (if m then rx else 0))
      × ((if m then plus rx tx c else c).tx_bytes ≡ c.tx_bytes + (if m then tx else 0))
weigh_plus true rx tx c = (refl, refl)
weigh_plus false rx tx c = (omega arith, omega arith)

plus-plus :
    (m : Bool) (rx tx a b : ℕ) (c : TrafficCounter)
    → plus a b (if m then plus rx tx c else c)
      ≡ plus ((if m then rx else 0) + a) ((if m then tx else 0) + b) c
plus-plus m rx tx a b c = ground arith

counted_fits :
    (m : Bool) (rx tx : ℕ) (c : TrafficCounter) (a b : ℕ)
    → m ≡ true
    → c.rx_bytes + ((if m then rx else 0) + a) ≤ i64_max
    → c.tx_bytes + ((if m then tx else 0) + b) ≤ i64_max
    → (c.rx_bytes + rx ≤ i64_max) × (c.tx_bytes + tx ≤ i64_max)
counted_fits m rx tx c a b h p q = ground arith

module _ (s k : Text) where
  pub owed-add_pending :
      (m : Map (Text × Text) (ℕ × ℕ)) (e : TrafficEvent)
      → owed rx_of s k m + weigh s k (e.client_id, e.tunnel_id) e.rx_bytes ≤ i64_max
      → owed tx_of s k m + weigh s k (e.client_id, e.tunnel_id) e.tx_bytes ≤ i64_max
      → (owed rx_of s k (add_pending m e)
          ≡ owed rx_of s k m + weigh s k (e.client_id, e.tunnel_id) e.rx_bytes)
        × (owed tx_of s k (add_pending m e)
            ≡ owed tx_of s k m + weigh s k (e.client_id, e.tunnel_id) e.tx_bytes)
  unfolding add_pending
  owed-add_pending m e fits_rx fits_tx =
      let route : Text × Text = (e.client_id, e.tunnel_id) in
      let entry = or_zero (get m route) in
      let v : ℕ × ℕ = (saturating_add entry.0 e.rx_bytes, saturating_add entry.1 e.tx_bytes) in
      (
        saturating_weigh (counts route.0 route.1 s k) entry.0 e.rx_bytes _ _
            (owed-get rx_of s k route m refl) fits_rx (owed-insert rx_of s k route v m refl),
        saturating_weigh (counts route.0 route.1 s k) entry.1 e.tx_bytes _ _
            (owed-get tx_of s k route m refl) fits_tx (owed-insert tx_of s k route v m refl),
      )

  pub write_batch_lem :
      (fails : Failures)
      → ((time : ℤ) (route : Text × Text) → fails time route ≡ none)
      → (m : Map (Text × Text) (ℕ × ℕ)) (db : Database) (now : ℤ) (c : TrafficCounter)
      → IsCounting db
      → get_traffic_counter db s k ≡ ok c
      → c.rx_bytes + owed rx_of s k m ≤ i64_max
      → c.tx_bytes + owed tx_of s k m ≤ i64_max
      → IsCounting (write_batch fails db now m)
        × (get_traffic_counter (write_batch fails db now m) s k
            ≡ ok (plus (owed rx_of s k m) (owed tx_of s k m) c))
  unfolding write_batch owed
  write_batch_lem fails works [] db now c h e fits_rx fits_tx = (h, e ∙ ap ok (ground arith))
  write_batch_lem fails works (((client_id, tunnel_id), (rx, tx)) ∷ m) db now c h e fits_rx
        fits_tx =
      let m' = counts client_id tunnel_id s k in
      let c' : TrafficCounter = if m' then plus rx tx c else c in
      let (sum_rx, sum_tx) = weigh_plus m' rx tx c in
      let e' =
        add_traffic_lem db now client_id tunnel_id s k rx tx {c = c} h e
          (λ (t : m' ≡ true). counted_fits m' rx tx c _ _ t fits_rx fits_tx) in
      let (counting, reads) =
        write_batch_lem fails works m (add_traffic db now client_id tunnel_id rx tx) now c'
          (add_traffic-IsCounting db now client_id tunnel_id rx tx h) e' (omega (arith, sum_rx))
          (omega (arith, sum_tx)) in
      rw (works now (client_id, tunnel_id), write_batch)
        (counting, reads ∙ ap ok (plus-plus m' rx tx _ _ c))
