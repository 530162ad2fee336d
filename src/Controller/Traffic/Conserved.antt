-- ===== src/Controller/Traffic/Conserved.antt =====
-- No byte that is queued is lost or counted twice.
use rps.Base.{
  ℕ, ◌+◌, ◌≤◌, ◌≡◌, refl, inl, inr, true, false, none, List, [], ◌∷◌, if◌then◌else◌, length, leb,
  ok, nat_eq, list_eq, pair_eq, arith, List-cases,
}
use rps.Base.Int.{ℤ}
use rps.Base.Text.{Text}
use rps.Controller.Db.{TrafficCounter}
use rps.Controller.Db.Columns.{i64_max}
use rps.Controller.Db.Counters.{get_traffic_counter}
use rps.Controller.Db.Counters.Single.{IsCounting, plus}
use rps.Controller.Traffic.{
  TrafficEvent, TrafficState, Failures, Wake, event, tick, flush, add_pending, on_event, wake, run,
  flush_route_threshold,
}
use rps.Controller.Traffic.Balance.{owed, queued, rx_of, tx_of, owed-add_pending, write_batch_lem}

module _ (fails : Failures) (works : (time : ℤ) (route : Text × Text) → fails time route ≡ none)
    (s k : Text) where
  -- A counter that reads `c`, and what is still owed to it, in both directions.
  pub record IsBalanced (rx tx : ℕ) (st : TrafficState) : Type 0 where
    pub counting : IsCounting st.db
    pub counter : TrafficCounter
    pub reads : get_traffic_counter st.db s k ≡ ok counter
    pub rx_sum : counter.rx_bytes + owed rx_of s k st.pending + queued rx_of s k st.queue ≡ rx
    pub tx_sum : counter.tx_bytes + owed tx_of s k st.pending + queued tx_of s k st.queue ≡ tx

  module _ {rx tx : ℕ} (fits_rx : rx ≤ i64_max) (fits_tx : tx ≤ i64_max) where
    flush-IsBalanced :
        {st : TrafficState} (now : ℤ) → IsBalanced rx tx st → IsBalanced rx tx (flush fails st now)
    unfolding flush owed
    flush-IsBalanced {st} now b =
        let (counting, reads) =
          write_batch_lem s k fails works st.pending st.db now b.counter b.counting b.reads
            (omega (arith, b.rx_sum)) (omega (arith, b.tx_sum)) in
        record {
          counting = counting;
          counter = plus (owed rx_of s k st.pending) (owed tx_of s k st.pending) b.counter;
          reads = reads;
          rx_sum = omega (arith, b.rx_sum);
          tx_sum = omega (arith, b.tx_sum);
        }

    summed-IsBalanced :
        (queue : List TrafficEvent) (e : TrafficEvent) {st : TrafficState}
        → st.queue ≡ e ∷ queue
        → IsBalanced rx tx st
        → IsBalanced rx tx (record st { queue = queue; pending = add_pending st.pending e })
    unfolding queued
    summed-IsBalanced queue e {st} next b =
        let all_rx = rw next at b.rx_sum in
        let all_tx = rw next at b.tx_sum in
        let (more_rx, more_tx) =
          owed-add_pending s k st.pending e (omega (arith, all_rx)) (omega (arith, all_tx)) in
        record {
          counting = b.counting;
          counter = b.counter;
          reads = b.reads;
          rx_sum = omega (arith, all_rx, more_rx);
          tx_sum = omega (arith, all_tx, more_tx);
        }

    wake-IsBalanced :
        {st : TrafficState} (now : ℤ) (w : Wake)
        → IsBalanced rx tx st
        → IsBalanced rx tx (wake fails st now w)
    unfolding wake on_event
    wake-IsBalanced {st} now tick b = flush-IsBalanced now b
    wake-IsBalanced {st} now event b = elim (List-cases st.queue) [
      | inl idle ↦ rw (idle, wake) b
      | inr (e, rest, next) ↦
          let summed : TrafficState = record st {
            queue = rest;
            pending = add_pending st.pending e;
          } in
          let b' = summed-IsBalanced rest e next b in
          rw (next, wake)
            (elim (leb flush_route_threshold (length (add_pending st.pending e)))
              as (λ c. IsBalanced rx tx (if c then flush fails summed now else summed)) [
                | true ↦ flush-IsBalanced now b'
                | false ↦ b'
              ])
    ]

    run-IsBalanced :
        (wakes : List (ℤ × Wake)) {st : TrafficState}
        → IsBalanced rx tx st
        → IsBalanced rx tx (run fails st wakes)
    unfolding run
    run-IsBalanced [] b = b
    run-IsBalanced ((now, w) ∷ wakes) b = run-IsBalanced wakes (wake-IsBalanced now w b)

-- As long as the database takes what is written to it, whatever the order of events and ticks, and
-- however often the sums are written: what a counter of
-- the database reads, what is summed for it and what is queued for it stay the same together, in
-- both directions. The counters are never negative, and what the three add up to is assumed to fit
-- 63 bits.
pub traffic_conserved :
    (fails : Failures) (s k : Text) (st : TrafficState) (wakes : List (ℤ × Wake))
    (c : TrafficCounter)
    → ((time : ℤ) (route : Text × Text) → fails time route ≡ none)
    → IsCounting st.db
    → get_traffic_counter st.db s k ≡ ok c
    → c.rx_bytes + owed rx_of s k st.pending + queued rx_of s k st.queue ≤ i64_max
    → c.tx_bytes + owed tx_of s k st.pending + queued tx_of s k st.queue ≤ i64_max
    → let st' = run fails st wakes in
      (c' : TrafficCounter) × (get_traffic_counter st'.db s k ≡ ok c')
      × (c'.rx_bytes + owed rx_of s k st'.pending + queued rx_of s k st'.queue
          ≡ c.rx_bytes + owed rx_of s k st.pending + queued rx_of s k st.queue)
      × (c'.tx_bytes + owed tx_of s k st'.pending + queued tx_of s k st'.queue
          ≡ c.tx_bytes + owed tx_of s k st.pending + queued tx_of s k st.queue)
traffic_conserved fails s k st wakes c works counting reads fits_rx fits_tx =
    let b =
      run-IsBalanced fails works s k fits_rx fits_tx wakes (record {
        counting = counting;
        counter = c;
        reads = reads;
        rx_sum = refl;
        tx_sum = refl;
      }) in
    (b.counter, b.reads, b.rx_sum, b.tx_sum)
