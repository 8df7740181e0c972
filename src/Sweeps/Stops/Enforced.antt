-- ===== src/Sweeps/Stops/Enforced.antt =====
-- A stop that is hit is enforced: from the sweep to the trading service.
use iguanatrader.Trading.Service.{Service, Outside}
use iguanatrader.Common.{
  ℕ, String, Option, ==_refl, refl, some, all, ◌≡◌, ◌==◌, or_true, none, true, any, false, List,
  arith, Bool, subst, if◌then◌else◌, inr, find, ==_iff, Bool-cases, sym, inl, ◌∷◌, [], find-test,
}
use iguanatrader.Decimal.{Decimal}
use iguanatrader.Risk.Trailing.{Bar}
use iguanatrader.Trading.Models.{Desk, Trade, TradeProposal}
use iguanatrader.Trading.Close.{is_valid_reason, is_open}
use iguanatrader.Sweeps.Trailing.{TrailingStopAudit}
use iguanatrader.Sweeps.Stops.{
  CloseTradeRequested, StopHitSweepResult, Verdict, stop_hit, target_hit, no_hit, failed, published,
  evaluate_one, sweep_row, is_open, sweep, sweep_rows, get_proposal,
}
use iguanatrader.Trading.Repository.{get_trade, get_proposal}
use iguanatrader.Sweeps.Stops.Handled.{Takes, IsUnderway, handle_all, handle_all-cases}

-- a stop or a target is hit
abbrev pub is_hit : Verdict → Bool
is_hit stop_hit = true
is_hit target_hit = true
is_hit no_hit = false
is_hit failed = false

abbrev pub valid_requests : List CloseTradeRequested → Bool
valid_requests = all (λ q. is_valid_reason q.reason)

asked : ℕ → List CloseTradeRequested → Bool
asked id = any (λ q. q.trade_id == id)

published_asked :
    (id trade_id : ℕ) (v : Verdict) (qs : List CloseTradeRequested)
    → asked id qs ≡ true
    → asked id (published trade_id v qs) ≡ true
unfolding asked
published_asked id trade_id stop_hit qs h = rw h (or_true (trade_id == id))
published_asked id trade_id target_hit qs h = rw h (or_true (trade_id == id))
published_asked id trade_id no_hit qs h = h
published_asked id trade_id failed qs h = h

published_valid :
    (trade_id : ℕ) (v : Verdict) (qs : List CloseTradeRequested)
    → valid_requests qs ≡ true
    → valid_requests (published trade_id v qs) ≡ true
published_valid trade_id stop_hit qs h = h
published_valid trade_id target_hit qs h = h
published_valid trade_id no_hit qs h = h
published_valid trade_id failed qs h = h

hit_asked :
    (id : ℕ) (v : Verdict) (qs : List CloseTradeRequested)
    → is_hit v ≡ true
    → asked id (published id v qs) ≡ true
unfolding asked
hit_asked id stop_hit qs h = rw (==_refl id) refl
hit_asked id target_hit qs h = rw (==_refl id) refl
hit_asked id no_hit qs h = absurd (ground (arith, h))
hit_asked id failed qs h = absurd (ground (arith, h))

module _ (dec : Decimal) (get_bars : String → Option (List (Bar dec.Amount)))
    (audits : Option (List (TrailingStopAudit dec.Amount))) (s : Desk dec.Amount) where
  open dec use {Amount}

  abbrev State : Type 0
  State = StopHitSweepResult × List CloseTradeRequested

  row_kept :
      (id : ℕ) (t : Trade Amount) (found : Option (TradeProposal Amount)) (acc : State)
      → ((asked id acc.1 ≡ true) → asked id (sweep_row dec get_bars audits t found acc).1 ≡ true)
        × ((valid_requests acc.1 ≡ true)
            → valid_requests (sweep_row dec get_bars audits t found acc).1 ≡ true)
  row_kept id t none acc = (λ h. h, λ h. h)
  row_kept id t (some p) acc = (
    published_asked id t.id (evaluate_one dec get_bars audits t p) acc.1,
    published_valid t.id (evaluate_one dec get_bars audits t p) acc.1,
  )

  -- one trade of the loop
  abbrev step : Trade Amount → State → State
  step t acc =
      if is_open t.state
      then sweep_row dec get_bars audits t (get_proposal t.proposal_id s) acc
      else acc

  keeps_request :
      (id : ℕ) (t : Trade Amount) (acc : State)
      → asked id acc.1 ≡ true
      → asked id (step t acc).1 ≡ true
  keeps_request id t acc h =
      elim (is_open t.state)
        as (λ b.
          asked id
            (if b
              then sweep_row dec get_bars audits t (get_proposal t.proposal_id s) acc
              else acc).1
          ≡ true) [ true ↦ (row_kept id t (get_proposal t.proposal_id s) acc).0 h | false ↦ h ]

  step_valid :
      (t : Trade Amount) (acc : State)
      → valid_requests acc.1 ≡ true
      → valid_requests (step t acc).1 ≡ true
  step_valid t acc h =
      elim (is_open t.state)
        as (λ b.
          valid_requests
            (if b
              then sweep_row dec get_bars audits t (get_proposal t.proposal_id s) acc
              else acc).1
          ≡ true) [ true ↦ (row_kept 0 t (get_proposal t.proposal_id s) acc).1 h | false ↦ h ]

  rows_asked :
      (id : ℕ) (ts : List (Trade Amount)) (acc : State)
      → asked id acc.1 ≡ true
      → asked id (sweep_rows dec get_bars audits s ts acc).1 ≡ true
  unfolding sweep_rows
  rows_asked id [] acc h = h
  rows_asked id (t ∷ ts) acc h = rows_asked id ts (step t acc) (keeps_request id t acc h)

  rows_valid :
      (ts : List (Trade Amount)) (acc : State)
      → valid_requests acc.1 ≡ true
      → valid_requests (sweep_rows dec get_bars audits s ts acc).1 ≡ true
  unfolding sweep_rows
  rows_valid [] acc h = h
  rows_valid (t ∷ ts) acc h = rows_valid ts (step t acc) (step_valid t acc h)

  hit_step :
      (t : Trade Amount) (p : TradeProposal Amount) (acc : State)
      → is_open t.state ≡ true
      → get_proposal t.proposal_id s ≡ some p
      → is_hit (evaluate_one dec get_bars audits t p) ≡ true
      → asked t.id (step t acc).1 ≡ true
  hit_step t p acc is found hit =
      rw (is, found) (hit_asked t.id (evaluate_one dec get_bars audits t p) acc.1 hit)

  rows_hit :
      (id : ℕ) (t : Trade Amount) (p : TradeProposal Amount) (ts : List (Trade Amount))
      (acc : State)
      → find (λ x. x.id == id) ts ≡ some t
      → is_open t.state ≡ true
      → get_proposal t.proposal_id s ≡ some p
      → is_hit (evaluate_one dec get_bars audits t p) ≡ true
      → asked t.id (sweep_rows dec get_bars audits s ts acc).1 ≡ true
  unfolding sweep_rows
  rows_hit id t p [] acc there is found hit = absurd (ground (arith, there))
  rows_hit id t p (x ∷ xs) acc there is found hit = elim (Bool-cases (x.id == id)) [
    | inl e ↦
        let same : x ≡ t = ground (arith, there, e) in
        rows_asked t.id xs (step x acc)
          (subst (λ y. asked t.id (step y acc).1 ≡ true) (sym same) (hit_step t p acc is found hit))
    | inr e ↦ rows_hit id t p xs (step x acc) (ground (arith, there, e)) is found hit
  ]

  -- When the sweep finds the stop or the target of an open trade hit, and the broker takes the
  -- orders, then handling what the sweep has requested leaves that trade closing, whatever else it
  -- requested.
  pub sweep-IsUnderway :
      (svc : Service Amount) (out : Outside Amount) (id : ℕ) (t : Trade Amount)
      (p : TradeProposal Amount)
      → Takes svc out
      → get_trade id s ≡ some t
      → is_open t.state ≡ true
      → get_proposal t.proposal_id s ≡ some p
      → is_hit (evaluate_one dec get_bars audits t p) ≡ true
      → IsUnderway svc out id (handle_all svc out (sweep dec get_bars audits s).1 s)
  unfolding sweep get_trade asked
  sweep-IsUnderway svc out id t p takes there is found hit =
      let start : State = (
        record {
          trades_evaluated = 0;
          stop_hits_emitted = 0;
          target_hits_emitted = 0;
          trades_skipped_no_bars = 0;
        },
        [],
      ) in
      let qs = (sweep_rows dec get_bars audits s s.trades start).1 in
      let own : t.id ≡ id = (==_iff t.id id).0 (find-test (λ x. x.id == id) s.trades t there) in
      let wanted : any (λ q. q.trade_id == id) qs ≡ true =
        subst (λ i. any (λ q. q.trade_id == i) qs ≡ true) own
          (rows_hit id t p s.trades start there is found hit) in
      elim (handle_all-cases svc out id t qs s takes there is (rows_valid s.trades start refl)) [
        | inl (e, done) ↦ done
        | inr (e, f) ↦ absurd (ground (arith, e, wanted))
      ]
