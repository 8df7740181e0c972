-- ===== src/Trading/Execute/Cleared.antt =====
-- When the execution of an approved proposal reaches the broker, and what it writes then.
use iguanatrader.Common.{
  ℕ, inr, inl, Option, false, ◌==◌, true, ◌&&◌, some, Bool, ◌≡◌, ◌∷◌, ◌⊎◌, any, none, refl, List,
  ◌++◌,
}
use iguanatrader.Decimal.{Decimal}
use iguanatrader.Trading.Models.{Desk, Event, TradeProposal, Order}
use iguanatrader.Trading.Service.{Service, Outside, publish, is_halted}
use iguanatrader.Trading.Repository.{get_by_proposal_id, get_proposal, set_state}
use iguanatrader.Trading.Execute.{
  opened_trade, entry_order, submit, gateway_ready, mode_matches, execute_found, execute_new,
  execute_on_approval, execute_guarded,
}
use iguanatrader.Trading.Execute.Booked.{record_answer-IsBooked}

module _ (dec : Decimal) (svc : Service dec.Amount) (out : Outside dec.Amount) where
  open dec use {Amount, of_int, lt}

  -- A row of the right mode, for a share at least, with its gateway up.
  abbrev pub is_executable : TradeProposal Amount → Bool
  is_executable row =
      mode_matches dec svc out svc.daemon_mode row.mode
      && (lt (of_int 0) (svc.round_down row.quantity)
          && gateway_ready dec svc out row out.live_gateway)

  -- All that has to hold for the broker to be called: no order yet, no halt, an executable row.
  abbrev pub is_cleared : Option (Order Amount) → Bool → Option (TradeProposal Amount) → Bool
  is_cleared (some existing) halted found = false
  is_cleared none true found = false
  is_cleared none false none = false
  is_cleared none false (some row) = is_executable row

  -- Nothing is sent, and no row is written.
  abbrev pub IsRefused : Desk Amount → Desk Amount → Type 0
  IsRefused s s' =
      (s'.sent ≡ s.sent)
      × (s'.trades ≡ s.trades)
      × (s'.orders ≡ s.orders)
      × (s'.proposals ≡ s.proposals)

  -- One order goes to the broker, for the row's whole quantity, with one new open trade and an
  -- order that belongs to it.
  abbrev pub IsSubmitted : TradeProposal Amount → Desk Amount → Desk Amount → Type 0
  IsSubmitted row s s' =
      (s'.sent ≡ entry_order dec svc out row s.next_id ∷ s.sent)
      × (s'.trades ≡ opened_trade dec svc out row s.next_id ∷ s.trades)
      × (any (λ o. o.trade_id == s.next_id) s'.orders ≡ true)
      × ((extra : List (Order Amount)) × (s'.orders ≡ extra ++ s.orders))

  pub submit-IsSubmitted :
      (row : TradeProposal Amount) (s : Desk Amount) → IsSubmitted row s (submit dec svc out row s)
  unfolding submit set_state
  submit-IsSubmitted row s =
      let order = entry_order dec svc out row s.next_id in
      let booked = record_answer-IsBooked dec svc out row order (out.place_order order) _ in
      (booked.0.sent_same, booked.0.trades_same, booked.1, (booked.0.extra, booked.0.orders_more))

  pub publish-IsRefused : (event : Event Amount) (s : Desk Amount) → IsRefused s (publish event s)
  unfolding publish
  publish-IsRefused event s = (refl, refl, refl, refl)

  execute_guarded-cases :
      (matches sized ready : Bool) (row : TradeProposal Amount) (s : Desk Amount)
      → (((matches && (sized && ready)) ≡ false)
          × IsRefused s (execute_guarded dec svc out matches sized ready row s))
        ⊎ (((matches && (sized && ready)) ≡ true)
            × IsSubmitted row s (execute_guarded dec svc out matches sized ready row s))
  unfolding execute_guarded
  execute_guarded-cases false sized ready row s = inl (refl, publish-IsRefused _ s)
  execute_guarded-cases true false ready row s = inl (refl, publish-IsRefused _ s)
  execute_guarded-cases true true false row s = inl (refl, publish-IsRefused _ s)
  execute_guarded-cases true true true row s = inr (refl, submit-IsSubmitted row s)

  -- Either the guards do not clear the call and nothing is done, or they do and it is submitted.
  abbrev pub IsDecided : Bool → Option (TradeProposal Amount) → Desk Amount → Desk Amount → Type 0
  IsDecided cleared found s s' =
      ((cleared ≡ false) × IsRefused s s')
      ⊎ ((cleared ≡ true)
          × ((row : TradeProposal Amount) × (found ≡ some row) × IsSubmitted row s s'))

  execute_new-IsDecided :
      (proposal_id : ℕ) (existing : Option (Order Amount)) (halted : Bool)
      (found : Option (TradeProposal Amount)) (s : Desk Amount)
      → IsDecided
          (is_cleared existing halted found)
          found
          s
          (execute_new dec svc out proposal_id existing halted found s)
  unfolding execute_found
  execute_new-IsDecided proposal_id (some order) halted found s =
      inl (refl, (refl, refl, refl, refl))
  execute_new-IsDecided proposal_id none true found s = inl (refl, publish-IsRefused _ s)
  execute_new-IsDecided proposal_id none false none s = inl (refl, publish-IsRefused _ s)
  execute_new-IsDecided proposal_id none false (some row) s =
      elim (execute_guarded-cases (mode_matches dec svc out svc.daemon_mode row.mode)
        (lt (of_int 0) (svc.round_down row.quantity))
        (gateway_ready dec svc out row out.live_gateway) row s) [
          | inl (e, quiet) ↦ inl (e, quiet)
          | inr (e, done) ↦ inr (e, (row, refl, done))
        ]

  -- The handler refuses or submits by `is_cleared`.
  pub execute_on_approval-IsDecided :
      (proposal_id : ℕ) (s : Desk Amount)
      → IsDecided
          (is_cleared
            (get_by_proposal_id proposal_id s)
            (is_halted out s)
            (get_proposal proposal_id s))
          (get_proposal proposal_id s)
          s
          (execute_on_approval dec svc out proposal_id s)
  unfolding execute_on_approval
  execute_on_approval-IsDecided proposal_id s =
      execute_new-IsDecided proposal_id (get_by_proposal_id proposal_id s) (is_halted out s)
        (get_proposal proposal_id s) s
