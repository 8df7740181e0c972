-- ===== src/Trading/Execute/Outcome.antt =====
-- The outcome of the execution of an approved proposal, in terms of the rows and the answers alone.
use iguanatrader.Trading.Execute.Guards.{IsBarred, IsClear, barred, cleared-IsClear}
use iguanatrader.Common.{ℕ, ◌≡◌, ◌⊎◌, inl, inr, refl, true, some, any, ◌==◌, ◌∷◌}
use iguanatrader.Decimal.{Decimal}
use iguanatrader.Risk.State.{open_state}
use iguanatrader.Trading.Models.{Desk, TradeProposal, Trade, NewOrder, market}
use iguanatrader.Trading.Service.{Service, Outside}
use iguanatrader.Trading.Execute.{execute_on_approval}
use iguanatrader.Trading.Execute.Cleared.{IsRefused, IsSubmitted, execute_on_approval-IsDecided}

module _ (dec : Decimal) (svc : Service dec.Amount) (out : Outside dec.Amount) where
  open dec use {Amount, of_int, lt}

  -- The order for the broker, as the row asks for it, and the trade that it opens.
  pub record IsEntryOrder (row : TradeProposal Amount) (trade_id : ℕ) (order : NewOrder Amount)
      : Type 0 where
    pub of_trade : order.trade_id ≡ trade_id
    pub symbol_same : order.symbol ≡ row.symbol
    pub side_same : order.side ≡ row.side
    pub whole : order.quantity ≡ svc.round_down row.quantity
    pub at_market : order.order_type ≡ market
    pub stop_same : order.stop_price ≡ some row.stop_price
    pub target_same : order.target_price ≡ row.target_price

  pub record IsEntryTrade (row : TradeProposal Amount) (trade_id : ℕ) (trade : Trade Amount)
      : Type 0 where
    pub named : trade.id ≡ trade_id
    pub of_proposal : trade.proposal_id ≡ row.id
    pub symbol_same : trade.symbol ≡ row.symbol
    pub side_same : trade.side ≡ row.side
    pub whole : trade.quantity ≡ svc.round_down row.quantity
    pub mode_same : trade.mode ≡ row.mode
    pub is_open : trade.state ≡ open_state
    pub opened_now : trade.opened_at ≡ out.now

  pub record IsEntered (row : TradeProposal Amount) (s s' : Desk Amount) : Type 0 where
    pub order : NewOrder Amount
    pub sent : s'.sent ≡ order ∷ s.sent
    pub as_asked : IsEntryOrder row s.next_id order
    pub trade : Trade Amount
    pub traded : s'.trades ≡ trade ∷ s.trades
    pub as_opened : IsEntryTrade row s.next_id trade
    pub booked : any (λ o. o.trade_id == s.next_id) s'.orders ≡ true

  abbrev pub HasOutcome : ℕ → Desk Amount → Desk Amount → Type 0
  HasOutcome id s s' =
      (IsBarred dec svc out id s × IsRefused dec svc out s s')
      ⊎ ((row : TradeProposal Amount) × IsClear dec svc out id s row × IsEntered row s s')

  submitted-IsEntered :
      (row : TradeProposal Amount) (s s' : Desk Amount)
      → IsSubmitted dec svc out row s s'
      → IsEntered row s s'
  submitted-IsEntered row s s' (sent, trades, own, more) = record {
    order = _;
    sent = sent;
    as_asked = record {
      of_trade = refl;
      symbol_same = refl;
      side_same = refl;
      whole = refl;
      at_market = refl;
      stop_same = refl;
      target_same = refl;
    };
    trade = _;
    traded = trades;
    as_opened = record {
      named = refl;
      of_proposal = refl;
      symbol_same = refl;
      side_same = refl;
      whole = refl;
      mode_same = refl;
      is_open = refl;
      opened_now = refl;
    };
    booked = own;
  }

  -- An approved proposal is sent to the broker exactly when no order of a trade of it stands yet,
  -- the service is not halted, its row is there, the mode is the daemon's, the quantity in whole
  -- shares is not zero, and the live gateway, where one is needed, is up. Then one order is sent, a
  -- market order with the row's symbol, side, stop and target for that quantity; one open trade is
  -- written with the same symbol, side and quantity, and an order of it. Otherwise nothing is sent
  -- and no proposal, trade or order changes.
  pub execute_on_approval-HasOutcome :
      (id : ℕ) (s : Desk Amount) → HasOutcome id s (execute_on_approval dec svc out id s)
  execute_on_approval-HasOutcome id s =
      let s' = execute_on_approval dec svc out id s in
      elim (execute_on_approval-IsDecided dec svc out id s) [
        | inl (e, quiet) ↦ inl (barred dec svc out id s e, quiet)
        | inr (e, (row, found, done)) ↦
            inr
              (row, cleared-IsClear dec svc out id s row e found, submitted-IsEntered row s s' done)
      ]
