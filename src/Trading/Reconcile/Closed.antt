-- ===== src/Trading/Reconcile/Closed.antt =====
-- Which fill closes a trade, and with what.
use iguanatrader.Common.{
  ℕ, ◌==◌, inl, inr, ◌≡◌, ◌∙◌, ◌&&◌, not, if◌then◌else◌, ◌⊎◌, false, some, Bool, refl, true,
  ==_refl, sym, ap, subst, none,
}
use iguanatrader.Decimal.{Decimal}
use iguanatrader.Risk.State.{closed}
use iguanatrader.Trading.Models.{Desk, Trade, Order, order_filled}
use iguanatrader.Trading.Repository.{get_trade, update_state, with_exit}
use iguanatrader.Trading.Service.{publish}
use iguanatrader.Trading.Reconcile.{
  Incoming, add_fill, close_filled, close_if_exited, record_snapshot, after_fill,
  reconcile_one_fill, order_for, already_recorded, is_terminal, same_side, compute_realised_pnl,
  reason_of,
}
use iguanatrader.Trading.Close.Once.{find-update_first}
use iguanatrader.Trading.Desk.Steps.{get_trade-again}

module _ (dec : Decimal) where
  open dec use {Amount}

  after_fill-trades :
      (incoming : Incoming Amount) (order : Order Amount) (fill_id : ℕ) (s : Desk Amount)
      → (after_fill dec incoming order fill_id s).trades
        ≡ (close_if_exited dec order incoming.now
            (is_terminal dec order s)
            (get_trade order.trade_id s)
            s).trades
  unfolding after_fill publish record_snapshot
  after_fill-trades incoming order fill_id s =
      let terminal = is_terminal dec order s in
      let after = close_if_exited dec order incoming.now terminal (get_trade order.trade_id s) s in
      let told = publish (order_filled order.id fill_id) after in
      elim terminal
        as (λ b.
          (if b then record_snapshot dec incoming.account_equity told else told).trades
          ≡ after.trades) [ true ↦ refl | false ↦ refl ]

  -- the trade as the fill leaves it when it closes it
  abbrev pub closed_trade :
      Incoming Amount → Order Amount → Trade Amount → Desk Amount → Trade Amount
  closed_trade incoming order trade filled = record trade {
    state = closed;
    closed_at = some incoming.now;
    exit_reason = some (reason_of order.order_type trade.exit_reason);
    realised_pnl = some (compute_realised_pnl dec trade filled);
  }

  -- The trade is closed, or no trade changes.
  abbrev pub HasClosed :
      Bool → Incoming Amount → Order Amount → Trade Amount → Desk Amount → Desk Amount → Type 0
  HasClosed closes incoming order trade filled s' =
      ((closes ≡ true) × (get_trade trade.id s' ≡ some (closed_trade incoming order trade filled)))
      ⊎ ((closes ≡ false) × (s'.trades ≡ filled.trades))

  close_filled-trade :
      (incoming : Incoming Amount) (order : Order Amount) (trade : Trade Amount) (s : Desk Amount)
      → get_trade trade.id s ≡ some trade
      → get_trade trade.id (close_filled dec order incoming.now trade s)
        ≡ some (closed_trade incoming order trade s)
  unfolding close_filled publish update_state get_trade
  close_filled-trade incoming order trade s found =
      find-update_first (λ t. t.id == trade.id)
        (with_exit closed (some incoming.now) (some (reason_of order.order_type trade.exit_reason))
          (some (compute_realised_pnl dec trade s)))
        trade s.trades found (==_refl trade.id)

  exited-HasClosed :
      (incoming : Incoming Amount) (order : Order Amount) (trade : Trade Amount) (closes : Bool)
      (s : Desk Amount)
      → get_trade trade.id s ≡ some trade
      → HasClosed closes incoming order trade s
          (if closes then close_filled dec order incoming.now trade s else s)
  exited-HasClosed incoming order trade true s found =
      inl (refl, close_filled-trade incoming order trade s found)
  exited-HasClosed incoming order trade false s found = inr (refl, refl)

  same_trades :
      (closes : Bool) (incoming : Incoming Amount) (order : Order Amount) (trade : Trade Amount)
      (filled s s' : Desk Amount)
      → s'.trades ≡ s.trades
      → HasClosed closes incoming order trade filled s
      → HasClosed closes incoming order trade filled s'
  unfolding get_trade
  same_trades closes incoming order trade filled s s' e (inl (is, h)) = inl (is, rw e h)
  same_trades closes incoming order trade filled s s' e (inr (is, h)) = inr (is, e ∙ h)

  -- The fill of an order whose trade is there.
  pub reconcile_one_fill-HasClosed :
      (incoming : Incoming Amount) (order : Order Amount) (trade : Trade Amount) (s : Desk Amount)
      → already_recorded dec incoming.event s ≡ false
      → order_for dec incoming.event s ≡ some order
      → get_trade order.trade_id s ≡ some trade
      → HasClosed
          (not (same_side order.side trade.side)
            && is_terminal dec order (add_fill dec incoming.event order s))
          incoming
          order
          trade
          (add_fill dec incoming.event order s)
          (reconcile_one_fill dec incoming s)
  unfolding reconcile_one_fill add_fill get_trade
  reconcile_one_fill-HasClosed incoming order trade s new known at =
      let filled = add_fill dec incoming.event order s in
      let terminal = is_terminal dec order filled in
      let closes = not (same_side order.side trade.side) && terminal in
      let own = get_trade-again order.trade_id trade s at in
      let exited = close_if_exited dec order incoming.now terminal (some trade) filled in
      let after = after_fill dec incoming order s.next_id filled in
      let trades : after.trades ≡ exited.trades =
        after_fill-trades incoming order s.next_id filled
        ∙ ap (λ found. (close_if_exited dec order incoming.now terminal found filled).trades) at in
      let done : reconcile_one_fill dec incoming s ≡ after = rw (new, known) refl in
      subst (HasClosed closes incoming order trade filled) (sym done) (
        same_trades closes incoming order trade filled exited after trades
          (exited-HasClosed incoming order trade closes filled own))

  -- The fill of an order whose trade is gone.
  pub reconcile_one_fill-stray :
      (incoming : Incoming Amount) (order : Order Amount) (s : Desk Amount)
      → already_recorded dec incoming.event s ≡ false
      → order_for dec incoming.event s ≡ some order
      → get_trade order.trade_id s ≡ none
      → (reconcile_one_fill dec incoming s).trades ≡ s.trades
  unfolding reconcile_one_fill add_fill get_trade
  reconcile_one_fill-stray incoming order s new known gone =
      let filled = add_fill dec incoming.event order s in
      let terminal = is_terminal dec order filled in
      let done : reconcile_one_fill dec incoming s
          ≡ after_fill dec incoming order s.next_id filled =
        rw (new, known) refl in
      ap (λ d. d.trades) done
      ∙ (after_fill-trades incoming order s.next_id filled
          ∙ ap (λ found. (close_if_exited dec order incoming.now terminal found filled).trades)
              gone)
