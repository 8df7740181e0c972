-- ===== src/Trading/Daemon/Kept.antt =====
-- What the daemon does to the trades and the orders.
use iguanatrader.Trading.Daemon.Rows.{
  map-AreLater, orphan_row-IsLater, mark_row-IsLater, position_row,
}
use iguanatrader.Common.{
  ℕ, String, none, if◌then◌else◌, Bool, false, some, Option, true, refl, [], List,
}
use iguanatrader.Decimal.{Decimal}
use iguanatrader.Trading.Models.{Desk, Mode}
use iguanatrader.Trading.Execute.{same_mode}
use iguanatrader.Trading.Daemon.{
  mark_row, Position, Books, TenantTradingMode, Watermarks, reconcile_positions,
  reconcile_with_ibkr, reconcile_if, drain_if, poll_for_state_changes, drain_pending_proposals,
  drain_handler, poll_row, startup_reconcile,
}
use iguanatrader.Trading.Desk.Ledger.{IsLater-trans}
use iguanatrader.Trading.Desk.Steps.{IsKept, IsKept-refl, IsKept-trans, untouched}
use iguanatrader.Trading.Desk.Fills.{reconcile_fills-IsKept}
use iguanatrader.Trading.Reconcile.{startup_reconcile}

module _ (dec : Decimal) where
  open dec use {Amount}

  pub reconcile_positions-IsKept :
      (mode : Mode) (positions : List (Position Amount)) (now : ℕ) (s : Desk Amount)
      → IsKept s (reconcile_positions dec mode positions now s)
  unfolding reconcile_positions
  reconcile_positions-IsKept mode positions now s = record {
    trades_later =
        map-AreLater dec (position_row dec mode positions now s)
          (λ t.
            IsLater-trans t (mark_row dec mode positions now t) _
              (mark_row-IsLater dec mode positions now t)
              (orphan_row-IsLater dec mode positions now s _))
          s.trades;
    extra = [];
    orders_more = refl;
  }

  pub drain_handler-IsKept :
      (own mode : Mode) (reason : String) (now : ℕ) (s : Desk Amount)
      → IsKept s (drain_handler own mode reason now s)
  unfolding drain_handler drain_pending_proposals
  drain_handler-IsKept own mode reason now s =
      elim (same_mode mode own)
        as (λ b. IsKept s (if b then (drain_pending_proposals own reason now s).1 else s)) [
          | true ↦ untouched s _ refl refl
          | false ↦ IsKept-refl s
        ]

  drain_if-IsKept :
      (drains : Bool) (mode : Mode) (now : ℕ) (s : Desk Amount)
      → IsKept s (drain_if dec drains mode now s)
  unfolding drain_pending_proposals
  drain_if-IsKept false mode now s = IsKept-refl s
  drain_if-IsKept true mode now s = untouched s _ refl refl

  pub reconcile_with_ibkr-IsKept :
      (mode : Mode) (books : Books Amount) (s : Desk Amount)
      → IsKept s (reconcile_with_ibkr dec mode books s)
  unfolding reconcile_with_ibkr startup_reconcile
  reconcile_with_ibkr-IsKept mode books s = IsKept-trans s _ _ (reconcile_fills-IsKept dec _ s) (
      IsKept-trans _ _ _ (untouched _ _ refl refl)
        (reconcile_positions-IsKept mode books.positions books.now _))

  reconcile_if-IsKept :
      (reconciles : Bool) (mode : Mode) (books : Books Amount) (s : Desk Amount)
      → IsKept s (reconcile_if dec reconciles mode books s)
  reconcile_if-IsKept false mode books s = IsKept-refl s
  reconcile_if-IsKept true mode books s = reconcile_with_ibkr-IsKept mode books s

  pub poll_for_state_changes-IsKept :
      (mode : Mode) (books : Books Amount) (found : Option TenantTradingMode) (marks : Watermarks)
      (s : Desk Amount)
      → IsKept s (poll_for_state_changes dec mode books found marks s).1
  unfolding poll_for_state_changes
  poll_for_state_changes-IsKept mode books none marks s = IsKept-refl s
  poll_for_state_changes-IsKept mode books (some row) marks s =
      let polled = poll_row marks row in
      IsKept-trans s (drain_if dec polled.drains mode books.now s) _
        (drain_if-IsKept polled.drains mode books.now s)
        (reconcile_if-IsKept polled.reconciles mode books _)
