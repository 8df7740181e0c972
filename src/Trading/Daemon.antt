-- ===== src/Trading/Daemon.antt =====
-- contexts/trading/daemon_lifecycle.py: the drain of pending proposals, the poll for requests of
-- other processes, and the reconciliation with the broker. A step of `reconcile_with_ibkr` that raises is skipped there; here none raises.
pub mod Drain
pub mod Rows
pub mod Kept
pub mod Marks
pub mod Positions
pub mod Stranded
use iguanatrader.Common.{
  ℕ, String, ◌&&◌, Bool, none, any, suc, true, false, List, Option, ltb, map, [], not, str_eq, some,
  filter, length, ◌∷◌, if◌then◌else◌, is_some,
}
use iguanatrader.Decimal.{Decimal, is_zero}
use iguanatrader.Risk.State.{closed, is_live}
use iguanatrader.Trading.Models.{Desk, Mode, Trade, TradeProposal, Fill, rejected}
use iguanatrader.Trading.Repository.{is_pending, list_fills_for_trade, with_state, with_exit}
use iguanatrader.Trading.Execute.{same_mode}
use iguanatrader.Trading.Reconcile.{either, Incoming, startup_reconcile}

-- the columns of `TenantTradingMode` that the poll reads
pub record TenantTradingMode : Type 0 where
  pub enabled : Bool
  pub last_toggled_at : ℕ
  pub pending_reconcile_at : Option ℕ

-- the watermarks of the poll
pub record Watermarks : Type 0 where
  pub last_toggle_handled : Option ℕ
  pub last_reconcile_handled : Option ℕ
  pub poll_initialised : Bool

-- `Position`, as far as it is read
pub record Position (A : Type 0) : Type 0 where
  pub symbol : String
  pub quantity : A
  pub average_price : A
  pub unrealized_pnl : A

-- what the poll has decided to do
pub record Polled : Type 0 where
  pub marks : Watermarks
  pub drains : Bool
  pub reconciles : Bool

-- What the outside answers during a reconciliation.
pub record Books (A : Type 0) : Type 0 where
  pub now : ℕ
  pub fills : ℕ → List (Incoming A)
  pub account_equity : A
  pub positions : List (Position A)

-- `last is None or at > last`
abbrev pub is_after : Option ℕ → ℕ → Bool
is_after none at = true
is_after (some last) at = ltb last at

abbrev pub reconcile_due : Option ℕ → Option ℕ → Bool
reconcile_due last none = false
reconcile_due last (some at) = is_after last at

-- the watermark after a comparison
abbrev pub advanced : Option ℕ → ℕ → Option ℕ
advanced last at = if is_after last at then some at else last

abbrev pub advanced_to : Option ℕ → Option ℕ → Option ℕ
advanced_to last none = last
advanced_to last (some at) = advanced last at

-- by whether the watermarks are set
abbrev pub poll_as : Bool → Watermarks → TenantTradingMode → Polled
poll_as false marks row = record {
  marks = record {
    last_toggle_handled = some row.last_toggled_at;
    last_reconcile_handled = row.pending_reconcile_at;
    poll_initialised = true;
  };
  drains = false;
  reconciles = false;
}
poll_as true marks row = record {
  marks = record {
    last_toggle_handled = advanced marks.last_toggle_handled row.last_toggled_at;
    last_reconcile_handled = advanced_to marks.last_reconcile_handled row.pending_reconcile_at;
    poll_initialised = true;
  };
  drains = is_after marks.last_toggle_handled row.last_toggled_at && not row.enabled;
  reconciles = reconcile_due marks.last_reconcile_handled row.pending_reconcile_at;
}

unfoldable pub poll_row : Watermarks → TenantTradingMode → Polled
poll_row marks row = poll_as marks.poll_initialised marks row

module _ {A : Type 0} where
  -- the WHERE clause of the drain
  abbrev pub is_drained : Mode → TradeProposal A → Bool
  is_drained mode p = same_mode p.mode mode && is_pending p.state

  abbrev pub drain_row : Mode → String → ℕ → TradeProposal A → TradeProposal A
  drain_row mode reason now p =
      if is_drained mode p then with_state rejected (some reason) now p else p

  -- the bulk UPDATE, and its row count
  unfoldable pub drain_pending_proposals : Mode → String → ℕ → Desk A → ℕ × Desk A
  drain_pending_proposals mode reason now s = (
    length (filter (is_drained mode) s.proposals),
    record s { proposals = map (drain_row mode reason now) s.proposals },
  )

  -- the daemon handles the requests of its own mode
  unfoldable pub drain_handler : Mode → Mode → String → ℕ → Desk A → Desk A
  drain_handler own mode reason now s =
      if same_mode mode own then (drain_pending_proposals own reason now s).1 else s

module _ (dec : Decimal) where
  open dec use {Amount}

  -- `marks_by_symbol.get(symbol)`: of two positions in a symbol the later one stands in the dict
  abbrev pub mark_for : List (Position Amount) → String → Option (Position Amount)
  mark_for [] symbol = none
  mark_for (p ∷ ps) symbol =
      either (mark_for ps symbol)
        (if not (is_zero dec p.quantity) && str_eq p.symbol symbol then some p else none)

  abbrev pub marked : ℕ → Position Amount → Trade Amount → Trade Amount
  marked now pos t = record t {
    avg_entry_price = some pos.average_price;
    unrealized_pnl = some pos.unrealized_pnl;
    marks_updated_at = some now;
  }

  abbrev pub mark_with : ℕ → Option (Position Amount) → Trade Amount → Trade Amount
  mark_with now none t = t
  mark_with now (some pos) t = marked now pos t

  -- the first loop, over the live trades of the mode
  abbrev pub mark_row : Mode → List (Position Amount) → ℕ → Trade Amount → Trade Amount
  mark_row mode positions now t =
      if is_live t.state && same_mode t.mode mode
      then mark_with now (mark_for positions t.symbol) t
      else t

  -- `symbol in broker_symbols`
  abbrev pub is_held : List (Position Amount) → String → Bool
  is_held positions symbol = is_some (mark_for positions symbol)

  abbrev pub is_filled : List (Fill Amount) → Bool
  is_filled [] = false
  is_filled (f ∷ fs) = true

  -- A live trade of the mode, with a fill, whose symbol the broker does not hold.
  abbrev pub is_orphan : Mode → List (Position Amount) → Desk Amount → Trade Amount → Bool
  is_orphan mode positions s t =
      is_live t.state
      && (same_mode t.mode mode
          && (not (is_held positions t.symbol) && is_filled (list_fills_for_trade t.id s)))

  abbrev pub orphan_row :
      Mode → List (Position Amount) → ℕ → Desk Amount → Trade Amount → Trade Amount
  orphan_row mode positions now s t =
      if is_orphan mode positions s t
      then with_exit closed (some now) (some "ibkr_reconcile") none t
      else t

  unfoldable pub reconcile_positions : Mode → List (Position Amount) → ℕ → Desk Amount → Desk Amount
  reconcile_positions mode positions now s = record s {
    trades = map (λ t. orphan_row mode positions now s (mark_row mode positions now t)) s.trades;
  }

  -- the fills, the equity snapshot and the positions
  unfoldable pub reconcile_with_ibkr : Mode → Books Amount → Desk Amount → Desk Amount
  reconcile_with_ibkr mode books s =
      let reconciled = startup_reconcile dec books.fills 10 books.now s in
      let snapped = record reconciled {
        snapshots =
            record { id = reconciled.next_id; account_equity = books.account_equity }
            ∷ reconciled.snapshots;
        next_id = suc reconciled.next_id;
      } in
      reconcile_positions mode books.positions books.now snapped

  abbrev pub reconcile_if : Bool → Mode → Books Amount → Desk Amount → Desk Amount
  reconcile_if false mode books s = s
  reconcile_if true mode books s = reconcile_with_ibkr mode books s

  abbrev pub drain_if : Bool → Mode → ℕ → Desk Amount → Desk Amount
  drain_if false mode now s = s
  drain_if true mode now s = (drain_pending_proposals mode "daemon_drained" now s).1

  unfoldable pub poll_for_state_changes :
      Mode
      → Books Amount
      → Option TenantTradingMode
      → Watermarks
      → Desk Amount
      → Watermarks × Desk Amount
  poll_for_state_changes mode books none marks s = (marks, s)
  poll_for_state_changes mode books (some row) marks s =
      let polled = poll_row marks row in
      (
        polled.marks,
        reconcile_if polled.reconciles mode books (drain_if polled.drains mode books.now s),
      )
