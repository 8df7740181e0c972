-- ===== src/Trading/Close.antt =====
-- `close_trade` and `close_trade_handler` of contexts/trading/service.py. A call is one step: nothing
-- else runs while it waits for the broker.
pub mod Once
use iguanatrader.Common.{
  ℕ, String, false, none, Option, Bool, true, some, str_eq, if◌then◌else◌, ◌∷◌, [], any,
}
use iguanatrader.Risk.State.{TradeState, open_state, closing}
use iguanatrader.Trading.Models.{Desk, Trade, Order, NewOrder, market, submitted, order_placed}
use iguanatrader.Trading.Service.{
  Service, Outside, Answer, placed, timed_out, auth_error, budget_exceeded, integration_error,
  other_error, opposite, publish, derive_client_order_id, add_order, send,
}
use iguanatrader.Trading.Repository.{get_trade, update_state}

-- how `close_trade` ends: the broker's id, or the exception
pub data Closing : Type 0 where
  exit_placed : ℕ → Closing
  invalid_reason : Closing
  not_closable : Closing
  broker_raised : Answer → Closing

-- `_VALID_EXIT_REASONS`
abbrev pub is_valid_reason : String → Bool
is_valid_reason reason =
    any (str_eq reason) ("stop" ∷ "target" ∷ "manual" ∷ "expiry" ∷ "ibkr_reconcile" ∷ [])

abbrev pub is_open : TradeState → Bool
is_open open_state = true
is_open _ = false

module _ {A : Type 0} (svc : Service A) (out : Outside A) where
  abbrev pub exit_order : ℕ → Trade A → NewOrder A
  exit_order trade_id trade = record {
    trade_id = trade_id;
    symbol = trade.symbol;
    side = opposite trade.side;
    quantity = trade.quantity;
    order_type = market;
    stop_price = none;
    target_price = none;
    client_order_id = derive_client_order_id svc "exit" trade_id;
    algo_kind = svc.execution_algo;
  }

  abbrev pub exit_row : NewOrder A → ℕ → ℕ → Order A
  exit_row order broker_order_id order_id = record {
    id = order_id;
    trade_id = order.trade_id;
    broker_order_id = some broker_order_id;
    client_order_id = order.client_order_id;
    order_type = order.order_type;
    side = order.side;
    quantity = order.quantity;
    limit_price = none;
    stop_price = none;
    target_price = none;
    state = submitted;
    submitted_at = some out.now;
  }

  -- what follows the broker's answer to the exit order
  unfoldable pub exit_answered : NewOrder A → String → Answer → Desk A → Closing × Desk A
  exit_answered order reason (placed id) s = (
    exit_placed id,
    publish (order_placed s.next_id id) (
        update_state order.trade_id closing none (some reason) none
          (add_order (exit_row order id s.next_id) s)),
  )
  exit_answered order reason timed_out s = (broker_raised timed_out, s)
  exit_answered order reason auth_error s = (broker_raised auth_error, s)
  exit_answered order reason budget_exceeded s = (broker_raised budget_exceeded, s)
  exit_answered order reason integration_error s = (broker_raised integration_error, s)
  exit_answered order reason other_error s = (broker_raised other_error, s)

  abbrev pub close_found : ℕ → Option (Trade A) → String → Desk A → Closing × Desk A
  close_found trade_id none reason s = (not_closable, s)
  close_found trade_id (some trade) reason s =
      if is_open trade.state
      then exit_answered (exit_order trade_id trade) reason
          (out.place_order (exit_order trade_id trade)) (send (exit_order trade_id trade) s)
      else (not_closable, s)

  unfoldable pub close_trade : ℕ → String → Desk A → Closing × Desk A
  close_trade trade_id reason s =
      if is_valid_reason reason
      then close_found trade_id (get_trade trade_id s) reason s
      else (invalid_reason, s)

  -- every exception is logged, and swallowed
  unfoldable pub close_trade_handler : ℕ → String → Desk A → Desk A
  close_trade_handler trade_id reason s = (close_trade trade_id reason s).1
