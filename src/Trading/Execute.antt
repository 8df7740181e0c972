-- ===== src/Trading/Execute.antt =====
-- `TradingService.execute_on_approval_handler` of contexts/trading/service.py: its guards in order,
-- the rows that it writes, and what becomes of the broker's answer. The clock is read once.
pub mod Booked
pub mod Cleared
pub mod Guards
pub mod Outcome
use iguanatrader.Common.{
  ℕ, String, true, ◌∷◌, Option, none, false, Bool, some, suc, not, if◌then◌else◌,
}
use iguanatrader.Decimal.{Decimal}
use iguanatrader.Risk.State.{open_state}
use iguanatrader.Trading.Models.{
  Mode, paper, live, Desk, TradeProposal, Trade, Order, OrderState, NewOrder, market, stop, limit,
  submitted, timeout_pending, refused, approved, order_placed, order_rejected, proposal_rejected,
}
use iguanatrader.Trading.Service.{
  Service, Outside, Answer, placed, timed_out, auth_error, budget_exceeded, integration_error,
  other_error, opposite, publish, derive_client_order_id, is_halted, add_order, send,
}
use iguanatrader.Trading.Gateway.{Gateway, ensure_live_gateway_ready}
use iguanatrader.Trading.Repository.{get_by_proposal_id, get_proposal, set_state}

abbrev pub same_mode : Mode → Mode → Bool
same_mode paper paper = true
same_mode live live = true
same_mode _ _ = false

-- `rejection_reason` of an answer that is neither an id nor a timeout
abbrev pub rejection_reason : Answer → String
rejection_reason (placed id) = ""
rejection_reason timed_out = "timeout"
rejection_reason auth_error = "broker_auth"
rejection_reason budget_exceeded = "budget"
rejection_reason integration_error = "broker_other"
rejection_reason other_error = "broker_other"

module _ (dec : Decimal) (svc : Service dec.Amount) (out : Outside dec.Amount) where
  open dec use {Amount, of_int, lt}

  -- the `Trade` row, opened with the whole quantity
  abbrev pub opened_trade : TradeProposal Amount → ℕ → Trade Amount
  opened_trade row trade_id = record {
    id = trade_id;
    proposal_id = row.id;
    symbol = row.symbol;
    side = row.side;
    quantity = svc.round_down row.quantity;
    mode = row.mode;
    state = open_state;
    opened_at = out.now;
    closed_at = none;
    exit_reason = none;
    realised_pnl = none;
    avg_entry_price = none;
    unrealized_pnl = none;
    marks_updated_at = none;
  }

  abbrev pub entry_order : TradeProposal Amount → ℕ → NewOrder Amount
  entry_order row trade_id = record {
    trade_id = trade_id;
    symbol = row.symbol;
    side = row.side;
    quantity = svc.round_down row.quantity;
    order_type = market;
    stop_price = some row.stop_price;
    target_price = row.target_price;
    client_order_id = derive_client_order_id svc "entry" row.id;
    algo_kind = svc.execution_algo;
  }

  -- the `Order` row of an entry
  abbrev pub entry_row : NewOrder Amount → Option ℕ → OrderState → Option ℕ → ℕ → Order Amount
  entry_row order broker_order_id state submitted_at order_id = record {
    id = order_id;
    trade_id = order.trade_id;
    broker_order_id = broker_order_id;
    client_order_id = order.client_order_id;
    order_type = order.order_type;
    side = order.side;
    quantity = order.quantity;
    limit_price = none;
    stop_price = order.stop_price;
    target_price = order.target_price;
    state = state;
    submitted_at = submitted_at;
  }

  -- a protective leg of the broker's bracket, on the other side
  abbrev pub bracket_stop : NewOrder Amount → Amount → ℕ → Order Amount
  bracket_stop order stop_price order_id = record {
    id = order_id;
    trade_id = order.trade_id;
    broker_order_id = none;
    client_order_id = derive_client_order_id svc "bracket_stop" order.client_order_id;
    order_type = stop;
    side = opposite order.side;
    quantity = order.quantity;
    limit_price = none;
    stop_price = some stop_price;
    target_price = none;
    state = submitted;
    submitted_at = some out.now;
  }

  abbrev pub bracket_target : NewOrder Amount → Amount → ℕ → Order Amount
  bracket_target order target_price order_id = record {
    id = order_id;
    trade_id = order.trade_id;
    broker_order_id = none;
    client_order_id = derive_client_order_id svc "bracket_tp" order.client_order_id;
    order_type = limit;
    side = opposite order.side;
    quantity = order.quantity;
    limit_price = some target_price;
    stop_price = none;
    target_price = none;
    state = submitted;
    submitted_at = some out.now;
  }

  abbrev pub add_target_leg : NewOrder Amount → Option Amount → Desk Amount → Desk Amount
  add_target_leg order none s = s
  add_target_leg order (some price) s = add_order (bracket_target order price s.next_id) s

  abbrev pub add_stop_leg : NewOrder Amount → Option Amount → Desk Amount → Desk Amount
  add_stop_leg order none s = s
  add_stop_leg order (some price) s =
      add_target_leg order order.target_price (add_order (bracket_stop order price s.next_id) s)

  unfoldable pub add_bracket : NewOrder Amount → Desk Amount → Desk Amount
  unfolding add_order
  add_bracket order s =
      if svc.native_bracket_enabled then add_stop_leg order order.stop_price s else s

  -- the release of the gateway after a live order
  abbrev pub schedule_release : Option Gateway → TradeProposal Amount → Desk Amount → Desk Amount
  schedule_release none row s = s
  schedule_release (some g) row s =
      if same_mode row.mode live then record s { releases = row.id ∷ s.releases } else s

  unfoldable pub record_rejection :
      TradeProposal Amount → NewOrder Amount → Answer → Desk Amount → Desk Amount
  unfolding publish add_order
  record_rejection row order answer s =
      publish (order_rejected row.id (rejection_reason answer))
        (add_order (entry_row order none refused none s.next_id) s)

  unfoldable pub record_answer :
      TradeProposal Amount → NewOrder Amount → Answer → Desk Amount → Desk Amount
  unfolding publish add_order
  record_answer row order (placed broker_order_id) s = schedule_release out.live_gateway row (
      publish (order_placed s.next_id broker_order_id) (
        add_bracket order (
          add_order (entry_row order (some broker_order_id) submitted (some out.now) s.next_id) s)))
  record_answer row order timed_out s =
      add_order (entry_row order none timeout_pending none s.next_id) s
  record_answer row order auth_error s = record_rejection row order auth_error s
  record_answer row order budget_exceeded s = record_rejection row order budget_exceeded s
  record_answer row order integration_error s = record_rejection row order integration_error s
  record_answer row order other_error s = record_rejection row order other_error s

  -- past every guard: the proposal's state, the trade, the call, and its answer
  unfoldable pub submit : TradeProposal Amount → Desk Amount → Desk Amount
  submit row s =
      let order = entry_order row s.next_id in
      let approved_desk = set_state row.id approved none out.now s in
      let traded = record approved_desk {
        trades = opened_trade row s.next_id ∷ s.trades;
        next_id = suc s.next_id;
      } in
      record_answer row order (out.place_order order) (send order traded)

  abbrev pub waited : Option Bool → Bool
  waited none = false
  waited (some b) = b

  -- `proposal_row.mode == "live" and self._live_gateway is not None`, and then the wait
  unfoldable pub gateway_ready : TradeProposal Amount → Option Gateway → Bool
  gateway_ready row none = true
  gateway_ready row (some g) =
      if same_mode row.mode live
      then waited (ensure_live_gateway_ready g out.now svc.live_gateway_wait)
      else true

  abbrev pub mode_matches : Option Mode → Mode → Bool
  mode_matches none mode = true
  mode_matches (some daemon) mode = same_mode mode daemon

  -- the last guards, by what they find: the mode, the whole quantity and the gateway
  unfoldable pub execute_guarded :
      Bool → Bool → Bool → TradeProposal Amount → Desk Amount → Desk Amount
  execute_guarded matches sized ready row s =
      if not matches
      then publish (order_rejected row.id "mode_mismatch") s
      else if not sized
      then publish (proposal_rejected row.id "below_min_size") s
      else if not ready
      then publish (order_rejected row.id "gateway_unavailable") s
      else submit row s

  unfoldable pub execute_found : TradeProposal Amount → Desk Amount → Desk Amount
  execute_found row s =
      execute_guarded (mode_matches svc.daemon_mode row.mode)
        (lt (of_int 0) (svc.round_down row.quantity)) (gateway_ready row out.live_gateway) row s

  abbrev pub execute_with : ℕ → Option (TradeProposal Amount) → Desk Amount → Desk Amount
  execute_with proposal_id none s = publish (proposal_rejected proposal_id "proposal_missing") s
  execute_with proposal_id (some row) s = execute_found row s

  -- by the order that there is, whether the service is halted, and the row
  abbrev pub execute_new :
      ℕ → Option (Order Amount) → Bool → Option (TradeProposal Amount) → Desk Amount → Desk Amount
  execute_new proposal_id (some existing) halted found s = s
  execute_new proposal_id none true found s = publish (order_rejected proposal_id "kill_switch") s
  execute_new proposal_id none false found s = execute_with proposal_id found s

  unfoldable pub execute_on_approval : ℕ → Desk Amount → Desk Amount
  execute_on_approval proposal_id s =
      execute_new proposal_id (get_by_proposal_id proposal_id s) (is_halted out s)
        (get_proposal proposal_id s) s
