-- ===== src/Trading/Tests.antt =====
-- The trading service on a small desk: one proposal of three and a half shares.
use iguanatrader.Trading.Reconcile.{
  record_snapshot, side_by_order, count_fills, Incoming, reconcile_fills, reconcile_one_fill,
  already_recorded, order_for, add_fill, after_fill, is_terminal, close_filled,
  compute_realised_pnl,
}
use iguanatrader.Trading.Service.{publish, Service, Outside, Answer, placed, read}
use iguanatrader.Trading.Repository.{
  update_state, list_fills_for_trade, list_orders_for_trade, get_trade, exists_by_broker_fill_id,
  get_by_client_order_id, get_order, sum_quantity_for_order,
}
use iguanatrader.Common.{
  ℕ, String, ◌*◌, [], false, List, ◌/◌, refl, some, if◌then◌else◌, true, ◌∷◌, str_eq, none, ◌≡◌,
  ◌+◌,
}
use iguanatrader.Decimal.Fixed.{Fixed, fixed, amount}
use iguanatrader.Risk.Models.{buy, sell, market, Side}
use iguanatrader.Risk.State.{open_state, closed}
use iguanatrader.Trading.Models.{
  Desk, TradeProposal, Trade, Order, paper, pending_approval, stop, OrderType, submitted,
}
use iguanatrader.Trading.Execute.{execute_on_approval}

abbrev pub svc : Service Fixed
svc = record {
  tenant_id = 1;
  daemon_mode = some paper;
  execution_algo = market;
  native_bracket_enabled = true;
  live_gateway_wait = 3;
  propose_dedup_window_secs = 1800;
  show_uuid = λ n. "u";
  uuid5 = λ s. if str_eq s "u:entry:u" then 901 else if str_eq s "u:exit:u" then 902 else 903;
  round_down = λ a. amount (a.plus / 10000 * 10000);
}

abbrev pub outside : Answer → Outside Fixed
outside answer = record {
  now = 5000000000;
  kill_switch_reader = some (read false);
  live_gateway = none;
  place_order = λ order. answer;
}

abbrev pub row : TradeProposal Fixed
row = record {
  id = 7;
  strategy_config_id = 3;
  symbol = "ACME";
  side = buy;
  quantity = amount 35000;
  entry_price_indicative = amount 1000000;
  stop_price = amount 950000;
  target_price = none;
  confidence_score = none;
  mode = paper;
  created_at = 4000000000;
  state = pending_approval;
  rejection_reason = none;
  rejected_at = none;
}

abbrev pub desk : Desk Fixed
desk = record {
  proposals = row ∷ [];
  trades = [];
  orders = [];
  fills = [];
  snapshots = [];
  kill_switch_active = false;
  next_id = 100;
  published = [];
  sent = [];
  releases = [];
}

-- ids: 100 the trade, 101 the entry, 102 the stop leg
abbrev entered : Desk Fixed
entered = execute_on_approval fixed svc (outside (placed 55)) 7 desk

-- a fill of three shares
abbrev pub fill_of : ℕ → ℕ → String → Incoming Fixed
fill_of order price name = record {
  event = record {
    order_id = order;
    quantity_filled = amount 30000;
    fill_price = amount price;
    commission = amount 100;
    filled_at = 6000000000;
    broker_fill_id = some name;
  };
  now = 6000000001;
  account_equity = amount 900000000;
}

abbrev pub reports : List (Incoming Fixed)
reports = fill_of 101 1000000 "a" ∷ fill_of 102 940000 "b" ∷ []

abbrev pub order : ℕ → Side → OrderType → Order Fixed
order id side kind = record {
  id = id;
  trade_id = 100;
  broker_order_id = some 55;
  client_order_id = 800 + id;
  order_type = kind;
  side = side;
  quantity = amount 30000;
  limit_price = none;
  stop_price = none;
  target_price = none;
  state = submitted;
  submitted_at = some 5000000000;
}

abbrev pub long : Trade Fixed
long = record {
  id = 100;
  proposal_id = 7;
  symbol = "ACME";
  side = buy;
  quantity = amount 30000;
  mode = paper;
  state = open_state;
  opened_at = 5000000000;
  closed_at = none;
  exit_reason = none;
  realised_pnl = none;
  avg_entry_price = none;
  unrealized_pnl = none;
  marks_updated_at = none;
}

-- three shares held under a resting stop
abbrev pub held : Desk Fixed
held = record desk {
  trades = long ∷ [];
  orders = order 102 sell stop ∷ order 101 buy OrderType.market ∷ [];
  next_id = 110;
}

-- bought at 100.00 and stopped out at 94.00, with two commissions of a cent
abbrev pub stopped : Trade Fixed
stopped = record long {
  state = closed;
  closed_at = some 6000000001;
  exit_reason = some "stop";
  realised_pnl = some (record { plus = 2820000; minus = 3000200 });
}

stopped_out : (reconcile_fills fixed reports held).trades ≡ stopped ∷ []
unfolding reconcile_fills reconcile_one_fill already_recorded exists_by_broker_fill_id order_for
    get_by_client_order_id get_order add_fill after_fill is_terminal sum_quantity_for_order
    get_trade close_filled compute_realised_pnl count_fills side_by_order list_orders_for_trade
    list_fills_for_trade update_state publish record_snapshot
stopped_out = refl
