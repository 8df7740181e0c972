-- ===== src/Trading/Reconcile.antt =====
-- The reconciliation of fills in contexts/trading/service.py: `startup_reconcile`,
-- `reconcile_fills_handler` and `_reconcile_one_fill`, with the realised profit of a closed trade.
pub mod Written
pub mod Again
pub mod Profit
pub mod Closed
pub mod Outcome
use iguanatrader.Common.{
  ℕ, String, ◌&&◌, str_eq, ◌-◌, not, true, suc, List, false, Bool, ◌∷◌, if◌then◌else◌, none, some,
  [], ◌==◌, ◌*◌, Option,
}
use iguanatrader.Decimal.{Decimal}
use iguanatrader.Risk.Models.{Side, buy, sell}
use iguanatrader.Risk.State.{closed}
use iguanatrader.Trading.Models.{
  Desk, FillEvent, Fill, Order, OrderType, Trade, order_filled, trade_closed, equity_updated, stop,
}
use iguanatrader.Trading.Service.{publish}
use iguanatrader.Trading.Repository.{
  exists_by_broker_fill_id, get_by_client_order_id, get_order, get_trade, sum_quantity_for_order,
  update_state, list_orders_for_trade, list_fills_for_trade, latest_filled_at,
}

abbrev pub same_side : Side → Side → Bool
same_side buy buy = true
same_side sell sell = true
same_side _ _ = false

-- A fill of the broker's stream, with the time and the account's equity that are read while it is
-- handled.
pub record Incoming (A : Type 0) : Type 0 where
  pub event : FillEvent A
  pub now : ℕ
  pub account_equity : A

-- the three sums of `_compute_realised_pnl`
pub record Tally (A : Type 0) : Type 0 where
  pub entry_value : A
  pub exit_value : A
  pub total_commission : A

-- `if fill_event.broker_fill_id`: there is one, and it is not empty
abbrev pub fill_name : Option String → Option String
fill_name none = none
fill_name (some id) = if str_eq id "" then none else some id

-- `a or b` of two lookups
abbrev pub either {ℓ} : {B : Type ℓ} → Option B → Option B → Option B
either none b = b
either (some a) b = some a

-- the reason that the leg tells, where the trade has none
abbrev pub reason_of : OrderType → Option String → String
reason_of kind (some reason) = reason
reason_of stop none = "stop"
reason_of _ none = "target"

module _ (dec : Decimal) where
  open dec use {Amount, of_int, add, sub, mul, lt}

  -- `side_by_order.get(fill.order_id)`
  unfoldable pub side_by_order : List (Order Amount) → ℕ → Option Side
  side_by_order [] order_id = none
  side_by_order (o ∷ os) order_id =
      if o.id == order_id then some o.side else side_by_order os order_id

  abbrev pub count_fill : Side → Fill Amount → Option Side → Tally Amount → Tally Amount
  count_fill side fill none acc = acc
  count_fill side fill (some order_side) acc =
      let value = mul fill.quantity_filled fill.fill_price in
      if same_side order_side side
      then record {
        entry_value = add acc.entry_value value;
        exit_value = acc.exit_value;
        total_commission = add acc.total_commission fill.commission;
      }
      else record {
        entry_value = acc.entry_value;
        exit_value = add acc.exit_value value;
        total_commission = add acc.total_commission fill.commission;
      }

  unfoldable pub count_fills :
      Side → List (Order Amount) → List (Fill Amount) → Tally Amount → Tally Amount
  count_fills side orders [] acc = acc
  count_fills side orders (f ∷ fs) acc =
      count_fills side orders fs (count_fill side f (side_by_order orders f.order_id) acc)

  abbrev pub nothing_counted : Tally Amount
  nothing_counted = record {
    entry_value = of_int 0;
    exit_value = of_int 0;
    total_commission = of_int 0;
  }

  abbrev pub net : Side → Tally Amount → Amount
  net buy t = sub (sub t.exit_value t.entry_value) t.total_commission
  net sell t = sub (sub t.entry_value t.exit_value) t.total_commission

  unfoldable pub compute_realised_pnl : Trade Amount → Desk Amount → Amount
  compute_realised_pnl trade s = net trade.side (
      count_fills trade.side (list_orders_for_trade trade.id s) (list_fills_for_trade trade.id s)
        nothing_counted)

  abbrev pub is_recorded : Option String → Desk Amount → Bool
  is_recorded none s = false
  is_recorded (some id) s = exists_by_broker_fill_id id s

  unfoldable pub already_recorded : FillEvent Amount → Desk Amount → Bool
  already_recorded event s = is_recorded (fill_name event.broker_fill_id) s

  unfoldable pub order_for : FillEvent Amount → Desk Amount → Option (Order Amount)
  order_for event s = either (get_by_client_order_id event.order_id s) (get_order event.order_id s)

  abbrev pub fill_row : FillEvent Amount → Order Amount → ℕ → Fill Amount
  fill_row event order fill_id = record {
    id = fill_id;
    order_id = order.id;
    quantity_filled = event.quantity_filled;
    fill_price = event.fill_price;
    commission = event.commission;
    filled_at = event.filled_at;
    broker_fill_id = event.broker_fill_id;
  }

  unfoldable pub add_fill : FillEvent Amount → Order Amount → Desk Amount → Desk Amount
  add_fill event order s = record s {
    fills = fill_row event order s.next_id ∷ s.fills;
    next_id = suc s.next_id;
  }

  -- `total_filled >= order.quantity`
  unfoldable pub is_terminal : Order Amount → Desk Amount → Bool
  is_terminal order s = not (lt (sum_quantity_for_order dec order.id s) order.quantity)

  unfoldable pub close_filled : Order Amount → ℕ → Trade Amount → Desk Amount → Desk Amount
  close_filled order now trade s =
      let realised_pnl = compute_realised_pnl trade s in
      let exit_reason = reason_of order.order_type trade.exit_reason in
      publish (trade_closed trade.id realised_pnl exit_reason now)
        (update_state trade.id closed (some now) (some exit_reason) (some realised_pnl) s)

  abbrev pub close_if_exited :
      Order Amount → ℕ → Bool → Option (Trade Amount) → Desk Amount → Desk Amount
  close_if_exited order now terminal none s = s
  close_if_exited order now terminal (some trade) s =
      if not (same_side order.side trade.side) && terminal
      then close_filled order now trade s
      else s

  unfoldable pub record_snapshot : Amount → Desk Amount → Desk Amount
  record_snapshot account_equity s = publish (equity_updated s.next_id) (record s {
    snapshots = record { id = s.next_id; account_equity = account_equity } ∷ s.snapshots;
    next_id = suc s.next_id;
  })

  -- the fill `fill_id` is in the ledger
  unfoldable pub after_fill : Incoming Amount → Order Amount → ℕ → Desk Amount → Desk Amount
  after_fill incoming order fill_id s =
      let terminal = is_terminal order s in
      let told =
        publish (order_filled order.id fill_id)
          (close_if_exited order incoming.now terminal (get_trade order.trade_id s) s) in
      if terminal then record_snapshot incoming.account_equity told else told

  abbrev pub reconcile_order : Incoming Amount → Option (Order Amount) → Desk Amount → Desk Amount
  reconcile_order incoming none s = s
  reconcile_order incoming (some order) s =
      after_fill incoming order s.next_id (add_fill incoming.event order s)

  unfoldable pub reconcile_one_fill : Incoming Amount → Desk Amount → Desk Amount
  reconcile_one_fill incoming s =
      if already_recorded incoming.event s
      then s
      else reconcile_order incoming (order_for incoming.event s) s

  unfoldable pub reconcile_fills : List (Incoming Amount) → Desk Amount → Desk Amount
  reconcile_fills [] s = s
  reconcile_fills (f ∷ fs) s = reconcile_fills fs (reconcile_one_fill f s)

  abbrev pub since_for : Option ℕ → ℕ → ℕ → ℕ
  since_for none margin_minutes now = now - 24 * 3600000000
  since_for (some latest) margin_minutes now = latest - margin_minutes * 60000000

  -- `broker` gives the fills since a time
  unfoldable pub startup_reconcile :
      (ℕ → List (Incoming Amount)) → ℕ → ℕ → Desk Amount → Desk Amount
  startup_reconcile broker margin_minutes now s =
      reconcile_fills (broker (since_for (latest_filled_at s) margin_minutes now)) s
