-- ===== src/Trading/Reconcile/Outcome.antt =====
-- What one fill of the broker's stream does, in terms of the rows alone.
use iguanatrader.Common.{
  ℕ, String, ◌≡◌, ◌≢◌, ◌⊎◌, inl, inr, refl, ap, true, false, not, ◌&&◌, Bool-cases, Option, none,
  some, Option-cases, List, [], ◌∷◌, map, filter, ◌==◌, arith,
}
use iguanatrader.Decimal.{Decimal}
use iguanatrader.Risk.Models.{Side, buy, sell}
use iguanatrader.Risk.State.{closed}
use iguanatrader.Trading.Models.{
  Desk, Trade, Order, OrderType, Fill, FillEvent, market, stop, limit,
}
use iguanatrader.Trading.Repository.{get_trade, total_of, sum_quantity_for_order}
use iguanatrader.Trading.Repository.Ordered.{IsHistory, orders_of}
use iguanatrader.Trading.Reconcile.{
  Incoming, add_fill, fill_row, reconcile_one_fill, order_for, already_recorded, is_terminal,
  same_side, reason_of, sum_quantity_for_order,
}
use iguanatrader.Trading.Reconcile.Written.{IsSettled, reconcile_one_fill-IsHandled}
use iguanatrader.Trading.Reconcile.Profit.{profit, compute_realised_pnl-net}
use iguanatrader.Trading.Reconcile.Closed.{
  HasClosed, reconcile_one_fill-stray, closed_trade, reconcile_one_fill-HasClosed,
}

-- The reason that a trade is closed with: the one it had, or the one that its leg tells.
abbrev pub Explains : OrderType → Option String → Option String → Type 0
Explains kind (some had) reason = reason ≡ some had
Explains stop none reason = reason ≡ some "stop"
Explains limit none reason = reason ≡ some "target"
Explains market none reason = reason ≡ some "target"

reason_of-Explains :
    (kind : OrderType) (had : Option String) → Explains kind had (some (reason_of kind had))
reason_of-Explains market (some r) = refl
reason_of-Explains stop (some r) = refl
reason_of-Explains limit (some r) = refl
reason_of-Explains market none = refl
reason_of-Explains stop none = refl
reason_of-Explains limit none = refl

same_side-true : (a b : Side) → same_side a b ≡ true → a ≡ b
same_side-true buy buy h = refl
same_side-true sell sell h = refl
same_side-true buy sell h = absurd (ground (arith, h))
same_side-true sell buy h = absurd (ground (arith, h))

same_side-false : (a b : Side) → same_side a b ≡ false → a ≢ b
same_side-false buy buy h = absurd (ground (arith, h))
same_side-false sell sell h = absurd (ground (arith, h))
same_side-false buy sell h = λ e. ground (arith, e)
same_side-false sell buy h = λ e. ground (arith, e)

module _ (dec : Decimal) where
  open dec use {Amount, of_int, add, lt}

  abbrev pub sum_up : List Amount → Amount
  sum_up [] = of_int 0
  sum_up (a ∷ as') = add (sum_up as') a

  -- what is filled of an order
  abbrev pub filled_of : Order Amount → Desk Amount → Amount
  filled_of order s =
      sum_up (map (λ f. f.quantity_filled) (filter (λ f. f.order_id == order.id) s.fills))

  -- The row is that of the event, under the order.
  pub record IsRowOf (event : FillEvent Amount) (order : Order Amount) (fill : Fill Amount)
      : Type 0 where
    pub of_order : fill.order_id ≡ order.id
    pub quantity_same : fill.quantity_filled ≡ event.quantity_filled
    pub price_same : fill.fill_price ≡ event.fill_price
    pub commission_same : fill.commission ≡ event.commission
    pub time_same : fill.filled_at ≡ event.filled_at
    pub name_same : fill.broker_fill_id ≡ event.broker_fill_id

  -- The trade is closed, with its profit over the fills of the desk.
  pub record IsClosedBy (now : ℕ) (order : Order Amount) (trade : Trade Amount) (s' : Desk Amount)
      : Type 0 where
    pub after : Trade Amount
    pub found : get_trade trade.id s' ≡ some after
    pub is_closed : after.state ≡ closed
    pub closed_now : after.closed_at ≡ some now
    pub explained : Explains order.order_type trade.exit_reason after.exit_reason
    pub fills : List (Fill Amount)
    pub history : IsHistory trade.id s' fills
    pub worth : after.realised_pnl ≡ some (profit dec (orders_of trade.id s') fills)

  -- An exit that is filled closes its trade, any other fill leaves every trade.
  abbrev pub IsEffect : ℕ → Order Amount → Trade Amount → Desk Amount → Desk Amount → Type 0
  IsEffect now order trade s s' =
      ((order.side ≢ trade.side)
        × (lt (filled_of order s') order.quantity ≡ false)
        × IsClosedBy now order trade s')
      ⊎ (((order.side ≡ trade.side) ⊎ (lt (filled_of order s') order.quantity ≡ true))
          × (s'.trades ≡ s.trades))

  pub data IsReconciled (incoming : Incoming Amount) (s s' : Desk Amount) : Type 0 where
    skipped : IsSettled dec incoming.event s → s' ≡ s → IsReconciled incoming s s'
    booked :
        (order : Order Amount) (fill : Fill Amount)
        → already_recorded dec incoming.event s ≡ false
        → order_for dec incoming.event s ≡ some order
        → IsRowOf incoming.event order fill
        → s'.fills ≡ fill ∷ s.fills
        → s'.orders ≡ s.orders
        → ((get_trade order.trade_id s ≡ none) × (s'.trades ≡ s.trades))
          ⊎ ((trade : Trade Amount) × (get_trade order.trade_id s ≡ some trade)
              × IsEffect incoming.now order trade s s')
        → IsReconciled incoming s s'

  total_of-sum :
      (fs : List (Fill Amount)) → total_of dec fs ≡ sum_up (map (λ f. f.quantity_filled) fs)
  total_of-sum [] = refl
  total_of-sum (f ∷ fs) = ap (λ total. add total f.quantity_filled) (total_of-sum fs)

  terminal-full :
      (order : Order Amount) (filled s' : Desk Amount)
      → s'.fills ≡ filled.fills
      → is_terminal dec order filled ≡ not (lt (filled_of order s') order.quantity)
  unfolding is_terminal sum_quantity_for_order
  terminal-full order filled s' e =
      let own = filter (λ f. f.order_id == order.id) filled.fills in
      rw e (ap (λ total. not (lt total order.quantity)) (total_of-sum own))

  closed-IsEffect :
      (incoming : Incoming Amount) (order : Order Amount) (trade : Trade Amount)
      (s s' : Desk Amount)
      → s'.orders ≡ s.orders
      → s'.fills ≡ fill_row dec incoming.event order s.next_id ∷ s.fills
      → HasClosed dec
          (not (same_side order.side trade.side)
            && is_terminal dec order (add_fill dec incoming.event order s))
          incoming
          order
          trade
          (add_fill dec incoming.event order s)
          s'
      → IsEffect incoming.now order trade s s'
  unfolding add_fill
  closed-IsEffect incoming order trade s s' orders fills (inl (e, found)) =
      let (paid, history, worth) =
        compute_realised_pnl-net dec trade (add_fill dec incoming.event order s) in
      inl (
        same_side-false order.side trade.side (ground (arith, e)),
        ground (arith, e, terminal-full order (add_fill dec incoming.event order s) s' fills),
        record {
          after = closed_trade dec incoming order trade (add_fill dec incoming.event order s);
          found = found;
          is_closed = refl;
          closed_now = refl;
          explained = reason_of-Explains order.order_type trade.exit_reason;
          fills = paid;
          history = rw (orders, fills) history;
          worth = ap some (rw orders worth);
        },
      )
  closed-IsEffect incoming order trade s s' orders fills (inr (e, same)) = inr (
    elim (Bool-cases (same_side order.side trade.side)) [
      | inl is ↦ inl (same_side-true order.side trade.side is)
      | inr differs ↦ inr (
          ground
            (arith, e, differs, terminal-full order (add_fill dec incoming.event order s) s' fills))
    ],
    same,
  )

  -- A fill that is recorded already, or of no known order, changes nothing. Any other is written as
  -- one row under its order. It closes the order's trade exactly when the order is on the side
  -- opposite to the trade's and what is filled of it, with this row, is not below its quantity: the
  -- trade is closed at this time, keeps the reason it had or takes that of the leg, and has as its
  -- profit what its fills, this one among them, have sold less what they have bought, less their
  -- commissions. Otherwise no trade changes.
  pub reconcile_one_fill-IsReconciled :
      (incoming : Incoming Amount) (s : Desk Amount)
      → IsReconciled incoming s (reconcile_one_fill dec incoming s)
  reconcile_one_fill-IsReconciled incoming s = elim (reconcile_one_fill-IsHandled dec incoming s) [
    | inl (settled, same) ↦ skipped settled same
    | inr (order, known, new, orders, fills) ↦
        booked order (fill_row dec incoming.event order s.next_id) new known
          (record {
            of_order = refl;
            quantity_same = refl;
            price_same = refl;
            commission_same = refl;
            time_same = refl;
            name_same = refl;
          })
          fills orders
          (elim (Option-cases (get_trade order.trade_id s)) [
            | inl gone ↦ inl (gone, reconcile_one_fill-stray dec incoming order s new known gone)
            | inr (trade, at) ↦ inr (
              trade,
              at,
              closed-IsEffect incoming order trade s (reconcile_one_fill dec incoming s) orders
                  fills (reconcile_one_fill-HasClosed dec incoming order trade s new known at),
            )
          ])
  ]
