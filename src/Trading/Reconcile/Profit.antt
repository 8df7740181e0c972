-- ===== src/Trading/Reconcile/Profit.antt =====
-- The realised profit of a trade, against sums over its fills by leg.
use iguanatrader.Common.{
  find, ◌==◌, inl, none, Bool, ap, List, ◌∷◌, is_some, inr, some, Option, filter, [], false,
  Bool-cases, ◌≡◌, refl, Option-cases, true, ◌∙◌,
}
use iguanatrader.Decimal.{Decimal}
use iguanatrader.Risk.Models.{Side, buy, sell}
use iguanatrader.Trading.Models.{Desk, Trade, Order, Fill}
use iguanatrader.Trading.Repository.Ordered.{IsHistory, orders_of, list_fills_for_trade-IsHistory}
use iguanatrader.Trading.Repository.{list_orders_for_trade, list_fills_for_trade}
use iguanatrader.Trading.Reconcile.{
  Tally, side_by_order, count_fills, nothing_counted, net, compute_realised_pnl,
}

abbrev pub is_bought : Option Side → Bool
is_bought none = false
is_bought (some buy) = true
is_bought (some sell) = false

abbrev pub is_sold : Option Side → Bool
is_sold none = false
is_sold (some buy) = false
is_sold (some sell) = true

module _ (dec : Decimal) where
  open dec use {Amount, of_int, add, sub, mul}

  -- The sum from the left, on top of an amount.
  abbrev pub sum_from : (Fill Amount → Amount) → Amount → List (Fill Amount) → Amount
  sum_from worth base [] = base
  sum_from worth base (f ∷ fs) = sum_from worth (add base (worth f)) fs

  abbrev pub value : Fill Amount → Amount
  value f = mul f.quantity_filled f.fill_price

  -- the row that a fill belongs to
  abbrev pub order_of : List (Order Amount) → Fill Amount → Option (Order Amount)
  order_of orders f = find (λ o. o.id == f.order_id) orders

  abbrev pub side_of : Option (Order Amount) → Option Side
  side_of none = none
  side_of (some o) = some o.side

  -- what the orders have bought and sold, and what the fills of both have cost
  abbrev pub bought : List (Order Amount) → Amount → List (Fill Amount) → Amount
  bought orders base fills =
      sum_from value base (filter (λ f. is_bought (side_of (order_of orders f))) fills)

  abbrev pub sold : List (Order Amount) → Amount → List (Fill Amount) → Amount
  sold orders base fills =
      sum_from value base (filter (λ f. is_sold (side_of (order_of orders f))) fills)

  abbrev pub costs : List (Order Amount) → Amount → List (Fill Amount) → Amount
  costs orders base fills =
      sum_from (λ f. f.commission) base (filter (λ f. is_some (side_of (order_of orders f))) fills)

  -- What the trade's sales brought in, less what its purchases cost, less the commissions: of a long
  -- trade and of a short one.
  abbrev pub profit : List (Order Amount) → List (Fill Amount) → Amount
  profit orders fills =
      sub (sub (sold orders (of_int 0) fills) (bought orders (of_int 0) fills))
        (costs orders (of_int 0) fills)

  side_by_order-find :
      (orders : List (Order Amount)) (f : Fill Amount)
      → side_by_order dec orders f.order_id ≡ side_of (order_of orders f)
  unfolding side_by_order
  side_by_order-find [] f = refl
  side_by_order-find (o ∷ os) f = elim (Bool-cases (o.id == f.order_id)) [
    | inl e ↦ rw e refl
    | inr e ↦ rw e (side_by_order-find os f)
  ]

  -- the tally of a trade: a long one enters by buying, a short one by selling
  abbrev tally_of : Side → List (Order Amount) → List (Fill Amount) → Tally Amount → Tally Amount
  tally_of buy orders fills acc = record {
    entry_value = bought orders acc.entry_value fills;
    exit_value = sold orders acc.exit_value fills;
    total_commission = costs orders acc.total_commission fills;
  }
  tally_of sell orders fills acc = record {
    entry_value = sold orders acc.entry_value fills;
    exit_value = bought orders acc.exit_value fills;
    total_commission = costs orders acc.total_commission fills;
  }

  count_fills-tally :
      (side : Side) (orders : List (Order Amount)) (fills : List (Fill Amount)) (acc : Tally Amount)
      → count_fills dec side orders fills acc ≡ tally_of side orders fills acc
  unfolding count_fills
  count_fills-tally buy orders [] acc = refl
  count_fills-tally sell orders [] acc = refl
  count_fills-tally buy orders (f ∷ fs) acc =
      let later = count_fills-tally buy orders fs in
      rw (side_by_order-find orders f) (elim (Option-cases (side_of (order_of orders f))) [
        | inl e ↦ rw e (later _)
        | inr (buy, e) ↦ rw e (later _)
        | inr (sell, e) ↦ rw e (later _)
      ])
  count_fills-tally sell orders (f ∷ fs) acc =
      let later = count_fills-tally sell orders fs in
      rw (side_by_order-find orders f) (elim (Option-cases (side_of (order_of orders f))) [
        | inl e ↦ rw e (later _)
        | inr (buy, e) ↦ rw e (later _)
        | inr (sell, e) ↦ rw e (later _)
      ])

  net-profit :
      (side : Side) (orders : List (Order Amount)) (fills : List (Fill Amount))
      → net dec side (tally_of side orders fills (nothing_counted dec)) ≡ profit orders fills
  net-profit buy orders fills = refl
  net-profit sell orders fills = refl

  -- The realised profit of a trade, long or short, is what its fills have sold less what they have
  -- bought, less their commissions; they are the fills of the trade's orders, each once, and the sums
  -- run by the time of the fill. A fill buys or sells by the side of its order.
  pub compute_realised_pnl-net :
      (trade : Trade Amount) (s : Desk Amount)
      → (fills : List (Fill Amount)) × IsHistory trade.id s fills
        × (compute_realised_pnl dec trade s ≡ profit (orders_of trade.id s) fills)
  unfolding compute_realised_pnl list_orders_for_trade
  compute_realised_pnl-net trade s =
      let fills = list_fills_for_trade trade.id s in
      (
        fills,
        list_fills_for_trade-IsHistory trade.id s,
        ap (net dec trade.side)
              (count_fills-tally trade.side (orders_of trade.id s) fills (nothing_counted dec))
            ∙ net-profit trade.side (orders_of trade.id s) fills,
      )
