-- ===== src/Trading/Reconcile/Written.antt =====
-- The rows that one fill of the broker's stream writes.
use iguanatrader.Common.{
  ℕ, not, none, if◌then◌else◌, refl, ◌≡◌, inl, Bool, ◌⊎◌, some, false, ◌∷◌, inr, true, ◌&&◌, Option,
}
use iguanatrader.Decimal.{Decimal}
use iguanatrader.Trading.Models.{Desk, Trade, Order, FillEvent, order_filled}
use iguanatrader.Trading.Repository.{get_trade, update_state}
use iguanatrader.Trading.Service.{publish}
use iguanatrader.Trading.Reconcile.{
  Incoming, fill_row, add_fill, close_filled, close_if_exited, record_snapshot, after_fill,
  reconcile_order, reconcile_one_fill, order_for, already_recorded, is_terminal, same_side,
}

-- The orders and the fills are left as they are.
abbrev pub IsLeft : {A : Type 0} → Desk A → Desk A → Type 0
IsLeft s s' = (s'.orders ≡ s.orders) × (s'.fills ≡ s.fills)

module _ (dec : Decimal) where
  open dec use {Amount}

  close_filled-IsLeft :
      (order : Order Amount) (now : ℕ) (trade : Trade Amount) (s : Desk Amount)
      → IsLeft s (close_filled dec order now trade s)
  unfolding close_filled publish update_state
  close_filled-IsLeft order now trade s = (refl, refl)

  close_if_exited-IsLeft :
      (order : Order Amount) (now : ℕ) (terminal : Bool) (found : Option (Trade Amount))
      (s : Desk Amount)
      → IsLeft s (close_if_exited dec order now terminal found s)
  close_if_exited-IsLeft order now terminal none s = (refl, refl)
  close_if_exited-IsLeft order now terminal (some trade) s =
      elim (not (same_side order.side trade.side) && terminal)
        as (λ b. IsLeft s (if b then close_filled dec order now trade s else s)) [
          | true ↦ close_filled-IsLeft order now trade s
          | false ↦ (refl, refl)
        ]

  after_fill-IsLeft :
      (incoming : Incoming Amount) (order : Order Amount) (fill_id : ℕ) (s : Desk Amount)
      → IsLeft s (after_fill dec incoming order fill_id s)
  unfolding after_fill publish record_snapshot
  after_fill-IsLeft incoming order fill_id s =
      let terminal = is_terminal dec order s in
      let closed = close_if_exited dec order incoming.now terminal (get_trade order.trade_id s) s in
      let told = publish (order_filled order.id fill_id) closed in
      elim terminal
        as (λ b. IsLeft s (if b then record_snapshot dec incoming.account_equity told else told)) [
          | true ↦ close_if_exited-IsLeft order incoming.now terminal (get_trade order.trade_id s) s
          | false ↦
              close_if_exited-IsLeft order incoming.now terminal (get_trade order.trade_id s) s
        ]

  -- There is nothing left to do for a fill: it is recorded, or no order is known for it.
  abbrev pub IsSettled : FillEvent Amount → Desk Amount → Type 0
  IsSettled event s = (already_recorded dec event s ≡ true) ⊎ (order_for dec event s ≡ none)

  -- One fill is skipped and nothing changes, or its row is added under an order.
  abbrev pub IsHandled : FillEvent Amount → Desk Amount → Desk Amount → Type 0
  IsHandled event s s' =
      (IsSettled event s × (s' ≡ s))
      ⊎ ((order : Order Amount) × (order_for dec event s ≡ some order)
          × (already_recorded dec event s ≡ false)
          × (s'.orders ≡ s.orders)
          × (s'.fills ≡ fill_row dec event order s.next_id ∷ s.fills))

  reconcile_order-IsHandled :
      (incoming : Incoming Amount) (found : Option (Order Amount)) (s : Desk Amount)
      → order_for dec incoming.event s ≡ found
      → already_recorded dec incoming.event s ≡ false
      → IsHandled incoming.event s (reconcile_order dec incoming found s)
  unfolding add_fill
  reconcile_order-IsHandled incoming none s e new = inl (inr e, refl)
  reconcile_order-IsHandled incoming (some order) s e new =
      let kept = after_fill-IsLeft incoming order s.next_id (add_fill dec incoming.event order s) in
      inr (order, e, new, kept.0, kept.1)

  checked-IsHandled :
      (incoming : Incoming Amount) (seen : Bool) (s : Desk Amount)
      → already_recorded dec incoming.event s ≡ seen
      → IsHandled incoming.event s
          (if seen then s else reconcile_order dec incoming (order_for dec incoming.event s) s)
  checked-IsHandled incoming true s e = inl (inl e, refl)
  checked-IsHandled incoming false s e =
      reconcile_order-IsHandled incoming (order_for dec incoming.event s) s refl e

  pub reconcile_one_fill-IsHandled :
      (incoming : Incoming Amount) (s : Desk Amount)
      → IsHandled incoming.event s (reconcile_one_fill dec incoming s)
  unfolding reconcile_one_fill
  reconcile_one_fill-IsHandled incoming s =
      checked-IsHandled incoming (already_recorded dec incoming.event s) s refl
