-- ===== src/Trading/Desk/Fills.antt =====
-- What the reconciliation of fills, and a proposal, do to the trades and the orders.
use iguanatrader.Common.{
  ℕ, if◌then◌else◌, true, some, false, arith, ◌≤◌, not, Option, ◌∷◌, ◌&&◌, Bool, ◌≡◌, [], none,
  refl, List,
}
use iguanatrader.Decimal.{Decimal}
use iguanatrader.Risk.State.{TradeState, open_state, closing, closed}
use iguanatrader.Trading.Models.{Desk, Trade, Order, FillEvent, order_filled}
use iguanatrader.Trading.Repository.{get_trade}
use iguanatrader.Trading.Service.{Service, publish}
use iguanatrader.Trading.Reconcile.{
  Incoming, add_fill, close_filled, close_if_exited, record_snapshot, after_fill, reconcile_order,
  reconcile_one_fill, reconcile_fills, order_for, already_recorded, is_terminal, same_side,
}
use iguanatrader.Trading.Propose.{
  Tick, Proposal, EntryDecision, propose, propose_for, propose_signal, propose_entry, entry_decided,
  insert_proposal, is_in_flight, propose_unless,
}
use iguanatrader.Trading.Desk.Ledger.{rank}
use iguanatrader.Trading.Desk.Steps.{
  IsKept, IsKept-refl, IsKept-trans, untouched, publish-IsKept, update_state-IsKept,
  get_trade-again,
}

pub closed_rank : (state : TradeState) → rank state ≤ rank closed
closed_rank open_state = omega arith
closed_rank closing = omega arith
closed_rank closed = omega arith

module _ (dec : Decimal) where
  open dec use {Amount}

  add_fill-IsKept :
      (event : FillEvent Amount) (order : Order Amount) (s : Desk Amount)
      → IsKept s (add_fill dec event order s)
  unfolding add_fill
  add_fill-IsKept event order s = untouched s _ refl refl

  close_filled-IsKept :
      (order : Order Amount) (now : ℕ) (trade : Trade Amount) (s : Desk Amount)
      → get_trade trade.id s ≡ some trade
      → IsKept s (close_filled dec order now trade s)
  unfolding close_filled
  close_filled-IsKept order now trade s found =
      IsKept-trans s _ _
        (update_state-IsKept trade.id trade closed _ _ _ s found (closed_rank trade.state))
        (publish-IsKept _ _)

  close_if_exited-IsKept :
      (order : Order Amount) (now id : ℕ) (terminal : Bool) (found : Option (Trade Amount))
      (s : Desk Amount)
      → get_trade id s ≡ found
      → IsKept s (close_if_exited dec order now terminal found s)
  close_if_exited-IsKept order now id terminal none s e = IsKept-refl s
  close_if_exited-IsKept order now id terminal (some trade) s e =
      elim (not (same_side order.side trade.side) && terminal)
        as (λ b. IsKept s (if b then close_filled dec order now trade s else s)) [
          | true ↦ close_filled-IsKept order now trade s (get_trade-again id trade s e)
          | false ↦ IsKept-refl s
        ]

  record_snapshot-IsKept :
      (equity : Amount) (s : Desk Amount) → IsKept s (record_snapshot dec equity s)
  unfolding record_snapshot
  record_snapshot-IsKept equity s =
      IsKept-trans s _ _ (untouched s _ refl refl) (publish-IsKept _ _)

  after_fill-IsKept :
      (incoming : Incoming Amount) (order : Order Amount) (fill_id : ℕ) (s : Desk Amount)
      → IsKept s (after_fill dec incoming order fill_id s)
  unfolding after_fill
  after_fill-IsKept incoming order fill_id s =
      let terminal = is_terminal dec order s in
      let found = get_trade order.trade_id s in
      let told =
        publish (order_filled order.id fill_id)
          (close_if_exited dec order incoming.now terminal found s) in
      let done : IsKept s told =
        IsKept-trans s _ _
          (close_if_exited-IsKept order incoming.now order.trade_id terminal found s refl)
          (publish-IsKept _ _) in
      elim terminal
        as (λ b. IsKept s (if b then record_snapshot dec incoming.account_equity told else told)) [
          | true ↦ IsKept-trans s told _ done (record_snapshot-IsKept incoming.account_equity told)
          | false ↦ done
        ]

  reconcile_order-IsKept :
      (incoming : Incoming Amount) (found : Option (Order Amount)) (s : Desk Amount)
      → IsKept s (reconcile_order dec incoming found s)
  reconcile_order-IsKept incoming none s = IsKept-refl s
  reconcile_order-IsKept incoming (some order) s =
      IsKept-trans s _ _ (add_fill-IsKept incoming.event order s)
        (after_fill-IsKept incoming order s.next_id _)

  pub reconcile_one_fill-IsKept :
      (incoming : Incoming Amount) (s : Desk Amount) → IsKept s (reconcile_one_fill dec incoming s)
  unfolding reconcile_one_fill
  reconcile_one_fill-IsKept incoming s =
      elim (already_recorded dec incoming.event s)
        as (λ b.
          IsKept s
            (if b then s else reconcile_order dec incoming (order_for dec incoming.event s) s)) [
              | true ↦ IsKept-refl s
              | false ↦ reconcile_order-IsKept incoming (order_for dec incoming.event s) s
            ]

  pub reconcile_fills-IsKept :
      (fills : List (Incoming Amount)) (s : Desk Amount) → IsKept s (reconcile_fills dec fills s)
  unfolding reconcile_fills
  reconcile_fills-IsKept [] s = IsKept-refl s
  reconcile_fills-IsKept (f ∷ fs) s =
      IsKept-trans s _ _ (reconcile_one_fill-IsKept f s)
        (reconcile_fills-IsKept fs (reconcile_one_fill dec f s))

module _ (dec : Decimal) (svc : Service dec.Amount) where
  open dec use {Amount, lt, of_int}

  insert_proposal-IsKept :
      (tick : Tick Amount) (proposal : Proposal Amount) (confidence : Option Amount)
      (s : Desk Amount)
      → IsKept s (insert_proposal dec svc tick proposal confidence s)
  unfolding insert_proposal
  insert_proposal-IsKept tick proposal confidence s =
      IsKept-trans s _ _ (untouched s _ refl refl) (publish-IsKept _ _)

  propose_entry-IsKept :
      (tick : Tick Amount) (proposal : Proposal Amount)
      (gate : Option (Proposal Amount → EntryDecision Amount)) (s : Desk Amount)
      → IsKept s (propose_entry dec svc tick proposal gate s).1
  propose_entry-IsKept tick proposal none s = insert_proposal-IsKept tick proposal _ s
  propose_entry-IsKept tick proposal (some gate) s =
      elim (gate proposal).blocked
        as (λ b. IsKept s (entry_decided dec svc tick proposal b (gate proposal).confidence s).1) [
          | true ↦ IsKept-refl s
          | false ↦ insert_proposal-IsKept tick proposal _ s
        ]

  propose_for-IsKept :
      (tick : Tick Amount) (tenant : Option ℕ) (signal : Option (Proposal Amount)) (s : Desk Amount)
      → IsKept s (propose_for dec svc tick tenant signal s).1
  propose_for-IsKept tick none signal s = IsKept-refl s
  propose_for-IsKept tick (some tenant) none s = IsKept-refl s
  propose_for-IsKept tick (some tenant) (some proposal) s =
      elim (is_in_flight dec svc tick s)
        as (λ b. IsKept s (propose_signal dec svc tick proposal b s).1) [
          | true ↦ IsKept-refl s
          | false ↦ propose_entry-IsKept tick proposal tick.entry_gate s
        ]

  pub propose-IsKept : (tick : Tick Amount) (s : Desk Amount) → IsKept s (propose dec svc tick s).1
  unfolding propose
  propose-IsKept tick s =
      elim s.kill_switch_active as (λ b. IsKept s (propose_unless dec svc tick b s).1) [
        | true ↦ IsKept-refl s
        | false ↦ propose_for-IsKept tick tick.tenant tick.signal s
      ]
