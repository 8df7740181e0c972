-- ===== src/Trading/Desk/Steps.antt =====
-- What each handler does to the trades and the orders.
use iguanatrader.Common.{
  ℕ, String, ◌∷◌, ◌==◌, ◌++◌, append_assoc, List, refl, [], ◌≡◌, ◌≤◌, Option, some, ==_iff, none,
  arith, inr, find-test, true, inl, Bool-cases, if◌then◌else◌, false, subst, sym,
}
use iguanatrader.Risk.Bridge.{ProposalRiskEvaluated}
use iguanatrader.Risk.Models.{allow, reject, clip}
use iguanatrader.Risk.State.{TradeState, open_state, closing, closed}
use iguanatrader.Trading.Models.{
  Desk, Trade, Order, Event, NewOrder, ProposalState, approval_requested, proposal_rejected,
}
use iguanatrader.Trading.Repository.{with_exit, update_state, set_state, get_trade}
use iguanatrader.Trading.Service.{
  Service, Outside, Answer, placed, timed_out, auth_error, budget_exceeded, integration_error,
  other_error, publish, add_order, send, halt_handler,
}
use iguanatrader.Trading.Close.{
  exit_order, exit_row, exit_answered, close_found, close_trade, close_trade_handler, is_open,
  is_valid_reason, invalid_reason,
}
use iguanatrader.Trading.Propose.{risk_check_handler, proposal_rejected_handler, reject_reason}
use iguanatrader.Trading.Desk.Ledger.{
  rank, AreLater, AreLater-refl, AreLater-trans, update_first-AreLater,
}

-- No trade is opened, every trade is as it was or later, and every order is still there.
pub record IsKept {A : Type 0} (s s' : Desk A) : Type 0 where
  pub trades_later : AreLater s.trades s'.trades
  pub extra : List (Order A)
  pub orders_more : s'.orders ≡ extra ++ s.orders

open_rank : (state : TradeState) → is_open state ≡ true → rank state ≤ 1
open_rank open_state h = omega arith
open_rank closing h = omega arith
open_rank closed h = absurd (ground (arith, h))

module _ {A : Type 0} where
  -- a step that leaves both tables
  pub untouched : (s s' : Desk A) → s'.trades ≡ s.trades → s'.orders ≡ s.orders → IsKept s s'
  untouched s s' t o = record {
    trades_later = rw t (AreLater-refl s.trades);
    extra = [];
    orders_more = o;
  }

  pub IsKept-refl : (s : Desk A) → IsKept s s
  IsKept-refl s = untouched s s refl refl

  pub IsKept-trans : (s s' s'' : Desk A) → IsKept s s' → IsKept s' s'' → IsKept s s''
  IsKept-trans s s' s'' a b = record {
    trades_later = AreLater-trans a.trades_later b.trades_later;
    extra = b.extra ++ a.extra;
    orders_more = rw (b.orders_more, a.orders_more, append_assoc) refl;
  }

  pub publish-IsKept : (event : Event A) (s : Desk A) → IsKept s (publish event s)
  unfolding publish
  publish-IsKept event s = untouched s _ refl refl

  add_order-IsKept : (o : Order A) (s : Desk A) → IsKept s (add_order o s)
  unfolding add_order
  add_order-IsKept o s = record {
    trades_later = AreLater-refl s.trades;
    extra = o ∷ [];
    orders_more = refl;
  }

  set_state-IsKept :
      (id : ℕ) (state : ProposalState) (reason : Option String) (now : ℕ) (s : Desk A)
      → IsKept s (set_state id state reason now s)
  unfolding set_state
  set_state-IsKept id state reason now s = untouched s _ refl refl

  -- The UPDATE of a trade that was found, to a state that is not before its own.
  pub update_state-IsKept :
      (id : ℕ) (t : Trade A) (state : TradeState) (closed_at : Option ℕ) (reason : Option String)
      (pnl : Option A) (s : Desk A)
      → get_trade id s ≡ some t
      → rank t.state ≤ rank state
      → IsKept s (update_state id state closed_at reason pnl s)
  unfolding update_state get_trade
  update_state-IsKept id t state closed_at reason pnl s found forward = record {
    trades_later =
        update_first-AreLater (λ x. x.id == id) (with_exit state closed_at reason pnl) t s.trades
          found
          (record {
            id_same = refl;
            proposal_same = refl;
            symbol_same = refl;
            side_same = refl;
            quantity_same = refl;
            opened_same = refl;
            forward = forward;
          });
    extra = [];
    orders_more = refl;
  }

  get_trade-id : (id : ℕ) (t : Trade A) (s : Desk A) → get_trade id s ≡ some t → t.id ≡ id
  unfolding get_trade
  get_trade-id id t s found = (==_iff t.id id).0 (find-test (λ x. x.id == id) s.trades t found)

  pub get_trade-again :
      (id : ℕ) (t : Trade A) (s : Desk A) → get_trade id s ≡ some t → get_trade t.id s ≡ some t
  get_trade-again id t s found =
      subst (λ i. get_trade i s ≡ some t) (sym (get_trade-id id t s found)) found

  send-IsKept : (order : NewOrder A) (s : Desk A) → IsKept s (send order s)
  send-IsKept order s = untouched s _ refl refl

  exit_answered-IsKept :
      (svc : Service A) (out : Outside A) (trade : Trade A) (order : NewOrder A) (reason : String)
      (answer : Answer) (s : Desk A)
      → get_trade order.trade_id s ≡ some trade
      → rank trade.state ≤ 1
      → IsKept s (exit_answered svc out order reason answer s).1
  unfolding exit_answered get_trade add_order
  exit_answered-IsKept svc out trade order reason (placed id) s found forward =
      let booked = add_order (exit_row svc out order id s.next_id) s in
      let updated = update_state order.trade_id closing none (some reason) none booked in
      IsKept-trans s booked _ (add_order-IsKept _ s) (
        IsKept-trans booked updated _
          (update_state-IsKept order.trade_id trade closing none (some reason) none booked found
            forward)
          (publish-IsKept _ updated))
  exit_answered-IsKept svc out trade order reason timed_out s found forward = IsKept-refl s
  exit_answered-IsKept svc out trade order reason auth_error s found forward = IsKept-refl s
  exit_answered-IsKept svc out trade order reason budget_exceeded s found forward = IsKept-refl s
  exit_answered-IsKept svc out trade order reason integration_error s found forward = IsKept-refl s
  exit_answered-IsKept svc out trade order reason other_error s found forward = IsKept-refl s

  close_found-IsKept :
      (svc : Service A) (out : Outside A) (id : ℕ) (found : Option (Trade A)) (reason : String)
      (s : Desk A)
      → get_trade id s ≡ found
      → IsKept s (close_found svc out id found reason s).1
  unfolding get_trade
  close_found-IsKept svc out id none reason s e = IsKept-refl s
  close_found-IsKept svc out id (some trade) reason s e = elim (Bool-cases (is_open trade.state)) [
    | inl is ↦
        let order = exit_order svc out id trade in
        rw is (
          IsKept-trans s (send order s) _ (send-IsKept order s) (
            exit_answered-IsKept svc out trade order reason (out.place_order order) (send order s) e
              (open_rank trade.state is)))
    | inr e1 ↦ rw e1 (IsKept-refl s)
  ]

  pub close_trade_handler-IsKept :
      (svc : Service A) (out : Outside A) (id : ℕ) (reason : String) (s : Desk A)
      → IsKept s (close_trade_handler svc out id reason s)
  unfolding close_trade_handler close_trade
  close_trade_handler-IsKept svc out id reason s =
      elim (is_valid_reason reason)
        as (λ b.
          IsKept s
            (if b
              then close_found svc out id (get_trade id s) reason s
              else (invalid_reason, s)).1) [
                | true ↦ close_found-IsKept svc out id (get_trade id s) reason s refl
                | false ↦ IsKept-refl s
              ]

  pub risk_check_handler-IsKept :
      (event : ProposalRiskEvaluated A) (s : Desk A) → IsKept s (risk_check_handler event s)
  unfolding risk_check_handler
  risk_check_handler-IsKept event s =
      elim event.outcome
        as (λ o. IsKept s (elim o [
          | allow ↦ publish (approval_requested event.proposal_id) s
          | clip ↦ publish (proposal_rejected event.proposal_id "risk_engine_clip_unsupported") s
          | reject ↦
              publish (proposal_rejected event.proposal_id (reject_reason event.cap_type_breached))
                s
        ])) [ allow ↦ publish-IsKept _ s | clip ↦ publish-IsKept _ s | reject ↦ publish-IsKept _ s ]

  pub proposal_rejected_handler-IsKept :
      (id : ℕ) (reason : String) (now : ℕ) (s : Desk A)
      → IsKept s (proposal_rejected_handler id reason now s)
  unfolding proposal_rejected_handler
  proposal_rejected_handler-IsKept id reason now s = set_state-IsKept id _ _ now s

  pub halt_handler-IsKept : (s : Desk A) → IsKept s (halt_handler s)
  unfolding halt_handler
  halt_handler-IsKept s = untouched s _ refl refl
