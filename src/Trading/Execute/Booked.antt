-- ===== src/Trading/Execute/Booked.antt =====
-- What the bookkeeping after the broker's answer writes, and what it leaves.
use iguanatrader.Common.{
  ◌++◌, ◌≡◌, [], append_assoc, List, ◌∷◌, refl, ◌∙◌, some, Option, inl, Bool, Bool-cases, true, any,
  none, inr, or_true, any-append, arith, false, ==_refl, if◌then◌else◌, ◌==◌,
}
use iguanatrader.Trading.Models.{Desk, Order, NewOrder, live, Event, TradeProposal}
use iguanatrader.Trading.Service.{
  publish, timed_out, auth_error, budget_exceeded, integration_error, other_error, add_order,
  Service, Outside, Answer, placed,
}
use iguanatrader.Decimal.{Decimal}
use iguanatrader.Trading.Execute.{
  add_bracket, add_stop_leg, add_target_leg, schedule_release, same_mode, record_rejection,
  record_answer,
}
use iguanatrader.Trading.Gateway.{Gateway}

-- What the bookkeeping of an answer leaves: the trades, the proposals, the fills, the flag and what
-- was sent. Every order of before is still there.
pub record IsBookkeeping {A : Type 0} (s s' : Desk A) : Type 0 where
  pub trades_same : s'.trades ≡ s.trades
  pub proposals_same : s'.proposals ≡ s.proposals
  pub fills_same : s'.fills ≡ s.fills
  pub sent_same : s'.sent ≡ s.sent
  pub extra : List (Order A)
  pub orders_more : s'.orders ≡ extra ++ s.orders

module _ {A : Type 0} where
  pub IsBookkeeping-trans :
      (s s' s'' : Desk A) → IsBookkeeping s s' → IsBookkeeping s' s'' → IsBookkeeping s s''
  IsBookkeeping-trans s s' s'' a b = record {
    trades_same = b.trades_same ∙ a.trades_same;
    proposals_same = b.proposals_same ∙ a.proposals_same;
    fills_same = b.fills_same ∙ a.fills_same;
    sent_same = b.sent_same ∙ a.sent_same;
    extra = b.extra ++ a.extra;
    orders_more = rw (b.orders_more, a.orders_more, append_assoc) refl;
  }

  IsBookkeeping-refl : (s : Desk A) → IsBookkeeping s s
  IsBookkeeping-refl s = record {
    trades_same = refl;
    proposals_same = refl;
    fills_same = refl;
    sent_same = refl;
    extra = [];
    orders_more = refl;
  }

  add_order-IsBookkeeping : (o : Order A) (s : Desk A) → IsBookkeeping s (add_order o s)
  unfolding add_order
  add_order-IsBookkeeping o s = record {
    trades_same = refl;
    proposals_same = refl;
    fills_same = refl;
    sent_same = refl;
    extra = o ∷ [];
    orders_more = refl;
  }

  pub orders_kept :
      (q : Order A → Bool) (s s' : Desk A)
      → IsBookkeeping s s'
      → any q s.orders ≡ true
      → any q s'.orders ≡ true
  orders_kept q s s' b h = rw (b.orders_more, any-append, h) (or_true (any q b.extra))

module _ (dec : Decimal) (svc : Service dec.Amount) (out : Outside dec.Amount) where
  open dec use {Amount, of_int, lt}

  schedule_release-IsBookkeeping :
      (g : Option Gateway) (row : TradeProposal Amount) (s : Desk Amount)
      → IsBookkeeping s (schedule_release dec svc out g row s)
  schedule_release-IsBookkeeping none row s = IsBookkeeping-refl s
  schedule_release-IsBookkeeping (some g) row s = elim (Bool-cases (same_mode row.mode live)) [
    | inl e ↦ rw e (record {
      trades_same = refl;
      proposals_same = refl;
      fills_same = refl;
      sent_same = refl;
      extra = [];
      orders_more = refl;
    })
    | inr e ↦ rw e (IsBookkeeping-refl s)
  ]

  add_target_leg-IsBookkeeping :
      (order : NewOrder Amount) (target : Option Amount) (s : Desk Amount)
      → IsBookkeeping s (add_target_leg dec svc out order target s)
  add_target_leg-IsBookkeeping order none s = IsBookkeeping-refl s
  add_target_leg-IsBookkeeping order (some price) s = add_order-IsBookkeeping _ s

  add_stop_leg-IsBookkeeping :
      (order : NewOrder Amount) (stop_price : Option Amount) (s : Desk Amount)
      → IsBookkeeping s (add_stop_leg dec svc out order stop_price s)
  add_stop_leg-IsBookkeeping order none s = IsBookkeeping-refl s
  add_stop_leg-IsBookkeeping order (some price) s =
      IsBookkeeping-trans s _ _ (add_order-IsBookkeeping _ s)
        (add_target_leg-IsBookkeeping order order.target_price _)

  add_bracket-IsBookkeeping :
      (order : NewOrder Amount) (s : Desk Amount)
      → IsBookkeeping s (add_bracket dec svc out order s)
  unfolding add_bracket
  add_bracket-IsBookkeeping order s =
      elim svc.native_bracket_enabled
        as (λ b.
          IsBookkeeping s (if b then add_stop_leg dec svc out order order.stop_price s else s)) [
            | true ↦ add_stop_leg-IsBookkeeping order order.stop_price s
            | false ↦ IsBookkeeping-refl s
          ]

  publish-IsBookkeeping :
      (event : Event Amount) (s : Desk Amount) → IsBookkeeping s (publish event s)
  unfolding publish
  publish-IsBookkeeping event s = record {
    trades_same = refl;
    proposals_same = refl;
    fills_same = refl;
    sent_same = refl;
    extra = [];
    orders_more = refl;
  }

  -- The answer is booked, with an order for the trade.
  abbrev pub IsBooked : NewOrder Amount → Desk Amount → Desk Amount → Type 0
  IsBooked order s s' =
      IsBookkeeping s s' × (any (λ o. o.trade_id == order.trade_id) s'.orders ≡ true)

  then-IsBooked :
      (order : NewOrder Amount) (s s' s'' : Desk Amount)
      → IsBooked order s s'
      → IsBookkeeping s' s''
      → IsBooked order s s''
  then-IsBooked order s s' s'' a b = (
    IsBookkeeping-trans s s' s'' a.0 b,
    orders_kept (λ o. o.trade_id == order.trade_id) s' s'' b a.1,
  )

  add_order-IsBooked :
      (order : NewOrder Amount) (o : Order Amount) (s : Desk Amount)
      → o.trade_id ≡ order.trade_id
      → IsBooked order s (add_order o s)
  unfolding add_order
  add_order-IsBooked order o s e = (add_order-IsBookkeeping o s, ground (arith, ==_refl o.trade_id))

  record_rejection-IsBooked :
      (row : TradeProposal Amount) (order : NewOrder Amount) (answer : Answer) (s : Desk Amount)
      → IsBooked order s (record_rejection dec svc out row order answer s)
  unfolding record_rejection
  record_rejection-IsBooked row order answer s =
      then-IsBooked order s _ _ (add_order-IsBooked order _ s refl) (publish-IsBookkeeping _ _)

  pub record_answer-IsBooked :
      (row : TradeProposal Amount) (order : NewOrder Amount) (answer : Answer) (s : Desk Amount)
      → IsBooked order s (record_answer dec svc out row order answer s)
  unfolding record_answer
  record_answer-IsBooked row order (placed id) s =
      then-IsBooked order s _ _ (add_order-IsBooked order _ s refl) (
        IsBookkeeping-trans _ _ _ (add_bracket-IsBookkeeping order _) (
          IsBookkeeping-trans _ _ _ (publish-IsBookkeeping _ _)
            (schedule_release-IsBookkeeping out.live_gateway row _)))
  record_answer-IsBooked row order timed_out s = add_order-IsBooked order _ s refl
  record_answer-IsBooked row order auth_error s = record_rejection-IsBooked row order auth_error s
  record_answer-IsBooked row order budget_exceeded s =
      record_rejection-IsBooked row order budget_exceeded s
  record_answer-IsBooked row order integration_error s =
      record_rejection-IsBooked row order integration_error s
  record_answer-IsBooked row order other_error s = record_rejection-IsBooked row order other_error s
