-- ===== src/Trading/Close/Once.antt =====
-- How a request to close a trade ends, and what a second one finds.
use iguanatrader.Common.{
  ℕ, String, true, Bool, find-test, ◌≡◌, some, ◌∷◌, refl, inr, List, [], inl, ◌==◌, false, ◌⊎◌, ap,
  Bool-cases, arith, find, if◌then◌else◌, none, Option, eq_iff, ◌≢◌, str_eq,
}
use iguanatrader.Risk.State.{TradeState, open_state, closing, closed}
use iguanatrader.Trading.Models.{Desk, Trade, NewOrder, market}
use iguanatrader.Risk.Models.{Side, buy, sell}
use iguanatrader.Trading.Repository.{get_trade, update_state, update_first, with_exit}
use iguanatrader.Trading.Service.{
  Service, Outside, Answer, placed, timed_out, auth_error, budget_exceeded, integration_error,
  other_error, publish, add_order, send, opposite,
}
use iguanatrader.Trading.Close.{
  Closing, exit_placed, invalid_reason, is_valid_reason, is_open, exit_order, exit_answered,
  close_found, close_trade,
}

pub find-update_first {ℓ} :
    {B : Type ℓ} (wanted : B → Bool) (change : B → B) (x : B) (xs : List B)
    → find wanted xs ≡ some x
    → wanted (change x) ≡ true
    → find wanted (update_first wanted change xs) ≡ some (change x)
find-update_first wanted change x [] found h = absurd (ground (arith, found))
find-update_first wanted change x (y ∷ ys) found h = elim (Bool-cases (wanted y)) [
  | inl e ↦
      let same : y ≡ x = ground (arith, found, e) in
      let h' : wanted (change y) ≡ true = rw same h in rw (e, h') (ap (λ z. some (change z)) same)
  | inr e ↦ rw (e, e) (find-update_first wanted change x ys (ground (arith, found, e)) h)
]

-- whether the broker took the exit order
abbrev pub is_placed : Closing → Bool
is_placed (exit_placed id) = true
is_placed _ = false

-- the five reasons of an exit
abbrev pub IsReason : String → Type 0
IsReason reason =
    (reason ≡ "stop")
    ⊎ ((reason ≡ "target")
        ⊎ ((reason ≡ "manual") ⊎ ((reason ≡ "expiry") ⊎ (reason ≡ "ibkr_reconcile"))))

valid-IsReason : (reason : String) → is_valid_reason reason ≡ true → IsReason reason
valid-IsReason reason h = elim (Bool-cases (str_eq reason "stop")) [
  | inl e ↦ inl ((eq_iff reason "stop").0 e)
  | inr n1 ↦ elim (Bool-cases (str_eq reason "target")) [
    | inl e ↦ inr (inl ((eq_iff reason "target").0 e))
    | inr n2 ↦ elim (Bool-cases (str_eq reason "manual")) [
      | inl e ↦ inr (inr (inl ((eq_iff reason "manual").0 e)))
      | inr n3 ↦ elim (Bool-cases (str_eq reason "expiry")) [
        | inl e ↦ inr (inr (inr (inl ((eq_iff reason "expiry").0 e))))
        | inr n4 ↦ inr (
            inr
              (inr (inr ((eq_iff reason "ibkr_reconcile").0 (ground (arith, h, n1, n2, n3, n4))))))
      ]
    ]
  ]
]

opposite-differs : (side : Side) → opposite side ≢ side
unfolding opposite
opposite-differs buy = λ e. ground (arith, e)
opposite-differs sell = λ e. ground (arith, e)

open-state : (state : TradeState) → is_open state ≡ true → state ≡ open_state
open-state open_state h = refl
open-state closing h = absurd (ground (arith, h))
open-state closed h = absurd (ground (arith, h))

-- The order that takes the trade off the market: its whole quantity, on the other side, at market.
pub record IsExitOrder {A : Type 0} (id : ℕ) (trade : Trade A) (order : NewOrder A) : Type 0 where
  pub of_trade : order.trade_id ≡ id
  pub symbol_same : order.symbol ≡ trade.symbol
  pub opposed : order.side ≢ trade.side
  pub whole : order.quantity ≡ trade.quantity
  pub at_market : order.order_type ≡ market

module _ {A : Type 0} (svc : Service A) (out : Outside A) where
  -- An exit order went to the broker: the trade was open, and is closing for the reason; its whole
  -- quantity is ordered on the opposite side.
  abbrev pub IsClosing : ℕ → String → Desk A → Closing × Desk A → Type 0
  IsClosing id reason s r =
      (trade : Trade A) × (get_trade id s ≡ some trade)
      × (trade.state ≡ open_state)
      × IsReason reason
      × (is_placed r.0 ≡ true)
      × ((order : NewOrder A) × (r.1.sent ≡ order ∷ s.sent) × IsExitOrder id trade order)
      × (get_trade id r.1 ≡ some (record trade { state = closing; exit_reason = some reason }))

  -- It did not: no row is written, and the caller gets an exception.
  abbrev pub IsUnclosed : Desk A → Closing × Desk A → Type 0
  IsUnclosed s r =
      (is_placed r.0 ≡ false)
      × (r.1.trades ≡ s.trades)
      × (r.1.orders ≡ s.orders)
      × (r.1.published ≡ s.published)

  answered-cases :
      (id : ℕ) (trade : Trade A) (reason : String) (answer : Answer) (s : Desk A)
      → get_trade id s ≡ some trade
      → is_open trade.state ≡ true
      → is_valid_reason reason ≡ true
      → IsClosing id reason s (
          exit_answered svc out
            (exit_order svc out id trade)
            reason
            answer
            (send (exit_order svc out id trade) s))
        ⊎ IsUnclosed s (
            exit_answered svc out
              (exit_order svc out id trade)
              reason
              answer
              (send (exit_order svc out id trade) s))
  unfolding exit_answered get_trade update_state add_order publish
  answered-cases id trade reason (placed b) s found is valid = inl (
    trade,
    found,
    open-state trade.state is,
    valid-IsReason reason valid,
    refl,
    (
      exit_order svc out id trade,
      refl,
      record {
        of_trade = refl;
        symbol_same = refl;
        opposed = opposite-differs trade.side;
        whole = refl;
        at_market = refl;
      },
    ),
    find-update_first (λ x. x.id == id) (with_exit closing none (some reason) none) trade s.trades
        found (find-test (λ x. x.id == id) s.trades trade found),
  )
  answered-cases id trade reason timed_out s found is valid = inr (refl, refl, refl, refl)
  answered-cases id trade reason auth_error s found is valid = inr (refl, refl, refl, refl)
  answered-cases id trade reason budget_exceeded s found is valid = inr (refl, refl, refl, refl)
  answered-cases id trade reason integration_error s found is valid = inr (refl, refl, refl, refl)
  answered-cases id trade reason other_error s found is valid = inr (refl, refl, refl, refl)

  found-cases :
      (id : ℕ) (found : Option (Trade A)) (reason : String) (s : Desk A)
      → get_trade id s ≡ found
      → is_valid_reason reason ≡ true
      → IsClosing id reason s (close_found svc out id found reason s)
        ⊎ IsUnclosed s (close_found svc out id found reason s)
  found-cases id none reason s e valid = inr (refl, refl, refl, refl)
  found-cases id (some trade) reason s e valid = elim (Bool-cases (is_open trade.state)) [
    | inl is ↦
        let order = exit_order svc out id trade in
        rw is (answered-cases id trade reason (out.place_order order) s e is valid)
    | inr e1 ↦ rw e1 (inr (refl, refl, refl, refl))
  ]

  checked-cases :
      (valid : Bool) (id : ℕ) (reason : String) (s : Desk A)
      → is_valid_reason reason ≡ valid
      → IsClosing id reason s
          (if valid then close_found svc out id (get_trade id s) reason s else (invalid_reason, s))
        ⊎ IsUnclosed s (
            if valid then close_found svc out id (get_trade id s) reason s else (invalid_reason, s))
  checked-cases true id reason s e = found-cases id (get_trade id s) reason s refl e
  checked-cases false id reason s e = inr (refl, refl, refl, refl)

  -- Closing a trade has two outcomes. Either the trade was open, the reason is one of the five and
  -- the broker took one market order of the opposite side for the whole quantity: then the trade is
  -- closing for that reason. Or the caller gets an exception, and no row is written and nothing
  -- published.
  pub close_trade-cases :
      (id : ℕ) (reason : String) (s : Desk A)
      → IsClosing id reason s (close_trade svc out id reason s)
        ⊎ IsUnclosed s (close_trade svc out id reason s)
  unfolding close_trade
  close_trade-cases id reason s = checked-cases (is_valid_reason reason) id reason s refl

  closing_skip :
      (out' : Outside A) (id : ℕ) (valid : Bool) (trade : Trade A) (reason : String) (s : Desk A)
      → get_trade id s ≡ some (record trade { state = closing; exit_reason = some reason })
      → (reason' : String)
      → (if valid
          then close_found svc out' id (get_trade id s) reason' s
          else (invalid_reason, s)).1
        ≡ s
  closing_skip out' id false trade reason s found reason' = refl
  closing_skip out' id true trade reason s found reason' = rw found refl

  -- Once a trade's exit order is with the broker, a second request for the trade, for whatever
  -- reason, sends no order and changes nothing.
  pub close_trade-again :
      (out' : Outside A) (id : ℕ) (reason reason' : String) (s : Desk A)
      → is_placed (close_trade svc out id reason s).0 ≡ true
      → (close_trade svc out' id reason' (close_trade svc out id reason s).1).1
        ≡ (close_trade svc out id reason s).1
  unfolding close_trade
  close_trade-again out' id reason reason' s done = elim (close_trade-cases id reason s) [
    | inl (trade, found, is, valid, placed_now, sent, now) ↦
        closing_skip out' id (is_valid_reason reason') trade reason
          (close_trade svc out id reason s).1 now reason'
    | inr (failed, trades, orders, events) ↦ absurd (ground (arith, failed, done))
  ]
