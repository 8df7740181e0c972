-- ===== src/Sweeps/Stops/Handled.antt =====
-- What handling a list of close requests makes of a trade.
use iguanatrader.Common.{
  ℕ, String, if◌then◌else◌, false, List, refl, ◌≡◌, inr, Option, some, ◌==◌, ◌∷◌, none, arith, find,
  any, Bool-cases, true, inl, Bool, [], all, ◌⊎◌, ◌∙◌, ==_iff, sym, subst,
}
use iguanatrader.Risk.State.{TradeState, closing}
use iguanatrader.Trading.Models.{Desk, Trade, NewOrder}
use iguanatrader.Trading.Repository.{get_trade, update_state, update_first, with_exit}
use iguanatrader.Trading.Service.{
  Service, Outside, Answer, placed, timed_out, auth_error, budget_exceeded, integration_error,
  other_error, publish, add_order, send,
}
use iguanatrader.Trading.Close.{
  is_open, is_valid_reason, exit_order, exit_answered, close_found, close_trade,
  close_trade_handler, invalid_reason,
}
use iguanatrader.Trading.Close.Once.{is_placed, close_trade-cases}
use iguanatrader.Sweeps.Stops.{CloseTradeRequested}

find-update_other {ℓ} :
    {B : Type ℓ} (p q : B → Bool) (change : B → B) (xs : List B)
    → ((x : B) → q x ≡ true → (p x ≡ false) × (p (change x) ≡ false))
    → find p (update_first q change xs) ≡ find p xs
find-update_other p q change [] h = refl
find-update_other p q change (x ∷ xs) h = elim (Bool-cases (q x)) [
  | inl e ↦ rw (e, (h x e).0, (h x e).1) refl
  | inr e ↦ rw e (ground (arith, find-update_other p q change xs h))
]

other_id : (a b c : ℕ) → (a == b) ≡ false → (c == a) ≡ true → (c == b) ≡ false
other_id a b c h k = ground arith

module _ {A : Type 0} (svc : Service A) (out : Outside A) where
  -- the requests as they come, the oldest first
  abbrev pub handle_all : List CloseTradeRequested → Desk A → Desk A
  handle_all [] s = s
  handle_all (q ∷ qs) s = close_trade_handler svc out q.trade_id q.reason (handle_all qs s)

  abbrev pub has_request : ℕ → List CloseTradeRequested → Bool
  has_request id = any (λ q. q.trade_id == id)

  answered_other :
      (id other : ℕ) (order : NewOrder A) (reason : String) (answer : Answer) (s : Desk A)
      → order.trade_id ≡ other
      → (other == id) ≡ false
      → get_trade id (exit_answered svc out order reason answer s).1 ≡ get_trade id s
  unfolding exit_answered get_trade update_state add_order publish
  answered_other id other order reason (placed b) s e differs =
      find-update_other (λ t. t.id == id) (λ t. t.id == order.trade_id)
        (with_exit closing none (some reason) none) s.trades
        (λ t same. let apart = other_id other id t.id differs (rw (← e) same) in (apart, apart))
  answered_other id other order reason timed_out s e differs = refl
  answered_other id other order reason auth_error s e differs = refl
  answered_other id other order reason budget_exceeded s e differs = refl
  answered_other id other order reason integration_error s e differs = refl
  answered_other id other order reason other_error s e differs = refl

  found_other :
      (id other : ℕ) (found : Option (Trade A)) (reason : String) (s : Desk A)
      → (other == id) ≡ false
      → get_trade id (close_found svc out other found reason s).1 ≡ get_trade id s
  unfolding get_trade
  found_other id other none reason s differs = refl
  found_other id other (some t) reason s differs = elim (Bool-cases (is_open t.state)) [
    | inl e ↦
        let order = exit_order svc out other t in
        rw e
          (answered_other id other order reason (out.place_order order) (send order s) refl differs)
    | inr e ↦ rw e refl
  ]

  -- a request for another trade
  other_kept :
      (id other : ℕ) (reason : String) (s : Desk A)
      → (other == id) ≡ false
      → get_trade id (close_trade_handler svc out other reason s) ≡ get_trade id s
  unfolding close_trade_handler close_trade
  other_kept id other reason s differs =
      elim (is_valid_reason reason)
        as (λ b.
          get_trade id
            (if b
              then close_found svc out other (get_trade other s) reason s
              else (invalid_reason, s)).1
          ≡ get_trade id s) [
            | true ↦ found_other id other (get_trade other s) reason s differs
            | false ↦ refl
          ]

  -- The trade is in a state that no request can close.
  closed_skip :
      (id : ℕ) (t : Trade A) (reason : String) (s : Desk A)
      → get_trade id s ≡ some t
      → is_open t.state ≡ false
      → get_trade id (close_trade_handler svc out id reason s) ≡ some t
  unfolding close_trade_handler close_trade
  closed_skip id t reason s found shut =
      elim (is_valid_reason reason)
        as (λ b.
          get_trade id
            (if b then close_found svc out id (get_trade id s) reason s else (invalid_reason, s)).1
          ≡ some t) [ true ↦ rw (found, shut) found | false ↦ found ]

  -- the broker takes every order
  abbrev pub Takes : Type 0
  Takes = (order : NewOrder A) → (id : ℕ) × (out.place_order order ≡ placed id)

  open_placed :
      (id : ℕ) (t : Trade A) (reason : String) (s : Desk A)
      → Takes
      → get_trade id s ≡ some t
      → is_open t.state ≡ true
      → is_valid_reason reason ≡ true
      → is_placed (close_trade svc out id reason s).0 ≡ true
  unfolding close_trade exit_answered
  open_placed id t reason s takes found is valid =
      let (b, answer) = takes (exit_order svc out id t) in rw (valid, found, is, answer) refl

  -- The trade is closing.
  abbrev pub IsUnderway : ℕ → Desk A → Type 0
  IsUnderway id s = (t : Trade A) × (get_trade id s ≡ some t) × (t.state ≡ closing)

  open_request :
      (id : ℕ) (t : Trade A) (reason : String) (s : Desk A)
      → Takes
      → get_trade id s ≡ some t
      → is_open t.state ≡ true
      → is_valid_reason reason ≡ true
      → IsUnderway id (close_trade_handler svc out id reason s)
  unfolding close_trade_handler
  open_request id t reason s takes found is valid = elim (close_trade-cases svc out id reason s) [
    | inl (trade, f, o, v, p, sent, now) ↦
        (record trade { state = closing; exit_reason = some reason }, now, refl)
    | inr (failed, trades, orders, events) ↦
        absurd (ground (arith, failed, open_placed id t reason s takes found is valid))
  ]

  shut_closing : (state : TradeState) → state ≡ closing → is_open state ≡ false
  shut_closing state e = rw e refl

  -- Of an open trade: closing once a request for it is handled, and as it was until then.
  pub handle_all-cases :
      (id : ℕ) (t : Trade A) (qs : List CloseTradeRequested) (s : Desk A)
      → Takes
      → get_trade id s ≡ some t
      → is_open t.state ≡ true
      → all (λ q. is_valid_reason q.reason) qs ≡ true
      → ((has_request id qs ≡ true) × IsUnderway id (handle_all qs s))
        ⊎ ((has_request id qs ≡ false) × (get_trade id (handle_all qs s) ≡ some t))
  handle_all-cases id t [] s takes found is valid = inr (refl, found)
  handle_all-cases id t (q ∷ qs) s takes found is valid =
      let here = handle_all qs s in
      let all_valid : (is_valid_reason q.reason ≡ true)
          × (all (λ r. is_valid_reason r.reason) qs ≡ true) =
        (ground (arith, valid), ground (arith, valid)) in
      let before = handle_all-cases id t qs s takes found is all_valid.1 in
      elim (Bool-cases (q.trade_id == id)) [
        | inl same ↦
            let done : IsUnderway id (close_trade_handler svc out id q.reason here) = elim before [
              | inl (asked, (t', f, c)) ↦
                  (t', closed_skip id t' q.reason here f (shut_closing t'.state c), c)
              | inr (quiet, f) ↦ open_request id t q.reason here takes f is all_valid.0
            ] in
            inl (
              rw same refl,
              subst (λ i. IsUnderway id (close_trade_handler svc out i q.reason here))
                  (sym ((==_iff q.trade_id id).0 same)) done,
            )
        | inr other ↦ elim before [
          | inl (asked, (t', f, c)) ↦
              inl (rw other asked, (t', other_kept id q.trade_id q.reason here other ∙ f, c))
          | inr (quiet, f) ↦ inr (rw other quiet, other_kept id q.trade_id q.reason here other ∙ f)
        ]
      ]
