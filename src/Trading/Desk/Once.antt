-- ===== src/Trading/Desk/Once.antt =====
-- One trade for a proposal, whatever is delivered and how often.
use iguanatrader.Common.{
  ℕ, length, List, ◌∷◌, ◌⊎◌, [], arith, ◌≡◌, ◌==◌, true, Bool, filter, refl, any, any_cong,
  any-append, inl, ◌∙◌, or_true, inr, Bool-cases, some, none, any_mono, find-test, Option, ==_iff,
  ◌&&◌, find-any, ◌++◌, subst, sym, ==_refl,
}
use iguanatrader.Trading.Models.{Desk, Trade, Order, TradeProposal}
use iguanatrader.Trading.Repository.{is_order_of, get_proposal, get_by_proposal_id}
use iguanatrader.Trading.Desk.Ledger.{AreLater, no_rows, later_row}
use iguanatrader.Trading.Desk.Steps.{IsKept, untouched}
use iguanatrader.Decimal.{Decimal}
use iguanatrader.Trading.Service.{Service, Outside}
use iguanatrader.Trading.Desk.{Call, run, execute_on_approval, perform}
use iguanatrader.Trading.Execute.{execute_on_approval, opened_trade}
use iguanatrader.Trading.Execute.Cleared.{is_cleared, execute_on_approval-IsDecided}
use iguanatrader.Trading.Desk.Lifecycle.{perform-IsCall}

module _ {A : Type 0} where
  -- how many trades there are for a proposal
  abbrev pub trades_of : ℕ → List (Trade A) → ℕ
  trades_of id ts = length (filter (λ t. t.proposal_id == id) ts)

  abbrev pub has_order : ℕ → Desk A → Bool
  has_order id s = any (is_order_of id s.trades) s.orders

  -- No trade, or one, and then an order for it.
  abbrev pub IsTradedOnce : ℕ → Desk A → Type 0
  IsTradedOnce id s =
      (trades_of id s.trades ≡ 0) ⊎ ((trades_of id s.trades ≡ 1) × (has_order id s ≡ true))

  trades_of-later :
      (id : ℕ) (ts ts' : List (Trade A)) → AreLater ts ts' → trades_of id ts' ≡ trades_of id ts
  trades_of-later id [] [] no_rows = refl
  trades_of-later id [] (t' ∷ ts') h = elim h [ ]
  trades_of-later id (t ∷ ts) [] h = elim h [ ]
  trades_of-later id (t ∷ ts) (t' ∷ ts') (later_row a more) =
      ground (arith, a.proposal_same, trades_of-later id ts ts' more)

  is_order_of-later :
      (id : ℕ) (o : Order A) (ts ts' : List (Trade A))
      → AreLater ts ts'
      → is_order_of id ts' o ≡ is_order_of id ts o
  unfolding is_order_of
  is_order_of-later id o [] [] no_rows = refl
  is_order_of-later id o [] (t' ∷ ts') h = elim h [ ]
  is_order_of-later id o (t ∷ ts) [] h = elim h [ ]
  is_order_of-later id o (t ∷ ts) (t' ∷ ts') (later_row a more) =
      ground (arith, a.proposal_same, a.id_same, is_order_of-later id o ts ts' more)

  kept-IsTradedOnce :
      (id : ℕ) (s s' : Desk A) → IsKept s s' → IsTradedOnce id s → IsTradedOnce id s'
  kept-IsTradedOnce id s s' kept (inl free) =
      inl (trades_of-later id s.trades s'.trades kept.trades_later ∙ free)
  kept-IsTradedOnce id s s' kept (inr (one, there)) =
      let same =
        any_cong (is_order_of id s'.trades) (is_order_of id s.trades)
          (λ o. is_order_of-later id o s.trades s'.trades kept.trades_later) s.orders in
      inr (
        trades_of-later id s.trades s'.trades kept.trades_later ∙ one,
        rw (kept.orders_more, any-append, same, there)
            (or_true (any (is_order_of id s'.trades) kept.extra)),
      )

module _ (dec : Decimal) (svc : Service dec.Amount) where
  open dec use {Amount}

  -- past the guards no order stood for the proposal
  cleared_new :
      (out : Outside Amount) (existing : Option (Order Amount)) (halted : Bool)
      (found : Option (TradeProposal Amount))
      → is_cleared dec svc out existing halted found ≡ true
      → existing ≡ none
  cleared_new out none halted found h = refl
  cleared_new out (some o) halted found h = absurd (ground (arith, h))

  cleared_free :
      (id : ℕ) (s : Desk Amount)
      → IsTradedOnce id s
      → get_by_proposal_id id s ≡ none
      → trades_of id s.trades ≡ 0
  unfolding get_by_proposal_id
  cleared_free id s (inl free) h = free
  cleared_free id s (inr (one, there)) h =
      absurd (ground (arith, find-any (is_order_of id s.trades) s.orders h, there))

  is_order_of-opened :
      (id : ℕ) (t : Trade Amount) (ts : List (Trade Amount)) (o : Order Amount)
      → (o.trade_id == t.id) ≡ true
      → t.proposal_id ≡ id
      → is_order_of id (t ∷ ts) o ≡ true
  unfolding is_order_of
  is_order_of-opened id t ts o h e =
      ground (arith, h, e, ==_iff o.trade_id t.id, ==_refl t.id, ==_refl id)

  is_order_of-more :
      (id : ℕ) (t : Trade Amount) (ts : List (Trade Amount)) (o : Order Amount)
      → is_order_of id ts o ≡ true
      → is_order_of id (t ∷ ts) o ≡ true
  unfolding is_order_of
  is_order_of-more id t ts o h = rw h (or_true (t.id == o.trade_id && t.proposal_id == id))

  -- one more trade, of this proposal or another, with its order
  opened-IsTradedOnce :
      (id : ℕ) (t : Trade Amount) (s s' : Desk Amount) (extra : List (Order Amount))
      → s'.trades ≡ t ∷ s.trades
      → any (λ o. o.trade_id == t.id) s'.orders ≡ true
      → s'.orders ≡ extra ++ s.orders
      → (t.proposal_id ≡ id → trades_of id s.trades ≡ 0)
      → IsTradedOnce id s
      → IsTradedOnce id s'
  opened-IsTradedOnce id t s s' extra trades own more new once =
      elim (Bool-cases (t.proposal_id == id)) [
        | inl e ↦
            let same : t.proposal_id ≡ id = (==_iff t.proposal_id id).0 e in
            inr (
              rw trades (ground (arith, e, new same)),
              rw trades (
                  any_mono (λ o. o.trade_id == t.id) (is_order_of id (t ∷ s.trades))
                    (λ o h. is_order_of-opened id t s.trades o h same) s'.orders own),
            )
        | inr e ↦ elim once [
          | inl free ↦ inl (rw trades (ground (arith, e, free)))
          | inr (one, there) ↦ inr (
            rw trades (ground (arith, e, one)),
            rw
                (
                  trades,
                  more,
                  any-append,
                  any_mono (is_order_of id s.trades) (is_order_of id (t ∷ s.trades))
                      (is_order_of-more id t s.trades) s.orders there,
                )
                (or_true (any (is_order_of id (t ∷ s.trades)) extra)),
          )
        ]
      ]

  found_id :
      (id : ℕ) (row : TradeProposal Amount) (s : Desk Amount)
      → get_proposal id s ≡ some row
      → row.id ≡ id
  unfolding get_proposal
  found_id id row s h = (==_iff row.id id).0 (find-test (λ p. p.id == id) s.proposals row h)

  execute-IsTradedOnce :
      (out : Outside Amount) (id other : ℕ) (s : Desk Amount)
      → IsTradedOnce id s
      → IsTradedOnce id (execute_on_approval dec svc out other s)
  execute-IsTradedOnce out id other s once =
      let s' = execute_on_approval dec svc out other s in
      elim (execute_on_approval-IsDecided dec svc out other s) [
        | inl (e, (sent, trades, orders, rows)) ↦
            kept-IsTradedOnce id s s' (untouched s s' trades orders) once
        | inr (e, (row, found, (sent, trades, own, (extra, more)))) ↦
            opened-IsTradedOnce id (opened_trade dec svc out row s.next_id) s s' extra trades own
              more
              (λ same.
                let here : id ≡ other = sym same ∙ found_id other row s found in
                cleared_free id s once (rw here (cleared_new out _ _ _ e)))
              once
      ]

  -- Whatever calls the service gets, in any order and however often the same approval is delivered:
  -- a proposal has one trade at most, and then an order stands for it.
  pub run-IsTradedOnce :
      (id : ℕ) (cs : List (Call Amount)) (s : Desk Amount)
      → IsTradedOnce id s
      → IsTradedOnce id (run dec svc cs s)
  run-IsTradedOnce id [] s once = once
  run-IsTradedOnce id (c ∷ cs) s once =
      let s' = perform dec svc c s in
      run-IsTradedOnce id cs s' (elim (perform-IsCall dec svc c s) [
        | inl kept ↦ kept-IsTradedOnce id s s' kept once
        | inr (out, other, e) ↦
            subst (IsTradedOnce id) (sym e) (execute-IsTradedOnce out id other s once)
      ])
