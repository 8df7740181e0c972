-- ===== src/Trading/Daemon/Stranded.antt =====
-- What stays behind of an entry, whatever the broker answered.
use iguanatrader.Trading.Desk.{Call, run}
use iguanatrader.Trading.Desk.Ledger.{HasGrown, IsLater, moved, added}
use iguanatrader.Trading.Desk.Lifecycle.{run-HasGrown}
use iguanatrader.Common.{
  ◌++◌, any, any-append, or_true, str_eq, ◌&&◌, subst, ◌⊎◌, ℕ, String, ap, eq_iff, arith, true, ◌∷◌,
  List, ◌∙◌, sym, inr, [], refl, inl, ◌≡◌, some,
}
use iguanatrader.Decimal.{Decimal}
use iguanatrader.Risk.State.{TradeState, open_state, closing, closed, is_live}
use iguanatrader.Trading.Models.{Desk, Trade, TradeProposal}
use iguanatrader.Trading.Repository.{get_by_proposal_id, get_proposal, has_open_position}
use iguanatrader.Trading.Service.{Service, Outside, is_halted}
use iguanatrader.Trading.Execute.{execute_on_approval}
use iguanatrader.Trading.Execute.Cleared.{is_cleared, execute_on_approval-IsDecided}
use iguanatrader.Trading.Propose.{Tick, propose, is_in_flight}
use iguanatrader.Trading.Propose.Flood.{IsIdle, flight-IsIdle}

module _ (dec : Decimal) (svc : Service dec.Amount) where
  open dec use {Amount}

  -- A row of the table is still there later, as it was or later.
  grown-row :
      (t : Trade Amount) (ts ts' : List (Trade Amount))
      → HasGrown (t ∷ ts) ts'
      → (t' : Trade Amount) × (before : List (Trade Amount)) × (after : List (Trade Amount)) × (ts'
          ≡ before ++ t' ∷ after)
        × IsLater t t'
  grown-row t ts [] h = elim h [ ]
  grown-row t ts (t' ∷ ts') (moved later more) = (t', [], ts', refl, later)
  grown-row t ts (u ∷ ts') (added h) =
      let (t', before, after, e, later) = grown-row t ts ts' h in
      (t', u ∷ before, after, ap (λ rows. u ∷ rows) e, later)

  -- There is a live trade in the symbol.
  live_symbol :
      (t : Trade Amount) (before after : List (Trade Amount)) (symbol : String) (s : Desk Amount)
      → s.trades ≡ before ++ t ∷ after
      → t.symbol ≡ symbol
      → is_live t.state ≡ true
      → has_open_position symbol s ≡ true
  unfolding has_open_position
  live_symbol t before after symbol s e same alive =
      rw (e, any-append, same, alive, (eq_iff symbol symbol).1 refl)
        (or_true (any (λ u. str_eq u.symbol symbol && is_live u.state) before))

  live_unless_closed : (state : TradeState) → (state ≡ closed) ⊎ (is_live state ≡ true)
  live_unless_closed open_state = inr refl
  live_unless_closed closing = inr refl
  live_unless_closed closed = inl refl

  position-IsIdle :
      (tick : Tick Amount) (s : Desk Amount)
      → has_open_position tick.symbol s ≡ true
      → IsIdle dec svc s (propose dec svc tick s)
  unfolding is_in_flight
  position-IsIdle tick s h = flight-IsIdle dec svc tick s (rw h refl)

  -- An entry that was cleared leaves a trade, whatever the broker answered, a refusal too. After any
  -- further calls, in any order, the trade is still there, and it is closed, or a tick for its symbol
  -- proposes nothing and changes nothing.
  pub execute_on_approval-blocks :
      (out : Outside Amount) (id : ℕ) (row : TradeProposal Amount) (tick : Tick Amount)
      (cs : List (Call Amount)) (s : Desk Amount)
      → is_cleared dec svc out (get_by_proposal_id id s) (is_halted out s) (get_proposal id s)
        ≡ true
      → get_proposal id s ≡ some row
      → tick.symbol ≡ row.symbol
      → let s' = run dec svc cs (execute_on_approval dec svc out id s) in
        (t : Trade Amount) × (before : List (Trade Amount)) × (after : List (Trade Amount))
        × (s'.trades ≡ before ++ t ∷ after)
        × (t.id ≡ s.next_id)
        × (t.proposal_id ≡ row.id)
        × ((t.state ≡ closed) ⊎ IsIdle dec svc s' (propose dec svc tick s'))
  execute_on_approval-blocks out id row tick cs s cleared found same =
      elim (execute_on_approval-IsDecided dec svc out id s) [
        | inl (refused, quiet) ↦ absurd (ground (arith, refused, cleared))
        | inr (is, (row', found', (sent, trades, own, more))) ↦
            let here : row' ≡ row = ground (arith, found, found') in
            let entered = execute_on_approval dec svc out id s in
            let s' = run dec svc cs entered in
            let grown =
              subst (λ ts. HasGrown ts s'.trades) trades (run-HasGrown dec svc cs entered) in
            let (t, before, after, at, later) = grown-row _ s.trades s'.trades grown in
            (
              t,
              before,
              after,
              at,
              later.id_same,
              later.proposal_same ∙ ap (λ r. r.id) here,
              elim (live_unless_closed t.state) [
                | inl e ↦ inl e
                | inr alive ↦ inr (
                    position-IsIdle tick s' (
                      live_symbol t before after tick.symbol s' at
                        (later.symbol_same ∙ (ap (λ r. r.symbol) here ∙ sym same)) alive))
              ],
            )
      ]
