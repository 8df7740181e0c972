-- ===== src/Trading/Desk/Lifecycle.antt =====
-- A trade's life over any calls of the service.
use iguanatrader.Common.{ℕ, refl, subst, ◌≡◌, List, Bool, inl, sym, ◌⊎◌, Option, [], ◌∷◌, inr}
use iguanatrader.Decimal.{Decimal}
use iguanatrader.Trading.Models.{Desk, TradeProposal}
use iguanatrader.Trading.Repository.{get_by_proposal_id, get_proposal}
use iguanatrader.Trading.Service.{Service, Outside, is_halted}
use iguanatrader.Trading.Execute.{execute_on_approval}
use iguanatrader.Trading.Execute.Cleared.{IsDecided, execute_on_approval-IsDecided, is_cleared}
use iguanatrader.Trading.Desk.{
  Call, ticked, risk_evaluated, proposal_approved, proposal_declined, fills_reported,
  close_requested, kill_switch_tripped, perform, run, drain_requested, state_polled,
}
use iguanatrader.Trading.Desk.Ledger.{
  HasGrown, added, HasGrown-refl, HasGrown-trans, AreLater-HasGrown,
}
use iguanatrader.Trading.Desk.Steps.{
  IsKept, close_trade_handler-IsKept, risk_check_handler-IsKept, proposal_rejected_handler-IsKept,
  halt_handler-IsKept,
}
use iguanatrader.Trading.Desk.Fills.{reconcile_fills-IsKept, propose-IsKept}
use iguanatrader.Trading.Daemon.Kept.{drain_handler-IsKept, poll_for_state_changes-IsKept}

module _ (dec : Decimal) (svc : Service dec.Amount) where
  open dec use {Amount}

  -- A call either submits an approved proposal, or keeps the ledger.
  abbrev pub IsCall : Desk Amount → Desk Amount → Type 0
  IsCall s s' =
      IsKept s s'
      ⊎ ((out : Outside Amount) × (id : ℕ) × (s' ≡ execute_on_approval dec svc out id s))

  pub perform-IsCall : (c : Call Amount) (s : Desk Amount) → IsCall s (perform dec svc c s)
  perform-IsCall (ticked tick) s = inl (propose-IsKept dec svc tick s)
  perform-IsCall (risk_evaluated event) s = inl (risk_check_handler-IsKept event s)
  perform-IsCall (proposal_approved out id) s = inr (out, id, refl)
  perform-IsCall (proposal_declined id reason now) s =
      inl (proposal_rejected_handler-IsKept id reason now s)
  perform-IsCall (fills_reported fills) s = inl (reconcile_fills-IsKept dec fills s)
  perform-IsCall (close_requested out id reason) s =
      inl (close_trade_handler-IsKept svc out id reason s)
  perform-IsCall kill_switch_tripped s = inl (halt_handler-IsKept s)
  perform-IsCall (drain_requested own mode reason now) s =
      inl (drain_handler-IsKept dec own mode reason now s)
  perform-IsCall (state_polled mode books found marks) s =
      inl (poll_for_state_changes-IsKept dec mode books found marks s)

  outcome-HasGrown :
      (out : Outside Amount) (cleared : Bool) (found : Option (TradeProposal Amount))
      (s s' : Desk Amount)
      → IsDecided dec svc out cleared found s s'
      → HasGrown s.trades s'.trades
  outcome-HasGrown out cleared found s s' (inl (e, quiet)) = rw (quiet.1) (HasGrown-refl s.trades)
  outcome-HasGrown out cleared found s s' (inr (e, (row, f, done))) =
      rw (done.1) (added (HasGrown-refl s.trades))

  execute-HasGrown :
      (out : Outside Amount) (id : ℕ) (s : Desk Amount)
      → HasGrown s.trades (execute_on_approval dec svc out id s).trades
  execute-HasGrown out id s =
      outcome-HasGrown out
        (is_cleared dec svc out (get_by_proposal_id id s) (is_halted out s) (get_proposal id s))
        (get_proposal id s) s (execute_on_approval dec svc out id s)
        (execute_on_approval-IsDecided dec svc out id s)

  perform-HasGrown :
      (c : Call Amount) (s : Desk Amount) → HasGrown s.trades (perform dec svc c s).trades
  perform-HasGrown c s = elim (perform-IsCall c s) [
    | inl kept ↦ AreLater-HasGrown kept.trades_later
    | inr (out, id, e) ↦
        subst (λ s'. HasGrown s.trades s'.trades) (sym e) (execute-HasGrown out id s)
  ]

  -- Whatever calls the service gets, in any order: no trade is removed, each keeps its proposal,
  -- symbol, side, quantity and opening time, and its state only moves forward, from open over
  -- closing to closed; new trades are only added.
  pub run-HasGrown :
      (cs : List (Call Amount)) (s : Desk Amount) → HasGrown s.trades (run dec svc cs s).trades
  run-HasGrown [] s = HasGrown-refl s.trades
  run-HasGrown (c ∷ cs) s =
      let s' = perform dec svc c s in
      HasGrown-trans (run dec svc cs s').trades s'.trades s.trades (perform-HasGrown c s)
        (run-HasGrown cs s')
