-- ===== src/Trading/Desk.antt =====
-- Any sequence of calls: the bus delivers events to the handlers, ticks propose, the daemon polls, and
-- a heartbeat reconciles.
pub mod Ledger
pub mod Steps
pub mod Fills
pub mod Lifecycle
pub mod Once
use iguanatrader.Common.{ℕ, String, List, ◌∷◌, [], Option}
use iguanatrader.Decimal.{Decimal}
use iguanatrader.Risk.Bridge.{ProposalRiskEvaluated}
use iguanatrader.Trading.Models.{Desk, Mode}
use iguanatrader.Trading.Service.{Service, Outside, halt_handler}
use iguanatrader.Trading.Execute.{execute_on_approval}
use iguanatrader.Trading.Reconcile.{Incoming, reconcile_fills}
use iguanatrader.Trading.Close.{close_trade_handler}
use iguanatrader.Trading.Propose.{Tick, propose, risk_check_handler, proposal_rejected_handler}
use iguanatrader.Trading.Daemon.{
  drain_handler, poll_for_state_changes, Books, TenantTradingMode, Watermarks,
}

pub data Call (A : Type 0) : Type 0 where
  ticked : Tick A → Call A
  risk_evaluated : ProposalRiskEvaluated A → Call A
  proposal_approved : Outside A → ℕ → Call A
  proposal_declined : ℕ → String → ℕ → Call A
  fills_reported : List (Incoming A) → Call A
  close_requested : Outside A → ℕ → String → Call A
  kill_switch_tripped : Call A
  drain_requested : Mode → Mode → String → ℕ → Call A
  state_polled : Mode → Books A → Option TenantTradingMode → Watermarks → Call A

module _ (dec : Decimal) (svc : Service dec.Amount) where
  open dec use {Amount}

  abbrev pub perform : Call Amount → Desk Amount → Desk Amount
  perform (ticked tick) s = (propose dec svc tick s).1
  perform (risk_evaluated event) s = risk_check_handler event s
  perform (proposal_approved out id) s = execute_on_approval dec svc out id s
  perform (proposal_declined id reason now) s = proposal_rejected_handler id reason now s
  perform (fills_reported fills) s = reconcile_fills dec fills s
  perform (close_requested out id reason) s = close_trade_handler svc out id reason s
  perform kill_switch_tripped s = halt_handler s
  perform (drain_requested own mode reason now) s = drain_handler own mode reason now s
  perform (state_polled mode books row marks) s =
      (poll_for_state_changes dec mode books row marks s).1

  abbrev pub run : List (Call Amount) → Desk Amount → Desk Amount
  run [] s = s
  run (c ∷ cs) s = run cs (perform c s)
