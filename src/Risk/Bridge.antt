-- ===== src/Risk/Bridge.antt =====
-- The bridge of contexts/risk/service.py from `ProposalCreated` to `ProposalRiskEvaluated`.
pub mod Laws
use iguanatrader.Decimal.{Decimal}
use iguanatrader.Risk.Models.{
  Outcome, reject, CapType, RiskCaps, RiskState, Side, TradeProposalInput, Decision,
}
use iguanatrader.Risk.State.{Trade, EquitySnapshot}
use iguanatrader.Risk.Service.{
  Reply, returned, kill_switch_active, override_audit_missing, no_context, RiskStore,
  evaluate_proposal,
}
use iguanatrader.Common.{none, Option, ◌&&◌, String, some, ◌==◌, if◌then◌else◌, not, find, List, ℕ}

-- the columns of `trade_proposals` that the bridge projects
pub record TradeProposal (A : Type 0) : Type 0 where
  pub id : ℕ
  pub tenant_id : ℕ
  pub quantity : A
  pub entry_price_indicative : A
  pub side : Side
  pub symbol : String

-- `cap_type_breached` of the trading event: a cap or none, or "kill_switch"
pub data BreachLabel : Type 0 where
  breached : Option CapType → BreachLabel
  kill_switch : BreachLabel

pub record ProposalRiskEvaluated (A : Type 0) : Type 0 where
  pub tenant_id : ℕ
  pub proposal_id : ℕ
  pub outcome : Outcome
  pub cap_type_breached : BreachLabel
  pub clip_quantity : Option A

-- The event for each way that `evaluate_proposal` ends; another exception is raised again.
unfoldable pub to_trading :
    {A : Type 0} → ℕ → ℕ → Reply (ℕ × Decision A) → Option (ProposalRiskEvaluated A)
to_trading tenant proposal_id (returned (evaluation_id, decision)) = some (record {
  tenant_id = tenant;
  proposal_id = proposal_id;
  outcome = decision.outcome;
  cap_type_breached = breached decision.cap_type_breached;
  clip_quantity = decision.clip_quantity;
})
to_trading tenant proposal_id kill_switch_active = some (record {
  tenant_id = tenant;
  proposal_id = proposal_id;
  outcome = reject;
  cap_type_breached = kill_switch;
  clip_quantity = none;
})
to_trading tenant proposal_id override_audit_missing = none
to_trading tenant proposal_id no_context = none

module _ (dec : Decimal) (dump : RiskState dec.Amount → List (String × String)) where
  open dec use {Amount, mul}

  unfoldable pub project_proposal_input : TradeProposal Amount → TradeProposalInput Amount
  project_proposal_input row = record {
    id = row.id;
    tenant_id = row.tenant_id;
    notional_value = mul row.quantity row.entry_price_indicative;
    side = row.side;
    symbol = row.symbol;
  }

  -- once the bus and the row are there
  unfoldable pub bridge_row :
      ℕ
      → ℕ
      → RiskCaps Amount
      → List (Trade Amount)
      → List (EquitySnapshot Amount)
      → ℕ
      → RiskStore Amount
      → TradeProposal Amount
      → Option (ProposalRiskEvaluated Amount) × RiskStore Amount
  unfolding to_trading project_proposal_input
  bridge_row tenant proposal_id caps trades snapshots now db row =
      let (reply, db') =
        evaluate_proposal dec dump (project_proposal_input row) caps trades snapshots now db in
      (to_trading tenant proposal_id reply, db')

  -- The bridge for the event (tenant, proposal): what it publishes to the trading context.
  unfoldable pub proposal_created_handler :
      ℕ
      → ℕ
      → List (TradeProposal Amount)
      → RiskCaps Amount
      → List (Trade Amount)
      → List (EquitySnapshot Amount)
      → ℕ
      → RiskStore Amount
      → Option (ProposalRiskEvaluated Amount) × RiskStore Amount
  unfolding bridge_row
  proposal_created_handler tenant proposal_id proposals caps trades snapshots now db =
      if not db.switches.has_bus
      then (none, db)
      else elim (find (λ r. r.tenant_id == tenant && r.id == proposal_id) proposals) [
        | none ↦ (none, db)
        | some row ↦ bridge_row tenant proposal_id caps trades snapshots now db row
      ]
