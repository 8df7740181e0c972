-- ===== src/Risk/Bridge/Laws.antt =====
-- What the trading context hears of a created proposal.
use iguanatrader.Decimal.{Decimal}
use iguanatrader.Risk.Models.{allow, RiskCaps, RiskState}
use iguanatrader.Risk.State.{Trade, EquitySnapshot, load_risk_state}
use iguanatrader.Risk.Service.{RiskStore}
use iguanatrader.Risk.Service.Evaluation.{halted, evaluate_proposal-Gated}
use iguanatrader.Risk.Bridge.{
  TradeProposal, ProposalRiskEvaluated, proposal_created_handler, project_proposal_input,
  bridge_row, to_trading,
}
use iguanatrader.Common.{
  some, Option, List, ◌≡◌, inl, find, String, All, ◌==◌, Option-cases, inr, ℕ, false, ◌&&◌, Bool,
  arith,
}
use iguanatrader.Risk.Engine.Gate.{Satisfied, cap_order, allow-Satisfied}

module _ (dec : Decimal) (dump : RiskState dec.Amount → List (String × String))
    (tenant proposal_id : ℕ) (proposals : List (TradeProposal dec.Amount))
    (caps : RiskCaps dec.Amount) (trades : List (Trade dec.Amount))
    (snapshots : List (EquitySnapshot dec.Amount)) (now : ℕ) (db : RiskStore dec.Amount) where
  open dec use {Amount}

  abbrev pub heard : Option (ProposalRiskEvaluated dec.Amount)
  heard =
      (proposal_created_handler dec dump tenant proposal_id proposals caps trades snapshots now
        db).0

  abbrev pub wanted : TradeProposal dec.Amount → Bool
  wanted r = r.tenant_id == tenant && r.id == proposal_id

  -- What stands behind an `allow`: a switch that is off, and every cap satisfied by the quantity
  -- times the price of the row.
  pub record Sound (row : TradeProposal dec.Amount) : Type 0 where
    pub switch_off : halted row.tenant_id db ≡ false
    pub satisfied :
        All
          (Satisfied dec
            (project_proposal_input dec dump row)
            (load_risk_state dec row.tenant_id now trades snapshots)
            caps)
          cap_order

  bridge_row-Sound :
      (row : TradeProposal dec.Amount) (e : ProposalRiskEvaluated dec.Amount)
      → (bridge_row dec dump tenant proposal_id caps trades snapshots now db row).0 ≡ some e
      → e.outcome ≡ allow
      → Sound row
  unfolding bridge_row to_trading
  bridge_row-Sound row e h ok =
      elim (evaluate_proposal-Gated dec dump caps trades snapshots
        (project_proposal_input dec dump row) now db) [
          | inl (on, refused) ↦ ground arith
          | inr (off, reply, _) ↦
              let input = project_proposal_input dec dump row in
              record {
                switch_off = off;
                satisfied =
                    allow-Satisfied dec dump input
                      (load_risk_state dec row.tenant_id now trades snapshots) caps (ground arith);
              }
        ]

  -- If the trading context hears `allow`, then the tenant has a stored proposal under that id, its
  -- switch is off, and every cap is satisfied.
  pub heard-Sound :
      (e : ProposalRiskEvaluated dec.Amount)
      → heard ≡ some e
      → e.outcome ≡ allow
      → (row : TradeProposal dec.Amount) × (find wanted proposals ≡ some row) × Sound row
  unfolding proposal_created_handler
  heard-Sound e h ok = elim (Option-cases (find wanted proposals)) [
    | inl none_there ↦ ground arith
    | inr (row, found) ↦ (row, found, bridge_row-Sound row e (ground arith) ok)
  ]
