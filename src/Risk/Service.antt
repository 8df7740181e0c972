-- ===== src/Risk/Service.antt =====
-- `RiskService` of contexts/risk/service.py over the tables of contexts/risk/repository.py.
-- `now` is the time that a call reads; ids come from the counter of the kill-switch store; each log
-- is kept newest first.
pub mod Evaluation
pub mod Daily
use iguanatrader.Decimal.{Decimal}
use iguanatrader.Risk.Models.{
  Outcome, allow, reject, CapType, per_trade, daily_loss, weekly_loss, max_open, max_drawdown,
  stoploss_guard, cooldown_period, KillSwitchSource, automatic_cap_breach, channel_command,
  KillSwitchTransition, activated, deactivated, RiskCaps, RiskState, Side, TradeProposalInput,
  Decision, ConfirmationChain,
}
use iguanatrader.Risk.Engine.{is_allow, evaluate}
use iguanatrader.Risk.KillSwitch.{
  SwitchEvent, SwitchStore, load_kill_switch_state, activate_kill_switch, deactivate_kill_switch,
}
use iguanatrader.Risk.State.{day_length, Trade, EquitySnapshot, load_risk_state}
use iguanatrader.Common.{
  Option, ◌/◌, ◌∷◌, ◌==◌, ◌+◌, ◌&&◌, true, List, if◌then◌else◌, false, Bool, not, any, none, ℕ,
  some, find, String, length, ltb, [], leb, ◌||◌,
}

-- `RiskEvaluationORM`
pub record RiskEvaluation (A : Type 0) : Type 0 where
  pub id : ℕ
  pub tenant_id : ℕ
  pub proposal_id : ℕ
  pub decision : Decision A
  pub created_at : ℕ

-- `RiskOverrideORM`; the snapshot is a JSON object
pub record RiskOverride : Type 0 where
  pub id : ℕ
  pub tenant_id : ℕ
  pub proposal_id : ℕ
  pub risk_evaluation_id : ℕ
  pub authorised_by_user_id : ℕ
  pub reason_text : List ℕ
  pub confirmation_chain : ConfirmationChain
  pub state_snapshot_at_override : List (String × String)
  pub created_at : ℕ

-- the events that the service publishes about proposals
pub data Notice (A : Type 0) : Type 0 where
  proposal_accepted : (proposal_id tenant_id evaluation_id : ℕ) → Notice A
  proposal_rejected :
      (proposal_id tenant_id evaluation_id : ℕ) → Option CapType → Option A → Notice A
  override_required : (proposal_id tenant_id override_id user_id : ℕ) → Notice A

pub record RiskStore (A : Type 0) : Type 0 where
  pub switches : SwitchStore
  pub evaluations : List (RiskEvaluation A)
  pub overrides : List RiskOverride
  pub notices : List (Notice A)

-- A call returns, or raises and leaves the store as the call has made it.
pub data Reply {ℓ} (R : Type ℓ) : Type ℓ where
  returned : R → Reply R
  kill_switch_active : Reply R
  override_audit_missing : Reply R
  no_context : Reply R

module _ {A : Type 0} where
  unfoldable pub notify : Notice A → RiskStore A → RiskStore A
  notify notice db = if db.switches.has_bus then record db { notices = notice ∷ db.notices } else db

  unfoldable pub save_evaluation :
      TradeProposalInput A → Decision A → ℕ → RiskStore A → RiskStore A × ℕ
  save_evaluation proposal decision created_at db =
      let eval_id = db.switches.next_id in
      (
        record db {
          switches = record (db.switches) { next_id = eval_id + 1 };
          evaluations =
              record {
                id = eval_id;
                tenant_id = proposal.tenant_id;
                proposal_id = proposal.id;
                decision = decision;
                created_at = created_at;
              }
              ∷ db.evaluations;
        },
        eval_id,
      )

abbrev pub is_automatic : KillSwitchSource → Bool
is_automatic automatic_cap_breach = true
is_automatic _ = false

abbrev pub is_activated : KillSwitchTransition → Bool
is_activated activated = true
is_activated deactivated = false

-- an automatic activation of the tenant on the day of `today`
abbrev pub is_breach_event : ℕ → ℕ → SwitchEvent → Bool
is_breach_event tenant today e =
    e.tenant_id == tenant
    && (is_activated e.transition
        && (is_automatic e.source && e.created_at / day_length == today / day_length))

unfoldable pub has_today_automatic_breach_event : ℕ → ℕ → List SwitchEvent → Bool
has_today_automatic_breach_event tenant today = any (is_breach_event tenant today)

-- `cap_type in {"daily_loss", "weekly_loss", "max_drawdown"}`
abbrev pub is_regime : Option CapType → Bool
is_regime (some daily_loss) = true
is_regime (some weekly_loss) = true
is_regime (some max_drawdown) = true
is_regime _ = false

-- f"automatic activation: {cap_type} breach"
abbrev pub breach_reason : Option CapType → String
breach_reason (some daily_loss) = "automatic activation: daily_loss breach"
breach_reason (some weekly_loss) = "automatic activation: weekly_loss breach"
breach_reason (some max_drawdown) = "automatic activation: max_drawdown breach"
breach_reason _ = ""

module _ {A : Type 0} where
  unfoldable pub maybe_auto_activate_on_breach : ℕ → Decision A → ℕ → RiskStore A → RiskStore A
  unfolding has_today_automatic_breach_event
  maybe_auto_activate_on_breach tenant decision now db =
      if not (is_regime decision.cap_type_breached)
      then db
      else if has_today_automatic_breach_event tenant now db.switches.events
      then db
      else record db {
        switches =
            (activate_kill_switch tenant automatic_cap_breach none
              (some (breach_reason decision.cap_type_breached)) now db.switches).0;
      }

  -- from the saved evaluation on
  unfoldable pub announce : TradeProposalInput A → Decision A → ℕ → ℕ → RiskStore A → RiskStore A
  unfolding notify maybe_auto_activate_on_breach
  announce proposal decision evaluation_id now db =
      if is_allow decision.outcome
      then notify (proposal_accepted proposal.id proposal.tenant_id evaluation_id) db
      else maybe_auto_activate_on_breach proposal.tenant_id decision now (
          notify
            (proposal_rejected proposal.id proposal.tenant_id evaluation_id
              decision.cap_type_breached decision.current_pct)
            db)

module _ (dec : Decimal) (dump : RiskState dec.Amount → List (String × String)) where
  open dec use {Amount, mul}

  unfoldable pub evaluate_proposal :
      TradeProposalInput Amount
      → RiskCaps Amount
      → List (Trade Amount)
      → List (EquitySnapshot Amount)
      → ℕ
      → RiskStore Amount
      → Reply (ℕ × Decision Amount) × RiskStore Amount
  unfolding save_evaluation announce
  evaluate_proposal proposal caps trades snapshots now db =
      let state = load_risk_state dec proposal.tenant_id now trades snapshots in
      let decision = evaluate dec dump proposal state caps in
      let (db', evaluation_id) = save_evaluation proposal decision now db in
      if load_kill_switch_state proposal.tenant_id db.switches.cache
      then (kill_switch_active, db)
      else (returned (evaluation_id, decision), announce proposal decision evaluation_id now db')
