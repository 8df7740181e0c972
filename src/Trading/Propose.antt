-- ===== src/Trading/Propose.antt =====
-- The first steps of contexts/trading/service.py: `propose`, `risk_check_handler` and
-- `proposal_rejected_handler`. What the strategy and the entry gate say is given.
pub mod Flood
pub mod Risked
use iguanatrader.Common.{
  ℕ, String, if◌then◌else◌, str_eq, string_append, Option, Bool, none, suc, ◌||◌, ◌∷◌, some, false,
  true,
}
use iguanatrader.Decimal.{Decimal}
use iguanatrader.Risk.Models.{
  Side, allow, reject, clip, CapType, per_trade, daily_loss, weekly_loss, max_open, max_drawdown,
  stoploss_guard, cooldown_period,
}
use iguanatrader.Risk.Bridge.{ProposalRiskEvaluated, BreachLabel, breached, kill_switch}
use iguanatrader.Trading.Models.{
  Mode, Desk, pending_approval, rejected, expired, proposal_created, approval_requested,
  proposal_rejected,
}
use iguanatrader.Trading.Service.{Service, publish}
use iguanatrader.Trading.Repository.{has_recent_pending, has_open_position, set_state}

-- `Proposal`: what a strategy returns
pub record Proposal (A : Type 0) : Type 0 where
  pub symbol : String
  pub side : Side
  pub quantity : A
  pub entry_price_indicative : A
  pub stop_price : A
  pub target_price : Option A
  pub confidence_score : Option A
  pub mode : Mode

-- `EntryGateDecision`, as far as `propose` reads it
pub record EntryDecision (A : Type 0) : Type 0 where
  pub blocked : Bool
  pub confidence : A

-- how `propose` ends
pub data Proposed (A : Type 0) : Type 0 where
  kill_switch_active_error : Proposed A
  lookup_error : Proposed A
  returned : Option (Proposal A) → Proposed A

-- what a tick asks the strategy about, and what the service is given for it
pub record Tick (A : Type 0) : Type 0 where
  pub now : ℕ
  pub tenant : Option ℕ
  pub symbol : String
  pub strategy_config_id : ℕ
  pub strategy_kind : String
  pub signal : Option (Proposal A)
  pub entry_gate : Option (Proposal A → EntryDecision A)

module _ (dec : Decimal) (svc : Service dec.Amount) where
  open dec use {Amount, of_int, lt}

  -- `created_at`, which the database fills in, is the time of the tick.
  unfoldable pub insert_proposal :
      Tick Amount → Proposal Amount → Option Amount → Desk Amount → Desk Amount
  insert_proposal tick proposal entry_confidence s =
      publish (proposal_created s.next_id tick.strategy_kind) (record s {
        proposals =
            record {
              id = s.next_id;
              strategy_config_id = tick.strategy_config_id;
              symbol = proposal.symbol;
              side = proposal.side;
              quantity = proposal.quantity;
              entry_price_indicative = proposal.entry_price_indicative;
              stop_price = proposal.stop_price;
              target_price = proposal.target_price;
              confidence_score = entry_confidence;
              mode = proposal.mode;
              created_at = tick.now;
              state = pending_approval;
              rejection_reason = none;
              rejected_at = none;
            }
            ∷ s.proposals;
        next_id = suc s.next_id;
      })

  abbrev pub entry_confidence : Proposal Amount → Amount → Option Amount
  entry_confidence proposal confidence =
      if lt (of_int 0) confidence then some confidence else proposal.confidence_score

  -- by whether the gate blocks the entry
  abbrev pub entry_decided :
      Tick Amount → Proposal Amount → Bool → Amount → Desk Amount → Proposed Amount × Desk Amount
  entry_decided tick proposal true confidence s = (returned none, s)
  entry_decided tick proposal false confidence s = (
    returned (some proposal),
    insert_proposal tick proposal (entry_confidence proposal confidence) s,
  )

  -- past the flood guard
  abbrev pub propose_entry :
      Tick Amount
      → Proposal Amount
      → Option (Proposal Amount → EntryDecision Amount)
      → Desk Amount
      → Proposed Amount × Desk Amount
  propose_entry tick proposal none s =
      (returned (some proposal), insert_proposal tick proposal proposal.confidence_score s)
  propose_entry tick proposal (some gate) s =
      entry_decided tick proposal (gate proposal).blocked (gate proposal).confidence s

  unfoldable pub is_in_flight : Tick Amount → Desk Amount → Bool
  is_in_flight tick s =
      has_open_position tick.symbol s
      || has_recent_pending tick.strategy_config_id svc.propose_dedup_window_secs tick.now s

  -- by whether an entry is in flight
  abbrev pub propose_signal :
      Tick Amount → Proposal Amount → Bool → Desk Amount → Proposed Amount × Desk Amount
  propose_signal tick proposal true s = (returned none, s)
  propose_signal tick proposal false s = propose_entry tick proposal tick.entry_gate s

  -- with the tenant of the context, and the strategy's signal
  abbrev pub propose_for :
      Tick Amount
      → Option ℕ
      → Option (Proposal Amount)
      → Desk Amount
      → Proposed Amount × Desk Amount
  propose_for tick none signal s = (lookup_error, s)
  propose_for tick (some tenant) none s = (returned none, s)
  propose_for tick (some tenant) (some proposal) s =
      propose_signal tick proposal (is_in_flight tick s) s

  -- by the halt flag
  abbrev pub propose_unless : Tick Amount → Bool → Desk Amount → Proposed Amount × Desk Amount
  propose_unless tick true s = (kill_switch_active_error, s)
  propose_unless tick false s = propose_for tick tick.tenant tick.signal s

  unfoldable pub propose : Tick Amount → Desk Amount → Proposed Amount × Desk Amount
  propose tick s = propose_unless tick s.kill_switch_active s

abbrev pub cap_name : CapType → String
cap_name per_trade = "per_trade"
cap_name daily_loss = "daily_loss"
cap_name weekly_loss = "weekly_loss"
cap_name max_open = "max_open"
cap_name max_drawdown = "max_drawdown"
cap_name stoploss_guard = "stoploss_guard"
cap_name cooldown_period = "cooldown_period"

unfoldable pub reject_reason : BreachLabel → String
reject_reason (breached none) = "risk_engine_reject"
reject_reason (breached (some c)) = string_append "risk_engine_reject:" (cap_name c)
reject_reason kill_switch = "risk_engine_reject:kill_switch"

module _ {A : Type 0} where
  unfoldable pub risk_check_handler : ProposalRiskEvaluated A → Desk A → Desk A
  risk_check_handler event s = elim event.outcome [
    | allow ↦ publish (approval_requested event.proposal_id) s
    | clip ↦ publish (proposal_rejected event.proposal_id "risk_engine_clip_unsupported") s
    | reject ↦
        publish (proposal_rejected event.proposal_id (reject_reason event.cap_type_breached)) s
  ]

  unfoldable pub proposal_rejected_handler : ℕ → String → ℕ → Desk A → Desk A
  proposal_rejected_handler proposal_id reason now s =
      set_state proposal_id (if str_eq reason "approval_timeout" then expired else rejected)
        (some reason) now s
