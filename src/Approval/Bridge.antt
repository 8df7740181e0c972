-- ===== src/Approval/Bridge.antt =====
-- The outbound bridges of contexts/approval/service.py: what the trading context is told after a
-- decision. The metadata of the events is left out.
pub mod Laws
use iguanatrader.Approval.Service.{
  ProposalApproved, ProposalRejected, ProposalTimedOut, Event, approved, declined, timed_out,
}
use iguanatrader.Common.{some, not, ℕ, if◌then◌else◌, Option, none, str_eq, String}

pub data TradingEvent : Type 0 where
  proposal_approved : (tenant_id proposal_id : ℕ) → Option ℕ → TradingEvent
  proposal_rejected : (tenant_id : ℕ) → Option ℕ → String → TradingEvent
  close_trade_requested : (tenant_id trade_id : ℕ) → TradingEvent

-- `event.reason or "user_declined"`
abbrev pub reason_or_default : Option String → String
reason_or_default none = "user_declined"
reason_or_default (some reason) = if str_eq reason "" then "user_declined" else reason

abbrev pub when_some : {A : Type 0} → Option A → (A → TradingEvent) → Option TradingEvent
when_some none f = none
when_some (some a) f = some (f a)

-- with the tenant of the context at hand
unfoldable pub approved_event : ℕ → ProposalApproved → Option TradingEvent
approved_event tenant e =
    if str_eq e.action_type "exit"
    then when_some e.trade_id (close_trade_requested tenant)
    else if not (str_eq e.action_type "entry")
    then none
    else when_some e.proposal_id (λ p. proposal_approved tenant p e.decided_by_user_id)

unfoldable pub bridge_approved : Option ℕ → ProposalApproved → Option TradingEvent
unfolding approved_event
bridge_approved none e = none
bridge_approved (some tenant) e = approved_event tenant e

unfoldable pub bridge_rejected : Option ℕ → ProposalRejected → Option TradingEvent
bridge_rejected none e = none
bridge_rejected (some tenant) e =
    if str_eq e.action_type "exit"
    then none
    else some (proposal_rejected tenant e.proposal_id (reason_or_default e.reason))

unfoldable pub bridge_timeout : Option ℕ → ProposalTimedOut → Option TradingEvent
bridge_timeout none e = none
bridge_timeout (some tenant) e =
    if str_eq e.action_type "exit"
    then none
    else some (proposal_rejected tenant e.proposal_id "approval_timeout")

-- The bus calls the bridge of the event's class.
unfoldable pub bridge : Option ℕ → Event → Option TradingEvent
unfolding bridge_approved bridge_rejected bridge_timeout
bridge tenant (approved e) = bridge_approved tenant e
bridge tenant (declined e) = bridge_rejected tenant e
bridge tenant (timed_out e) = bridge_timeout tenant e
