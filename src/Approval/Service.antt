-- ===== src/Approval/Service.antt =====
-- contexts/approval/service.py: recording a decision and sweeping expired requests, with the events
-- of contexts/approval/events.py that they publish. `now` is the time that a call reads.
use iguanatrader.Approval.Store.{
  ApprovalRequest, DecisionOutcome, granted, rejected, timeout, ChannelKind, timeout_channel,
  ApprovalDecision, Session, not_found, expired, Reply, ok, err, get_request, insert_decision,
  sweep_expired,
}
use iguanatrader.Common.{
  some, String, ◌/◌, ◌&&◌, Bool, ◌-◌, ℕ, leb, Option, if◌then◌else◌, false, [], none, true, List,
  ◌∷◌,
}

pub record ProposalApproved : Type 0 where
  pub proposal_id : Option ℕ
  pub decision_id : ℕ
  pub decided_at : ℕ
  pub decided_by_user_id : Option ℕ
  pub decided_via_channel : ChannelKind
  pub tenant_id : ℕ
  pub action_type : String
  pub trade_id : Option ℕ

pub record ProposalRejected : Type 0 where
  pub proposal_id : Option ℕ
  pub decision_id : ℕ
  pub decided_at : ℕ
  pub reason : Option String
  pub decided_via_channel : ChannelKind
  pub tenant_id : ℕ
  pub action_type : String
  pub trade_id : Option ℕ

pub record ProposalTimedOut : Type 0 where
  pub proposal_id : Option ℕ
  pub request_id : ℕ
  pub expired_at : ℕ
  pub tenant_id : ℕ
  pub action_type : String
  pub trade_id : Option ℕ

pub data Event : Type 0 where
  approved : ProposalApproved → Event
  declined : ProposalRejected → Event
  timed_out : ProposalTimedOut → Event

-- The service: its session, and what it has published, newest first.
pub record Service : Type 0 where
  pub session : Session
  pub published : List Event

-- `_publish_event`'s event for an outcome
unfoldable pub event_for :
    ApprovalRequest → ApprovalDecision → DecisionOutcome → ℕ → Option String → Event
event_for request decision granted decided_at reason = approved (record {
  proposal_id = request.proposal_id;
  decision_id = decision.id;
  decided_at = decided_at;
  decided_by_user_id = decision.decided_by_user_id;
  decided_via_channel = decision.decided_via_channel;
  tenant_id = request.tenant_id;
  action_type = request.action_type;
  trade_id = request.trade_id;
})
event_for request decision rejected decided_at reason = declined (record {
  proposal_id = request.proposal_id;
  decision_id = decision.id;
  decided_at = decided_at;
  reason = reason;
  decided_via_channel = decision.decided_via_channel;
  tenant_id = request.tenant_id;
  action_type = request.action_type;
  trade_id = request.trade_id;
})
event_for request decision timeout decided_at reason = timed_out (record {
  proposal_id = request.proposal_id;
  request_id = request.id;
  expired_at = request.expires_at;
  tenant_id = request.tenant_id;
  action_type = request.action_type;
  trade_id = request.trade_id;
})

-- `outcome in ("granted", "rejected")`
abbrev pub is_human : DecisionOutcome → Bool
is_human granted = true
is_human rejected = true
is_human timeout = false

-- int(max(difference in seconds * 1000, 0.0)), in microseconds
abbrev pub latency : ℕ → ℕ → ℕ
latency later earlier = (later - earlier) / 1000

abbrev pub published_after :
    ApprovalRequest
    → DecisionOutcome
    → ℕ
    → Option String
    → Reply ApprovalDecision × Session
    → List Event
    → Reply ApprovalDecision × Service
published_after request outcome now reason (ok decision, s) events = (
  ok decision,
  record { session = s; published = event_for request decision outcome now reason ∷ events },
)
published_after request outcome now reason (err e, s) events =
    (err e, record { session = s; published = events })

-- once the request is there
unfoldable pub decide_on :
    ApprovalRequest
    → DecisionOutcome
    → ChannelKind
    → Option ℕ
    → Option ℕ
    → Option String
    → ℕ
    → Service
    → Reply ApprovalDecision × Service
unfolding event_for
decide_on request outcome channel user sender reason now svc =
    if is_human outcome && leb request.expires_at now
    then (err expired, svc)
    else published_after request outcome now reason
        (insert_decision request.id outcome channel user sender (latency now request.created_at) now
          svc.session)
        svc.published

-- from the answer of `get_request` on
unfoldable pub decide_found :
    Reply (Option ApprovalRequest)
    → DecisionOutcome
    → ChannelKind
    → Option ℕ
    → Option ℕ
    → Option String
    → ℕ
    → Service
    → Reply ApprovalDecision × Service
unfolding decide_on
decide_found (err e) outcome channel user sender reason now svc = (err e, svc)
decide_found (ok none) outcome channel user sender reason now svc = (err not_found, svc)
decide_found (ok (some request)) outcome channel user sender reason now svc =
    decide_on request outcome channel user sender reason now svc

unfoldable pub record_decision :
    ℕ
    → DecisionOutcome
    → ChannelKind
    → Option ℕ
    → Option ℕ
    → Option String
    → ℕ
    → Service
    → Reply ApprovalDecision × Service
unfolding decide_found
record_decision request_id outcome channel user sender reason now svc =
    decide_found (get_request request_id svc.session) outcome channel user sender reason now svc

-- The sweeper's event: `action_type` and `trade_id` are left at their defaults.
unfoldable pub sweep_event : ApprovalRequest → Event
sweep_event request = timed_out (record {
  proposal_id = request.proposal_id;
  request_id = request.id;
  expired_at = request.expires_at;
  tenant_id = request.tenant_id;
  action_type = "entry";
  trade_id = none;
})

abbrev pub cons_reply :
    ApprovalDecision → Reply (List ApprovalDecision) → Reply (List ApprovalDecision)
cons_reply decision (ok decisions) = ok (decision ∷ decisions)
cons_reply decision (err e) = err e

unfoldable pub sweep_each :
    List ApprovalRequest → ℕ → Service → Reply (List ApprovalDecision) × Service
unfolding sweep_event
sweep_each [] now svc = (ok [], svc)
sweep_each (request ∷ rest) now svc =
    let (inserted, s) =
      insert_decision request.id timeout timeout_channel none none
        (latency request.expires_at request.created_at) now svc.session in
    elim inserted [
      | ok decision ↦
          let (reply, svc') =
            sweep_each rest now
              (record { session = s; published = sweep_event request ∷ svc.published }) in
          (cons_reply decision reply, svc')
      | err e ↦ (err e, record { session = s; published = svc.published })
    ]

-- from the answer of the repository on
unfoldable pub sweep_found :
    Reply (List ApprovalRequest) → ℕ → Service → Reply (List ApprovalDecision) × Service
unfolding sweep_each
sweep_found (err e) now svc = (err e, svc)
sweep_found (ok expired_rows) now svc = sweep_each expired_rows now svc

unfoldable pub sweep_expired_requests : ℕ → Service → Reply (List ApprovalDecision) × Service
unfolding sweep_found
sweep_expired_requests now svc = sweep_found (sweep_expired now svc.session) now svc
