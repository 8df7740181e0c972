-- ===== src/Approval/Decide.antt =====
-- What `record_decision` does on every path, and what the trading context is told of it.
use iguanatrader.Approval.Store.{
  ApprovalRequest, DecisionOutcome, granted, rejected, timeout, ChannelKind, ApprovalDecision,
  expired, already_decided, Reply, ok, err, has_decision, get_request, insert_decision,
}
use iguanatrader.Approval.Service.{
  Event, approved, declined, timed_out, ProposalApproved, ProposalRejected, ProposalTimedOut,
  Service, event_for, is_human, decide_on, record_decision, latency,
}
use iguanatrader.Common.{
  Option, refl, Bool-cases, leb, ◌∷◌, ◌≡◌, some, arith, ◌≢◌, inl, true, inr, ℕ, ◌≤◌, ◌&&◌, ◌⊎◌,
  false, String, ◌<◌,
}

-- The event tells the outcome, and carries the request's proposal, tenant, action and trade.
pub data Carries (r : ApprovalRequest) : DecisionOutcome → Event → Type 0 where
  of_grant :
      (e : ProposalApproved)
      → e.proposal_id ≡ r.proposal_id
      → e.tenant_id ≡ r.tenant_id
      → e.action_type ≡ r.action_type
      → e.trade_id ≡ r.trade_id
      → Carries r granted (approved e)
  of_rejection :
      (e : ProposalRejected)
      → e.proposal_id ≡ r.proposal_id
      → e.tenant_id ≡ r.tenant_id
      → e.action_type ≡ r.action_type
      → e.trade_id ≡ r.trade_id
      → Carries r rejected (declined e)
  of_timeout :
      (e : ProposalTimedOut)
      → e.proposal_id ≡ r.proposal_id
      → e.tenant_id ≡ r.tenant_id
      → e.action_type ≡ r.action_type
      → e.trade_id ≡ r.trade_id
      → Carries r timeout (timed_out e)

event_for-Carries :
    (r : ApprovalRequest) (verdict : ApprovalDecision) (outcome : DecisionOutcome) (now : ℕ)
    (reason : Option String)
    → Carries r outcome (event_for r verdict outcome now reason)
unfolding event_for
event_for-Carries r verdict granted now reason = of_grant _ refl refl refl refl
event_for-Carries r verdict rejected now reason = of_rejection _ refl refl refl refl
event_for-Carries r verdict timeout now reason = of_timeout _ refl refl refl refl

module _ (request_id : ℕ) (outcome : DecisionOutcome) (channel : ChannelKind)
    (user sender : Option ℕ) (reason : Option String) (now : ℕ) (svc : Service) where
  abbrev pub deciding : Reply ApprovalDecision × Service
  deciding = record_decision request_id outcome channel user sender reason now svc

  -- The decision comes too late: nothing changes.
  pub record IsLate (r : ApprovalRequest) : Type 0 where
    pub late : r.expires_at ≤ now
    pub human : outcome ≢ timeout
    pub refused : deciding ≡ (err expired, svc)

  -- Another decision came first: the transaction is rolled back, and nothing is published.
  pub record IsSecond (r : ApprovalRequest) : Type 0 where
    pub taken : has_decision r.id svc.session.working.decisions ≡ true
    pub conflict : deciding.0 ≡ err already_decided
    pub rolled_back : deciding.1.session.working ≡ svc.session.committed
    pub silent : deciding.1.published ≡ svc.published

  -- The first decision: one row, and one event that carries the request's action and trade.
  pub record IsFirst (r : ApprovalRequest) : Type 0 where
    pub in_time : (outcome ≡ timeout) ⊎ (now < r.expires_at)
    pub free : has_decision r.id svc.session.working.decisions ≡ false
    pub verdict : ApprovalDecision
    pub replied : deciding.0 ≡ ok verdict
    pub about : verdict.request_id ≡ r.id
    pub as_given : verdict.outcome ≡ outcome
    pub via : verdict.decided_via_channel ≡ channel
    pub by_user : verdict.decided_by_user_id ≡ user
    pub by_sender : verdict.decided_by_sender_id ≡ sender
    pub stored : deciding.1.session.working.decisions ≡ verdict ∷ svc.session.working.decisions
    pub event : Event
    pub told : deciding.1.published ≡ event ∷ svc.published
    pub carried : Carries r outcome event

  first_verdict : ApprovalRequest → ℕ → ApprovalDecision
  first_verdict r tenant = record {
    id = svc.session.next_id;
    tenant_id = tenant;
    request_id = r.id;
    outcome = outcome;
    decided_via_channel = channel;
    decided_by_user_id = user;
    decided_by_sender_id = sender;
    latency_ms = latency now r.created_at;
    created_at = now;
  }

  -- For a request that the tenant has: a human decision at or after its expiry changes nothing; a
  -- decision after another one is refused, rolled back and not published; any other is stored as one
  -- new row with the outcome, the channel and the decider as given, and published once, as the event
  -- of its outcome with the request's proposal, tenant, action and trade.
  pub record_decision_paths :
      (r : ApprovalRequest) (tenant : ℕ)
      → svc.session.tenant ≡ some tenant
      → get_request request_id svc.session ≡ ok (some r)
      → IsLate r ⊎ (IsSecond r ⊎ IsFirst r)
  unfolding record_decision decide_on insert_decision first_verdict
  record_decision_paths r tenant t g =
      elim (Bool-cases (is_human outcome && leb r.expires_at now)) [
        | inl late ↦
            inl (record { late = ground arith; human = ground arith; refused = ground arith })
        | inr open_still ↦ elim (Bool-cases (has_decision r.id svc.session.working.decisions)) [
          | inl taken ↦ inr (
              inl (record {
                taken = taken;
                conflict = ground arith;
                rolled_back = ground arith;
                silent = ground arith;
              }))
          | inr free ↦ inr (
              inr (record {
                in_time = ground arith;
                free = free;
                verdict = first_verdict r tenant;
                replied = ground arith;
                about = refl;
                as_given = refl;
                via = refl;
                by_user = refl;
                by_sender = refl;
                event = event_for r (first_verdict r tenant) outcome now reason;
                stored = ground arith;
                told = ground arith;
                carried = event_for-Carries r (first_verdict r tenant) outcome now reason;
              }))
        ]
      ]
