-- ===== src/Approval/Bridge/Laws.antt =====
-- The bridges act for the trading context only as far as a granted request allows.
use iguanatrader.Approval.Store.{ApprovalRequest, ApprovalDecision, granted, timeout}
use iguanatrader.Approval.Service.{
  ProposalApproved, ProposalRejected, ProposalTimedOut, Event, approved, declined, timed_out,
  event_for, sweep_event,
}
use iguanatrader.Approval.Bridge.{
  TradingEvent, proposal_approved, proposal_rejected, close_trade_requested, bridge,
  bridge_approved, bridge_timeout, bridge_rejected, when_some,
}
use iguanatrader.Common.{
  some, ◌≢◌, arith, ◌⊎◌, refl, none, ◌≡◌, Option, ℕ, inl, inr, String, eq_iff,
}

-- What an event of the approval context must be for each action of the trading context.
abbrev pub Warrants : Event → TradingEvent → Type 0
Warrants e (proposal_approved t p u) =
    (a : ProposalApproved) × (e ≡ approved a) × (a.action_type ≡ "entry") × (a.proposal_id ≡ some p)
Warrants e (close_trade_requested t tr) =
    (a : ProposalApproved) × (e ≡ approved a) × (a.action_type ≡ "exit") × (a.trade_id ≡ some tr)
Warrants e (proposal_rejected t p reason) =
    ((r : ProposalRejected) × (e ≡ declined r) × (r.action_type ≢ "exit") × (r.proposal_id ≡ p))
    ⊎ ((x : ProposalTimedOut) × (e ≡ timed_out x) × (x.action_type ≢ "exit") × (x.proposal_id ≡ p))

approved-Warrants :
    (tenant : ℕ) (a : ProposalApproved) (out : TradingEvent)
    → bridge_approved (some tenant) a ≡ some out
    → Warrants (approved a) out
unfolding bridge_approved
approved-Warrants tenant a (proposal_approved t p u) h = (
  a,
  refl,
  ground (arith, eq_iff a.action_type "exit", eq_iff a.action_type "entry"),
  ground (arith, eq_iff a.action_type "exit", eq_iff a.action_type "entry"),
)
approved-Warrants tenant a (close_trade_requested t tr) h = (
  a,
  refl,
  ground (arith, eq_iff a.action_type "exit", eq_iff a.action_type "entry"),
  ground (arith, eq_iff a.action_type "exit", eq_iff a.action_type "entry"),
)
approved-Warrants tenant a (proposal_rejected t p reason) h = absurd (ground arith)

declined-Warrants :
    (tenant : ℕ) (r : ProposalRejected) (out : TradingEvent)
    → bridge_rejected (some tenant) r ≡ some out
    → Warrants (declined r) out
unfolding bridge_rejected
declined-Warrants tenant r (proposal_approved t p u) h = absurd (ground arith)
declined-Warrants tenant r (close_trade_requested t tr) h = absurd (ground arith)
declined-Warrants tenant r (proposal_rejected t p reason) h =
    inl (r, refl, ground (arith, eq_iff r.action_type "exit"), ground arith)

timed_out-Warrants :
    (tenant : ℕ) (x : ProposalTimedOut) (out : TradingEvent)
    → bridge_timeout (some tenant) x ≡ some out
    → Warrants (timed_out x) out
unfolding bridge_timeout
timed_out-Warrants tenant x (proposal_approved t p u) h = absurd (ground arith)
timed_out-Warrants tenant x (close_trade_requested t tr) h = absurd (ground arith)
timed_out-Warrants tenant x (proposal_rejected t p reason) h =
    inr (x, refl, ground (arith, eq_iff x.action_type "exit"), ground arith)

-- Nothing reaches the trading context unless its event warrants it: a position is opened only on
-- a granted entry with its proposal, and closed only on a granted exit with its trade; a proposal
-- is rejected only on a declined or timed-out event that is no exit.
pub bridge-Warrants :
    (tenant : Option ℕ) (e : Event) (out : TradingEvent)
    → bridge tenant e ≡ some out
    → Warrants e out
unfolding bridge
bridge-Warrants none (approved a) out h = ground arith
bridge-Warrants none (declined r) out h = ground arith
bridge-Warrants none (timed_out x) out h = ground arith
bridge-Warrants (some t) (approved a) out h = approved-Warrants t a out h
bridge-Warrants (some t) (declined r) out h = declined-Warrants t r out h
bridge-Warrants (some t) (timed_out x) out h = timed_out-Warrants t x out h

-- A granted request is acted on by its own kind: an exit closes its trade, an entry opens its
-- proposal, and any other action, or one that lacks its id, does nothing.
pub granted_action :
    (tenant : ℕ) (r : ApprovalRequest) (v : ApprovalDecision) (now : ℕ) (reason : Option String)
    → let done = bridge (some tenant) (event_for r v granted now reason) in
      (r.action_type ≡ "exit") × (done ≡ when_some r.trade_id (close_trade_requested tenant))
      ⊎ ((r.action_type ≡ "entry")
            × (done
                ≡ when_some r.proposal_id (λ p. proposal_approved tenant p v.decided_by_user_id))
          ⊎ (r.action_type ≢ "exit") × (r.action_type ≢ "entry") × (done ≡ none))
unfolding bridge event_for
granted_action tenant r v now reason =
    ground (arith, eq_iff r.action_type "exit", eq_iff r.action_type "entry")

-- An exit request without a proposal that the sweeper times out is reported as an entry: the bridge
-- rejects a proposal that does not exist. Through `record_decision` the same request would be left alone.
pub swept_exit :
    (tenant : ℕ) (r : ApprovalRequest) (v : ApprovalDecision) (now : ℕ)
    → r.action_type ≡ "exit"
    → r.proposal_id ≡ none
    → (bridge (some tenant) (sweep_event r)
        ≡ some (proposal_rejected tenant none "approval_timeout"))
      × (bridge (some tenant) (event_for r v timeout now none) ≡ none)
unfolding bridge event_for sweep_event
swept_exit tenant r v now e p = (rw p, rw e)
