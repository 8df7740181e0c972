-- ===== src/Approval/Store.antt =====
-- contexts/approval/repository.py over the tables of contexts/approval/models.py. Times are
-- microseconds; an id is drawn from the counter `next_id`. The tenant listener narrows each SELECT
-- to the tenant of the context, and refuses it when there is none.
use iguanatrader.Common.{
  some, leb, filter, ◌++◌, find, none, ◌+◌, ◌*◌, ℕ, Option, [], str_eq, ◌∷◌, ltb, Bool, false, ◌==◌,
  String, not, any, ◌&&◌, if◌then◌else◌, List,
}

-- `ApprovalRequest`; `delivery_failures` is written by nothing here, and left out
pub record ApprovalRequest : Type 0 where
  pub id : ℕ
  pub tenant_id : ℕ
  pub proposal_id : Option ℕ
  pub delivered_to_channels : List String
  pub timeout_seconds : ℕ
  pub expires_at : ℕ
  pub created_at : ℕ
  pub action_type : String
  pub trade_id : Option ℕ

pub data DecisionOutcome : Type 0 where
  granted rejected timeout : DecisionOutcome

pub data ChannelKind : Type 0 where
  telegram whatsapp dashboard timeout_channel system : ChannelKind

-- `ApprovalDecision`
pub record ApprovalDecision : Type 0 where
  pub id : ℕ
  pub tenant_id : ℕ
  pub request_id : ℕ
  pub outcome : DecisionOutcome
  pub decided_via_channel : ChannelKind
  pub decided_by_user_id : Option ℕ
  pub decided_by_sender_id : Option ℕ
  pub latency_ms : ℕ
  pub created_at : ℕ

pub record Tables : Type 0 where
  pub requests : List ApprovalRequest
  pub decisions : List ApprovalDecision

-- The open transaction, what is committed under it, and the tenant of the context.
pub record Session : Type 0 where
  pub committed : Tables
  pub working : Tables
  pub next_id : ℕ
  pub tenant : Option ℕ

pub data Error : Type 0 where
  no_tenant not_found expired already_decided : Error

pub data Reply (R : Type 0) : Type 0 where
  ok : R → Reply R
  err : Error → Reply R

unfoldable pub create_request :
    Option ℕ → List String → ℕ → String → Option ℕ → ℕ → Session → Reply ApprovalRequest × Session
create_request proposal_id channels timeout_seconds action_type trade_id now s = elim s.tenant [
  | none ↦ (err no_tenant, s)
  | some tenant ↦
      let row : ApprovalRequest = record {
        id = s.next_id;
        tenant_id = tenant;
        proposal_id = proposal_id;
        delivered_to_channels = channels;
        timeout_seconds = timeout_seconds;
        expires_at = now + timeout_seconds * 1000000;
        created_at = now;
        action_type = action_type;
        trade_id = trade_id;
      } in
      (
        ok row,
        record s {
          working = record (s.working) { requests = s.working.requests ++ row ∷ [] };
          next_id = s.next_id + 1;
        },
      )
]

unfoldable pub get_request : ℕ → Session → Reply (Option ApprovalRequest)
get_request request_id s = elim s.tenant [
  | none ↦ err no_tenant
  | some tenant ↦ ok (find (λ r. r.id == request_id && r.tenant_id == tenant) s.working.requests)
]

abbrev pub has_decision : ℕ → List ApprovalDecision → Bool
has_decision request_id = any (λ d. d.request_id == request_id)

-- The INSERT, and the UNIQUE constraint on `request_id`: a violation rolls the session back.
unfoldable pub insert_decision :
    ℕ
    → DecisionOutcome
    → ChannelKind
    → Option ℕ
    → Option ℕ
    → ℕ
    → ℕ
    → Session
    → Reply ApprovalDecision × Session
insert_decision request_id outcome channel user sender latency_ms now s = elim s.tenant [
  | none ↦ (err no_tenant, s)
  | some tenant ↦
      let row : ApprovalDecision = record {
        id = s.next_id;
        tenant_id = tenant;
        request_id = request_id;
        outcome = outcome;
        decided_via_channel = channel;
        decided_by_user_id = user;
        decided_by_sender_id = sender;
        latency_ms = latency_ms;
        created_at = now;
      } in
      if has_decision request_id s.working.decisions
      then (err already_decided, record s { working = s.committed; next_id = s.next_id + 1 })
      else (
        ok row,
        record s {
          working = record (s.working) { decisions = row ∷ s.working.decisions };
          next_id = s.next_id + 1;
        },
      )
]

-- the outer join on a missing decision, as the tenant sees it
abbrev pub is_undecided : ℕ → List ApprovalDecision → ApprovalRequest → Bool
is_undecided tenant decisions r =
    not (any (λ d. d.request_id == r.id && d.tenant_id == tenant) decisions)

unfoldable pub sweep_expired : ℕ → Session → Reply (List ApprovalRequest)
sweep_expired now s = elim s.tenant [
  | none ↦ err no_tenant
  | some tenant ↦ ok (
      filter
        (λ r.
          r.tenant_id == tenant
          && (is_undecided tenant s.working.decisions r && leb r.expires_at now))
        s.working.requests)
]

-- the requests that `list_pending` returns, before they are put in order of creation
unfoldable pub pending : ℕ → Session → Reply (List ApprovalRequest)
pending now s = elim s.tenant [
  | none ↦ err no_tenant
  | some tenant ↦ ok (
      filter
        (λ r.
          r.tenant_id == tenant
          && (is_undecided tenant s.working.decisions r && ltb now r.expires_at))
        s.working.requests)
]

-- `trade_id = :id`, which NULL does not satisfy
abbrev pub is_for : ℕ → Option ℕ → Bool
is_for t none = false
is_for t (some u) = u == t

unfoldable pub has_pending_exit_for_trade : ℕ → ℕ → Session → Reply Bool
has_pending_exit_for_trade trade_id now s = elim s.tenant [
  | none ↦ err no_tenant
  | some tenant ↦ ok (
      any
        (λ r.
          r.tenant_id == tenant
          && (is_for trade_id r.trade_id
              && (str_eq r.action_type "exit"
                  && (is_undecided tenant s.working.decisions r && ltb now r.expires_at))))
        s.working.requests)
]
