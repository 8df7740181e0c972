-- ===== src/Approval/Sweep.antt =====
-- The sweep of expired requests, end to end.
pub mod Twice
use iguanatrader.Approval.Store.{
  ApprovalRequest, ApprovalDecision, has_decision, insert_decision, timeout, ok, timeout_channel,
  Session, is_undecided, sweep_expired, Reply, err, no_tenant,
}
use iguanatrader.Common.{
  ◌+◌, arith, List, all, ℕ, refl, All, none, any, ◌==◌, false, ◌≡◌, some, ◌∷◌, [], leb, filter, ◌⊎◌,
  not, inr, Bool-cases, ◌&&◌, ◌||◌, Bool, inl, Option, ◌∙◌, true, ap,
}
use iguanatrader.Approval.Service.{
  sweep_each, Service, sweep_event, latency, sweep_expired_requests, sweep_found,
}

-- no two requests have one id
abbrev pub DistinctIds : List ApprovalRequest → Type 0
DistinctIds [] = Unit
DistinctIds (r ∷ rs) = (any (λ x. x.id == r.id) rs ≡ false) × DistinctIds rs

-- the decision that the sweep stores for a request, under an id
abbrev pub timeout_decision : ℕ → ℕ → ApprovalRequest → ℕ → ApprovalDecision
timeout_decision tenant now r i = record {
  id = i;
  tenant_id = tenant;
  request_id = r.id;
  outcome = timeout;
  decided_via_channel = timeout_channel;
  decided_by_user_id = none;
  decided_by_sender_id = none;
  latency_ms = latency r.expires_at r.created_at;
  created_at = now;
}

-- the decisions for the rows, in their order, with ids from `i` on
abbrev pub timeout_decisions : ℕ → ℕ → List ApprovalRequest → ℕ → List ApprovalDecision
timeout_decisions tenant now [] i = []
timeout_decisions tenant now (r ∷ rs) i =
    timeout_decision tenant now r i ∷ timeout_decisions tenant now rs (i + 1)

-- The service after the rows have been timed out one by one.
abbrev pub timed_out_all : ℕ → ℕ → List ApprovalRequest → Service → Service
timed_out_all tenant now [] svc = svc
timed_out_all tenant now (r ∷ rs) svc = timed_out_all tenant now rs (record {
  session = record (svc.session) {
    working = record (svc.session.working) {
      decisions = timeout_decision tenant now r svc.session.next_id ∷ svc.session.working.decisions;
    };
    next_id = svc.session.next_id + 1;
  };
  published = sweep_event r ∷ svc.published;
})

undecided-cons :
    (d : ApprovalDecision) (ds : List ApprovalDecision) (rs : List ApprovalRequest)
    → any (λ x. x.id == d.request_id) rs ≡ false
    → All (λ r. has_decision r.id ds ≡ false) rs
    → All (λ r. has_decision r.id (d ∷ ds) ≡ false) rs
undecided-cons d ds [] h all = tt
undecided-cons d ds (r ∷ rs) h all =
    (ground (arith, all.0), undecided-cons d ds rs (ground arith) all.1)

-- Rows with distinct ids and no decision are all timed out, and no insertion fails.
sweep_each-All :
    (tenant now : ℕ) (rs : List ApprovalRequest) (svc : Service)
    → svc.session.tenant ≡ some tenant
    → DistinctIds rs
    → All (λ r. has_decision r.id svc.session.working.decisions ≡ false) rs
    → sweep_each rs now svc
      ≡ (ok (timeout_decisions tenant now rs svc.session.next_id), timed_out_all tenant now rs svc)
unfolding sweep_each insert_decision
sweep_each-All tenant now [] svc t d u = refl
sweep_each-All tenant now (r ∷ rs) svc t d u =
    let svc' : Service = record {
      session = record (svc.session) {
        working = record (svc.session.working) {
          decisions =
              timeout_decision tenant now r svc.session.next_id ∷ svc.session.working.decisions;
        };
        next_id = svc.session.next_id + 1;
      };
      published = sweep_event r ∷ svc.published;
    } in
    ground (
      arith,
      sweep_each-All tenant now rs svc' t d.1 (
          undecided-cons (timeout_decision tenant now r svc.session.next_id)
            svc.session.working.decisions rs d.0 u.1),
    )

-- a decision on a request of the tenant is the tenant's own
abbrev pub Owned : ℕ → Session → Type 0
Owned tenant s =
    All
      (λ r.
        (r.tenant_id == tenant ≡ false)
        ⊎ (is_undecided tenant s.working.decisions r ≡ not (has_decision r.id s.working.decisions)))
      s.working.requests

-- the rows that the sweep takes up
abbrev pub is_due : ℕ → ℕ → List ApprovalDecision → ApprovalRequest → Bool
is_due tenant now ds r = r.tenant_id == tenant && (is_undecided tenant ds r && leb r.expires_at now)

abbrev pub due : ℕ → ℕ → Session → List ApprovalRequest
due tenant now s = filter (is_due tenant now s.working.decisions) s.working.requests

any-filter :
    (i : ℕ) (p : ApprovalRequest → Bool) (rs : List ApprovalRequest)
    → any (λ x. x.id == i) rs ≡ false
    → any (λ x. x.id == i) (filter p rs) ≡ false
any-filter i p [] h = refl
any-filter i p (r ∷ rs) h = ground (arith, any-filter i p rs)

DistinctIds-filter :
    (p : ApprovalRequest → Bool) (rs : List ApprovalRequest)
    → DistinctIds rs
    → DistinctIds (filter p rs)
DistinctIds-filter p [] d = tt
DistinctIds-filter p (r ∷ rs) d = elim (Bool-cases (p r)) [
  | inl e ↦ rw e (any-filter r.id p rs d.0, DistinctIds-filter p rs d.1)
  | inr e ↦ rw e (DistinctIds-filter p rs d.1)
]

due-undecided :
    (tenant now : ℕ) (ds : List ApprovalDecision) (rs : List ApprovalRequest)
    → All
        (λ r.
          (r.tenant_id == tenant ≡ false) ⊎ (is_undecided tenant ds r ≡ not (has_decision r.id ds)))
        rs
    → All (λ r. has_decision r.id ds ≡ false) (filter (is_due tenant now ds) rs)
due-undecided tenant now ds [] own = tt
due-undecided tenant now ds (r ∷ rs) own = elim (Bool-cases (is_due tenant now ds r)) [
  | inl e ↦ rw e (ground (arith, own.0), due-undecided tenant now ds rs own.1)
  | inr e ↦ rw e (due-undecided tenant now ds rs own.1)
]

pub sweep_expired-due :
    (tenant now : ℕ) (s : Session)
    → s.tenant ≡ some tenant
    → sweep_expired now s ≡ ok (due tenant now s)
unfolding sweep_expired
sweep_expired-due tenant now s t =
    ap {A = Option ℕ} {B = Reply (List ApprovalRequest)}
      (λ o. elim o [ none ↦ err no_tenant | some t' ↦ ok (due t' now s) ]) t

-- Each request of the tenant that has expired without a decision is timed out by the sweep, in the
-- order of the table: one decision row with its latency, and one event; no insertion fails. Nothing
-- else is stored or published. This holds when no two requests have one id, and a tenant's requests
-- are decided under that tenant alone.
pub sweep_expired_requests-All :
    (tenant now : ℕ) (svc : Service)
    → svc.session.tenant ≡ some tenant
    → DistinctIds svc.session.working.requests
    → Owned tenant svc.session
    → let rows = due tenant now svc.session in
      sweep_expired_requests now svc ≡ (
        ok (timeout_decisions tenant now rows svc.session.next_id),
        timed_out_all tenant now rows svc,
      )
unfolding sweep_expired_requests sweep_found
sweep_expired_requests-All tenant now svc t d own =
    ap (λ g. sweep_found g now svc) (sweep_expired-due tenant now svc.session t)
    ∙ sweep_each-All tenant now (due tenant now svc.session) svc t
        (DistinctIds-filter (is_due tenant now svc.session.working.decisions)
          svc.session.working.requests d)
        (due-undecided tenant now svc.session.working.decisions svc.session.working.requests own)
