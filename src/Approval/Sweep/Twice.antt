-- ===== src/Approval/Sweep/Twice.antt =====
-- Nothing is left after a sweep.
use iguanatrader.Approval.Store.{ApprovalDecision, ApprovalRequest, sweep_expired, ok}
use iguanatrader.Common.{
  ◌∷◌, ◌∙◌, all, filter, ap, List, any, All, ◌⊎◌, ℕ, ◌≡◌, some, [], ◌+◌, ◌==◌, true, refl, ◌&&◌,
  ◌||◌, arith, false, Bool,
}
use iguanatrader.Approval.Service.{Service, sweep_event, sweep_expired_requests}
use iguanatrader.Approval.Sweep.{
  DistinctIds, is_due, timed_out_all, Owned, timeout_decision, due, sweep_expired_requests-All,
  sweep_expired-due,
}

-- whether the tenant has a decision on the request of an id
abbrev decided : ℕ → ℕ → List ApprovalDecision → Bool
decided tenant i = any (λ d. d.request_id == i && d.tenant_id == tenant)

timed_out_all-session :
    (tenant now : ℕ) (rows : List ApprovalRequest) (svc : Service)
    → let s = (timed_out_all tenant now rows svc).session in
      (s.tenant ≡ svc.session.tenant)
      × (s.working.requests ≡ svc.session.working.requests)
      × ((i : ℕ)
          → decided tenant i s.working.decisions
            ≡ (any (λ x. x.id == i) rows || decided tenant i svc.session.working.decisions))
timed_out_all-session tenant now [] svc = (refl, refl, λ i. refl)
timed_out_all-session tenant now (r ∷ rows) svc =
    let svc' : Service = record {
      session = record (svc.session) {
        working = record (svc.session.working) {
          decisions =
              timeout_decision tenant now r svc.session.next_id ∷ svc.session.working.decisions;
        };
        next_id = svc.session.next_id + 1;
      };
      published = sweep_event r ∷ svc.published;
    } in
    let rest = timed_out_all-session tenant now rows svc' in
    (rest.0, rest.1, λ i. ground (arith, rest.2 i))

due-there :
    (p : ApprovalRequest → Bool) (rows : List ApprovalRequest) (rs : List ApprovalRequest)
    → ((i : ℕ) → any (λ x. x.id == i) (filter p rs) ≡ true → any (λ x. x.id == i) rows ≡ true)
    → All (λ r. (p r ≡ false) ⊎ (any (λ x. x.id == r.id) rows ≡ true)) rs
due-there p rows [] h = tt
due-there p rows (r ∷ rs) h =
    (ground (arith, h r.id), due-there p rows rs (λ i e. h i (ground arith)))

none-left :
    (q : ApprovalRequest → Bool) (rs : List ApprovalRequest)
    → All (λ r. q r ≡ false) rs
    → filter q rs ≡ []
none-left q [] h = refl
none-left q (r ∷ rs) h = ground (arith, none-left q rs)

settled :
    (tenant now : ℕ) (ds ds' : List ApprovalDecision) (rows rs : List ApprovalRequest)
    → ((i : ℕ) → decided tenant i ds' ≡ (any (λ x. x.id == i) rows || decided tenant i ds))
    → All (λ r. (is_due tenant now ds r ≡ false) ⊎ (any (λ x. x.id == r.id) rows ≡ true)) rs
    → All (λ r. is_due tenant now ds' r ≡ false) rs
settled tenant now ds ds' rows [] h all = tt
settled tenant now ds ds' rows (r ∷ rs) h all =
    (ground (arith, h r.id, all.0), settled tenant now ds ds' rows rs h all.1)

-- A second sweep at the same time finds nothing left to time out, when no two requests have one id
-- and a tenant's requests are decided under that tenant alone.
pub sweep_twice :
    (tenant now : ℕ) (svc : Service)
    → svc.session.tenant ≡ some tenant
    → DistinctIds svc.session.working.requests
    → Owned tenant svc.session
    → sweep_expired now (sweep_expired_requests now svc).1.session ≡ ok []
sweep_twice tenant now svc t d own =
    let rows = due tenant now svc.session in
    let after = (timed_out_all tenant now rows svc).session in
    let (same_tenant, same_requests, ds) = timed_out_all-session tenant now rows svc in
    let requests = svc.session.working.requests in
    let before = svc.session.working.decisions in
    let empty : filter (is_due tenant now after.working.decisions) requests ≡ [] =
      none-left (is_due tenant now after.working.decisions) requests (
        settled tenant now before after.working.decisions rows requests ds
          (due-there (is_due tenant now before) rows requests (λ i e. e))) in
    ap (λ x. sweep_expired now x.1.session) (sweep_expired_requests-All tenant now svc t d own)
    ∙ (sweep_expired-due tenant now after (same_tenant ∙ t)
        ∙ ap ok (ap (filter (is_due tenant now after.working.decisions)) same_requests ∙ empty))
