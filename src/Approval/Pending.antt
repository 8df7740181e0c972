-- ===== src/Approval/Pending.antt =====
-- The pending requests against the expired ones, and the guard against a second exit request.
use iguanatrader.Approval.Store.{
  Session, pending, sweep_expired, ApprovalRequest, has_pending_exit_for_trade, ApprovalDecision,
  is_undecided, ok, is_for, Reply, err, no_tenant,
}
use iguanatrader.Common.{
  ◌≡◌, ◌==◌, [], All, refl, filter, length, ℕ, Bool, any, arith, ltb, leb, ◌&&◌, List, ◌≤◌, ◌<◌,
  ◌+◌, ◌∷◌, some, str_eq, ◌∙◌, none, Option, ap,
}

-- what a tenant's list of pending requests and its sweep take from the table
abbrev waiting_of : ℕ → ℕ → List ApprovalDecision → List ApprovalRequest → List ApprovalRequest
waiting_of tenant now ds =
    filter (λ r. r.tenant_id == tenant && (is_undecided tenant ds r && ltb now r.expires_at))

abbrev expired_of : ℕ → ℕ → List ApprovalDecision → List ApprovalRequest → List ApprovalRequest
expired_of tenant now ds =
    filter (λ r. r.tenant_id == tenant && (is_undecided tenant ds r && leb r.expires_at now))

-- the tenant's requests that nobody has decided
abbrev pub open_requests : ℕ → Session → List ApprovalRequest
open_requests tenant s =
    filter (λ r. r.tenant_id == tenant && is_undecided tenant s.working.decisions r)
      s.working.requests

split-length :
    (tenant now : ℕ) (ds : List ApprovalDecision) (rs : List ApprovalRequest)
    → length (
          filter
            (λ r. r.tenant_id == tenant && (is_undecided tenant ds r && ltb now r.expires_at))
            rs)
        + length (
            filter
              (λ r. r.tenant_id == tenant && (is_undecided tenant ds r && leb r.expires_at now))
              rs)
      ≡ length (filter (λ r. r.tenant_id == tenant && is_undecided tenant ds r) rs)
split-length tenant now ds [] = omega arith
split-length tenant now ds (r ∷ rs) = ground (arith, split-length tenant now ds rs)

disjoint-expiry :
    (tenant now : ℕ) (ds : List ApprovalDecision) (rs : List ApprovalRequest)
    → All
        (λ r. now < r.expires_at)
        (filter
          (λ r. r.tenant_id == tenant && (is_undecided tenant ds r && ltb now r.expires_at))
          rs)
      × All
          (λ r. r.expires_at ≤ now)
          (filter
            (λ r. r.tenant_id == tenant && (is_undecided tenant ds r && leb r.expires_at now))
            rs)
disjoint-expiry tenant now ds [] = (tt, tt)
disjoint-expiry tenant now ds (r ∷ rs) = ground (arith, disjoint-expiry tenant now ds rs)

-- At any time the undecided requests of the tenant are split between the list of pending ones, which
-- expire later, and what a sweep takes up, which has expired: none is in both, and none in neither.
pub pending-sweep_expired :
    (tenant now : ℕ) (s : Session)
    → s.tenant ≡ some tenant
    → (waiting : List ApprovalRequest) × (lapsed : List ApprovalRequest) × (pending now s
        ≡ ok waiting)
      × (sweep_expired now s ≡ ok lapsed)
      × All (λ r. now < r.expires_at) waiting
      × All (λ r. r.expires_at ≤ now) lapsed
      × (length waiting + length lapsed ≡ length (open_requests tenant s))
unfolding pending sweep_expired
pending-sweep_expired tenant now s t =
    let (later, sooner) = disjoint-expiry tenant now s.working.decisions s.working.requests in
    (
      waiting_of tenant now s.working.decisions s.working.requests,
      expired_of tenant now s.working.decisions s.working.requests,
      ap {A = Option ℕ} {B = Reply (List ApprovalRequest)}
          (λ o. elim o [
            | none ↦ err no_tenant
            | some u ↦ ok (waiting_of u now s.working.decisions s.working.requests)
          ])
          t,
      ap {A = Option ℕ} {B = Reply (List ApprovalRequest)}
          (λ o. elim o [
            | none ↦ err no_tenant
            | some u ↦ ok (expired_of u now s.working.decisions s.working.requests)
          ])
          t,
      later,
      sooner,
      split-length tenant now s.working.decisions s.working.requests,
    )

any-waiting :
    (tenant trade now : ℕ) (ds : List ApprovalDecision) (rs : List ApprovalRequest)
    → any
        (λ r.
          r.tenant_id == tenant
          && (is_for trade r.trade_id
              && (str_eq r.action_type "exit"
                  && (is_undecided tenant ds r && ltb now r.expires_at))))
        rs
      ≡ any
          (λ r. is_for trade r.trade_id && str_eq r.action_type "exit")
          (waiting_of tenant now ds rs)
any-waiting tenant trade now ds [] = refl
any-waiting tenant trade now ds (r ∷ rs) = ground (arith, any-waiting tenant trade now ds rs)

-- The guard against a second exit request answers yes exactly when the list of pending requests
-- holds an exit of that trade.
pub has_pending_exit_for_trade-pending :
    (tenant trade now : ℕ) (s : Session)
    → s.tenant ≡ some tenant
    → (waiting : List ApprovalRequest) × (pending now s ≡ ok waiting)
      × (has_pending_exit_for_trade trade now s
          ≡ ok (any (λ r. is_for trade r.trade_id && str_eq r.action_type "exit") waiting))
unfolding pending has_pending_exit_for_trade
has_pending_exit_for_trade-pending tenant trade now s t = (
  waiting_of tenant now s.working.decisions s.working.requests,
  ap {A = Option ℕ} {B = Reply (List ApprovalRequest)}
      (λ o. elim o [
        | none ↦ err no_tenant
        | some u ↦ ok (waiting_of u now s.working.decisions s.working.requests)
      ])
      t,
  ap {A = Option ℕ} {B = Reply Bool}
        (λ o. elim o [
          | none ↦ err no_tenant
          | some u ↦ ok (
              any
                (λ r.
                  r.tenant_id == u
                  && (is_for trade r.trade_id
                      && (str_eq r.action_type "exit"
                          && (is_undecided u s.working.decisions r && ltb now r.expires_at))))
                s.working.requests)
        ])
        t
      ∙ ap ok (any-waiting tenant trade now s.working.decisions s.working.requests),
)
