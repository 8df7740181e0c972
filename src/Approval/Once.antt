-- ===== src/Approval/Once.antt =====
-- First decision wins: over any calls, a request has one decision at most.
use iguanatrader.Approval.Store.{
  ApprovalRequest, DecisionOutcome, ChannelKind, ApprovalDecision, Session, Reply, ok, err,
  has_decision, create_request, get_request, insert_decision, sweep_expired, timeout,
  timeout_channel,
}
use iguanatrader.Approval.Service.{
  Service, decide_on, record_decision, sweep_each, sweep_expired_requests, latency, sweep_found,
  Event, decide_found, published_after, is_human, sweep_event,
}
use iguanatrader.Common.{
  length, ◌∷◌, arith, false, Bool-cases, ◌≡◌, refl, filter, ◌≤◌, String, [], Option, List, inl,
  ◌==◌, ==_iff, ℕ, inr, leb, none, ◌&&◌, some,
}

-- One call of the service, or the commit at the end of a request's transaction.
pub data Call : Type 0 where
  create : Option ℕ → List String → ℕ → String → Option ℕ → ℕ → Call
  decide : ℕ → DecisionOutcome → ChannelKind → Option ℕ → Option ℕ → Option String → ℕ → Call
  sweep : ℕ → Call
  commit : Call

abbrev pub perform : Call → Service → Service
perform (create p channels seconds action trade now) svc = record svc {
  session = (create_request p channels seconds action trade now svc.session).1;
}
perform (decide id outcome channel user sender reason now) svc =
    (record_decision id outcome channel user sender reason now svc).1
perform (sweep now) svc = (sweep_expired_requests now svc).1
perform commit svc = record svc {
  session = record (svc.session) { committed = svc.session.working };
}

abbrev pub run : List Call → Service → Service
run [] svc = svc
run (c ∷ cs) svc = run cs (perform c svc)

abbrev pub decisions_of : ℕ → List ApprovalDecision → ℕ
decisions_of id ds = length (filter (λ d. d.request_id == id) ds)

-- One decision at most, in the open transaction and in what is committed.
abbrev pub IsOnce : ℕ → Session → Type 0
IsOnce id s =
    (decisions_of id s.working.decisions ≤ 1) × (decisions_of id s.committed.decisions ≤ 1)

undecided-count :
    (id : ℕ) (ds : List ApprovalDecision) → has_decision id ds ≡ false → decisions_of id ds ≡ 0
undecided-count id [] h = refl
undecided-count id (d ∷ ds) h = ground (arith, undecided-count id ds)

insert_decision-IsOnce :
    (id request_id : ℕ) (outcome : DecisionOutcome) (channel : ChannelKind) (user sender : Option ℕ)
    (latency_ms now : ℕ) (s : Session)
    → IsOnce id s
    → IsOnce id (insert_decision request_id outcome channel user sender latency_ms now s).1
unfolding insert_decision
insert_decision-IsOnce id request_id outcome channel user sender latency_ms now s h =
    elim (Bool-cases (request_id == id)) [
      | inl e ↦ ground (arith, undecided-count id s.working.decisions, ==_iff request_id id)
      | inr e ↦ ground arith
    ]

published_after-session :
    (r : ApprovalRequest) (outcome : DecisionOutcome) (now : ℕ) (reason : Option String)
    (done : Reply ApprovalDecision) (s : Session) (events : List Event)
    → (published_after r outcome now reason (done, s) events).1.session ≡ s
published_after-session r outcome now reason (ok d) s events = refl
published_after-session r outcome now reason (err e) s events = refl

decide_on-IsOnce :
    (id : ℕ) (r : ApprovalRequest) (outcome : DecisionOutcome) (channel : ChannelKind)
    (user sender : Option ℕ) (reason : Option String) (now : ℕ) (svc : Service)
    → IsOnce id svc.session
    → IsOnce id (decide_on r outcome channel user sender reason now svc).1.session
unfolding decide_on
decide_on-IsOnce id r outcome channel user sender reason now svc h =
    let inserted =
      insert_decision r.id outcome channel user sender (latency now r.created_at) now svc.session in
    let kept =
      insert_decision-IsOnce id r.id outcome channel user sender (latency now r.created_at) now
        svc.session h in
    elim (Bool-cases (is_human outcome && leb r.expires_at now)) [
      | inl late ↦ rw late h
      | inr open_still ↦
          rw
            (
              open_still,
              published_after-session r outcome now reason inserted.0 inserted.1 svc.published,
            )
            kept
    ]

record_decision-IsOnce :
    (id request_id : ℕ) (outcome : DecisionOutcome) (channel : ChannelKind) (user sender : Option ℕ)
    (reason : Option String) (now : ℕ) (svc : Service)
    → IsOnce id svc.session
    → IsOnce id (record_decision request_id outcome channel user sender reason now svc).1.session
unfolding record_decision
record_decision-IsOnce id request_id outcome channel user sender reason now svc h =
    elim (get_request request_id svc.session)
      as (λ g. IsOnce id (decide_found g outcome channel user sender reason now svc).1.session) [
        | err e ↦ h
        | ok found ↦
            elim found
              as (λ f.
                IsOnce id
                  (decide_found (ok f) outcome channel user sender reason now svc).1.session) [
                    | none ↦ h
                    | some r ↦ decide_on-IsOnce id r outcome channel user sender reason now svc h
                  ]
      ]

sweep_each-IsOnce :
    (id : ℕ) (rs : List ApprovalRequest) (now : ℕ) (svc : Service)
    → IsOnce id svc.session
    → IsOnce id (sweep_each rs now svc).1.session
unfolding sweep_each
sweep_each-IsOnce id [] now svc h = h
sweep_each-IsOnce id (r ∷ rs) now svc h =
    let inserted =
      insert_decision r.id timeout timeout_channel none none (latency r.expires_at r.created_at) now
        svc.session in
    ground (
      arith,
      insert_decision-IsOnce id r.id timeout timeout_channel none none
          (latency r.expires_at r.created_at) now svc.session h,
      sweep_each-IsOnce id rs now
          (record { session = inserted.1; published = sweep_event r ∷ svc.published }),
    )

sweep-IsOnce :
    (id now : ℕ) (svc : Service)
    → IsOnce id svc.session
    → IsOnce id (sweep_expired_requests now svc).1.session
unfolding sweep_expired_requests
sweep-IsOnce id now svc h =
    elim (sweep_expired now svc.session) as (λ g. IsOnce id (sweep_found g now svc).1.session) [
      | err e ↦ h
      | ok rows ↦ sweep_each-IsOnce id rows now svc h
    ]

create-IsOnce :
    (id : ℕ) (p : Option ℕ) (channels : List String) (seconds : ℕ) (action : String)
    (trade : Option ℕ) (now : ℕ) (s : Session)
    → IsOnce id s
    → IsOnce id (create_request p channels seconds action trade now s).1
unfolding create_request
create-IsOnce id p channels seconds action trade now s h = ground arith

perform-IsOnce :
    (id : ℕ) (c : Call) (svc : Service) → IsOnce id svc.session → IsOnce id (perform c svc).session
perform-IsOnce id (create p channels seconds action trade now) svc h =
    create-IsOnce id p channels seconds action trade now svc.session h
perform-IsOnce id (decide request_id outcome channel user sender reason now) svc h =
    record_decision-IsOnce id request_id outcome channel user sender reason now svc h
perform-IsOnce id (sweep now) svc h = sweep-IsOnce id now svc h
perform-IsOnce id commit svc h = (h.0, h.0)

-- Whatever is created, decided, swept and committed, in any order: a request that has one decision
-- at most, in the open transaction and in what is committed, never comes to have two.
pub run-IsOnce :
    (id : ℕ) (cs : List Call) (svc : Service)
    → IsOnce id svc.session
    → IsOnce id (run cs svc).session
run-IsOnce id [] svc h = h
run-IsOnce id (c ∷ cs) svc h = run-IsOnce id cs (perform c svc) (perform-IsOnce id c svc h)
