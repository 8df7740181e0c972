-- ===== src/Approval/Tests.antt =====
-- The approval context at concrete inputs: a tenant with an entry and an exit to decide.
use iguanatrader.Approval.Store.{
  ApprovalRequest, ApprovalDecision, create_request, telegram, granted, get_request, rejected,
  timeout, dashboard, ok,
}
use iguanatrader.Approval.Once.{run, Call, IsOnce, create, decide, commit, sweep, run-IsOnce}
use iguanatrader.Common.{[], some, arith, refl, none, ◌⊎◌, List, ◌∷◌, ◌++◌, ◌≡◌, inr}
use iguanatrader.Approval.Service.{
  ProposalApproved, Service, event_for, sweep_event, approved, sweep_expired_requests,
}
use iguanatrader.Approval.Bridge.{bridge, proposal_rejected, close_trade_requested}
use iguanatrader.Approval.Bridge.Laws.{Warrants, bridge-Warrants, swept_exit}
use iguanatrader.Approval.Decide.{IsLate, IsSecond, IsFirst, record_decision_paths}
use iguanatrader.Approval.Sweep.{timeout_decisions, due, timed_out_all, sweep_expired_requests-All}

abbrev empty_service : Service
empty_service = record {
  session = record {
    committed = record { requests = []; decisions = [] };
    working = record { requests = []; decisions = [] };
    next_id = 0;
    tenant = some 1;
  };
  published = [];
}

abbrev asked : List Call
asked =
    create (some 71) ("telegram" ∷ []) 60 "entry" none 1000
    ∷ create none ("telegram" ∷ []) 60 "exit" (some 9) 1000
    ∷ commit
    ∷ []

abbrev waiting : Service
waiting = run asked empty_service

abbrev entry_request : ApprovalRequest
entry_request = record {
  id = 0;
  tenant_id = 1;
  proposal_id = some 71;
  delivered_to_channels = "telegram" ∷ [];
  timeout_seconds = 60;
  expires_at = 60001000;
  created_at = 1000;
  action_type = "entry";
  trade_id = none;
}

abbrev exit_request : ApprovalRequest
exit_request = record entry_request {
  id = 1;
  proposal_id = none;
  action_type = "exit";
  trade_id = some 9;
}

record_decision_paths_example :
    IsLate 0 granted telegram none (some 4) none 5000 waiting entry_request
    ⊎ (IsSecond 0 granted telegram none (some 4) none 5000 waiting entry_request
        ⊎ IsFirst 0 granted telegram none (some 4) none 5000 waiting entry_request)
unfolding create_request get_request
record_decision_paths_example =
    record_decision_paths 0 granted telegram none (some 4) none 5000 waiting entry_request 1 refl
      refl

run-IsOnce_example :
    IsOnce 0
      (run
        (asked
          ++ decide 0 granted telegram none (some 4) none 5000
            ∷ decide 0 rejected dashboard (some 3) none (some "no") 6000
            ∷ sweep 70000000
            ∷ commit
            ∷ [])
        empty_service).session
run-IsOnce_example =
    run-IsOnce 0
      (asked
        ++ decide 0 granted telegram none (some 4) none 5000
          ∷ decide 0 rejected dashboard (some 3) none (some "no") 6000
          ∷ sweep 70000000
          ∷ commit
          ∷ [])
      empty_service (omega arith, omega arith)

abbrev decision : ApprovalDecision
decision = record {
  id = 2;
  tenant_id = 1;
  request_id = 0;
  outcome = granted;
  decided_via_channel = telegram;
  decided_by_user_id = none;
  decided_by_sender_id = some 4;
  latency_ms = 4;
  created_at = 5000;
}

abbrev close_event : ProposalApproved
close_event = record {
  proposal_id = none;
  decision_id = 2;
  decided_at = 5000;
  decided_by_user_id = none;
  decided_via_channel = telegram;
  tenant_id = 1;
  action_type = "exit";
  trade_id = some 9;
}

bridge-Warrants_example : Warrants (approved close_event) (close_trade_requested 1 9)
unfolding bridge
bridge-Warrants_example =
    bridge-Warrants (some 1) (approved close_event) (close_trade_requested 1 9) refl

swept_exit_example :
    (bridge (some 1) (sweep_event exit_request)
      ≡ some (proposal_rejected 1 none "approval_timeout"))
    × (bridge (some 1) (event_for exit_request decision timeout 5000 none) ≡ none)
swept_exit_example = swept_exit 1 exit_request decision 5000 refl refl

sweep_expired_requests-All_example : sweep_expired_requests 70000000 waiting ≡ (
  ok (timeout_decisions 1 70000000 (due 1 70000000 waiting.session) 2),
  timed_out_all 1 70000000 (due 1 70000000 waiting.session) waiting,
)
unfolding create_request
sweep_expired_requests-All_example =
    sweep_expired_requests-All 1 70000000 waiting refl (refl, (refl, tt)) (inr refl, (inr refl, tt))
