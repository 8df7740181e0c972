-- ===== src/Approval/CommandTests.antt =====
-- The dispatcher with two commands, one for admins and one that a pause blocks.
use iguanatrader.Approval.Commands.{
  IncomingCommand, admin, user, request, payload, done, dispatch, Status, Dispatcher, CommandSpec,
  idempotency_check,
}
use iguanatrader.Approval.Commands.Dispatch.{step, Admitted, dispatch-Admitted}
use iguanatrader.Approval.Commands.Repeats.{run, dispatched_once}
use iguanatrader.Common.{
  ℕ, String, if◌then◌else◌, true, Option, ◌==◌, ◌∷◌, none, false, List, ◌⊎◌, str_eq, refl, [], ◌≡◌,
  some, Bool, arith,
}

abbrev halt_spec : CommandSpec
halt_spec = record {
  name = "/halt";
  required_role = admin;
  idempotency_key_source = payload;
  blocked_when_paused = false;
}

abbrev approve_spec : CommandSpec
approve_spec = record {
  name = "/approve";
  required_role = user;
  idempotency_key_source = request;
  blocked_when_paused = true;
}

abbrev registry : String → Option CommandSpec
registry name =
    if str_eq name "/halt"
    then some halt_spec
    else if str_eq name "/approve"
    then some approve_spec
    else none

abbrev never_paused : ℕ → Bool
never_paused tenant = false

abbrev carry_out : IncomingCommand → Status
carry_out incoming = done

abbrev show_id : ℕ → String
show_id n = if n == 0 then "0" else if n == 1 then "1" else "2"

abbrev last_part : List String → String
last_part [] = ""
last_part (p ∷ []) = p
last_part (p ∷ q ∷ ps) = last_part (q ∷ ps)

abbrev approve : ℕ → IncomingCommand
approve id = record {
  command_name = "/approve";
  raw_args = "";
  sender_external_id = "55";
  tenant_id = 1;
  request_id = some id;
  role = user;
}

abbrev idle : Dispatcher
idle = record { recent_keys = []; recent_keys_set = []; handled = [] }

dispatch-Admitted_example :
    ((step registry never_paused carry_out show_id last_part (approve 2) 100 idle).1 ≡ idle)
    ⊎ Admitted registry never_paused carry_out show_id last_part (approve 2) 100 idle
dispatch-Admitted_example =
    dispatch-Admitted registry never_paused carry_out show_id last_part (approve 2) 100 idle

dispatched_once_example :
    let after =
      run registry never_paused carry_out show_id last_part
        ((approve 2, 100) ∷ (approve 1, 101) ∷ [])
        idle in
    (step registry never_paused carry_out show_id last_part (approve 2) 102 after).1 ≡ after
unfolding dispatch idempotency_check
dispatched_once_example =
    dispatched_once registry never_paused carry_out show_id last_part (approve 2) 100 idle
      approve_spec "2" ((approve 1, 101) ∷ []) (approve 2) 102 approve_spec
      (record { bound = omega arith; same = λ k. refl }) refl refl refl (omega arith) refl refl
