-- ===== src/Shared/Tests.antt =====
-- The bus with two subscribers of one class, the second idempotent with a window of two keys.
use iguanatrader.Shared.Bus.{Event, Subscription, new_subscription}
use iguanatrader.Shared.Bus.Fifo.{
  run, nth, Step, turn, lift_option, immune, publication, run_local, is_immune, nth-run, offers,
  run-fifo,
}
use iguanatrader.Common.{
  String, filter, List, ◌≡◌, none, true, false, [], arith, ◌++◌, some, refl, ◌∷◌,
}
use iguanatrader.Shared.Bus.Dedup.{delivered_once}
use iguanatrader.Shared.Bus.Race.{handled_twice}

abbrev tick : String → Event
tick k = record { event_type = 1; idempotency_key = some k }

abbrev unkeyed : Event
unkeyed = record { event_type = 1; idempotency_key = none }

abbrev plain_subscriber : Subscription
plain_subscriber = new_subscription 1 false 1000

abbrev once_subscriber : Subscription
once_subscriber = new_subscription 1 true 2

abbrev subscribers : List Subscription
subscribers = plain_subscriber ∷ once_subscriber ∷ []

abbrev trace : List Step
trace =
    publication (tick "a")
    ∷ publication unkeyed
    ∷ turn 1 true
    ∷ turn 0 false
    ∷ publication (tick "a")
    ∷ turn 1 false
    ∷ []

run-fifo_example :
    (sub' : Subscription) × (nth 1 (run trace subscribers) ≡ some sub')
    × (immune sub' ≡ immune once_subscriber ++ filter (is_immune true) (offers 1 trace))
run-fifo_example = run-fifo 1 trace subscribers once_subscriber refl

nth-run_example :
    nth 1 (run trace subscribers) ≡ lift_option (run_local 1 trace) (nth 1 subscribers)
nth-run_example = nth-run 1 trace subscribers

abbrev waiting_subscriber : Subscription
waiting_subscriber = record once_subscriber { queue = tick "a" ∷ tick "b" ∷ [] }

delivered_once_example :
    nth 0 (
      run
        (turn 0 true ∷ (turn 0 true ∷ []) ++ publication (tick "a") ∷ [])
        (waiting_subscriber ∷ []))
    ≡ nth 0 (run (turn 0 true ∷ turn 0 true ∷ []) (waiting_subscriber ∷ []))
delivered_once_example =
    delivered_once 0 (turn 0 true ∷ []) (waiting_subscriber ∷ []) waiting_subscriber (tick "a")
      (tick "b" ∷ []) "a" (tick "a") refl
      (record { distinct = tt; bounded = omega arith; same = λ k. refl }) refl refl refl refl
      (omega arith) refl

handled_twice_example :
    (sub' : Subscription) × (nth 1 (
        run
          (publication (tick "a") ∷ publication (tick "a") ∷ turn 1 true ∷ turn 1 true ∷ [])
          subscribers)
      ≡ some sub')
    × (sub'.handled ≡ tick "a" ∷ tick "a" ∷ [])
handled_twice_example =
    handled_twice 1 subscribers once_subscriber (tick "a") "a" refl refl refl refl refl refl
