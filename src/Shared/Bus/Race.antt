-- ===== src/Shared/Bus/Race.antt =====
-- Duplicates that are published before the worker's turn.
use iguanatrader.Shared.Bus.{
  Event, Subscription, accept, is_duplicate, deliver, has_key, deliver_from,
}
use iguanatrader.Common.{
  ◌≡◌, ℕ, true, [], false, ◌++◌, some, ◌∷◌, String, refl, List, arith, ◌∙◌, ap, append_assoc,
}
use iguanatrader.Shared.Bus.Fifo.{
  nth, run, publication, run_local, turn, nth-run, after_handler-taken, local,
}
use iguanatrader.Shared.Bus.Dedup.{turn-deliver}

deliver-first :
    (event : Event) (rest : List Event) (sub : Subscription)
    → sub.queue ≡ event ∷ rest
    → ((deliver true sub).queue ≡ rest) × ((deliver true sub).handled ≡ sub.handled ++ event ∷ [])
unfolding deliver deliver_from
deliver-first event rest sub q =
    let kept =
      after_handler-taken true event
        (record sub { queue = rest; handled = sub.handled ++ event ∷ [] }) in
    rw q (kept.1, kept.2)

accepted :
    (n : ℕ) (event : Event) (k : String) (sub : Subscription)
    → sub.event_type ≡ event.event_type
    → event.idempotency_key ≡ some k
    → has_key k sub.recent_keys_set ≡ false
    → local n (publication event) sub ≡ record sub { queue = sub.queue ++ event ∷ [] }
unfolding accept is_duplicate
accepted n event k sub t e new = ground arith

twice-local :
    (n : ℕ) (event : Event) (k : String) (sub : Subscription)
    → sub.event_type ≡ event.event_type
    → event.idempotency_key ≡ some k
    → sub.queue ≡ []
    → has_key k sub.recent_keys_set ≡ false
    → (run_local n
        (publication event ∷ publication event ∷ turn n true ∷ turn n true ∷ [])
        sub).handled
      ≡ sub.handled ++ event ∷ event ∷ []
twice-local n event k sub t e q new =
    let one : Subscription = record sub { queue = sub.queue ++ event ∷ [] } in
    let two : Subscription = record one { queue = one.queue ++ event ∷ [] } in
    let first = deliver-first event (event ∷ []) two (rw q refl) in
    let second = deliver-first event [] (deliver true two) first.0 in
    rw
      (
        accepted n event k sub t e new,
        accepted n event k one t e new,
        turn-deliver n two,
        turn-deliver n (deliver true two),
      )
      (second.1
        ∙ (ap (λ h. h ++ event ∷ []) first.1 ∙ append_assoc sub.handled (event ∷ []) (event ∷ [])))

-- Two publications of one event with a new key that reach an idempotent subscriber's empty queue
-- before its worker takes the first are both handled.
pub handled_twice :
    (n : ℕ) (subs : List Subscription) (sub : Subscription) (event : Event) (k : String)
    → nth n subs ≡ some sub
    → sub.event_type ≡ event.event_type
    → sub.idempotent ≡ true
    → event.idempotency_key ≡ some k
    → sub.queue ≡ []
    → has_key k sub.recent_keys_set ≡ false
    → (sub' : Subscription) × (nth n
          (run (publication event ∷ publication event ∷ turn n true ∷ turn n true ∷ []) subs)
        ≡ some sub')
      × (sub'.handled ≡ sub.handled ++ event ∷ event ∷ [])
handled_twice n subs sub event k at t i e q new =
    let trace = publication event ∷ publication event ∷ turn n true ∷ turn n true ∷ [] in
    (run_local n trace sub, rw (nth-run n trace subs, at) refl, twice-local n event k sub t e q new)
