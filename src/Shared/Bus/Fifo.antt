-- ===== src/Shared/Bus/Fifo.antt =====
-- Subscribers are independent of each other, and each is served in order.
use iguanatrader.Common.{
  ap, zero, [], suc, ◌∷◌, ◌∙◌, ℕ, ◌≡◌, some, List, arith, ◌==◌, filter, Option, refl, if◌then◌else◌,
  none, true, false, ◌++◌, Bool, inr, Bool-cases, append_assoc, Option-cases, inl, append-nil,
  filter-append, String, sym,
}
use iguanatrader.Shared.Bus.{
  fan_out, Subscription, Event, accept, work_on, deliver, after_handler, deliver_from, is_duplicate,
  record_key, record_event,
}

-- What can happen on an open bus outside a unit of work: a publication, or a turn of one worker,
-- whose handler returns or raises.
pub data Step : Type 0 where
  publication : Event → Step
  turn : ℕ → Bool → Step

abbrev pub perform : Step → List Subscription → List Subscription
perform (publication event) subs = fan_out event subs
perform (turn n succeeds) subs = work_on n succeeds subs

abbrev pub run : List Step → List Subscription → List Subscription
run [] subs = subs
run (s ∷ ss) subs = run ss (perform s subs)

-- the `n`-th subscription
abbrev pub nth : ℕ → List Subscription → Option Subscription
nth n [] = none
nth zero (sub ∷ subs) = some sub
nth (suc n) (sub ∷ subs) = nth n subs

-- A step, as the `n`-th subscriber alone sees it.
abbrev pub local : ℕ → Step → Subscription → Subscription
local n (publication event) sub =
    if sub.event_type == event.event_type then accept event sub else sub
local n (turn m succeeds) sub = if m == n then deliver succeeds sub else sub

abbrev pub run_local : ℕ → List Step → Subscription → Subscription
run_local n [] sub = sub
run_local n (s ∷ ss) sub = run_local n ss (local n s sub)

abbrev pub lift_option : (Subscription → Subscription) → Option Subscription → Option Subscription
lift_option f none = none
lift_option f (some sub) = some (f sub)

nth-perform :
    (n : ℕ) (s : Step) (subs : List Subscription)
    → nth n (perform s subs) ≡ lift_option (local n s) (nth n subs)
unfolding fan_out work_on
nth-perform n (publication event) [] = refl
nth-perform zero (publication event) (sub ∷ subs) = refl
nth-perform (suc n) (publication event) (sub ∷ subs) = nth-perform n (publication event) subs
nth-perform n (turn m succeeds) [] = refl
nth-perform zero (turn zero succeeds) (sub ∷ subs) = refl
nth-perform zero (turn (suc m) succeeds) (sub ∷ subs) = ground arith
nth-perform (suc n) (turn zero succeeds) (sub ∷ subs) = ground arith
nth-perform (suc n) (turn (suc m) succeeds) (sub ∷ subs) =
    ground (arith, nth-perform n (turn m succeeds) subs)

lift_option-twice :
    (f g : Subscription → Subscription) (o : Option Subscription)
    → lift_option f (lift_option g o) ≡ lift_option (λ sub. f (g sub)) o
lift_option-twice f g none = refl
lift_option-twice f g (some sub) = refl

-- After any steps of all publishers and workers, a subscriber is exactly where it would be if it
-- were alone: what the other handlers do, and whether they fail, never shows.
pub nth-run :
    (n : ℕ) (ss : List Step) (subs : List Subscription)
    → nth n (run ss subs) ≡ lift_option (run_local n ss) (nth n subs)
nth-run n [] subs = ground arith
nth-run n (s ∷ ss) subs =
    nth-run n ss (perform s subs)
    ∙ (ap (lift_option (run_local n ss)) (nth-perform n s subs)
        ∙ lift_option-twice (run_local n ss) (local n s) (nth n subs))

-- the events of a class that a trace publishes, in order
abbrev pub offers : ℕ → List Step → List Event
offers t [] = []
offers t (publication event ∷ ss) =
    if t == event.event_type then event ∷ offers t ss else offers t ss
offers t (turn m succeeds ∷ ss) = offers t ss

-- An event that the subscriber never drops: it takes every event, or the event has no key.
abbrev pub is_immune : Bool → Event → Bool
is_immune false event = true
is_immune true event = elim event.idempotency_key [ none ↦ true | some key ↦ false ]

-- What has been handled and what is still queued, in order.
abbrev pub taken : Subscription → List Event
taken sub = sub.handled ++ sub.queue

abbrev pub immune : Subscription → List Event
immune sub = filter (is_immune sub.idempotent) (taken sub)

-- what a step does not change of a subscription
abbrev SameClass : Subscription → Subscription → Type 0
SameClass sub sub' =
    (sub'.idempotent ≡ sub.idempotent)
    × (sub'.event_type ≡ sub.event_type)
    × (sub'.dedup_window ≡ sub.dedup_window)

record_event-taken :
    (idempotent : Bool) (key : Option String) (sub : Subscription)
    → SameClass sub (record_event idempotent key sub)
      × ((record_event idempotent key sub).queue ≡ sub.queue)
      × ((record_event idempotent key sub).handled ≡ sub.handled)
unfolding record_event record_key
record_event-taken false key sub = ground arith
record_event-taken true none sub = ground arith
record_event-taken true (some k) sub = ground arith

pub after_handler-taken :
    (succeeds : Bool) (event : Event) (sub : Subscription)
    → SameClass sub (after_handler succeeds event sub)
      × ((after_handler succeeds event sub).queue ≡ sub.queue)
      × ((after_handler succeeds event sub).handled ≡ sub.handled)
unfolding after_handler
after_handler-taken false event sub = ground arith
after_handler-taken true event sub = record_event-taken sub.idempotent event.idempotency_key sub

pub deliver_from-taken :
    (queue : List Event) (succeeds : Bool) (sub : Subscription)
    → sub.queue ≡ queue
    → SameClass sub (deliver_from queue succeeds sub)
      × (taken (deliver_from queue succeeds sub) ≡ taken sub)
unfolding deliver_from
deliver_from-taken [] succeeds sub h = ground arith
deliver_from-taken (event ∷ rest) succeeds sub h =
    let moved : Subscription = record sub { queue = rest; handled = sub.handled ++ event ∷ [] } in
    ground
      (arith, after_handler-taken succeeds event moved, append_assoc sub.handled (event ∷ []) rest)

enqueued-immune :
    (event : Event) (sub : Subscription)
    → immune (record sub { queue = sub.queue ++ event ∷ [] })
      ≡ immune sub ++ filter (is_immune sub.idempotent) (event ∷ [])
enqueued-immune event sub =
    rw (sym (append_assoc sub.handled sub.queue (event ∷ [])))
      (filter-append (is_immune sub.idempotent) (sub.handled ++ sub.queue) (event ∷ []))

keyed-immune :
    (b : Bool) (event : Event) (k : String)
    → b ≡ true
    → event.idempotency_key ≡ some k
    → is_immune b event ≡ false
keyed-immune false event k h e = ground arith
keyed-immune true event k h e = rw e refl

duplicate-immune :
    (event : Event) (sub : Subscription)
    → is_duplicate event sub ≡ true
    → is_immune sub.idempotent event ≡ false
unfolding is_duplicate
duplicate-immune event sub h = elim (Option-cases event.idempotency_key) [
  | inl e ↦ ground arith
  | inr (k, e) ↦ ground (arith, keyed-immune sub.idempotent event k)
]

accept-immune :
    (event : Event) (sub : Subscription)
    → SameClass sub (accept event sub)
      × (immune (accept event sub) ≡ immune sub ++ filter (is_immune sub.idempotent) (event ∷ []))
unfolding accept
accept-immune event sub = elim (Bool-cases (is_duplicate event sub)) [
  | inl d ↦ rw (d, duplicate-immune event sub d) ((refl, refl, refl), sym (append-nil (immune sub)))
  | inr d ↦ rw d ((refl, refl, refl), enqueued-immune event sub)
]

pub local-immune :
    (n : ℕ) (s : Step) (sub : Subscription)
    → SameClass sub (local n s sub)
      × (immune (local n s sub)
          ≡ immune sub ++ filter (is_immune sub.idempotent) (offers sub.event_type (s ∷ [])))
unfolding deliver
local-immune n (publication event) sub = elim (Bool-cases (sub.event_type == event.event_type)) [
  | inl e ↦ rw e (accept-immune event sub)
  | inr e ↦ rw e ((refl, refl, refl), sym (append-nil (immune sub)))
]
local-immune n (turn m succeeds) sub =
    ground (arith, deliver_from-taken sub.queue succeeds sub refl, append-nil (immune sub))

run_local-immune :
    (n : ℕ) (ss : List Step) (sub : Subscription)
    → immune (run_local n ss sub)
      ≡ immune sub ++ filter (is_immune sub.idempotent) (offers sub.event_type ss)
run_local-immune n [] sub = sym (append-nil (immune sub))
run_local-immune n (publication event ∷ ss) sub =
    let (same, one) = local-immune n (publication event) sub in
    ground (
      arith,
      same,
      one,
      run_local-immune n ss (local n (publication event) sub),
      append_assoc (immune sub)
          (filter (is_immune sub.idempotent) (offers sub.event_type (publication event ∷ [])))
          (filter (is_immune sub.idempotent) (offers sub.event_type ss)),
    )
run_local-immune n (turn m succeeds ∷ ss) sub =
    let (same, one) = local-immune n (turn m succeeds) sub in
    ground (
      arith,
      same,
      one,
      append-nil (immune sub),
      run_local-immune n ss (local n (turn m succeeds) sub),
    )

-- After any steps, what a subscriber has handled and what waits in its queue are together, in
-- order, what it had and then every event of its class that was published: no event is lost, added
-- or reordered, whatever handlers raise. For an idempotent subscriber this holds of the events
-- without a key.
pub run-fifo :
    (n : ℕ) (ss : List Step) (subs : List Subscription) (sub : Subscription)
    → nth n subs ≡ some sub
    → (sub' : Subscription) × (nth n (run ss subs) ≡ some sub')
      × (immune sub' ≡ immune sub ++ filter (is_immune sub.idempotent) (offers sub.event_type ss))
run-fifo n ss subs sub h =
    (run_local n ss sub, rw (nth-run n ss subs, h) refl, run_local-immune n ss sub)
