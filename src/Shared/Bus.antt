-- ===== src/Shared/Bus.antt =====
-- shared/messagebus.py: the subscriptions of a bus, publication, and the workers. A step of a worker
-- takes one event from its queue and calls the handler, whose outcome the step carries.
use iguanatrader.Common.{
  true, ◌++◌, false, none, ◌==◌, ℕ, suc, not, ltb, ◌∷◌, some, String, List, str_eq, [],
  if◌then◌else◌, Option, Bool, length, any, filter, ◌&&◌, zero,
}
pub mod Window
pub mod Dedup
pub mod Race
pub mod Fifo

-- An event, with the number of its class.
pub record Event : Type 0 where
  pub event_type : ℕ
  pub idempotency_key : Option String

-- `Subscription`; `handled` is the list of the handler's calls, oldest first, the failed ones too.
pub record Subscription : Type 0 where
  pub event_type : ℕ
  pub queue : List Event
  pub idempotent : Bool
  pub dedup_window : ℕ
  pub recent_keys : List String
  pub recent_keys_set : List String
  pub handled : List Event

-- membership in the deque, and in the set
abbrev pub has_key : String → List String → Bool
has_key k = any (λ j. str_eq j k)

-- `set.discard`
abbrev pub discard : String → List String → List String
discard k = filter (λ j. not (str_eq j k))

-- the `while` loop of `_record_key`: the oldest keys go until the window is met
unfoldable pub evict : ℕ → List String → List String → List String × List String
evict window [] set = ([], set)
evict window (k ∷ ks) set =
    let rest = evict window ks (discard k set) in
    if ltb window (length (k ∷ ks)) then rest else (k ∷ ks, set)

unfoldable pub record_key : String → Subscription → Subscription
unfolding evict
record_key key sub =
    let kept = evict sub.dedup_window (sub.recent_keys ++ key ∷ []) (key ∷ sub.recent_keys_set) in
    if has_key key sub.recent_keys_set
    then sub
    else record sub { recent_keys = kept.0; recent_keys_set = kept.1 }

abbrev pub has_seen : String → Subscription → Bool
has_seen key sub = has_key key sub.recent_keys_set

-- `sub.idempotent and event.idempotency_key is not None and sub._has_seen(...)`
unfoldable pub is_duplicate : Event → Subscription → Bool
is_duplicate event sub = elim event.idempotency_key [
  | none ↦ false
  | some key ↦ sub.idempotent && has_seen key sub
]

-- the body of the loop of `publish`, for one subscription of the bucket
unfoldable pub accept : Event → Subscription → Subscription
unfolding is_duplicate
accept event sub =
    if is_duplicate event sub then sub else record sub { queue = sub.queue ++ event ∷ [] }

-- `if sub.idempotent and event.idempotency_key is not None`
unfoldable pub record_event : Bool → Option String → Subscription → Subscription
unfolding record_key
record_event false key sub = sub
record_event true none sub = sub
record_event true (some key) sub = record_key key sub

-- what follows the call of the handler
unfoldable pub after_handler : Bool → Event → Subscription → Subscription
unfolding record_event
after_handler false event sub = sub
after_handler true event sub = record_event sub.idempotent event.idempotency_key sub

-- one turn of `_worker`: with an empty queue it waits
unfoldable pub deliver_from : List Event → Bool → Subscription → Subscription
unfolding after_handler
deliver_from [] succeeds sub = sub
deliver_from (event ∷ rest) succeeds sub =
    after_handler succeeds event (record sub { queue = rest; handled = sub.handled ++ event ∷ [] })

unfoldable pub deliver : Bool → Subscription → Subscription
unfolding deliver_from
deliver succeeds sub = deliver_from sub.queue succeeds sub

-- The bus: its subscriptions in the order of registration.
pub record Bus : Type 0 where
  pub subscriptions : List Subscription
  pub is_closed : Bool

pub data Reply : Type 0 where
  done closed_error : Reply

abbrev pub new_subscription : ℕ → Bool → ℕ → Subscription
new_subscription event_type idempotent dedup_window = record {
  event_type = event_type;
  queue = [];
  idempotent = idempotent;
  dedup_window = dedup_window;
  recent_keys = [];
  recent_keys_set = [];
  handled = [];
}

unfoldable pub subscribe : ℕ → Bool → ℕ → Bus → Reply × Bus
subscribe event_type idempotent dedup_window bus = if bus.is_closed then (closed_error, bus) else (
  done,
  record bus {
    subscriptions = bus.subscriptions ++ new_subscription event_type idempotent dedup_window ∷ [];
  },
)

abbrev pub without_nth : ℕ → List Subscription → List Subscription
without_nth n [] = []
without_nth zero (sub ∷ subs) = subs
without_nth (suc n) (sub ∷ subs) = sub ∷ without_nth n subs

-- The subscription leaves the routing with its queue, and its worker is cancelled.
unfoldable pub unsubscribe : ℕ → Bus → Bus
unsubscribe n bus = record bus { subscriptions = without_nth n bus.subscriptions }

unfoldable pub fan_out : Event → List Subscription → List Subscription
unfolding accept
fan_out event [] = []
fan_out event (sub ∷ subs) =
    (if sub.event_type == event.event_type then accept event sub else sub) ∷ fan_out event subs

-- With the outbox of a unit of work, the event is buffered; without one, it is fanned out.
unfoldable pub publish : Event → Option (List Event) → Bus → Reply × Option (List Event) × Bus
unfolding fan_out
publish event outbox bus = if bus.is_closed then (closed_error, outbox, bus) else elim outbox [
  | some buffered ↦ (done, some (buffered ++ event ∷ []), bus)
  | none ↦ (done, none, record bus { subscriptions = fan_out event bus.subscriptions })
]

-- the worker of the `n`-th subscription
unfoldable pub work_on : ℕ → Bool → List Subscription → List Subscription
unfolding deliver
work_on n succeeds [] = []
work_on zero succeeds (sub ∷ subs) = deliver succeeds sub ∷ subs
work_on (suc n) succeeds (sub ∷ subs) = sub ∷ work_on n succeeds subs

unfoldable pub aclose : Bus → Bus
aclose bus = if bus.is_closed then bus else record { subscriptions = []; is_closed = true }
