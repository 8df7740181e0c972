-- ===== src/Shared/Bus/Window.antt =====
-- The window of recent keys: the deque and the set beside it agree, and what they suppress.
use iguanatrader.Shared.Bus.{
  Event, Subscription, record_key, has_key, evict, discard, accept, after_handler, deliver_from,
  deliver, is_duplicate, record_event,
}
use iguanatrader.Common.{
  inl, false, ltb, ◌≡◌, Bool-cases, arith, eq_iff, length, inr, not, any-append, ◌&&◌, ℕ, str_eq,
  String, ◌∷◌, ◌≤◌, List, [], ◌++◌, refl, ◌==◌, Bool, true, Option, none, some,
}
use iguanatrader.Shared.Bus.Fifo.{Step, local, run_local, publication, turn, nth, run, nth-run}

abbrev pub Distinct : List String → Type 0
Distinct [] = Unit
Distinct (k ∷ ks) = (has_key k ks ≡ false) × Distinct ks

-- The deque holds no key twice and no more than the window; the set holds the same keys.
pub record IsWindow (sub : Subscription) : Type 0 where
  pub distinct : Distinct sub.recent_keys
  pub bounded : length sub.recent_keys ≤ sub.dedup_window
  pub same : (k : String) → has_key k sub.recent_keys_set ≡ has_key k sub.recent_keys

has_key-discard :
    (k j : String) (ks : List String)
    → has_key k (discard j ks) ≡ (not (str_eq j k) && has_key k ks)
has_key-discard k j [] = ground arith
has_key-discard k j (i ∷ ks) =
    ground (arith, eq_iff i j, eq_iff i k, eq_iff j k, has_key-discard k j ks)

-- The loop leaves a window that fits, and the set that goes with it.
evict-window :
    (window : ℕ) (ks set : List String)
    → Distinct ks
    → ((k : String) → has_key k set ≡ has_key k ks)
    → Distinct (evict window ks set).0
      × (length (evict window ks set).0 ≤ window)
      × ((k : String) → has_key k (evict window ks set).1 ≡ has_key k (evict window ks set).0)
unfolding evict
evict-window window [] set d h = (tt, omega arith, h)
evict-window window (j ∷ ks) set d h = elim (Bool-cases (ltb window (length (j ∷ ks)))) [
  | inl over ↦ rw over (
      evict-window window ks (discard j set) d.1
        (λ k. ground (arith, has_key-discard k j set, h k, d.0, eq_iff j k)))
  | inr fits ↦ rw fits (d, ground arith, h)
]

Distinct-append :
    (ks : List String) (k : String) → Distinct ks → has_key k ks ≡ false → Distinct (ks ++ k ∷ [])
Distinct-append [] k d h = (refl, tt)
Distinct-append (j ∷ ks) k d h = (
  ground (arith, any-append (λ i. str_eq i j) ks (k ∷ []), d.0, eq_iff k j, eq_iff j k),
  Distinct-append ks k d.1 (ground arith),
)

pub record_key-IsWindow :
    (key : String) (sub : Subscription) → IsWindow sub → IsWindow (record_key key sub)
unfolding record_key
record_key-IsWindow key sub w = elim (Bool-cases (has_key key sub.recent_keys_set)) [
  | inl seen ↦ rw seen w
  | inr new ↦
      let (d, b, s) =
        evict-window sub.dedup_window (sub.recent_keys ++ key ∷ []) (key ∷ sub.recent_keys_set)
          (Distinct-append sub.recent_keys key w.distinct (ground (arith, w.same key)))
          (λ k.
            ground (arith, w.same k, any-append (λ i. str_eq i k) sub.recent_keys (key ∷ []))) in
      rw new (record { distinct = d; bounded = b; same = s })
]

record_event-IsWindow :
    (idempotent : Bool) (key : Option String) (sub : Subscription)
    → IsWindow sub
    → IsWindow (record_event idempotent key sub)
unfolding record_event
record_event-IsWindow false key sub w = w
record_event-IsWindow true none sub w = w
record_event-IsWindow true (some k) sub w = record_key-IsWindow k sub w

after_handler-IsWindow :
    (succeeds : Bool) (event : Event) (sub : Subscription)
    → IsWindow sub
    → IsWindow (after_handler succeeds event sub)
unfolding after_handler
after_handler-IsWindow false event sub w = w
after_handler-IsWindow true event sub w =
    record_event-IsWindow sub.idempotent event.idempotency_key sub w

deliver_from-IsWindow :
    (queue : List Event) (succeeds : Bool) (sub : Subscription)
    → IsWindow sub
    → IsWindow (deliver_from queue succeeds sub)
unfolding deliver_from
deliver_from-IsWindow [] succeeds sub w = w
deliver_from-IsWindow (event ∷ rest) succeeds sub w =
    after_handler-IsWindow succeeds event
      (record sub { queue = rest; handled = sub.handled ++ event ∷ [] })
      (record { distinct = w.distinct; bounded = w.bounded; same = w.same })

accept-IsWindow : (event : Event) (sub : Subscription) → IsWindow sub → IsWindow (accept event sub)
unfolding accept
accept-IsWindow event sub w = elim (Bool-cases (is_duplicate event sub)) [
  | inl d ↦ rw d w
  | inr d ↦ rw d (record { distinct = w.distinct; bounded = w.bounded; same = w.same })
]

pub local-IsWindow :
    (n : ℕ) (s : Step) (sub : Subscription) → IsWindow sub → IsWindow (local n s sub)
unfolding deliver
local-IsWindow n (publication event) sub w =
    elim (Bool-cases (sub.event_type == event.event_type)) [
      | inl e ↦ rw e (accept-IsWindow event sub w)
      | inr e ↦ rw e w
    ]
local-IsWindow n (turn m succeeds) sub w = elim (Bool-cases (m == n)) [
  | inl e ↦ rw e (deliver_from-IsWindow sub.queue succeeds sub w)
  | inr e ↦ rw e w
]

-- Over any steps a subscription keeps its window: no key twice, no more keys than the window, and
-- the set holds exactly the keys of the deque.
pub run_local-IsWindow :
    (n : ℕ) (ss : List Step) (sub : Subscription) → IsWindow sub → IsWindow (run_local n ss sub)
run_local-IsWindow n [] sub w = w
run_local-IsWindow n (s ∷ ss) sub w =
    run_local-IsWindow n ss (local n s sub) (local-IsWindow n s sub w)

-- On a bus: each subscription that keeps its window keeps it over any steps of publishers and
-- workers: no key twice, no more keys than the window, and the set holds the keys of the deque.
pub run-IsWindow :
    (n : ℕ) (ss : List Step) (subs : List Subscription) (sub : Subscription)
    → nth n subs ≡ some sub
    → IsWindow sub
    → (sub' : Subscription) × (nth n (run ss subs) ≡ some sub') × IsWindow sub'
run-IsWindow n ss subs sub h w =
    (run_local n ss sub, rw (nth-run n ss subs, h) refl, run_local-IsWindow n ss sub w)
